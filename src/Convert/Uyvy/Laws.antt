-- ===== src/Convert/Uyvy/Laws.antt =====
-- `convert_uyvy_to_rgb` against the stream of its pixel pairs.
use quartz_composer_open_kin.Memory.Laws.{blitted, blit-fits, length-blitted, take-blitted}
use quartz_composer_open_kin.Convert.Uyvy.{
  two_pixels, convert_pair, convert_row, convert_rows, convert_uyvy_to_rgb,
}
use quartz_composer_open_kin.Prelude.{
  ℕ, zero, suc, ◌+◌, ◌*◌, ◌/◌, ◌≤◌, ◌<◌, ◌≡◌, Option, some, List, [], ◌∷◌, ◌++◌, arith, length,
  take, get_or, get_elem?, refl, ap, ◌∙◌, ◌>>=◌, append-nil, append_assoc,
}

-- The pair of pixels `i` and `i + 1`, and the `m` pairs from pixel `i` on.
abbrev pub pair_at : List ℕ → ℕ → List ℕ
pair_at raw i =
    two_pixels (get_or raw (2 * i) 0) (get_or raw (2 * i + 1) 0) (get_or raw (2 * i + 2) 0)
      (get_or raw (2 * i + 3) 0)

abbrev pub pairs_from : List ℕ → ℕ → ℕ → List ℕ
pairs_from raw i zero = []
pairs_from raw i (suc m) = pair_at raw i ++ pairs_from raw (i + 2) m

get_elem?-eq-get_or : (xs : List ℕ) (i : ℕ) → i < length xs → get_elem? xs i ≡ some (get_or xs i 0)
get_elem?-eq-get_or [] i h = absurd (omega arith)
get_elem?-eq-get_or (x ∷ xs) zero h = refl
get_elem?-eq-get_or (x ∷ xs) (suc i) h = get_elem?-eq-get_or xs i (omega arith)

convert_pair-returns :
    (raw : List ℕ) (i : ℕ) (proc : List ℕ)
    → 2 * i + 4 ≤ length raw
    → 3 * i + 6 ≤ length proc
    → convert_pair raw i proc ≡ some (blitted (3 * i) (pair_at raw i) proc)
unfolding convert_pair
convert_pair-returns raw i proc l m =
    rw
      (
        get_elem?-eq-get_or raw (2 * i) (omega arith),
        get_elem?-eq-get_or raw (2 * i + 1) (omega arith),
        get_elem?-eq-get_or raw (2 * i + 2) (omega arith),
        get_elem?-eq-get_or raw (2 * i + 3) (omega arith),
      )
      (blit-fits (3 * i) (pair_at raw i) proc m)

-- A return that wrote `m` pairs from pixel `i` on, behind what was there.
record IsConverted (raw : List ℕ) (i m : ℕ) (proc : List ℕ) (r : Option (List ℕ)) : Type 0 where
  out : List ℕ
  returns : r ≡ some out
  same_length : length out ≡ length proc
  bytes : take (3 * i + 6 * m) out ≡ take (3 * i) proc ++ pairs_from raw i m

nothing : (raw : List ℕ) (i : ℕ) (proc : List ℕ) → IsConverted raw i 0 proc (some proc)
nothing raw i proc = record {
  out = proc;
  returns = refl;
  same_length = refl;
  bytes = let e : 3 * i + 6 * 0 ≡ 3 * i = omega arith in rw (e, append-nil);
}

pairs_from-add :
    (raw : List ℕ) (i a b : ℕ)
    → pairs_from raw i (a + b) ≡ pairs_from raw i a ++ pairs_from raw (i + 2 * a) b
pairs_from-add raw i zero b =
    let e : 0 + b ≡ b = omega arith in let f : i + 2 * 0 ≡ i = omega arith in rw (e, f)
pairs_from-add raw i (suc a) b =
    let e : suc a + b ≡ suc (a + b) = omega arith in
    let f : i + 2 + 2 * a ≡ i + 2 * suc a = omega arith in
    rw (e, pairs_from-add raw (i + 2) a b, f, append_assoc)

-- One run after another.
then-IsConverted :
    (raw : List ℕ) (i a b : ℕ) (proc : List ℕ) {r : Option (List ℕ)} (f : List ℕ → Option (List ℕ))
    → (c : IsConverted raw i a proc r) → IsConverted raw (i + 2 * a) b c.out (f c.out)
    → IsConverted raw i (a + b) proc (r >>= f)
then-IsConverted raw i a b proc f c d = record {
  out = d.out;
  returns = ap (λ o. o >>= f) c.returns ∙ d.returns;
  same_length = d.same_length ∙ c.same_length;
  bytes =
      let e : 3 * i + 6 * (a + b) ≡ 3 * (i + 2 * a) + 6 * b = omega arith in
      let g : 3 * (i + 2 * a) ≡ 3 * i + 6 * a = omega arith in
      rw (e, d.bytes, g, c.bytes, pairs_from-add raw i a b, append_assoc);
}

convert_pair-IsConverted :
    (raw : List ℕ) (i : ℕ) (proc : List ℕ)
    → 2 * i + 4 ≤ length raw
    → 3 * i + 6 ≤ length proc
    → IsConverted raw i 1 proc (convert_pair raw i proc)
convert_pair-IsConverted raw i proc l m = record {
  out = blitted (3 * i) (pair_at raw i) proc;
  returns = convert_pair-returns raw i proc l m;
  same_length = length-blitted (3 * i) (pair_at raw i) proc m;
  bytes = rw append-nil (take-blitted (3 * i) (pair_at raw i) proc m);
}

convert_row-IsConverted :
    (raw : List ℕ) (width y n x i : ℕ) (proc : List ℕ)
    → i ≡ width * y + x
    → 2 * i + 4 * n ≤ length raw
    → 3 * i + 6 * n ≤ length proc
    → IsConverted raw i n proc (convert_row raw width y n x proc)
unfolding convert_row
convert_row-IsConverted raw width y zero x i proc e l m = nothing raw i proc
convert_row-IsConverted raw width y (suc n) x i proc e l m =
    let one = convert_pair-IsConverted raw i proc (omega arith) (omega arith) in
    let rest =
      convert_row-IsConverted raw width y n (x + 2) (i + 2 * 1) one.out (omega (arith, e))
        (omega arith) (omega (arith, one.same_length)) in
    let s : 1 + n ≡ suc n = omega arith in
    (rw (← e)
      (rw s at (then-IsConverted raw i 1 n proc (convert_row raw width y n (x + 2)) one rest)))

convert_rows-IsConverted :
    (raw : List ℕ) (w n y i : ℕ) (proc : List ℕ)
    → i ≡ 2 * w * y
    → 2 * i + 4 * (n * w) ≤ length raw
    → 3 * i + 6 * (n * w) ≤ length proc
    → IsConverted raw i (n * w) proc (convert_rows raw (2 * w) n y proc)
unfolding convert_rows
convert_rows-IsConverted raw w zero y i proc e l m =
    let z : 0 * w ≡ 0 = omega arith in rw z (nothing raw i proc)
convert_rows-IsConverted raw w (suc n) y i proc e l m =
    let half : (2 * w + 1) / 2 ≡ w = omega arith in
    let s : suc n * w ≡ w + n * w = omega arith in
    let row =
      convert_row-IsConverted raw (2 * w) y w 0 i proc (omega (arith, e)) (omega arith)
        (omega arith) in
    let rest =
      convert_rows-IsConverted raw w n (y + 1) (i + 2 * w) row.out (omega (arith, e)) (omega arith)
        (omega (arith, row.same_length)) in
    (rw (s, half)
      (then-IsConverted raw i w (n * w) proc (convert_rows raw (2 * w) n (y + 1)) row rest))

-- Conversion of a UYVY frame. For a raw frame of 640 by 480 pixels, two bytes each, and room for
-- three bytes a pixel, the conversion reads and writes only inside its buffers, keeps the length of
-- the processed buffer, and fills its first 921600 bytes with the pixel pairs in their order, each
-- computed from the four raw bytes at its own place.
pub convert_uyvy_to_rgb-pairs :
    (raw proc : List ℕ)
    → 614400 ≤ length raw
    → 921600 ≤ length proc
    → (out : List ℕ) × (convert_uyvy_to_rgb raw proc ≡ some out)
      × (length out ≡ length proc)
      × (take 921600 out ≡ pairs_from raw 0 153600)
unfolding convert_uyvy_to_rgb
convert_uyvy_to_rgb-pairs raw proc l m =
    let c = convert_rows-IsConverted raw 320 480 0 0 proc refl l m in
    (c.out, c.returns, c.same_length, c.bytes)
