-- ===== src/Convert/Packed/Laws.antt =====
-- The conversions of packed frames against the number that the bytes spell: the pixels are its
-- digits in base `2 ^ vw`, and the 32-bit buffer never loses a bit that still counts.
use native.Mathlib.Nat.{
  pow-suc, pow-zero, add-mul, mod-lt, mod-eq_of_lt, le-mul_of_pos_right, div-eq_of_lt-le,
}
use quartz_composer_open_kin.Bits.{bit_and-mask}
use quartz_composer_open_kin.Convert.Packed.{
  Reader, refill, unpack, pixel16, convert_packed_to_16bit,
}
use quartz_composer_open_kin.Convert.Packed.Value.{
  value, AllBelow, pow-add, pow-mul, pow-pos, mod-mul_split, shift_in,
}
use quartz_composer_open_kin.Prelude.{
  ℕ, zero, suc, ◌+◌, ◌-◌, ◌*◌, ◌/◌, ◌%◌, ◌^◌, ◌≤◌, ◌<◌, ◌≡◌, Option, some, List, [], ◌∷◌, arith,
  length, refl, ap, ◌∙◌, sym, ltb, Bool-cases, inl, inr, u32, bit_or,
}

-- The number that the bits in the buffer and the bytes to come spell.
abbrev pending : ℕ → ℕ → List ℕ → ℕ
pending buffer k raw = buffer % 2 ^ k * 256 ^ length raw + value 256 raw

record IsRefilled (vw buffer k : ℕ) (raw : List ℕ) (r : Option Reader) : Type 0 where
  reader : Reader
  returns : r ≡ some reader
  enough : vw ≤ reader.bits_in
  not_more : reader.bits_in < vw + 8
  total : 8 * length reader.raw + reader.bits_in ≡ 8 * length raw + k
  bytes : AllBelow 256 reader.raw
  same : pending reader.buffer reader.bits_in reader.raw ≡ pending buffer k raw

refill-IsRefilled :
    (vw buffer k : ℕ) (raw : List ℕ)
    → vw ≤ 25
    → k < vw + 8
    → vw ≤ 8 * length raw + k
    → AllBelow 256 raw
    → IsRefilled vw buffer k raw (refill vw buffer k raw)
unfolding refill
refill-IsRefilled vw buffer k [] l m e a = record {
  reader = record { buffer = buffer; bits_in = k; raw = [] };
  returns = ground arith;
  enough = omega arith;
  not_more = m;
  total = refl;
  bytes = tt;
  same = refl;
}
refill-IsRefilled vw buffer k (b ∷ raw) l m e a = elim (Bool-cases (ltb k vw)) [
  | inl less ↦
      (let less' : k < vw = ground arith in
        let rest =
          refill-IsRefilled vw (bit_or (u32 (buffer * 2 ^ 8)) b) (k + 8) raw l (omega arith)
            (omega arith) a.1 in
        rw (less, refill)
          (record {
            reader = rest.reader;
            returns = rest.returns;
            enough = rest.enough;
            not_more = rest.not_more;
            total = omega (arith, rest.total);
            bytes = rest.bytes;
            same =
                rest.same
                ∙ (ap (λ (t : ℕ). t * 256 ^ length raw + value 256 raw)
                      (shift_in k buffer b (omega arith) a.0)
                    ∙ regroup (buffer % 2 ^ k) b (length raw) (value 256 raw));
          }))
  | inr done ↦
      rw (done, refill)
        (record {
          reader = record { buffer = buffer; bits_in = k; raw = b ∷ raw };
          returns = refl;
          enough = ground arith;
          not_more = m;
          total = refl;
          bytes = a;
          same = refl;
        })
]
  where
    regroup : (p x n v : ℕ) → (p * 256 + x) * 256 ^ n + v ≡ p * 256 ^ suc n + (x * 256 ^ n + v)
    regroup p x n v = rw (pow-suc 256 n) (omega arith)

value-lt : (base : ℕ) (ds : List ℕ) → AllBelow base ds → value base ds < base ^ length ds
value-lt base [] a = rw (pow-zero base) (omega arith)
value-lt base (d ∷ ds) a =
    rw (pow-suc base (length ds))
      (top d base (base ^ length ds) (value base ds) a.0 (value-lt base ds a.1))
  where
    top : (d b n v : ℕ) → d < b → v < n → d * n + v < n * b
    top d b n v p q = grind arith

pending-lt :
    (buffer k : ℕ) (raw : List ℕ)
    → AllBelow 256 raw
    → pending buffer k raw < 2 ^ (8 * length raw + k)
pending-lt buffer k raw a =
    rw (pow-add (8 * length raw) k, bytes (length raw))
      (top (buffer % 2 ^ k) (2 ^ k) (256 ^ length raw) (value 256 raw) (mod-lt buffer (pow-pos k))
        (value-lt 256 raw a))
  where
    bytes : (n : ℕ) → 2 ^ (8 * n) ≡ 256 ^ n
    bytes n = let e : 8 * n ≡ n * 8 = omega arith in rw e (pow-mul 8 n)

    top : (d b n v : ℕ) → d < b → v < n → d * n + v < n * b
    top d b n v p q = grind arith

-- The pixel that 16-bit emission takes off the top of the buffer.
pub pixel16-digit :
    (vw buffer j : ℕ)
    → vw ≤ 16
    → (pixel16 vw buffer j ≡ buffer / 2 ^ j % 2 ^ vw)
      × (buffer % 2 ^ (j + vw) ≡ pixel16 vw buffer j * 2 ^ j + buffer % 2 ^ j)
pixel16-digit vw buffer j l = (
  digit,
  rw (digit, pow-add j vw) (mod-mul_split buffer (2 ^ j) (2 ^ vw) (pow-pos j) (pow-pos vw)),
)
  where
    split : 2 ^ 16 ≡ 2 ^ vw * 2 ^ (16 - vw)
    split =
        let g : 16 ≡ vw + (16 - vw) = omega arith in ap (λ (t : ℕ). 2 ^ t) g ∙ pow-add vw (16 - vw)

    small : (x : ℕ) → x % 2 ^ vw < 2 ^ 16
    small x =
        omega
          (arith, mod-lt x (pow-pos vw), split, le-mul_of_pos_right (2 ^ vw) (pow-pos (16 - vw)))

    digit : pixel16 vw buffer j ≡ buffer / 2 ^ j % 2 ^ vw
    digit = rw (bit_and-mask vw (buffer / 2 ^ j)) (mod-eq_of_lt (small (buffer / 2 ^ j)))

record IsUnpacked (vw len buffer k : ℕ) (raw : List ℕ) (r : Option (List ℕ)) : Type 0 where
  pixels : List ℕ
  rest : ℕ
  returns : r ≡ some pixels
  count : length pixels ≡ len
  small : AllBelow (2 ^ vw) pixels
  rest_small : rest < 2 ^ (8 * length raw + k - len * vw)
  spells : value (2 ^ vw) pixels * 2 ^ (8 * length raw + k - len * vw) + rest ≡ pending buffer k raw

-- What one digit weighs, counted by bits or by digits.
weight :
    (vw len j n : ℕ)
    → len * vw ≤ 8 * n + j
    → 2 ^ j * 256 ^ n ≡ 2 ^ (8 * n + j - len * vw) * (2 ^ vw) ^ len
weight vw len j n l =
    let d : j + n * 8 ≡ 8 * n + j - len * vw + len * vw = omega arith in
    rw (
      ← pow-mul 8 n,
      ← pow-add j (n * 8),
      d,
      pow-add (8 * n + j - len * vw) (len * vw),
      pow-mul vw len,
    )

put_back :
    (px w v r j n low bytes rest : ℕ)
    → v * r + rest ≡ low * n + bytes
    → j * n ≡ r * w
    → (px * w + v) * r + rest ≡ (px * j + low) * n + bytes
put_back px w v r j n low bytes rest e f = omega (arith, e, ap (λ (t : ℕ). px * t) f)

unpack-IsUnpacked :
    (vw len buffer k : ℕ) (raw : List ℕ)
    → vw ≤ 16
    → k < vw + 8
    → len * vw ≤ 8 * length raw + k
    → AllBelow 256 raw
    → IsUnpacked vw len buffer k raw (unpack (pixel16 vw) vw len buffer k raw)
unfolding unpack
unpack-IsUnpacked vw zero buffer k raw l m e a = record {
  pixels = [];
  rest = pending buffer k raw;
  returns = refl;
  count = refl;
  small = tt;
  rest_small =
      let e : 8 * length raw + k - 0 * vw ≡ 8 * length raw + k = omega arith in
      rw e (pending-lt buffer k raw a);
  spells = omega arith;
}
unpack-IsUnpacked vw (suc len) buffer k raw l m e a =
    let f = refill-IsRefilled vw buffer k raw (omega arith) m (omega arith) a in
    let b = f.reader.buffer in
    let j = f.reader.bits_in - vw in
    let n : ℕ = length f.reader.raw in
    let rest =
      unpack-IsUnpacked vw len b j f.reader.raw l (omega (arith, f.not_more))
        (omega (arith, f.total, f.enough)) f.bytes in
    let rem : 8 * n + j - len * vw ≡ 8 * length raw + k - suc len * vw =
      omega (arith, f.total, f.enough) in
    record {
      pixels = pixel16 vw b j ∷ rest.pixels;
      rest = rest.rest;
      returns = rw (f.returns, rest.returns);
      count = ap suc rest.count;
      small = (rw ((pixel16-digit vw b j l).0) (mod-lt (b / 2 ^ j) (pow-pos vw)), rest.small);
      rest_small = rw (← rem) rest.rest_small;
      spells =
          rw (← rem, rest.count)
            (put_back (pixel16 vw b j) ((2 ^ vw) ^ len) (value (2 ^ vw) rest.pixels)
                (2 ^ (8 * n + j - len * vw)) (2 ^ j) (256 ^ n) (b % 2 ^ j) (value 256 f.reader.raw)
                rest.rest rest.spells (weight vw len j n (omega (arith, f.total, f.enough)))
              ∙ (ap (λ (t : ℕ). t * 256 ^ n + value 256 f.reader.raw)
                    (sym (pixel16-digit vw b j l).1
                      ∙ ap (λ (t : ℕ). b % 2 ^ t) (omega (arith, f.enough)))
                  ∙ f.same));
    }

divide : (v r rest n : ℕ) → v * r + rest ≡ n → rest < r → v ≡ n / r
divide v r rest n e l = sym (div-eq_of_lt-le r (omega arith) (omega (arith, add-mul v 1 r)))

-- Unpacking. For pixels of at most 16 bits and a buffer of bytes that holds `len` of them,
-- `convert_packed_to_16bit` reads nothing past the buffer and returns `len` pixels below `2 ^ vw`
-- which, read as digits, spell the first `len * vw` bits of the number that the bytes spell.
pub convert_packed_to_16bit-spells :
    (raw : List ℕ) (vw len : ℕ)
    → vw ≤ 16
    → AllBelow 256 raw
    → len * vw ≤ 8 * length raw
    → (pixels : List ℕ) × (convert_packed_to_16bit raw vw len ≡ some pixels)
      × (length pixels ≡ len)
      × AllBelow (2 ^ vw) pixels
      × (value (2 ^ vw) pixels ≡ value 256 raw / 2 ^ (8 * length raw - len * vw))
unfolding convert_packed_to_16bit
convert_packed_to_16bit-spells raw vw len l a e =
    let u = unpack-IsUnpacked vw len 0 0 raw l (omega arith) (omega arith) a in
    let none_left : 8 * length raw + 0 - len * vw ≡ 8 * length raw - len * vw = omega arith in
    let start : pending 0 0 raw ≡ value 256 raw = omega arith in
    (
      u.pixels,
      u.returns,
      u.count,
      u.small,
      divide _ _ u.rest (value 256 raw) ((rw none_left at u.spells) ∙ start)
          (rw none_left at u.rest_small),
    )
