-- ===== src/Camera/Process/Converts.antt =====
-- The pixel conversions on buffers of bytes: what they write are bytes again, and as many as the
-- processed frame has room for.
use quartz_composer_open_kin.Camera.Process.{words, as_words}
use quartz_composer_open_kin.Camera.Process.Laws.{length-words}
use quartz_composer_open_kin.Convert.Bayer.{convert_bayer_to_rgb, is_odd}
use quartz_composer_open_kin.Convert.Bayer.Frame.{convert_bayer_to_rgb-demosaics}
use quartz_composer_open_kin.Convert.Bayer.Line.{AreBytes}
use quartz_composer_open_kin.Convert.Bayer.Reference.{
  Row, row_at, average, demosaic, columns_from, line_of, lines_from, above, below, left_of,
  right_of, colours,
}
use quartz_composer_open_kin.Convert.Packed.{convert_packed_to_16bit, convert_packed_to_8bit}
use quartz_composer_open_kin.Convert.Packed.Agree.{convert_packed_to_8bit-agrees}
use quartz_composer_open_kin.Convert.Packed.Laws.{convert_packed_to_16bit-spells}
use quartz_composer_open_kin.Convert.Packed.Value.{AllBelow}
use quartz_composer_open_kin.Convert.Uyvy.{
  convert_pair, convert_row, convert_rows, convert_uyvy_to_rgb, two_pixels,
}
use quartz_composer_open_kin.Convert.Uyvy.Colour.{colours_bounded}
use quartz_composer_open_kin.Convert.Uyvy.Laws.{convert_uyvy_to_rgb-pairs}
use quartz_composer_open_kin.Memory.Bytes.{AllBelow-append, AllBelow-get_or, blit-bytes, some-eq}
use quartz_composer_open_kin.Prelude.{
  ℕ, zero, suc, ◌+◌, ◌*◌, ◌/◌, ◌^◌, ◌≤◌, ◌<◌, ◌≡◌, Bool, Option, some, List, [], ◌∷◌, arith, length,
  refl, ◌∙◌, length-append, map, get_elem?, >>=-eq_some,
}

-- A conversion that, of `rlen` raw bytes, makes bytes that fit in a buffer of `plen`.
abbrev pub Converts : (List ℕ → List ℕ → Option (List ℕ)) → ℕ → ℕ → Type 0
Converts f rlen plen =
    (raw proc : List ℕ)
    → rlen ≤ length raw
    → AllBelow 256 raw
    → plen ≤ length proc
    → AllBelow 256 proc
    → (out : List ℕ) × (f raw proc ≡ some out) × (length out ≤ length proc) × AllBelow 256 out

words-bytes : (n : ℕ) (ws : List ℕ) → n ≤ 65536 → AllBelow n ws → AllBelow 256 (words ws)
words-bytes n [] l a = tt
words-bytes n (w ∷ ws) l (b, a) = (omega arith, (omega arith, words-bytes n ws l a))

pub to_words-Converts :
    (vw len rlen plen : ℕ)
    → vw ≤ 16
    → 2 ^ vw ≤ 65536
    → len * vw ≤ 8 * rlen
    → 2 * len ≤ plen
    → Converts (λ raw proc. as_words (convert_packed_to_16bit raw vw len)) rlen plen
to_words-Converts vw len rlen plen v p l m raw proc r a q b =
    let (ws, e, n, s, t) = convert_packed_to_16bit-spells raw vw len v a (omega arith) in
    (words ws, rw e refl, omega (arith, length-words ws), words-bytes (2 ^ vw) ws p s)

high_byte : (ws : List ℕ) → AllBelow 1024 ws → AllBelow 256 (map (λ v. v / 2 ^ 2) ws)
high_byte [] a = tt
high_byte (w ∷ ws) (b, a) = (omega arith, high_byte ws a)

length-high : (ws : List ℕ) → length (map (λ v. v / 2 ^ 2) ws) ≡ length ws
length-high [] = refl
length-high (w ∷ ws) = omega (arith, length-high ws)

pub to_bytes-Converts :
    (len rlen plen : ℕ)
    → len * 10 ≤ 8 * rlen
    → len ≤ plen
    → Converts (λ raw proc. convert_packed_to_8bit raw 10 len) rlen plen
to_bytes-Converts len rlen plen l m raw proc r a q b =
    let (ws, e, n, s, t) =
      convert_packed_to_16bit-spells raw 10 len (omega arith) a (omega arith) in
    (
      map (λ v. v / 2 ^ 2) ws,
      convert_packed_to_8bit-agrees raw 10 len (omega arith) (omega arith) ∙ rw e refl,
      omega (arith, length-high ws),
      high_byte ws s,
    )

-- The demosaicing averages bytes.
abbrev ByteRow : Row → Type 0
ByteRow r = (x : ℕ) → r x < 256

colours-bytes :
    (y_odd x_odd : Bool) (l c r end_l end_c end_r : ℕ)
    → l < 256
    → c < 256
    → r < 256
    → end_l < 256
    → end_c < 256
    → end_r < 256
    → AllBelow 256 (colours y_odd x_odd l c r end_l end_c end_r)
      × (length (colours y_odd x_odd l c r end_l end_c end_r) ≡ 3)
colours-bytes y_odd x_odd l c r end_l end_c end_r p q s t u v = ground arith

demosaic-bytes :
    (y_odd : Bool) (width : ℕ) (line ends : Row) (x : ℕ)
    → ByteRow line
    → ByteRow ends
    → AllBelow 256 (demosaic y_odd width line ends x)
      × (length (demosaic y_odd width line ends x) ≡ 3)
demosaic-bytes y_odd width line ends x l e =
    colours-bytes y_odd (is_odd x) _ _ _ _ _ _ (l (left_of x)) (l x) (l (right_of width x))
      (e (left_of x)) (e x) (e (right_of width x))

columns-bytes :
    (y_odd : Bool) (width : ℕ) (line ends : Row) (x n : ℕ)
    → ByteRow line
    → ByteRow ends
    → AllBelow 256 (columns_from y_odd width line ends x n)
      × (length (columns_from y_odd width line ends x n) ≡ 3 * n)
columns-bytes y_odd width line ends x zero l e = (tt, omega arith)
columns-bytes y_odd width line ends x (suc n) l e =
    let d = demosaic-bytes y_odd width line ends x l e in
    let r = columns-bytes y_odd width line ends (x + 1) n l e in
    let here = demosaic y_odd width line ends x in
    let rest = columns_from y_odd width line ends (x + 1) n in
    (AllBelow-append 256 here rest d.0 r.0, omega (arith, length-append here rest, d.1, r.1))

lines-bytes :
    (raw : List ℕ) (width height y n : ℕ)
    → AreBytes raw
    → AllBelow 256 (lines_from raw width height y n)
      × (length (lines_from raw width height y n) ≡ n * (3 * width))
lines-bytes raw width height y zero a = (tt, omega arith)
lines-bytes raw width height y (suc n) a =
    let ends : ByteRow
        (average (row_at raw (above y * width)) (row_at raw (below height y * width))) =
      λ x. half _ _ (a _) (a _) in
    let d =
      columns-bytes (is_odd y) width (row_at raw (y * width)) _ 0 width (λ x. a (y * width + x))
        ends in
    let r = lines-bytes raw width height (y + 1) n a in
    let here = line_of raw width height y in
    let rest = lines_from raw width height (y + 1) n in
    (AllBelow-append 256 here rest d.0 r.0, omega (arith, length-append here rest, d.1, r.1))
  where
    half : (p q : ℕ) → p < 256 → q < 256 → (p + q) / 2 < 256
    half p q l m = omega arith

within : (k m : ℕ) → k ≡ 480 * (3 * 640) → 921600 ≤ m → k ≤ m
within k m e l = omega arith

pub convert_bayer_to_rgb-Converts : Converts (λ raw proc. convert_bayer_to_rgb raw) 307200 921600
convert_bayer_to_rgb-Converts raw proc r a q b =
    let bytes : AreBytes raw = λ i. AllBelow-get_or 256 raw i (omega arith) a in
    let l = lines-bytes raw 640 480 0 480 bytes in
    (
      lines_from raw 640 480 0 480,
      (convert_bayer_to_rgb-demosaics raw r bytes).0,
      within _ _ l.1 q,
      l.0,
    )

two_pixels-bytes : (u y1 v y2 : ℕ) → AllBelow 256 (two_pixels u y1 v y2)
two_pixels-bytes u y1 v y2 =
    let c = colours_bounded u y1 v in
    let d = colours_bounded u y2 v in
    (omega arith, (omega arith, (omega arith, (omega arith, (omega arith, (omega arith, tt))))))

convert_pair-bytes :
    (raw : List ℕ) (i : ℕ) (proc out : List ℕ)
    → convert_pair raw i proc ≡ some out
    → AllBelow 256 proc
    → AllBelow 256 out
unfolding convert_pair
convert_pair-bytes raw i proc out e a =
    let (u, p, f) = >>=-eq_some (get_elem? raw (2 * i)) _ e in
    let (y1, q, g) = >>=-eq_some (get_elem? raw (2 * i + 1)) _ f in
    let (v, r, h) = >>=-eq_some (get_elem? raw (2 * i + 2)) _ g in
    let (y2, s, k) = >>=-eq_some (get_elem? raw (2 * i + 3)) _ h in
    blit-bytes (3 * i) (two_pixels u y1 v y2) proc out k (two_pixels-bytes u y1 v y2) a

convert_row-bytes :
    (raw : List ℕ) (width y n x : ℕ) (proc out : List ℕ)
    → convert_row raw width y n x proc ≡ some out
    → AllBelow 256 proc
    → AllBelow 256 out
unfolding convert_row
convert_row-bytes raw width y zero x proc out e a = rw (some-eq e) at a
convert_row-bytes raw width y (suc n) x proc out e a =
    let (mid, p, f) = >>=-eq_some (convert_pair raw (width * y + x) proc) _ e in
    convert_row-bytes raw width y n (x + 2) mid out f
      (convert_pair-bytes raw (width * y + x) proc mid p a)

convert_rows-bytes :
    (raw : List ℕ) (width n y : ℕ) (proc out : List ℕ)
    → convert_rows raw width n y proc ≡ some out
    → AllBelow 256 proc
    → AllBelow 256 out
unfolding convert_rows
convert_rows-bytes raw width zero y proc out e a = rw (some-eq e) at a
convert_rows-bytes raw width (suc n) y proc out e a =
    let (mid, p, f) = >>=-eq_some (convert_row raw width y ((width + 1) / 2) 0 proc) _ e in
    convert_rows-bytes raw width n (y + 1) mid out f
      (convert_row-bytes raw width y ((width + 1) / 2) 0 proc mid p a)

pub convert_uyvy_to_rgb-Converts : Converts convert_uyvy_to_rgb 614400 921600
unfolding convert_uyvy_to_rgb
convert_uyvy_to_rgb-Converts raw proc r a q b =
    let (out, e, l, t) = convert_uyvy_to_rgb-pairs raw proc r q in
    (
      out,
      e,
      omega arith,
      convert_rows-bytes raw 640 480 0 proc out (unfold convert_uyvy_to_rgb in e) b,
    )
