-- ===== src/Plugin/Render/Pixels.antt =====
-- The pixels that `renderToBuffer:` of RGBOutputImageProvider.mm writes, pixel by pixel.
use quartz_composer_open_kin.Memory.Behind.{blit-behind, drop-twice}
use quartz_composer_open_kin.Plugin.Render.{
  PixelFormat, argb8, bgra8, in_format, render_pixel, render_columns, render_rows,
}
use quartz_composer_open_kin.Prelude.{
  ℕ, zero, suc, ◌+◌, ◌*◌, ◌≤◌, ◌<◌, ◌≡◌, some, List, [], ◌∷◌, ◌++◌, arith, length, refl, get_elem?,
  get_or, ap, append_assoc, append-nil, drop, length-append, length-drop, sym, ◌∙◌, >>=-some,
}

-- Pixel `k` of the frame, and `n` pixels from pixel `k` on, in the order of the frame.
abbrev pub pixel_at : PixelFormat → List ℕ → ℕ → List ℕ
pixel_at fmt front k =
    in_format fmt (get_or front (k * 3) 0) (get_or front (k * 3 + 1) 0) (get_or front (k * 3 + 2) 0)

abbrev pub pixels : PixelFormat → List ℕ → ℕ → ℕ → List ℕ
pixels fmt front k zero = []
pixels fmt front k (suc n) = pixel_at fmt front k ++ pixels fmt front (k + 1) n

get_elem-get_or : (xs : List ℕ) (i : ℕ) → i < length xs → get_elem? xs i ≡ some (get_or xs i 0)
get_elem-get_or [] i l = absurd (omega arith)
get_elem-get_or (x ∷ xs) zero l = refl
get_elem-get_or (x ∷ xs) (suc i) l = get_elem-get_or xs i (omega arith)

pixels-append :
    (fmt : PixelFormat) (front : List ℕ) (k m n : ℕ)
    → pixels fmt front k m ++ pixels fmt front (k + m) n ≡ pixels fmt front k (m + n)
pixels-append fmt front k zero n =
    let a : k + 0 ≡ k = omega arith in let b : 0 + n ≡ n = omega arith in rw (a, b) refl
pixels-append fmt front k (suc m) n =
    let a : k + suc m ≡ k + 1 + m = omega arith in
    let b : suc m + n ≡ suc (m + n) = omega arith in
    rw (a, b, ← pixels-append fmt front (k + 1) m n)
      (append_assoc (pixel_at fmt front k) (pixels fmt front (k + 1) m)
        (pixels fmt front (k + 1 + m) n))

length-pixel_at : (fmt : PixelFormat) (front : List ℕ) (k : ℕ) → length (pixel_at fmt front k) ≡ 4
length-pixel_at argb8 front k = refl
length-pixel_at bgra8 front k = refl

length-pixels :
    (fmt : PixelFormat) (front : List ℕ) (k n : ℕ) → length (pixels fmt front k n) ≡ 4 * n
length-pixels fmt front k zero = refl
length-pixels fmt front k (suc n) = omega (
  arith,
  length-append (pixel_at fmt front k) (pixels fmt front (k + 1) n),
  length-pixel_at fmt front k,
  length-pixels fmt front (k + 1) n,
)

render_pixel-stores :
    (fmt : PixelFormat) (front : List ℕ) (width i j : ℕ) (w r : List ℕ)
    → (i * width + j) * 3 + 2 < length front
    → length w ≡ 4 * (i * width + j)
    → 4 ≤ length r
    → render_pixel fmt front width i j (w ++ r)
      ≡ some ((w ++ pixel_at fmt front (i * width + j)) ++ drop 4 r)
unfolding render_pixel
render_pixel-stores fmt front width i j w r l at_w room =
    let e : j * 3 + i * width * 3 ≡ (i * width + j) * 3 = omega arith in
    let f : j * 4 + i * width * 4 ≡ length w = omega (arith, at_w) in
    let px = pixel_at fmt front (i * width + j) in
    let four : length px ≡ 4 = length-pixel_at fmt front (i * width + j) in
    rw
      (
        e,
        f,
        get_elem-get_or front ((i * width + j) * 3) (omega arith),
        get_elem-get_or front ((i * width + j) * 3 + 1) (omega arith),
        get_elem-get_or front ((i * width + j) * 3 + 2) l,
      )
      (blit-behind w r px (omega (arith, four, room))
        ∙ ap (λ (n : ℕ). some ((w ++ px) ++ drop n r)) four)

columns-pixels :
    (fmt : PixelFormat) (front : List ℕ) (width i n j : ℕ) (w r : List ℕ)
    → (i * width + j + n) * 3 ≤ length front
    → length w ≡ 4 * (i * width + j)
    → 4 * n ≤ length r
    → render_columns fmt front width i n j (w ++ r)
      ≡ some ((w ++ pixels fmt front (i * width + j) n) ++ drop (4 * n) r)
unfolding render_columns
columns-pixels fmt front width i zero j w r l at_w room =
    ap (λ (v : List ℕ). some (v ++ r)) (sym (append-nil w))
columns-pixels fmt front width i (suc n) j w r l at_w room =
    let k = i * width + j in
    let px = pixel_at fmt front k in
    let next : i * width + (j + 1) ≡ k + 1 = omega arith in
    let four = length-pixel_at fmt front k in
    let bytes : 4 + 4 * n ≡ 4 * suc n = omega arith in
    >>=-some _ (render_pixel-stores fmt front width i j w r (omega arith) at_w (omega arith))
    ∙ columns-pixels fmt front width i n (j + 1) (w ++ px) (drop 4 r) (omega arith)
        (omega (arith, length-append w px, four, at_w)) (omega (arith, length-drop 4 r, room))
    ∙ ap (λ (m : ℕ). some (((w ++ px) ++ pixels fmt front m n) ++ drop (4 * n) (drop 4 r))) next
    ∙ ap (λ (v : List ℕ). some (v ++ drop (4 * n) (drop 4 r)))
        (append_assoc w px (pixels fmt front (k + 1) n))
    ∙ ap (λ (v : List ℕ). some ((w ++ pixels fmt front k (suc n)) ++ v))
        (drop-twice 4 (4 * n) r ∙ ap (λ (m : ℕ). drop m r) bytes)

rows-pixels :
    (fmt : PixelFormat) (front : List ℕ) (width n i : ℕ) (w r : List ℕ)
    → (i * width + n * width) * 3 ≤ length front
    → length w ≡ 4 * (i * width)
    → 4 * (n * width) ≤ length r
    → render_rows fmt front width n i (w ++ r)
      ≡ some ((w ++ pixels fmt front (i * width) (n * width)) ++ drop (4 * (n * width)) r)
unfolding render_rows
rows-pixels fmt front width zero i w r l at_w room =
    let a : 0 * width ≡ 0 = omega arith in
    rw a (ap (λ (v : List ℕ). some (v ++ r)) (sym (append-nil w)))
rows-pixels fmt front width (suc n) i w r l at_w room =
    let row = pixels fmt front (i * width) width in
    let here : i * width + 0 ≡ i * width = omega arith in
    let more : suc n * width ≡ width + n * width = omega arith in
    let below : (i + 1) * width ≡ i * width + width = omega arith in
    let bytes : 4 * width + 4 * (n * width) ≡ 4 * (suc n * width) = omega (arith, more) in
    let rest = drop (4 * (n * width)) (drop (4 * width) r) in
    >>=-some _ (
      columns-pixels fmt front width i width 0 w r (omega (arith, more, l)) (omega (arith, at_w))
        (omega (arith, more, room))
      ∙ ap (λ (m : ℕ). some ((w ++ pixels fmt front m width) ++ drop (4 * width) r)) here)
    ∙ rows-pixels fmt front width n (i + 1) (w ++ row) (drop (4 * width) r)
        (omega (arith, below, more, l))
        (omega (arith, length-append w row, length-pixels fmt front (i * width) width, at_w, below))
        (omega (arith, length-drop (4 * width) r, more, room))
    ∙ ap (λ (m : ℕ). some (((w ++ row) ++ pixels fmt front m (n * width)) ++ rest)) below
    ∙ ap (λ (v : List ℕ). some (v ++ rest))
        (append_assoc w row (pixels fmt front (i * width + width) (n * width)))
    ∙ ap (λ (v : List ℕ). some ((w ++ v) ++ rest))
        (pixels-append fmt front (i * width) width (n * width))
    ∙ ap (λ (m : ℕ). some ((w ++ pixels fmt front (i * width) m) ++ rest)) (sym more)
    ∙ ap (λ (v : List ℕ). some ((w ++ pixels fmt front (i * width) (suc n * width)) ++ v))
        (drop-twice (4 * width) (4 * (n * width)) r ∙ ap (λ (m : ℕ). drop m r) bytes)

-- The rendered image. Where the front buffer holds a frame of the bounds' size, and the destination
-- four bytes for each of its pixels, `renderToBuffer:` reads and writes inside them, in both formats.
-- The destination then begins with the frame's pixels in their order: pixel `k` is 0xff and the bytes
-- `3k`, `3k + 1` and `3k + 2` of the frame for ARGB, and the same four bytes in reverse for BGRA; what
-- is behind them is unchanged.
pub render_rows-pixels :
    (fmt : PixelFormat) (front : List ℕ) (width height : ℕ) (buf : List ℕ)
    → height * width * 3 ≤ length front
    → 4 * (height * width) ≤ length buf
    → render_rows fmt front width height 0 buf
      ≡ some (pixels fmt front 0 (height * width) ++ drop (4 * (height * width)) buf)
render_rows-pixels fmt front width height buf l room =
    let a : 0 * width ≡ 0 = omega arith in
    rw a at (rows-pixels fmt front width height 0 [] buf (omega arith) (omega arith) room)
