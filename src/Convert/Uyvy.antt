-- ===== src/Convert/Uyvy.antt =====
-- `convert_uyvy_to_rgb` of libfreenect/src/cameras.c. The frame's width and height are parameters of
-- the loops, 640 and 480 in the code. A read or a write out of bounds is a fault.
pub mod Colour
pub mod Laws
use quartz_composer_open_kin.Memory.{blit}
use quartz_composer_open_kin.Prelude.{
  ℕ, zero, suc, ◌+◌, ◌*◌, ◌/◌, Bool, Option, none, some, List, [], ◌∷◌, ltb, if◌then◌else◌,
  get_elem?, ◌>>=◌, ℤ, pos, negsuc, sub_ℕ, ◌+ℤ◌, ◌-ℤ◌, ◌*ℤ◌, quot,
}

-- `a * f / 1000` in `int`.
unfoldable pub scale : ℤ → ℕ → ℤ
unfolding quot ◌*ℤ◌
scale a f = quot (a *ℤ pos f) 1000

unfoldable pub luma : ℕ → ℤ
luma y = scale (sub_ℕ y 16) 1164

-- `CLAMP`, and the store into a byte.
unfoldable pub clamp : ℤ → ℕ
clamp (negsuc n) = 0
clamp (pos n) = if ltb 255 n then 255 else n

unfoldable pub red : ℕ → ℕ → ℕ → ℕ
red u y v = clamp (luma y +ℤ scale (sub_ℕ v 128) 1596)

unfoldable pub green : ℕ → ℕ → ℕ → ℕ
green u y v = clamp (luma y -ℤ scale (sub_ℕ v 128) 813 -ℤ scale (sub_ℕ u 128) 391)

unfoldable pub blue : ℕ → ℕ → ℕ → ℕ
blue u y v = clamp (luma y +ℤ scale (sub_ℕ u 128) 2018)

-- The six bytes of two neighbouring pixels, which share `u` and `v`.
abbrev pub two_pixels : ℕ → ℕ → ℕ → ℕ → List ℕ
two_pixels u y1 v y2 =
    red u y1 v ∷ green u y1 v ∷ blue u y1 v ∷ red u y2 v ∷ green u y2 v ∷ blue u y2 v ∷ []

-- The loop's body at `i = width * y + x`.
unfoldable pub convert_pair : List ℕ → ℕ → List ℕ → Option (List ℕ)
convert_pair raw i proc = do
  u ← get_elem? raw (2 * i)
  y1 ← get_elem? raw (2 * i + 1)
  v ← get_elem? raw (2 * i + 2)
  y2 ← get_elem? raw (2 * i + 3)
  blit (3 * i) (two_pixels u y1 v y2) proc

-- `for (x = …; x < width; x += 2)` with `n` rounds left.
unfoldable pub convert_row : List ℕ → ℕ → ℕ → ℕ → ℕ → List ℕ → Option (List ℕ)
convert_row raw width y zero x proc = some proc
convert_row raw width y (suc n) x proc = do
  proc' ← convert_pair raw (width * y + x) proc
  convert_row raw width y n (x + 2) proc'

-- `for (y = …; y < height; ++y)` with `n` rounds left; a row takes `(width + 1) / 2` rounds.
unfoldable pub convert_rows : List ℕ → ℕ → ℕ → ℕ → List ℕ → Option (List ℕ)
convert_rows raw width zero y proc = some proc
convert_rows raw width (suc n) y proc = do
  proc' ← convert_row raw width y ((width + 1) / 2) 0 proc
  convert_rows raw width n (y + 1) proc'

unfoldable pub convert_uyvy_to_rgb : List ℕ → List ℕ → Option (List ℕ)
convert_uyvy_to_rgb raw proc = convert_rows raw 640 480 0 proc
