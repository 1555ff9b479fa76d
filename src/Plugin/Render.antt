-- ===== src/Plugin/Render.antt =====
-- The pixels that `renderToBuffer:` of RGBOutputImageProvider.mm writes. The bounds' width and height
-- are whole numbers. The four stores of a pixel are one step, `rowBytes` is not used, as in the code, and
-- a read past `_rgb_front` or a store past the destination is a fault.
pub mod Pixels
use quartz_composer_open_kin.Memory.{blit}
use quartz_composer_open_kin.Prelude.{
  ℕ, zero, suc, ◌+◌, ◌*◌, Option, none, some, List, [], ◌∷◌, ◌++◌, get_elem?, ◌>>=◌,
}

-- `QCPlugInPixelFormatARGB8` and `QCPlugInPixelFormatBGRA8`
pub data PixelFormat : Type 0 where
  argb8 bgra8 : PixelFormat

abbrev pub in_format : PixelFormat → ℕ → ℕ → ℕ → List ℕ
in_format argb8 r g b = 0xff ∷ r ∷ g ∷ b ∷ []
in_format bgra8 r g b = b ∷ g ∷ r ∷ 0xff ∷ []

-- The body of the loops at row `i` and column `j`, on the destination.
unfoldable pub render_pixel : PixelFormat → List ℕ → ℕ → ℕ → ℕ → List ℕ → Option (List ℕ)
render_pixel fmt front width i j buf = do
  r ← get_elem? front (j * 3 + i * width * 3)
  g ← get_elem? front (j * 3 + i * width * 3 + 1)
  b ← get_elem? front (j * 3 + i * width * 3 + 2)
  blit (j * 4 + i * width * 4) (in_format fmt r g b) buf

-- The loop over the columns and the one over the rows, with `n` rounds left.
unfoldable pub render_columns : PixelFormat → List ℕ → ℕ → ℕ → ℕ → ℕ → List ℕ → Option (List ℕ)
render_columns fmt front width i zero j buf = some buf
render_columns fmt front width i (suc n) j buf = do
  buf' ← render_pixel fmt front width i j buf
  render_columns fmt front width i n (j + 1) buf'

unfoldable pub render_rows : PixelFormat → List ℕ → ℕ → ℕ → ℕ → List ℕ → Option (List ℕ)
render_rows fmt front width zero i buf = some buf
render_rows fmt front width (suc n) i buf = do
  buf' ← render_columns fmt front width i width 0 buf
  render_rows fmt front width n (i + 1) buf'
