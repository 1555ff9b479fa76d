-- ===== src/Convert/Bayer/Reference.antt =====
-- The demosaicing of `convert_bayer_to_rgb` without its pointers and shift-buffers: the four
-- configurations by the parity of line and column, with the lines and columns mirrored at the frame's
-- edges. An average of four values is the average of two averages, each rounded down, as the code forms
-- it; the quotients of the comment in the source are in Convert/Bayer/Described.
use quartz_composer_open_kin.Convert.Bayer.{is_odd}
use quartz_composer_open_kin.Prelude.{
  ℕ, zero, suc, ◌+◌, ◌-◌, ◌*◌, ◌/◌, Bool, List, [], ◌∷◌, ◌++◌, ◌==◌, if◌then◌else◌, not, get_or,
}

-- One line of the raw frame, and the averages of the lines above and below it.
abbrev pub Row : Type 0
Row = ℕ → ℕ

abbrev pub row_at : List ℕ → ℕ → Row
row_at raw off x = get_or raw (off + x) 0

abbrev pub average : Row → Row → Row
average above below x = (above x + below x) / 2

-- The neighbours of column `x`, mirrored at the edges.
abbrev pub left_of : ℕ → ℕ
left_of x = if x == 0 then 1 else x - 1

abbrev pub right_of : ℕ → ℕ → ℕ
right_of width x = if x + 1 == width then x - 1 else x + 1

-- The four configurations, from the three values of the line about a pixel and the three averages
-- of the lines above and below.
abbrev pub colours : Bool → Bool → ℕ → ℕ → ℕ → ℕ → ℕ → ℕ → List ℕ
colours y_odd x_odd l c r end_l end_c end_r =
    if not y_odd
    then if not x_odd
      then ((l + r) / 2) ∷ c ∷ end_c ∷ []
      else c ∷ (((l + r) / 2 + end_c) / 2) ∷ ((end_l + end_r) / 2) ∷ []
    else if not x_odd
    then ((end_l + end_r) / 2) ∷ (((l + r) / 2 + end_c) / 2) ∷ c ∷ []
    else end_c ∷ c ∷ ((l + r) / 2) ∷ []

-- The colours of column `x` of a line.
abbrev pub demosaic : Bool → ℕ → Row → Row → ℕ → List ℕ
demosaic y_odd width line ends x =
    colours y_odd (is_odd x) (line (left_of x)) (line x) (line (right_of width x))
      (ends (left_of x)) (ends x) (ends (right_of width x))

-- `n` columns from `x` on, and `n` lines from `y` on.
abbrev pub columns_from : Bool → ℕ → Row → Row → ℕ → ℕ → List ℕ
columns_from y_odd width line ends x zero = []
columns_from y_odd width line ends x (suc n) =
    demosaic y_odd width line ends x ++ columns_from y_odd width line ends (x + 1) n

abbrev pub above : ℕ → ℕ
above y = if y == 0 then 1 else y - 1

abbrev pub below : ℕ → ℕ → ℕ
below height y = if y + 1 == height then y - 1 else y + 1

abbrev pub line_of : List ℕ → ℕ → ℕ → ℕ → List ℕ
line_of raw width height y =
    columns_from (is_odd y) width (row_at raw (y * width))
      (average (row_at raw (above y * width)) (row_at raw (below height y * width))) 0 width

abbrev pub lines_from : List ℕ → ℕ → ℕ → ℕ → ℕ → List ℕ
lines_from raw width height y zero = []
lines_from raw width height y (suc n) =
    line_of raw width height y ++ lines_from raw width height (y + 1) n
