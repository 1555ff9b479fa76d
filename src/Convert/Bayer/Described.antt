-- ===== src/Convert/Bayer/Described.antt =====
-- The averages of the comment in `convert_bayer_to_rgb` of libfreenect/src/cameras.c, each one quotient,
-- and how far the code's averages of averages are from them.
use quartz_composer_open_kin.Convert.Bayer.{is_odd}
use quartz_composer_open_kin.Convert.Bayer.Reference.{
  Row, row_at, average, left_of, right_of, colours, demosaic, columns_from, above, below, line_of,
  lines_from,
}
use quartz_composer_open_kin.Prelude.{
  ℕ, zero, suc, ◌+◌, ◌*◌, ◌/◌, ◌≤◌, Bool, true, false, List, [], ◌∷◌, ◌++◌, if◌then◌else◌, not,
  arith,
}

-- The four configurations from the nine values about a pixel: those of the line above, of its own line,
-- and of the line below.
abbrev pub described_colours : Bool → Bool → ℕ → ℕ → ℕ → ℕ → ℕ → ℕ → ℕ → ℕ → ℕ → List ℕ
described_colours y_odd x_odd al ac ar l c r bl bc br =
    if not y_odd
    then if not x_odd
      then ((l + r) / 2) ∷ c ∷ ((ac + bc) / 2) ∷ []
      else c ∷ ((l + r + ac + bc) / 4) ∷ ((al + ar + bl + br) / 4) ∷ []
    else if not x_odd
    then ((al + ar + bl + br) / 4) ∷ ((l + r + ac + bc) / 4) ∷ c ∷ []
    else ((ac + bc) / 2) ∷ c ∷ ((l + r) / 2) ∷ []

abbrev pub described : Bool → ℕ → Row → Row → Row → ℕ → List ℕ
described y_odd width up line down x =
    described_colours y_odd (is_odd x) (up (left_of x)) (up x) (up (right_of width x))
      (line (left_of x)) (line x) (line (right_of width x)) (down (left_of x)) (down x)
      (down (right_of width x))

abbrev pub described_columns : Bool → ℕ → Row → Row → Row → ℕ → ℕ → List ℕ
described_columns y_odd width up line down x zero = []
described_columns y_odd width up line down x (suc n) =
    described y_odd width up line down x ++ described_columns y_odd width up line down (x + 1) n

abbrev pub described_lines : List ℕ → ℕ → ℕ → ℕ → ℕ → List ℕ
described_lines raw width height y zero = []
described_lines raw width height y (suc n) =
    described_columns (is_odd y) width (row_at raw (above y * width)) (row_at raw (y * width))
      (row_at raw (below height y * width)) 0 width
    ++ described_lines raw width height (y + 1) n

-- Each byte is the other, or one less.
abbrev pub Near : List ℕ → List ℕ → Type 0
Near [] [] = Unit {0}
Near [] (b ∷ ys) = ⊥
Near (a ∷ xs) [] = ⊥
Near (a ∷ xs) (b ∷ ys) = ((a ≤ b) × (b ≤ a + 1)) × Near xs ys

Near-append : (xs ys zs ws : List ℕ) → Near xs ys → Near zs ws → Near (xs ++ zs) (ys ++ ws)
Near-append [] [] zs ws m n = n
Near-append [] (b ∷ ys) zs ws m n = absurd m
Near-append (a ∷ xs) [] zs ws m n = absurd m
Near-append (a ∷ xs) (b ∷ ys) zs ws (l, m) n = (l, Near-append xs ys zs ws m n)

colours-Near :
    (y_odd x_odd : Bool) (al ac ar l c r bl bc br : ℕ)
    → Near
        (colours y_odd x_odd l c r ((al + bl) / 2) ((ac + bc) / 2) ((ar + br) / 2))
        (described_colours y_odd x_odd al ac ar l c r bl bc br)
colours-Near false false al ac ar l c r bl bc br =
    ((omega arith, omega arith), ((omega arith, omega arith), ((omega arith, omega arith), tt)))
colours-Near false true al ac ar l c r bl bc br =
    ((omega arith, omega arith), ((omega arith, omega arith), ((omega arith, omega arith), tt)))
colours-Near true false al ac ar l c r bl bc br =
    ((omega arith, omega arith), ((omega arith, omega arith), ((omega arith, omega arith), tt)))
colours-Near true true al ac ar l c r bl bc br =
    ((omega arith, omega arith), ((omega arith, omega arith), ((omega arith, omega arith), tt)))

columns-Near :
    (y_odd : Bool) (width : ℕ) (up line down : Row) (x n : ℕ)
    → Near
        (columns_from y_odd width line (average up down) x n)
        (described_columns y_odd width up line down x n)
columns-Near y_odd width up line down x zero = tt
columns-Near y_odd width up line down x (suc n) =
    Near-append (demosaic y_odd width line (average up down) x)
      (described y_odd width up line down x)
      (columns_from y_odd width line (average up down) (x + 1) n)
      (described_columns y_odd width up line down (x + 1) n)
      (colours-Near y_odd (is_odd x) (up (left_of x)) (up x) (up (right_of width x))
        (line (left_of x)) (line x) (line (right_of width x)) (down (left_of x)) (down x)
        (down (right_of width x)))
      (columns-Near y_odd width up line down (x + 1) n)

pub lines-Near :
    (raw : List ℕ) (width height y n : ℕ)
    → Near (lines_from raw width height y n) (described_lines raw width height y n)
lines-Near raw width height y zero = tt
lines-Near raw width height y (suc n) =
    Near-append (line_of raw width height y)
      (described_columns (is_odd y) width (row_at raw (above y * width)) (row_at raw (y * width))
        (row_at raw (below height y * width)) 0 width)
      (lines_from raw width height (y + 1) n) (described_lines raw width height (y + 1) n)
      (columns-Near (is_odd y) width (row_at raw (above y * width)) (row_at raw (y * width))
        (row_at raw (below height y * width)) 0 width)
      (lines-Near raw width height (y + 1) n)
