-- ===== src/Convert/Bayer/Frame.antt =====
-- All lines of the frame.
use native.Mathlib.Nat.{mul-le-mul_right}
use quartz_composer_open_kin.Convert.Bayer.{
  Lines, place_lines, convert_line, convert_lines, convert_bayer_to_rgb, is_odd,
}
use quartz_composer_open_kin.Convert.Bayer.Described.{Near, described_lines, lines-Near}
use quartz_composer_open_kin.Convert.Bayer.Reference.{above, below, line_of, lines_from}
use quartz_composer_open_kin.Convert.Bayer.Line.{AreBytes, line_colours}
use quartz_composer_open_kin.Prelude.{
  ℕ, zero, suc, ◌+◌, ◌-◌, ◌*◌, ◌≤◌, ◌<◌, ◌≡◌, some, List, ltb, arith, length, refl, ap, ◌∙◌, sym,
  Bool-cases, inl, inr,
}

next_row : (y width : ℕ) → (y + 1) * width ≡ y * width + width
next_row y width = omega arith

module _ (raw : List ℕ) (bytes : AreBytes raw) (width height : ℕ) (wide : 2 ≤ width)
    (high : 3 ≤ height) (whole : height * width ≤ length raw) where
  -- The pointers before line `y`.
  record Ready (y : ℕ) (l : Lines) : Type 0 where
    cur : l.cur ≡ y * width
    next : y < height → l.next ≡ (y + 1) * width
    prev : 2 ≤ y → l.prev ≡ (y - 1) * width

  abbrev placed : ℕ → Lines
  placed y = record { prev = above y * width; cur = y * width; next = below height y * width }

  place_first : (l : Lines) → Ready 0 l → place_lines width height 0 l ≡ placed 0
  unfolding place_lines
  place_first l r = ground (arith, r.cur, r.next (omega arith))

  place_later :
      (y : ℕ) (l : Lines)
      → suc y < height
      → Ready (suc y) l
      → place_lines width height (suc y) l ≡ placed (suc y)
  unfolding place_lines
  place_later y l b r = elim (Bool-cases (ltb (suc y) (height - 1))) [
    | inl inner ↦ ground (arith, r.cur, r.next b, next_row y width)
    | inr last ↦
        (let end : suc y + 1 ≡ height = ground arith in
          ground (arith, r.cur, r.prev (omega arith), next_row y width))
  ]

  place_lines-placed :
      (y : ℕ) (l : Lines) → y < height → Ready y l → place_lines width height y l ≡ placed y
  place_lines-placed zero l b r = place_first l r
  place_lines-placed (suc y) l b r = place_later y l b r

  row_fits : (y : ℕ) → y < height → y * width + width ≤ length raw
  row_fits y b = omega (
    arith,
    whole,
    next_row y width,
    mul-le-mul_right {m = y + 1} {n = height} width (omega arith),
  )

  above-lt : (y : ℕ) → y < height → above y < height
  above-lt y b = ground arith

  below-lt : (y : ℕ) → y < height → below height y < height
  below-lt y b = ground arith

  convert_line-returns :
      (y : ℕ) (l : Lines)
      → y < height
      → Ready y l
      → (l' : Lines) × (convert_line raw width height y l ≡ some (line_of raw width height y, l'))
        × Ready (y + 1) l'
  unfolding convert_line
  convert_line-returns y l b r = (
    record {
      prev = above y * width + width;
      cur = y * width + width;
      next = below height y * width + width;
    },
    rw (place_lines-placed y l b r) (
        line_colours raw bytes width (above y * width) (y * width) (below height y * width) wide
          (row_fits (above y) (above-lt y b)) (row_fits y b)
          (row_fits (below height y) (below-lt y b)) (is_odd y)),
    record {
      cur = sym (next_row y width);
      next = λ c. ground (arith, next_row (y + 1) width);
      prev = λ c. sym (next_row (above y) width) ∙ ap (λ (t : ℕ). t * width) (ground arith);
    },
  )

  convert_lines-returns :
      (n y : ℕ) (l : Lines)
      → n + y ≡ height
      → Ready y l
      → convert_lines raw width height n y l ≡ some (lines_from raw width height y n)
  unfolding convert_lines
  convert_lines-returns zero y l e r = refl
  convert_lines-returns (suc n) y l e r =
      let (l', one, r') = convert_line-returns y l (omega arith) r in
      rw (one, convert_lines-returns n (y + 1) l' (omega arith) r') refl

  pub frame_colours :
      (p : ℕ)
      → convert_lines raw width height height 0 (record { prev = p; cur = 0; next = width })
        ≡ some (lines_from raw width height 0 height)
  frame_colours p =
      convert_lines-returns height 0 _ (omega arith)
        (record { cur = omega arith; next = λ c. omega arith; prev = λ c. absurd (omega arith) })

-- Demosaicing. For a raw frame of 640 by 480 bytes the conversion reads nothing past the frame, and
-- the bytes that it stores are, line by line and column by column, those of the four configurations
-- with averages of two values, and of two such averages, rounded down at each step, with the second
-- line and column mirrored at the top and left edge and the second last ones at the bottom and right
-- edge. The two 32-bit shift-buffers lose nothing. Each byte is that of the comment in the source, which
-- divides the sum of four values once, or one less.
pub convert_bayer_to_rgb-demosaics :
    (raw : List ℕ)
    → 307200 ≤ length raw
    → AreBytes raw
    → (convert_bayer_to_rgb raw ≡ some (lines_from raw 640 480 0 480))
      × Near (lines_from raw 640 480 0 480) (described_lines raw 640 480 0 480)
unfolding convert_bayer_to_rgb
convert_bayer_to_rgb-demosaics raw l bytes =
    (frame_colours raw bytes 640 480 (omega arith) (omega arith) l 0, lines-Near raw 640 480 0 480)
