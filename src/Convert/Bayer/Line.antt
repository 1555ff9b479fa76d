-- ===== src/Convert/Bayer/Line.antt =====
-- One line of the frame, column by column.
use quartz_composer_open_kin.Bits.{bit_or-high, bit_and-mask, bit_and-shifted}
use quartz_composer_open_kin.Convert.Bayer.{
  Lines, init_shift, place_next, inner_pixel, shift_left, convert_columns, is_odd,
}
use quartz_composer_open_kin.Convert.Bayer.Reference.{
  Row, row_at, average, left_of, right_of, colours, demosaic, columns_from,
}
use quartz_composer_open_kin.Convert.Bayer.Row.{
  Holds, shifted, inner_pixel-colours, edge_pixel-colours,
}
use quartz_composer_open_kin.Prelude.{
  ℕ, zero, suc, ◌+◌, ◌-◌, ◌*◌, ◌/◌, ◌^◌, ◌≤◌, ◌<◌, ◌≡◌, Bool, some, List, [], ◌∷◌, ◌++◌, arith,
  length, get_or, get_elem?, refl, ap, ap₂, ◌∙◌, sym, subst, bit_and, bit_or, u32, ◌<<<◌,
  append-nil, ◌>>=◌,
}

abbrev pub AreBytes : List ℕ → Type 0
AreBytes raw = (i : ℕ) → get_or raw i 0 < 256

pub get_elem?-row_at :
    (raw : List ℕ) (off x i : ℕ)
    → i ≡ off + x
    → i < length raw
    → get_elem? raw i ≡ some (row_at raw off x)
get_elem?-row_at raw off x i e l = at raw i l ∙ ap (λ k. some (get_or raw k 0)) e
  where
    at : (xs : List ℕ) (i : ℕ) → i < length xs → get_elem? xs i ≡ some (get_or xs i 0)
    at [] i h = absurd (omega arith)
    at (x ∷ xs) zero h = refl
    at (x ∷ xs) (suc i) h = at xs i (omega arith)

module _ (raw : List ℕ) (bytes : AreBytes raw) (width po co no : ℕ) (wide : 2 ≤ width)
    (prev_in : po + width ≤ length raw) (cur_in : co + width ≤ length raw)
    (next_in : no + width ≤ length raw) where
  abbrev line : Row
  line = row_at raw co

  abbrev ends : Row
  ends = average (row_at raw po) (row_at raw no)

  ends-lt : (x : ℕ) → ends x < 256
  ends-lt x = omega (arith, bytes (po + x), bytes (no + x))

  -- The pointers behind column `x`.
  abbrev At : ℕ → Lines → Type 0
  At x l = (l.prev ≡ po + x) × (l.cur ≡ co + x) × (l.next ≡ no + x)

  place_next-returns :
      (x h v : ℕ) (l : Lines)
      → At x l
      → x < width
      → place_next raw (record { h_vals = h; v_sums = v; lines = l })
        ≡ some (record {
          h_vals = bit_or h (line x);
          v_sums = bit_or v (ends x);
          lines = record { prev = l.prev + 1; cur = l.cur + 1; next = l.next + 1 };
        })
  unfolding place_next
  place_next-returns x h v l a w =
      rw
        (
          get_elem?-row_at raw co x l.cur a.1 (omega arith),
          get_elem?-row_at raw po x l.prev a.0 (omega arith),
          get_elem?-row_at raw no x l.next a.2 (omega arith),
        )
        refl

  abbrev behind : Lines
  behind = record { prev = po + width; cur = co + width; next = no + width }

  columns_end :
      (y_odd : Bool) (x h v : ℕ) (l : Lines)
      → x + 1 ≡ width
      → At (x + 1) l
      → Holds h (line (left_of x)) (line x)
      → Holds v (ends (left_of x)) (ends x)
      → convert_columns raw y_odd 0 x (record { h_vals = h; v_sums = v; lines = l })
        ≡ some (columns_from y_odd width line ends x 1, behind)
  unfolding convert_columns
  columns_end y_odd x h v l e a b d =
      ap₂ (λ px ls. some (px, ls))
        (edge_pixel-colours y_odd x h v (line (left_of x)) (line x) (ends (left_of x)) (ends x) l b
            d
          ∙ (ap
                (λ k.
                  colours y_odd (is_odd x) (line (left_of x)) (line x) (line k) (ends (left_of x))
                    (ends x) (ends k))
                mirrored
              ∙ sym (append-nil (demosaic y_odd width line ends x))))
        (ground arith)
    where
      mirrored : left_of x ≡ right_of width x
      mirrored = ground arith

  -- One round of the loop: the pixel, and the buffers for the next column.
  columns_step :
      (y_odd : Bool) (n x h v : ℕ) (l : Lines)
      → x + 1 < width
      → At (x + 1) l
      → Holds h (line (left_of x)) (line x)
      → Holds v (ends (left_of x)) (ends x)
      → convert_columns raw y_odd (suc n) x (record { h_vals = h; v_sums = v; lines = l }) ≡ (
          convert_columns raw y_odd n (x + 1) (record {
            h_vals = u32 (bit_or h (line (x + 1)) <<< 8);
            v_sums = u32 (bit_or v (ends (x + 1)) <<< 8);
            lines = record { prev = l.prev + 1; cur = l.cur + 1; next = l.next + 1 };
          })
          >>= λ rest. some (demosaic y_odd width line ends x ++ rest.0, rest.1))
  unfolding convert_columns shift_left
  columns_step y_odd n x h v l e a b d = rw (place_next-returns (x + 1) h v l a e, pixel_eq) refl
    where
      right : x + 1 ≡ right_of width x
      right = ground arith

      pixel_eq :
          inner_pixel y_odd x (record {
            h_vals = bit_or h (line (x + 1));
            v_sums = bit_or v (ends (x + 1));
            lines = record { prev = l.prev + 1; cur = l.cur + 1; next = l.next + 1 };
          })
          ≡ demosaic y_odd width line ends x
      pixel_eq =
          inner_pixel-colours y_odd x h v (line (left_of x)) (line x) (line (x + 1))
            (ends (left_of x)) (ends x) (ends (x + 1)) _ b d (bytes (co + (x + 1)))
            (ends-lt (x + 1))
          ∙ ap
              (λ k.
                colours y_odd (is_odd x) (line (left_of x)) (line x) (line k) (ends (left_of x))
                  (ends x) (ends k))
              right

  columns_colours :
      (y_odd : Bool) (n x h v : ℕ) (l : Lines)
      → n + x + 1 ≡ width
      → At (x + 1) l
      → Holds h (line (left_of x)) (line x)
      → Holds v (ends (left_of x)) (ends x)
      → convert_columns raw y_odd n x (record { h_vals = h; v_sums = v; lines = l })
        ≡ some (columns_from y_odd width line ends x (suc n), behind)
  columns_colours y_odd zero x h v l e a b d = columns_end y_odd x h v l (omega arith) a b d
  columns_colours y_odd (suc n) x h v l e a b d =
      let left : x ≡ left_of (x + 1) = ground arith in
      let hb = shifted h (line (left_of x)) (line x) (line (x + 1)) b (bytes (co + (x + 1))) in
      let vb = shifted v (ends (left_of x)) (ends x) (ends (x + 1)) d (ends-lt (x + 1)) in
      columns_step y_odd n x h v l (omega arith) a b d
      ∙ ap (λ o. o >>= λ rest. some (demosaic y_odd width line ends x ++ rest.0, rest.1))
          (columns_colours y_odd n (x + 1) _ _ _ (omega arith) (omega (arith, a))
            (subst (λ k. Holds (u32 (bit_or h (line (x + 1)) <<< 8)) (line k) (line (x + 1))) left
              hb)
            (subst (λ k. Holds (u32 (bit_or v (ends (x + 1)) <<< 8)) (ends k) (ends (x + 1))) left
              vb))

  -- The first column, with the second one mirrored to its left.
  average_word : (a : ℕ) → a < 511 → bit_and (a <<< 7) 0xFF00 ≡ a / 2 * 2 ^ 8
  average_word a l =
      bit_and-shifted 8 (a <<< 7) 255
      ∙ ap (λ (t : ℕ). t * 2 ^ 8) (bit_and-mask 8 (a * 128 / 256) ∙ omega arith)

  average_word16 : (a : ℕ) → a < 511 → bit_and (a <<< 15) 0xFF0000 ≡ a / 2 * 2 ^ 16
  average_word16 a l =
      bit_and-shifted 16 (a <<< 15) 255
      ∙ ap (λ (t : ℕ). t * 2 ^ 16) (bit_and-mask 8 (a * 2 ^ 15 / 2 ^ 16) ∙ omega arith)

  two_bytes : (c l : ℕ) → c < 256 → l < 256 → Holds (bit_or (c * 2 ^ 8) (l * 2 ^ 16)) l c
  two_bytes c l p q = rw (bit_or-high 16 l (c * 2 ^ 8) (omega arith)) (record {
    word = omega arith;
    free = omega arith;
    current = omega arith;
    previous = omega arith;
  })

  -- The buffers that `init_shift` makes.
  abbrev h_start : ℕ
  h_start = bit_or (line 0 * 2 ^ 8) (line 1 * 2 ^ 16)

  abbrev v_start : ℕ
  v_start = bit_or (ends 0 * 2 ^ 8) (ends 1 * 2 ^ 16)

  init_shift-returns :
      init_shift raw (record { prev = po; cur = co; next = no })
      ≡ some (record {
        h_vals = h_start;
        v_sums = v_start;
        lines = record { prev = po + 1; cur = co + 1; next = no + 1 };
      })
  unfolding init_shift
  init_shift-returns =
      rw
        (
          get_elem?-row_at raw co 0 co (omega arith) (omega arith),
          get_elem?-row_at raw co 1 (co + 1) refl (omega arith),
          get_elem?-row_at raw po 0 po (omega arith) (omega arith),
          get_elem?-row_at raw no 0 no (omega arith) (omega arith),
          get_elem?-row_at raw po 1 (po + 1) refl (omega arith),
          get_elem?-row_at raw no 1 (no + 1) refl (omega arith),
          average_word (row_at raw po 0 + row_at raw no 0)
              (omega (arith, bytes (po + 0), bytes (no + 0))),
          average_word16 (row_at raw po 1 + row_at raw no 1)
              (omega (arith, bytes (po + 1), bytes (no + 1))),
        )
        refl

  pub line_colours :
      (y_odd : Bool)
      → (init_shift raw (record { prev = po; cur = co; next = no })
          >>= convert_columns raw y_odd (width - 1) 0)
        ≡ some (columns_from y_odd width line ends 0 width, behind)
  line_colours y_odd =
      let all : suc (width - 1) ≡ width = omega arith in
      ap (λ o. o >>= convert_columns raw y_odd (width - 1) 0) init_shift-returns
      ∙ (columns_colours y_odd (width - 1) 0 h_start v_start
            (record { prev = po + 1; cur = co + 1; next = no + 1 }) (omega arith) (omega arith)
            (two_bytes (line 0) (line 1) (bytes (co + 0)) (bytes (co + 1)))
            (two_bytes (ends 0) (ends 1) (ends-lt 0) (ends-lt 1))
          ∙ ap (λ n. some (columns_from y_odd width line ends 0 n, behind)) all)
