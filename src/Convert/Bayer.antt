-- ===== src/Convert/Bayer.antt =====
-- `convert_bayer_to_rgb` of libfreenect/src/cameras.c. The line pointers are offsets into the raw
-- frame, a read past it is a fault, and the bytes stored through `dst` are the list that is
-- returned. The frame's width and height are parameters of the loops, 640 and 480 in the code.
pub mod Reference
pub mod Described
pub mod Row
pub mod Line
pub mod Frame
use quartz_composer_open_kin.Prelude.{
  ℕ, zero, suc, ◌+◌, ◌-◌, ◌*◌, ◌/◌, ◌%◌, ◌^◌, Bool, true, false, Option, none, some, List, [], ◌∷◌,
  ◌++◌, ltb, ◌==◌, if◌then◌else◌, ◌&&◌, not, get_elem?, ◌>>=◌, bit_and, bit_or, u8, u32, ◌<<<◌,
  ◌>>>◌,
}

-- `prevLine`, `curLine` and `nextLine`.
pub record Lines : Type 0 where
  pub prev : ℕ
  pub cur : ℕ
  pub next : ℕ

-- The shift-buffers beside the pointers, which move on as they are read.
pub record Shift : Type 0 where
  pub h_vals : ℕ
  pub v_sums : ℕ
  pub lines : Lines

-- The pointers at the start of line `y`: mirrored at the top and at the bottom.
unfoldable pub place_lines : ℕ → ℕ → ℕ → Lines → Lines
place_lines width height y l =
    if ltb 0 y && ltb y (height - 1)
    then record l { prev = l.cur - width }
    else if y == 0
    then record l { prev = l.next }
    else record l { next = l.prev }

-- The values of the first column, and those of the second mirrored to its left.
unfoldable pub init_shift : List ℕ → Lines → Option Shift
init_shift raw l = do
  c₀ ← get_elem? raw l.cur
  c₁ ← get_elem? raw (l.cur + 1)
  p₀ ← get_elem? raw l.prev
  n₀ ← get_elem? raw l.next
  p₁ ← get_elem? raw (l.prev + 1)
  n₁ ← get_elem? raw (l.next + 1)
  some (record {
    h_vals = bit_or (c₀ <<< 8) (c₁ <<< 16);
    v_sums = bit_or (bit_and ((p₀ + n₀) <<< 7) 0xFF00) (bit_and ((p₁ + n₁) <<< 15) 0xFF0000);
    lines = record { prev = l.prev + 1; cur = l.cur + 1; next = l.next + 1 };
  })

-- Place the next values in the shift-buffers.
unfoldable pub place_next : List ℕ → Shift → Option Shift
place_next raw s = do
  c ← get_elem? raw s.lines.cur
  p ← get_elem? raw s.lines.prev
  n ← get_elem? raw s.lines.next
  some (record {
    h_vals = bit_or s.h_vals c;
    v_sums = bit_or s.v_sums ((p + n) >>> 1);
    lines = record { prev = s.lines.prev + 1; cur = s.lines.cur + 1; next = s.lines.next + 1 };
  })

-- The three bytes of a pixel, from the buffers and the two sums that a configuration needs.
abbrev pub pixel : Bool → Bool → ℕ → ℕ → ℕ → ℕ → List ℕ
pixel y_odd x_odd h_vals v_sums h_sum v_ends =
    if not y_odd
    then if not x_odd
      then h_sum ∷ u8 (h_vals >>> 8) ∷ u8 (v_sums >>> 8) ∷ []
      else u8 (h_vals >>> 8) ∷ u8 ((h_sum + u8 (v_sums >>> 8)) >>> 1) ∷ v_ends ∷ []
    else if not x_odd
    then v_ends ∷ u8 ((h_sum + u8 (v_sums >>> 8)) >>> 1) ∷ u8 (h_vals >>> 8) ∷ []
    else u8 (v_sums >>> 8) ∷ u8 (h_vals >>> 8) ∷ h_sum ∷ []

abbrev pub is_odd : ℕ → Bool
is_odd n = n % 2 == 1

-- The pixel of a column that has a right neighbour.
unfoldable pub inner_pixel : Bool → ℕ → Shift → List ℕ
inner_pixel y_odd x s =
    pixel y_odd (is_odd x) s.h_vals s.v_sums (u8 ((u8 (s.h_vals >>> 16) + u8 s.h_vals) >>> 1))
      (u8 ((u8 (s.v_sums >>> 16) + u8 s.v_sums) >>> 1))

-- The last column, with the second last one mirrored to its right.
unfoldable pub edge_pixel : Bool → ℕ → Shift → List ℕ
edge_pixel y_odd x s =
    let h = bit_or s.h_vals (u8 (s.h_vals >>> 16)) in
    let v = bit_or s.v_sums (u8 (s.v_sums >>> 16)) in pixel y_odd (is_odd x) h v (u8 h) (u8 v)

unfoldable pub shift_left : Shift → Shift
shift_left s = record s { h_vals = u32 (s.h_vals <<< 8); v_sums = u32 (s.v_sums <<< 8) }

-- The loop over the columns with `n` rounds left, and the column after it.
unfoldable pub convert_columns : List ℕ → Bool → ℕ → ℕ → Shift → Option (List ℕ × Lines)
convert_columns raw y_odd zero x s = some (edge_pixel y_odd x s, s.lines)
convert_columns raw y_odd (suc n) x s = do
  s' ← place_next raw s
  rest ← convert_columns raw y_odd n (x + 1) (shift_left s')
  some (inner_pixel y_odd x s' ++ rest.0, rest.1)

unfoldable pub convert_line : List ℕ → ℕ → ℕ → ℕ → Lines → Option (List ℕ × Lines)
convert_line raw width height y l = do
  s ← init_shift raw (place_lines width height y l)
  convert_columns raw (is_odd y) (width - 1) 0 s

-- The loop over the lines with `n` rounds left.
unfoldable pub convert_lines : List ℕ → ℕ → ℕ → ℕ → ℕ → Lines → Option (List ℕ)
convert_lines raw width height zero y l = some []
convert_lines raw width height (suc n) y l = do
  line ← convert_line raw width height y l
  rest ← convert_lines raw width height n (y + 1) line.1
  some (line.0 ++ rest)

-- `prevLine` has no value before the first line sets it.
unfoldable pub convert_bayer_to_rgb : List ℕ → Option (List ℕ)
convert_bayer_to_rgb raw =
    convert_lines raw 640 480 480 0 (record { prev = 0; cur = 0; next = 640 })
