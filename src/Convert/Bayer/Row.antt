-- ===== src/Convert/Bayer/Row.antt =====
-- The shift-buffers of one line hold the neighbours of each column.
use quartz_composer_open_kin.Bits.{bit_or-low}
use quartz_composer_open_kin.Convert.Bayer.{Lines, inner_pixel, edge_pixel, pixel, is_odd}
use quartz_composer_open_kin.Convert.Bayer.Reference.{colours}
use quartz_composer_open_kin.Prelude.{
  ℕ, ◌+◌, ◌*◌, ◌/◌, ◌%◌, ◌^◌, ◌<◌, ◌≡◌, Bool, arith, refl, ap, ◌∙◌, bit_or, u8, u32, ◌<<<◌, ◌>>>◌,
}

-- A shift-buffer that holds `l`, then `c`, then a free byte.
pub record Holds (h l c : ℕ) : Type 0 where
  pub word : h < 2 ^ 32
  pub free : h % 256 ≡ 0
  pub current : h / 256 % 256 ≡ c
  pub previous : h / 65536 % 256 ≡ l

or_byte : (h r : ℕ) → h % 256 ≡ 0 → r < 256 → bit_or h r ≡ h + r
or_byte h r f l =
    let e : h ≡ h / 256 * 2 ^ 8 = omega arith in
    ap (λ (t : ℕ). bit_or t r) e ∙ (bit_or-low 8 (h / 256) r l ∙ omega arith)

-- The next value placed, and what the three bytes read as.
placed :
    (h l c r : ℕ)
    → Holds h l c
    → r < 256
    → (u8 (bit_or h r >>> 16) ≡ l) × (u8 (bit_or h r >>> 8) ≡ c) × (u8 (bit_or h r) ≡ r)
placed h l c r b s = rw (or_byte h r b.free s) (
  omega (arith, b.current, b.previous, b.free),
  omega (arith, b.current, b.free),
  omega (arith, b.free),
)

pub shifted : (h l c r : ℕ) → Holds h l c → r < 256 → Holds (u32 (bit_or h r <<< 8)) c r
shifted h l c r b s = rw (or_byte h r b.free s) (record {
  word = omega arith;
  free = omega arith;
  current = omega (arith, b.free);
  previous = omega (arith, b.free, b.current);
})

-- A pixel from the bytes in the middle of the buffers and the sums of their ends.
pixel-colours :
    (y_odd x_odd : Bool) (h v h_sum v_ends l c r end_l end_c end_r : ℕ)
    → u8 (h >>> 8) ≡ c
    → u8 (v >>> 8) ≡ end_c
    → h_sum ≡ (l + r) / 2
    → v_ends ≡ (end_l + end_r) / 2
    → l < 256
    → r < 256
    → pixel y_odd x_odd h v h_sum v_ends ≡ colours y_odd x_odd l c r end_l end_c end_r
pixel-colours y_odd x_odd h v h_sum v_ends l c r end_l end_c end_r e f g k p q =
    rw (e, f, g, k, small) refl
  where
    small : u8 (((l + r) / 2 + end_c) / 2) ≡ ((l + r) / 2 + end_c) / 2
    small = omega (arith, f)

pub inner_pixel-colours :
    (y_odd : Bool) (x h v l c r end_l end_c end_r : ℕ) (lines : Lines)
    → Holds h l c
    → Holds v end_l end_c
    → r < 256
    → end_r < 256
    → inner_pixel y_odd x (record { h_vals = bit_or h r; v_sums = bit_or v end_r; lines = lines })
      ≡ colours y_odd (is_odd x) l c r end_l end_c end_r
unfolding inner_pixel
inner_pixel-colours y_odd x h v l c r end_l end_c end_r lines b d p q =
    let a = placed h l c r b p in
    let e = placed v end_l end_c end_r d q in
    pixel-colours y_odd (is_odd x) (bit_or h r) (bit_or v end_r) _ _ l c r end_l end_c end_r a.1 e.1
      (sum_of (u8 (bit_or h r >>> 16)) (u8 (bit_or h r)) l r a.0 a.2 (omega (arith, b.previous)) p)
      (sum_of (u8 (bit_or v end_r >>> 16)) (u8 (bit_or v end_r)) end_l end_r e.0 e.2
        (omega (arith, d.previous)) q)
      (omega (arith, b.previous)) p
  where
    sum_of : (a b l r : ℕ) → a ≡ l → b ≡ r → l < 256 → r < 256 → u8 ((a + b) >>> 1) ≡ (l + r) / 2
    sum_of a b l r e f p q = omega arith

pub edge_pixel-colours :
    (y_odd : Bool) (x h v l c end_l end_c : ℕ) (lines : Lines)
    → Holds h l c
    → Holds v end_l end_c
    → edge_pixel y_odd x (record { h_vals = h; v_sums = v; lines = lines })
      ≡ colours y_odd (is_odd x) l c l end_l end_c end_l
unfolding edge_pixel
edge_pixel-colours y_odd x h v l c end_l end_c lines b d =
    let p : l < 256 = omega (arith, b.previous) in
    let q : end_l < 256 = omega (arith, d.previous) in
    let a = placed h l c l b p in
    let e = placed v end_l end_c end_l d q in
    rw (b.previous, d.previous)
      (pixel-colours y_odd (is_odd x) (bit_or h l) (bit_or v end_l) _ _ l c l end_l end_c end_l a.1
        e.1 (omega (arith, a.2)) (omega (arith, e.2)) p p)
