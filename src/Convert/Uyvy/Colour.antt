-- ===== src/Convert/Uyvy/Colour.antt =====
-- The colours of a pixel.
use quartz_composer_open_kin.Prelude.{
  ℕ, ◌≤◌, ◌≡◌, ◌*◌, arith, ℤ, pos, negsuc, min, ◌-◌, ◌/◌, Bool-cases, leb, inl, inr, ◌+ℤ◌, ◌-ℤ◌,
}
use quartz_composer_open_kin.Convert.Uyvy.{clamp, luma, scale, red, green, blue}

clamp-le : (a : ℤ) → clamp a ≤ 255
unfolding clamp
clamp-le (pos n) = ground arith
clamp-le (negsuc n) = omega arith

-- Every byte that is stored is a byte, whatever the input.
pub colours_bounded : (u y v : ℕ) → (red u y v ≤ 255) × (green u y v ≤ 255) × (blue u y v ≤ 255)
unfolding red green blue
colours_bounded u y v = (clamp-le _, clamp-le _, clamp-le _)

-- What is left of a component when the colour differences are zero.
add-zero_clamped : (a : ℤ) → clamp (a +ℤ pos 0) ≡ clamp a
unfolding clamp ◌+ℤ◌
add-zero_clamped (pos n) = ground arith
add-zero_clamped (negsuc n) = ground arith

sub-zero_clamped : (a : ℤ) → clamp (a -ℤ pos 0 -ℤ pos 0) ≡ clamp a
unfolding clamp ◌-ℤ◌
sub-zero_clamped (pos n) = ground arith
sub-zero_clamped (negsuc n) = ground arith

clamp-luma : (y : ℕ) → clamp (luma y) ≡ min 255 ((y - 16) * 1164 / 1000)
unfolding clamp luma scale
clamp-luma y = elim (Bool-cases (leb 16 y)) [ inl h ↦ ground arith | inr h ↦ ground arith ]

scale-zero : (f : ℕ) → scale (pos 0) f ≡ pos 0
unfolding scale
scale-zero f = ground arith

grey_components :
    (y : ℕ)
    → (red 128 y 128 ≡ clamp (luma y))
      × (green 128 y 128 ≡ clamp (luma y))
      × (blue 128 y 128 ≡ clamp (luma y))
unfolding red green blue
grey_components y = (
  rw (scale-zero 1596) (add-zero_clamped (luma y)),
  rw (scale-zero 813, scale-zero 391) (sub-zero_clamped (luma y)),
  rw (scale-zero 2018) (add-zero_clamped (luma y)),
)

-- Without colour difference a pixel is grey: for `u` and `v` 128 the three components are equal, for
-- every brightness; and grey does not fall as the brightness grows.
pub grey :
    (y z : ℕ)
    → y ≤ z
    → (red 128 y 128 ≡ green 128 y 128)
      × (green 128 y 128 ≡ blue 128 y 128)
      × (red 128 y 128 ≤ red 128 z 128)
grey y z l = omega (arith, grey_components y, grey_components z, clamp-luma y, clamp-luma z)
