-- ===== src/Tilt/Laws.antt =====
-- The motor's unit for angles, and what a report of the motor can change.
use quartz_composer_open_kin.Device.{Libusb, TiltState, Sys}
use quartz_composer_open_kin.Prelude.{
  ℕ, ◌+◌, ◌-◌, ◌*◌, ◌/◌, ◌^◌, ◌≤◌, ◌<◌, ◌≡◌, ◌⊎◌, ◌≢◌, true, false, List, ltb, get_or, ℤ, pos,
  negsuc, u16, arith, refl, inl, inr, Bool-cases, is_neg,
}
use native.Mathlib.Nat.{div-le_of_le-mul}
use quartz_composer_open_kin.Tilt.{
  int8, int16, wire_angle, is_ten, failure, parse_tilt, update_tilt_state,
}

-- A word that stands for a number of half degrees between -62 and 62.
abbrev pub IsHalfDegrees : ℕ → Type 0
IsHalfDegrees w = (w ≤ 62) ⊎ ((2 ^ 16 - 62 ≤ w) × (w < 2 ^ 16))

half : (n den : ℕ) → 0 < den → n ≤ 31 * den → (2 * n) / den ≤ 62
half n den p l = div-le_of_le-mul den (omega arith)

-- Angles sent to the motor. Whatever angle the client asks for, the word that `freenect_set_tilt_degs`
-- sends is, as a 16-bit two's complement number, between -62 and 62 half degrees.
pub wire_angle-IsHalfDegrees : (num : ℤ) (den : ℕ) → 0 < den → IsHalfDegrees (wire_angle num den)
unfolding wire_angle
wire_angle-IsHalfDegrees (pos n) den p = elim (Bool-cases (ltb (31 * den) n)) [
  | inl e ↦ rw e (inl (omega arith))
  | inr e ↦ rw e (inl (half n den p (ground arith)))
]
wire_angle-IsHalfDegrees (negsuc n) den p = elim (Bool-cases (ltb (31 * den) (n + 1))) [
  | inl e ↦ rw e (inr (omega arith, omega arith))
  | inr e ↦ let h = half (n + 1) den p (ground arith) in rw e (omega (arith, h))
]

-- Numbers that fit a signed word of `n + 1` values above zero and below.
abbrev pub Between : ℕ → ℤ → Type 0
Between n (pos x) = x ≤ n
Between n (negsuc x) = x ≤ n

byte-Between : (b : ℕ) → b < 256 → Between 127 (int8 b)
byte-Between b l = elim (Bool-cases (ltb b 128)) [
  | inl e ↦ rw e (ground arith)
  | inr e ↦ rw e (ground arith)
]

word-Between : (w : ℕ) → w < 2 ^ 16 → Between 32767 (int16 w)
word-Between w l = elim (Bool-cases (ltb w (2 ^ 15))) [
  | inl e ↦ rw e (ground arith)
  | inr e ↦ rw e (ground arith)
]

-- What a signed word or byte can be for each field.
pub record IsTilt (s : TiltState) : Type 0 where
  pub x : Between 32767 s.accelerometer_x
  pub y : Between 32767 s.accelerometer_y
  pub z : Between 32767 s.accelerometer_z
  pub angle : Between 127 s.tilt_angle

u16-small : (n : ℕ) → u16 n < 2 ^ 16
u16-small n = omega arith

parse_tilt-IsTilt : (buf : List ℕ) → get_or buf 8 0 < 256 → IsTilt (parse_tilt buf)
unfolding parse_tilt
parse_tilt-IsTilt buf l = record {
  x = word-Between _ (u16-small _);
  y = word-Between _ (u16-small _);
  z = word-Between _ (u16-small _);
  angle = byte-Between _ l;
}

ten : (r : ℤ) → is_ten r ≡ true → r ≡ pos 10
ten (pos n) e = ground arith
ten (negsuc n) e = ground arith

not_ten : (r : ℤ) → is_ten r ≡ false → r ≢ pos 10
not_ten (pos n) e p = ground arith
not_ten (negsuc n) e p = ground arith

failure-neg : (r : ℤ) → is_neg (failure r) ≡ true
failure-neg (pos n) = refl
failure-neg (negsuc n) = refl

module _ {W : Type 0} (usb : Libusb W) where
  -- The transfer that `freenect_update_tilt_state` makes.
  abbrev pub report : List ℕ → Sys W → ℤ × List ℕ × W
  report buf y = usb.control_transfer y.dev.usb_motor 0xc0 0x32 0 0 buf y.world

  -- The motor's reports. `freenect_update_tilt_state` either gets exactly ten bytes, returns 10 and
  -- stores the state that they stand for, in the ranges of its fields, or it returns a negative number
  -- and leaves the device as it was.
  pub update_tilt_state-Outcome :
      (buf : List ℕ) (y : Sys W)
      → get_or (report buf y).1 8 0 < 256
      → let out = update_tilt_state usb buf y in
        ((out.0 ≡ pos 10)
          × (out.1.dev.raw_state ≡ parse_tilt (report buf y).1)
          × IsTilt out.1.dev.raw_state)
        ⊎ ((is_neg out.0 ≡ true) × (out.1.dev ≡ y.dev) × ((report buf y).0 ≢ pos 10))
  unfolding update_tilt_state
  update_tilt_state-Outcome buf y l = elim (Bool-cases (is_ten (report buf y).0)) [
    | inl e ↦ rw e (inl (ten (report buf y).0 e, refl, parse_tilt-IsTilt _ l))
    | inr e ↦ rw e (inr (failure-neg (report buf y).0, refl, not_ten (report buf y).0 e))
  ]
