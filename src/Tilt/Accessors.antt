-- ===== src/Tilt/Accessors.antt =====
-- The accessors of libfreenect/src/tilt.c, which compute doubles from the last report. A `double` is
-- known by the operations that the code does with it.
use quartz_composer_open_kin.Device.{TiltState, Sys}
use quartz_composer_open_kin.Prelude.{
  ℕ, ◌%◌, ◌≤◌, ◌≡◌, List, arith, get_or, ℤ, pos, negsuc, ◌+ℤ◌, pos_part, neg_part,
}
use quartz_composer_open_kin.Tilt.{int8, parse_tilt, wire_angle}

pub record Double (F : Type 0) : Type 0 where
  pub of_int : ℤ → F
  pub div : F → F → F
  pub mul : F → F → F
  pub gravity : F

-- `FREENECT_COUNTS_PER_G`
abbrev pub counts_per_g : ℤ
counts_per_g = pos 819

unfoldable pub get_tilt_state : {W : Type 0} → Sys W → TiltState
get_tilt_state y = y.dev.raw_state

unfoldable pub get_tilt_status : TiltState → ℕ
get_tilt_status t = t.tilt_status

module _ {F : Type 0} (d : Double F) where
  unfoldable pub get_tilt_degs : TiltState → F
  get_tilt_degs t = d.div (d.of_int t.tilt_angle) (d.of_int (pos 2))

  abbrev pub mks : ℤ → F
  mks a = d.mul (d.div (d.of_int a) (d.of_int counts_per_g)) d.gravity

  unfoldable pub get_mks_accel : TiltState → F × F × F
  get_mks_accel t = (mks t.accelerometer_x, mks t.accelerometer_y, mks t.accelerometer_z)

-- The degrees that the motor accepts.
abbrev pub Allowed : ℤ → Type 0
Allowed n = (pos_part n ≤ 31) × (neg_part n ≤ 31)

-- The byte that stands for whole degrees on the wire is twice as many half degrees.
int8-wire_angle : (n : ℤ) → Allowed n → int8 (wire_angle n 1 % 256) ≡ n +ℤ n
unfolding wire_angle ◌+ℤ◌
int8-wire_angle (pos n) a = ground arith
int8-wire_angle (negsuc n) a = ground arith

-- Degrees sent and reported. Where halving twice a number gives the number back, and the motor
-- reports, as its angle, the low byte of what `freenect_set_tilt_degs` sends for whole degrees
-- between -31 and 31, `freenect_get_tilt_degs` returns these degrees.
pub get_tilt_degs-wire_angle :
    {F : Type 0} (d : Double F) (n : ℤ) (buf : List ℕ)
    → Allowed n
    → d.div (d.of_int (n +ℤ n)) (d.of_int (pos 2)) ≡ d.of_int n
    → get_or buf 8 0 ≡ wire_angle n 1 % 256
    → get_tilt_degs d (parse_tilt buf) ≡ d.of_int n
unfolding get_tilt_degs parse_tilt
get_tilt_degs-wire_angle d n buf a h e = rw (e, int8-wire_angle n a) h
