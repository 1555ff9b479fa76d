-- ===== src/Tilt.antt =====
-- libfreenect/src/tilt.c: the motor, the LED and the accelerometer. An angle, a `double` in the code,
-- is a fraction `num / den` here, and its conversion to the motor's unit is exact arithmetic with C's
-- truncation. A negative double that is cast to `uint16_t` is undefined in C; here it wraps around to
-- two's complement, as it does on the machines that the driver is built for.
pub mod Laws
pub mod Accessors
use quartz_composer_open_kin.Device.{Libusb, Device, TiltState, Sys}
use quartz_composer_open_kin.Prelude.{
  ℕ, zero, suc, ◌+◌, ◌-◌, ◌*◌, ◌/◌, ◌%◌, ◌^◌, Bool, true, false, Option, none, some, List, [], ◌∷◌,
  ◌==◌, ltb, if◌then◌else◌, get_or, replicate, ℤ, pos, negsuc, bit_or, u16, ◌<<<◌,
}

-- A byte or word read as a signed number.
abbrev pub int8 : ℕ → ℤ
int8 b = if ltb b 128 then pos b else negsuc (255 - b)

abbrev pub int16 : ℕ → ℤ
int16 w = if ltb w (2 ^ 15) then pos w else negsuc (2 ^ 16 - 1 - w)

-- `((uint16_t)hi << 8) | lo`
abbrev pub big_endian : ℕ → ℕ → ℕ
big_endian hi lo = u16 (bit_or (hi <<< 8) lo)

-- The state that the ten bytes of the motor's reply stand for.
unfoldable pub parse_tilt : List ℕ → TiltState
parse_tilt buf = record {
  accelerometer_x = int16 (big_endian (get_or buf 2 0) (get_or buf 3 0));
  accelerometer_y = int16 (big_endian (get_or buf 4 0) (get_or buf 5 0));
  accelerometer_z = int16 (big_endian (get_or buf 6 0) (get_or buf 7 0));
  tilt_angle = int8 (get_or buf 8 0);
  tilt_status = get_or buf 9 0;
}

-- `(angle<MIN) ? MIN : ((angle>MAX) ? MAX : angle)`, then doubled and cut to `uint16_t`, for
-- the angle `num / den`. A negative angle becomes its two's complement.
unfoldable pub wire_angle : ℤ → ℕ → ℕ
wire_angle (pos n) den = if ltb (31 * den) n then 62 else (2 * n) / den
wire_angle (negsuc n) den =
    if ltb (31 * den) (n + 1) then 2 ^ 16 - 62 else (2 ^ 16 - (2 * (n + 1)) / den) % 2 ^ 16

-- `freenect_led_options`
pub data Led : Type 0 where
  led_off led_green led_red led_yellow led_blink_green led_blink_red_yellow : Led

abbrev pub led_code : Led → ℕ
led_code led_off = 0
led_code led_green = 1
led_code led_red = 2
led_code led_yellow = 3
led_code led_blink_green = 4
led_code led_blink_red_yellow = 6

abbrev pub is_ten : ℤ → Bool
is_ten (pos n) = n == 10
is_ten (negsuc n) = false

-- `ret < 0 ? ret : -1`
abbrev pub failure : ℤ → ℤ
failure (pos n) = negsuc 0
failure (negsuc n) = negsuc n

module _ {W : Type 0} (usb : Libusb W) where
  -- `buf` is what the reply's buffer holds at first.
  unfoldable pub update_tilt_state : List ℕ → Sys W → ℤ × Sys W
  update_tilt_state buf y =
      let (ret, buf', w) = usb.control_transfer y.dev.usb_motor 0xc0 0x32 0 0 buf y.world in
      if is_ten ret
      then (ret, record y { dev = record (y.dev) { raw_state = parse_tilt buf' }; world = w })
      else (failure ret, record y { world = w })

  unfoldable pub set_tilt_degs : ℤ → ℕ → Sys W → ℤ × Sys W
  set_tilt_degs num den y =
      let (ret, _, w) =
        usb.control_transfer y.dev.usb_motor 0x40 0x31 (wire_angle num den) 0 [] y.world in
      (ret, record y { world = w })

  unfoldable pub set_led : Led → Sys W → ℤ × Sys W
  set_led option y =
      let (ret, _, w) =
        usb.control_transfer y.dev.usb_motor 0x40 0x06 (led_code option) 0 [] y.world in
      (ret, record y { world = w })
