-- ===== src/Fakenect/Api.antt =====
-- The other functions of libfreenect/src/fakenect.c. Each looks at its device or context: for the fake
-- one it changes the globals, for a real one it calls the driver's function. `none` is a fault.
use quartz_composer_open_kin.Camera.Settings.{
  set_depth_callback, set_video_callback, set_depth_buffer, set_video_buffer, set_depth_format,
  set_video_format,
}
use quartz_composer_open_kin.Camera.Switch.{start_depth, start_video, stop_depth, stop_video}
use quartz_composer_open_kin.Core.{
  Core, close_device, open_device, shutdown, set_log_level, set_log_callback, set_user, get_user,
}
use quartz_composer_open_kin.Device.{Libusb, Device, Sys, TiltState}
use quartz_composer_open_kin.Fakenect.{Host, Globals}
use quartz_composer_open_kin.Fakenect.Events.{fake_process_events}
use quartz_composer_open_kin.Memory.{Heap, Pointer}
use quartz_composer_open_kin.Prelude.{
  ℕ, true, false, Option, none, some, List, ◌==◌, if◌then◌else◌, ◌>>=◌, ◌⊎◌, inl, inr, ℤ, pos,
}
use quartz_composer_open_kin.Tilt.{Led, set_tilt_degs, set_led, update_tilt_state}
use quartz_composer_open_kin.Tilt.Accessors.{Double, get_tilt_state, get_mks_accel}
use quartz_composer_open_kin.Usb.Iso.{process_events}
use quartz_composer_open_kin.Usb.Bus.{UsbCtx, num_devices}

-- A pointer that is `fake_dev` or `fake_ctx`, or one of the driver's.
pub data Handle : Type 0 where
  fake real : Handle

unfoldable pub fake_set_depth_callback : Handle → Option ℕ → Globals × Device → Globals × Device
fake_set_depth_callback fake cb (g, d) = (record g { cur_depth_cb = cb }, d)
fake_set_depth_callback real cb (g, d) = (g, set_depth_callback cb d)

unfoldable pub fake_set_video_callback : Handle → Option ℕ → Globals × Device → Globals × Device
fake_set_video_callback fake cb (g, d) = (record g { cur_rgb_cb = cb }, d)
fake_set_video_callback real cb (g, d) = (g, set_video_callback cb d)

unfoldable pub fake_set_depth_buffer : Handle → Pointer → Globals × Device → ℤ × Globals × Device
fake_set_depth_buffer fake buf (g, d) = (pos 0, record g { depth_buffer = buf }, d)
fake_set_depth_buffer real buf (g, d) = let (r, d') = set_depth_buffer buf d in (r, g, d')

unfoldable pub fake_set_video_buffer : Handle → Pointer → Globals × Device → ℤ × Globals × Device
fake_set_video_buffer fake buf (g, d) = (pos 0, record g { rgb_buffer = buf }, d)
fake_set_video_buffer real buf (g, d) = let (r, d') = set_video_buffer buf d in (r, g, d')

unfoldable pub fake_set_user : Handle → Pointer → Globals × Device → Globals × Device
fake_set_user fake user (g, d) = (record g { user_ptr = user }, d)
fake_set_user real user (g, d) = (g, set_user user d)

unfoldable pub fake_get_user : Handle → Globals × Device → Pointer
fake_get_user fake (g, d) = g.user_ptr
fake_get_user real (g, d) = get_user d

-- `fakenect_init` never asks the driver: every context it gives is the fake one.
unfoldable pub fake_init : ℤ × Handle
fake_init = (pos 0, fake)

-- `&state`, the bytes of the last report, or the driver's.
unfoldable pub fake_get_tilt_state : {W : Type 0} → Handle → Globals × Sys W → List ℕ ⊎ TiltState
fake_get_tilt_state fake (g, y) = inl g.state
fake_get_tilt_state real (g, y) = inr (get_tilt_state y)

module _ {F : Type 0} (d : Double F) where
  unfoldable pub fake_get_tilt_degs : TiltState → F
  fake_get_tilt_degs t = d.div (d.of_int t.tilt_angle) (d.of_int (pos 2))

  unfoldable pub fake_get_mks_accel : TiltState → F × F × F
  fake_get_mks_accel t = get_mks_accel d t

-- `assert` of the only format that a recording has; 0 is FREENECT_VIDEO_RGB and FREENECT_DEPTH_11BIT.
unfoldable pub fake_set_video_format : Handle → ℕ → Device → Option (ℤ × Device)
fake_set_video_format fake fmt d = if fmt == 0 then some (pos 0, d) else none
fake_set_video_format real fmt d = some (set_video_format fmt d)

unfoldable pub fake_set_depth_format : Handle → ℕ → Device → Option (ℤ × Device)
fake_set_depth_format fake fmt d = if fmt == 0 then some (pos 0, d) else none
fake_set_depth_format real fmt d = some (set_depth_format fmt d)

module _ {W : Type 0} where
  unfoldable pub fake_set_log_callback : Handle → Option ℕ → Core W → Core W
  fake_set_log_callback fake cb c = c
  fake_set_log_callback real cb c = set_log_callback cb c

  unfoldable pub fake_set_log_level : Handle → ℕ → Core W → Core W
  fake_set_log_level fake level c = c
  fake_set_log_level real level c = set_log_level level c

  -- The driver's result with the globals beside it.
  abbrev pub beside : Globals → Option (ℤ × Sys W) → Option (ℤ × Globals × Sys W)
  beside g none = none
  beside g (some (r, y)) = some (r, g, y)

module _ {W : Type 0} (usb : Libusb W) where
  -- There is always one fake device.
  unfoldable pub fake_num_devices : Handle → UsbCtx → W → ℤ × W
  fake_num_devices fake c w = (pos 1, w)
  fake_num_devices real c w = num_devices usb c w

  -- Which device the result points to, and its number where it is the driver's.
  unfoldable pub fake_open_device :
      Handle → ℕ → ℕ → Core W → Option (ℤ × Handle × Option ℕ × Core W)
  fake_open_device fake fuel index c = some (pos 0, fake, none, c)
  fake_open_device real fuel index c = do
    (r, dev, c') ← open_device usb fuel index c
    some (r, real, dev, c')

  -- The test at the head of `fakenect_process_events`.
  unfoldable pub either_process_events :
      Handle → Host → Globals × Sys W → Option (ℤ × Globals × Sys W)
  either_process_events fake host (g, y) = do
    (r, g', h) ← fake_process_events host g y.heap
    some (r, g', record y { heap = h })
  either_process_events real host (g, y) = beside g (process_events usb y)

  unfoldable pub fake_set_tilt_degs : Handle → ℤ → ℕ → Sys W → ℤ × Sys W
  fake_set_tilt_degs fake num den y = (pos 0, y)
  fake_set_tilt_degs real num den y = set_tilt_degs usb num den y

  unfoldable pub fake_set_led : Handle → Led → Sys W → ℤ × Sys W
  fake_set_led fake option y = (pos 0, y)
  fake_set_led real option y = set_led usb option y

  unfoldable pub fake_update_tilt_state : Handle → List ℕ → Sys W → ℤ × Sys W
  fake_update_tilt_state fake buf y = (pos 0, y)
  fake_update_tilt_state real buf y = update_tilt_state usb buf y

  module _ (fuel : ℕ) (ibuf : List ℕ) where
    unfoldable pub fake_start_depth : Handle → Globals × Sys W → Option (ℤ × Globals × Sys W)
    fake_start_depth fake (g, y) = some (pos 0, record g { depth_running = true }, y)
    fake_start_depth real (g, y) = beside g (start_depth usb fuel ibuf y)

    unfoldable pub fake_start_video : Handle → Globals × Sys W → Option (ℤ × Globals × Sys W)
    fake_start_video fake (g, y) = some (pos 0, record g { rgb_running = true }, y)
    fake_start_video real (g, y) = beside g (start_video usb fuel ibuf y)

    unfoldable pub fake_stop_depth : Handle → Globals × Sys W → Option (ℤ × Globals × Sys W)
    fake_stop_depth fake (g, y) = some (pos 0, record g { depth_running = false }, y)
    fake_stop_depth real (g, y) = beside g (stop_depth usb fuel ibuf y)

    unfoldable pub fake_stop_video : Handle → Globals × Sys W → Option (ℤ × Globals × Sys W)
    fake_stop_video fake (g, y) = some (pos 0, record g { rgb_running = false }, y)
    fake_stop_video real (g, y) = beside g (stop_video usb fuel ibuf y)

    unfoldable pub fake_close_device : Handle → ℕ → Core W → Option (ℤ × Core W)
    fake_close_device fake p c = some (pos 0, c)
    fake_close_device real p c = close_device usb fuel ibuf p c

    unfoldable pub fake_shutdown : Handle → ℕ → Core W → Option (ℤ × Heap × W)
    fake_shutdown fake k c = some (pos 0, c.heap, c.world)
    fake_shutdown real k c = do r ← shutdown usb fuel ibuf k c; some (pos 0, r.0, r.1)
