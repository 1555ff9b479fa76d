-- ===== src/Plugin/Life.antt =====
-- The life cycle of ImageWithKinectPlugIn.mm: `startExecution:`, `execute:` and `stopExecution:` on the
-- thread of Quartz Composer, and the driver's thread, `freenect_threadfunc`, cut where it passes from
-- one part to the next. What the callbacks do with the plug-in's buffers is in Plugin/Exchange; here a
-- buffer is an argument. The outputs, which are copied to the ports, are left out. `none` is a fault
-- or a loop of the driver that has not ended.
pub mod Execute
pub mod Inv
pub mod Steps
pub mod Opens
pub mod Main
pub mod Cycle
pub mod Race
pub mod Stop
pub mod Ended
pub mod Joins
use quartz_composer_open_kin.Core.{
  Core, Context, core_init, put_sys, set_log_level, shutdown, sys_of, no_device,
}
use quartz_composer_open_kin.Device.{Libusb, Device, Sys}
use quartz_composer_open_kin.Fakenect.{Globals, Host}
use quartz_composer_open_kin.Fakenect.Api.{
  Handle, fake, real, fake_set_depth_callback, fake_set_video_callback, fake_set_video_buffer,
  fake_set_user, fake_set_video_format, fake_set_depth_format, fake_num_devices, fake_open_device,
  either_process_events, fake_set_tilt_degs, fake_set_led, fake_update_tilt_state, fake_start_depth,
  fake_start_video, fake_stop_depth, fake_stop_video, fake_close_device, fake_shutdown, fake_init,
}
use quartz_composer_open_kin.Memory.{Heap, Pointer, malloc}
use quartz_composer_open_kin.Plugin.Exchange.{Buffers, free_buffers}
use quartz_composer_open_kin.Prelude.{
  ℕ, zero, suc, ◌+◌, Bool, true, false, Option, none, some, List, ◌&&◌, leb, if◌then◌else◌, ◌>>=◌,
  is_some, is_neg, ℤ, pos, negsuc, ◌==◌,
}
use quartz_composer_open_kin.Tilt.{Led, led_off}

-- `_f_dev`: NULL, the fake device, or one of the driver's.
pub data DevicePointer : Type 0 where
  null fake_dev : DevicePointer
  device : ℕ → DevicePointer

-- Where the driver's thread is: there is none, at the start, at the head of its loop, behind the loop,
-- behind the stop of the streams, behind the close of the device, behind `_f_dev = 0`.
pub data Stage : Type 0 where
  no_thread starting looping shutting stopped closed finished : Stage

-- The fields of the plug-in that its life cycle uses, with the driver's context `*_f_ctx`, the fake
-- driver's globals, and the environment. `accel_count` is a local of the thread.
pub record Life (W : Type 0) : Type 0 where
  pub die : Bool
  pub f_dev : DevicePointer
  pub freenect_thread : Stage
  pub use_fakenect : Bool
  pub freenect_angle : ℤ
  pub freenect_led : Led
  pub accel_count : ℕ
  pub host : Host
  pub globals : Globals
  pub core : Core W

-- The callbacks, known by a number.
abbrev pub depth_cb_id : ℕ
depth_cb_id = 1

abbrev pub rgb_cb_id : ℕ
rgb_cb_id = 2

-- `FREENECT_VIDEO_RGB`, and `FREENECT_DEPTH_11BIT`.
abbrev pub first_format : ℕ
first_format = 0

abbrev pub has_thread : Stage → Bool
has_thread no_thread = false
has_thread _ = true

abbrev pub is_finished : Stage → Bool
is_finished finished = true
is_finished _ = false

module _ {W : Type 0} where
  -- `[plugin context]`
  unfoldable pub context : Life W → Handle
  context s = if s.use_fakenect then fake else real

  abbrev pub put_fake : Globals → Sys W → Life W → Life W
  put_fake g y s = record s {
    globals = g;
    core = record (s.core) { heap = y.heap; world = y.world; delivered = y.delivered };
  }

  -- A call on `_f_dev` of one of the functions that tell the fake device from a real one.
  unfoldable pub call_on :
      (Handle → Globals × Sys W → Option (ℤ × Globals × Sys W))
      → DevicePointer
      → Life W
      → Option (ℤ × Life W)
  call_on call null s = none
  call_on call fake_dev s = do
    (r, g, y) ← call fake (s.globals, sys_of no_device s.core)
    some (r, put_fake g y s)
  call_on call (device p) s = do
    n ← s.core.devs p
    (r, g, y) ← call real (s.globals, sys_of n.dev s.core)
    some (r, record s { globals = g; core = put_sys p n.next y s.core })

  abbrev pub on_device :
      (Handle → Globals × Sys W → Option (ℤ × Globals × Sys W)) → Life W → Option (ℤ × Life W)
  on_device call s = call_on call s.f_dev s

module _ {W : Type 0} (usb : Libusb W) (fuel : ℕ) (ibuf : List ℕ) where
  -- From the tilt to `fakenect_start_video`.
  unfoldable pub set_up_streams :
      ℤ → Led → ℕ → Handle → Globals × Sys W → Option (ℤ × Globals × Sys W)
  set_up_streams angle led rgb_back h (g, y) = do
    let (_, y₁) = fake_set_tilt_degs usb h angle 1 y
    let (_, y₂) = fake_set_led usb h led y₁
    let (g₁, d₁) = fake_set_depth_callback h (some depth_cb_id) (g, y₂.dev)
    let (g₂, d₂) = fake_set_video_callback h (some rgb_cb_id) (g₁, d₁)
    (_, d₃) ← fake_set_video_format h first_format d₂
    (_, d₄) ← fake_set_depth_format h first_format d₃
    let (_, g₅, d₅) = fake_set_video_buffer h (some rgb_back) (g₂, d₄)
    (_, g₆, y₆) ← fake_start_depth usb fuel ibuf h (g₅, record y₂ { dev = d₅ })
    fake_start_video usb fuel ibuf h (g₆, y₆)

  -- `fakenect_close_device(_f_dev)`
  unfoldable pub close_f_dev : DevicePointer → Life W → Option (Life W)
  close_f_dev null s = none
  close_f_dev fake_dev s = do
    (_, c) ← fake_close_device usb fuel ibuf fake 0 s.core
    some (record s { core = c })
  close_f_dev (device p) s = do
    (_, c) ← fake_close_device usb fuel ibuf real p s.core
    some (record s { core = c })

  -- Every 2000 rounds the accelerometer is read; `buf` is what the reply's buffer holds at first.
  unfoldable pub read_accel : List ℕ → Life W → Option (Life W)
  read_accel buf s =
      if leb 2000 s.accel_count
      then (on_device
            (λ h x. (let (r, y) = fake_update_tilt_state usb h buf x.1 in some (r, x.0, y))) s
          >>= λ r. some (record (r.1) { accel_count = 0 }))
      else some (record s { accel_count = s.accel_count + 1 })

  -- The calls behind the loop.
  unfoldable pub stop_streams : Handle → Globals × Sys W → Option (ℤ × Globals × Sys W)
  stop_streams h (g, y) = do
    let (_, y₁) = fake_set_led usb h led_off y
    (_, g₂, y₂) ← fake_stop_depth usb fuel ibuf h (g, y₁)
    fake_stop_video usb fuel ibuf h (g₂, y₂)

  -- The events, and the body of the loop.
  unfoldable pub run_events : List ℕ → Life W → Option (Life W)
  run_events buf s = do
    (res, t) ← on_device (λ h x. either_process_events usb (context s) s.host x) s
    if is_neg res then some (record t { freenect_thread = shutting }) else read_accel buf t

  unfoldable pub run_loop : List ℕ → Life W → Option (Life W)
  run_loop buf s =
      if s.die then some (record s { freenect_thread = shutting }) else run_events buf s

  -- One step of the driver's thread; there is none where it has returned. `rgb_back` is the back buffer
  -- at the time of the step, and `buf` the reply's buffer of the accelerometer.
  unfoldable pub step_at : Stage → ℕ → List ℕ → Life W → Option (Life W)
  step_at no_thread rgb_back buf s = none
  step_at starting rgb_back buf s = do
    (_, t) ← on_device (set_up_streams s.freenect_angle s.freenect_led rgb_back) s
    some (record t { freenect_thread = looping; accel_count = 0 })
  step_at looping rgb_back buf s = run_loop buf s
  step_at shutting rgb_back buf s = do
    (_, t) ← on_device stop_streams s
    some (record t { freenect_thread = stopped })
  step_at stopped rgb_back buf s = do
    t ← close_f_dev s.f_dev s
    some (record t { freenect_thread = closed })
  step_at closed rgb_back buf s = some (record s { f_dev = null; freenect_thread = finished })
  step_at finished rgb_back buf s = none

  abbrev pub thread_step : ℕ → List ℕ → Life W → Option (Life W)
  thread_step rgb_back buf s = step_at s.freenect_thread rgb_back buf s

  -- `pthread_join`: the thread goes on, at most `k` steps, until it has returned.
  unfoldable pub join : ℕ → ℕ → List ℕ → Life W → Option (Life W)
  join zero rgb_back buf s = none
  join (suc k) rgb_back buf s =
      let rest = thread_step rgb_back buf s >>= join k rgb_back buf in
      if is_finished s.freenect_thread
      then some (record s { freenect_thread = no_thread })
      else rest
