-- ===== src/Viewer/Thread.antt =====
-- The driver's thread of libfreenect/examples/glview.c, `freenect_threadfunc`, and what `main` does
-- before it starts. The packets of a round of events are given as actions of the driver, and the
-- round's result beside them.
pub mod Started
use quartz_composer_open_kin.Camera.Settings.{
  set_depth_callback, set_video_callback, set_video_format, set_depth_format, set_video_buffer,
}
use quartz_composer_open_kin.Camera.Switch.{start_depth, start_video, stop_depth, stop_video}
use quartz_composer_open_kin.Core.{
  Core, Context, core_init, open_device, close_device, shutdown, set_log_level, sys_of, put_sys,
}
use quartz_composer_open_kin.Device.{
  VideoFormat, video_rgb, video_bayer, video_ir_8bit, video_ir_10bit, video_ir_10bit_packed,
  video_yuv_rgb, video_yuv_raw, Libusb, Device, Sys,
}
use quartz_composer_open_kin.Memory.{Heap, Pointer, malloc}
use quartz_composer_open_kin.Prelude.{
  ℕ, ◌+◌, ◌*◌, Bool, true, false, Option, none, some, List, leb, if◌then◌else◌, ◌>>=◌, is_neg, ℤ,
  pos, negsuc,
}
use quartz_composer_open_kin.Tilt.{led_red, set_tilt_degs, set_led, update_tilt_state}
use quartz_composer_open_kin.Usb.Bus.{num_devices}
use quartz_composer_open_kin.Viewer.{Viewer, App, Action, act_all, is_pending}

-- `freenect_video_format`
abbrev pub format_code : VideoFormat → ℕ
format_code video_rgb = 0
format_code video_bayer = 1
format_code video_ir_8bit = 2
format_code video_ir_10bit = 3
format_code video_ir_10bit_packed = 4
format_code video_yuv_rgb = 5
format_code video_yuv_raw = 6

-- The callbacks, known by a number, the formats and the buffer, before the streams start; 0 is
-- FREENECT_DEPTH_11BIT.
unfoldable pub set_up_device : Viewer → Device → Device
set_up_device v d =
    let d₁ = set_depth_callback (some 1) d in
    let d₂ = set_video_callback (some 2) d₁ in
    let (_, d₃) = set_video_format (format_code v.current_format) d₂ in
    let (_, d₄) = set_depth_format 0 d₃ in let (_, d₅) = set_video_buffer (some v.rgb_back) d₄ in d₅

-- `nr_devices >= 1`
abbrev pub has_devices : ℤ → Bool
has_devices (pos n) = leb 1 n
has_devices (negsuc n) = false

-- Where a round of the loop leaves the thread.
pub data Round (W : Type 0) : Type 0 where
  ends : App W → Round W
  goes_on : ℕ → App W → Round W

module _ {W : Type 0} (usb : Libusb W) (fuel : ℕ) (ibuf : List ℕ) where
  -- From the tilt to `freenect_start_video`.
  unfoldable pub start_streams : Viewer → Sys W → Option (Sys W)
  start_streams v y = do
    let (_, y₁) = set_tilt_degs usb v.freenect_angle 1 y
    let (_, y₂) = set_led usb led_red y₁
    (_, y₃) ← start_depth usb fuel ibuf (record y₂ { dev = set_up_device v y₂.dev })
    (_, y₄) ← start_video usb fuel ibuf y₃
    some y₄

  -- The change of the video format, where another one is requested.
  unfoldable pub change_format : App W → Option (App W)
  change_format a =
      if is_pending a.viewer
      then (do
        (_, y₁) ← stop_video usb fuel ibuf a.sys
        let (_, dev) = set_video_format (format_code a.viewer.requested_format) y₁.dev
        (_, y₂) ← start_video usb fuel ibuf (record y₁ { dev = dev })
        some (record {
          viewer = record (a.viewer) { current_format = a.viewer.requested_format };
          sys = y₂;
        }))
      else some a

  -- One round of the loop. `res` is what the events return and `xs` what they deliver; every 2000 rounds
  -- the accelerometer is read, where `buf` is what the reply's buffer holds at first.
  unfoldable pub loop_round : List ℕ → List ℕ → ℤ → List Action → ℕ → App W → Option (Round W)
  loop_round t_gamma buf res xs accel_count a = if a.viewer.die then some (ends a) else (do
    b ← act_all t_gamma xs a
    (if is_neg res then some (ends b) else (do
      let full = leb 2000 accel_count
      let y = if full then (update_tilt_state usb buf b.sys).1 else b.sys
      c ← change_format (record b { sys = y })
      some (goes_on (if full then 0 else accel_count + 1) c))))

  -- Behind the loop: the streams of device `p`, the device and the context.
  unfoldable pub shut_down : ℕ → Core W → Option (Heap × W)
  shut_down p c = do
    n ← c.devs p
    (_, y₁) ← stop_depth usb fuel ibuf (sys_of n.dev c)
    (_, y₂) ← stop_video usb fuel ibuf y₁
    (_, c') ← close_device usb fuel ibuf p (put_sys p n.next y₂ c)
    shutdown usb fuel ibuf fuel c'

  -- `main` up to `pthread_create`, whose success is `creates`: whether it goes on, the buffers in the
  -- order of their allocation, the device and the context.
  unfoldable pub open_viewer :
      ℕ
      → Bool
      → Core W
      → Option (Bool × (Pointer × Pointer × Pointer × Pointer × Pointer) × Option ℕ × Core W)
  open_viewer user_device_number creates c = do
    let (depth_mid, h₁) = malloc (640 * 480 * 3) c.heap
    let (depth_front, h₂) = malloc (640 * 480 * 3) h₁
    let (rgb_back, h₃) = malloc (640 * 480 * 3) h₂
    let (rgb_mid, h₄) = malloc (640 * 480 * 3) h₃
    let (rgb_front, h₅) = malloc (640 * 480 * 3) h₄
    let buffers : Pointer × Pointer × Pointer × Pointer × Pointer =
        (depth_mid, depth_front, rgb_back, rgb_mid, rgb_front)
    let (res, ctx, w) = core_init usb none c.world
    let c₁ = record c { ctx = ctx; heap = h₅; world = w }
    (if is_neg res then some (false, buffers, none, c₁) else (do
      let c₂ = set_log_level 5 c₁
      let (nr_devices, w') = num_devices usb c₂.ctx.usb c₂.world
      let c₃ = record c₂ { world = w' }
      (if has_devices nr_devices
          then (do
            (res', dev, c₄) ← open_device usb fuel user_device_number c₃
            (if is_neg res'
                then some (false, buffers, none, c₄)
                else some (creates, buffers, dev, c₄)))
          else some (false, buffers, none, c₃))))
