-- ===== src/Camera/Settings.antt =====
-- The setters of libfreenect/src/cameras.c: callbacks, formats and buffers.
use quartz_composer_open_kin.Device.{
  VideoFormat, video_rgb, video_bayer, video_ir_8bit, video_ir_10bit, video_ir_10bit_packed,
  video_yuv_rgb, video_yuv_raw, DepthFormat, depth_11bit, depth_10bit, depth_11bit_packed,
  depth_10bit_packed, Device,
}
use quartz_composer_open_kin.Memory.{Pointer}
use quartz_composer_open_kin.Prelude.{
  ℕ, zero, suc, Bool, true, false, Option, none, some, if◌then◌else◌, ℤ, pos, negsuc,
}
use quartz_composer_open_kin.Stream.Buffers.{stream_setbuf}

unfoldable pub set_depth_callback : Option ℕ → Device → Device
set_depth_callback cb d = record d { depth_cb = cb }

unfoldable pub set_video_callback : Option ℕ → Device → Device
set_video_callback cb d = record d { video_cb = cb }

-- The numbers of the formats in libfreenect.h; `none` is the `default:` of the switches.
abbrev pub video_format_of : ℕ → Option VideoFormat
video_format_of zero = some video_rgb
video_format_of (suc zero) = some video_bayer
video_format_of (suc (suc zero)) = some video_ir_8bit
video_format_of (suc (suc (suc zero))) = some video_ir_10bit
video_format_of (suc (suc (suc (suc zero)))) = some video_ir_10bit_packed
video_format_of (suc (suc (suc (suc (suc zero))))) = some video_yuv_rgb
video_format_of (suc (suc (suc (suc (suc (suc zero)))))) = some video_yuv_raw
video_format_of (suc (suc (suc (suc (suc (suc (suc n))))))) = none

abbrev pub depth_format_of : ℕ → Option DepthFormat
depth_format_of zero = some depth_11bit
depth_format_of (suc zero) = some depth_10bit
depth_format_of (suc (suc zero)) = some depth_11bit_packed
depth_format_of (suc (suc (suc zero))) = some depth_10bit_packed
depth_format_of (suc (suc (suc (suc n)))) = none

-- Each returns 0 or -1.
unfoldable pub set_video_format : ℕ → Device → ℤ × Device
set_video_format fmt d = if d.video.running then (negsuc 0, d) else elim (video_format_of fmt) [
  | some f ↦ (pos 0, record d { video_format = f })
  | none ↦ (negsuc 0, d)
]

unfoldable pub set_depth_format : ℕ → Device → ℤ × Device
set_depth_format fmt d = if d.depth.running then (negsuc 0, d) else elim (depth_format_of fmt) [
  | some f ↦ (pos 0, record d { depth_format = f })
  | none ↦ (negsuc 0, d)
]

abbrev pub code_of : Bool → ℤ
code_of true = pos 0
code_of false = negsuc 0

unfoldable pub set_depth_buffer : Pointer → Device → ℤ × Device
set_depth_buffer buf d =
    let (good, s) = stream_setbuf d.depth buf in (code_of good, record d { depth = s })

unfoldable pub set_video_buffer : Pointer → Device → ℤ × Device
set_video_buffer buf d =
    let (good, s) = stream_setbuf d.video buf in (code_of good, record d { video = s })
