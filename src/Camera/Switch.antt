-- ===== src/Camera/Switch.antt =====
-- `freenect_start_depth`, `freenect_start_video`, `freenect_stop_depth` and `freenect_stop_video` of
-- libfreenect/src/cameras.c. `fuel` bounds each loop that waits for the device, and `ibuf` is what a
-- reply's buffer holds before the device fills it; `none` is a fault or a loop that has not ended.
pub mod Laws
pub mod Replies
pub mod Stops
pub mod Starts
use quartz_composer_open_kin.Camera.Control.{write_register}
use quartz_composer_open_kin.Device.{
  VideoFormat, video_rgb, video_bayer, video_ir_8bit, video_ir_10bit, video_ir_10bit_packed,
  video_yuv_rgb, video_yuv_raw, DepthFormat, depth_11bit, depth_10bit, depth_11bit_packed,
  depth_10bit_packed, video_rgb_size, video_bayer_size, video_yuv_raw_size, video_ir_8bit_size,
  video_ir_10bit_packed_size, depth_11bit_size, depth_10bit_size, depth_11bit_packed_size,
  depth_10bit_packed_size, Libusb, Device, Sys, Endpoint, depth_ep, video_ep,
}
use quartz_composer_open_kin.Memory.{Heap}
use quartz_composer_open_kin.Prelude.{
  ℕ, ◌-◌, Bool, true, false, Option, none, some, List, [], ◌∷◌, ◌++◌, if◌then◌else◌, not, ◌>>=◌, ℤ,
  pos, negsuc,
}
use quartz_composer_open_kin.Stream.{PacketStream}
use quartz_composer_open_kin.Stream.Buffers.{stream_init, stream_freebufs}
use quartz_composer_open_kin.Usb.Iso.{start_iso, stop_iso}

-- `DEPTH_PKTDSIZE` and `VIDEO_PKTDSIZE`: a packet without its header.
abbrev pub depth_pktdsize : ℕ
depth_pktdsize = 1760 - 12

abbrev pub video_pktdsize : ℕ
video_pktdsize = 1920 - 12

-- The transfers of usb_libusb10.h on the Mac: PKTS_PER_XFER, NUM_XFERS, and one PKTBUF for both.
abbrev pub pkts_per_xfer : ℕ
pkts_per_xfer = 128

abbrev pub num_xfers : ℕ
num_xfers = 4

abbrev pub pktbuf : ℕ
pktbuf = 2048

-- The sizes of the raw and the processed frame that `stream_init` is given for a format; a raw size
-- of 0 means that the frame is not converted.
abbrev pub depth_sizes : DepthFormat → ℕ × ℕ
depth_sizes depth_11bit = (depth_11bit_packed_size, depth_11bit_size)
depth_sizes depth_10bit = (depth_10bit_packed_size, depth_10bit_size)
depth_sizes depth_11bit_packed = (0, depth_11bit_packed_size)
depth_sizes depth_10bit_packed = (0, depth_10bit_packed_size)

abbrev pub video_sizes : VideoFormat → ℕ × ℕ
video_sizes video_rgb = (video_bayer_size, video_rgb_size)
video_sizes video_bayer = (0, video_bayer_size)
video_sizes video_ir_8bit = (video_ir_10bit_packed_size, video_ir_8bit_size)
video_sizes video_ir_10bit = (video_ir_10bit_packed_size, video_bayer_size)
video_sizes video_ir_10bit_packed = (0, video_ir_10bit_packed_size)
video_sizes video_yuv_rgb = (video_yuv_raw_size, video_rgb_size)
video_sizes video_yuv_raw = (0, video_yuv_raw_size)

-- The registers that are written, in order, with their values.
abbrev pub Writes : Type 0
Writes = List (ℕ × ℕ)

abbrev pub depth_mode : DepthFormat → Writes
depth_mode depth_11bit = (0x12, 0x03) ∷ []
depth_mode depth_11bit_packed = (0x12, 0x03) ∷ []
depth_mode depth_10bit = (0x12, 0x02) ∷ []
depth_mode depth_10bit_packed = (0x12, 0x02) ∷ []

abbrev pub start_depth_writes : DepthFormat → Writes
start_depth_writes f =
    (0x105, 0x00)
    ∷ (0x06, 0x00)
    ∷ (depth_mode f ++ ((0x13, 0x01) ∷ (0x14, 0x1e) ∷ (0x06, 0x02) ∷ []))

abbrev pub is_yuv : VideoFormat → Bool
is_yuv video_yuv_rgb = true
is_yuv video_yuv_raw = true
is_yuv _ = false

abbrev pub video_start : VideoFormat → Writes
video_start video_rgb = (0x05, 0x01) ∷ []
video_start video_bayer = (0x05, 0x01) ∷ []
video_start video_yuv_rgb = (0x05, 0x01) ∷ []
video_start video_yuv_raw = (0x05, 0x01) ∷ []
video_start video_ir_8bit = (0x105, 0x00) ∷ (0x05, 0x03) ∷ []
video_start video_ir_10bit = (0x105, 0x00) ∷ (0x05, 0x03) ∷ []
video_start video_ir_10bit_packed = (0x105, 0x00) ∷ (0x05, 0x03) ∷ []

abbrev pub start_video_writes : VideoFormat → Writes
start_video_writes f =
    (0x05, 0x00)
    ∷ ((if is_yuv f
          then (0x0c, 0x05) ∷ (0x0d, 0x01) ∷ (0x0e, 0x0f) ∷ []
          else (0x0c, 0x00) ∷ (0x0d, 0x01) ∷ (0x0e, 0x1e) ∷ [])
        ++ (video_start f ++ ((0x47, 0x00) ∷ [])))

-- The streams before `stream_init`, and as it leaves them.
abbrev pub depth_setup : Device → PacketStream
depth_setup d = record (d.depth) { pkt_size = depth_pktdsize; flag = 0x70; variable_length = false }

abbrev pub video_setup : Device → PacketStream
video_setup d = record (d.video) { pkt_size = video_pktdsize; flag = 0x80; variable_length = false }

module _ {W : Type 0} where
  abbrev pub put_depth : PacketStream → Sys W → Sys W
  put_depth s y = record y { dev = record (y.dev) { depth = s } }

  abbrev pub put_video : PacketStream → Sys W → Sys W
  put_video s y = record y { dev = record (y.dev) { video = s } }

  unfoldable pub init_depth : Sys W → Sys W
  init_depth y =
      let (s, h) =
        stream_init (depth_setup y.dev) (depth_sizes y.dev.depth_format).0
          (depth_sizes y.dev.depth_format).1 y.heap in
      put_depth s (record y { heap = h })

  unfoldable pub init_video : Sys W → Sys W
  init_video y =
      let (s, h) =
        stream_init (video_setup y.dev) (video_sizes y.dev.video_format).0
          (video_sizes y.dev.video_format).1 y.heap in
      put_video s (record y { heap = h })

module _ {W : Type 0} (usb : Libusb W) (fuel : ℕ) (ibuf : List ℕ) where
  -- Register writes one after the other, whose results are dropped.
  unfoldable pub write_all : Writes → Sys W → Option (Sys W)
  write_all [] y = some y
  write_all ((reg, value) ∷ ws) y = do
    r ← write_register usb fuel ibuf reg value y
    write_all ws r.1

  unfoldable pub start_depth : Sys W → Option (ℤ × Sys W)
  start_depth y = if y.dev.depth.running then some (negsuc 0, y) else (do
    y₁ ← start_iso usb depth_ep num_xfers pkts_per_xfer pktbuf (init_depth y)
    y₂ ← write_all (start_depth_writes y₁.dev.depth_format) y₁
    some (pos 0, put_depth (record (y₂.dev.depth) { running = true }) y₂))

  unfoldable pub start_video : Sys W → Option (ℤ × Sys W)
  start_video y = if y.dev.video.running then some (negsuc 0, y) else (do
    y₁ ← start_iso usb video_ep num_xfers pkts_per_xfer pktbuf (init_video y)
    y₂ ← write_all (start_video_writes y₁.dev.video_format) y₁
    some (pos 0, put_video (record (y₂.dev.video) { running = true }) y₂))

  unfoldable pub stop_depth : Sys W → Option (ℤ × Sys W)
  stop_depth y = if not y.dev.depth.running then some (negsuc 0, y) else (do
    y₁ ← write_all ((0x06, 0x00) ∷ []) (put_depth (record (y.dev.depth) { running = false }) y)
    y₂ ← stop_iso usb fuel depth_ep y₁
    f ← stream_freebufs y₂.dev.depth y₂.heap
    some (pos 0, put_depth f.0 (record y₂ { heap = f.1 })))

  unfoldable pub stop_video : Sys W → Option (ℤ × Sys W)
  stop_video y = if not y.dev.video.running then some (negsuc 0, y) else (do
    y₁ ← write_all ((0x05, 0x00) ∷ []) (put_video (record (y.dev.video) { running = false }) y)
    y₂ ← stop_iso usb fuel video_ep y₁
    f ← stream_freebufs y₂.dev.video y₂.heap
    some (pos 0, put_video f.0 (record y₂ { heap = f.1 })))
