-- ===== src/Camera/Process.antt =====
-- `depth_process` and `video_process` of libfreenect/src/cameras.c: a packet goes through the stream,
-- a whole frame through the conversion of its format and to the client's callback. `none` is a fault.
pub mod Laws
pub mod Converts
pub mod Safety
use quartz_composer_open_kin.Convert.Bayer.{convert_bayer_to_rgb}
use quartz_composer_open_kin.Convert.Packed.{convert_packed_to_16bit, convert_packed_to_8bit}
use quartz_composer_open_kin.Convert.Uyvy.{convert_uyvy_to_rgb}
use quartz_composer_open_kin.Device.{
  VideoFormat, video_rgb, video_bayer, video_ir_8bit, video_ir_10bit, video_ir_10bit_packed,
  video_yuv_rgb, video_yuv_raw, DepthFormat, depth_11bit, depth_10bit, depth_11bit_packed,
  depth_10bit_packed, frame_pix, ir_frame_pix, Device, Delivery, Sys,
}
use quartz_composer_open_kin.Memory.{Heap, Pointer, memcpy, contents}
use quartz_composer_open_kin.Prelude.{
  ℕ, ◌/◌, ◌%◌, Bool, Option, none, some, List, [], ◌∷◌, ◌==◌, if◌then◌else◌, not, length, ◌>>=◌,
  ◌||◌,
}
use quartz_composer_open_kin.Stream.{PacketStream}
use quartz_composer_open_kin.Stream.Process.{stream_process}

-- `uint16_t` words as they lie in memory.
abbrev pub words : List ℕ → List ℕ
words [] = []
words (w ∷ ws) = (w % 256) ∷ (w / 256) ∷ words ws

-- A conversion reads the raw frame and fills the processed one from its start.
abbrev pub convert_with : (List ℕ → List ℕ → Option (List ℕ)) → PacketStream → Heap → Option Heap
convert_with f s h = do
  raw ← contents s.raw_buf h
  proc ← contents s.proc_buf h
  out ← f raw proc
  memcpy s.proc_buf 0 out h

abbrev pub as_words : Option (List ℕ) → Option (List ℕ)
as_words none = none
as_words (some ws) = some (words ws)

unfoldable pub convert_depth : DepthFormat → PacketStream → Heap → Option Heap
convert_depth depth_11bit s h =
    convert_with (λ raw proc. as_words (convert_packed_to_16bit raw 11 frame_pix)) s h
convert_depth depth_10bit s h =
    convert_with (λ raw proc. as_words (convert_packed_to_16bit raw 10 frame_pix)) s h
convert_depth depth_10bit_packed s h = some h
convert_depth depth_11bit_packed s h = some h

unfoldable pub convert_video : VideoFormat → PacketStream → Heap → Option Heap
convert_video video_rgb s h = convert_with (λ raw proc. convert_bayer_to_rgb raw) s h
convert_video video_bayer s h = some h
convert_video video_ir_10bit s h =
    convert_with (λ raw proc. as_words (convert_packed_to_16bit raw 10 ir_frame_pix)) s h
convert_video video_ir_10bit_packed s h = some h
convert_video video_ir_8bit s h =
    convert_with (λ raw proc. convert_packed_to_8bit raw 10 ir_frame_pix) s h
convert_video video_yuv_rgb s h = convert_with convert_uyvy_to_rgb s h
convert_video video_yuv_raw s h = some h

-- `if (cb) cb(dev, proc_buf, timestamp)`
abbrev pub deliver : Option ℕ → PacketStream → List Delivery → List Delivery
deliver none s ds = ds
deliver (some cb) s ds = record { cb = cb; buf = s.proc_buf; timestamp = s.timestamp } ∷ ds

module _ {W : Type 0} where
  unfoldable pub depth_process : List ℕ → Sys W → Option (Sys W)
  depth_process pkt y = if length pkt == 0 || not y.dev.depth.running then some y else do
    (got, s, h) ← stream_process y.dev.depth pkt y.heap
    let dev' = record (y.dev) { depth = s }
    if got == 0 then some (record y { dev = dev'; heap = h }) else do
      h' ← convert_depth y.dev.depth_format s h
      some (record y { dev = dev'; heap = h'; delivered = deliver y.dev.depth_cb s y.delivered })

  unfoldable pub video_process : List ℕ → Sys W → Option (Sys W)
  video_process pkt y = if length pkt == 0 || not y.dev.video.running then some y else do
    (got, s, h) ← stream_process y.dev.video pkt y.heap
    let dev' = record (y.dev) { video = s }
    if got == 0 then some (record y { dev = dev'; heap = h }) else do
      h' ← convert_video y.dev.video_format s h
      some (record y { dev = dev'; heap = h'; delivered = deliver y.dev.video_cb s y.delivered })
