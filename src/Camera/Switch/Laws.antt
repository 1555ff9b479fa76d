-- ===== src/Camera/Switch/Laws.antt =====
-- Starting and stopping the streams of a device.
use native.Mathlib.Nat.{mul-le-mul_right}
use quartz_composer_open_kin.Camera.Switch.{
  depth_sizes, video_sizes, depth_setup, video_setup, init_depth, init_video,
}
use quartz_composer_open_kin.Device.{
  VideoFormat, video_rgb, video_bayer, video_ir_8bit, video_ir_10bit, video_ir_10bit_packed,
  video_yuv_rgb, video_yuv_raw, DepthFormat, depth_11bit, depth_10bit, depth_11bit_packed,
  depth_10bit_packed, Sys,
}
use quartz_composer_open_kin.Memory.{Heap}
use quartz_composer_open_kin.Prelude.{
  ℕ, ◌+◌, ◌≤◌, ◌<◌, ◌≡◌, ◌⊎◌, false, arith, refl, inl, inr, ◌∙◌, Bool-cases, ltb, ◌==◌,
  if◌then◌else◌,
}
use quartz_composer_open_kin.Stream.{PacketStream}
use quartz_composer_open_kin.Stream.Buffers.{init_bufs, init_raw, init_sizes, stream_init}
use quartz_composer_open_kin.Stream.Buffers.Laws.{stream_init-ready, HasRaw, UserFits}
use quartz_composer_open_kin.Stream.Process.Frames.{IsCamera}
use quartz_composer_open_kin.Stream.Process.Stages.{IsSized}

-- A raw frame size, and a processed one where the frame is not converted.
abbrev pub frame_of : ℕ × ℕ → ℕ
frame_of (rlen, plen) = if rlen == 0 then plen else rlen

pub stream_init-shape :
    (s : PacketStream) (rlen plen : ℕ) (h : Heap)
    → ((stream_init s rlen plen h).0.flag ≡ s.flag)
      × ((stream_init s rlen plen h).0.variable_length ≡ s.variable_length)
      × ((stream_init s rlen plen h).0.pkt_size ≡ s.pkt_size)
      × ((stream_init s rlen plen h).0.frame_size ≡ frame_of (rlen, plen))
unfolding stream_init init_bufs init_raw init_sizes
stream_init-shape s rlen plen h = ground arith

-- Frames of 20000 bytes in packets of less than 2000 take more than five packets.
many_packets :
    (s : PacketStream) → IsSized s → 20000 ≤ s.frame_size → s.pkt_size ≤ 2000 → 5 < s.pkts_per_frame
many_packets s z f p = elim (Bool-cases (ltb 5 s.pkts_per_frame)) [
  | inl e ↦ ground arith
  | inr e ↦
      (let few : s.pkts_per_frame ≤ 5 = ground arith in
        omega (arith, mul-le-mul_right s.pkt_size few, z.fill, z.last_fits))
]

stream_init-IsCamera :
    (s : PacketStream) (rlen plen : ℕ) (h : Heap)
    → 0 < s.pkt_size
    → s.pkt_size ≤ 2000
    → 20000 ≤ frame_of (rlen, plen)
    → 0 < plen
    → (s.flag ≡ 0x70) ⊎ (s.flag ≡ 0x80)
    → s.variable_length ≡ false
    → rlen + plen ≤ h.room
    → UserFits s plen h
    → IsCamera (stream_init s rlen plen h).0
      × HasRaw (stream_init s rlen plen h).0 (stream_init s rlen plen h).1
stream_init-IsCamera s rlen plen h p q f l g v m u =
    let r = stream_init-ready s rlen plen h p l m u in
    let k = stream_init-shape s rlen plen h in
    (
      record {
        sized = r.0;
        flagged = omega (arith, k, g);
        fixed = k.1 ∙ v;
        many = many_packets _ r.0 (omega (arith, k)) (omega (arith, k));
      },
      r.1,
    )

depth_sizes-big : (f : DepthFormat) → (20000 ≤ frame_of (depth_sizes f)) × (0 < (depth_sizes f).1)
depth_sizes-big depth_11bit = (omega arith, omega arith)
depth_sizes-big depth_10bit = (omega arith, omega arith)
depth_sizes-big depth_11bit_packed = (omega arith, omega arith)
depth_sizes-big depth_10bit_packed = (omega arith, omega arith)

video_sizes-big : (f : VideoFormat) → (20000 ≤ frame_of (video_sizes f)) × (0 < (video_sizes f).1)
video_sizes-big video_rgb = (omega arith, omega arith)
video_sizes-big video_bayer = (omega arith, omega arith)
video_sizes-big video_ir_8bit = (omega arith, omega arith)
video_sizes-big video_ir_10bit = (omega arith, omega arith)
video_sizes-big video_ir_10bit_packed = (omega arith, omega arith)
video_sizes-big video_yuv_rgb = (omega arith, omega arith)
video_sizes-big video_yuv_raw = (omega arith, omega arith)

module _ {W : Type 0} where
  -- Starting depth. For each of the four depth formats, with memory for the frames, what
  -- `freenect_start_depth` sets up is a camera's stream (fixed packets, more than five a frame, flag
  -- 0x70) with a raw buffer that holds a frame.
  pub init_depth-IsCamera :
      (y : Sys W)
      → (depth_sizes y.dev.depth_format).0 + (depth_sizes y.dev.depth_format).1 ≤ y.heap.room
      → UserFits y.dev.depth (depth_sizes y.dev.depth_format).1 y.heap
      → IsCamera (init_depth y).dev.depth × HasRaw (init_depth y).dev.depth (init_depth y).heap
  unfolding init_depth
  init_depth-IsCamera y m u =
      let z = depth_sizes-big y.dev.depth_format in
      stream_init-IsCamera (depth_setup y.dev) _ _ y.heap (omega arith) (omega arith) z.0 z.1
        (inl refl) refl m u

  -- Starting video, the same for each of the seven video formats, with flag 0x80.
  pub init_video-IsCamera :
      (y : Sys W)
      → (video_sizes y.dev.video_format).0 + (video_sizes y.dev.video_format).1 ≤ y.heap.room
      → UserFits y.dev.video (video_sizes y.dev.video_format).1 y.heap
      → IsCamera (init_video y).dev.video × HasRaw (init_video y).dev.video (init_video y).heap
  unfolding init_video
  init_video-IsCamera y m u =
      let z = video_sizes-big y.dev.video_format in
      stream_init-IsCamera (video_setup y.dev) _ _ y.heap (omega arith) (omega arith) z.0 z.1
        (inr refl) refl m u
