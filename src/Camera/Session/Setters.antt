-- ===== src/Camera/Session/Setters.antt =====
-- The setters of libfreenect/src/cameras.c keep the invariant of a session: the formats change only
-- while the stream is stopped, and a running stream takes only buffers that hold its frames.
use quartz_composer_open_kin.Camera.Process.Safety.{StreamReady, FitsOrNull}
use quartz_composer_open_kin.Camera.Session.{with_dev}
use quartz_composer_open_kin.Camera.Session.Good.{IsGood}
use quartz_composer_open_kin.Camera.Settings.{
  set_depth_format, set_video_format, set_depth_buffer, set_video_buffer,
}
use quartz_composer_open_kin.Camera.Switch.{depth_sizes, video_sizes}
use quartz_composer_open_kin.Device.{
  VideoFormat, video_rgb, video_bayer, video_ir_8bit, video_ir_10bit, video_ir_10bit_packed,
  video_yuv_rgb, video_yuv_raw, DepthFormat, depth_11bit, depth_10bit, depth_11bit_packed,
  depth_10bit_packed, Device, Sys, depth_11bit_size, video_rgb_size,
}
use quartz_composer_open_kin.Memory.{Heap, Pointer}
use quartz_composer_open_kin.Memory.Bytes.{Fits}
use quartz_composer_open_kin.Prelude.{
  ℕ, ◌≤◌, ◌≡◌, ◌≢◌, true, false, none, some, arith, refl, inl, inr, Bool-cases, ◌∙◌, sym,
  if◌then◌else◌,
}
use quartz_composer_open_kin.Stream.{PacketStream}
use quartz_composer_open_kin.Stream.Buffers.{stream_setbuf}

-- The largest frames.
depth_sizes-le : (f : DepthFormat) → (depth_sizes f).1 ≤ depth_11bit_size
depth_sizes-le depth_11bit = omega arith
depth_sizes-le depth_10bit = omega arith
depth_sizes-le depth_11bit_packed = omega arith
depth_sizes-le depth_10bit_packed = omega arith

video_sizes-le : (f : VideoFormat) → (video_sizes f).1 ≤ video_rgb_size
video_sizes-le video_rgb = omega arith
video_sizes-le video_bayer = omega arith
video_sizes-le video_ir_8bit = omega arith
video_sizes-le video_ir_10bit = omega arith
video_sizes-le video_ir_10bit_packed = omega arith
video_sizes-le video_yuv_rgb = omega arith
video_sizes-le video_yuv_raw = omega arith

-- A ready stream that gets another processed buffer, and raw buffer where the two are one.
switched : PacketStream → Pointer → Pointer → PacketStream
switched s usr p = record s {
  usr_buf = usr;
  proc_buf = p;
  raw_buf = if s.split_bufs then s.raw_buf else p;
}

switched-ready :
    (sizes : ℕ × ℕ) (s : PacketStream) (h : Heap) (usr p : Pointer)
    → StreamReady sizes s h
    → Fits sizes.1 p h
    → StreamReady sizes (switched s usr p) h
unfolding switched
switched-ready sizes s h usr p r f = record {
  camera = ground (arith, r.camera);
  counted = ground (arith, r.counted);
  frame = r.frame;
  whole = r.whole;
  raw = elim (Bool-cases s.split_bufs) [ inl e ↦ rw e r.raw | inr e ↦ rw (e, r.whole e) f ];
  proc = f;
  lib = r.lib;
}

Fits-le : (m n : ℕ) (p : Pointer) (h : Heap) → m ≤ n → Fits n p h → Fits m p h
Fits-le m n p h l (q, b, e, f, k) = (q, b, e, f, omega arith)

stream_setbuf-refused :
    (s : PacketStream) → s.running ≡ true → s.lib_buf ≡ none → (stream_setbuf s none).1 ≡ s
unfolding stream_setbuf
stream_setbuf-refused s on e = ground (arith, on, e)

stream_setbuf-own :
    (s : PacketStream) (p : ℕ)
    → s.running ≡ true
    → s.lib_buf ≡ some p
    → (stream_setbuf s none).1 ≡ switched s none (some p)
unfolding stream_setbuf switched
stream_setbuf-own s p on e = rw (on, e) refl

stream_setbuf-given :
    (s : PacketStream) (p : ℕ)
    → s.running ≡ true
    → (stream_setbuf s (some p)).1 ≡ switched s (some p) (some p)
unfolding stream_setbuf switched
stream_setbuf-given s p on = rw on refl

stream_setbuf-ready :
    (sizes : ℕ × ℕ) (n : ℕ) (s : PacketStream) (h : Heap) (buf : Pointer)
    → s.running ≡ true
    → sizes.1 ≤ n
    → FitsOrNull n buf h
    → StreamReady sizes s h
    → StreamReady sizes (stream_setbuf s buf).1 h
stream_setbuf-ready sizes n s h buf on l (inr f) r =
    let (p, b, e, g, k) = f in
    rw (e, stream_setbuf-given s p on)
      (switched-ready sizes s h (some p) (some p) r (p, b, refl, g, omega arith))
stream_setbuf-ready sizes n s h buf on l (inl e) r = elim r.lib [
  | inl none_left ↦ rw (e, stream_setbuf-refused s on none_left) r
  | inr (p, b, f, g, k) ↦
      rw (e, stream_setbuf-own s p on f)
        (switched-ready sizes s h none (some p) r (p, b, refl, g, k))
]

stream_setbuf-running :
    (s : PacketStream) (buf : Pointer) → (stream_setbuf s buf).1.running ≡ s.running
unfolding stream_setbuf
stream_setbuf-running s buf = ground arith

set_depth_format-running :
    (fmt : ℕ) (d : Device) → d.depth.running ≡ true → (set_depth_format fmt d).1 ≡ d
unfolding set_depth_format
set_depth_format-running fmt d on = rw on refl

set_video_format-running :
    (fmt : ℕ) (d : Device) → d.video.running ≡ true → (set_video_format fmt d).1 ≡ d
unfolding set_video_format
set_video_format-running fmt d on = rw on refl

set_depth_format-kept :
    (fmt : ℕ) (d : Device)
    → ((set_depth_format fmt d).1.depth.running ≡ d.depth.running)
      × ((set_depth_format fmt d).1.video ≡ d.video)
      × ((set_depth_format fmt d).1.video_format ≡ d.video_format)
unfolding set_depth_format
set_depth_format-kept fmt d = ground arith

set_video_format-kept :
    (fmt : ℕ) (d : Device)
    → ((set_video_format fmt d).1.video.running ≡ d.video.running)
      × ((set_video_format fmt d).1.depth ≡ d.depth)
      × ((set_video_format fmt d).1.depth_format ≡ d.depth_format)
unfolding set_video_format
set_video_format-kept fmt d = ground arith

pub true-false : true ≢ false
true-false e = ground arith

module _ {W : Type 0} where
  pub set_depth_format-IsGood :
      (fmt : ℕ) (y : Sys W) → IsGood y → IsGood (with_dev y (set_depth_format fmt y.dev).1)
  set_depth_format-IsGood fmt y g = elim (Bool-cases y.dev.depth.running) [
    | inl on ↦ rw (set_depth_format-running fmt y.dev on) g
    | inr off ↦
        (let k = set_depth_format-kept fmt y.dev in
          record {
            bytes = g.bytes;
            depth = λ on. absurd (true-false (sym on ∙ (k.0 ∙ off)));
            video = rw (k.1, k.2) g.video;
            format = rw (k.1, k.2) g.format;
          })
  ]

  pub set_video_format-IsGood :
      (fmt : ℕ) (y : Sys W) → IsGood y → IsGood (with_dev y (set_video_format fmt y.dev).1)
  set_video_format-IsGood fmt y g = elim (Bool-cases y.dev.video.running) [
    | inl on ↦ rw (set_video_format-running fmt y.dev on) g
    | inr off ↦
        (let k = set_video_format-kept fmt y.dev in
          record {
            bytes = g.bytes;
            depth = rw (k.1, k.2) g.depth;
            video = λ on. absurd (true-false (sym on ∙ (k.0 ∙ off)));
            format = λ on. absurd (true-false (sym on ∙ (k.0 ∙ off)));
          })
  ]

  pub set_depth_buffer-IsGood :
      (buf : Pointer) (y : Sys W)
      → FitsOrNull depth_11bit_size buf y.heap
      → IsGood y
      → IsGood (with_dev y (set_depth_buffer buf y.dev).1)
  unfolding set_depth_buffer
  set_depth_buffer-IsGood buf y f g = record {
    bytes = g.bytes;
    depth = λ on.
        let was = sym (stream_setbuf-running y.dev.depth buf) ∙ on in
        stream_setbuf-ready _ depth_11bit_size y.dev.depth y.heap buf was (depth_sizes-le _) f
          (g.depth was);
    video = g.video;
    format = g.format;
  }

  pub set_video_buffer-IsGood :
      (buf : Pointer) (y : Sys W)
      → FitsOrNull video_rgb_size buf y.heap
      → IsGood y
      → IsGood (with_dev y (set_video_buffer buf y.dev).1)
  unfolding set_video_buffer
  set_video_buffer-IsGood buf y f g = record {
    bytes = g.bytes;
    depth = g.depth;
    video = λ on.
        let was = sym (stream_setbuf-running y.dev.video buf) ∙ on in
        stream_setbuf-ready _ video_rgb_size y.dev.video y.heap buf was (video_sizes-le _) f
          (g.video was);
    format = λ on. g.format (sym (stream_setbuf-running y.dev.video buf) ∙ on);
  }
