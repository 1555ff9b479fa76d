-- ===== src/Camera/Session/Good.antt =====
-- The invariant of a session: the heap holds bytes, and a stream that runs is ready for packets.
use quartz_composer_open_kin.Camera.Process.{
  convert_depth, convert_video, deliver, depth_process, video_process,
}
use quartz_composer_open_kin.Camera.Process.Laws.{after_packet}
use quartz_composer_open_kin.Camera.Process.Safety.{
  StreamReady, StreamReady-shape, stream_process-IsHandled, convert_depth-Safely,
  convert_video-Safely, Safely,
}
use quartz_composer_open_kin.Camera.Switch.{depth_sizes, video_sizes, put_depth, put_video}
use quartz_composer_open_kin.Convert.Packed.Value.{AllBelow}
use quartz_composer_open_kin.Device.{video_ir_10bit, Delivery, Sys}
use quartz_composer_open_kin.Memory.{Heap}
use quartz_composer_open_kin.Memory.Bytes.{
  HoldsBytes, SameShape, SameShape-refl, SameShape-trans, Sound,
}
use quartz_composer_open_kin.Prelude.{
  ℕ, ◌≡◌, ◌≢◌, true, Option, some, List, arith, length, refl, inl, inr, Bool-cases, ◌==◌, not, ◌||◌,
}
use quartz_composer_open_kin.Stream.{PacketStream}

module _ {W : Type 0} where
  -- The 10-bit infrared format, whose buffer is too small for its frames, is not running.
  pub record IsGood (y : Sys W) : Type 0 where
    pub bytes : HoldsBytes y.heap
    pub depth :
        y.dev.depth.running ≡ true → StreamReady (depth_sizes y.dev.depth_format) y.dev.depth y.heap
    pub video :
        y.dev.video.running ≡ true → StreamReady (video_sizes y.dev.video_format) y.dev.video y.heap
    pub format : y.dev.video.running ≡ true → y.dev.video_format ≢ video_ir_10bit

  -- A step that does not fault and that keeps the invariant and every block.
  abbrev pub Goes : Sys W → Option (Sys W) → Type 0
  Goes y r = (z : Sys W) × (r ≡ some z) × IsGood z × SameShape y.heap z.heap

  pub stays : (y : Sys W) → IsGood y → Goes y (some y)
  stays y g = (y, refl, g, SameShape-refl y.heap)

  after_packet-Goes :
      (convert : PacketStream → Heap → Option Heap) (cb : Option ℕ)
      (put : PacketStream → Sys W → Sys W) (y : Sys W) (got : ℕ) (s : PacketStream) (h : Heap)
      → Sound y.heap h
      → Safely h (convert s h)
      → ((h' : Heap) (ds : List Delivery)
          → Sound y.heap h'
          → SameShape h h'
          → IsGood (record (put s y) { heap = h'; delivered = ds }))
      → (put s y).delivered ≡ y.delivered
      → Goes y (after_packet convert cb put y (got, s, h))
  after_packet-Goes convert cb put y got s h k (h', e, c) good same = elim (Bool-cases (got == 0)) [
    | inl z ↦ rw z (record (put s y) { heap = h }, refl, good h _ k (SameShape-refl h), k.shape)
    | inr n ↦
        (let both : Sound y.heap h' = record {
          bytes = c.bytes;
          shape = SameShape-trans y.heap h h' k.shape c.shape;
        } in
          rw (n, e)
            (
              record (put s y) { heap = h'; delivered = deliver cb s y.delivered },
              refl,
              good h' _ both c.shape,
              both.shape,
            ))
  ]

  -- A depth packet. From a good state, any packet of bytes is handled without a fault, and leaves a
  -- good state with every block still allocated with its length.
  pub depth_process-IsGood :
      (pkt : List ℕ) (y : Sys W) → AllBelow 256 pkt → IsGood y → Goes y (depth_process pkt y)
  unfolding depth_process
  depth_process-IsGood pkt y a g = elim (Bool-cases (length pkt == 0 || not y.dev.depth.running)) [
    | inl e ↦ rw e (stays y g)
    | inr e ↦
        (let on : y.dev.depth.running ≡ true = ground arith in
          let r = stream_process-IsHandled _ y.dev.depth pkt y.heap (g.depth on) a g.bytes in
          rw (e, r.returns)
            (after_packet-Goes (convert_depth y.dev.depth_format) y.dev.depth_cb put_depth y r.got
              r.stream r.heap r.sound
              (convert_depth-Safely r.stream r.heap r.sound.bytes y.dev.depth_format r.ready)
              (λ h' ds k m. record {
                bytes = k.bytes;
                depth = λ o. StreamReady-shape _ r.stream r.heap h' m r.ready;
                video = λ o. StreamReady-shape _ y.dev.video y.heap h' k.shape (g.video o);
                format = g.format;
              })
              refl))
  ]

  -- A video packet, in the same way.
  pub video_process-IsGood :
      (pkt : List ℕ) (y : Sys W) → AllBelow 256 pkt → IsGood y → Goes y (video_process pkt y)
  unfolding video_process
  video_process-IsGood pkt y a g = elim (Bool-cases (length pkt == 0 || not y.dev.video.running)) [
    | inl e ↦ rw e (stays y g)
    | inr e ↦
        (let on : y.dev.video.running ≡ true = ground arith in
          let r = stream_process-IsHandled _ y.dev.video pkt y.heap (g.video on) a g.bytes in
          rw (e, r.returns)
            (after_packet-Goes (convert_video y.dev.video_format) y.dev.video_cb put_video y r.got
              r.stream r.heap r.sound
              (convert_video-Safely r.stream r.heap r.sound.bytes y.dev.video_format (g.format on)
                r.ready)
              (λ h' ds k m. record {
                bytes = k.bytes;
                depth = λ o. StreamReady-shape _ y.dev.depth y.heap h' k.shape (g.depth o);
                video = λ o. StreamReady-shape _ r.stream r.heap h' m r.ready;
                format = λ o. g.format on;
              })
              refl))
  ]
