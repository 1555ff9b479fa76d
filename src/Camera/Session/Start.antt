-- ===== src/Camera/Session/Start.antt =====
-- Both streams of a device started, as `freenect_start_depth` and `freenect_start_video` of
-- libfreenect/src/cameras.c set them up, and the session that follows.
use quartz_composer_open_kin.Camera.Session.{ClientEvent, handle_all}
use quartz_composer_open_kin.Camera.Session.Ready.{
  stream_init-StreamReady, StreamReady-running, stream_init-room, stays_clear,
}
use quartz_composer_open_kin.Camera.Session.Setters.{true-false}
use quartz_composer_open_kin.Camera.Session.Safe.{AllValid, AllValid-shape, handle_all-IsSafe}
use quartz_composer_open_kin.Camera.Process.Safety.{StreamReady-shape}
use quartz_composer_open_kin.Camera.Session.Good.{IsGood}
use quartz_composer_open_kin.Camera.Switch.{
  depth_sizes, video_sizes, depth_setup, video_setup, init_depth, init_video, put_depth, put_video,
}
use quartz_composer_open_kin.Camera.Switch.Laws.{init_depth-IsCamera, init_video-IsCamera}
use quartz_composer_open_kin.Device.{Sys, video_ir_10bit}
use quartz_composer_open_kin.Memory.Bytes.{HoldsBytes, SameShape, SameShape-trans}
use quartz_composer_open_kin.Prelude.{
  ◌+◌, ◌≤◌, ◌≡◌, ◌≢◌, true, false, some, List, arith, refl, ◌∙◌, sym,
}
use quartz_composer_open_kin.Stream.Buffers.Laws.{IsFresh, UserFits}

module _ {W : Type 0} where
  -- The streams as `freenect_start_depth` and `freenect_start_video` leave them.
  abbrev pub started_depth : Sys W → Sys W
  started_depth y = put_depth (record ((init_depth y).dev.depth) { running = true }) (init_depth y)

  abbrev pub started_video : Sys W → Sys W
  started_video y = put_video (record ((init_video y).dev.video) { running = true }) (init_video y)

  pub started_depth-IsGood :
      (y : Sys W)
      → (depth_sizes y.dev.depth_format).0 + (depth_sizes y.dev.depth_format).1 ≤ y.heap.room
      → UserFits y.dev.depth (depth_sizes y.dev.depth_format).1 y.heap
      → IsFresh y.heap
      → IsGood y
      → IsGood (started_depth y)
        × SameShape y.heap (started_depth y).heap
        × IsFresh (started_depth y).heap
  unfolding init_depth
  started_depth-IsGood y m u f g =
      let (r, k) =
        stream_init-StreamReady (depth_setup y.dev) _ _ y.heap (omega arith) g.bytes f u
          (init_depth-IsCamera y m u) in
      (
        record {
          bytes = k.sound.bytes;
          depth = λ on. StreamReady-running _ _ _ r;
          video = λ on. StreamReady-shape _ y.dev.video y.heap _ k.sound.shape (g.video on);
          format = g.format;
        },
        k.sound.shape,
        k.fresh,
      )

  pub started_video-IsGood :
      (y : Sys W)
      → (video_sizes y.dev.video_format).0 + (video_sizes y.dev.video_format).1 ≤ y.heap.room
      → UserFits y.dev.video (video_sizes y.dev.video_format).1 y.heap
      → IsFresh y.heap
      → y.dev.video_format ≢ video_ir_10bit
      → IsGood y
      → IsGood (started_video y)
        × SameShape y.heap (started_video y).heap
        × IsFresh (started_video y).heap
  unfolding init_video
  started_video-IsGood y m u f n g =
      let (r, k) =
        stream_init-StreamReady (video_setup y.dev) _ _ y.heap (omega arith) g.bytes f u
          (init_video-IsCamera y m u) in
      (
        record {
          bytes = k.sound.bytes;
          depth = λ on. StreamReady-shape _ y.dev.depth y.heap _ k.sound.shape (g.depth on);
          video = λ on. StreamReady-running _ _ _ r;
          format = λ on. n;
        },
        k.sound.shape,
        k.fresh,
      )

  started_depth-keeps :
      (y : Sys W)
      → ((started_depth y).dev.video ≡ y.dev.video)
        × ((started_depth y).dev.video_format ≡ y.dev.video_format)
        × (y.heap.room
            ≤ (started_depth y).heap.room
              + ((depth_sizes y.dev.depth_format).0 + (depth_sizes y.dev.depth_format).1))
  unfolding init_depth
  started_depth-keeps y = (refl, refl, stream_init-room (depth_setup y.dev) _ _ y.heap)

  -- From start to stop. A device whose streams are stopped, in any two formats but 10-bit infrared,
  -- with a heap of bytes that has room for the four frame buffers and the client's buffers, where it
  -- gave any, large enough: once both streams are set up and running, no sequence of packets of bytes
  -- and of calls of the setters, with buffers that are NULL or large enough, faults.
  pub started-IsSafe :
      (y : Sys W) (es : List ClientEvent)
      → HoldsBytes y.heap
      → IsFresh y.heap
      → y.dev.depth.running ≡ false
      → y.dev.video.running ≡ false
      → y.dev.video_format ≢ video_ir_10bit
      → (depth_sizes y.dev.depth_format).0
          + (depth_sizes y.dev.depth_format).1
          + ((video_sizes y.dev.video_format).0 + (video_sizes y.dev.video_format).1)
        ≤ y.heap.room
      → UserFits y.dev.depth (depth_sizes y.dev.depth_format).1 y.heap
      → UserFits y.dev.video (video_sizes y.dev.video_format).1 y.heap
      → AllValid y.heap es
      → (z : Sys W) × (handle_all es (started_video (started_depth y)) ≡ some z) × IsGood z
  started-IsSafe y es b f d v n m u w a =
      let g : IsGood y = record {
        bytes = b;
        depth = λ on. absurd (true-false (sym on ∙ d));
        video = λ on. absurd (true-false (sym on ∙ v));
        format = λ on. n;
      } in
      let (g₁, k, f₁) = started_depth-IsGood y (omega arith) u f g in
      let (same, fmt, left) = started_depth-keeps y in
      let (g₂, k₂, f₂) =
        started_video-IsGood (started_depth y) (rw fmt (omega (arith, left)))
          (rw (same, fmt) (stays_clear y.dev.video _ y.heap (started_depth y).heap k w)) f₁
          (rw fmt n) g₁ in
      let whole =
        SameShape-trans y.heap (started_depth y).heap (started_video (started_depth y)).heap k k₂ in
      let (z, r, g₃, k₃) =
        handle_all-IsSafe es (started_video (started_depth y))
          (AllValid-shape y.heap (started_video (started_depth y)).heap es whole a) g₂ in
      (z, r, g₃)
