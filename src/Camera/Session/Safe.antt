-- ===== src/Camera/Session/Safe.antt =====
-- A session that begins in a good state never faults: the setters of
-- libfreenect/src/cameras.c keep the invariant as the packets do.
use quartz_composer_open_kin.Camera.Process.Safety.{FitsOrNull, FitsOrNull-shape}
use quartz_composer_open_kin.Camera.Session.{
  ClientEvent, depth_packet, video_packet, depth_callback, video_callback, depth_format,
  video_format, depth_buffer, video_buffer, with_dev, handle, handle_all,
}
use quartz_composer_open_kin.Camera.Session.Good.{
  IsGood, Goes, stays, depth_process-IsGood, video_process-IsGood,
}
use quartz_composer_open_kin.Camera.Session.Setters.{
  set_depth_format-IsGood, set_video_format-IsGood, set_depth_buffer-IsGood,
  set_video_buffer-IsGood,
}
use quartz_composer_open_kin.Camera.Settings.{set_depth_callback, set_video_callback}
use quartz_composer_open_kin.Convert.Packed.Value.{AllBelow}
use quartz_composer_open_kin.Device.{Device, Sys, depth_11bit_size, video_rgb_size}
use quartz_composer_open_kin.Memory.{Heap}
use quartz_composer_open_kin.Memory.Bytes.{SameShape, SameShape-refl, SameShape-trans}
use quartz_composer_open_kin.Prelude.{◌≡◌, some, List, [], ◌∷◌, refl}

-- Packets are bytes, and a buffer of the client's is NULL or holds the largest frame of its stream.
abbrev pub IsValid : Heap → ClientEvent → Type 0
IsValid h (depth_packet pkt) = AllBelow 256 pkt
IsValid h (video_packet pkt) = AllBelow 256 pkt
IsValid h (depth_callback cb) = Unit {0}
IsValid h (video_callback cb) = Unit {0}
IsValid h (depth_format fmt) = Unit {0}
IsValid h (video_format fmt) = Unit {0}
IsValid h (depth_buffer buf) = FitsOrNull depth_11bit_size buf h
IsValid h (video_buffer buf) = FitsOrNull video_rgb_size buf h

abbrev pub AllValid : Heap → List ClientEvent → Type 0
AllValid h [] = Unit {0}
AllValid h (e ∷ es) = IsValid h e × AllValid h es

IsValid-shape : (h h' : Heap) (e : ClientEvent) → SameShape h h' → IsValid h e → IsValid h' e
IsValid-shape h h' (depth_packet pkt) s v = v
IsValid-shape h h' (video_packet pkt) s v = v
IsValid-shape h h' (depth_callback cb) s v = tt
IsValid-shape h h' (video_callback cb) s v = tt
IsValid-shape h h' (depth_format fmt) s v = tt
IsValid-shape h h' (video_format fmt) s v = tt
IsValid-shape h h' (depth_buffer buf) s v = FitsOrNull-shape depth_11bit_size buf h h' s v
IsValid-shape h h' (video_buffer buf) s v = FitsOrNull-shape video_rgb_size buf h h' s v

pub AllValid-shape :
    (h h' : Heap) (es : List ClientEvent) → SameShape h h' → AllValid h es → AllValid h' es
AllValid-shape h h' [] s v = tt
AllValid-shape h h' (e ∷ es) s (v, vs) = (IsValid-shape h h' e s v, AllValid-shape h h' es s vs)

module _ {W : Type 0} where
  -- A setter changes no memory.
  set_dev : (y : Sys W) (d : Device) → IsGood (with_dev y d) → Goes y (some (with_dev y d))
  set_dev y d g = (with_dev y d, refl, g, SameShape-refl y.heap)

  handle-Goes : (e : ClientEvent) (y : Sys W) → IsValid y.heap e → IsGood y → Goes y (handle e y)
  unfolding handle set_depth_callback set_video_callback
  handle-Goes (depth_packet pkt) y v g = depth_process-IsGood pkt y v g
  handle-Goes (video_packet pkt) y v g = video_process-IsGood pkt y v g
  handle-Goes (depth_callback cb) y v g =
      set_dev y (record (y.dev) { depth_cb = cb })
        (record { bytes = g.bytes; depth = g.depth; video = g.video; format = g.format })
  handle-Goes (video_callback cb) y v g =
      set_dev y (record (y.dev) { video_cb = cb })
        (record { bytes = g.bytes; depth = g.depth; video = g.video; format = g.format })
  handle-Goes (depth_format fmt) y v g = set_dev y _ (set_depth_format-IsGood fmt y g)
  handle-Goes (video_format fmt) y v g = set_dev y _ (set_video_format-IsGood fmt y g)
  handle-Goes (depth_buffer buf) y v g = set_dev y _ (set_depth_buffer-IsGood buf y v g)
  handle-Goes (video_buffer buf) y v g = set_dev y _ (set_video_buffer-IsGood buf y v g)

  -- A session is safe. From a good state (the heap holds bytes, and a stream that runs is as
  -- `stream_init` sets a camera's up, in a format other than 10-bit infrared), any sequence of depth
  -- and video packets of bytes and of calls of the setters is handled without a fault, where the
  -- buffers that the client gives are NULL or hold the largest frame of their stream; the state that
  -- is left is good, and every block is still allocated with its length.
  pub handle_all-IsSafe :
      (es : List ClientEvent) (y : Sys W)
      → AllValid y.heap es
      → IsGood y
      → (z : Sys W) × (handle_all es y ≡ some z) × IsGood z × SameShape y.heap z.heap
  unfolding handle_all
  handle_all-IsSafe [] y v g = stays y g
  handle_all-IsSafe (e ∷ es) y (v, vs) g =
      let (z, r, k, s) = handle-Goes e y v g in
      let rest = handle_all-IsSafe es z (AllValid-shape y.heap z.heap es s vs) k in
      (rest.0, rw r rest.1, rest.2, SameShape-trans y.heap z.heap rest.0.heap s rest.3)
