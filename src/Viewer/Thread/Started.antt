-- ===== src/Viewer/Thread/Started.antt =====
-- The viewer of libfreenect/examples/glview.c from the start of its driver's thread: what
-- `freenect_threadfunc` sets up is what its session needs.
use quartz_composer_open_kin.Camera.Session.Good.{IsGood}
use quartz_composer_open_kin.Camera.Session.Setters.{true-false}
use quartz_composer_open_kin.Camera.Settings.{
  set_depth_callback, set_video_callback, set_video_format, set_depth_format, set_video_buffer,
  video_format_of,
}
use quartz_composer_open_kin.Camera.Switch.{
  depth_sizes, video_sizes, init_video, start_depth, start_video,
}
use quartz_composer_open_kin.Camera.Switch.Replies.{Replies}
use quartz_composer_open_kin.Camera.Switch.Starts.{iso_room, start_depth-IsGood, start_video-IsGood}
use quartz_composer_open_kin.Device.{
  VideoFormat, video_rgb, video_bayer, video_ir_8bit, video_ir_10bit, video_ir_10bit_packed,
  video_yuv_rgb, video_yuv_raw, depth_11bit, video_rgb_size, Libusb, Device, Sys,
}
use quartz_composer_open_kin.Prelude.{
  ℕ, suc, ◌+◌, ◌≡◌, ◌≢◌, ◌≤◌, true, false, none, some, List, arith, refl, ap, ◌∙◌, sym, inl, inr,
  length, >>=-some, ◌>>=◌, ◌==◌, Bool, not, ℤ, negsuc, if-true, if-false, Bool-cases,
}
use quartz_composer_open_kin.Stream.{PacketStream}
use quartz_composer_open_kin.Stream.Buffers.{
  stream_init, stream_setbuf, init_bufs, init_raw, init_sizes,
}
use quartz_composer_open_kin.Stream.Buffers.Laws.{IsFresh, UserFits}
use quartz_composer_open_kin.Tilt.{led_red, set_tilt_degs, set_led}
use quartz_composer_open_kin.Viewer.{Viewer, App, Action, act_all}
use quartz_composer_open_kin.Viewer.Buffers.{HasBuffers, HasBuffers-shape}
use quartz_composer_open_kin.Viewer.Safe.{ValidActions, act_all-IsShown}
use quartz_composer_open_kin.Viewer.Swapped.{buffers}
use mathlib.Core.List.{Perm}
use quartz_composer_open_kin.Viewer.Shown.{IsShown}
use quartz_composer_open_kin.Viewer.Thread.{format_code, set_up_device, start_streams}

video_format_of-format_code : (f : VideoFormat) → video_format_of (format_code f) ≡ some f
video_format_of-format_code video_rgb = refl
video_format_of-format_code video_bayer = refl
video_format_of-format_code video_ir_8bit = refl
video_format_of-format_code video_ir_10bit = refl
video_format_of-format_code video_ir_10bit_packed = refl
video_format_of-format_code video_yuv_rgb = refl
video_format_of-format_code video_yuv_raw = refl

-- A processed frame is never larger than a frame of RGB, but for 10-bit infrared.
frame-fits : (f : VideoFormat) → (video_sizes f).1 ≤ video_rgb_size
frame-fits video_rgb = omega arith
frame-fits video_bayer = omega arith
frame-fits video_ir_8bit = omega arith
frame-fits video_ir_10bit = omega arith
frame-fits video_ir_10bit_packed = omega arith
frame-fits video_yuv_rgb = omega arith
frame-fits video_yuv_raw = omega arith

-- The device as the viewer sets it up.
abbrev ready : Viewer → Device → Device
ready v d = record d {
  depth_cb = some 1;
  video_cb = some 2;
  video_format = v.current_format;
  depth_format = depth_11bit;
  video = record (d.video) { usr_buf = some v.rgb_back };
}

-- The setters while a stream is stopped.
set_video_format-stopped :
    (f : VideoFormat) (d : Device)
    → d.video.running ≡ false
    → (set_video_format (format_code f) d).1 ≡ record d { video_format = f }
unfolding set_video_format
set_video_format-stopped video_rgb d e = ap (λ (x : ℤ × Device). x.1) (if-false (negsuc 0, d) _ e)
set_video_format-stopped video_bayer d e = ap (λ (x : ℤ × Device). x.1) (if-false (negsuc 0, d) _ e)
set_video_format-stopped video_ir_8bit d e =
    ap (λ (x : ℤ × Device). x.1) (if-false (negsuc 0, d) _ e)
set_video_format-stopped video_ir_10bit d e =
    ap (λ (x : ℤ × Device). x.1) (if-false (negsuc 0, d) _ e)
set_video_format-stopped video_ir_10bit_packed d e =
    ap (λ (x : ℤ × Device). x.1) (if-false (negsuc 0, d) _ e)
set_video_format-stopped video_yuv_rgb d e =
    ap (λ (x : ℤ × Device). x.1) (if-false (negsuc 0, d) _ e)
set_video_format-stopped video_yuv_raw d e =
    ap (λ (x : ℤ × Device). x.1) (if-false (negsuc 0, d) _ e)

set_depth_format-stopped :
    (d : Device)
    → d.depth.running ≡ false
    → (set_depth_format 0 d).1 ≡ record d { depth_format = depth_11bit }
unfolding set_depth_format
set_depth_format-stopped d e = ap (λ (x : ℤ × Device). x.1) (if-false (negsuc 0, d) _ e)

stream_setbuf-stopped :
    (s : PacketStream) (p : ℕ)
    → s.running ≡ false
    → stream_setbuf s (some p) ≡ (true, record s { usr_buf = some p })
unfolding stream_setbuf
stream_setbuf-stopped s p e = if-true (true, record s { usr_buf = some p }) _ (ap not e)

set_video_buffer-stopped :
    (d : Device) (p : ℕ)
    → d.video.running ≡ false
    → (set_video_buffer (some p) d).1 ≡ record d { video = record (d.video) { usr_buf = some p } }
unfolding set_video_buffer
set_video_buffer-stopped d p e =
    ap (λ (x : Bool × PacketStream). record d { video = x.1 }) (stream_setbuf-stopped d.video p e)

set_up_device-ready :
    (v : Viewer) (d : Device)
    → d.depth.running ≡ false
    → d.video.running ≡ false
    → set_up_device v d ≡ ready v d
unfolding set_up_device set_depth_callback set_video_callback
set_up_device-ready v d e f =
    let d₂ : Device = record d { depth_cb = some 1; video_cb = some 2 } in
    let d₃ : Device = record d₂ { video_format = v.current_format } in
    let d₄ : Device = record d₃ { depth_format = depth_11bit } in
    ap (λ (x : Device). (set_video_buffer (some v.rgb_back) (set_depth_format 0 x).1).1)
      (set_video_format-stopped v.current_format d₂ f)
    ∙ ap (λ (x : Device). (set_video_buffer (some v.rgb_back) x).1) (set_depth_format-stopped d₃ e)
    ∙ set_video_buffer-stopped d₄ v.rgb_back f

init_video-proc_buf :
    {W : Type 0} (y : Sys W) (p : ℕ)
    → y.dev.video.usr_buf ≡ some p
    → (init_video y).dev.video.proc_buf ≡ some p
unfolding init_video stream_init init_bufs init_raw init_sizes
init_video-proc_buf y p e = elim (Bool-cases ((video_sizes y.dev.video_format).0 == 0)) [
  | inl z ↦ rw (e, z) refl
  | inr z ↦ rw (e, z) refl
]

-- What both streams take of the heap.
abbrev pub needed : Viewer → ℕ
needed v =
    (depth_sizes depth_11bit).0
    + (depth_sizes depth_11bit).1
    + iso_room
    + ((video_sizes v.current_format).0 + (video_sizes v.current_format).1 + iso_room)

module _ {W : Type 0} (usb : Libusb W) (flying : W → ℕ) (replies : Replies usb flying) (fuel : ℕ)
    (ibuf : List ℕ) where
  pub start_streams-IsShown :
      (v : Viewer) (y : Sys W)
      → IsGood y
      → IsFresh y.heap
      → y.dev.depth.running ≡ false
      → y.dev.video.running ≡ false
      → y.dev.depth.usr_buf ≡ none
      → HasBuffers v y.heap
      → v.current_format ≢ video_ir_10bit
      → needed v ≤ y.heap.room
      → (z : Sys W) × (start_streams usb (suc fuel) ibuf v y ≡ some z)
        × (z.dev.depth.running ≡ true)
        × IsShown (record { viewer = v; sys = z })
  unfolding start_streams set_tilt_degs set_led
  start_streams-IsShown v y g f no_depth no_video user b n l =
      let y₂ = (set_led usb led_red (set_tilt_degs usb v.freenect_angle 1 y).1).1 in
      let y' : Sys W = record y₂ { dev = ready v y.dev } in
      let g' : IsGood y' = record {
        bytes = g.bytes;
        depth = λ on. absurd (true-false (sym on ∙ no_depth));
        video = λ on. absurd (true-false (sym on ∙ no_video));
        format = λ on. n;
      } in
      let (y₃, e₃, k, on, same) =
        start_depth-IsGood usb flying replies fuel ibuf y' no_depth (omega arith) (inl user) f g' in
      let shown = HasBuffers-shape v y.heap y₃.heap k.shape b in
      let (p, buf, at_back, held, long) = shown.rgb_back in
      let back : y₃.dev.video.usr_buf ≡ some v.rgb_back =
        ap (λ (x : PacketStream). x.usr_buf) same in
      let fits : UserFits y₃.dev.video (video_sizes y₃.dev.video_format).1 y₃.heap =
        inr (p, buf, back ∙ at_back, held, omega (arith, long, frame-fits y₃.dev.video_format)) in
      let room : (video_sizes y₃.dev.video_format).0
            + (video_sizes y₃.dev.video_format).1
            + iso_room
          ≤ y₃.heap.room =
        rw k.video_format (omega (arith, k.room)) in
      let (z, e₄, m, runs, proc, depth_same) =
        start_video-IsGood usb flying replies fuel ibuf y₃
          (ap (λ (x : PacketStream). x.running) same ∙ no_video) room fits k.fresh
          (λ ten. n (sym k.video_format ∙ ten)) k.good in
      (
        z,
        ap
              (λ (d : Device). start_depth usb (suc fuel) ibuf (record y₂ { dev = d }) >>= λ r.
                (start_video usb (suc fuel) ibuf r.1 >>= λ q. some q.1))
              (set_up_device-ready v y.dev no_depth no_video)
            ∙ >>=-some _ e₃
            ∙ >>=-some _ e₄,
        ap (λ (x : PacketStream). x.running) depth_same ∙ on,
        record {
          good = m.good;
          on = runs;
          format = m.depth_format ∙ k.depth_format;
          back = proc ∙ init_video-proc_buf y₃ v.rgb_back back;
          buffers = HasBuffers-shape v y₃.heap z.heap m.shape shown;
        },
      )

  -- From the start of the driver's thread on. Take a device in a good state with both streams stopped and
  -- no depth buffer of a client, a fresh heap with room for the buffers of both streams and of their
  -- transfers, the five buffers of the viewer, any current format but 10-bit infrared, and a camera that
  -- replies to each command. Then what `freenect_threadfunc` does before its loop succeeds, and leaves
  -- both streams running. No sequence of packets of bytes, of drawing and of keys other than Escape that
  -- follows, up to the loop's next change of the format, faults or fails an assertion: the video stream
  -- goes on to fill `rgb_back`, and the five buffers are those of the start, in some order.
  pub start_streams-act_all :
      (t_gamma : List ℕ)
      → length t_gamma ≡ 2048
      → (xs : List Action) (v : Viewer) (y : Sys W) → ValidActions xs
      → IsGood y
      → IsFresh y.heap
      → y.dev.depth.running ≡ false
      → y.dev.video.running ≡ false
      → y.dev.depth.usr_buf ≡ none
      → HasBuffers v y.heap
      → v.current_format ≢ video_ir_10bit
      → needed v ≤ y.heap.room
      → (z : Sys W) × (b : App W) × (start_streams usb (suc fuel) ibuf v y ≡ some z)
        × (act_all t_gamma xs (record { viewer = v; sys = z }) ≡ some b)
        × (z.dev.depth.running ≡ true)
        × (z.dev.video.running ≡ true)
        × IsShown b
        × Perm (buffers b.viewer) (buffers v)
  start_streams-act_all t_gamma t xs v y valid g f no_depth no_video user b n l =
      let (z, e, on, i) = start_streams-IsShown v y g f no_depth no_video user b n l in
      let (c, r, k, p) = act_all-IsShown t_gamma t xs (record { viewer = v; sys = z }) valid i in
      (z, c, e, r, on, i.on, k, p)
