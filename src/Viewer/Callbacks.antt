-- ===== src/Viewer/Callbacks.antt =====
-- The callbacks of the viewer of libfreenect/examples/glview.c behind the packet that completes a
-- frame.
use quartz_composer_open_kin.Camera.Process.{deliver, depth_process, video_process}
use quartz_composer_open_kin.Camera.Process.Laws.{depth_process-Delivers, video_process-Delivers}
use quartz_composer_open_kin.Camera.Process.Safety.{handled}
use quartz_composer_open_kin.Camera.Session.Good.{IsGood}
use quartz_composer_open_kin.Camera.Switch.{depth_sizes}
use quartz_composer_open_kin.Convert.Packed.Value.{AllBelow}
use quartz_composer_open_kin.Device.{Device, Delivery, Sys}
use quartz_composer_open_kin.Memory.{Pointer}
use quartz_composer_open_kin.Memory.Bytes.{SameShape}
use quartz_composer_open_kin.Prelude.{
  ℕ, ◌≡◌, true, Option, none, some, List, [], length, refl, inl, inr, ◌∙◌, ap,
}
use quartz_composer_open_kin.Stream.{PacketStream}
use quartz_composer_open_kin.Viewer.{App, depth_cb, rgb_cb, call_back, undelivered}
use quartz_composer_open_kin.Viewer.Frames.{convert_depth-HoldsDepth}
use quartz_composer_open_kin.Viewer.Shown.{IsShown, IsShown-sys, Runs, depth_cb-Runs, rgb_cb-Runs}

module _ {W : Type 0} where
  call_back-none :
      (f : Pointer → App W → Option (App W)) (ds : List Delivery) (a : App W)
      → ds ≡ []
      → IsShown a
      → Runs (call_back f ds a)
  call_back-none f ds a e i = (a, rw e refl, i)

  -- One callback, or none where the client registered none.
  call_back-one :
      (f : Pointer → App W → Option (App W)) (ds : List Delivery) (a : App W) (cb : Option ℕ)
      (s : PacketStream)
      → ds ≡ deliver cb s []
      → IsShown a
      → Runs (f s.proc_buf a)
      → Runs (call_back f ds a)
  call_back-one f ds a none s e i r = call_back-none f ds a e i
  call_back-one f ds a (some c) s e i (b, r, k) = (b, rw (e, r) refl, k)

  module _ (t_gamma : List ℕ) (t : length t_gamma ≡ 2048) (pkt : List ℕ)
      (bytes : AllBelow 256 pkt) where
    pub depth_called :
        (a : App W) (y : Sys W)
        → IsShown a
        → IsGood y
        → SameShape a.sys.heap y.heap
        → a.sys.dev.depth.running ≡ true
        → depth_process pkt (undelivered a) ≡ some y
        → Runs (call_back (depth_cb t_gamma) y.delivered (record a { sys = y }))
    depth_called a y i g s on e = elim (depth_process-Delivers pkt (undelivered a) y e) [
      | inl (_, same) ↦
          call_back-none _ y.delivered (record a { sys = y }) (ap (λ (z : Sys W). z.delivered) same)
            (IsShown-sys a y i g s (ap (λ (z : Sys W). z.dev.video.running) same)
              (ap (λ (z : Sys W). z.dev.video.proc_buf) same)
              (ap (λ (z : Sys W). z.dev.depth_format) same))
      | inr (o, p, d, dl) ↦
          (let shown =
              IsShown-sys a y i g s (ap (λ (z : Device). z.video.running) d)
                (ap (λ (z : Device). z.video.proc_buf) d) (ap (λ (z : Device). z.depth_format) d) in
            elim dl [
              | inl (_, _, none_new) ↦
                  call_back-none _ y.delivered (record a { sys = y }) none_new shown
              | inr (_, c, one) ↦
                  (let k =
                      handled (depth_sizes a.sys.dev.depth_format) a.sys.dev.depth pkt a.sys.heap o
                        (i.good.depth on) bytes i.good.bytes p in
                    call_back-one _ y.delivered (record a { sys = y }) a.sys.dev.depth_cb o.1 one
                      shown
                      (depth_cb-Runs t_gamma o.1 (record a { sys = y }) t
                        (convert_depth-HoldsDepth o.1 o.2 y.heap (rw i.format at k.0) k.1
                          (rw i.format at c))
                        shown))
            ])
    ]

    pub video_called :
        (a : App W) (y : Sys W)
        → IsShown a
        → IsGood y
        → SameShape a.sys.heap y.heap
        → video_process pkt (undelivered a) ≡ some y
        → Runs (call_back (rgb_cb t_gamma) y.delivered (record a { sys = y }))
    video_called a y i g s e = elim (video_process-Delivers pkt (undelivered a) y e) [
      | inl (_, same) ↦
          call_back-none _ y.delivered (record a { sys = y }) (ap (λ (z : Sys W). z.delivered) same)
            (IsShown-sys a y i g s (ap (λ (z : Sys W). z.dev.video.running) same)
              (ap (λ (z : Sys W). z.dev.video.proc_buf) same)
              (ap (λ (z : Sys W). z.dev.depth_format) same))
      | inr (o, p, d, dl) ↦
          (let k =
              handled _ a.sys.dev.video pkt a.sys.heap o (i.good.video i.on) bytes i.good.bytes p in
            let shown =
              IsShown-sys a y i g s (ap (λ (z : Device). z.video.running) d ∙ k.2.running)
                (ap (λ (z : Device). z.video.proc_buf) d ∙ k.2.proc_buf)
                (ap (λ (z : Device). z.depth_format) d) in
            elim dl [
              | inl (_, _, none_new) ↦
                  call_back-none _ y.delivered (record a { sys = y }) none_new shown
              | inr (_, c, one) ↦
                  call_back-one _ y.delivered (record a { sys = y }) a.sys.dev.video_cb o.1 one
                    shown (rgb_cb-Runs t_gamma o.1.proc_buf _ (k.2.proc_buf ∙ i.back) shown)
            ])
    ]
