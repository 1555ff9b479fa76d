-- ===== src/Viewer/Safe.antt =====
-- The viewer of libfreenect/examples/glview.c between two changes of the video format: its buffers, its
-- assertion, and faults.
use mathlib.Core.List.{Perm}
use quartz_composer_open_kin.Viewer.Swapped.{buffers, act_all-Swapped, draw_scene-cases}
use quartz_composer_open_kin.Viewer.Callbacks.{depth_called, video_called}
use quartz_composer_open_kin.Viewer.Shown.{IsShown, IsShown-sys, IsShown-viewer, Runs}
use quartz_composer_open_kin.Viewer.Buffers.{
  swap_depth-HasBuffers, swap_rgb-HasBuffers, HasBuffers-same,
}
use quartz_composer_open_kin.Camera.Process.{depth_process}
use quartz_composer_open_kin.Camera.Session.Good.{
  IsGood, depth_process-IsGood, video_process-IsGood,
}
use quartz_composer_open_kin.Convert.Packed.Value.{AllBelow}
use quartz_composer_open_kin.Device.{Sys}
use quartz_composer_open_kin.Memory.Bytes.{SameShape-refl}
use quartz_composer_open_kin.Prelude.{
  ℕ, ◌≡◌, ◌≢◌, ◌⊎◌, true, if-false, ==_iff, false, some, List, [], ◌∷◌, arith, length, refl, inl,
  inr, Bool-cases, ◌==◌,
}
use quartz_composer_open_kin.Viewer.{
  Viewer, App, Action, depth_packet, video_packet, draw, key, swap_rgb, swap_depth, key_pressed,
  undelivered, act, act_all, escape,
}

abbrev pub ValidAction : Action → Type 0
ValidAction (depth_packet pkt) = AllBelow 256 pkt
ValidAction (video_packet pkt) = AllBelow 256 pkt
ValidAction draw = Unit {0}
ValidAction (key k) = k ≢ escape

abbrev pub ValidActions : List Action → Type 0
ValidActions [] = Unit {0}
ValidActions (x ∷ xs) = ValidAction x × ValidActions xs

swap-back : (v : Viewer) → (swap_rgb (swap_depth v)).rgb_back ≡ v.rgb_back
swap-back v = elim (Bool-cases (v.got_depth == 0)) [
  | inl e ↦ rw e (swap_rgb-back v)
  | inr e ↦ rw e (swap_rgb-back _)
]
  where
    swap_rgb-back : (w : Viewer) → (swap_rgb w).rgb_back ≡ w.rgb_back
    swap_rgb-back w = ground arith

depth_process-off :
    {W : Type 0} (pkt : List ℕ) (y : Sys W)
    → y.dev.depth.running ≡ false
    → depth_process pkt y ≡ some y
unfolding depth_process
depth_process-off pkt y e = rw e (ground arith)

undelivered-IsGood : {W : Type 0} (a : App W) → IsGood a.sys → IsGood (undelivered a)
undelivered-IsGood a g = record {
  bytes = g.bytes;
  depth = g.depth;
  video = g.video;
  format = g.format;
}

module _ {W : Type 0} (t_gamma : List ℕ) (t : length t_gamma ≡ 2048) where
  act_depth :
      (pkt : List ℕ) (a : App W)
      → AllBelow 256 pkt
      → IsShown a
      → Runs (act t_gamma (depth_packet pkt) a)
  unfolding act
  act_depth pkt a b i =
      let u = undelivered a in
      let g = undelivered-IsGood a i.good in
      elim (Bool-cases a.sys.dev.depth.running) [
        | inl on ↦
            (let (y, e, k, s) = depth_process-IsGood pkt u b g in
              rw e (depth_called t_gamma t pkt b a y i k s on e))
        | inr off ↦ rw (depth_process-off pkt u off) (
          record a { sys = u },
          refl,
          IsShown-sys a u i g (SameShape-refl a.sys.heap) refl refl refl,
        )
      ]

  act_video :
      (pkt : List ℕ) (a : App W)
      → AllBelow 256 pkt
      → IsShown a
      → Runs (act t_gamma (video_packet pkt) a)
  unfolding act
  act_video pkt a b i =
      let (y, e, g, s) = video_process-IsGood pkt (undelivered a) b (undelivered-IsGood a i.good) in
      rw (act, e) (video_called t_gamma t pkt b a y i g s e)

  act_draw : (a : App W) → IsShown a → Runs (act t_gamma draw a)
  unfolding act
  act_draw a i = elim (draw_scene-cases a.viewer) [
    | inl e ↦ rw (act, e) (a, refl, i)
    | inr (inl e) ↦ rw (act, e) (a, refl, i)
    | inr (inr e) ↦
        (let v = swap_rgb (swap_depth a.viewer) in
          rw (act, e)
            (
              record a { viewer = v },
              refl,
              IsShown-viewer a v i
                  (swap_rgb-HasBuffers _ a.sys.heap
                    (swap_depth-HasBuffers a.viewer a.sys.heap i.buffers))
                  (swap-back a.viewer),
            ))
  ]

  act_key : (k : ℕ) (a : App W) → k ≢ escape → IsShown a → Runs (act t_gamma (key k) a)
  unfolding act key_pressed
  act_key k a n i = (
    record a { viewer = (key_pressed k a.viewer).0 },
    if-false _ _ (other (Bool-cases (k == escape))),
    IsShown-viewer a _ i (HasBuffers-same a.viewer _ a.sys.heap i.buffers refl refl refl refl refl)
        refl,
  )
    where
      other : ((k == escape) ≡ true) ⊎ ((k == escape) ≡ false) → (k == escape) ≡ false
      other (inl e) = absurd (n ((==_iff k escape).0 e))
      other (inr e) = e

  act-Runs : (x : Action) (a : App W) → ValidAction x → IsShown a → Runs (act t_gamma x a)
  act-Runs (depth_packet pkt) a v i = act_depth pkt a v i
  act-Runs (video_packet pkt) a v i = act_video pkt a v i
  act-Runs draw a v i = act_draw a i
  act-Runs (key k) a v i = act_key k a v i

  act_all-Runs :
      (xs : List Action) (a : App W) → ValidActions xs → IsShown a → Runs (act_all t_gamma xs a)
  unfolding act_all
  act_all-Runs [] a v i = (a, refl, i)
  act_all-Runs (x ∷ xs) a (v, vs) i =
      let (b, e, k) = act-Runs x a v i in
      let (c, f, l) = act_all-Runs xs b vs k in (c, rw (e, f) refl, l)

  -- The viewer. Let its video stream run into `rgb_back`, in a good state of the driver, with 11-bit
  -- depth, a gamma table of 2048 words and five buffers that hold an RGB frame, the three for video
  -- apart from one another. Then no sequence of depth and video packets of bytes, of drawing and of
  -- keys other than Escape faults or fails the assertion of `rgb_cb`. All this holds afterwards as well,
  -- and the five buffers are those of the start, each once, in some order.
  pub act_all-IsShown :
      (xs : List Action) (a : App W)
      → ValidActions xs
      → IsShown a
      → (b : App W) × (act_all t_gamma xs a ≡ some b)
        × IsShown b
        × Perm (buffers b.viewer) (buffers a.viewer)
  act_all-IsShown xs a v i =
      let (b, e, k) = act_all-Runs xs a v i in (b, e, k, act_all-Swapped t_gamma xs a b e)
