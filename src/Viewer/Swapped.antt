-- ===== src/Viewer/Swapped.antt =====
-- The five buffers of the viewer of libfreenect/examples/glview.c, whatever is swapped with what.
use mathlib.Core.List.{Perm}
use mathlib.Core.List.Perm
use quartz_composer_open_kin.Camera.Process.{depth_process, video_process}
use quartz_composer_open_kin.Device.{Delivery, frame_pix}
use quartz_composer_open_kin.Memory.{Pointer, contents, memcpy}
use quartz_composer_open_kin.Memory.Kept.{some-is, none-is}
use quartz_composer_open_kin.Prelude.{
  ℕ, ◌≡◌, ◌⊎◌, refl, Option, none, some, List, [], ◌∷◌, >>=-eq_some, inl, inr, Bool-cases, ==_iff,
  ◌==◌, ap,
}
use quartz_composer_open_kin.Viewer.{
  Viewer, App, Action, depth_packet, video_packet, draw, key, swap_rgb, swap_depth, undelivered,
  act, act_all, escape, close_window, must_wait, is_pending, waits, skips, draws, draw_scene,
  call_back, depth_cb, rgb_cb, read_words, depth_colours, key_pressed,
}

pub draw_scene-cases :
    (v : Viewer)
    → (draw_scene v ≡ waits)
      ⊎ ((draw_scene v ≡ skips) ⊎ (draw_scene v ≡ draws (swap_rgb (swap_depth v))))
unfolding draw_scene
draw_scene-cases v = elim (Bool-cases (must_wait v)) [
  | inl e ↦ inl (rw e refl)
  | inr e ↦ elim (Bool-cases (is_pending v)) [
    | inl f ↦ inr (inl (rw (e, f) refl))
    | inr f ↦ inr (inr (rw (e, f) refl))
  ]
]

abbrev pub buffers : Viewer → List ℕ
buffers v = v.depth_mid ∷ v.depth_front ∷ v.rgb_back ∷ v.rgb_mid ∷ v.rgb_front ∷ []

-- The same buffers, in other places.
abbrev pub Swapped : Viewer → Viewer → Type 0
Swapped v w = Perm (buffers w) (buffers v)

swap_depth-Swapped : (v : Viewer) → Swapped v (swap_depth v)
swap_depth-Swapped v = elim (Bool-cases (v.got_depth == 0)) [
  | inl e ↦ rw e (Perm.refl (buffers v))
  | inr e ↦ rw e (Perm.swap v.depth_mid v.depth_front _)
]

swap_rgb-Swapped : (v : Viewer) → Swapped v (swap_rgb v)
swap_rgb-Swapped v = elim (Bool-cases (v.got_rgb == 0)) [
  | inl e ↦ rw e (Perm.refl (buffers v))
  | inr e ↦ rw e (
      Perm.append_left (v.depth_mid ∷ v.depth_front ∷ v.rgb_back ∷ [])
        (Perm.swap v.rgb_mid v.rgb_front []))
]

module _ {W : Type 0} (t_gamma : List ℕ) where
  depth_cb-Swapped :
      (buf : Pointer) (a b : App W) → depth_cb t_gamma buf a ≡ some b → Swapped a.viewer b.viewer
  unfolding depth_cb
  depth_cb-Swapped buf a b e =
      let (raw, _, f) = >>=-eq_some (contents buf a.sys.heap) _ e in
      let (depth, _, g) = >>=-eq_some (read_words frame_pix raw) _ f in
      let (bytes, _, k) = >>=-eq_some (depth_colours t_gamma depth) _ g in
      let (h, _, l) = >>=-eq_some (memcpy (some a.viewer.depth_mid) 0 bytes a.sys.heap) _ k in
      rw (← ap (λ (c : App W). buffers c.viewer) (some-is l)) (Perm.refl (buffers a.viewer))

  rgb_cb-Swapped :
      (buf : Pointer) (a b : App W) → rgb_cb t_gamma buf a ≡ some b → Swapped a.viewer b.viewer
  unfolding rgb_cb
  rgb_cb-Swapped none a b e = absurd (none-is e)
  rgb_cb-Swapped (some rgb) a b e = elim (Bool-cases (a.viewer.rgb_back == rgb)) [
    | inl s ↦
        (let same = (==_iff a.viewer.rgb_back rgb).0 s in
          rw (← ap (λ (c : App W). buffers c.viewer) (some-is (rw s at e)), same)
            (Perm.append_left (a.viewer.depth_mid ∷ a.viewer.depth_front ∷ [])
              (Perm.swap rgb a.viewer.rgb_mid (a.viewer.rgb_front ∷ []))))
    | inr s ↦ absurd (none-is (rw s at e))
  ]

  -- The callbacks one after the other.
  call_back-Swapped :
      (f : Pointer → App W → Option (App W)) (ds : List Delivery) (a b : App W)
      → ((buf : Pointer) (a b : App W) → f buf a ≡ some b → Swapped a.viewer b.viewer)
      → call_back f ds a ≡ some b
      → Swapped a.viewer b.viewer
  call_back-Swapped f [] a b k e =
      rw (← ap (λ (c : App W). buffers c.viewer) (some-is e)) (Perm.refl (buffers a.viewer))
  call_back-Swapped f (d ∷ ds) a b k e =
      let (c, g, l) = >>=-eq_some (f d.buf a) _ e in
      Perm.trans (call_back-Swapped f ds c b k l) (k d.buf a c g)

  act-Swapped : (x : Action) (a b : App W) → act t_gamma x a ≡ some b → Swapped a.viewer b.viewer
  unfolding act key_pressed
  act-Swapped (depth_packet pkt) a b e =
      let (y, _, f) = >>=-eq_some (depth_process pkt (undelivered a)) _ e in
      call_back-Swapped (depth_cb t_gamma) y.delivered (record a { sys = y }) b depth_cb-Swapped f
  act-Swapped (video_packet pkt) a b e =
      let (y, _, f) = >>=-eq_some (video_process pkt (undelivered a)) _ e in
      call_back-Swapped (rgb_cb t_gamma) y.delivered (record a { sys = y }) b rgb_cb-Swapped f
  act-Swapped draw a b e = elim (draw_scene-cases a.viewer) [
    | inl s ↦
        rw (← ap (λ (c : App W). buffers c.viewer) (some-is (rw (act, s) at e)))
          (Perm.refl (buffers a.viewer))
    | inr (inl s) ↦
        rw (← ap (λ (c : App W). buffers c.viewer) (some-is (rw (act, s) at e)))
          (Perm.refl (buffers a.viewer))
    | inr (inr s) ↦
        rw (← ap (λ (c : App W). buffers c.viewer) (some-is (rw (act, s) at e)))
          (Perm.trans (swap_rgb-Swapped (swap_depth a.viewer)) (swap_depth-Swapped a.viewer))
  ]
  act-Swapped (key k) a b e = elim (Bool-cases (k == escape)) [
    | inl s ↦
        (let (h, _, f) = >>=-eq_some (close_window a.viewer a.sys.heap) _ (rw (act, s) at e) in
          rw (← ap (λ (c : App W). buffers c.viewer) (some-is f)) (Perm.refl (buffers a.viewer)))
    | inr s ↦
        rw (← ap (λ (c : App W). buffers c.viewer) (some-is (rw (act, s) at e)))
          (Perm.refl (buffers a.viewer))
  ]

  pub act_all-Swapped :
      (xs : List Action) (a b : App W) → act_all t_gamma xs a ≡ some b → Swapped a.viewer b.viewer
  unfolding act_all
  act_all-Swapped [] a b e =
      rw (← ap (λ (c : App W). buffers c.viewer) (some-is e)) (Perm.refl (buffers a.viewer))
  act_all-Swapped (x ∷ xs) a b e =
      let (c, f, g) = >>=-eq_some (act t_gamma x a) _ e in
      Perm.trans (act_all-Swapped xs c b g) (act-Swapped x a c f)
