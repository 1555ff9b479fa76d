-- ===== src/Plugin/Life/Steps.antt =====
-- The steps of the plug-in's two threads, and the invariant along them.
use quartz_composer_open_kin.Core.{Core}
use quartz_composer_open_kin.Device.{Libusb}
use quartz_composer_open_kin.Camera.Session.Setters.{true-false}
use quartz_composer_open_kin.Memory.Kept.{some-is, none-is}
use quartz_composer_open_kin.Plugin.Life.{
  DevicePointer, null, fake_dev, device, Stage, no_thread, starting, looping, shutting, stopped,
  closed, finished, Life, on_device, run_loop, run_events, read_accel, step_at, thread_step,
  close_f_dev, is_finished, join,
}
use quartz_composer_open_kin.Plugin.Life.Inv.{
  IsOpen, IsClosed, IsDangling, Inv, InvAt, Called-IsOpen, on_device-Called, close_f_dev-IsDangling,
}
use quartz_composer_open_kin.Prelude.{
  ℕ, zero, suc, ◌≡◌, true, none, some, List, refl, ◌∙◌, sym, ◌>>=◌, >>=-eq_some, leb, is_neg,
  if-true, if-false, inl, inr, Bool-cases,
}

module _ {W : Type 0} where
  -- A state at a stage where the device is open.
  abbrev OpenAt : Stage → Life W → Type 0
  OpenAt g t = (t.freenect_thread ≡ g) × IsOpen t.f_dev t.use_fakenect t.core

  pub IsDangling-first : (d : DevicePointer) (c : Core W) → IsDangling d c → c.ctx.first ≡ none
  IsDangling-first null c i = absurd i
  IsDangling-first fake_dev c i = i
  IsDangling-first (device p) c i = i.1

module _ {W : Type 0} (usb : Libusb W) (fuel : ℕ) (ibuf : List ℕ) where
  read_accel-Open :
      (buf : List ℕ) (s t : Life W)
      → OpenAt looping s
      → read_accel usb fuel ibuf buf s ≡ some t
      → OpenAt looping t
  unfolding read_accel
  read_accel-Open buf s t (g, o) e = elim (Bool-cases (leb 2000 s.accel_count)) [
    | inr f ↦ rw (← some-is (rw f at e)) (g, o)
    | inl f ↦
        (let (r, a, k) = >>=-eq_some (on_device _ s) _ (rw f at e) in
          let (u, h, _, _) = Called-IsOpen s r.1 (on_device-Called _ s r.0 r.1 o a) in
          rw (← some-is k) (h ∙ g, u))
  ]

  run_events-Inv :
      (buf : List ℕ) (s t : Life W)
      → OpenAt looping s
      → run_events usb fuel ibuf buf s ≡ some t
      → Inv t
  unfolding run_events
  run_events-Inv buf s t (g, o) e =
      let (r, a, k) = >>=-eq_some (on_device _ s) _ e in
      let (u, h, _, _) = Called-IsOpen s r.1 (on_device-Called _ s r.0 r.1 o a) in
      elim (Bool-cases (is_neg r.0)) [
        | inl n ↦ rw (← some-is (rw n at k)) u
        | inr n ↦ (let (l, v) = read_accel-Open buf r.1 t (h ∙ g, u) (rw n at k) in rw l v)
      ]

  run_loop-Inv :
      (buf : List ℕ) (s t : Life W)
      → OpenAt looping s
      → run_loop usb fuel ibuf buf s ≡ some t
      → Inv t
  unfolding run_loop
  run_loop-Inv buf s t (g, o) e = elim (Bool-cases s.die) [
    | inl d ↦ rw (← some-is (sym (if-true _ (run_events usb fuel ibuf buf s) d) ∙ e)) o
    | inr d ↦
        run_events-Inv buf s t (g, o)
          (sym (if-false (some (record s { freenect_thread = shutting })) _ d) ∙ e)
  ]

  pub step_at-Inv :
      (g : Stage) (rgb_back : ℕ) (buf : List ℕ) (s t : Life W)
      → s.freenect_thread ≡ g
      → InvAt g s.f_dev s.use_fakenect s.core
      → step_at usb fuel ibuf g rgb_back buf s ≡ some t
      → Inv t
  unfolding step_at
  step_at-Inv no_thread rgb_back buf s t g i e = absurd (none-is e)
  step_at-Inv starting rgb_back buf s t g i e =
      let (r, a, k) = >>=-eq_some (on_device _ s) _ e in
      rw (← some-is k) (Called-IsOpen s r.1 (on_device-Called _ s r.0 r.1 i a)).0
  step_at-Inv looping rgb_back buf s t g i e = run_loop-Inv buf s t (g, i) e
  step_at-Inv shutting rgb_back buf s t g i e =
      let (r, a, k) = >>=-eq_some (on_device _ s) _ e in
      rw (← some-is k) (Called-IsOpen s r.1 (on_device-Called _ s r.0 r.1 i a)).0
  step_at-Inv stopped rgb_back buf s t g i e =
      let (u, a, k) = >>=-eq_some (close_f_dev usb fuel ibuf s.f_dev s) _ e in
      let (c, same, d) = close_f_dev-IsDangling usb ibuf fuel s.f_dev s u i a in
      rw (← some-is k) (rw same d)
  step_at-Inv closed rgb_back buf s t g i e =
      rw (← some-is e) (refl, IsDangling-first s.f_dev s.core i)
  step_at-Inv finished rgb_back buf s t g i e = absurd (none-is e)

  finished-stage : (g : Stage) → is_finished g ≡ true → g ≡ finished
  finished-stage no_thread e = absurd (true-false (sym e))
  finished-stage starting e = absurd (true-false (sym e))
  finished-stage looping e = absurd (true-false (sym e))
  finished-stage shutting e = absurd (true-false (sym e))
  finished-stage stopped e = absurd (true-false (sym e))
  finished-stage closed e = absurd (true-false (sym e))
  finished-stage finished e = refl

  -- A join that returns leaves no thread, no device and an empty list.
  pub join-IsClosed :
      (k rgb_back : ℕ) (buf : List ℕ) (s t : Life W)
      → Inv s
      → join usb fuel ibuf k rgb_back buf s ≡ some t
      → (t.freenect_thread ≡ no_thread) × IsClosed t.f_dev t.core
  unfolding join
  join-IsClosed zero rgb_back buf s t i e = absurd (none-is e)
  join-IsClosed (suc k) rgb_back buf s t i e =
      let rest = thread_step usb fuel ibuf rgb_back buf s >>= join usb fuel ibuf k rgb_back buf in
      let last = some (record s { freenect_thread = no_thread }) in
      elim (Bool-cases (is_finished s.freenect_thread)) [
        | inl f ↦
            (let c : IsClosed s.f_dev s.core = rw (finished-stage s.freenect_thread f) at i in
              rw (← some-is (sym (if-true last rest f) ∙ e)) (refl, c))
        | inr f ↦
            (let (u, a, l) =
                >>=-eq_some (thread_step usb fuel ibuf rgb_back buf s) _
                  (sym (if-false last rest f) ∙ e) in
              join-IsClosed k rgb_back buf u t
                (step_at-Inv s.freenect_thread rgb_back buf s u refl i a) l)
      ]
