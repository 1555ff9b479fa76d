-- ===== src/Plugin/Life/Main.antt =====
-- The steps of `execute:`: they keep the invariant of the life cycle.
use quartz_composer_open_kin.Camera.Session.Setters.{true-false}
use quartz_composer_open_kin.Core.{Core, sys_of, no_device}
use quartz_composer_open_kin.Device.{Libusb, Sys}
use quartz_composer_open_kin.Fakenect.{Globals}
use quartz_composer_open_kin.Fakenect.Api.{Handle, fake}
use quartz_composer_open_kin.Memory.Kept.{some-is, none-is}
use quartz_composer_open_kin.Plugin.Life.{
  DevicePointer, null, fake_dev, device, Stage, no_thread, starting, looping, shutting, stopped,
  closed, finished, Life, on_device, call_on, has_thread, join,
}
use quartz_composer_open_kin.Plugin.Life.Execute.{
  Inputs, change_angle, change_led, choose_driver, change_device, not_null,
}
use quartz_composer_open_kin.Plugin.Life.Inv.{
  IsClosed, IsDangling, Inv, InvAt, Called-IsOpen, on_device-Called,
}
use quartz_composer_open_kin.Plugin.Life.Opens.{open_counted-Inv}
use quartz_composer_open_kin.Plugin.Life.Steps.{join-IsClosed}
use quartz_composer_open_kin.Prelude.{
  ℕ, ◌≡◌, true, false, Option, some, List, refl, ap, ◌∙◌, sym, >>=-eq_some, is_some, inl, inr,
  Bool-cases, ℤ, if◌then◌else◌, if-true, if-false, ◌&&◌,
}

module _ {W : Type 0} where
  -- A call on a closed device returns only for the fake one.
  call_on-Dangling :
      (call : Handle → Globals × Sys W → Option (ℤ × Globals × Sys W)) (d : DevicePointer)
      (s : Life W) (r : ℤ) (t : Life W)
      → IsDangling d s.core
      → call_on call d s ≡ some (r, t)
      → IsDangling d t.core × (t.freenect_thread ≡ s.freenect_thread) × (t.f_dev ≡ s.f_dev)
  unfolding call_on
  call_on-Dangling call null s r t i e = absurd i
  call_on-Dangling call fake_dev s r t i e =
      let (a, _, k) = >>=-eq_some (call fake (s.globals, sys_of no_device s.core)) _ e in
      rw (← ap (λ (x : ℤ × Life W). x.1) (some-is k)) (i, refl, refl)
  call_on-Dangling call (device p) s r t (gone, _) e =
      let (n, at_p, _) = >>=-eq_some (s.core.devs p) _ e in absurd (none-is (sym gone ∙ at_p))

  call_on-null :
      (call : Handle → Globals × Sys W → Option (ℤ × Globals × Sys W)) (d : DevicePointer)
      (s : Life W) (r : ℤ) (t : Life W)
      → d ≡ null
      → call_on call d s ≡ some (r, t)
      → ⊥
  unfolding call_on
  call_on-null call d s r t n e = none-is (rw n at e)

  on_device-Inv :
      (call : Handle → Globals × Sys W → Option (ℤ × Globals × Sys W)) (g : Stage) (s : Life W)
      (r : ℤ) (t : Life W)
      → s.freenect_thread ≡ g
      → InvAt g s.f_dev s.use_fakenect s.core
      → on_device call s ≡ some (r, t)
      → Inv t
  on_device-Inv call no_thread s r t g (n, _) e = absurd (call_on-null call s.f_dev s r t n e)
  on_device-Inv call starting s r t g i e =
      let (o, h, _, _) = Called-IsOpen s t (on_device-Called call s r t i e) in rw (h ∙ g) o
  on_device-Inv call looping s r t g i e =
      let (o, h, _, _) = Called-IsOpen s t (on_device-Called call s r t i e) in rw (h ∙ g) o
  on_device-Inv call shutting s r t g i e =
      let (o, h, _, _) = Called-IsOpen s t (on_device-Called call s r t i e) in rw (h ∙ g) o
  on_device-Inv call stopped s r t g i e =
      let (o, h, _, _) = Called-IsOpen s t (on_device-Called call s r t i e) in rw (h ∙ g) o
  on_device-Inv call closed s r t g i e =
      let (o, h, f) = call_on-Dangling call s.f_dev s r t i e in rw (h ∙ g, f) o
  on_device-Inv call finished s r t g (n, _) e = absurd (call_on-null call s.f_dev s r t n e)

module _ {W : Type 0} (usb : Libusb W) where
  pub change_angle-Inv : (i : Inputs) (s t : Life W) → Inv s → change_angle usb i s ≡ some t → Inv t
  unfolding change_angle
  change_angle-Inv i s t v e = elim (Bool-cases (i.angle_changed && not_null s.f_dev)) [
    | inl b ↦
        (let (r, a, k) = >>=-eq_some (on_device _ s) _ (sym (if-true _ (some s) b) ∙ e) in
          rw (← some-is k) (on_device-Inv _ s.freenect_thread s r.0 r.1 refl v a))
    | inr b ↦ rw (← some-is (sym (if-false _ (some s) b) ∙ e)) v
  ]

  pub change_led-Inv : (i : Inputs) (s t : Life W) → Inv s → change_led usb i s ≡ some t → Inv t
  unfolding change_led
  change_led-Inv i s t v e = elim (Bool-cases (i.led_changed && not_null s.f_dev)) [
    | inl b ↦
        (let (r, a, k) = >>=-eq_some (on_device _ s) _ (sym (if-true _ (some s) b) ∙ e) in
          rw (← some-is k) (on_device-Inv _ s.freenect_thread s r.0 r.1 refl v a))
    | inr b ↦ rw (← some-is (sym (if-false _ (some s) b) ∙ e)) v
  ]

without : (g : Stage) → has_thread g ≡ false → g ≡ no_thread
without no_thread e = refl
without starting e = absurd (true-false e)
without looping e = absurd (true-false e)
without shutting e = absurd (true-false e)
without stopped e = absurd (true-false e)
without closed e = absurd (true-false e)
without finished e = absurd (true-false e)

module _ {W : Type 0} where
  -- The choice of the driver touches neither device nor thread.
  choose_driver-same :
      (i : Inputs) (s : Life W)
      → ((choose_driver i s).freenect_thread ≡ s.freenect_thread)
        × ((choose_driver i s).f_dev ≡ s.f_dev)
        × ((choose_driver i s).core ≡ s.core)
  unfolding choose_driver
  choose_driver-same i s =
      elim (Bool-cases (i.input_use_fakenect && is_some i.input_fakenect_data_path)) [
        | inr e ↦ rw e (refl, refl, refl)
        | inl e ↦ elim (Bool-cases i.path_exists) [
          | inl f ↦ rw (e, f) (refl, refl, refl)
          | inr f ↦ rw (e, f) (refl, refl, refl)
        ]
      ]

module _ {W : Type 0} (usb : Libusb W) (fuel : ℕ) (ibuf : List ℕ) where
  -- The thread of the old device, joined where there is one.
  joined-IsClosed :
      (rgb_back : ℕ) (buf : List ℕ) (s t : Life W)
      → Inv s
      → (if has_thread s.freenect_thread
          then join usb fuel ibuf 6 rgb_back buf (record s { die = true })
          else some s)
        ≡ some t
      → (t.freenect_thread ≡ no_thread) × IsClosed t.f_dev t.core
  joined-IsClosed rgb_back buf s t v e = elim (Bool-cases (has_thread s.freenect_thread)) [
    | inl h ↦
        join-IsClosed usb fuel ibuf 6 rgb_back buf (record s { die = true }) t v
          (sym (if-true _ _ h) ∙ e)
    | inr h ↦
        (let none_there = without s.freenect_thread h in
          let c : IsClosed s.f_dev s.core = rw none_there at v in
          rw (← some-is (sym (if-false _ _ h) ∙ e)) (none_there, c))
  ]

  pub change_device-Inv :
      (i : Inputs) (self rgb_back : ℕ) (buf : List ℕ) (s t : Life W)
      → Inv s
      → change_device usb fuel ibuf i self rgb_back buf s ≡ some t
      → Inv t
  unfolding change_device
  change_device-Inv i self rgb_back buf s t v e =
      let (u, a, k) = >>=-eq_some (if has_thread s.freenect_thread then _ else some s) _ e in
      let (g, c) = joined-IsClosed rgb_back buf s u v a in
      let (f, d, x) = choose_driver-same i u in
      open_counted-Inv usb fuel ibuf i self _ _ t (f ∙ g)
        (d ∙ c.0, ap (λ (y : Core W). y.ctx.first) x ∙ c.1) k
