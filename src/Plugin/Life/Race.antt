-- ===== src/Plugin/Life/Race.antt =====
-- The head of `execute:` while the driver's thread closes the device.
use quartz_composer_open_kin.Camera.Session.Setters.{true-false}
use quartz_composer_open_kin.Core.{sys_of, no_device}
use quartz_composer_open_kin.Device.{Libusb, Sys}
use quartz_composer_open_kin.Fakenect.{Globals}
use quartz_composer_open_kin.Fakenect.Api.{Handle, fake, real}
use quartz_composer_open_kin.Memory.Kept.{none-is}
use quartz_composer_open_kin.Plugin.Life.{
  DevicePointer, null, fake_dev, device, Stage, no_thread, starting, looping, shutting, stopped,
  closed, finished, Life, call_on, on_device,
}
use quartz_composer_open_kin.Plugin.Life.Execute.{Inputs, not_null, change_angle, change_led}
use quartz_composer_open_kin.Plugin.Life.Inv.{IsOpen, IsDangling, Inv, InvAt}
use quartz_composer_open_kin.Prelude.{
  ℕ, ◌≡◌, Bool, true, false, Option, none, some, refl, ap, ◌∙◌, sym, ◌>>=◌, inl, inr, ◌⊎◌, ◌↔◌,
  >>=-some, >>=-none, if◌then◌else◌, Bool-cases, ℤ, if-true, if-false, ◌&&◌,
}

null-false : (d : DevicePointer) → d ≡ null → not_null d ≡ false
null-false d e = rw e refl

both : (b c : Bool) → (b && c) ≡ true → (b ≡ true) × (c ≡ true)
both true c e = (refl, e)
both false c e = absurd (true-false (sym e))

and-true : (b c : Bool) → b ≡ true → c ≡ true → (b && c) ≡ true
and-true b c e f = rw (e, f) refl

module _ {W : Type 0} where
  -- The driver's device is closed, and `_f_dev` still points to it.
  abbrev pub Dangles : Life W → Type 0
  Dangles s = (p : ℕ) × (s.freenect_thread ≡ closed) × (s.f_dev ≡ device p)

  -- A call that has a result for each device.
  abbrev IsTotal : (Handle → Globals × Sys W → Option (ℤ × Globals × Sys W)) → Type 0
  IsTotal call =
      (h : Handle) (x : Globals × Sys W) → (y : ℤ × Globals × Sys W) × (call h x ≡ some y)

  abbrev Returns : Option (ℤ × Life W) → Type 0
  Returns o = (x : ℤ × Life W) × (o ≡ some x)

  call_on-fake :
      (call : Handle → Globals × Sys W → Option (ℤ × Globals × Sys W)) (s : Life W)
      → IsTotal call
      → Returns (call_on call fake_dev s)
  unfolding call_on
  call_on-fake call s a =
      let (y, e) = a fake (s.globals, sys_of no_device s.core) in (_, >>=-some _ e)

  call_on-open :
      (call : Handle → Globals × Sys W → Option (ℤ × Globals × Sys W)) (d : DevicePointer)
      (s : Life W)
      → IsTotal call
      → IsOpen d s.use_fakenect s.core
      → Returns (call_on call d s)
  unfolding call_on
  call_on-open call null s a o = absurd o
  call_on-open call fake_dev s a o = call_on-fake call s a
  call_on-open call (device p) s a (_, (_, n, at_p, _)) =
      let (y, e) = a real (s.globals, sys_of n.dev s.core) in (_, >>=-some _ at_p ∙ >>=-some _ e)

  call_on-dangling :
      (call : Handle → Globals × Sys W → Option (ℤ × Globals × Sys W)) (d : DevicePointer)
      (s : Life W)
      → IsTotal call
      → IsDangling d s.core
      → Returns (call_on call d s) ⊎ ((p : ℕ) × (d ≡ device p))
  call_on-dangling call null s a i = absurd i
  call_on-dangling call fake_dev s a i = inl (call_on-fake call s a)
  call_on-dangling call (device p) s a i = inr (p, refl)

  on_device-outcome :
      (call : Handle → Globals × Sys W → Option (ℤ × Globals × Sys W)) (g : Stage) (s : Life W)
      → IsTotal call
      → s.freenect_thread ≡ g
      → InvAt g s.f_dev s.use_fakenect s.core
      → not_null s.f_dev ≡ true
      → Returns (on_device call s) ⊎ Dangles s
  on_device-outcome call no_thread s a g i n = absurd (true-false (sym n ∙ null-false s.f_dev i.0))
  on_device-outcome call starting s a g i n = inl (call_on-open call s.f_dev s a i)
  on_device-outcome call looping s a g i n = inl (call_on-open call s.f_dev s a i)
  on_device-outcome call shutting s a g i n = inl (call_on-open call s.f_dev s a i)
  on_device-outcome call stopped s a g i n = inl (call_on-open call s.f_dev s a i)
  on_device-outcome call closed s a g i n = elim (call_on-dangling call s.f_dev s a i) [
    | inl r ↦ inl r
    | inr (p, f) ↦ inr (p, g, f)
  ]
  on_device-outcome call finished s a g i n = absurd (true-false (sym n ∙ null-false s.f_dev i.0))

  call_on-freed :
      (call : Handle → Globals × Sys W → Option (ℤ × Globals × Sys W)) (d : DevicePointer) (p : ℕ)
      (s : Life W)
      → d ≡ device p
      → s.core.devs p ≡ none
      → call_on call d s ≡ none
  unfolding call_on
  call_on-freed call d p s e gone = rw e (>>=-none _ gone)

  -- The structure is freed.
  on_device-freed :
      (call : Handle → Globals × Sys W → Option (ℤ × Globals × Sys W)) (s : Life W)
      → Inv s
      → Dangles s
      → on_device call s ≡ none
  on_device-freed call s v (p, g, f) =
      let i : IsDangling (device p) s.core = rw (g, f) at v in call_on-freed call s.f_dev p s f i.0

  -- A call under a test, that is followed by a step without a fault.
  guarded-faults :
      (call : Handle → Globals × Sys W → Option (ℤ × Globals × Sys W)) (changed : Bool) (s : Life W)
      (after : ℤ × Life W → Life W)
      → IsTotal call
      → Inv s
      → ((if changed && not_null s.f_dev
            then on_device call s >>= (λ r. some (after r))
            else some s)
          ≡ none)
        ↔ ((changed ≡ true) × Dangles s)
  guarded-faults call changed s after a v = (to, from)
    where
      to :
          (if changed && not_null s.f_dev
              then on_device call s >>= (λ r. some (after r))
              else some s)
            ≡ none
          → (changed ≡ true) × Dangles s
      to e = elim (Bool-cases (changed && not_null s.f_dev)) [
        | inr b ↦ absurd (none-is (sym e ∙ if-false _ _ b))
        | inl b ↦
            (let (c, n) = both changed (not_null s.f_dev) b in
              elim (on_device-outcome call s.freenect_thread s a refl v n) [
                | inr d ↦ (c, d)
                | inl (x, f) ↦ absurd (none-is (sym e ∙ if-true _ _ b ∙ >>=-some _ f))
              ])
      ]

      from :
          (changed ≡ true) × Dangles s
          → (if changed && not_null s.f_dev
              then on_device call s >>= (λ r. some (after r))
              else some s)
            ≡ none
      from (c, (p, g, f)) =
          if-true _ _ (and-true changed (not_null s.f_dev) c (ap not_null f))
          ∙ >>=-none _ (on_device-freed call s v (p, g, f))

module _ {W : Type 0} (usb : Libusb W) where
  -- The race with the end of the driver's thread. In every state of the life cycle, the change of the
  -- angle at the head of `execute:` faults exactly if the angle has changed while the driver's thread is
  -- between the close of a device of the driver and `_f_dev = 0`, and so does the change of the LED. In
  -- all other states both return.
  pub changes-race :
      (i : Inputs) (s : Life W)
      → Inv s
      → ((change_angle usb i s ≡ none) ↔ ((i.angle_changed ≡ true) × Dangles s))
        × ((change_led usb i s ≡ none) ↔ ((i.led_changed ≡ true) × Dangles s))
  unfolding change_angle change_led
  changes-race i s v = (
    guarded-faults _ i.angle_changed s (λ r. record (r.1) { freenect_angle = i.input_angle })
        (λ h x. (_, refl)) v,
    guarded-faults _ i.led_changed s (λ r. r.1) (λ h x. (_, refl)) v,
  )
