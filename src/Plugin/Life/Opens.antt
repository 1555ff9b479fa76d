-- ===== src/Plugin/Life/Opens.antt =====
-- Opening a device in `execute:`: the new one is alone in its context.
use quartz_composer_open_kin.Camera.Session.Setters.{true-false}
use quartz_composer_open_kin.Core.{Core, open_device, no_device}
use quartz_composer_open_kin.Core.Devices.{Store, append_device}
use quartz_composer_open_kin.Usb.Bus.{is_error, open_subdevices}
use quartz_composer_open_kin.Device.{Libusb}
use quartz_composer_open_kin.Fakenect.Api.{Handle, fake, real, fake_open_device}
use quartz_composer_open_kin.Memory.Kept.{some-is}
use quartz_composer_open_kin.Plugin.Life.{no_thread, Life, on_device, context, close_f_dev}
use quartz_composer_open_kin.Plugin.Life.Execute.{
  Inputs, create_thread, open_chosen, open_counted, pointer,
}
use quartz_composer_open_kin.Plugin.Life.Inv.{
  IsOpen, IsClosed, Inv, Called-IsOpen, on_device-Called, close_f_dev-IsDangling, store_set-same,
}
use quartz_composer_open_kin.Plugin.Life.Steps.{IsDangling-first}
use quartz_composer_open_kin.Prelude.{
  ℕ, ◌≡◌, Bool, true, false, Option, none, some, List, refl, ◌∙◌, sym, >>=-eq_some, leb, is_neg,
  pos, negsuc, ◌⊎◌, inl, inr, ◌==◌, Bool-cases, ℤ, if-true, if-false,
}

append_device-none :
    (fuel : ℕ) (first : Option ℕ) (p : ℕ) (st : Store)
    → first ≡ none
    → append_device fuel first p st ≡ some (some p, st)
unfolding append_device
append_device-none fuel first p st e = rw e refl

error-neg : (r : ℤ) → is_error r ≡ true → is_neg r ≡ true
error-neg (pos n) e = absurd (true-false (sym e))
error-neg (negsuc n) e = refl

abbrev flag : Handle → Bool
flag fake = true
flag real = false

module _ {W : Type 0} where
  -- The new device is alone in the context's list, or there is none.
  abbrev Opens : ℤ → Handle → Option ℕ → Bool → Core W → Type 0
  Opens r h p u d =
      ((is_neg r ≡ true) × (d.ctx.first ≡ none)) ⊎ ((is_neg r ≡ false) × IsOpen (pointer h p) u d)

  context-flag : (s : Life W) → flag (context s) ≡ s.use_fakenect
  unfolding context
  context-flag s = elim (Bool-cases s.use_fakenect) [ inl e ↦ rw e refl | inr e ↦ rw e refl ]

module _ {W : Type 0} (usb : Libusb W) (fuel : ℕ) where
  -- Opening a device where the context has none.
  open_device-alone :
      (index : ℕ) (c : Core W) (x : ℤ × Option ℕ × Core W)
      → c.ctx.first ≡ none
      → open_device usb fuel index c ≡ some x
      → Opens x.0 real x.1 false x.2
  unfolding open_device
  open_device-alone index c x f e = elim (Bool-cases (c.slots == 0)) [
    | inl z ↦ rw (← some-is (sym (if-true _ _ z) ∙ e)) (inl (refl, f))
    | inr z ↦
        (let (res, dev, w) = open_subdevices usb c.ctx.usb index no_device c.world in
          elim (Bool-cases (is_error res)) [
            | inl n ↦
                rw (← some-is (sym (if-true _ _ n) ∙ sym (if-false _ _ z) ∙ e))
                  (inl (error-neg res n, f))
            | inr n ↦
                (let (r, a, l) =
                    >>=-eq_some (append_device fuel c.ctx.first c.next_id _) _
                      (sym (if-false _ _ n) ∙ sym (if-false _ _ z) ∙ e) in
                  let made =
                    some-is (sym (append_device-none fuel c.ctx.first c.next_id _ f) ∙ a) in
                  rw (← some-is l, ← made)
                    (inr (refl, (refl, (refl, _, store_set-same c.devs c.next_id _, refl)))))
          ])
  ]

  fake_open_device-alone :
      (h : Handle) (index : ℕ) (c : Core W) (x : ℤ × Handle × Option ℕ × Core W)
      → c.ctx.first ≡ none
      → fake_open_device usb h fuel index c ≡ some x
      → Opens x.0 x.1 x.2 (flag h) x.3
  unfolding fake_open_device
  fake_open_device-alone fake index c x f e = rw (← some-is e) (inr (refl, (refl, f)))
  fake_open_device-alone real index c x f e =
      let (a, g, k) = >>=-eq_some (open_device usb fuel index c) _ e in
      rw (← some-is k) (open_device-alone index c a f g)

module _ {W : Type 0} (usb : Libusb W) (fuel : ℕ) (ibuf : List ℕ) where
  create_thread-Inv :
      (i : Inputs) (self : ℕ) (s t : Life W)
      → IsOpen s.f_dev s.use_fakenect s.core
      → create_thread usb fuel ibuf i self s ≡ some t
      → Inv t
  unfolding create_thread
  create_thread-Inv i self s t o e =
      let (r, a, k) = >>=-eq_some (on_device _ s) _ e in
      let (u, h, _, _) = Called-IsOpen s r.1 (on_device-Called _ s r.0 r.1 o a) in
      let v = record (r.1) {
        freenect_angle = i.input_angle;
        freenect_led = i.input_led;
        die = false;
      } in
      elim (Bool-cases i.creates) [
        | inl b ↦ rw (← some-is (sym (if-true _ _ b) ∙ k)) u
        | inr b ↦
            (let (x, f, l) =
                >>=-eq_some (close_f_dev usb fuel ibuf r.1.f_dev v) _ (sym (if-false _ _ b) ∙ k) in
              let (c, same, d) = close_f_dev-IsDangling usb ibuf fuel r.1.f_dev v x u f in
              rw (← some-is l) (refl, rw same (IsDangling-first r.1.f_dev c d)))
      ]

  open_chosen-Inv :
      (i : Inputs) (self n : ℕ) (s t : Life W)
      → s.freenect_thread ≡ no_thread
      → IsClosed s.f_dev s.core
      → open_chosen usb fuel ibuf i self n s ≡ some t
      → Inv t
  unfolding open_chosen
  open_chosen-Inv i self n s t g (_, alone) e =
      let (x, a, k) = >>=-eq_some (fake_open_device usb (context s) fuel _ s.core) _ e in
      elim (fake_open_device-alone usb fuel (context s) _ s.core x alone a) [
        | inl (neg, f) ↦ rw (← some-is (sym (if-true _ _ neg) ∙ k), g) (refl, f)
        | inr (found, o) ↦
            create_thread-Inv i self (record s { core = x.3; f_dev = pointer x.1 x.2 }) t
              (rw (← context-flag s) o) (sym (if-false _ _ found) ∙ k)
      ]

  pub open_counted-Inv :
      (i : Inputs) (self : ℕ) (n : ℤ) (s t : Life W)
      → s.freenect_thread ≡ no_thread
      → IsClosed s.f_dev s.core
      → open_counted usb fuel ibuf i self n s ≡ some t
      → Inv t
  unfolding open_counted
  open_counted-Inv i self (negsuc n) s t g c e = rw (← some-is e, g) c
  open_counted-Inv i self (pos n) s t g c e = elim (Bool-cases (leb 1 n)) [
    | inl l ↦ open_chosen-Inv i self n s t g c (sym (if-true _ _ l) ∙ e)
    | inr l ↦ rw (← some-is (sym (if-false _ _ l) ∙ e), g) c
  ]
