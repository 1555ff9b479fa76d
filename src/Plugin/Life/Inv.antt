-- ===== src/Plugin/Life/Inv.antt =====
-- The invariant of the plug-in's life cycle: which device is open at each stage of the driver's thread.
use quartz_composer_open_kin.Core.{Core, put_sys, sys_of, no_device}
use quartz_composer_open_kin.Core.Devices.{Node, Store, store_set}
use quartz_composer_open_kin.Core.Links.{Chain}
use quartz_composer_open_kin.Device.{Libusb, Sys}
use quartz_composer_open_kin.Fakenect.{Globals}
use quartz_composer_open_kin.Fakenect.Api.{Handle, fake, real}
use quartz_composer_open_kin.Memory.Kept.{some-is, none-is}
use quartz_composer_open_kin.Core.{close_device}
use quartz_composer_open_kin.Core.Devices.{unlink}
use quartz_composer_open_kin.Core.Unlink.{unlink-IsUnlinked}
use quartz_composer_open_kin.Camera.Switch.{stop_depth, stop_video}
use quartz_composer_open_kin.Fakenect.Api.{fake_close_device}
use quartz_composer_open_kin.Plugin.Life.{
  close_f_dev, DevicePointer, null, fake_dev, device, Stage, no_thread, starting, looping, shutting,
  stopped, closed, finished, Life, call_on, on_device,
}
use quartz_composer_open_kin.Prelude.{
  ℕ, zero, suc, ◌≡◌, Bool, true, false, Option, none, some, List, [], ◌∷◌, refl, ap, ◌∙◌, sym, ◌+◌,
  pos, negsuc, ==_iff, >>=-eq_some, ℤ, arith,
}

pub store_set-same : (st : Store) (p : ℕ) (n : Node) → store_set st p (some n) p ≡ some n
store_set-same st p n = rw ((==_iff p p).1 refl) refl

module _ {W : Type 0} where
  -- The context's list holds exactly the driver's device that is open, and `_useFakenect` is as it was
  -- when the device was opened.
  abbrev pub IsOpen : DevicePointer → Bool → Core W → Type 0
  IsOpen null u c = ⊥
  IsOpen fake_dev u c = (u ≡ true) × (c.ctx.first ≡ none)
  IsOpen (device p) u c = (u ≡ false) × Chain c.devs c.ctx.first (p ∷ [])

  -- The device is closed, its structure is freed, and `_f_dev` still points to it.
  abbrev pub IsDangling : DevicePointer → Core W → Type 0
  IsDangling null c = ⊥
  IsDangling fake_dev c = c.ctx.first ≡ none
  IsDangling (device p) c = (c.devs p ≡ none) × (c.ctx.first ≡ none)

  abbrev pub IsClosed : DevicePointer → Core W → Type 0
  IsClosed d c = (d ≡ null) × (c.ctx.first ≡ none)

  abbrev pub InvAt : Stage → DevicePointer → Bool → Core W → Type 0
  InvAt no_thread d u c = IsClosed d c
  InvAt starting d u c = IsOpen d u c
  InvAt looping d u c = IsOpen d u c
  InvAt shutting d u c = IsOpen d u c
  InvAt stopped d u c = IsOpen d u c
  InvAt closed d u c = IsDangling d c
  InvAt finished d u c = IsClosed d c

  abbrev pub Inv : Life W → Type 0
  Inv s = InvAt s.freenect_thread s.f_dev s.use_fakenect s.core

  -- What a call on the device may change.
  abbrev pub Called : Life W → Life W → Type 0
  Called s t =
      (g : Globals) × (c : Core W) × (t ≡ record s { globals = g; core = c })
      × IsOpen s.f_dev s.use_fakenect c

  call_on-Called :
      (call : Handle → Globals × Sys W → Option (ℤ × Globals × Sys W)) (d : DevicePointer)
      (s : Life W) (r : ℤ) (t : Life W)
      → IsOpen d s.use_fakenect s.core
      → call_on call d s ≡ some (r, t)
      → (g : Globals) × (c : Core W) × (t ≡ record s { globals = g; core = c })
        × IsOpen d s.use_fakenect c
  unfolding call_on
  call_on-Called call null s r t o e = absurd o
  call_on-Called call fake_dev s r t o e =
      let (a, _, k) = >>=-eq_some (call fake (s.globals, sys_of no_device s.core)) _ e in
      (a.1, _, sym (ap (λ (x : ℤ × Life W). x.1) (some-is k)), o)
  call_on-Called call (device p) s r t (u, (f, n, at_p, last)) e =
      let (m, found, k) = >>=-eq_some (s.core.devs p) _ e in
      let (a, _, l) = >>=-eq_some (call real (s.globals, sys_of m.dev s.core)) _ k in
      let next : m.next ≡ none = ap (λ (v : Node). v.next) (some-is (sym found ∙ at_p)) ∙ last in
      (
        a.1,
        put_sys p m.next a.2 s.core,
        sym (ap (λ (x : ℤ × Life W). x.1) (some-is l)),
        (u, (f, record { dev = a.2.dev; next = m.next }, store_set-same s.core.devs p _, next)),
      )

  pub on_device-Called :
      (call : Handle → Globals × Sys W → Option (ℤ × Globals × Sys W)) (s : Life W) (r : ℤ)
      (t : Life W)
      → IsOpen s.f_dev s.use_fakenect s.core
      → on_device call s ≡ some (r, t)
      → Called s t
  on_device-Called call s r t o e = call_on-Called call s.f_dev s r t o e

unlink-none :
    (first : Option ℕ) (p : ℕ) (st : Store)
    → first ≡ some p
    → unlink zero first none first p st ≡ none
unfolding unlink
unlink-none first p st e = rw e refl

-- Unlinking the only device of a list.
unlink-last :
    (fuel p : ℕ) (first : Option ℕ) (st : Store) (x : Option (Option ℕ × Store))
    → Chain st first (p ∷ [])
    → unlink fuel first none first p st ≡ some x
    → (st' : Store) × (x ≡ some (none, st')) × (st' p ≡ none)
unlink-last zero p first st x c e = absurd (none-is (sym (unlink-none first p st c.0) ∙ e))
unlink-last (suc fuel) p first st x c e =
    let u = unlink-IsUnlinked (suc fuel) first [] p [] st (omega arith) c (refl, refl) in
    (
      u.store,
      some-is (sym e ∙ u.returns) ∙ ap (λ (h : Option ℕ). pair (h, u.store)) u.chain,
      u.gone,
    )
  where
    pair : Option ℕ × Store → Option (Option ℕ × Store)
    pair x = some x

closed_by :
    {W : Type 0} (p : ℕ) (x : Option (Option ℕ × Store)) (st : Store) (c d : Core W) (r : ℤ)
    → x ≡ some (none, st)
    → st p ≡ none
    → some (elim x as (λ x. ℤ × Core W) [
      | none ↦ (negsuc 0, c)
      | some (f, st) ↦
          (pos 0, record c { ctx = record (c.ctx) { first = f }; devs = st; slots = c.slots + 1 })
    ])
      ≡ some (r, d)
    → (d.devs p ≡ none) × (d.ctx.first ≡ none)
closed_by p none st c d r s g e = absurd (none-is s)
closed_by p (some (f, st')) st c d r s g e =
    let same = some-is s in
    let made = some-is e in
    (
      sym (ap (λ (y : ℤ × Core _). y.1.devs p) made)
          ∙ ap (λ (y : Option ℕ × Store). y.1 p) same
          ∙ g,
      sym (ap (λ (y : ℤ × Core _). y.1.ctx.first) made) ∙ ap (λ (y : Option ℕ × Store). y.0) same,
    )

module _ {W : Type 0} (usb : Libusb W) (ibuf : List ℕ) where
  -- Closing the only device of a context.
  close_device-last :
      (fuel p : ℕ) (c d : Core W) (r : ℤ)
      → Chain c.devs c.ctx.first (p ∷ [])
      → close_device usb fuel ibuf p c ≡ some (r, d)
      → (d.devs p ≡ none) × (d.ctx.first ≡ none)
  unfolding close_device
  close_device-last fuel p c d r (f, n, at_p, last) e =
      let (m, found, e₁) = >>=-eq_some (c.devs p) _ e in
      let (a, _, e₂) = >>=-eq_some (stop_depth usb fuel ibuf (sys_of m.dev c)) _ e₁ in
      let (b, _, e₃) = >>=-eq_some (stop_video usb fuel ibuf a.1) _ e₂ in
      let (x, g, e₄) = >>=-eq_some (unlink fuel c.ctx.first none c.ctx.first p _) _ e₃ in
      let next : m.next ≡ none = ap (λ (v : Node). v.next) (some-is (sym found ∙ at_p)) ∙ last in
      let (st, same, gone) =
        unlink-last fuel p c.ctx.first _ x (f, _, store_set-same c.devs p _, next) g in
      closed_by p x st _ d r same gone e₄

  pub close_f_dev-IsDangling :
      (fuel : ℕ) (d : DevicePointer) (s t : Life W)
      → IsOpen d s.use_fakenect s.core
      → close_f_dev usb fuel ibuf d s ≡ some t
      → (c : Core W) × (t ≡ record s { core = c }) × IsDangling d c
  unfolding close_f_dev fake_close_device
  close_f_dev-IsDangling fuel null s t o e = absurd o
  close_f_dev-IsDangling fuel fake_dev s t o e = (s.core, sym (some-is e), o.1)
  close_f_dev-IsDangling fuel (device p) s t (u, c) e =
      let (a, f, k) = >>=-eq_some (close_device usb fuel ibuf p s.core) _ e in
      (a.1, sym (some-is k), close_device-last fuel p s.core a.1 a.0 c f)

module _ {W : Type 0} where
  -- What is left of a call for the invariant.
  pub Called-IsOpen :
      (s t : Life W)
      → Called s t
      → IsOpen t.f_dev t.use_fakenect t.core
        × (t.freenect_thread ≡ s.freenect_thread)
        × (t.f_dev ≡ s.f_dev)
        × (t.die ≡ s.die)
  Called-IsOpen s t (g, c, e, o) = rw e (o, refl, refl, refl)
