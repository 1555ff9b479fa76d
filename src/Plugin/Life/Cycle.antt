-- ===== src/Plugin/Life/Cycle.antt =====
-- The two threads of the plug-in interleaved: the steps of the driver's thread of
-- ImageWithKinectPlugIn.mm, and between them the parts of `execute:`. A join is part of the change of
-- the device: while Quartz Composer's thread waits, only the driver's goes on.
use quartz_composer_open_kin.Core.{core_init, set_log_level}
use quartz_composer_open_kin.Device.{Libusb}
use quartz_composer_open_kin.Fakenect.Api.{fake_init}
use quartz_composer_open_kin.Plugin.Life.{null, no_thread, Life, thread_step}
use quartz_composer_open_kin.Plugin.Life.Execute.{
  Inputs, change_angle, change_led, change_device, start_execution,
}
use quartz_composer_open_kin.Plugin.Life.Inv.{Inv}
use quartz_composer_open_kin.Plugin.Life.Main.{change_angle-Inv, change_led-Inv, change_device-Inv}
use quartz_composer_open_kin.Plugin.Life.Steps.{step_at-Inv}
use quartz_composer_open_kin.Prelude.{ℕ, ◌≡◌, none, some, List, refl, inl, inr, Bool-cases, is_neg}

module _ {W : Type 0} (usb : Libusb W) (fuel : ℕ) (ibuf : List ℕ) where
  pub data Interleaving : Life W → Life W → Type 0 where
    runs :
        (rgb_back : ℕ) (buf : List ℕ) (s t : Life W)
        → thread_step usb fuel ibuf rgb_back buf s ≡ some t
        → Interleaving s t
    turns : (i : Inputs) (s t : Life W) → change_angle usb i s ≡ some t → Interleaving s t
    lights : (i : Inputs) (s t : Life W) → change_led usb i s ≡ some t → Interleaving s t
    switches :
        (i : Inputs) (self rgb_back : ℕ) (buf : List ℕ) (s t : Life W)
        → change_device usb fuel ibuf i self rgb_back buf s ≡ some t
        → Interleaving s t

  pub data Interleavings : Life W → Life W → Type 0 where
    here : (s : Life W) → Interleavings s s
    next : (s t u : Life W) → Interleaving s t → Interleavings t u → Interleavings s u

  Interleaving-Inv : (s t : Life W) → Inv s → Interleaving s t → Inv t
  Interleaving-Inv s t v (runs rgb_back buf _ _ e) =
      step_at-Inv usb fuel ibuf s.freenect_thread rgb_back buf s t refl v e
  Interleaving-Inv s t v (turns i _ _ e) = change_angle-Inv usb i s t v e
  Interleaving-Inv s t v (lights i _ _ e) = change_led-Inv usb i s t v e
  Interleaving-Inv s t v (switches i self rgb_back buf _ _ e) =
      change_device-Inv usb fuel ibuf i self rgb_back buf s t v e

  Interleavings-Inv : (s t : Life W) → Inv s → Interleavings s t → Inv t
  Interleavings-Inv s t v (here _) = v
  Interleavings-Inv s u v (next _ t _ p ps) = Interleavings-Inv t u (Interleaving-Inv s t v p) ps

  start_execution-Inv :
      (s : Life W) → s.freenect_thread ≡ no_thread → s.f_dev ≡ null → Inv (start_execution usb s).2
  unfolding start_execution core_init set_log_level fake_init
  start_execution-Inv s g f = elim (Bool-cases (is_neg (core_init usb none s.core.world).0)) [
    | inl e ↦ rw (e, g, f) (refl, refl)
    | inr e ↦ rw (e, g, f) (refl, refl)
  ]

  -- The life cycle. Start from a plug-in without thread and device, and let the threads interleave in
  -- any order: between two steps of the driver's thread the angle, the LED or the device change, each
  -- any number of times. In every state that is reached without a fault, the context's list holds
  -- exactly the device that `_f_dev` points to while the driver's thread is between its start and the
  -- close, and `_useFakenect` tells which kind it is. Behind the close the list is empty and the
  -- structure is freed. Without a thread, or when it has returned, `_f_dev` is NULL and the list empty.
  pub start_execution-Interleavings-Inv :
      (s t : Life W)
      → s.freenect_thread ≡ no_thread
      → s.f_dev ≡ null
      → Interleavings (start_execution usb s).2 t
      → Inv t
  start_execution-Interleavings-Inv s t g f ps =
      Interleavings-Inv (start_execution usb s).2 t (start_execution-Inv s g f) ps
