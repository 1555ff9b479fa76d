-- ===== src/Plugin/Life/Joins.antt =====
-- What `pthread_join` waits for in ImageWithKinectPlugIn.mm once `_die` is set.
use quartz_composer_open_kin.Core.{sys_of, no_device}
use quartz_composer_open_kin.Device.{Libusb, Sys}
use quartz_composer_open_kin.Fakenect.{Globals}
use quartz_composer_open_kin.Fakenect.Api.{Handle, fake, real}
use quartz_composer_open_kin.Memory.Kept.{some-is, none-is}
use quartz_composer_open_kin.Plugin.Life.{
  DevicePointer, null, fake_dev, device, Stage, no_thread, starting, looping, shutting, stopped,
  closed, finished, Life, call_on, on_device, close_f_dev, set_up_streams, stop_streams, step_at,
  run_loop, join,
}
use quartz_composer_open_kin.Prelude.{
  ℕ, suc, ◌≡◌, true, Option, none, some, List, refl, ap, ◌∙◌, sym, ◌>>=◌, >>=-eq_some, ℤ,
}

-- A chain with another step in it.
passes {ℓ κ μ} :
    {A : Type ℓ} {B : Type κ} {C : Type μ} (m : Option A) (h : A → B) (f : B → Option C)
    (g : A → Option C)
    → ((a : A) → m ≡ some a → f (h a) ≡ g a)
    → ((m >>= λ a. some (h a)) >>= f) ≡ (m >>= g)
passes none h f g e = refl
passes (some a) h f g e = e a refl

module _ {W : Type 0} where
  call_on-die :
      (call : Handle → Globals × Sys W → Option (ℤ × Globals × Sys W)) (d : DevicePointer)
      (s : Life W) (r : ℤ × Life W)
      → call_on call d s ≡ some r
      → r.1.die ≡ s.die
  unfolding call_on
  call_on-die call null s r e = absurd (none-is e)
  call_on-die call fake_dev s r e =
      let (_, _, k) = >>=-eq_some (call fake (s.globals, sys_of no_device s.core)) _ e in
      sym (ap (λ (x : ℤ × Life W). x.1.die) (some-is k))
  call_on-die call (device p) s r e =
      let (n, _, f) = >>=-eq_some (s.core.devs p) _ e in
      let (_, _, k) = >>=-eq_some (call real (s.globals, sys_of n.dev s.core)) _ f in
      sym (ap (λ (x : ℤ × Life W). x.1.die) (some-is k))

module _ {W : Type 0} (usb : Libusb W) (fuel : ℕ) (ibuf : List ℕ) (rgb_back : ℕ)
    (buf : List ℕ) where
  -- What `freenect_threadfunc` still does, stage by stage, up to its return and the join, once `_die` is
  -- set. A call that faults or does not end is `none`, and so is a join where there is no thread.
  abbrev pub end_stopped : Life W → Option (Life W)
  end_stopped s =
      close_f_dev usb fuel ibuf s.f_dev (record s { freenect_thread = stopped }) >>= λ t.
      some (record t { f_dev = null; freenect_thread = no_thread })

  abbrev pub end_shutting : Life W → Option (Life W)
  end_shutting s =
      on_device (stop_streams usb fuel ibuf) (record s { freenect_thread = shutting }) >>= λ r.
      end_stopped r.1

  abbrev pub end_starting : Life W → Option (Life W)
  end_starting s =
      on_device (set_up_streams usb fuel ibuf s.freenect_angle s.freenect_led rgb_back)
        (record s { freenect_thread = starting })
      >>= λ r. end_shutting (record (r.1) { accel_count = 0 })

  abbrev pub end_from : Stage → Life W → Option (Life W)
  end_from no_thread s = none
  end_from starting s = end_starting s
  end_from looping s = end_shutting s
  end_from shutting s = end_shutting s
  end_from stopped s = end_stopped s
  end_from closed s = some (record s { f_dev = null; freenect_thread = no_thread })
  end_from finished s = some (record s { freenect_thread = no_thread })

  -- The join, with the thread at stage `g`.
  abbrev waits : ℕ → Stage → Life W → Option (Life W)
  waits k g s = join usb fuel ibuf k rgb_back buf (record s { freenect_thread = g })

  from_stopped : (k : ℕ) (s : Life W) → waits (suc (suc (suc k))) stopped s ≡ end_stopped s
  unfolding join step_at
  from_stopped k s =
      passes (close_f_dev usb fuel ibuf s.f_dev (record s { freenect_thread = stopped }))
        (λ t. record t { freenect_thread = closed }) _ _ (λ t e. refl)

  from_shutting : (k : ℕ) (s : Life W) → waits (suc (suc (suc (suc k)))) shutting s ≡ end_shutting s
  unfolding join step_at
  from_shutting k s =
      passes (on_device (stop_streams usb fuel ibuf) (record s { freenect_thread = shutting }))
        (λ r. record (r.1) { freenect_thread = stopped }) _ _ (λ r e. from_stopped k r.1)

  from_looping :
      (k : ℕ) (s : Life W)
      → s.die ≡ true
      → waits (suc (suc (suc (suc (suc k))))) looping s ≡ end_shutting s
  unfolding join step_at run_loop
  from_looping k s d = rw d (from_shutting k (record s { die = true }))

  from_starting :
      (k : ℕ) (s : Life W)
      → s.die ≡ true
      → waits (suc (suc (suc (suc (suc (suc k)))))) starting s ≡ end_starting s
  unfolding join step_at
  from_starting k s d =
      let call = set_up_streams usb fuel ibuf s.freenect_angle s.freenect_led rgb_back in
      passes (on_device call (record s { freenect_thread = starting }))
        (λ r. record (r.1) { freenect_thread = looping; accel_count = 0 }) _ _
        (λ r e.
          from_looping k (record (r.1) { accel_count = 0 })
            (call_on-die call s.f_dev (record s { freenect_thread = starting }) r e ∙ d))

  ends_from :
      (g : Stage) (k : ℕ) (s : Life W)
      → s.die ≡ true
      → waits (suc (suc (suc (suc (suc (suc k)))))) g s ≡ end_from g s
  unfolding join step_at
  ends_from no_thread k s d = refl
  ends_from starting k s d = from_starting k s d
  ends_from looping k s d = from_looping (suc k) s d
  ends_from shutting k s d = from_shutting (suc (suc k)) s
  ends_from stopped k s d = from_stopped (suc (suc (suc k))) s
  ends_from closed k s d = refl
  ends_from finished k s d = refl

  -- How the driver's thread ends. Once `_die` is set, the join in `stopExecution:`, with six steps of the
  -- thread or more, comes to what the rest of `freenect_threadfunc` comes to as a straight line from the
  -- stage where the thread is: the set-up of the streams where it has just started, no round of the loop,
  -- the stop of both streams, the close of the device, `_f_dev = 0`, and the thread is joined. It fails
  -- where one of those calls does, or where there is no thread, and nowhere else.
  pub join-ends :
      (k : ℕ) (s : Life W)
      → s.die ≡ true
      → join usb fuel ibuf (suc (suc (suc (suc (suc (suc k)))))) rgb_back buf s
        ≡ end_from s.freenect_thread s
  join-ends k s d = ends_from s.freenect_thread k s d
