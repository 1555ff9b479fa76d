-- ===== src/Core/Shutdown.antt =====
-- `freenect_shutdown` of libfreenect/src/core.c, which closes the devices that are still open.
use quartz_composer_open_kin.Camera.Switch.{stop_depth, stop_video}
use quartz_composer_open_kin.Core.{Core, sys_of, put_sys, close_device, close_all}
use quartz_composer_open_kin.Core.Devices.{Node, Store, store_set}
use quartz_composer_open_kin.Core.Links.{Chain, Absent, AllDistinct, Chain-set}
use quartz_composer_open_kin.Core.Unlink.{SameStates, unlink-IsUnlinked}
use quartz_composer_open_kin.Device.{Libusb, Sys}
use quartz_composer_open_kin.Prelude.{
  ℕ, zero, suc, ◌+◌, ◌<◌, ◌≡◌, false, Option, none, some, List, [], ◌∷◌, ◌==◌, length, arith, refl,
  ◌∙◌, ap, ◌>>=◌, pos, negsuc,
}
use quartz_composer_open_kin.Usb.Bus.{close_subdevices}

-- The devices of the list have no stream that runs.
abbrev pub AllStopped : Store → List ℕ → Type 0
AllStopped st [] = Unit {0}
AllStopped st (p ∷ ps) =
    ((n : Node) → st p ≡ some n → (n.dev.depth.running ≡ false) × (n.dev.video.running ≡ false))
    × AllStopped st ps

AllStopped-kept :
    (st st' : Store) (p : ℕ) (v : Option Node) (ps : List ℕ)
    → Absent p ps
    → SameStates (store_set st p v) st'
    → AllStopped st ps
    → AllStopped st' ps
AllStopped-kept st st' p v [] a k s = tt
AllStopped-kept st st' p v (q ∷ ps) (ne, a) k (s, t) =
    (λ n e. kept n (k q n e), AllStopped-kept st st' p v ps a k t)
  where
    kept :
        (n : Node)
        → (m : Node) × (store_set st p v q ≡ some m) × (n.dev ≡ m.dev)
        → (n.dev.depth.running ≡ false) × (n.dev.video.running ≡ false)
    kept n (m, f, g) = let apart : (p == q) ≡ false = ground arith in rw g (s m (rw apart at f))

module _ {W : Type 0} (usb : Libusb W) (fuel : ℕ) (ibuf : List ℕ) where
  stop_depth-stopped :
      (y : Sys W) → y.dev.depth.running ≡ false → stop_depth usb fuel ibuf y ≡ some (negsuc 0, y)
  unfolding stop_depth
  stop_depth-stopped y e = rw e refl

  stop_video-stopped :
      (y : Sys W) → y.dev.video.running ≡ false → stop_video usb fuel ibuf y ≡ some (negsuc 0, y)
  unfolding stop_video
  stop_video-stopped y e = rw e refl

  -- Closing the first device of the list.
  pub close_first :
      (c : Core W) (p : ℕ) (ps : List ℕ)
      → 0 < fuel
      → Chain c.devs c.ctx.first (p ∷ ps)
      → AllDistinct (p ∷ ps)
      → AllStopped c.devs (p ∷ ps)
      → (d : Core W) × (close_device usb fuel ibuf p c ≡ some (pos 0, d))
        × Chain d.devs d.ctx.first ps
        × AllStopped d.devs ps
        × (d.devs p ≡ none)
        × (d.slots ≡ c.slots + 1)
        × (d.heap ≡ c.heap)
  unfolding close_device
  close_first c p ps l (e, n, f, k) (a, d) (s, t) =
      let sub = close_subdevices usb n.dev c.world in
      let m : Node = record { dev = sub.0; next = n.next } in
      let st = store_set c.devs p (some m) in
      let here : st p ≡ some m = ground arith in
      let u =
        unlink-IsUnlinked fuel c.ctx.first [] p ps st l
          (e, m, here, Chain-set c.devs n.next ps p (some m) a k) (a, d) in
      let y = sys_of n.dev c in
      let z = s n f in
      (
        record (put_sys p n.next (record y { dev = sub.0; world = sub.1 }) c) {
          ctx = record (c.ctx) { first = u.head };
          devs = u.store;
          slots = c.slots + 1;
        },
        rw (f, stop_depth-stopped y z.0, stop_video-stopped y z.1, u.returns) refl,
        u.chain,
        AllStopped-kept c.devs u.store p (some m) ps a u.states t,
        u.gone,
        refl,
        refl,
      )

  close_all-step :
      (k : ℕ) (c : Core W) (p : ℕ)
      → c.ctx.first ≡ some p
      → close_all usb fuel ibuf (suc k) c
        ≡ (close_device usb fuel ibuf p c >>= λ r. close_all usb fuel ibuf k r.1)
  unfolding close_all
  close_all-step k c p e =
      ap
        (λ (f : Option ℕ). elim f as (λ f. Option (Core W)) [
          | none ↦ some c
          | some q ↦ (close_device usb fuel ibuf q c >>= λ r. close_all usb fuel ibuf k r.1)
        ])
        e

  -- Shutting down. Where the context's list leads through the devices `ps`, all distinct and with no
  -- stream that runs, the loop of `freenect_shutdown` closes them all in one round for each: it ends
  -- with an empty list, and has freed one structure for each device.
  pub close_all-ends :
      (k : ℕ) (c : Core W) (ps : List ℕ)
      → length ps < k
      → 0 < fuel
      → Chain c.devs c.ctx.first ps
      → AllDistinct ps
      → AllStopped c.devs ps
      → (d : Core W) × (close_all usb fuel ibuf k c ≡ some d)
        × (d.ctx.first ≡ none)
        × (d.slots ≡ c.slots + length ps)
  unfolding close_all
  close_all-ends zero c ps l f h a s = absurd (omega arith)
  close_all-ends (suc k) c [] l f h a s = (c, rw h refl, h, omega arith)
  close_all-ends (suc k) c (p ∷ ps) l f h a s =
      let (d, e, g, t, z, n, _) = close_first c p ps f h a s in
      let (b, r, i, m) = close_all-ends k d ps (omega arith) f g a.1 t in
      (b, close_all-step k c p h.0 ∙ rw e r, i, omega (arith, m, n))
