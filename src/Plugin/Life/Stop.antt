-- ===== src/Plugin/Life/Stop.antt =====
-- `stopExecution:` of ImageWithKinectPlugIn.mm while the driver's thread is in its loop.
use quartz_composer_open_kin.Core.{Core, sys_of}
use quartz_composer_open_kin.Core.Devices.{Node}
use quartz_composer_open_kin.Device.{Libusb, Sys}
use quartz_composer_open_kin.Fakenect.{Globals}
use quartz_composer_open_kin.Fakenect.Api.{real}
use quartz_composer_open_kin.Memory.{Heap}
use quartz_composer_open_kin.Plugin.Exchange.{Buffers}
use quartz_composer_open_kin.Plugin.Life.{
  DevicePointer, null, fake_dev, device, no_thread, closed, Life, stop_streams, step_at, join,
}
use quartz_composer_open_kin.Plugin.Life.Inv.{Inv}
use quartz_composer_open_kin.Prelude.{
  ℕ, suc, ◌≡◌, false, Option, none, some, List, [], ◌∷◌, refl, ℤ,
}

-- The blocks that `stopExecution:` frees.
abbrev pub buffer_list : Buffers → List ℕ
buffer_list b = b.depth_mid ∷ b.depth_front ∷ b.rgb_back ∷ b.rgb_mid ∷ b.rgb_front ∷ []

module _ {W : Type 0} (usb : Libusb W) (fuel : ℕ) (ibuf : List ℕ) where
  -- The calls behind the loop end: with the streams of a device of the driver stopped, and the heap `h`
  -- left. The fake device has nothing to end.
  abbrev pub Ends : DevicePointer → Globals → Core W → Heap → Type 0
  Ends null g c h = ⊥
  Ends fake_dev g c h = c.heap ≡ h
  Ends (device p) g c h =
      (n : Node) × (r : ℤ) × (g' : Globals) × (y : Sys W) × (c.devs p ≡ some n)
      × (stop_streams usb (suc fuel) ibuf real (g, sys_of n.dev c) ≡ some (r, g', y))
      × (y.dev.depth.running ≡ false)
      × (y.dev.video.running ≡ false)
      × (y.heap ≡ h)

  -- A plug-in whose thread has ended, with the heap `h`.
  abbrev IsLeft : Heap → Option (Life W) → Type 0
  IsLeft h o =
      (t : Life W) × (o ≡ some t) × (t.f_dev ≡ null) × (t.core.ctx.first ≡ none) × (t.core.heap ≡ h)

  join-closed :
      (k rgb_back : ℕ) (buf : List ℕ) (d : DevicePointer) (s : Life W)
      → join usb
          (suc fuel)
          ibuf
          (suc (suc k))
          rgb_back
          buf
          (record s { f_dev = d; freenect_thread = closed })
        ≡ some (record s { f_dev = null; freenect_thread = no_thread })
  unfolding join step_at
  join-closed k rgb_back buf d s = refl
