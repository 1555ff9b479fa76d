-- ===== src/Usb/Bus/Laws.antt =====
-- Handles are not leaked: a failed search for a camera and its motor closes what it opened.
use quartz_composer_open_kin.Device.{Libusb, Device}
use quartz_composer_open_kin.Prelude.{
  ℕ, ◌+◌, ◌<◌, ◌≡◌, ◌⊎◌, Bool, true, false, Option, none, some, List, [], ◌∷◌, ◌==◌, pos, negsuc,
  arith, refl, inl, inr, Bool-cases, is_some, not, ◌&&◌, ◌||◌, Option-cases,
}
use quartz_composer_open_kin.Usb.Bus.{
  UsbCtx, Search, Scan, next_device, stop_scan, is_error, open_claim, found_cam, found_motor,
  scan_cam, scan_motor, then_scan, scan_device, scan_devices, give_back, open_subdevices,
  close_subdevices, pid_nui_camera, pid_nui_motor, vid_microsoft,
}

abbrev pub one : Option ℕ → ℕ
one none = 0
one (some h) = 1

module _ {W : Type 0} (usb : Libusb W) where
  -- libusb's count of open handles: opening a device adds one where it succeeds, closing one takes
  -- one away, and the other calls do not change it.
  pub record CountsHandles (opened : W → ℕ) : Type 0 where
    pub listed : (c : Option ℕ) (w : W) → opened (usb.get_device_list c w).2 ≡ opened w
    pub freed : (w : W) → opened (usb.free_device_list w) ≡ opened w
    pub fails :
        (d : ℕ) (w : W)
        → is_error (usb.open_handle d w).0 || not (is_some (usb.open_handle d w).1) ≡ true
        → opened (usb.open_handle d w).2 ≡ opened w
    pub opens :
        (d : ℕ) (w : W)
        → is_error (usb.open_handle d w).0 || not (is_some (usb.open_handle d w).1) ≡ false
        → opened (usb.open_handle d w).2 ≡ opened w + 1
    pub claims : (h : Option ℕ) (w : W) → opened (usb.claim_interface h w).1 ≡ opened w
    pub releases : (h : Option ℕ) (w : W) → opened (usb.release_interface h w) ≡ opened w
    pub closes : (h : ℕ) (w : W) → 0 < opened w → opened (usb.close (some h) w) + 1 ≡ opened w

  open_claim-handles :
      (opened : W → ℕ) (d : ℕ) (w : W)
      → CountsHandles opened
      → opened (open_claim usb d w).1 ≡ opened w + one (open_claim usb d w).0
  unfolding open_claim
  open_claim-handles opened d w c =
      elim (Bool-cases
        (is_error (usb.open_handle d w).0 || not (is_some (usb.open_handle d w).1))) [
          | inl e ↦ rw e (omega (arith, c.fails d w e))
          | inr e ↦ elim (Option-cases (usb.open_handle d w).1) [
            | inl n ↦ ground arith
            | inr (h, s) ↦
                (let w₁ = (usb.open_handle d w).2 in
                  let w₂ = (usb.claim_interface (some h) w₁).1 in
                  let o : opened w₁ ≡ opened w + 1 = c.opens d w e in
                  let k : opened w₂ ≡ opened w₁ = c.claims (some h) w₁ in
                  elim (Bool-cases (is_error (usb.claim_interface (some h) w₁).0)) [
                    | inl b ↦ rw (e, s, b) (omega (arith, o, k, c.closes h w₂))
                    | inr b ↦ rw (e, s, b) (omega (arith, o, k))
                  ])
          ]
        ]

  -- The handles that a search has found are open.
  abbrev pub Balanced : (W → ℕ) → ℕ → Search W → Type 0
  Balanced opened n s = opened s.world ≡ n + one s.cam + one s.motor

  abbrev pub BalancedScan : (W → ℕ) → ℕ → Scan W → Type 0
  BalancedScan opened n (next_device s) = Balanced opened n s
  BalancedScan opened n (stop_scan s) = Balanced opened n s

  found_cam-Balanced :
      (opened : W → ℕ) (n : ℕ) (o : Option ℕ × W) (s : Search W)
      → opened o.1 ≡ opened s.world + one o.0
      → s.cam ≡ none
      → Balanced opened n s
      → BalancedScan opened n (found_cam usb o s)
  found_cam-Balanced opened n (none, w) s e z b = ground arith
  found_cam-Balanced opened n (some h, w) s e z b = ground arith

  found_motor-Balanced :
      (opened : W → ℕ) (n : ℕ) (o : Option ℕ × W) (s : Search W)
      → opened o.1 ≡ opened s.world + one o.0
      → s.motor ≡ none
      → Balanced opened n s
      → BalancedScan opened n (found_motor usb o s)
  found_motor-Balanced opened n (none, w) s e z b = ground arith
  found_motor-Balanced opened n (some h, w) s e z b = ground arith

  scan_cam-Balanced :
      (opened : W → ℕ) (n index d product : ℕ) (s : Search W)
      → CountsHandles opened
      → Balanced opened n s
      → BalancedScan opened n (scan_cam usb index d product s)
  unfolding scan_cam
  scan_cam-Balanced opened n index d product s c b =
      elim (Bool-cases (not (is_some s.cam) && product == pid_nui_camera)) [
        | inr e ↦ rw e b
        | inl e ↦ elim (Bool-cases (s.nr_cam == index)) [
          | inr f ↦ rw (e, f) b
          | inl f ↦
              rw (e, f)
                (found_cam-Balanced opened n _ s (open_claim-handles opened d s.world c)
                  (ground arith) b)
        ]
      ]

  scan_motor-Balanced :
      (opened : W → ℕ) (n index d product : ℕ) (s : Search W)
      → CountsHandles opened
      → Balanced opened n s
      → BalancedScan opened n (scan_motor usb index d product s)
  unfolding scan_motor
  scan_motor-Balanced opened n index d product s c b =
      elim (Bool-cases (not (is_some s.motor) && product == pid_nui_motor)) [
        | inr e ↦ rw e b
        | inl e ↦ elim (Bool-cases (s.nr_mot == index)) [
          | inr f ↦ rw (e, f) b
          | inl f ↦
              rw (e, f)
                (found_motor-Balanced opened n _ s (open_claim-handles opened d s.world c)
                  (ground arith) b)
        ]
      ]

  then_scan-Balanced :
      (opened : W → ℕ) (n : ℕ) (f : Search W → Scan W) (r : Scan W)
      → ((s : Search W) → Balanced opened n s → BalancedScan opened n (f s))
      → BalancedScan opened n r
      → BalancedScan opened n (then_scan usb r f)
  then_scan-Balanced opened n f (next_device s) g b = g s b
  then_scan-Balanced opened n f (stop_scan s) g b = b

  scan_device-Balanced :
      (opened : W → ℕ) (n index d : ℕ) (s : Search W)
      → CountsHandles opened
      → Balanced opened n s
      → BalancedScan opened n (scan_device usb index d s)
  unfolding scan_device
  scan_device-Balanced opened n index d s c b =
      let desc = (usb.get_device_descriptor d s.world).1 in
      elim (Bool-cases (
        is_error (usb.get_device_descriptor d s.world).0
        || not (desc.id_vendor == vid_microsoft))) [
          | inl e ↦ rw e b
          | inr e ↦ rw e (
              then_scan-Balanced opened n _ _
                (λ t k. scan_motor-Balanced opened n index d desc.id_product t c k)
                (scan_cam-Balanced opened n index d desc.id_product s c b))
        ]

  scan_devices-Balanced :
      (opened : W → ℕ) (n index : ℕ) (ds : List ℕ) (s : Search W)
      → CountsHandles opened
      → Balanced opened n s
      → Balanced opened n (scan_devices usb index ds s)
  unfolding scan_devices
  scan_devices-Balanced opened n index [] s c b = b
  scan_devices-Balanced opened n index (d ∷ ds) s c b =
      scanned (scan_device usb index d s) (λ t k. scan_devices-Balanced opened n index ds t c k)
        (scan_device-Balanced opened n index d s c b)
    where
      scanned :
          (r : Scan W)
          → ((t : Search W) → Balanced opened n t → Balanced opened n (scan_devices usb index ds t))
          → BalancedScan opened n r
          → Balanced opened n
              (elim r [ next_device t ↦ scan_devices usb index ds t | stop_scan t ↦ t ])
      scanned (next_device t) g k = g t k
      scanned (stop_scan t) g k = k

  give_back-handles :
      (opened : W → ℕ) (h : Option ℕ) (w : W) (n : ℕ)
      → CountsHandles opened
      → opened w ≡ n + one h
      → opened (give_back usb h w) ≡ n
  unfolding give_back
  give_back-handles opened none w n c e = omega arith
  give_back-handles opened (some h) w n c e =
      let r = c.releases (some h) w in
      omega (arith, r, c.closes h (usb.release_interface (some h) w))

  one-some : (o : Option ℕ) → is_some o ≡ true → one o ≡ 1
  one-some none e = ground arith
  one-some (some h) e = refl

  both : (a b : Bool) → (a && b) ≡ true → (a ≡ true) × (b ≡ true)
  both a b e = ground arith

  -- No leaked handles. Where libusb counts open handles, `fnusb_open_subdevices` either returns 0 with
  -- both handles of the device set and two more handles open, which `fnusb_close_subdevices` closes
  -- again, or it returns -1 with as many handles open as before the call.
  pub open_subdevices-handles :
      (opened : W → ℕ) (u : UsbCtx) (index : ℕ) (dev : Device) (w : W)
      → CountsHandles opened
      → let out = open_subdevices usb u index dev w in
        ((out.0 ≡ pos 0)
          × (is_some out.1.usb_cam ≡ true)
          × (is_some out.1.usb_motor ≡ true)
          × (opened out.2 ≡ opened w + 2)
          × (opened (close_subdevices usb out.1 out.2).1 ≡ opened w))
        ⊎ ((out.0 ≡ negsuc 0) × (opened out.2 ≡ opened w))
  unfolding open_subdevices close_subdevices
  open_subdevices-handles opened u index dev w c =
      elim (Bool-cases (is_error (usb.get_device_list u.ctx w).0)) [
        | inl e ↦ rw e (inr (refl, c.listed u.ctx w))
        | inr e ↦
            (let w₁ = (usb.get_device_list u.ctx w).2 in
              let start : Search W = record {
                cam = none;
                motor = none;
                nr_cam = 0;
                nr_mot = 0;
                world = w₁;
              } in
              let s = scan_devices usb index (usb.get_device_list u.ctx w).1 start in
              let b =
                scan_devices-Balanced opened (opened w) index (usb.get_device_list u.ctx w).1 start
                  c (omega (arith, c.listed u.ctx w)) in
              let w₂ = usb.free_device_list s.world in
              let held : opened w₂ ≡ opened w + one s.motor + one s.cam =
                omega (arith, c.freed s.world, b) in
              let back =
                give_back-handles opened s.motor (give_back usb s.cam w₂) (opened w) c
                  (give_back-handles opened s.cam w₂ (opened w + one s.motor) c held) in
              elim (Bool-cases (is_some s.cam && is_some s.motor)) [
                | inr f ↦ rw (e, f) (inr (refl, back))
                | inl f ↦
                    (let t = both _ _ f in
                      rw (e, f)
                        (inl (
                          refl,
                          t.0,
                          t.1,
                          omega (arith, held, one-some s.cam t.0, one-some s.motor t.1),
                          back,
                        )))
              ])
      ]
