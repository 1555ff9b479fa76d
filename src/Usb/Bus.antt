-- ===== src/Usb/Bus.antt =====
-- The devices on the bus, libfreenect/src/usb_libusb10.c: `fnusb_num_devices`, `fnusb_init`,
-- `fnusb_shutdown`, `fnusb_open_subdevices` and `fnusb_close_subdevices`.
pub mod Laws
use quartz_composer_open_kin.Device.{Libusb, Descriptor, Device}
use quartz_composer_open_kin.Memory.{Pointer}
use quartz_composer_open_kin.Prelude.{
  ℕ, zero, suc, ◌+◌, Bool, true, false, Option, none, some, List, [], ◌∷◌, ◌==◌, if◌then◌else◌,
  is_some, not, ◌&&◌, ◌||◌, ℤ, pos, negsuc,
}

abbrev pub vid_microsoft : ℕ
vid_microsoft = 0x45e

abbrev pub pid_nui_camera : ℕ
pid_nui_camera = 0x02ae

abbrev pub pid_nui_motor : ℕ
pid_nui_motor = 0x02b0

-- `fnusb_ctx`
pub record UsbCtx : Type 0 where
  pub ctx : Pointer
  pub should_free_ctx : Bool

-- The handles of `usb_cam` and `usb_motor`, and how many of each kind were passed over.
pub record Search (W : Type 0) : Type 0 where
  pub cam : Option ℕ
  pub motor : Option ℕ
  pub nr_cam : ℕ
  pub nr_mot : ℕ
  pub world : W

-- What one device of the list leads to: on to the next one, or `break`.
pub data Scan (W : Type 0) : Type 0 where
  next_device : Search W → Scan W
  stop_scan : Search W → Scan W

abbrev pub is_error : ℤ → Bool
is_error (pos n) = false
is_error (negsuc n) = true

module _ {W : Type 0} (usb : Libusb W) where
  -- The loop of `fnusb_num_devices`.
  unfoldable pub count_cameras : List ℕ → W → ℕ
  count_cameras [] w = 0
  count_cameras (d ∷ ds) w =
      let (r, desc) = usb.get_device_descriptor d w in
      let rest = count_cameras ds w in
      if is_error r
      then rest
      else if desc.id_vendor == vid_microsoft && desc.id_product == pid_nui_camera
      then suc rest
      else rest

  unfoldable pub num_devices : UsbCtx → W → ℤ × W
  num_devices c w =
      let (cnt, devs, w') = usb.get_device_list c.ctx w in
      if is_error cnt
      then (negsuc 0, w')
      else (pos (count_cameras devs w'), usb.free_device_list w')

  unfoldable pub usb_init : Pointer → W → ℤ × UsbCtx × W
  usb_init none w =
      let (res, p, w') = usb.init w in
      if is_error res
      then (res, record { ctx = none; should_free_ctx = false }, w')
      else (pos 0, record { ctx = p; should_free_ctx = true }, w')
  usb_init (some u) w = (pos 0, record { ctx = some u; should_free_ctx = false }, w)

  unfoldable pub usb_shutdown : UsbCtx → W → UsbCtx × W
  usb_shutdown c w =
      if c.should_free_ctx then (record c { ctx = none }, usb.exit c.ctx w) else (c, w)

  -- Open a device and claim its interface; `none` where that fails, with what was opened closed.
  unfoldable pub open_claim : ℕ → W → Option ℕ × W
  open_claim d w =
      let (res, handle, w₁) = usb.open_handle d w in
      if is_error res || not (is_some handle)
      then (none, w₁)
      else (let (claimed, w₂) = usb.claim_interface handle w₁ in
          if is_error claimed then (none, usb.close handle w₂) else (handle, w₂))

  abbrev pub found_cam : Option ℕ × W → Search W → Scan W
  found_cam (none, w) s = stop_scan (record s { cam = none; world = w })
  found_cam (some h, w) s = next_device (record s { cam = some h; world = w })

  abbrev pub found_motor : Option ℕ × W → Search W → Scan W
  found_motor (none, w) s = stop_scan (record s { motor = none; world = w })
  found_motor (some h, w) s = next_device (record s { motor = some h; world = w })

  unfoldable pub scan_cam : ℕ → ℕ → ℕ → Search W → Scan W
  scan_cam index d product s =
      if not (is_some s.cam) && product == pid_nui_camera
      then if s.nr_cam == index
        then found_cam (open_claim d s.world) s
        else next_device (record s { nr_cam = s.nr_cam + 1 })
      else next_device s

  unfoldable pub scan_motor : ℕ → ℕ → ℕ → Search W → Scan W
  scan_motor index d product s =
      if not (is_some s.motor) && product == pid_nui_motor
      then if s.nr_mot == index
        then found_motor (open_claim d s.world) s
        else next_device (record s { nr_mot = s.nr_mot + 1 })
      else next_device s

  abbrev pub then_scan : Scan W → (Search W → Scan W) → Scan W
  then_scan (next_device s) f = f s
  then_scan (stop_scan s) f = stop_scan s

  -- The body of the search for one device.
  unfoldable pub scan_device : ℕ → ℕ → Search W → Scan W
  scan_device index d s =
      let (r, desc) = usb.get_device_descriptor d s.world in
      if is_error r || not (desc.id_vendor == vid_microsoft)
      then next_device s
      else then_scan (scan_cam index d desc.id_product s) (scan_motor index d desc.id_product)

  unfoldable pub scan_devices : ℕ → List ℕ → Search W → Search W
  scan_devices index [] s = s
  scan_devices index (d ∷ ds) s = elim (scan_device index d s) [
    | next_device s' ↦ scan_devices index ds s'
    | stop_scan s' ↦ s'
  ]

  -- Release and close a handle that is not NULL.
  unfoldable pub give_back : Option ℕ → W → W
  give_back none w = w
  give_back (some h) w = usb.close (some h) (usb.release_interface (some h) w)

  -- The handles are left as they are where the call fails, although they are closed.
  unfoldable pub open_subdevices : UsbCtx → ℕ → Device → W → ℤ × Device × W
  open_subdevices c index dev w =
      let (cnt, devs, w₁) = usb.get_device_list c.ctx w in
      if is_error cnt
      then (negsuc 0, record dev { usb_cam = none; usb_motor = none }, w₁)
      else (let s =
            scan_devices index devs
              (record { cam = none; motor = none; nr_cam = 0; nr_mot = 0; world = w₁ }) in
          let w₂ = usb.free_device_list s.world in
          let dev' = record dev { usb_cam = s.cam; usb_motor = s.motor } in
          if is_some s.cam && is_some s.motor
          then (pos 0, dev', w₂)
          else (negsuc 0, dev', give_back s.motor (give_back s.cam w₂)))

  -- It always returns 0.
  unfoldable pub close_subdevices : Device → W → Device × W
  close_subdevices dev w = (
    record dev { usb_cam = none; usb_motor = none },
    give_back dev.usb_motor (give_back dev.usb_cam w),
  )
