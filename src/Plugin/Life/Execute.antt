-- ===== src/Plugin/Life/Execute.antt =====
-- `startExecution:`, `execute:` and `stopExecution:` of ImageWithKinectPlugIn.mm.
use quartz_composer_open_kin.Core.{core_init, set_log_level, shutdown}
use quartz_composer_open_kin.Device.{Libusb}
use quartz_composer_open_kin.Fakenect.Api.{
  Handle, fake, real, fake_set_user, fake_num_devices, fake_open_device, fake_set_tilt_degs,
  fake_set_led, fake_shutdown, fake_init,
}
use quartz_composer_open_kin.Memory.{Heap, Pointer, malloc}
use quartz_composer_open_kin.Plugin.Exchange.{Buffers, free_buffers}
use quartz_composer_open_kin.Prelude.{
  ℕ, ◌*◌, Bool, true, false, Option, none, some, List, ◌&&◌, leb, if◌then◌else◌, ◌>>=◌, is_some,
  is_neg, ℤ, pos, negsuc,
}
use quartz_composer_open_kin.Tilt.{Led}
use quartz_composer_open_kin.Plugin.Life.{
  DevicePointer, null, fake_dev, device, no_thread, starting, Life, has_thread, context, on_device,
  close_f_dev, join,
}

-- The input ports, with the angle cut to an `int`, and whether they have changed; whether there is a
-- file at the data path, and whether `pthread_create` succeeds.
pub record Inputs : Type 0 where
  pub input_angle : ℤ
  pub input_led : Led
  pub input_device_idx : ℕ
  pub input_use_fakenect : Bool
  pub input_fakenect_data_path : Option (List ℕ)
  pub angle_changed : Bool
  pub led_changed : Bool
  pub device_changed : Bool
  pub path_exists : Bool
  pub creates : Bool

abbrev pub not_null : DevicePointer → Bool
not_null null = false
not_null _ = true

-- What `fakenect_open_device` stores.
abbrev pub pointer : Handle → Option ℕ → DevicePointer
pointer fake p = fake_dev
pointer real (some p) = device p
pointer real none = null

-- `FREENECT_LOG_DEBUG`
abbrev pub log_debug : ℕ
log_debug = 5

module _ {W : Type 0} where
  -- What `_useFakenect` becomes, and the environment.
  unfoldable pub choose_driver : Inputs → Life W → Life W
  choose_driver i s =
      if i.input_use_fakenect && is_some i.input_fakenect_data_path
      then if i.path_exists
        then record s {
          host = record (s.host) { fakenect_path = i.input_fakenect_data_path };
          use_fakenect = true;
        }
        else s
      else record s { use_fakenect = false }

module _ {W : Type 0} (usb : Libusb W) where
  -- The change of the angle and of the LED at the head of `execute:`.
  unfoldable pub change_angle : Inputs → Life W → Option (Life W)
  change_angle i s =
      if i.angle_changed && not_null s.f_dev
      then (on_device
            (λ h x. (let (r, y) = fake_set_tilt_degs usb h i.input_angle 1 x.1 in some (r, x.0, y)))
            s
          >>= λ r. some (record (r.1) { freenect_angle = i.input_angle }))
      else some s

  unfoldable pub change_led : Inputs → Life W → Option (Life W)
  change_led i s =
      if i.led_changed && not_null s.f_dev
      then (on_device (λ h x. (let (r, y) = fake_set_led usb h i.input_led x.1 in some (r, x.0, y)))
            s
          >>= λ r. some r.1)
      else some s

  -- `startExecution:` where the plug-in was stopped, with the calls of malloc in order, and whether it
  -- returns YES.
  unfoldable pub start_execution :
      Life W → Bool × (Pointer × Pointer × Pointer × Pointer × Pointer) × Life W
  start_execution s =
      let (depth_mid, h₁) = malloc (640 * 480 * 4) s.core.heap in
      let (depth_front, h₂) = malloc (640 * 480 * 4) h₁ in
      let (rgb_back, h₃) = malloc (640 * 480 * 3) h₂ in
      let (rgb_mid, h₄) = malloc (640 * 480 * 3) h₃ in
      let (rgb_front, h₅) = malloc (640 * 480 * 3) h₄ in
      let (res, ctx, w) = core_init usb none s.core.world in
      let opened = record (s.core) { ctx = ctx; heap = h₅; world = w } in
      let buffers : Pointer × Pointer × Pointer × Pointer × Pointer =
        (depth_mid, depth_front, rgb_back, rgb_mid, rgb_front) in
      if is_neg res
      then (false, buffers, record s { core = opened })
      else (let logged = set_log_level log_debug opened in
          if is_neg fake_init.0
          then (false, buffers, record s { core = logged })
          else (true, buffers, record s { core = logged; die = false }))

module _ {W : Type 0} (usb : Libusb W) (fuel : ℕ) (ibuf : List ℕ) where
  -- A device that was opened gets its thread.
  unfoldable pub create_thread : Inputs → ℕ → Life W → Option (Life W)
  create_thread i self s = do
    r ←
        on_device
          (λ h x.
            (let (g, d) = fake_set_user h (some self) (x.0, x.1.dev) in
              some (pos 0, g, record (x.1) { dev = d })))
          s
    let t = record (r.1) { freenect_angle = i.input_angle; freenect_led = i.input_led; die = false }
    (if i.creates
        then some (record t { freenect_thread = starting })
        else (close_f_dev usb fuel ibuf t.f_dev t >>= λ u.
            some (record u { f_dev = null; freenect_thread = no_thread })))

  -- The device with the index of the input, or the first.
  unfoldable pub open_chosen : Inputs → ℕ → ℕ → Life W → Option (Life W)
  open_chosen i self nr_devices s = do
    let idx = if leb nr_devices i.input_device_idx then 0 else i.input_device_idx
    (res, h, p, c) ← fake_open_device usb (context s) fuel idx s.core
    (if is_neg res
        then some (record s { core = c; f_dev = null })
        else create_thread i self (record s { core = c; f_dev = pointer h p }))

  -- `if (nr_devices >= 1)`
  unfoldable pub open_counted : Inputs → ℕ → ℤ → Life W → Option (Life W)
  open_counted i self (negsuc n) s = some s
  open_counted i self (pos n) s = if leb 1 n then open_chosen i self n s else some s

  -- The change of the device: the thread of the old one is joined, a new one is started.
  unfoldable pub change_device : Inputs → ℕ → ℕ → List ℕ → Life W → Option (Life W)
  change_device i self rgb_back buf s = do
    s₁ ←
        if has_thread s.freenect_thread
        then join usb fuel ibuf 6 rgb_back buf (record s { die = true })
        else some s
    let s₂ = choose_driver i s₁
    let (nr_devices, w) = fake_num_devices usb (context s₂) s₂.core.ctx.usb s₂.core.world
    open_counted i self nr_devices (record s₂ { core = record (s₂.core) { world = w } })

  unfoldable pub execute : Inputs → ℕ → ℕ → List ℕ → Life W → Option (Life W)
  execute i self rgb_back buf s = do
    s₁ ← change_angle usb i s
    s₂ ← change_led usb i s₁
    if i.device_changed then change_device i self rgb_back buf s₂ else some s₂

  -- `stopExecution:`, with the buffers that it frees at the end. Joining a thread that was never created
  -- is undefined.
  unfoldable pub stop_execution : ℕ → List ℕ → Buffers → Life W → Option (DevicePointer × Heap × W)
  stop_execution rgb_back buf b s = do
    s₁ ←
        (if has_thread s.freenect_thread
          then join usb fuel ibuf 6 rgb_back buf (record s { die = true })
          else none)
    (h, w) ← shutdown usb fuel ibuf fuel s₁.core
    (_, h', w') ← fake_shutdown usb fuel ibuf fake fuel (record (s₁.core) { heap = h; world = w })
    h'' ← free_buffers b h'
    some (s₁.f_dev, h'', w')
