-- ===== src/Core.antt =====
-- libfreenect/src/core.c: contexts and the linked list of their open devices. A device structure is
-- known by the number that its allocation got; `none` is a fault or a loop that has not ended with
-- the fuel given.
pub mod Devices
pub mod Links
pub mod Unlink
pub mod Shutdown
use quartz_composer_open_kin.Core.Devices.{Node, Store, store_set, append_device, unlink}
use quartz_composer_open_kin.Camera.Settings.{set_depth_callback}
use quartz_composer_open_kin.Camera.Switch.{stop_depth, stop_video}
use quartz_composer_open_kin.Device.{
  Libusb, Device, Sys, Delivery, video_rgb, depth_11bit, TiltState,
}
use quartz_composer_open_kin.Memory.{Heap, Pointer}
use quartz_composer_open_kin.Prelude.{
  ℕ, zero, suc, ◌+◌, ◌-◌, Bool, true, false, Option, none, some, List, [], ◌∷◌, ◌==◌, ltb,
  if◌then◌else◌, ◌>>=◌, ℤ, pos, negsuc,
}
use quartz_composer_open_kin.Stream.{PacketStream}
use quartz_composer_open_kin.Usb.Bus.{
  UsbCtx, usb_init, usb_shutdown, open_subdevices, close_subdevices, is_error,
}
use quartz_composer_open_kin.Usb.Iso.{no_isoc}

-- `struct _freenect_context`
pub record Context : Type 0 where
  pub log_level : ℕ
  pub log_cb : Option ℕ
  pub usb : UsbCtx
  pub first : Option ℕ

-- The context and all that its calls change. `slots` is how many more structures malloc can give.
pub record Core (W : Type 0) : Type 0 where
  pub ctx : Context
  pub devs : Store
  pub next_id : ℕ
  pub slots : ℕ
  pub heap : Heap
  pub world : W
  pub delivered : List Delivery

-- `FREENECT_LOG_WARNING`
abbrev pub log_warning : ℕ
log_warning = 2

-- A structure that `memset` cleared.
abbrev pub no_stream : PacketStream
no_stream = record {
  running = false;
  flag = 0;
  synced = false;
  seq = 0;
  got_pkts = 0;
  pkt_num = 0;
  pkts_per_frame = 0;
  pkt_size = 0;
  frame_size = 0;
  last_pkt_size = 0;
  valid_pkts = 0;
  valid_frames = 0;
  variable_length = false;
  last_timestamp = 0;
  timestamp = 0;
  split_bufs = false;
  lib_buf = none;
  usr_buf = none;
  raw_buf = none;
  proc_buf = none;
}

abbrev pub no_device : Device
no_device = record {
  user_data = none;
  usb_cam = none;
  depth_isoc = no_isoc;
  video_isoc = no_isoc;
  depth_cb = none;
  video_cb = none;
  video_format = video_rgb;
  depth_format = depth_11bit;
  cam_tag = 0;
  depth = no_stream;
  video = no_stream;
  usb_motor = none;
  raw_state = record {
    accelerometer_x = pos 0;
    accelerometer_y = pos 0;
    accelerometer_z = pos 0;
    tilt_angle = pos 0;
    tilt_status = 0;
  };
}

module _ {W : Type 0} where
  abbrev pub sys_of : Device → Core W → Sys W
  sys_of d c = record { dev = d; heap = c.heap; world = c.world; delivered = c.delivered }

  -- A device's state put back, with what its calls changed.
  abbrev pub put_sys : ℕ → Option ℕ → Sys W → Core W → Core W
  put_sys p next y c = record c {
    devs = store_set c.devs p (some (record { dev = y.dev; next = next }));
    heap = y.heap;
    world = y.world;
    delivered = y.delivered;
  }

  unfoldable pub set_log_level : ℕ → Core W → Core W
  set_log_level level c = record c { ctx = record (c.ctx) { log_level = level } }

  unfoldable pub set_log_callback : Option ℕ → Core W → Core W
  set_log_callback cb c = record c { ctx = record (c.ctx) { log_cb = cb } }

-- What `fn_log` does with a message: nothing, the callback, or standard error.
pub data Logged : Type 0 where
  not_logged : Logged
  to_callback : ℕ → Logged
  to_stderr : Logged

unfoldable pub fn_log : Context → ℕ → Logged
fn_log c level =
    if ltb c.log_level level
    then not_logged
    else elim (c.log_cb) [ some cb ↦ to_callback cb | none ↦ to_stderr ]

unfoldable pub set_user : Pointer → Device → Device
set_user user d = record d { user_data = user }

unfoldable pub get_user : Device → Pointer
get_user d = d.user_data

module _ {W : Type 0} (usb : Libusb W) where
  -- A new context; its `malloc` is not checked by the code either.
  unfoldable pub core_init : Pointer → W → ℤ × Context × W
  core_init u w =
      let (res, c, w') = usb_init usb u w in
      (res, record { log_level = log_warning; log_cb = none; usb = c; first = none }, w')

  -- The result, the new device where there is one, and the state.
  unfoldable pub open_device : ℕ → ℕ → Core W → Option (ℤ × Option ℕ × Core W)
  open_device fuel index c =
      if c.slots == 0
      then some (negsuc 0, none, c)
      else (let (res, dev, w) = open_subdevices usb c.ctx.usb index no_device c.world in
          let pdev = c.next_id in
          let st = store_set c.devs pdev (some (record { dev = dev; next = none })) in
          if is_error res
          then some (res, none, record c { world = w; next_id = pdev + 1 })
          else (append_device fuel c.ctx.first pdev st >>= λ r. some (
            pos 0,
            some pdev,
            record c {
              ctx = record (c.ctx) { first = r.0 };
              devs = r.1;
              next_id = pdev + 1;
              slots = c.slots - 1;
              world = w;
            },
          )))

  module _ (fuel : ℕ) (ibuf : List ℕ) where
    -- Streams stopped, handles closed, the structure unlinked and freed.
    unfoldable pub close_device : ℕ → Core W → Option (ℤ × Core W)
    close_device p c = do
      n ← c.devs p
      a ← stop_depth usb fuel ibuf (sys_of n.dev c)
      b ← stop_video usb fuel ibuf a.1
      let (dev', w) = close_subdevices usb b.1.dev b.1.world
      let c' = put_sys p n.next (record (b.1) { dev = dev'; world = w }) c
      found ← unlink fuel c.ctx.first none c.ctx.first p c'.devs
      some (elim found [
        | none ↦ (negsuc 0, c')
        | some (f, st) ↦ (
          pos 0,
          record c' { ctx = record (c'.ctx) { first = f }; devs = st; slots = c'.slots + 1 },
        )
      ])

    -- `while (ctx->first) freenect_close_device(ctx->first);`, then `fnusb_shutdown`.
    unfoldable pub close_all : ℕ → Core W → Option (Core W)
    close_all zero c = none
    close_all (suc k) c = elim (c.ctx.first) [
      | none ↦ some c
      | some p ↦ (close_device p c >>= λ r. close_all k r.1)
    ]

    unfoldable pub shutdown : ℕ → Core W → Option (Heap × W)
    shutdown k c = do c' ← close_all k c; some (c'.heap, (usb_shutdown usb c'.ctx.usb c'.world).1)
