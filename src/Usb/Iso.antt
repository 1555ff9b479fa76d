-- ===== src/Usb/Iso.antt =====
-- `iso_callback`, `fnusb_start_iso`, `fnusb_stop_iso` and `fnusb_process_events` of
-- libfreenect/src/usb_libusb10.c. libusb calls back only from `libusb_handle_events`, which returns
-- what completed. `none` is a fault, or a loop that has not ended with the fuel given.
pub mod Laws
pub mod Carried
pub mod Safe
pub mod Quiet
pub mod Drain
pub mod Frees
use quartz_composer_open_kin.Camera.Process.{depth_process, video_process}
use quartz_composer_open_kin.Device.{
  Libusb, Device, Sys, IsocStream, Endpoint, depth_ep, video_ep, Completion,
}
use quartz_composer_open_kin.Memory.{Heap, malloc, free}
use quartz_composer_open_kin.Prelude.{
  ℕ, zero, suc, ◌+◌, ◌*◌, Bool, true, false, Option, none, some, List, [], ◌∷◌, ◌++◌, ltb,
  if◌then◌else◌, is_some, length, take, ◌>>=◌, ℤ, pos,
}

abbrev pub isoc_of : Endpoint → Device → IsocStream
isoc_of depth_ep d = d.depth_isoc
isoc_of video_ep d = d.video_isoc

abbrev pub with_isoc : Endpoint → IsocStream → Device → Device
with_isoc depth_ep s d = record d { depth_isoc = s }
with_isoc video_ep s d = record d { video_isoc = s }

-- `memset(strm, 0, sizeof(*strm))`
abbrev pub no_isoc : IsocStream
no_isoc = record {
  xfers = [];
  xfers_array = none;
  buffer = none;
  num_xfers = 0;
  pkts = 0;
  len = 0;
  dead = false;
  dead_xfers = 0;
}

module _ {W : Type 0} where
  abbrev pub put_isoc : Endpoint → IsocStream → Sys W → Sys W
  put_isoc ep s y = record y { dev = with_isoc ep s y.dev }

  -- `dead_xfers++`
  abbrev pub count_dead : Endpoint → Sys W → Sys W
  count_dead ep y =
      put_isoc ep (record (isoc_of ep y.dev) { dead_xfers = (isoc_of ep y.dev).dead_xfers + 1 }) y

  abbrev pub process_packet : Endpoint → List ℕ → Sys W → Option (Sys W)
  process_packet depth_ep pkt y = depth_process pkt y
  process_packet video_ep pkt y = video_process pkt y

  -- The loop over the packets of a transfer.
  unfoldable pub process_packets : Endpoint → List (List ℕ) → Sys W → Option (Sys W)
  process_packets ep [] y = some y
  process_packets ep (pkt ∷ pkts) y = do y' ← process_packet ep pkt y; process_packets ep pkts y'

module _ {W : Type 0} (usb : Libusb W) where
  unfoldable pub iso_callback : Completion → Sys W → Option (Sys W)
  iso_callback c y =
      let strm = isoc_of c.endpoint y.dev in
      if strm.dead
      then some (count_dead c.endpoint y)
      else if c.completed
      then (process_packets c.endpoint (take strm.pkts c.packets) y >>= λ y'.
          some (record y' { world = (usb.submit_transfer c.xfer y'.world).1 }))
      else some (count_dead c.endpoint y)

  unfoldable pub callbacks : List Completion → Sys W → Option (Sys W)
  callbacks [] y = some y
  callbacks (c ∷ cs) y = do y' ← iso_callback c y; callbacks cs y'

  -- `libusb_handle_events`, with the callbacks that it makes.
  unfoldable pub process_events : Sys W → Option (ℤ × Sys W)
  process_events y = do
    y' ←
        callbacks (usb.handle_events y.world).1 (record y { world = (usb.handle_events y.world).2 })
    some ((usb.handle_events y.world).0, y')

  -- The loop that creates and submits the transfers, with `n` left and `i` done; a failed submission
  -- is only logged.
  unfoldable pub start_xfers : Option ℕ → Endpoint → ℕ → ℕ → ℕ → ℕ → W → List ℕ × W
  start_xfers handle ep pkts len zero i w = ([], w)
  start_xfers handle ep pkts len (suc n) i w =
      let (x, w₁) = usb.alloc_transfer pkts w in
      let w₂ = usb.fill_iso_transfer x handle ep (i * (pkts * len)) (pkts * len) pkts w₁ in
      let w₃ = usb.set_iso_packet_lengths x len w₂ in
      let w₄ = (usb.submit_transfer x w₃).1 in
      let (xs, w₅) = start_xfers handle ep pkts len n (i + 1) w₄ in (x ∷ xs, w₅)

  -- A pointer takes 8 bytes. An array that was not allocated is written through all the same.
  unfoldable pub start_iso : Endpoint → ℕ → ℕ → ℕ → Sys W → Option (Sys W)
  start_iso ep xfers pkts len y =
      let (buffer, h₁) = malloc (xfers * pkts * len) y.heap in
      let (array, h₂) = malloc (8 * xfers) h₁ in
      if is_some array
      then (let (xs, w) = start_xfers y.dev.usb_cam ep pkts len xfers 0 y.world in
          some (
            put_isoc ep
              (record {
                xfers = xs;
                xfers_array = array;
                buffer = buffer;
                num_xfers = xfers;
                pkts = pkts;
                len = len;
                dead = false;
                dead_xfers = 0;
              })
              (record y { heap = h₂; world = w })))
      else none

  unfoldable pub cancel_all : List ℕ → W → W
  cancel_all [] w = w
  cancel_all (x ∷ xs) w = cancel_all xs (usb.cancel_transfer x w)

  unfoldable pub free_all : List ℕ → W → W
  free_all [] w = w
  free_all (x ∷ xs) w = free_all xs (usb.free_transfer x w)

  -- `while (strm->dead_xfers < strm->num_xfers) libusb_handle_events(…)`
  unfoldable pub drain : ℕ → Endpoint → Sys W → Option (Sys W)
  drain zero ep y = none
  drain (suc fuel) ep y =
      let rest = process_events y >>= λ r. drain fuel ep r.1 in
      if ltb (isoc_of ep y.dev).dead_xfers (isoc_of ep y.dev).num_xfers then rest else some y

  unfoldable pub stop_iso : ℕ → Endpoint → Sys W → Option (Sys W)
  stop_iso fuel ep y =
      let strm = record (isoc_of ep y.dev) { dead = true } in
      do
        y₁ ←
            drain fuel ep
              (record (put_isoc ep strm y) { world = cancel_all (isoc_of ep y.dev).xfers y.world })
        h₁ ← free (isoc_of ep y₁.dev).buffer y₁.heap
        h₂ ← free (isoc_of ep y₁.dev).xfers_array h₁
        some (
            put_isoc ep no_isoc
              (record y₁ { heap = h₂; world = free_all (isoc_of ep y₁.dev).xfers y₁.world }))
