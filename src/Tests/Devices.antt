-- ===== src/Tests/Devices.antt =====
-- The theorems on the device, with a small libusb whose state is a number.
use quartz_composer_open_kin.Core.{no_device}
use quartz_composer_open_kin.Core.Devices.{Store, append_device}
use quartz_composer_open_kin.Core.Links.{append_device-Chain, Chain}
use quartz_composer_open_kin.Device.{Libusb, Sys, Completion, depth_ep}
use quartz_composer_open_kin.Memory.{Heap}
use quartz_composer_open_kin.Prelude.{
  ℕ, zero, suc, ◌+◌, ◌-◌, ◌≡◌, ◌≢◌, ◌⊎◌, true, false, Option, none, some, List, [], ◌∷◌, arith,
  refl, replicate, is_some, is_neg, ℤ, pos, negsuc, ◌==◌, if◌then◌else◌,
}
use quartz_composer_open_kin.Tests.Streams.{small, small_heap}
use quartz_composer_open_kin.Tilt.{parse_tilt, update_tilt_state}
use quartz_composer_open_kin.Tilt.Laws.{IsTilt, update_tilt_state-Outcome, report}
use quartz_composer_open_kin.Usb.Bus.{UsbCtx, open_subdevices, close_subdevices}
use quartz_composer_open_kin.Usb.Bus.Laws.{CountsHandles, open_subdevices-handles}

-- One depth transfer that ended.
abbrev pub ended : Completion
ended = record { endpoint = depth_ep; xfer = 3; completed = false; packets = [] }

-- A libusb that reports one dead transfer for each unit of its state.
abbrev pub one_by_one : ℕ → ℤ × List Completion × ℕ
one_by_one zero = (pos 0, [], zero)
one_by_one (suc n) = (pos 0, ended ∷ [], n)

-- Device 7 is a camera and device 8 a motor.
abbrev pub product : ℕ → ℕ
product d = if d == 7 then 0x02ae else 0x02b0

-- The camera's answer to the register write with tag 0, and the motor's report.
abbrev pub answer : List ℕ
answer = 0x52 ∷ 0x42 ∷ 1 ∷ 0 ∷ 3 ∷ 0 ∷ 0 ∷ 0 ∷ 0xaa ∷ 0xbb ∷ []

-- The state counts the open handles, or the transfers that are still to end.
abbrev pub test_usb : Libusb ℕ
test_usb = record {
  control_transfer = λ h t r v i buf w. (pos 10, if t == 0xc0 then answer else buf, w);
  init = λ w. (pos 0, some 5, w);
  exit = λ p w. w;
  get_device_list = λ c w. (pos 2, 7 ∷ 8 ∷ [], w);
  get_device_descriptor = λ d w. (pos 0, record { id_vendor = 0x45e; id_product = product d });
  open_handle = λ d w. (pos 0, some d, w + 1);
  claim_interface = λ h w. (pos 0, w);
  release_interface = λ h w. w;
  close = λ h w. w - 1;
  free_device_list = λ w. w;
  alloc_transfer = λ n w. (4, w);
  fill_iso_transfer = λ x h e o l n w. w;
  set_iso_packet_lengths = λ x l w. w;
  submit_transfer = λ x w. (pos 0, w);
  cancel_transfer = λ x w. w;
  free_transfer = λ x w. w;
  handle_events = one_by_one;
}

abbrev big_heap : Heap
big_heap = record { next = 1; room = 4000000; fill = 0; block = λ p. none }

abbrev pub fresh : Sys ℕ
fresh = record { dev = no_device; heap = big_heap; world = 0; delivered = [] }

-- A device whose streams run.
abbrev pub running : Sys ℕ
running = record fresh {
  dev = record no_device { depth = small; video = small; depth_cb = some 1 };
  heap = small_heap;
}

update_tilt_state-Outcome_example :
    let out = update_tilt_state test_usb (replicate 10 0) fresh in
    ((out.0 ≡ pos 10)
      × (out.1.dev.raw_state ≡ parse_tilt (report test_usb (replicate 10 0) fresh).1)
      × IsTilt out.1.dev.raw_state)
    ⊎ ((is_neg out.0 ≡ true)
        × (out.1.dev ≡ no_device)
        × ((report test_usb (replicate 10 0) fresh).0 ≢ pos 10))
update_tilt_state-Outcome_example =
    update_tilt_state-Outcome test_usb (replicate 10 0) fresh (omega arith)

test_usb-CountsHandles : CountsHandles test_usb (λ w. w)
test_usb-CountsHandles = record {
  listed = λ c w. refl;
  freed = λ w. refl;
  fails = λ d w e. ground arith;
  opens = λ d w e. refl;
  claims = λ h w. refl;
  releases = λ h w. refl;
  closes = λ h w l. omega arith;
}

abbrev usb_ctx : UsbCtx
usb_ctx = record { ctx = some 5; should_free_ctx = true }

open_subdevices-handles_example :
    let out = open_subdevices test_usb usb_ctx 0 no_device 0 in
    ((out.0 ≡ pos 0)
      × (is_some out.1.usb_cam ≡ true)
      × (is_some out.1.usb_motor ≡ true)
      × (out.2 ≡ 2)
      × ((close_subdevices test_usb out.1 out.2).1 ≡ 0))
    ⊎ ((out.0 ≡ negsuc 0) × (out.2 ≡ 0))
open_subdevices-handles_example =
    open_subdevices-handles test_usb (λ w. w) usb_ctx 0 no_device 0 test_usb-CountsHandles

-- Two open devices, 1 and then 2, and a new one, 3.
abbrev three_devices : Store
three_devices p =
    if p == 1
    then some (record { dev = no_device; next = some 2 })
    else some (record { dev = no_device; next = none })

append_device-Chain_example :
    (first : Option ℕ) × (st : Store) × (append_device 3 (some 1) 3 three_devices
      ≡ some (first, st))
    × Chain st first (1 ∷ 2 ∷ 3 ∷ [])
append_device-Chain_example =
    append_device-Chain 3 (some 1) 3 (1 ∷ 2 ∷ []) three_devices (omega arith)
      (
        refl,
        record { dev = no_device; next = some 2 },
        refl,
        (refl, record { dev = no_device; next = none }, refl, refl),
      )
      ((omega arith, refl), (refl, refl)) (omega arith, (omega arith, refl))
      (refl, record { dev = no_device; next = none }, refl, refl)
