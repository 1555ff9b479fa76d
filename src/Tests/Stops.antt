-- ===== src/Tests/Stops.antt =====
-- The theorems on libusb's events and on stopping a stream, with the small libusb of the tests on
-- devices, and with one that ends the transfers that were cancelled and no other.
use mathlib.Core.List.{
  Mem, Nodup, Nodup-cons, Nodup-nil, not-mem-nil, mem_of_ne_of_mem, mem-cons_of_mem, mem-cons_self,
}
use quartz_composer_open_kin.Camera.Session.Good.{IsGood}
use quartz_composer_open_kin.Camera.Session.Setters.{true-false}
use quartz_composer_open_kin.Camera.Session.Start.{started_depth, started_depth-IsGood}
use quartz_composer_open_kin.Camera.Switch.{init_depth}
use quartz_composer_open_kin.Camera.Switch.Stops.{Halts, depth_blocks}
use quartz_composer_open_kin.Core.{no_device}
use quartz_composer_open_kin.Device.{Sys, Libusb, Completion, depth_ep}
use quartz_composer_open_kin.Memory.{malloc}
use quartz_composer_open_kin.Memory.Frees.{AllAllocated}
use quartz_composer_open_kin.Prelude.{
  ℕ, zero, suc, ◌+◌, ◌<◌, ◌≡◌, true, none, some, List, [], ◌∷◌, arith, refl, inl, length, pos, sym,
  ℤ, ◌==◌, ◌≢◌, if◌then◌else◌, Bool-cases, inr, ==_iff, ◌∙◌,
}
use quartz_composer_open_kin.Tests.Closing.{has-mem}
use quartz_composer_open_kin.Stream.Buffers.{stream_init, init_bufs, init_raw, init_sizes}
use quartz_composer_open_kin.Tests.Devices.{test_usb, one_by_one, ended}
use quartz_composer_open_kin.Tests.Frontends.{heap_of, heap_of-HoldsBytes, heap_of-IsFresh}
use quartz_composer_open_kin.Usb.Iso.{no_isoc, isoc_of, drain, process_events, cancel_all}
use quartz_composer_open_kin.Usb.Iso.Carried.{IsCarried}
use quartz_composer_open_kin.Usb.Iso.Drain.{Cancels, count_on, drain-IsSafe, drain-misses, go_on}
use quartz_composer_open_kin.Usb.Iso.Safe.{AllReported, process_events-IsSafe}

module _ {W : Type 0} (w : W) where
  -- With a depth stream that waits to be started, and two transfers of it.
  abbrev waiting : Sys W
  waiting = record {
    dev = record no_device { depth_isoc = record no_isoc { num_xfers = 2; xfers = 4 ∷ 5 ∷ [] } };
    heap = heap_of 4;
    world = w;
    delivered = [];
  }

  abbrev pub started : Sys W
  started = started_depth waiting

  waiting-IsGood : IsGood waiting
  waiting-IsGood = record {
    bytes = heap_of-HoldsBytes 4;
    depth = λ on. absurd (true-false (sym on));
    video = λ on. absurd (true-false (sym on));
    format = λ on. absurd (true-false (sym on));
  }

  pub started-IsGood : IsGood started
  started-IsGood =
      (started_depth-IsGood waiting (omega arith) (inl refl) (heap_of-IsFresh 4) waiting-IsGood).0

  pub blocks-apart : Nodup (depth_blocks started)
  unfolding init_depth stream_init init_bufs init_raw init_sizes malloc
  blocks-apart = Nodup-cons.1 (has-mem _ _ refl, Nodup-cons.1 (has-mem _ [] refl, Nodup-nil))

  pub blocks-allocated : AllAllocated (depth_blocks started) started.heap
  unfolding init_depth stream_init init_bufs init_raw init_sizes malloc
  blocks-allocated = ((_, refl), ((_, refl), tt))

one_by_one-AllReported : (w : ℕ) → AllReported (one_by_one w).1
one_by_one-AllReported zero = tt
one_by_one-AllReported (suc n) = (tt, tt)

test_usb-Cancels : Cancels test_usb depth_ep (λ w. w) (λ w. w)
test_usb-Cancels = record {
  reported = one_by_one-AllReported;
  counts = λ w. elim w as (λ w. count_on depth_ep (one_by_one w).1 + (one_by_one w).2 ≡ w) [
    | zero ↦ refl
    | suc n ↦ omega arith
  ];
  soon = λ w. elim w as (λ w. 0 < w → (one_by_one w).2 < w) [
    | zero ↦ λ l. l
    | suc n ↦ λ l. omega arith
  ];
  submit_pending = λ x w. refl;
  submit_rounds = λ x w. omega arith;
}

-- What is in flight, and how many transfers were cancelled and are still to be reported.
pub record Flights : Type 0 where
  pub flying : List ℕ
  pub cancelled : ℕ

abbrev without : ℕ → List ℕ → List ℕ
without x [] = []
without x (f ∷ fs) = let rest = without x fs in if x == f then rest else f ∷ rest

abbrev how_often : ℕ → List ℕ → ℕ
how_often x [] = 0
how_often x (f ∷ fs) = (if x == f then 1 else 0) + how_often x fs

abbrev cancel : ℕ → Flights → Flights
cancel x w = record { flying = without x w.flying; cancelled = w.cancelled + how_often x w.flying }

abbrev report_one : ℕ → List ℕ → ℤ × List Completion × Flights
report_one zero fs = (pos 0, [], record { flying = fs; cancelled = zero })
report_one (suc n) fs = (pos 0, ended ∷ [], record { flying = fs; cancelled = n })

-- It reports one cancelled transfer in each round.
abbrev pub flights_usb : Libusb Flights
flights_usb = record {
  control_transfer = λ h t r v i buf w. (pos 10, buf, w);
  init = λ w. (pos 0, some 5, w);
  exit = λ p w. w;
  get_device_list = λ c w. (pos 0, [], w);
  get_device_descriptor = λ d w. (pos 0, record { id_vendor = 0; id_product = 0 });
  open_handle = λ d w. (pos 0, some d, w);
  claim_interface = λ h w. (pos 0, w);
  release_interface = λ h w. w;
  close = λ h w. w;
  free_device_list = λ w. w;
  alloc_transfer = λ n w. (4, w);
  fill_iso_transfer = λ x h e o l n w. w;
  set_iso_packet_lengths = λ x l w. w;
  submit_transfer = λ x w. (pos 0, w);
  cancel_transfer = cancel;
  free_transfer = λ x w. w;
  handle_events = λ w. report_one w.cancelled w.flying;
}

length-without : (x : ℕ) (fs : List ℕ) → length (without x fs) + how_often x fs ≡ length fs
length-without x [] = refl
length-without x (f ∷ fs) = elim (Bool-cases (x == f)) [
  | inl e ↦ rw e (omega (arith, length-without x fs))
  | inr e ↦ rw e (omega (arith, length-without x fs))
]

Mem-without : (x y : ℕ) (fs : List ℕ) → Mem y (without x fs) → Mem y fs × (y ≢ x)
Mem-without x y [] m = absurd (not-mem-nil m)
Mem-without x y (f ∷ fs) m = elim (Bool-cases (x == f)) [
  | inl e ↦ (let (k, n) = Mem-without x y fs (rw e at m) in (mem-cons_of_mem f k, n))
  | inr e ↦ elim (Bool-cases (y == f)) [
    | inl s ↦
        (let same : f ≡ y = sym ((==_iff y f).0 s) in
          (
            rw (← same) mem-cons_self,
            λ t. true-false (sym ((==_iff x f).1 (sym t ∙ sym same)) ∙ e),
          ))
    | inr d ↦
        (let rest = mem_of_ne_of_mem (λ t. true-false (sym ((==_iff y f).1 t) ∙ d)) (rw e at m) in
          let (k, n) = Mem-without x y fs rest in (mem-cons_of_mem f k, n))
  ]
]

none_left : (fs : List ℕ) → ((x : ℕ) → Mem x fs → Mem x []) → length fs ≡ 0
none_left [] c = refl
none_left (f ∷ fs) c = absurd (not-mem-nil (c f mem-cons_self))

pub cancels_all :
    (xs : List ℕ) (w : Flights)
    → ((x : ℕ) → Mem x w.flying → Mem x xs)
    → (cancel_all flights_usb xs w).cancelled ≡ w.cancelled + length w.flying
unfolding cancel_all
cancels_all [] w c = omega (arith, none_left w.flying c)
cancels_all (x ∷ xs) w c =
    let rest =
      cancels_all xs (cancel x w)
        (λ y m. (let (k, n) = Mem-without x y w.flying m in mem_of_ne_of_mem n (c y k))) in
    omega (arith, rest, length-without x w.flying)

pub flights_usb-Cancels : Cancels flights_usb depth_ep (λ w. w.cancelled) (λ w. w.cancelled)
flights_usb-Cancels = record {
  reported = λ w. report_one-AllReported w.cancelled w.flying;
  counts = λ w. report_one-counts w.cancelled w.flying;
  soon = λ w. report_one-soon w.cancelled w.flying;
  submit_pending = λ x w. refl;
  submit_rounds = λ x w. omega arith;
}
  where
    report_one-AllReported : (n : ℕ) (fs : List ℕ) → AllReported (report_one n fs).1
    report_one-AllReported zero fs = tt
    report_one-AllReported (suc n) fs = (tt, tt)

    report_one-counts :
        (n : ℕ) (fs : List ℕ)
        → count_on depth_ep (report_one n fs).1 + (report_one n fs).2.cancelled ≡ n
    report_one-counts zero fs = refl
    report_one-counts (suc n) fs = omega arith

    report_one-soon : (n : ℕ) (fs : List ℕ) → 0 < n → (report_one n fs).2.cancelled < n
    report_one-soon zero fs l = l
    report_one-soon (suc n) fs l = omega arith

abbrev pub flights_usb-Halts : Halts flights_usb depth_ep (λ w. w.flying)
flights_usb-Halts = record {
  patience = 1;
  pending = λ w. w.cancelled;
  rounds = λ w. w.cancelled;
  cancels = flights_usb-Cancels;
  replies = record { not_empty = λ h buf w. refl; flying_same = λ h kind buf w. refl };
  cancel_pending = cancels_all;
  cancel_rounds = λ xs w c. omega (arith, cancels_all xs w c);
}

-- Both transfers are in flight.
abbrev pub both : Flights
both = record { flying = 4 ∷ 5 ∷ []; cancelled = 0 }

abbrev two : ℕ
two = 2

process_events-IsSafe_example :
    (z : Sys ℕ) × (process_events test_usb (started two) ≡ some (pos 0, z))
    × IsGood z
    × IsCarried (started two) z
unfolding init_depth
process_events-IsSafe_example =
    process_events-IsSafe test_usb (started two) (one_by_one-AllReported (started two).world)
      (started-IsGood two)

-- The depth stream runs, and its transfers are cancelled.
abbrev stopping : Sys ℕ
stopping = record (started two) {
  dev = record ((started two).dev) {
    depth_isoc = record ((started two).dev.depth_isoc) { dead = true };
  };
}

stopping-IsGood : IsGood stopping
stopping-IsGood = record {
  bytes = (started-IsGood two).bytes;
  depth = (started-IsGood two).depth;
  video = (started-IsGood two).video;
  format = (started-IsGood two).format;
}

drain-IsSafe_example :
    (z : Sys ℕ) × (drain test_usb 3 depth_ep stopping ≡ some z)
    × ((isoc_of depth_ep z.dev).dead_xfers ≡ (isoc_of depth_ep z.dev).num_xfers)
    × IsGood z
    × IsCarried stopping z
unfolding init_depth
drain-IsSafe_example =
    drain-IsSafe test_usb depth_ep (λ w. w) (λ w. w) test_usb-Cancels 3 stopping stopping-IsGood
      refl refl (omega arith)

-- One transfer more than were ever submitted.
abbrev missing : Sys ℕ
missing = record stopping {
  dev = record (stopping.dev) { depth_isoc = record (stopping.dev.depth_isoc) { num_xfers = 3 } };
}

missing-IsGood : IsGood missing
missing-IsGood = record {
  bytes = (started-IsGood two).bytes;
  depth = (started-IsGood two).depth;
  video = (started-IsGood two).video;
  format = (started-IsGood two).format;
}

drain-misses_example :
    (z : Sys ℕ) × (go_on test_usb depth_ep (λ w. w) (λ w. w) test_usb-Cancels 100 missing ≡ some z)
    × IsGood z
    × ((isoc_of depth_ep z.dev).dead_xfers < (isoc_of depth_ep z.dev).num_xfers)
    × (drain test_usb 100 depth_ep missing ≡ none)
unfolding init_depth
drain-misses_example =
    drain-misses test_usb depth_ep (λ w. w) (λ w. w) test_usb-Cancels 100 missing missing-IsGood
      refl (omega arith)
