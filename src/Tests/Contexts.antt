-- ===== src/Tests/Contexts.antt =====
-- The theorems on contexts, with their lists of devices, and on the tilt angle.
use quartz_composer_open_kin.Core.{Core, no_device, log_warning, close_all}
use quartz_composer_open_kin.Core.Devices.{Node, Store, unlink}
use quartz_composer_open_kin.Core.Links.{Chain, AllDistinct}
use quartz_composer_open_kin.Core.Shutdown.{close_all-ends}
use quartz_composer_open_kin.Core.Unlink.{IsUnlinked, unlink-IsUnlinked}
use quartz_composer_open_kin.Prelude.{
  ℕ, ◌≡◌, true, false, Option, none, some, List, [], ◌∷◌, arith, refl, ◌==◌, if◌then◌else◌, sym, ℤ,
  pos, negsuc, pos_part, quot, ◌+ℤ◌, ap,
}
use quartz_composer_open_kin.Tests.Devices.{test_usb}
use quartz_composer_open_kin.Tilt.{parse_tilt, wire_angle}
use quartz_composer_open_kin.Tilt.Accessors.{Double, get_tilt_degs, get_tilt_degs-wire_angle}

-- Device 1 before device 2.
abbrev node : Option ℕ → Node
node next = record { dev = no_device; next = next }

abbrev two_devices : Store
two_devices p = if p == 1 then some (node (some 2)) else if p == 2 then some (node none) else none

two_devices-Chain : Chain two_devices (some 1) (1 ∷ 2 ∷ [])
two_devices-Chain = (refl, node (some 2), refl, (refl, node none, refl, refl))

distinct : AllDistinct (1 ∷ 2 ∷ [])
distinct = ((λ e. omega arith, refl), (refl, refl))

unlink-IsUnlinked_example :
    IsUnlinked two_devices (some 1) (1 ∷ []) [] 2 (unlink 2 (some 1) none (some 1) 2 two_devices)
unlink-IsUnlinked_example =
    unlink-IsUnlinked 2 (some 1) (1 ∷ []) 2 [] two_devices (omega arith) two_devices-Chain distinct

abbrev opened : Core ℕ
opened = record {
  ctx = record {
    log_level = log_warning;
    log_cb = none;
    usb = record { ctx = some 5; should_free_ctx = true };
    first = some 1;
  };
  devs = two_devices;
  next_id = 3;
  slots = 0;
  heap = record { next = 1; room = 4000000; fill = 0; block = λ p. none };
  world = 0;
  delivered = [];
}

stopped_node :
    (next : Option ℕ) (n : Node)
    → some (node next) ≡ some n
    → (n.dev.depth.running ≡ false) × (n.dev.video.running ≡ false)
stopped_node next n e =
    let same : node next ≡ n = cc in
    (
      sym (ap (λ (k : Node). k.dev.depth.running) same),
      sym (ap (λ (k : Node). k.dev.video.running) same),
    )

close_all-ends_example :
    (d : Core ℕ) × (close_all test_usb 2 [] 3 opened ≡ some d)
    × (d.ctx.first ≡ none)
    × (d.slots ≡ 2)
close_all-ends_example =
    close_all-ends test_usb 2 [] 3 opened (1 ∷ 2 ∷ []) (omega arith) (omega arith) two_devices-Chain
      distinct ((λ n e. stopped_node (some 2) n e), ((λ n e. stopped_node none n e), tt))

-- Whole numbers in place of doubles, and a report of -7 degrees.
abbrev whole : Double ℤ
whole = record {
  of_int = λ a. a;
  div = λ a b. quot a (pos_part b);
  mul = λ a b. a;
  gravity = pos 10;
}

abbrev tilted : List ℕ
tilted = 0 ∷ 0 ∷ 0 ∷ 0 ∷ 0 ∷ 0 ∷ 0 ∷ 0 ∷ 242 ∷ 0 ∷ []

get_tilt_degs-wire_angle_example : get_tilt_degs whole (parse_tilt tilted) ≡ negsuc 6
unfolding quot ◌+ℤ◌ wire_angle
get_tilt_degs-wire_angle_example =
    get_tilt_degs-wire_angle whole (negsuc 6) tilted (omega arith, omega arith) refl refl
