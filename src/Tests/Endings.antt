-- ===== src/Tests/Endings.antt =====
-- The theorem on the end of the plug-in, with a depth stream that runs and whose transfers libusb ends
-- once they are cancelled.
use mathlib.Core.List.{Mem}
use quartz_composer_open_kin.Core.{log_warning}
use quartz_composer_open_kin.Memory.{Heap}
use quartz_composer_open_kin.Plugin.Life.{null, device, looping, Life}
use quartz_composer_open_kin.Plugin.Life.Execute.{stop_execution}
use quartz_composer_open_kin.Plugin.Life.Stop.{buffer_list}
use quartz_composer_open_kin.Prelude.{ℕ, ◌≡◌, ◌==◌, false, none, some, List, [], if◌then◌else◌, pos}
use quartz_composer_open_kin.Tests.Cycles.{nothing_played}
use quartz_composer_open_kin.Tests.Plugins.{exchanging}
use quartz_composer_open_kin.Tests.Stops.{Flights, flights_usb, both, started}
use quartz_composer_open_kin.Tilt.{led_red}

-- The driver's thread is in its loop, with device 3, whose depth stream runs.
abbrev in_loop : Life Flights
in_loop = record {
  die = false;
  f_dev = device 3;
  freenect_thread = looping;
  use_fakenect = false;
  freenect_angle = pos 0;
  freenect_led = led_red;
  accel_count = 0;
  host = record { fakenect_path = none; open_file = λ p. none; scan_name = λ n. none };
  globals = nothing_played;
  core = record {
    ctx = record {
      log_level = log_warning;
      log_cb = none;
      usb = record { ctx = none; should_free_ctx = false };
      first = some 3;
    };
    devs = λ p. if p == 3 then some (record { dev = (started both).dev; next = none }) else none;
    next_id = 4;
    slots = 1;
    heap = (started both).heap;
    world = both;
    delivered = [];
  };
}

-- In the heap `h` that the calls behind the loop leave, exactly the five buffers are freed.
abbrev Frees : Heap → Type 0
Frees h =
    (h' : Heap) × (w : Flights) × (stop_execution flights_usb 3 [] 2 [] exchanging in_loop
      ≡ some (null, h', w))
    × ((q : ℕ) → Mem q (buffer_list exchanging) → h'.block q ≡ none)
    × ((q : ℕ) → ¬ Mem q (buffer_list exchanging) → h'.block q ≡ h.block q)
