-- ===== src/Tests/Cycles.antt =====
-- The theorems on the plug-in's life cycle, with the small libusb of the tests on devices.
use quartz_composer_open_kin.Core.{no_device, log_warning, core_init}
use quartz_composer_open_kin.Fakenect.{Globals}
use quartz_composer_open_kin.Usb.Bus.{usb_init}
use quartz_composer_open_kin.Fakenect.Api.{
  fake_init, fake_num_devices, fake_open_device, fake_set_user, fake_set_video_format,
  fake_set_depth_format, fake_start_depth, fake_start_video,
}
use quartz_composer_open_kin.Plugin.Life.{join}
use quartz_composer_open_kin.Plugin.Life.{
  null, fake_dev, device, no_thread, starting, looping, shutting, closed, Life, thread_step,
  context, call_on, set_up_streams, step_at,
}
use quartz_composer_open_kin.Plugin.Life.Cycle.{
  here, next, runs, switches, start_execution-Interleavings-Inv,
}
use quartz_composer_open_kin.Plugin.Life.Ended.{ended-shuts}
use quartz_composer_open_kin.Plugin.Life.Execute.{
  choose_driver, open_counted, open_chosen, create_thread, Inputs, change_angle, change_led,
  change_device, start_execution,
}
use quartz_composer_open_kin.Plugin.Life.Inv.{Inv}
use quartz_composer_open_kin.Plugin.Life.Joins.{join-ends, end_from}
use quartz_composer_open_kin.Plugin.Life.Race.{Dangles, changes-race}
use quartz_composer_open_kin.Prelude.{
  ℕ, ◌≡◌, ◌↔◌, ◌==◌, ◌>>=◌, true, false, Option, none, some, [], ◌∷◌, refl, if◌then◌else◌, pos,
  negsuc,
}
use quartz_composer_open_kin.Tests.Devices.{test_usb}
use quartz_composer_open_kin.Tests.Frontends.{heap_of}
use quartz_composer_open_kin.Tilt.{led_red, led_green}

-- No recording is open.
abbrev pub nothing_played : Globals
nothing_played = record {
  cur_depth_cb = none;
  cur_rgb_cb = none;
  input_path = none;
  index_fp = none;
  state = [];
  already_warned = false;
  depth_buffer = none;
  rgb_buffer = none;
  depth_running = false;
  rgb_running = false;
  user_ptr = none;
  played = [];
}

-- The plug-in before Quartz Composer starts it.
abbrev idle : Life ℕ
idle = record {
  die = false;
  f_dev = null;
  freenect_thread = no_thread;
  use_fakenect = false;
  freenect_angle = pos 0;
  freenect_led = led_red;
  accel_count = 0;
  host = record { fakenect_path = none; open_file = λ p. none; scan_name = λ n. none };
  globals = nothing_played;
  core = record {
    ctx = record {
      log_level = log_warning;
      log_cb = none;
      usb = record { ctx = none; should_free_ctx = false };
      first = none;
    };
    devs = λ p. none;
    next_id = 3;
    slots = 1;
    heap = heap_of 4;
    world = 0;
    delivered = [];
  };
}

-- All inputs have changed, and a recording is asked for.
abbrev inputs : Inputs
inputs = record {
  input_angle = negsuc 4;
  input_led = led_green;
  input_device_idx = 9;
  input_use_fakenect = true;
  input_fakenect_data_path = some (b'r' ∷ []);
  angle_changed = true;
  led_changed = true;
  device_changed = true;
  path_exists = true;
  creates = true;
}

abbrev result_of : Option (Life ℕ) → Life ℕ
result_of none = idle
result_of (some t) = t

abbrev started : Life ℕ
started = (start_execution test_usb idle).2

abbrev opened : Life ℕ
opened = result_of (change_device test_usb 10 [] inputs 7 2 [] started)

abbrev playing : Life ℕ
playing = result_of (thread_step test_usb 10 [] 2 [] opened)

start_execution-Interleavings-Inv_example : Inv playing
unfolding change_device start_execution fake_init core_init usb_init open_counted fake_num_devices
    context choose_driver open_chosen fake_open_device create_thread call_on fake_set_user step_at
    set_up_streams fake_set_video_format fake_set_depth_format fake_start_depth fake_start_video
start_execution-Interleavings-Inv_example =
    start_execution-Interleavings-Inv test_usb 10 [] idle playing refl refl (
      next started opened playing (switches inputs 7 2 [] started opened refl)
        (next opened playing playing (runs 2 [] opened playing refl) (here playing)))

-- The driver's thread has closed device 3 and has not cleared `_f_dev` yet.
abbrev dangling : Life ℕ
dangling = record idle { f_dev = device 3; freenect_thread = closed }

changes-race_example :
    ((change_angle test_usb inputs dangling ≡ none) ↔ ((true ≡ true) × Dangles dangling))
    × ((change_led test_usb inputs dangling ≡ none) ↔ ((true ≡ true) × Dangles dangling))
changes-race_example = changes-race test_usb inputs dangling (refl, refl)

-- The driver's thread is in its loop, with device 3.
abbrev in_loop : Life ℕ
in_loop = record idle {
  f_dev = device 3;
  freenect_thread = looping;
  core = record (idle.core) {
    ctx = record (idle.core.ctx) { first = some 3 };
    devs = λ p. if p == 3 then some (record { dev = no_device; next = none }) else none;
  };
}

-- The thread starts again on a recording that has been read to its end.
abbrev again : Life ℕ
again = record idle {
  f_dev = fake_dev;
  freenect_thread = starting;
  use_fakenect = true;
  globals = record nothing_played { index_fp = some [] };
}

ended-shuts_example :
    (t : Life ℕ) × ((thread_step test_usb 2 [] 2 [] again >>= thread_step test_usb 2 [] 2 [])
      ≡ some t)
    × (t.freenect_thread ≡ shutting)
    × (t.globals.played ≡ [])
    × (t.globals.index_fp ≡ some [])
ended-shuts_example = ended-shuts test_usb 2 [] 2 [] again refl refl refl refl refl

join-ends_example :
    join test_usb 2 [] 9 2 [] (record in_loop { die = true })
    ≡ end_from test_usb 2 [] 2 [] looping (record in_loop { die = true })
join-ends_example = join-ends test_usb 2 [] 2 [] 3 (record in_loop { die = true }) refl
