-- ===== src/Tests/Threads.antt =====
-- The theorem on the start of the viewer's driver thread, at a concrete input.
use quartz_composer_open_kin.Camera.Session.Good.{IsGood}
use quartz_composer_open_kin.Camera.Session.Setters.{true-false}
use quartz_composer_open_kin.Camera.Switch.Replies.{Replies}
use quartz_composer_open_kin.Core.{no_device}
use quartz_composer_open_kin.Device.{video_rgb, video_ir_10bit, Sys}
use quartz_composer_open_kin.Prelude.{
  ℕ, true, ◌≡◌, ◌≢◌, ◌≤◌, ◌<◌, some, [], arith, refl, sym, replicate, length-replicate,
}
use quartz_composer_open_kin.Tests.Devices.{test_usb}
use quartz_composer_open_kin.Tests.Frontends.{
  heap_of, heap_of-HoldsBytes, heap_of-IsFresh, set_up, actions, actions-ValidActions,
}
use quartz_composer_open_kin.Viewer.{App, act_all}
use quartz_composer_open_kin.Viewer.Buffers.{IsBuffer, HasBuffers}
use quartz_composer_open_kin.Viewer.Swapped.{buffers}
use mathlib.Core.List.{Perm}
use quartz_composer_open_kin.Viewer.Shown.{IsShown}
use quartz_composer_open_kin.Viewer.Thread.{start_streams}
use quartz_composer_open_kin.Viewer.Thread.Started.{start_streams-act_all}

test_usb-Replies : Replies test_usb (λ w. w)
test_usb-Replies = record { not_empty = λ h buf w. refl; flying_same = λ h kind buf w. refl }

-- A device that was opened, in a heap with the viewer's buffers of `n` bytes.
abbrev opened : ℕ → Sys ℕ
opened n = record {
  dev = no_device;
  heap = record (heap_of n) { room = 9000000 };
  world = 0;
  delivered = [];
}

opened-IsGood : (n : ℕ) → IsGood (opened n)
opened-IsGood n = record {
  bytes = record { fill = (heap_of-HoldsBytes n).fill; blocks = (heap_of-HoldsBytes n).blocks };
  depth = λ on. absurd (true-false (sym on));
  video = λ on. absurd (true-false (sym on));
  format = λ on. absurd (true-false (sym on));
}

module _ (n : ℕ) (long : 921600 ≤ n) where
  buffer : (p : ℕ) → p < 5 → IsBuffer p (opened n).heap
  buffer p l = (p, replicate n 0, refl, ground arith, omega (arith, length-replicate {A = ℕ} n 0))

  opened-HasBuffers : HasBuffers set_up (opened n).heap
  opened-HasBuffers = record {
    depth_mid = buffer 0 (omega arith);
    depth_front = buffer 1 (omega arith);
    rgb_back = buffer 2 (omega arith);
    rgb_mid = buffer 3 (omega arith);
    rgb_front = buffer 4 (omega arith);
    back-mid = λ e. omega arith;
    back-front = λ e. omega arith;
    mid-front = λ e. omega arith;
  }

rgb-ir : video_rgb ≢ video_ir_10bit
rgb-ir e = ground arith

start_streams-act_all_example :
    (z : Sys ℕ) × (b : App ℕ) × (start_streams test_usb 1 [] set_up (opened 921600) ≡ some z)
    × (act_all (replicate 2048 9) actions (record { viewer = set_up; sys = z }) ≡ some b)
    × (z.dev.depth.running ≡ true)
    × (z.dev.video.running ≡ true)
    × IsShown b
    × Perm (buffers b.viewer) (buffers set_up)
start_streams-act_all_example =
    start_streams-act_all test_usb (λ w. w) test_usb-Replies 0 [] (replicate 2048 9)
      (length-replicate {A = ℕ} 2048 9) actions set_up (opened 921600) actions-ValidActions
      (opened-IsGood 921600) (heap_of-IsFresh 921600) refl refl refl
      (opened-HasBuffers 921600 (omega arith)) rgb-ir (omega arith)
