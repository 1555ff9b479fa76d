-- ===== src/Tests/Closing.antt =====
-- The theorem on the Escape key of the viewer, behind the session of the tests on the front ends.
use mathlib.Core.List.{Mem, Nodup, Nodup-cons, mem_of_ne_of_mem, not-mem-nil, Nodup-nil}
use quartz_composer_open_kin.Camera.Session.Start.{started_video}
use quartz_composer_open_kin.Memory.{Heap}
use quartz_composer_open_kin.Prelude.{
  ℕ, ◌≡◌, Bool, false, ◌==◌, ◌||◌, none, some, List, [], ◌∷◌, arith, refl, replicate,
  length-replicate,
}
use quartz_composer_open_kin.Tests.Frontends.{
  set_up, actions, actions-ValidActions, before_start, running-IsShown,
}
use quartz_composer_open_kin.Viewer.{App, act_all, close_window}
use quartz_composer_open_kin.Viewer.Swapped.{buffers}
use quartz_composer_open_kin.Viewer.Close.{act_all-closes}

-- Whether a number is in a list.
abbrev pub has : ℕ → List ℕ → Bool
has p [] = false
has p (q ∷ qs) = p == q || has p qs

pub has-mem : (p : ℕ) (qs : List ℕ) → has p qs ≡ false → ¬ Mem p qs
has-mem p [] e m = not-mem-nil m
has-mem p (q ∷ qs) e m =
    has-mem p qs (ground (arith, e)) (mem_of_ne_of_mem (λ s. ground (arith, e, s)) m)

set_up-Nodup : Nodup (buffers set_up)
set_up-Nodup = Nodup-cons.1 (
  has-mem _ _ refl,
  Nodup-cons.1 (
    has-mem _ _ refl,
    Nodup-cons.1 (
      has-mem _ _ refl,
      Nodup-cons.1 (has-mem _ _ refl, Nodup-cons.1 (has-mem _ [] refl, Nodup-nil)),
    ),
  ),
)

act_all-closes_example :
    (b : App ℕ) × (h : Heap) × (act_all
        (replicate 2048 9)
        actions
        (record { viewer = set_up; sys = started_video (before_start 921600) })
      ≡ some b)
    × (close_window b.viewer b.sys.heap ≡ some h)
    × ((q : ℕ) → Mem q (buffers set_up) → h.block q ≡ none)
    × ((q : ℕ) → ¬ Mem q (buffers set_up) → h.block q ≡ b.sys.heap.block q)
act_all-closes_example =
    act_all-closes (replicate 2048 9) (length-replicate {A = ℕ} 2048 9) actions
      (record { viewer = set_up; sys = started_video (before_start 921600) }) actions-ValidActions
      (running-IsShown 921600 (omega arith)) set_up-Nodup
