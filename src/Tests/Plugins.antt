-- ===== src/Tests/Plugins.antt =====
-- The theorems on the Quartz Composer plug-in at concrete inputs.
use quartz_composer_open_kin.Plugin.Depth.{Settings}
use quartz_composer_open_kin.Plugin.Exchange.{
  renderer, idle, Buffers, callback_lock, callback_move, callback_finish, render, free_buffers,
  enters, moves, leaves, renders, Steps, stop, next,
}
use quartz_composer_open_kin.Plugin.Exchange.Race.{Always, render-races}
use quartz_composer_open_kin.Plugin.Exchange.Turns.{Between, Held, Steps-Held, render-twice}
use quartz_composer_open_kin.Plugin.Render.{bgra8, render_rows}
use quartz_composer_open_kin.Plugin.Render.Pixels.{pixels, render_rows-pixels}
use quartz_composer_open_kin.Tests.Frontends.{heap_of}
use quartz_composer_open_kin.Prelude.{
  drop, ◌++◌, ℕ, ◌≡◌, true, none, some, List, [], ◌∷◌, arith, refl, replicate,
}

-- A plug-in that holds a frame which is not drawn yet, and the driver about to deliver the next one.
abbrev pub exchanging : Buffers
exchanging = record {
  mutex = none;
  phase = idle;
  proc_buf = 2;
  rgb_back = 2;
  rgb_mid = 3;
  rgb_front = 4;
  got_rgb = 1;
  depth_mid = 0;
  depth_front = 1;
}

render-races_example :
    (t : Buffers) × Steps Always exchanging t
    × (t.phase ≡ idle)
    × (t.rgb_front ≡ t.rgb_back)
    × (t.rgb_front ≡ t.proc_buf)
    × (free_buffers t (heap_of 8) ≡ none)
render-races_example = render-races exchanging (heap_of 8) refl refl refl (omega arith)

render-twice_example :
    ((render exchanging).mutex ≡ some renderer)
    × ((render exchanging).rgb_front ≡ 4)
    × ((render exchanging).got_rgb ≡ 1)
    × ((render (render exchanging)).mutex ≡ none)
    × ((render (render exchanging)).got_rgb ≡ 0)
    × ((render (render exchanging)).rgb_front ≡ 3)
render-twice_example = render-twice exchanging refl

-- A whole callback, and a render behind it.
abbrev entered : Buffers
entered = callback_lock exchanging

abbrev exchanged : Buffers
exchanged = callback_finish 2 (callback_move 2 entered)

in_turn : Steps Between exchanging (render exchanged)
unfolding callback_lock callback_move callback_finish
in_turn = next exchanging entered (render exchanged) (enters exchanging refl refl refl) (
    next entered (callback_move 2 entered) (render exchanged) (moves entered 2 refl) (
      next (callback_move 2 entered) exchanged (render exchanged)
        (leaves (callback_move 2 entered) 2 refl)
        (next exchanged (render exchanged) (render exchanged) (renders exchanged refl)
          (stop (render exchanged)))))

Steps-Held_example : Held (render exchanged).phase (render exchanged)
Steps-Held_example =
    Steps-Held exchanging (render exchanged) in_turn
      (refl, ((λ e. omega arith), (λ e. omega arith), λ e. omega arith))

-- A destination of nine bytes.
abbrev destination : List ℕ
destination = replicate 9 0

render_rows-pixels_example :
    render_rows bgra8 (1 ∷ 2 ∷ 3 ∷ 4 ∷ 5 ∷ 6 ∷ []) 2 1 0 destination
    ≡ some (pixels bgra8 (1 ∷ 2 ∷ 3 ∷ 4 ∷ 5 ∷ 6 ∷ []) 0 2 ++ drop 8 destination)
render_rows-pixels_example =
    render_rows-pixels bgra8 (1 ∷ 2 ∷ 3 ∷ 4 ∷ 5 ∷ 6 ∷ []) 2 1 destination (omega arith)
      (omega arith)

abbrev settings : Settings
settings = record {
  use_depth_transform = true;
  t_gamma = replicate 2048 9;
  depth_clamp_max = 2048;
  depth_clamp_min = 3;
}

abbrev wire : List ℕ
wire = replicate 422400 7

abbrev depth_mid : List ℕ
depth_mid = replicate 1228800 0
