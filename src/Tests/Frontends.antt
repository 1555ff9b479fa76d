-- ===== src/Tests/Frontends.antt =====
-- The theorem on the viewer in a session, at a concrete input.
use quartz_composer_open_kin.Camera.Session.Good.{IsGood}
use quartz_composer_open_kin.Camera.Session.Start.{started_video, started_video-IsGood}
use quartz_composer_open_kin.Camera.Switch.{init_video}
use quartz_composer_open_kin.Convert.Packed.Value.{AllBelow}
use quartz_composer_open_kin.Core.{no_device}
use quartz_composer_open_kin.Device.{video_rgb, video_ir_10bit, Device, Sys}
use quartz_composer_open_kin.Memory.{Heap}
use quartz_composer_open_kin.Memory.Bytes.{
  HoldsBytes, SameShape, Fits-shape, AllBelow-replicate, some-eq,
}
use quartz_composer_open_kin.Prelude.{
  ℕ, ◌≤◌, ◌<◌, ◌≡◌, ◌≢◌, ◌⊎◌, true, false, none, some, List, [], ◌∷◌, arith, refl, inl, inr,
  replicate, length-replicate, ltb, if◌then◌else◌, Bool-cases, pos,
}
use quartz_composer_open_kin.Stream.Buffers.{stream_init, init_bufs, init_raw, init_sizes}
use quartz_composer_open_kin.Stream.Buffers.Laws.{IsFresh}
use quartz_composer_open_kin.Viewer.{
  Viewer, App, Action, depth_packet, video_packet, draw, key, act_all,
}
use quartz_composer_open_kin.Viewer.Buffers.{IsBuffer}
use quartz_composer_open_kin.Viewer.Shown.{IsShown}
use quartz_composer_open_kin.Viewer.Safe.{ValidActions, act_all-IsShown}
use quartz_composer_open_kin.Viewer.Swapped.{buffers}
use mathlib.Core.List.{Perm}

-- A heap with five blocks of `n` bytes.
abbrev pub heap_of : ℕ → Heap
heap_of n = record {
  next = 5;
  room = 4000000;
  fill = 170;
  block = λ p. if ltb p 5 then some (replicate n 0) else none;
}

pub heap_of-HoldsBytes : (n : ℕ) → HoldsBytes (heap_of n)
heap_of-HoldsBytes n = record {
  fill = omega arith;
  blocks = λ q b e. at q b (Bool-cases (ltb q 5)) e;
}
  where
    at :
        (q : ℕ) (b : List ℕ)
        → ((ltb q 5) ≡ true) ⊎ ((ltb q 5) ≡ false)
        → (heap_of n).block q ≡ some b
        → AllBelow 256 b
    at q b (inl z) e =
        let same : replicate n 0 ≡ b = some-eq (rw z at e) in
        rw same at (AllBelow-replicate 256 n 0 (omega arith))
    at q b (inr k) e = ground arith

pub heap_of-IsFresh : (n : ℕ) → IsFresh (heap_of n)
heap_of-IsFresh n q l = ground arith

-- The viewer as `main` and `freenect_threadfunc` set it up.
abbrev pub set_up : Viewer
set_up = record {
  die = false;
  depth_mid = 0;
  depth_front = 1;
  rgb_back = 2;
  rgb_mid = 3;
  rgb_front = 4;
  freenect_angle = pos 0;
  requested_format = video_rgb;
  current_format = video_rgb;
  got_rgb = 0;
  got_depth = 0;
}

abbrev viewed : Device
viewed = record no_device { video = record (no_device.video) { usr_buf = some 2 } }

abbrev pub before_start : ℕ → Sys ℕ
before_start n = record { dev = viewed; heap = heap_of n; world = 0; delivered = [] }

off-on : false ≢ true
off-on e = ground arith

before_start-IsGood : (n : ℕ) → IsGood (before_start n)
before_start-IsGood n = record {
  bytes = heap_of-HoldsBytes n;
  depth = λ on. absurd (off-on on);
  video = λ on. absurd (off-on on);
  format = λ on. absurd (off-on on);
}

rgb-ir : video_rgb ≢ video_ir_10bit
rgb-ir e = ground arith

module _ (n : ℕ) (long : 921600 ≤ n) where
  started_video-ready :
      IsGood (started_video (before_start n))
      × SameShape (heap_of n) (started_video (before_start n)).heap
      × IsFresh (started_video (before_start n)).heap
  started_video-ready =
      started_video-IsGood (before_start n) (omega arith)
        (inr (2, replicate n 0, refl, refl, omega (arith, length-replicate {A = ℕ} n 0)))
        (heap_of-IsFresh n) rgb-ir (before_start-IsGood n)

  buffer : (p : ℕ) → p < 5 → IsBuffer p (started_video (before_start n)).heap
  buffer p l =
      Fits-shape 921600 (some p) (heap_of n) (started_video (before_start n)).heap
        (started_video-ready.1)
        (p, replicate n 0, refl, ground arith, omega (arith, length-replicate {A = ℕ} n 0))

  pub running-IsShown : IsShown (record { viewer = set_up; sys = started_video (before_start n) })
  unfolding init_video stream_init init_bufs init_raw init_sizes
  running-IsShown = record {
    good = started_video-ready.0;
    on = refl;
    format = refl;
    back = refl;
    buffers = record {
      depth_mid = buffer 0 (omega arith);
      depth_front = buffer 1 (omega arith);
      rgb_back = buffer 2 (omega arith);
      rgb_mid = buffer 3 (omega arith);
      rgb_front = buffer 4 (omega arith);
      back-mid = λ e. omega arith;
      back-front = λ e. omega arith;
      mid-front = λ e. omega arith;
    };
  }

abbrev pub actions : List Action
actions =
    draw
    ∷ key b'w'
    ∷ depth_packet (1 ∷ 2 ∷ [])
    ∷ key b'f'
    ∷ video_packet (0x52 ∷ 0x42 ∷ [])
    ∷ draw
    ∷ []

pub actions-ValidActions : ValidActions actions
actions-ValidActions = (
  tt,
  (
    λ e. omega (arith, e),
    (
      (omega arith, (omega arith, tt)),
      (λ e. omega (arith, e), ((omega arith, (omega arith, tt)), (tt, tt))),
    ),
  ),
)

act_all-IsShown_example :
    (b : App ℕ) × (act_all
        (replicate 2048 9)
        actions
        (record { viewer = set_up; sys = started_video (before_start 921600) })
      ≡ some b)
    × IsShown b
    × Perm (buffers b.viewer) (buffers set_up)
act_all-IsShown_example =
    act_all-IsShown (replicate 2048 9) (length-replicate {A = ℕ} 2048 9) actions
      (record { viewer = set_up; sys = started_video (before_start 921600) }) actions-ValidActions
      (running-IsShown 921600 (omega arith))
