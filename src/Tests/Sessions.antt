-- ===== src/Tests/Sessions.antt =====
-- The theorems on sessions.
use quartz_composer_open_kin.Camera.Process.Safety.{FitsOrNull}
use quartz_composer_open_kin.Camera.Session.{
  ClientEvent, depth_packet, video_packet, depth_callback, video_format, depth_buffer, video_buffer,
  handle_all,
}
use quartz_composer_open_kin.Camera.Session.Good.{IsGood}
use quartz_composer_open_kin.Camera.Session.Safe.{AllValid, AllValid-shape, handle_all-IsSafe}
use quartz_composer_open_kin.Camera.Session.Start.{
  started_depth, started_video, started_depth-IsGood, started-IsSafe,
}
use quartz_composer_open_kin.Convert.Packed.Value.{AllBelow}
use quartz_composer_open_kin.Core.{no_device}
use quartz_composer_open_kin.Device.{video_ir_10bit, Sys}
use quartz_composer_open_kin.Memory.{Heap}
use quartz_composer_open_kin.Memory.Bytes.{HoldsBytes, SameShape, AllBelow-replicate, some-eq}
use quartz_composer_open_kin.Stream.Buffers.Laws.{IsFresh}
use quartz_composer_open_kin.Prelude.{
  ℕ, ◌≤◌, ◌≡◌, ◌≢◌, none, some, List, [], ◌∷◌, arith, length, refl, inl, inr, ◌⊎◌, ◌==◌,
  if◌then◌else◌, Bool-cases, true, false, replicate, length-replicate,
}

-- A heap with a client's video buffer of `n` bytes in it.
abbrev pub heap_of : ℕ → Heap
heap_of n = record {
  next = 1;
  room = 4000000;
  fill = 170;
  block = λ p. if p == 0 then some (replicate n 0) else none;
}

abbrev client_heap : Heap
client_heap = heap_of 921600

abbrev opened : Sys ℕ
opened = record { dev = no_device; heap = client_heap; world = 0; delivered = [] }

zeros-bytes : (n : ℕ) → AllBelow 256 (replicate n 0)
zeros-bytes n = AllBelow-replicate 256 n 0 (omega arith)

replicate-long : (n b : ℕ) → n ≤ length (replicate n b)
replicate-long n b = omega (arith, length-replicate n b)

pub heap_of-HoldsBytes : (n : ℕ) → HoldsBytes (heap_of n)
heap_of-HoldsBytes n = record {
  fill = omega arith;
  blocks = λ q b e. at q b (Bool-cases (q == 0)) e;
}
  where
    at :
        (q : ℕ) (b : List ℕ)
        → ((q == 0) ≡ true) ⊎ ((q == 0) ≡ false)
        → (heap_of n).block q ≡ some b
        → AllBelow 256 b
    at q b (inl z) e =
        let same : replicate n 0 ≡ b = some-eq (rw z at e) in rw same at (zeros-bytes n)
    at q b (inr k) e = ground arith

pub heap_of-IsFresh : (n : ℕ) → IsFresh (heap_of n)
heap_of-IsFresh n q l = ground arith

off-on : false ≢ true
off-on e = ground arith

opened-IsGood : IsGood opened
opened-IsGood = record {
  bytes = heap_of-HoldsBytes 921600;
  depth = λ on. absurd (off-on on);
  video = λ on. absurd (off-on on);
  format = λ on. absurd (off-on on);
}

-- Packets that are too short, of no camera, and one that begins a frame, between calls of the setters.
abbrev events : List ClientEvent
events =
    depth_callback (some 1)
    ∷ depth_packet (1 ∷ 2 ∷ [])
    ∷ video_buffer (some 0)
    ∷ video_format 3
    ∷ video_packet (0x52 ∷ 0x42 ∷ 0 ∷ 0x81 ∷ 0 ∷ 5 ∷ 0 ∷ 0 ∷ 1 ∷ 2 ∷ 3 ∷ 4 ∷ 9 ∷ 9 ∷ [])
    ∷ depth_buffer none
    ∷ []

client_buffer : FitsOrNull 921600 (some 0) client_heap
client_buffer = inr (0, replicate 921600 0, refl, refl, replicate-long 921600 0)

events-valid : AllValid client_heap events
events-valid =
    (tt, ((omega arith, (omega arith, tt)), (client_buffer, (tt, (bytes, (inl refl, tt))))))
  where
    bytes : AllBelow 256 (0x52 ∷ 0x42 ∷ 0 ∷ 0x81 ∷ 0 ∷ 5 ∷ 0 ∷ 0 ∷ 1 ∷ 2 ∷ 3 ∷ 4 ∷ 9 ∷ 9 ∷ [])
    bytes = ground arith

-- With the depth stream running.
abbrev running_depth : Sys ℕ
running_depth = started_depth opened

running_depth-IsGood :
    IsGood running_depth × SameShape client_heap running_depth.heap × IsFresh running_depth.heap
running_depth-IsGood =
    started_depth-IsGood opened (omega arith) (inl refl) (heap_of-IsFresh 921600) opened-IsGood

handle_all-IsSafe_example :
    (z : Sys ℕ) × (handle_all events running_depth ≡ some z)
    × IsGood z
    × SameShape running_depth.heap z.heap
handle_all-IsSafe_example =
    handle_all-IsSafe events running_depth
      (AllValid-shape client_heap running_depth.heap events (running_depth-IsGood.1) events-valid)
      (running_depth-IsGood.0)

started-IsSafe_example :
    (z : Sys ℕ) × (handle_all events (started_video (started_depth opened)) ≡ some z) × IsGood z
started-IsSafe_example =
    started-IsSafe opened events (heap_of-HoldsBytes 921600) (heap_of-IsFresh 921600) refl refl
      rgb-ir (omega arith) (inl refl) (inl refl) events-valid
  where
    rgb-ir : no_device.video_format ≢ video_ir_10bit
    rgb-ir e = ground arith
