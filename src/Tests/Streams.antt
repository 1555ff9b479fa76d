-- ===== src/Tests/Streams.antt =====
-- The theorems on packet streams, for a small stream of seven packets a frame.
use quartz_composer_open_kin.Memory.{Heap}
use quartz_composer_open_kin.Prelude.{
  ℕ, zero, suc, ◌≡◌, true, false, none, some, List, [], ◌∷◌, arith, refl, inl, inr, replicate,
}
use quartz_composer_open_kin.Stream.{PacketStream}
use quartz_composer_open_kin.Stream.Buffers.{stream_init, stream_freebufs}
use quartz_composer_open_kin.Stream.Buffers.Laws.{stream_init-ready, HasRaw}
use quartz_composer_open_kin.Stream.Buffers.Leaks.{stream_freebufs-stream_init, IsRestored}
use quartz_composer_open_kin.Stream.Process.{stream_process}
use quartz_composer_open_kin.Stream.Process.Frames.{stream_process-Outcome, IsCamera, Outcome}
use quartz_composer_open_kin.Stream.Process.Reassembly.{process_all-reassembles, Reassembled}
use quartz_composer_open_kin.Stream.Process.Stages.{IsSized, IsCounted}
use quartz_composer_open_kin.Stream.Process.Total.{stream_process-IsSafe, IsSafe}
use quartz_composer_open_kin.Stream.Process.Transmitter.{packet}

-- A stream of frames of 26 bytes, in six packets of 4 bytes and one of 2.
abbrev pub small : PacketStream
small = record {
  running = true;
  flag = 0x70;
  synced = true;
  seq = 9;
  got_pkts = 0;
  pkt_num = 0;
  pkts_per_frame = 7;
  pkt_size = 4;
  frame_size = 26;
  last_pkt_size = 2;
  valid_pkts = 0;
  valid_frames = 0;
  variable_length = false;
  last_timestamp = 0;
  timestamp = 0;
  split_bufs = false;
  lib_buf = some 0;
  usr_buf = none;
  raw_buf = some 0;
  proc_buf = some 0;
}

abbrev pub frame_buffer : List ℕ
frame_buffer = replicate 26 0

abbrev pub small_heap : Heap
small_heap = record {
  next = 1;
  room = 1000;
  fill = 0xcd;
  block = λ p. elim p [ zero ↦ some frame_buffer | suc n ↦ none ];
}

abbrev empty_heap : Heap
empty_heap = record { next = 1; room = 1000; fill = 0xcd; block = λ p. none }

pub small-IsSized : IsSized small
small-IsSized = record {
  some_size = omega arith;
  some_last = omega arith;
  last_fits = omega arith;
  some_pkts = omega arith;
  fill = refl;
}

pub small-IsCamera : IsCamera small
small-IsCamera = record {
  sized = small-IsSized;
  flagged = inl refl;
  fixed = refl;
  many = omega arith;
}

small-IsCounted : IsCounted small
small-IsCounted = record {
  got = λ e. omega arith;
  num = λ e. omega arith;
  valid = λ e. omega arith;
}

abbrev payloads : List (List ℕ)
payloads =
    (1 ∷ 2 ∷ 3 ∷ 4 ∷ [])
    ∷ (5 ∷ 6 ∷ 7 ∷ 8 ∷ [])
    ∷ (1 ∷ 2 ∷ 3 ∷ 4 ∷ [])
    ∷ (9 ∷ 9 ∷ 9 ∷ 9 ∷ [])
    ∷ (1 ∷ 1 ∷ 1 ∷ 1 ∷ [])
    ∷ (2 ∷ 3 ∷ 5 ∷ 7 ∷ [])
    ∷ (11 ∷ 13 ∷ [])
    ∷ []

abbrev first_packet : List ℕ
first_packet = packet 0x71 9 77 (1 ∷ 2 ∷ 3 ∷ 4 ∷ [])

process_all-reassembles_example : Reassembled small 77 9 0 payloads small_heap
process_all-reassembles_example =
    process_all-reassembles small 77 9 0 payloads small_heap frame_buffer small-IsCamera
      (inr (refl, refl, refl, refl)) (refl, (refl, (refl, (refl, (refl, (refl, (refl, refl)))))))
      refl refl (omega arith)

stream_process-IsSafe_example :
    IsSafe small 0 frame_buffer small_heap (stream_process small first_packet small_heap)
stream_process-IsSafe_example =
    stream_process-IsSafe small first_packet small_heap 0 frame_buffer small-IsSized refl refl
      (omega arith)

stream_process-Outcome_example :
    Outcome small
      (stream_process-IsSafe small first_packet small_heap 0 frame_buffer small-IsSized refl refl
        (omega arith)).out
stream_process-Outcome_example =
    stream_process-Outcome small first_packet small_heap
      (stream_process-IsSafe small first_packet small_heap 0 frame_buffer small-IsSized refl refl
        (omega arith)).out
      small-IsCamera small-IsCounted
      (stream_process-IsSafe small first_packet small_heap 0 frame_buffer small-IsSized refl refl
        (omega arith)).returns

stream_init-ready_example :
    IsSized (stream_init small 10 20 empty_heap).0
    × HasRaw (stream_init small 10 20 empty_heap).0 (stream_init small 10 20 empty_heap).1
stream_init-ready_example =
    stream_init-ready small 10 20 empty_heap (omega arith) (omega arith) (omega arith) (inl refl)

stream_freebufs-stream_init_example :
    (t : PacketStream) × (h : Heap) × (stream_freebufs
        (stream_init small 10 20 empty_heap).0
        (stream_init small 10 20 empty_heap).1
      ≡ some (t, h))
    × IsRestored empty_heap h
    × (t.raw_buf ≡ none)
    × (t.proc_buf ≡ none)
    × (t.lib_buf ≡ none)
stream_freebufs-stream_init_example =
    stream_freebufs-stream_init small 10 20 empty_heap (λ q l. refl)
