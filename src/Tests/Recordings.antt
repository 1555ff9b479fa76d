-- ===== src/Tests/Recordings.antt =====
-- The theorems on recorded sessions, for an index of two lines and an image of a few bytes.
use quartz_composer_open_kin.Fakenect.{Host, Globals, Playback}
use quartz_composer_open_kin.Fakenect.Events.{dispatch, play, image, fake_process_events}
use quartz_composer_open_kin.Fakenect.Events.Memory.{fake_process_events-Keeps}
use quartz_composer_open_kin.Fakenect.Events.Faults.{fake_process_events-NoIndex}
use quartz_composer_open_kin.Memory.{Heap, malloc, memcpy, free}
use quartz_composer_open_kin.Memory.Bytes.{SameShape}
use quartz_composer_open_kin.Fakenect.Index.{one_line, skip_line, parse_line, event_of}
use quartz_composer_open_kin.Prelude.{
  ℕ, ◌≡◌, Option, none, some, List, [], ◌∷◌, refl, true, false, inr, ℤ,
}

abbrev second_line : List ℕ
second_line = b'r' ∷ b'-' ∷ b'2' ∷ 10 ∷ []

abbrev recorded : List ℕ
recorded = b'P' ∷ b'6' ∷ 10 ∷ 1 ∷ 2 ∷ 3 ∷ []

-- A folder where every file is the recorded image, and one where no file is.
abbrev full_folder : Host
full_folder = record {
  fakenect_path = some (b'r' ∷ []);
  open_file = λ path. some recorded;
  scan_name = λ line. some (b'd', 7);
}

abbrev empty_folder : Host
empty_folder = record {
  fakenect_path = some (b'r' ∷ []);
  open_file = λ path. none;
  scan_name = λ line. none;
}

-- Depth frames are played, from an index that is open or not.
abbrev playing : Option (List ℕ) → List Playback → Globals
playing index calls = record {
  cur_depth_cb = some 1;
  cur_rgb_cb = none;
  input_path = some (b'r' ∷ []);
  index_fp = index;
  state = [];
  already_warned = false;
  depth_buffer = none;
  rgb_buffer = none;
  depth_running = true;
  rgb_running = false;
  user_ptr = none;
  played = calls;
}

abbrev host_heap : Heap
host_heap = record { next = 0; room = 10; fill = 0; block = λ q. none }

abbrev after_event : Option (ℤ × Globals × Heap)
after_event = fake_process_events full_folder (playing (some second_line) []) host_heap

-- The heap after the event.
abbrev heap_after : Option (ℤ × Globals × Heap) → Heap
heap_after none = host_heap
heap_after (some (r, g, h)) = h

fake_process_events-Keeps_example :
    SameShape host_heap (heap_after after_event) × ((heap_after after_event).room ≡ 10)
unfolding fake_process_events parse_line one_line event_of memcpy malloc dispatch play image
    skip_line free
fake_process_events-Keeps_example =
    fake_process_events-Keeps full_folder (playing (some second_line) [])
      (playing (some []) (record { cb = 1; buf = some 0; offset = 3; timestamp = 7 } ∷ []))
      host_heap (heap_after after_event) (λ q l. refl) refl

fake_process_events-NoIndex_example :
    fake_process_events empty_folder (playing none []) host_heap ≡ none
fake_process_events-NoIndex_example =
    fake_process_events-NoIndex empty_folder (playing none []) host_heap refl
      (inr ((b'r' ∷ []), refl, refl))
