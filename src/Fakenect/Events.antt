-- ===== src/Fakenect/Events.antt =====
-- `fakenect_process_events` of libfreenect/src/fakenect.c on the fake context.
pub mod Kept
pub mod Memory
pub mod Faults
use quartz_composer_open_kin.Device.{depth_11bit_size, video_rgb_size}
use quartz_composer_open_kin.Fakenect.{Host, Globals}
use quartz_composer_open_kin.Fakenect.Index.{Event, open_index, parse_line, skip_line}
use quartz_composer_open_kin.Memory.{Heap, Pointer, memcpy, free}
use quartz_composer_open_kin.Prelude.{
  ℕ, ◌+◌, Bool, true, false, Option, none, some, List, ◌∷◌, ◌==◌, leb, if◌then◌else◌, is_some,
  length, take, drop, ◌>>=◌, ℤ, pos, negsuc,
}

-- `sizeof(state)`: three 16-bit words, a byte, padding, and a 32-bit enumeration.
abbrev pub state_size : ℕ
state_size = 12

-- `memcpy(buffer, data + off, size)`; to read past the block is a fault.
abbrev pub copy_image : ℕ → ℕ → List ℕ → ℕ → Heap → Option Heap
copy_image buffer off bytes size h =
    if leb (off + size) (length bytes)
    then memcpy (some buffer) 0 (take size (drop off bytes)) h
    else none

-- The frame that a callback gets: the client's buffer where it set one, else the recorded bytes
-- behind their header, and NULL where there is no header.
unfoldable pub image : Pointer → ℕ → ℕ → Heap → Option (Pointer × ℕ × Heap)
image buffer p size h = do
  bytes ← h.block p
  off ← skip_line bytes
  elim off [
    | none ↦ some (none, 0, h)
    | some n ↦ elim buffer [
      | none ↦ some (some p, n, h)
      | some b ↦ (copy_image b n bytes size h >>= λ h'. some (some b, 0, h'))
    ]
  ]

-- An image event: the callback is called where there is one and the stream runs.
unfoldable pub play :
    Option ℕ → Bool → Pointer → ℕ → Event → Globals → Heap → Option (Globals × Heap)
play none running buffer size e g h = some (g, h)
play (some cb) false buffer size e g h = some (g, h)
play (some cb) true buffer size e g h = do
  (buf, off, h') ← image buffer e.image_block size h
  some (
    record g {
      played = record { cb = cb; buf = buf; offset = off; timestamp = e.timestamp } ∷ g.played;
    },
    h',
  )

-- The accelerometer's bytes, or the warning that is given once.
unfoldable pub new_state : Event → Globals → Heap → Option (Globals × Heap)
new_state e g h =
    if e.data_size == state_size
    then (h.block e.image_block >>= λ bytes. some (record g { state = bytes }, h))
    else some (record g { already_warned = true }, h)

-- `switch (type)`
unfoldable pub dispatch : Event → Globals → Heap → Option (Globals × Heap)
dispatch e g h =
    if e.type_code == b'd'
    then play g.cur_depth_cb g.depth_running g.depth_buffer depth_11bit_size e g h
    else if e.type_code == b'r'
    then play g.cur_rgb_cb g.rgb_running g.rgb_buffer video_rgb_size e g h
    else if e.type_code == b'a'
    then new_state e g h
    else some (g, h)

-- A failure of `parse_line` returns -1, with what it allocated.
unfoldable pub fake_process_events : Host → Globals → Heap → Option (ℤ × Globals × Heap)
fake_process_events host g h = do
  (event, g', h') ← parse_line host (if is_some g.index_fp then g else open_index host g) h
  elim event [
    | none ↦ some (negsuc 0, g', h')
    | some e ↦
        (dispatch e g' h' >>= λ r.
        (free (some e.image_block) r.1 >>= λ h''. some (pos 0, r.0, h'')))
  ]
