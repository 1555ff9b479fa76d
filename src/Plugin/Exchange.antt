-- ===== src/Plugin/Exchange.antt =====
-- The exchange of frames between the driver's thread, in `rgb_cb` of ImageWithKinectPlugIn.mm, and
-- the thread that renders, in `renderToBuffer:` of RGBOutputImageProvider.mm; and the buffers'
-- end in `stopExecution:`. A callback is three steps, between which the other thread may run; the
-- swap of a render is one. `Allowed` says when it may run.
pub mod Race
pub mod Turns
use quartz_composer_open_kin.Memory.{Heap, free}
use quartz_composer_open_kin.Prelude.{
  ℕ, ◌+◌, ◌≡◌, Bool, true, false, Option, none, some, ◌==◌, if◌then◌else◌, ◌>>=◌,
}

pub data Thread : Type 0 where
  driver renderer : Thread

-- Where the driver's thread is: outside the callback, behind the assertion, or behind the call of
-- `fakenect_set_video_buffer`; `rgb` is the frame that was delivered.
pub data Phase : Type 0 where
  idle : Phase
  locked moved : ℕ → Phase

-- `mutex` is who holds `_backbuf_mutex`, and `proc_buf` the buffer that the driver fills next.
pub record Buffers : Type 0 where
  pub mutex : Option Thread
  pub phase : Phase
  pub proc_buf : ℕ
  pub rgb_back : ℕ
  pub rgb_mid : ℕ
  pub rgb_front : ℕ
  pub got_rgb : ℕ
  pub depth_mid : ℕ
  pub depth_front : ℕ

-- The lock, and the assertion that `_rgb_back == rgb`, which the step relation asks for.
unfoldable pub callback_lock : Buffers → Buffers
callback_lock s = record s { mutex = some driver; phase = locked s.proc_buf }

-- `_rgb_back = _rgb_mid`, which the driver is told.
unfoldable pub callback_move : ℕ → Buffers → Buffers
callback_move rgb s = record s { rgb_back = s.rgb_mid; proc_buf = s.rgb_mid; phase = moved rgb }

-- `_rgb_mid = rgb`, the count and the unlock.
unfoldable pub callback_finish : ℕ → Buffers → Buffers
callback_finish rgb s = record s {
  rgb_mid = rgb;
  got_rgb = s.got_rgb + 1;
  mutex = none;
  phase = idle;
}

-- `pthread_mutex_trylock`: whether it returns something else than 0, because the mutex is held.
abbrev pub try_lock : Thread → Option Thread → Bool × Option Thread
try_lock t none = (false, some t)
try_lock t (some u) = (true, some u)

-- The head of `renderToBuffer:`, as it stands: the swap and the unlock are done where the mutex was
-- held already. An unlock frees the mutex whoever holds it.
unfoldable pub render : Buffers → Buffers
render s =
    let (busy, m) = try_lock renderer s.mutex in
    if busy
    then if s.got_rgb == 0
      then record s { mutex = none }
      else record s { rgb_front = s.rgb_mid; rgb_mid = s.rgb_front; got_rgb = 0; mutex = none }
    else record s { mutex = m }

-- The calls of free at the end of `stopExecution:`.
unfoldable pub free_buffers : Buffers → Heap → Option Heap
unfolding free
free_buffers s h = do
  h₁ ← free (some s.depth_mid) h
  h₂ ← free (some s.depth_front) h₁
  h₃ ← free (some s.rgb_back) h₂
  h₄ ← free (some s.rgb_mid) h₃
  free (some s.rgb_front) h₄

pub data Step (Allowed : Buffers → Type 0) : Buffers → Buffers → Type 0 where
  enters :
      (s : Buffers)
      → s.phase ≡ idle
      → s.mutex ≡ none
      → s.rgb_back ≡ s.proc_buf
      → Step Allowed s (callback_lock s)
  moves : (s : Buffers) (rgb : ℕ) → s.phase ≡ locked rgb → Step Allowed s (callback_move rgb s)
  leaves : (s : Buffers) (rgb : ℕ) → s.phase ≡ moved rgb → Step Allowed s (callback_finish rgb s)
  renders : (s : Buffers) → Allowed s → Step Allowed s (render s)

pub data Steps (Allowed : Buffers → Type 0) : Buffers → Buffers → Type 0 where
  stop : (s : Buffers) → Steps Allowed s s
  next : (s t u : Buffers) → Step Allowed s t → Steps Allowed t u → Steps Allowed s u
