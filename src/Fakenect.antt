-- ===== src/Fakenect.antt =====
-- libfreenect/src/fakenect.c: a recorded session in place of a device. The C library's files are the
-- parameter `Host`; the delays between events change no state and are not modelled.
pub mod Index
pub mod Events
pub mod Api
use quartz_composer_open_kin.Memory.{Pointer}
use quartz_composer_open_kin.Prelude.{ℕ, Bool, Option, List}

-- `getenv("FAKENECT_PATH")`, what `fopen` and reading give for a path, and what `sscanf` takes from
-- the name of a recorded file: its type and its timestamp.
pub record Host : Type 0 where
  pub fakenect_path : Option (List ℕ)
  pub open_file : List ℕ → Option (List ℕ)
  pub scan_name : List ℕ → Option (ℕ × ℕ)

-- A call of a callback: which, with what pointer and offset, and the timestamp.
pub record Playback : Type 0 where
  pub cb : ℕ
  pub buf : Pointer
  pub offset : ℕ
  pub timestamp : ℕ

-- The globals of the file. `index_fp` is what is left of the index, `state` the bytes of the tilt
-- state; `played` are the calls of the callbacks, newest first.
pub record Globals : Type 0 where
  pub cur_depth_cb : Option ℕ
  pub cur_rgb_cb : Option ℕ
  pub input_path : Option (List ℕ)
  pub index_fp : Option (List ℕ)
  pub state : List ℕ
  pub already_warned : Bool
  pub depth_buffer : Pointer
  pub rgb_buffer : Pointer
  pub depth_running : Bool
  pub rgb_running : Bool
  pub user_ptr : Pointer
  pub played : List Playback
