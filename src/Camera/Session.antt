-- ===== src/Camera/Session.antt =====
-- A client's session with an open device: packets that arrive on either stream, in any order and with
-- any bytes, between calls of the setters of libfreenect/src/cameras.c.
use quartz_composer_open_kin.Camera.Process.{depth_process, video_process}
use quartz_composer_open_kin.Camera.Settings.{
  set_depth_callback, set_video_callback, set_depth_format, set_video_format, set_depth_buffer,
  set_video_buffer,
}
use quartz_composer_open_kin.Device.{Device, Sys}
use quartz_composer_open_kin.Memory.{Pointer}
use quartz_composer_open_kin.Prelude.{ℕ, Option, none, some, List, [], ◌∷◌, ◌>>=◌, ℤ}
pub mod Good
pub mod Setters
pub mod Safe
pub mod Ready
pub mod Start

-- A packet of a stream, or a call of the client's.
pub data ClientEvent : Type 0 where
  depth_packet video_packet : List ℕ → ClientEvent
  depth_callback video_callback : Option ℕ → ClientEvent
  depth_format video_format : ℕ → ClientEvent
  depth_buffer video_buffer : Pointer → ClientEvent

module _ {W : Type 0} where
  abbrev pub with_dev : Sys W → Device → Sys W
  with_dev y d = record y { dev = d }

  -- The results of the setters are the client's business.
  unfoldable pub handle : ClientEvent → Sys W → Option (Sys W)
  handle (depth_packet pkt) y = depth_process pkt y
  handle (video_packet pkt) y = video_process pkt y
  handle (depth_callback cb) y = some (with_dev y (set_depth_callback cb y.dev))
  handle (video_callback cb) y = some (with_dev y (set_video_callback cb y.dev))
  handle (depth_format fmt) y = some (with_dev y (set_depth_format fmt y.dev).1)
  handle (video_format fmt) y = some (with_dev y (set_video_format fmt y.dev).1)
  handle (depth_buffer buf) y = some (with_dev y (set_depth_buffer buf y.dev).1)
  handle (video_buffer buf) y = some (with_dev y (set_video_buffer buf y.dev).1)

  unfoldable pub handle_all : List ClientEvent → Sys W → Option (Sys W)
  handle_all [] y = some y
  handle_all (e ∷ es) y = do z ← handle e y; handle_all es z
