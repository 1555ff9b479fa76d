-- ===== src/Stream.antt =====
-- libfreenect/src/cameras.c, the packet streams: frames reassembled from isochronous packets.
-- `int` fields are never negative here and are native numbers; flags that the code keeps in an
-- `int` and only tests are Booleans. Log lines are not modelled.
pub mod Process
pub mod Buffers
use quartz_composer_open_kin.Prelude.{ℕ, ◌+◌, Bool}
use quartz_composer_open_kin.Memory.{Pointer}

-- `packet_stream`
pub record PacketStream : Type 0 where
  pub running : Bool
  pub flag : ℕ
  pub synced : Bool
  pub seq : ℕ
  pub got_pkts : ℕ
  pub pkt_num : ℕ
  pub pkts_per_frame : ℕ
  pub pkt_size : ℕ
  pub frame_size : ℕ
  pub last_pkt_size : ℕ
  pub valid_pkts : ℕ
  pub valid_frames : ℕ
  pub variable_length : Bool
  pub last_timestamp : ℕ
  pub timestamp : ℕ
  pub split_bufs : Bool
  pub lib_buf : Pointer
  pub usr_buf : Pointer
  pub raw_buf : Pointer
  pub proc_buf : Pointer
