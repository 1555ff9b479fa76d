-- ===== src/Stream/Buffers.antt =====
-- `stream_init`, `stream_freebufs` and `stream_setbuf` of libfreenect/src/cameras.c.
pub mod Laws
pub mod Leaks
use quartz_composer_open_kin.Prelude.{
  ℕ, ◌+◌, ◌-◌, ◌/◌, ◌%◌, Bool, true, false, Option, none, some, ◌==◌, if◌then◌else◌, is_some, not,
  ◌&&◌, ◌>>=◌,
}
use quartz_composer_open_kin.Memory.{Heap, Pointer, malloc, free}
use quartz_composer_open_kin.Stream.{PacketStream}

-- The choice of `lib_buf` and `proc_buf`.
unfoldable pub init_bufs : PacketStream → ℕ → Heap → PacketStream × Heap
init_bufs s plen h = elim s.usr_buf [
  | some u ↦ (record s { lib_buf = none; proc_buf = some u }, h)
  | none ↦ (let (p, h') = malloc plen h in (record s { lib_buf = p; proc_buf = p }, h'))
]

-- The choice of `raw_buf`, and the size of a frame.
unfoldable pub init_raw : PacketStream → ℕ → ℕ → Heap → PacketStream × Heap
init_raw s rlen plen h =
    if rlen == 0
    then (record s { split_bufs = false; raw_buf = s.proc_buf; frame_size = plen }, h)
    else (let (p, h') = malloc rlen h in
        (record s { split_bufs = true; raw_buf = p; frame_size = rlen }, h'))

-- The packets of a frame.
unfoldable pub init_sizes : PacketStream → PacketStream
init_sizes s = record s {
  last_pkt_size = if s.frame_size % s.pkt_size == 0 then s.pkt_size else s.frame_size % s.pkt_size;
  pkts_per_frame = (s.frame_size + s.pkt_size - 1) / s.pkt_size;
}

unfoldable pub stream_init : PacketStream → ℕ → ℕ → Heap → PacketStream × Heap
stream_init s rlen plen h =
    let (s₁, h₁) = init_bufs (record s { valid_frames = 0; synced = false }) plen h in
    let (s₂, h₂) = init_raw s₁ rlen plen h₁ in (init_sizes s₂, h₂)

unfoldable pub stream_freebufs : PacketStream → Heap → Option (PacketStream × Heap)
stream_freebufs s h = do
  h₁ ← (if s.split_bufs then free s.raw_buf h else some h)
  h₂ ← free s.lib_buf h₁
  some (record s { raw_buf = none; proc_buf = none; lib_buf = none }, h₂)

-- The result is whether the call returns 0; the other return is -1.
unfoldable pub stream_setbuf : PacketStream → Pointer → Bool × PacketStream
stream_setbuf s pbuf =
    if not s.running
    then (true, record s { usr_buf = pbuf })
    else if not (is_some pbuf) && not (is_some s.lib_buf)
    then (false, s)
    else (let proc = if is_some pbuf then pbuf else s.lib_buf in
        (
          true,
          record s {
            usr_buf = pbuf;
            proc_buf = proc;
            raw_buf = if s.split_bufs then s.raw_buf else proc;
          },
        ))
