-- ===== src/Stream/Process.antt =====
-- `stream_process` of libfreenect/src/cameras.c, cut at the comments of the source: synchronise,
-- account for lost packets, check the header and length, copy and count.
pub mod Stages
pub mod Total
pub mod Writes
pub mod Frames
pub mod Transmitter
pub mod InTurn
pub mod Reassembly
use quartz_composer_open_kin.Prelude.{
  ℕ, ◌+◌, ◌-◌, ◌*◌, ◌%◌, ◌^◌, ◌<◌, ◌≡◌, Bool, true, false, Option, none, some, List, ◌==◌, ltb, leb,
  if◌then◌else◌, ◌&&◌, ◌||◌, not, length, get_or, drop, ◌>>=◌, bit_or, u8,
}
use quartz_composer_open_kin.Memory.{Heap, memcpy}
use quartz_composer_open_kin.Stream.{PacketStream}

-- `struct pkt_hdr` without its padding and unknown bytes; the timestamp is little-endian.
pub record PktHdr : Type 0 where
  pub magic0 : ℕ
  pub magic1 : ℕ
  pub flag : ℕ
  pub seq : ℕ
  pub timestamp : ℕ

-- `sizeof(struct pkt_hdr)`
abbrev pub hdr_size : ℕ
hdr_size = 12

-- The cast of the packet to its header; `stream_process` makes it only for 12 bytes or more.
abbrev pub hdr_of : List ℕ → PktHdr
hdr_of pkt = record {
  magic0 = get_or pkt 0 0;
  magic1 = get_or pkt 1 0;
  flag = get_or pkt 3 0;
  seq = get_or pkt 5 0;
  timestamp =
      get_or pkt 8 0 + 256 * get_or pkt 9 0 + 2 ^ 16 * get_or pkt 10 0 + 2 ^ 24 * get_or pkt 11 0;
}

-- The flags of the first, a middle and the last packet of a frame.
abbrev pub sof : PacketStream → ℕ
sof s = u8 (bit_or s.flag 1)

abbrev pub mof : PacketStream → ℕ
mof s = u8 (bit_or s.flag 2)

abbrev pub eof : PacketStream → ℕ
eof s = u8 (bit_or s.flag 5)

-- Sync if required; `none` drops the packet.
unfoldable pub sync : PacketStream → PktHdr → Option PacketStream
sync s hdr =
    if s.synced
    then some s
    else if hdr.flag == sof s
    then some (record s { synced = true; seq = hdr.seq; pkt_num = 0; valid_pkts = 0; got_pkts = 0 })
    else none

pub data Lost : Type 0 where
  too_many : PacketStream → Lost
  carry_on : PacketStream → ℕ → Lost

-- `hdr->seq - strm->seq` as a `uint8_t`.
abbrev pub lost_count : PacketStream → PktHdr → ℕ
lost_count s hdr = u8 (hdr.seq + 2 ^ 8 - s.seq)

-- Handle lost packets. `left <= lost` for `left = pkts_per_frame - pkt_num`, and `lost - left`, are
-- written without the difference, which is negative where `pkt_num` is past the frame.
unfoldable pub account_lost : PacketStream → PktHdr → Lost
account_lost s hdr =
    if s.seq == hdr.seq
    then carry_on s 0
    else if ltb 5 (lost_count s hdr) || s.variable_length
    then too_many (record s { synced = false })
    else if leb s.pkts_per_frame (s.pkt_num + lost_count s hdr)
    then carry_on
        (record s {
          seq = hdr.seq;
          pkt_num = s.pkt_num + lost_count s hdr - s.pkts_per_frame;
          valid_pkts = s.got_pkts;
          got_pkts = 0;
          timestamp = s.last_timestamp;
          valid_frames = s.valid_frames + 1;
        })
        s.frame_size
    else carry_on (record s { seq = hdr.seq; pkt_num = s.pkt_num + lost_count s hdr }) 0

abbrev pub expected_pkt_size : PacketStream → ℕ
expected_pkt_size s = if s.pkt_num + 1 == s.pkts_per_frame then s.last_pkt_size else s.pkt_size

pub data Verdict : Type 0 where
  accept drop_packet resync : Verdict

-- The two tests of the header's flag.
unfoldable pub fits_fixed : PacketStream → PktHdr → Bool
fits_fixed s hdr =
    (s.pkt_num == 0 && hdr.flag == sof s)
    || ((s.pkt_num + 1 == s.pkts_per_frame && hdr.flag == eof s)
        || (ltb 0 s.pkt_num && (ltb (s.pkt_num + 1) s.pkts_per_frame && hdr.flag == mof s)))

unfoldable pub fits_variable : PacketStream → PktHdr → Bool
fits_variable s hdr =
    (s.pkt_num == 0 && hdr.flag == sof s)
    || (ltb s.pkt_num s.pkts_per_frame && (hdr.flag == eof s || hdr.flag == mof s))

unfoldable pub check_packet : PacketStream → PktHdr → ℕ → Verdict
unfolding fits_fixed fits_variable
check_packet s hdr datalen =
    if not s.variable_length
    then if not (fits_fixed s hdr)
      then resync
      else if ltb (expected_pkt_size s) datalen
      then drop_packet
      else accept
    else if not (fits_variable s hdr)
    then resync
    else if ltb (expected_pkt_size s) datalen
    then resync
    else if ltb datalen (expected_pkt_size s) && not (hdr.flag == eof s)
    then resync
    else accept

-- The counters after a copy, and the size of the frame if this packet ends one.
unfoldable pub count_packet : PacketStream → PktHdr → ℕ → ℕ → ℕ × PacketStream
count_packet s hdr datalen got_frame_size =
    if hdr.flag == eof s
    then (
      s.pkt_num * s.pkt_size + (if s.variable_length then datalen else s.last_pkt_size),
      record s {
        pkt_num = 0;
        seq = u8 (s.seq + 1);
        valid_pkts = s.got_pkts + 1;
        got_pkts = 0;
        last_timestamp = hdr.timestamp;
        timestamp = hdr.timestamp;
        valid_frames = s.valid_frames + 1;
      },
    )
    else (
      got_frame_size,
      record s {
        pkt_num = s.pkt_num + 1;
        seq = u8 (s.seq + 1);
        got_pkts = s.got_pkts + 1;
        last_timestamp = hdr.timestamp;
      },
    )

-- What `stream_process` returns, with the stream and the heap that it leaves.
abbrev pub Processed : Type 0
Processed = ℕ × PacketStream × Heap

unfoldable pub store_packet : PacketStream → PktHdr → List ℕ → ℕ → Heap → Option Processed
unfolding count_packet
store_packet s hdr payload got_frame_size h = do
  h' ← memcpy s.raw_buf (s.pkt_num * s.pkt_size) payload h
  let (got, s') = count_packet s hdr (length payload) got_frame_size
  some (got, s', h')

abbrev pub judge : Verdict → PacketStream → PktHdr → List ℕ → ℕ → Heap → Option Processed
judge accept s hdr payload got h = store_packet s hdr payload got h
judge drop_packet s hdr payload got h = some (got, s, h)
judge resync s hdr payload got h = some (got, record s { synced = false }, h)

abbrev pub after_lost : Lost → PktHdr → List ℕ → Heap → Option Processed
after_lost (too_many s) hdr payload h = some (0, s, h)
after_lost (carry_on s got) hdr payload h =
    judge (check_packet s hdr (length payload)) s hdr payload got h

abbrev pub after_sync :
    Option PacketStream → PacketStream → PktHdr → List ℕ → Heap → Option Processed
after_sync none s hdr payload h = some (0, s, h)
after_sync (some s') s hdr payload h = after_lost (account_lost s' hdr) hdr payload h

-- `pkt` is the `len` bytes of the packet.
unfoldable pub stream_process : PacketStream → List ℕ → Heap → Option Processed
unfolding sync account_lost check_packet store_packet
stream_process s pkt h =
    if ltb (length pkt) hdr_size
    then some (0, s, h)
    else if not ((hdr_of pkt).magic0 == b'R' && (hdr_of pkt).magic1 == b'B')
    then some (0, s, h)
    else after_sync (sync s (hdr_of pkt)) s (hdr_of pkt) (drop hdr_size pkt) h
