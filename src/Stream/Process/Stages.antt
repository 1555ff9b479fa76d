-- ===== src/Stream/Process/Stages.antt =====
-- The stages of `stream_process`, one lemma for each: what it keeps, and how it counts.
use quartz_composer_open_kin.Prelude.{
  ℕ, ◌+◌, ◌*◌, ◌≤◌, ◌<◌, ◌≡◌, ◌≢◌, ◌⊎◌, true, false, some, arith, leb, if◌then◌else◌, ◌==◌, ==_iff,
  inl, inr, ap, Bool-cases,
}
use quartz_composer_open_kin.Stream.{PacketStream}
use quartz_composer_open_kin.Stream.Process.{
  PktHdr, sync, Lost, too_many, carry_on, account_lost, expected_pkt_size, accept, check_packet,
  count_packet, lost_count, sof, mof, eof,
}

-- The sizes that `stream_init` computes: whole packets and a last one that fill the frame.
pub record IsSized (s : PacketStream) : Type 0 where
  pub some_size : 0 < s.pkt_size
  pub some_last : 0 < s.last_pkt_size
  pub last_fits : s.last_pkt_size ≤ s.pkt_size
  pub some_pkts : 0 < s.pkts_per_frame
  pub fill : s.pkts_per_frame * s.pkt_size + s.last_pkt_size ≡ s.frame_size + s.pkt_size

-- What no packet changes: the configuration and the buffers.
pub record IsKept (s t : PacketStream) : Type 0 where
  pub running : t.running ≡ s.running
  pub flag : t.flag ≡ s.flag
  pub pkts_per_frame : t.pkts_per_frame ≡ s.pkts_per_frame
  pub pkt_size : t.pkt_size ≡ s.pkt_size
  pub frame_size : t.frame_size ≡ s.frame_size
  pub last_pkt_size : t.last_pkt_size ≡ s.last_pkt_size
  pub variable_length : t.variable_length ≡ s.variable_length
  pub split_bufs : t.split_bufs ≡ s.split_bufs
  pub lib_buf : t.lib_buf ≡ s.lib_buf
  pub usr_buf : t.usr_buf ≡ s.usr_buf
  pub raw_buf : t.raw_buf ≡ s.raw_buf
  pub proc_buf : t.proc_buf ≡ s.proc_buf

pub IsKept-refl : (s : PacketStream) → IsKept s s
IsKept-refl s = ground arith

pub IsKept-trans : {s t u : PacketStream} → IsKept s t → IsKept t u → IsKept s u
IsKept-trans k l = ground arith

-- A synchronised stream counts within the frame.
pub record IsCounted (s : PacketStream) : Type 0 where
  pub got : s.synced ≡ true → s.got_pkts ≤ s.pkt_num
  pub num : s.synced ≡ true → s.pkt_num < s.pkts_per_frame
  pub valid : s.synced ≡ true → s.valid_pkts ≤ s.pkts_per_frame

pub sync-IsKept :
    (s : PacketStream) (hdr : PktHdr) {t : PacketStream} → sync s hdr ≡ some t → IsKept s t
unfolding sync
sync-IsKept s hdr e = ground arith

pub sync-IsCounted :
    (s : PacketStream) (hdr : PktHdr) {t : PacketStream}
    → 0 < s.pkts_per_frame
    → IsCounted s
    → sync s hdr ≡ some t
    → IsCounted t × (t.synced ≡ true) × (t.valid_frames ≡ s.valid_frames)
unfolding sync
sync-IsCounted s hdr p c e = ground arith

-- What either outcome of the account of lost packets leaves.
abbrev pub lost_stream : Lost → PacketStream
lost_stream (too_many s) = s
lost_stream (carry_on s got) = s

pub account_lost-IsKept :
    (s : PacketStream) (hdr : PktHdr) → IsKept s (lost_stream (account_lost s hdr))
unfolding account_lost
account_lost-IsKept s hdr = ground arith

-- After lost packets the count is still within a frame of more than five packets.
pub account_lost-IsCounted :
    (s : PacketStream) (hdr : PktHdr)
    → 5 < s.pkts_per_frame
    → s.synced ≡ true
    → IsCounted s
    → IsCounted (lost_stream (account_lost s hdr))
unfolding account_lost
account_lost-IsCounted s hdr p y c = ground (arith, c.got y, c.num y, c.valid y)

-- A frame cut short by lost packets is counted and reported with its full size.
pub account_lost-frames :
    (s : PacketStream) (hdr : PktHdr) {t : PacketStream} {got : ℕ}
    → s.synced ≡ true
    → account_lost s hdr ≡ carry_on t got
    → (t.synced ≡ true)
      × (((got ≡ 0) × (t.valid_frames ≡ s.valid_frames))
          ⊎ ((got ≡ s.frame_size) × (t.valid_frames ≡ s.valid_frames + 1)))
unfolding account_lost
account_lost-frames s hdr y e =
    elim (Bool-cases (leb s.pkts_per_frame (s.pkt_num + lost_count s hdr))) [
      | inl le ↦ ground arith
      | inr gt ↦ ground arith
    ]

-- An accepted packet stays within the part of the frame that is left.
pub check_packet-bound :
    (s : PacketStream) (hdr : PktHdr) (datalen : ℕ)
    → check_packet s hdr datalen ≡ accept
    → (datalen ≤ expected_pkt_size s) × ((s.pkt_num ≡ 0) ⊎ (s.pkt_num < s.pkts_per_frame))
unfolding check_packet
check_packet-bound s hdr datalen e = ground arith

le-mul_right : (a b c : ℕ) → a ≤ b → a * c ≤ b * c
le-mul_right a b c h = grind arith

two_more : (n k size : ℕ) → n + 2 ≤ k → n * size + 2 * size ≤ k * size
two_more n k size h = omega (arith, le-mul_right (n + 2) k size h)

one_more : (n k size : ℕ) → n + 1 ≡ k → n * size + size ≡ k * size
one_more n k size h = omega (arith, ap (λ (t : ℕ). t * size) h)

-- The data of packet `n` of `k` ends within the frame.
packet_fits :
    (n k size last frame d : ℕ)
    → n < k
    → last ≤ size
    → k * size + last ≡ frame + size
    → d ≤ (if n + 1 == k then last else size)
    → n * size + d ≤ frame
packet_fits n k size last frame d p l f b = elim (Bool-cases (n + 1 == k)) [
  | inl e ↦ (let e' = (==_iff (n + 1) k).0 e in omega (arith, one_more n k size e', rw e at b))
  | inr ne ↦ (let h : n + 2 ≤ k = ground arith in omega (arith, two_more n k size h, rw ne at b))
]

-- Where an accepted packet's data lies in the frame.
pub accept-fits :
    (s : PacketStream) (hdr : PktHdr) (datalen : ℕ)
    → IsSized s
    → check_packet s hdr datalen ≡ accept
    → s.pkt_num * s.pkt_size + datalen ≤ s.frame_size
accept-fits s hdr datalen z e =
    packet_fits s.pkt_num s.pkts_per_frame s.pkt_size s.last_pkt_size s.frame_size datalen
      (omega (arith, z.some_pkts, check_packet-bound s hdr datalen e)) z.last_fits z.fill
      (check_packet-bound s hdr datalen e).0

-- A frame that ends by its last packet has the full size.
pub last-fits :
    (s : PacketStream)
    → IsSized s
    → s.pkt_num + 1 ≡ s.pkts_per_frame
    → s.pkt_num * s.pkt_size + s.last_pkt_size ≡ s.frame_size
last-fits s z e = omega (arith, z.fill, one_more s.pkt_num s.pkts_per_frame s.pkt_size e)

-- The flag bytes of the two cameras' streams.
abbrev pub IsCameraFlag : ℕ → Type 0
IsCameraFlag f = (f ≡ 0x70) ⊎ (f ≡ 0x80)

pub flags-ne : (s : PacketStream) → IsCameraFlag s.flag → (sof s ≢ eof s) × (mof s ≢ eof s)
flags-ne s (inl e) = rw e (omega arith)
flags-ne s (inr e) = rw e (omega arith)

-- With fixed packets only the last one of a frame carries the end flag.
pub accept-eof :
    (s : PacketStream) (hdr : PktHdr) (datalen : ℕ)
    → IsCameraFlag s.flag
    → s.variable_length ≡ false
    → check_packet s hdr datalen ≡ accept
    → ((hdr.flag ≡ eof s) × (s.pkt_num + 1 ≡ s.pkts_per_frame))
      ⊎ ((hdr.flag ≢ eof s) × ((s.pkt_num ≡ 0) ⊎ (s.pkt_num + 1 < s.pkts_per_frame)))
unfolding check_packet
accept-eof s hdr datalen f v e = ground (arith, flags-ne s f)

-- The counters after a copy.
pub count_packet-IsKept :
    (s : PacketStream) (hdr : PktHdr) (datalen got : ℕ)
    → IsKept s (count_packet s hdr datalen got).1
unfolding count_packet
count_packet-IsKept s hdr datalen got = ground arith

pub count_packet-IsCounted :
    (s : PacketStream) (hdr : PktHdr) (datalen got : ℕ)
    → 1 < s.pkts_per_frame
    → s.synced ≡ true
    → IsCounted s
    → ((hdr.flag ≡ eof s) × (s.pkt_num + 1 ≡ s.pkts_per_frame))
      ⊎ ((hdr.flag ≢ eof s) × ((s.pkt_num ≡ 0) ⊎ (s.pkt_num + 1 < s.pkts_per_frame)))
    → IsCounted (count_packet s hdr datalen got).1
unfolding count_packet
count_packet-IsCounted s hdr datalen got p y c h = ground (arith, c.got y, c.num y, c.valid y)
