-- ===== src/Stream/Process/InTurn.antt =====
-- One packet that comes in its turn.
use quartz_composer_open_kin.Prelude.{
  ℕ, ◌+◌, ◌*◌, ◌≤◌, ◌<◌, ◌≡◌, true, false, some, List, [], ◌∷◌, arith, length, refl, ltb, ◌==◌,
  if◌then◌else◌, ◌∙◌, ◌>>=◌, u8, ap, ap₂,
}
use quartz_composer_open_kin.Memory.{Heap}
use quartz_composer_open_kin.Memory.Laws.{stored, blitted}
use quartz_composer_open_kin.Stream.{PacketStream}
use quartz_composer_open_kin.Stream.Process.{
  PktHdr, hdr_of, accept, check_packet, count_packet, stream_process, sync, account_lost, judge,
  carry_on,
}
use quartz_composer_open_kin.Stream.Process.Stages.{IsKept, flags-ne, last-fits, accept-fits}
use quartz_composer_open_kin.Stream.Process.Frames.{IsCamera, IsCamera-kept}
use quartz_composer_open_kin.Stream.Process.Total.{store_packet-returns}
use quartz_composer_open_kin.Stream.Process.Transmitter.{
  process_all, packet, flag_at, transmit, FillsFrame,
}

pub expected_accept :
    (s : PacketStream) (seq ts : ℕ) (d : List ℕ)
    → s.variable_length ≡ false
    → s.pkt_num < s.pkts_per_frame
    → length d ≡ (if s.pkt_num + 1 == s.pkts_per_frame then s.last_pkt_size else s.pkt_size)
    → check_packet s (hdr_of (packet (flag_at s s.pkt_num) seq ts d)) (length d) ≡ accept
unfolding check_packet
expected_accept s seq ts d v k l = ground arith

pub in_turn :
    (s : PacketStream) (hdr : PktHdr) → hdr.seq ≡ s.seq → account_lost s hdr ≡ carry_on s 0
unfolding account_lost
in_turn s hdr e = ground arith

pub packet_enters :
    (s : PacketStream) (flag ts : ℕ) (d : List ℕ) (h : Heap)
    → s.synced ≡ true
    → let hdr = hdr_of (packet flag s.seq ts d) in
      stream_process s (packet flag s.seq ts d) h
      ≡ judge (check_packet s hdr (length d)) s hdr d 0 h
packet_enters s flag ts d h y =
    let hdr = hdr_of (packet flag s.seq ts d) in
    let long : ltb (length (packet flag s.seq ts d)) 12 ≡ false = ground arith in
    let synced : sync s hdr ≡ some s = unfold sync in rw y in
    unfold stream_process in rw (long, synced, in_turn s hdr refl)

-- A packet that comes in its turn is copied and counted.
pub packet_in_turn :
    (s : PacketStream) (ts : ℕ) (d : List ℕ) (h : Heap) (p : ℕ) (buf : List ℕ)
    → IsCamera s
    → s.synced ≡ true
    → s.pkt_num < s.pkts_per_frame
    → length d ≡ (if s.pkt_num + 1 == s.pkts_per_frame then s.last_pkt_size else s.pkt_size)
    → s.raw_buf ≡ some p
    → h.block p ≡ some buf
    → s.frame_size ≤ length buf
    → stream_process s (packet (flag_at s s.pkt_num) s.seq ts d) h
      ≡ some (
        (count_packet s (hdr_of (packet (flag_at s s.pkt_num) s.seq ts d)) (length d) 0).0,
        (count_packet s (hdr_of (packet (flag_at s s.pkt_num) s.seq ts d)) (length d) 0).1,
        stored h p (blitted (s.pkt_num * s.pkt_size) d buf),
      )
packet_in_turn s ts d h p buf m y k l r e f =
    packet_enters s (flag_at s s.pkt_num) ts d h y
    ∙ (ap (λ v. judge v s hdr d 0 h) a
        ∙ store_packet-returns p buf h e s hdr d 0 r
            (omega (arith, accept-fits s hdr (length d) m.sized a)))
  where
    hdr : PktHdr
    hdr = hdr_of (packet (flag_at s s.pkt_num) s.seq ts d)

    a : check_packet s hdr (length d) ≡ accept
    a = expected_accept s s.seq ts d m.fixed k l

-- The stream after the last packet of a frame, and after one before it.
abbrev pub ended : PacketStream → ℕ → PacketStream
ended s t = record s {
  pkt_num = 0;
  seq = u8 (s.seq + 1);
  valid_pkts = s.got_pkts + 1;
  got_pkts = 0;
  last_timestamp = t;
  timestamp = t;
  valid_frames = s.valid_frames + 1;
}

abbrev pub counted_on : PacketStream → ℕ → PacketStream
counted_on s t = record s {
  pkt_num = s.pkt_num + 1;
  seq = u8 (s.seq + 1);
  got_pkts = s.got_pkts + 1;
  last_timestamp = t;
}

pub count_last :
    (s : PacketStream) (ts : ℕ) (d : List ℕ)
    → IsCamera s
    → s.pkt_num + 1 ≡ s.pkts_per_frame
    → let hdr = hdr_of (packet (flag_at s s.pkt_num) s.seq ts d) in
      count_packet s hdr (length d) 0 ≡ (s.frame_size, ended s hdr.timestamp)
unfolding count_packet
count_last s ts d m e = ground (arith, flags-ne s m.flagged, last-fits s m.sized e, m.many, m.fixed)

pub count_middle :
    (s : PacketStream) (ts : ℕ) (d : List ℕ)
    → IsCamera s
    → s.pkt_num + 1 < s.pkts_per_frame
    → let hdr = hdr_of (packet (flag_at s s.pkt_num) s.seq ts d) in
      count_packet s hdr (length d) 0 ≡ (0, counted_on s hdr.timestamp)
unfolding count_packet
count_middle s ts d m l = ground (arith, flags-ne s m.flagged)

-- Both depend only on what no packet changes.
pub transmit-kept :
    {s t : PacketStream} (k seq ts : ℕ) (ds : List (List ℕ))
    → IsKept s t
    → transmit t k seq ts ds ≡ transmit s k seq ts ds
transmit-kept k seq ts [] e = refl
transmit-kept {s} {t} k seq ts (d ∷ ds) e =
    ap₂ (λ f l. packet f seq ts d ∷ l) same (transmit-kept (k + 1) (u8 (seq + 1)) ts ds e)
  where
    same : flag_at t k ≡ flag_at s k
    same = ground (arith, e)

pub FillsFrame-kept :
    {s t : PacketStream} (k : ℕ) (ds : List (List ℕ))
    → IsKept s t
    → FillsFrame s k ds
    → FillsFrame t k ds
FillsFrame-kept k [] e f = omega (arith, e.pkts_per_frame)
FillsFrame-kept k (d ∷ ds) e f = (ground (arith, e), FillsFrame-kept (k + 1) ds e f.1)

pub IsKept-counted_on : (s : PacketStream) (t : ℕ) → IsKept s (counted_on s t)
IsKept-counted_on s t = ground arith

pub FillsFrame-length :
    (s : PacketStream) (k : ℕ) (ds : List (List ℕ))
    → FillsFrame s k ds
    → k + length ds ≡ s.pkts_per_frame
FillsFrame-length s k [] f = omega arith
FillsFrame-length s k (d ∷ ds) f = omega (arith, FillsFrame-length s (k + 1) ds f.1)

pub process_cons :
    (s : PacketStream) (pkt : List ℕ) (pkts : List (List ℕ)) (h : Heap) {got : ℕ} {t : PacketStream}
    {h' : Heap}
    → stream_process s pkt h ≡ some (got, t, h')
    → process_all s (pkt ∷ pkts) h ≡ (process_all t pkts h' >>= λ r. some (got ∷ r.0, r.1, r.2))
unfolding process_all
process_cons s pkt pkts h e = rw e

pub process_nil : (s : PacketStream) (h : Heap) → process_all s [] h ≡ some ([], s, h)
unfolding process_all
process_nil s h = refl

pub IsCamera-counted_on : (s : PacketStream) (t : ℕ) → IsCamera s → IsCamera (counted_on s t)
IsCamera-counted_on s t m = IsCamera-kept (IsKept-counted_on s t) m

pub next_offset : (n size l : ℕ) → l ≡ size → (n + 1) * size ≡ n * size + l
next_offset n size l e = omega arith

module _ (ts p : ℕ) where
  -- What the header of the packet that `s` waits for carries as its timestamp.
  abbrev pub stamp : PacketStream → List ℕ → ℕ
  stamp s d = (hdr_of (packet (flag_at s s.pkt_num) s.seq ts d)).timestamp

  abbrev pub offset : PacketStream → ℕ
  offset s = s.pkt_num * s.pkt_size

  pub last_step :
      (d : List ℕ) (s : PacketStream) (h : Heap) (buf : List ℕ)
      → IsCamera s
      → s.synced ≡ true
      → FillsFrame s s.pkt_num (d ∷ [])
      → s.raw_buf ≡ some p
      → h.block p ≡ some buf
      → s.frame_size ≤ length buf
      → stream_process s (packet (flag_at s s.pkt_num) s.seq ts d) h
        ≡ some (s.frame_size, ended s (stamp s d), stored h p (blitted (offset s) d buf))
  last_step d s h buf m y f r e l =
      packet_in_turn s ts d h p buf m y (omega arith) f.0 r e l
      ∙ ap (λ c. some (c.0, c.1, stored h p (blitted (offset s) d buf))) (count_last s ts d m f.1)

  pub middle_step :
      (d : List ℕ) (s : PacketStream) (h : Heap) (buf : List ℕ)
      → IsCamera s
      → s.synced ≡ true
      → s.pkt_num + 1 < s.pkts_per_frame
      → length d ≡ (if s.pkt_num + 1 == s.pkts_per_frame then s.last_pkt_size else s.pkt_size)
      → s.raw_buf ≡ some p
      → h.block p ≡ some buf
      → s.frame_size ≤ length buf
      → stream_process s (packet (flag_at s s.pkt_num) s.seq ts d) h
        ≡ some (0, counted_on s (stamp s d), stored h p (blitted (offset s) d buf))
  middle_step d s h buf m y k f r e l =
      packet_in_turn s ts d h p buf m y (omega arith) f r e l
      ∙ ap (λ c. some (c.0, c.1, stored h p (blitted (offset s) d buf))) (count_middle s ts d m k)
