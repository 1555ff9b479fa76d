-- ===== src/Stream/Process/Frames.antt =====
-- What `stream_process` returns, and how it counts packets and frames, with fixed packet lengths.
use quartz_composer_open_kin.Prelude.{
  ℕ, ◌+◌, ◌<◌, ◌≡◌, ◌≢◌, ◌⊎◌, true, false, Option, none, some, List, arith, length, refl, inl, inr,
  Bool-cases, ltb, get_or, ◌&&◌, ◌==◌, drop, ◌∙◌,
}
use quartz_composer_open_kin.Memory.{Heap}
use quartz_composer_open_kin.Stream.{PacketStream}
use quartz_composer_open_kin.Stream.Process.{
  PktHdr, hdr_of, hdr_size, sync, Lost, too_many, carry_on, account_lost, Verdict, accept,
  drop_packet, resync, check_packet, count_packet, store_packet, Processed, judge, after_lost,
  after_sync, stream_process, eof,
}
use quartz_composer_open_kin.Stream.Process.Stages.{
  IsSized, IsKept, IsCounted, sync-IsKept, sync-IsCounted, account_lost-IsKept,
  account_lost-IsCounted, account_lost-frames, last-fits, IsCameraFlag, accept-eof,
  count_packet-IsCounted,
}

-- A camera's stream: fixed packet lengths and more than five packets a frame.
pub record IsCamera (s : PacketStream) : Type 0 where
  pub sized : IsSized s
  pub flagged : IsCameraFlag s.flag
  pub fixed : s.variable_length ≡ false
  pub many : 5 < s.pkts_per_frame

pub IsCamera-kept : {s t : PacketStream} → IsKept s t → IsCamera s → IsCamera t
IsCamera-kept k c = record {
  sized = ground (arith, c.sized);
  flagged = omega (arith, c.flagged, k.flag);
  fixed = k.variable_length ∙ c.fixed;
  many = omega (arith, c.many, k.pkts_per_frame);
}

-- Either no frame was counted and 0 is returned, or one or two were and the full size is.
abbrev pub Reports : PacketStream → ℕ → PacketStream → Type 0
Reports s got t =
    ((got ≡ 0) × (t.valid_frames ≡ s.valid_frames))
    ⊎ ((got ≡ s.frame_size) × (s.valid_frames < t.valid_frames))

abbrev pub Outcome : PacketStream → Processed → Type 0
Outcome s out = IsCounted out.1 × Reports s out.0 out.1

store_packet-eq_some :
    (s : PacketStream) (hdr : PktHdr) (payload : List ℕ) (got : ℕ) (h : Heap) {out : Processed}
    → store_packet s hdr payload got h ≡ some out
    → (out.0 ≡ (count_packet s hdr (length payload) got).0)
      × (out.1 ≡ (count_packet s hdr (length payload) got).1)
unfolding store_packet
store_packet-eq_some s hdr payload got h e = ground arith

count_packet-Reports :
    (s : PacketStream) (hdr : PktHdr) (datalen got : ℕ)
    → IsSized s
    → s.variable_length ≡ false
    → ((hdr.flag ≡ eof s) × (s.pkt_num + 1 ≡ s.pkts_per_frame))
      ⊎ ((hdr.flag ≢ eof s) × ((s.pkt_num ≡ 0) ⊎ (s.pkt_num + 1 < s.pkts_per_frame)))
    → ((got ≡ 0) ⊎ (got ≡ s.frame_size))
    → ((count_packet s hdr datalen got).0 ≡ s.frame_size)
        × ((count_packet s hdr datalen got).1.valid_frames ≡ s.valid_frames + 1)
      ⊎ ((count_packet s hdr datalen got).0 ≡ got)
        × ((count_packet s hdr datalen got).1.valid_frames ≡ s.valid_frames)
unfolding count_packet
count_packet-Reports s hdr datalen got z v c g = ground (arith, last-fits s z)

judge-Outcome :
    (s : PacketStream) (hdr : PktHdr) (payload : List ℕ) (got n : ℕ) (h : Heap) {out : Processed}
    → IsCamera s
    → s.synced ≡ true
    → IsCounted s
    → ((got ≡ 0) × (s.valid_frames ≡ n)) ⊎ ((got ≡ s.frame_size) × (s.valid_frames ≡ n + 1))
    → (v : Verdict) → check_packet s hdr (length payload) ≡ v
    → judge v s hdr payload got h ≡ some out
    → IsCounted out.1
      × (((out.0 ≡ 0) × (out.1.valid_frames ≡ n))
          ⊎ ((out.0 ≡ s.frame_size) × (n < out.1.valid_frames)))
judge-Outcome s hdr payload got n h {out} m y c g accept a e =
    let ends = accept-eof s hdr (length payload) m.flagged m.fixed a in
    let eq = store_packet-eq_some s hdr payload got h e in
    (
      rw (eq.1)
          (count_packet-IsCounted s hdr (length payload) got (omega (arith, m.many)) y c ends),
      ground (arith, eq, count_packet-Reports s hdr (length payload) got m.sized m.fixed ends),
    )
judge-Outcome s hdr payload got n h m y c g drop_packet a e = (ground arith, ground arith)
judge-Outcome s hdr payload got n h m y c g resync a e = (ground arith, ground arith)

account_lost-too_many :
    (s : PacketStream) (hdr : PktHdr) {t : PacketStream}
    → account_lost s hdr ≡ too_many t
    → (t.synced ≡ false) × (t.valid_frames ≡ s.valid_frames)
unfolding account_lost
account_lost-too_many s hdr e = ground arith

after_lost-Outcome :
    (s : PacketStream) (hdr : PktHdr) (payload : List ℕ) (h : Heap) {out : Processed}
    → IsCamera s
    → s.synced ≡ true
    → IsCounted s
    → (l : Lost) → account_lost s hdr ≡ l
    → after_lost l hdr payload h ≡ some out
    → Outcome s out
after_lost-Outcome s hdr payload h m y c (too_many t) a e =
    let kept = account_lost-too_many s hdr a in (ground (arith, kept), ground (arith, kept))
after_lost-Outcome s hdr payload h m y c (carry_on t got) a e =
    let k : IsKept s t = rw a at (account_lost-IsKept s hdr) in
    let ct : IsCounted t = rw a at (account_lost-IsCounted s hdr m.many y c) in
    let fr = account_lost-frames s hdr y a in
    ground (
      arith,
      k.frame_size,
      judge-Outcome t hdr payload got s.valid_frames h (IsCamera-kept k m) fr.0 ct
          (rw k.frame_size fr.1) (check_packet t hdr (length payload)) refl e,
    )

after_sync-Outcome :
    (s : PacketStream) (hdr : PktHdr) (payload : List ℕ) (h : Heap) {out : Processed}
    → IsCamera s
    → IsCounted s
    → (o : Option PacketStream) → sync s hdr ≡ o
    → after_sync o s hdr payload h ≡ some out
    → Outcome s out
after_sync-Outcome s hdr payload h m c none a e = ground arith
after_sync-Outcome s hdr payload h m c (some t) a e =
    let k = sync-IsKept s hdr a in
    let ct = sync-IsCounted s hdr (omega (arith, m.many)) c a in
    ground (
      arith,
      k.frame_size,
      ct,
      after_lost-Outcome t hdr payload h (IsCamera-kept k m) ct.1 ct.0 (account_lost t hdr) refl e,
    )

-- The counters. On a camera's stream (fixed packets, more than five a frame, flag 0x70 or 0x80),
-- whatever packet arrives, a stream that is left synchronised has `got_pkts ≤ pkt_num`,
-- `pkt_num < pkts_per_frame` and `valid_pkts ≤ pkts_per_frame` if it did before; and the call returns
-- 0 and counts no frame, or returns exactly `frame_size` and counts at least one.
pub stream_process-Outcome :
    (s : PacketStream) (pkt : List ℕ) (h : Heap) (out : Processed)
    → IsCamera s
    → IsCounted s
    → stream_process s pkt h ≡ some out
    → Outcome s out
stream_process-Outcome s pkt h out m c =
    unfold stream_process in
    elim (Bool-cases (ltb (length pkt) hdr_size)) [
      | inl short ↦ rw short (λ e. ground arith)
      | inr long ↦ elim (Bool-cases (get_or pkt 0 0 == b'R' && get_or pkt 1 0 == b'B')) [
        | inl good ↦
            rw (long, good) (after_sync-Outcome s (hdr_of pkt) (drop hdr_size pkt) h m c _ refl)
        | inr bad ↦ rw (long, bad) (λ e. ground arith)
      ]
    ]
