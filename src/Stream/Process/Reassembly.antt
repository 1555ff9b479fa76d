-- ===== src/Stream/Process/Reassembly.antt =====
-- A frame sent whole: the packets of a transmitter that numbers and flags them as the camera does,
-- and what `stream_process` makes of them one after the other.
use quartz_composer_open_kin.Prelude.{
  ℕ, ◌+◌, ◌*◌, ◌≤◌, ◌<◌, ◌≡◌, ◌⊎◌, true, false, Option, some, List, [], ◌∷◌, ◌++◌, arith, length,
  refl, inl, inr, ltb, ◌∙◌, u8, take, append_assoc, append-nil, ap, sym,
}
use quartz_composer_open_kin.Memory.{Heap}
use quartz_composer_open_kin.Memory.Laws.{stored, blitted, length-blitted, take-blitted}
use quartz_composer_open_kin.Stream.{PacketStream}
use quartz_composer_open_kin.Stream.Process.{hdr_of, sof, stream_process, sync}
use quartz_composer_open_kin.Stream.Process.Stages.{IsKept, last-fits, accept-fits}
use quartz_composer_open_kin.Stream.Process.Frames.{IsCamera, IsCamera-kept}
use quartz_composer_open_kin.Stream.Process.Transmitter.{
  process_all, packet, transmit, FillsFrame, concat, results,
}
use quartz_composer_open_kin.Stream.Process.InTurn.{
  expected_accept, ended, counted_on, transmit-kept, FillsFrame-kept, IsKept-counted_on,
  FillsFrame-length, process_cons, process_nil, IsCamera-counted_on, next_offset, stamp, offset,
  last_step, middle_step,
}

-- The whole frame: what is returned, counted and stored from packet number `k` on.
record IsFrame (s : PacketStream) (p : ℕ) (buf : List ℕ) (h : Heap) (ds : List (List ℕ))
    (r : Option (List ℕ × PacketStream × Heap)) : Type 0 where
  pub end : PacketStream
  pub heap : Heap
  pub bytes : List ℕ
  pub returns : r ≡ some (results s.frame_size ds, end, heap)
  pub holds : heap.block p ≡ some bytes
  pub same_length : length bytes ≡ length buf
  pub reassembled : take s.frame_size bytes ≡ take (s.pkt_num * s.pkt_size) buf ++ concat ds
  pub next_frame : (end.synced ≡ true) × (end.pkt_num ≡ 0) × (end.got_pkts ≡ 0)
  pub next_seq : end.seq ≡ u8 (s.seq + length ds)
  pub counted : (end.valid_pkts ≡ s.got_pkts + length ds) × (end.valid_frames ≡ s.valid_frames + 1)

module _ (ts p : ℕ) where
  process-IsFrame :
      (d : List ℕ) (ds : List (List ℕ)) (s : PacketStream) (h : Heap) (buf : List ℕ)
      → IsCamera s
      → s.synced ≡ true
      → FillsFrame s s.pkt_num (d ∷ ds)
      → s.raw_buf ≡ some p
      → h.block p ≡ some buf
      → s.frame_size ≤ length buf
      → IsFrame s p buf h (d ∷ ds) (process_all s (transmit s s.pkt_num s.seq ts (d ∷ ds)) h)
  process-IsFrame d [] s h buf m y f r e l =
      let size : offset ts p s + length d ≡ s.frame_size =
        ground (arith, last-fits s m.sized f.1) in
      record {
        end = ended s (stamp ts p s d);
        heap = stored h p (blitted (offset ts p s) d buf);
        bytes = blitted (offset ts p s) d buf;
        returns = process_cons s _ [] h (last_step ts p d s h buf m y f r e l) ∙ rw process_nil;
        holds = ground arith;
        same_length = length-blitted (offset ts p s) d buf (omega arith);
        reassembled = rw (append-nil, ← size) (take-blitted (offset ts p s) d buf (omega arith));
        next_frame = (y, refl, refl);
        next_seq = refl;
        counted = (refl, refl);
      }
  process-IsFrame d (e' ∷ ds) s h buf m y f r e l =
      let more : s.pkt_num + 1 < s.pkts_per_frame =
        omega (arith, FillsFrame-length s s.pkt_num (d ∷ e' ∷ ds) f) in
      let full : length d ≡ s.pkt_size = ground arith in
      let fits : offset ts p s + length d ≤ length buf = omega (
        arith,
        accept-fits s _ (length d) m.sized (expected_accept s s.seq ts d m.fixed (omega arith) f.0),
      ) in
      let t = counted_on s (stamp ts p s d) in
      let h' = stored h p (blitted (offset ts p s) d buf) in
      let same = length-blitted (offset ts p s) d buf fits in
      let rest =
        process-IsFrame e' ds t h' (blitted (offset ts p s) d buf)
          (IsCamera-counted_on s (stamp ts p s d) m) y
          (FillsFrame-kept (s.pkt_num + 1) (e' ∷ ds) (IsKept-counted_on s (stamp ts p s d)) f.1) r
          (ground arith) (omega arith) in
      let sent =
        transmit-kept (s.pkt_num + 1) (u8 (s.seq + 1)) ts (e' ∷ ds)
          (IsKept-counted_on s (stamp ts p s d)) in
      record {
        end = rest.end;
        heap = rest.heap;
        bytes = rest.bytes;
        returns =
            process_cons s _ _ h (middle_step ts p d s h buf m y more f.0 r e l)
            ∙ rw (← sent, rest.returns);
        holds = rest.holds;
        same_length = rest.same_length ∙ same;
        reassembled =
            rest.reassembled
            ∙ (ap (λ k. take k (blitted (offset ts p s) d buf) ++ concat (e' ∷ ds))
                  (next_offset s.pkt_num s.pkt_size (length d) full)
                ∙ (ap (λ b. b ++ concat (e' ∷ ds)) (take-blitted (offset ts p s) d buf fits)
                    ∙ append_assoc (take (offset ts p s) buf) d (concat (e' ∷ ds))));
        next_frame = rest.next_frame;
        next_seq = omega (arith, rest.next_seq);
        counted = omega (arith, rest.counted);
      }

-- The stream that waits for packet `q` to begin a frame, and what it becomes with that packet.
abbrev pub Waits : PacketStream → ℕ → Type 0
Waits s q =
    (s.synced ≡ false) ⊎ ((s.synced ≡ true) × (s.pkt_num ≡ 0) × (s.got_pkts ≡ 0) × (s.seq ≡ q))

abbrev begun : PacketStream → ℕ → ℕ → PacketStream
begun s q v = record s { synced = true; seq = q; pkt_num = 0; valid_pkts = v; got_pkts = 0 }

begin_frame :
    (s : PacketStream) (q ts : ℕ) (d : List ℕ) (h : Heap)
    → s.synced ≡ false
    → stream_process s (packet (sof s) q ts d) h
      ≡ stream_process (begun s q 0) (packet (sof s) q ts d) h
begin_frame s q ts d h y =
    let hdr = hdr_of (packet (sof s) q ts d) in
    let long : ltb (length (packet (sof s) q ts d)) 12 ≡ false = ground arith in
    let first : sync s hdr ≡ some (begun s q 0) = unfold sync in ground arith in
    unfold stream_process in rw (long, first)

IsKept-begun : (s : PacketStream) (q v : ℕ) → IsKept s (begun s q v)
IsKept-begun s q v = ground arith

-- A whole frame sent to `s`, from the first packet on.
abbrev sent_frame :
    PacketStream → ℕ → ℕ → List (List ℕ) → Heap → Option (List ℕ × PacketStream × Heap)
sent_frame s ts q ds h = process_all s (transmit s 0 q ts ds) h

as_begun :
    (s : PacketStream) (ts q : ℕ) (d : List ℕ) (ds : List (List ℕ)) (h : Heap)
    → Waits s q
    → (v : ℕ) × (sent_frame s ts q (d ∷ ds) h ≡ sent_frame (begun s q v) ts q (d ∷ ds) h)
as_begun s ts q d ds h (inl y) = (
  0,
  first
      ∙ ap (λ pkts. process_all (begun s q 0) pkts h)
          (sym (transmit-kept 0 q ts (d ∷ ds) (IsKept-begun s q 0))),
)
  where
    first : sent_frame s ts q (d ∷ ds) h ≡ process_all (begun s q 0) (transmit s 0 q ts (d ∷ ds)) h
    first = unfold process_all in rw (begin_frame s q ts d h y)
as_begun s ts q d ds h (inr w) =
    (s.valid_pkts, ap (λ (t : PacketStream). sent_frame t ts q (d ∷ ds) h) same)
  where
    same : s ≡ begun s q s.valid_pkts
    same = ground arith

-- The parts of the reassembly theorem.
abbrev pub Reassembled : PacketStream → ℕ → ℕ → ℕ → List (List ℕ) → Heap → Type 0
Reassembled s ts q p ds h =
    (end : PacketStream) × (heap : Heap) × (bytes : List ℕ) × (process_all s (transmit s 0 q ts ds)
        h
      ≡ some (results s.frame_size ds, end, heap))
    × (heap.block p ≡ some bytes)
    × (take s.frame_size bytes ≡ concat ds)
    × (end.valid_pkts ≡ s.pkts_per_frame)
    × (end.valid_frames ≡ s.valid_frames + 1)
    × Waits end (u8 (q + s.pkts_per_frame))

take_none : (size : ℕ) (buf l : List ℕ) → take (0 * size) buf ++ l ≡ l
take_none size buf l = let e : 0 * size ≡ 0 = omega arith in rw e

whole_frame :
    (s : PacketStream) (ts q p v : ℕ) (ds : List (List ℕ)) (h : Heap) (buf : List ℕ)
    → sent_frame s ts q ds h ≡ sent_frame (begun s q v) ts q ds h
    → 0 + length ds ≡ s.pkts_per_frame
    → IsFrame (begun s q v) p buf h ds (sent_frame (begun s q v) ts q ds h)
    → Reassembled s ts q p ds h
whole_frame s ts q p v ds h buf same n fr = (
  fr.end,
  fr.heap,
  fr.bytes,
  same ∙ fr.returns,
  fr.holds,
  fr.reassembled ∙ take_none s.pkt_size buf (concat ds),
  omega (arith, fr.counted),
  fr.counted.1,
  inr (
    fr.next_frame.0,
    fr.next_frame.1,
    fr.next_frame.2,
    fr.next_seq ∙ ap (λ k. u8 (q + k)) (omega arith),
  ),
)

-- Reassembly. A camera's stream that is out of sync, or waits for a frame that begins with sequence
-- number `q`, is sent the packets of one frame in order: the first numbered `q`, the others counted
-- on modulo 256, each with its flag, full payloads and a last one that fills the frame. Then each
-- call but the last returns 0 and the last returns `frame_size`; the first `frame_size` bytes of
-- the buffer are the payloads one after the other; every packet of the frame is counted in
-- `valid_pkts`, one frame is counted, and the stream waits for the next frame in sequence.
pub process_all-reassembles :
    (s : PacketStream) (ts q p : ℕ) (ds : List (List ℕ)) (h : Heap) (buf : List ℕ)
    → IsCamera s
    → Waits s q
    → FillsFrame s 0 ds
    → s.raw_buf ≡ some p
    → h.block p ≡ some buf
    → s.frame_size ≤ length buf
    → Reassembled s ts q p ds h
process_all-reassembles s ts q p [] h buf m w f r e l = absurd (omega (arith, m.many))
process_all-reassembles s ts q p (d ∷ ds) h buf m w f r e l =
    let (v, same) = as_begun s ts q d ds h w in
    let k = IsKept-begun s q v in
    whole_frame s ts q p v (d ∷ ds) h buf same (FillsFrame-length s 0 (d ∷ ds) f) (
      process-IsFrame ts p d ds (begun s q v) h buf (IsCamera-kept k m) refl
        (FillsFrame-kept 0 (d ∷ ds) k f) r e l)
