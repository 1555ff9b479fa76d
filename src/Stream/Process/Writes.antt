-- ===== src/Stream/Process/Writes.antt =====
-- What `stream_process` writes: at most the packet's payload, at one place of the raw buffer. So
-- heaps of bytes stay heaps of bytes.
use quartz_composer_open_kin.Convert.Packed.Value.{AllBelow}
use quartz_composer_open_kin.Memory.{Heap, Pointer, memcpy}
use quartz_composer_open_kin.Memory.Bytes.{
  HoldsBytes, SameShape, Sound, Fits, AllBelow-drop, memcpy-HoldsBytes, some-eq,
}
use quartz_composer_open_kin.Prelude.{
  ℕ, ◌*◌, sym, ◌≡◌, ◌⊎◌, Option, none, some, List, arith, length, refl, inl, inr, Bool-cases, ltb,
  get_or, ◌&&◌, ◌==◌, drop, ◌∙◌, >>=-eq_some, ==_iff, ap,
}
use quartz_composer_open_kin.Stream.{PacketStream}
use quartz_composer_open_kin.Stream.Process.{
  PktHdr, hdr_of, hdr_size, sync, Lost, too_many, carry_on, account_lost, Verdict, accept,
  drop_packet, resync, store_packet, Processed, judge, after_lost, after_sync, stream_process,
}
use quartz_composer_open_kin.Stream.Process.Stages.{
  IsSized, IsKept, sync-IsKept, lost_stream, account_lost-IsKept,
}
use quartz_composer_open_kin.Stream.Process.Total.{stream_process-IsSafe, IsWritten}

-- The heap is left as it was, or the payload was copied somewhere behind the pointer.
abbrev Copies : Pointer → List ℕ → Heap → Heap → Type 0
Copies p payload h h' = (h' ≡ h) ⊎ ((off : ℕ) × (memcpy p off payload h ≡ some h'))

judge-Copies :
    (v : Verdict) (s : PacketStream) (hdr : PktHdr) (payload : List ℕ) (got : ℕ) (h : Heap)
    (out : Processed)
    → judge v s hdr payload got h ≡ some out
    → Copies s.raw_buf payload h out.2
unfolding store_packet
judge-Copies accept s hdr payload got h out e =
    let (h', m, k) = >>=-eq_some (memcpy s.raw_buf (s.pkt_num * s.pkt_size) payload h) _ e in
    inr (s.pkt_num * s.pkt_size, m ∙ ap some (ground arith))
judge-Copies drop_packet s hdr payload got h out e = inl (ground arith)
judge-Copies resync s hdr payload got h out e = inl (ground arith)

after_lost-Copies :
    (l : Lost) (hdr : PktHdr) (payload : List ℕ) (h : Heap) (out : Processed)
    → after_lost l hdr payload h ≡ some out
    → Copies (lost_stream l).raw_buf payload h out.2
after_lost-Copies (too_many t) hdr payload h out e = inl (ground arith)
after_lost-Copies (carry_on t got) hdr payload h out e = judge-Copies _ t hdr payload got h out e

after_sync-Copies :
    (o : Option PacketStream) (s : PacketStream) (hdr : PktHdr) (payload : List ℕ) (h : Heap)
    (out : Processed)
    → sync s hdr ≡ o
    → after_sync o s hdr payload h ≡ some out
    → Copies s.raw_buf payload h out.2
after_sync-Copies none s hdr payload h out c e = inl (ground arith)
after_sync-Copies (some t) s hdr payload h out c e =
    let k = (account_lost-IsKept t hdr).raw_buf ∙ (sync-IsKept s hdr c).raw_buf in
    rw k at (after_lost-Copies (account_lost t hdr) hdr payload h out e)

stream_process-Copies :
    (s : PacketStream) (pkt : List ℕ) (h : Heap) (out : Processed)
    → stream_process s pkt h ≡ some out
    → Copies s.raw_buf (drop hdr_size pkt) h out.2
stream_process-Copies s pkt h out =
    unfold stream_process in
    elim (Bool-cases (ltb (length pkt) hdr_size)) [
      | inl short ↦ rw short (λ e. inl (ground arith))
      | inr long ↦ elim (Bool-cases (get_or pkt 0 0 == b'R' && get_or pkt 1 0 == b'B')) [
        | inl good ↦
            rw (long, good)
              (after_sync-Copies (sync s (hdr_of pkt)) s (hdr_of pkt) (drop hdr_size pkt) h out
                refl)
        | inr bad ↦ rw (long, bad) (λ e. inl (ground arith))
      ]
    ]

IsWritten-shape :
    (p : ℕ) (buf : List ℕ) (h h' : Heap)
    → h.block p ≡ some buf
    → IsWritten p buf h h'
    → SameShape h h'
IsWritten-shape p buf h h' e w q b f = elim (Bool-cases (p == q)) [
  | inl same ↦
      (let g = (==_iff p q).0 same in
        (w.bytes, rw g at w.holds, w.same_length ∙ ap length (some-eq (sym (rw g at e) ∙ f))))
  | inr other ↦ (b, w.others q (ground arith) ∙ f, refl)
]

-- What a packet of bytes does, whatever it says.
pub record IsSoundStep (s : PacketStream) (h : Heap) (r : Option Processed) : Type 0 where
  pub out : Processed
  pub returns : r ≡ some out
  pub kept : IsKept s out.1
  pub sound : Sound h out.2

pub stream_process-IsSoundStep :
    (s : PacketStream) (pkt : List ℕ) (h : Heap)
    → IsSized s
    → Fits s.frame_size s.raw_buf h
    → AllBelow 256 pkt
    → HoldsBytes h
    → IsSoundStep s h (stream_process s pkt h)
stream_process-IsSoundStep s pkt h z (p, buf, e, f, l) a hb =
    let r = stream_process-IsSafe s pkt h p buf z e f l in
    record {
      out = r.out;
      returns = r.returns;
      kept = r.kept;
      sound = record {
        bytes = elim (stream_process-Copies s pkt h r.out r.returns) [
          | inl same ↦ rw same hb
          | inr (off, m) ↦
              memcpy-HoldsBytes s.raw_buf off (drop hdr_size pkt) h r.out.2 m
                (AllBelow-drop 256 hdr_size pkt a) hb
        ];
        shape = IsWritten-shape p buf h r.out.2 f r.written;
      };
    }
