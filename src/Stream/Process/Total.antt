-- ===== src/Stream/Process/Total.antt =====
-- `stream_process` on a sized stream whose `raw_buf` holds a frame: it never writes out of bounds,
-- and what it returns and counts.
use quartz_composer_open_kin.Prelude.{
  ℕ, ◌+◌, ◌*◌, ◌≤◌, ◌≡◌, ◌≢◌, Option, none, some, List, arith, length, refl, inl, inr, Bool-cases,
  ltb, get_or, ◌&&◌, ◌==◌, drop, ◌∙◌,
}
use quartz_composer_open_kin.Memory.{Heap}
use quartz_composer_open_kin.Memory.Laws.{stored, blitted, memcpy-fits, length-blitted}
use quartz_composer_open_kin.Stream.{PacketStream}
use quartz_composer_open_kin.Stream.Process.{
  PktHdr, hdr_of, hdr_size, sync, Lost, too_many, carry_on, account_lost, Verdict, accept,
  drop_packet, resync, check_packet, count_packet, store_packet, Processed, judge, after_lost,
  after_sync, stream_process,
}
use quartz_composer_open_kin.Stream.Process.Stages.{
  IsSized, IsKept, IsKept-refl, IsKept-trans, sync-IsKept, lost_stream, account_lost-IsKept,
  accept-fits, count_packet-IsKept,
}

-- The heap changed in block `p` alone, which kept its length.
pub record IsWritten (p : ℕ) (buf : List ℕ) (h h' : Heap) : Type 0 where
  pub bytes : List ℕ
  pub holds : h'.block p ≡ some bytes
  pub same_length : length bytes ≡ length buf
  pub same_next : h'.next ≡ h.next
  pub same_room : h'.room ≡ h.room
  pub others : (q : ℕ) → q ≢ p → h'.block q ≡ h.block q

-- A call that returned, and what it left alone.
pub record IsSafe (s : PacketStream) (p : ℕ) (buf : List ℕ) (h : Heap) (r : Option Processed)
    : Type 0 where
  pub out : Processed
  pub returns : r ≡ some out
  pub kept : IsKept s out.1
  pub written : IsWritten p buf h out.2

module _ (p : ℕ) (buf : List ℕ) (h : Heap) (e : h.block p ≡ some buf) where
  untouched : IsWritten p buf h h
  untouched = record {
    bytes = buf;
    holds = e;
    same_length = refl;
    same_next = refl;
    same_room = refl;
    others = λ q n. refl;
  }

  write_block : (b : List ℕ) → length b ≡ length buf → IsWritten p buf h (stored h p b)
  write_block b l = record {
    bytes = b;
    holds = ground arith;
    same_length = l;
    same_next = refl;
    same_room = refl;
    others = λ q n. ground arith;
  }

  -- The copy of an accepted packet.
  pub store_packet-returns :
      (s : PacketStream) (hdr : PktHdr) (payload : List ℕ) (got : ℕ)
      → s.raw_buf ≡ some p
      → s.pkt_num * s.pkt_size + length payload ≤ length buf
      → store_packet s hdr payload got h
        ≡ some (
          (count_packet s hdr (length payload) got).0,
          (count_packet s hdr (length payload) got).1,
          stored h p (blitted (s.pkt_num * s.pkt_size) payload buf),
        )
  unfolding store_packet
  store_packet-returns s hdr payload got r fits =
      rw (r, memcpy-fits p (s.pkt_num * s.pkt_size) payload buf h e fits)

  judge-IsSafe :
      (s : PacketStream) (hdr : PktHdr) (payload : List ℕ) (got : ℕ)
      → IsSized s
      → s.raw_buf ≡ some p
      → s.frame_size ≤ length buf
      → (v : Verdict) → check_packet s hdr (length payload) ≡ v
      → IsSafe s p buf h (judge v s hdr payload got h)
  judge-IsSafe s hdr payload got z r f accept c =
      let fits : s.pkt_num * s.pkt_size + length payload ≤ length buf =
        omega (arith, accept-fits s hdr (length payload) z c) in
      record {
        out = _;
        returns = store_packet-returns s hdr payload got r fits;
        kept = count_packet-IsKept s hdr (length payload) got;
        written = write_block _ (length-blitted (s.pkt_num * s.pkt_size) payload buf fits);
      }
  judge-IsSafe s hdr payload got z r f drop_packet c = record {
    out = _;
    returns = refl;
    kept = IsKept-refl s;
    written = untouched;
  }
  judge-IsSafe s hdr payload got z r f resync c = record {
    out = _;
    returns = refl;
    kept = ground (arith, IsKept-refl s);
    written = untouched;
  }

  IsSized-kept : {s t : PacketStream} → IsKept s t → IsSized s → IsSized t
  IsSized-kept k z = ground arith

  IsSafe-kept :
      {s t : PacketStream} {r : Option Processed}
      → IsKept s t
      → IsSafe t p buf h r
      → IsSafe s p buf h r
  IsSafe-kept k d = record {
    out = d.out;
    returns = d.returns;
    kept = IsKept-trans k d.kept;
    written = d.written;
  }

  after_lost-IsSafe :
      (s : PacketStream) (hdr : PktHdr) (payload : List ℕ) (l : Lost)
      → IsKept s (lost_stream l)
      → IsSized s
      → s.raw_buf ≡ some p
      → s.frame_size ≤ length buf
      → IsSafe s p buf h (after_lost l hdr payload h)
  after_lost-IsSafe s hdr payload (too_many t) k z r f = record {
    out = _;
    returns = refl;
    kept = k;
    written = untouched;
  }
  after_lost-IsSafe s hdr payload (carry_on t got) k z r f = IsSafe-kept k (
      judge-IsSafe t hdr payload got (IsSized-kept k z) (k.raw_buf ∙ r)
        (omega (arith, k.frame_size)) _ refl)

  after_sync-IsSafe :
      (s : PacketStream) (hdr : PktHdr) (payload : List ℕ) (o : Option PacketStream)
      → sync s hdr ≡ o
      → IsSized s
      → s.raw_buf ≡ some p
      → s.frame_size ≤ length buf
      → IsSafe s p buf h (after_sync o s hdr payload h)
  after_sync-IsSafe s hdr payload none c z r f = record {
    out = _;
    returns = refl;
    kept = IsKept-refl s;
    written = untouched;
  }
  after_sync-IsSafe s hdr payload (some t) c z r f =
      let k = sync-IsKept s hdr c in
      IsSafe-kept k (
        after_lost-IsSafe t hdr payload (account_lost t hdr) (account_lost-IsKept t hdr)
          (IsSized-kept k z) (k.raw_buf ∙ r) (omega (arith, k.frame_size)))

-- Memory safety. On a stream sized as `stream_init` sizes it, whose `raw_buf` points to a block of
-- at least a frame, `stream_process` returns for every packet whatever its bytes, changes no block
-- but that one, keeps that block's length, and changes neither the stream's configuration nor its
-- buffers.
pub stream_process-IsSafe :
    (s : PacketStream) (pkt : List ℕ) (h : Heap) (p : ℕ) (buf : List ℕ)
    → IsSized s
    → s.raw_buf ≡ some p
    → h.block p ≡ some buf
    → s.frame_size ≤ length buf
    → IsSafe s p buf h (stream_process s pkt h)
stream_process-IsSafe s pkt h p buf z r e f =
    unfold stream_process in
    elim (Bool-cases (ltb (length pkt) hdr_size)) [
      | inl short ↦ rw short same
      | inr long ↦ elim (Bool-cases (get_or pkt 0 0 == b'R' && get_or pkt 1 0 == b'B')) [
        | inl good ↦
            rw (long, good)
              (after_sync-IsSafe p buf h e s (hdr_of pkt) (drop hdr_size pkt) _ refl z r f)
        | inr bad ↦ rw (long, bad) same
      ]
    ]
  where
    same : IsSafe s p buf h (some (0, s, h))
    same = record { out = _; returns = refl; kept = IsKept-refl s; written = untouched p buf h e }
