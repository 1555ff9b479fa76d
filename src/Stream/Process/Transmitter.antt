-- ===== src/Stream/Process/Transmitter.antt =====
-- The camera's side of a stream, and a run of `stream_process` over packets.
use quartz_composer_open_kin.Prelude.{
  ℕ, ◌+◌, ◌/◌, ◌%◌, ◌≡◌, Option, some, List, [], ◌∷◌, ◌++◌, length, ◌==◌, if◌then◌else◌, ◌>>=◌, u8,
}
use quartz_composer_open_kin.Memory.{Heap}
use quartz_composer_open_kin.Stream.{PacketStream}
use quartz_composer_open_kin.Stream.Process.{sof, mof, eof, stream_process}

-- The calls for the packets of `pkts` in order, and what each returns.
unfoldable pub process_all :
    PacketStream → List (List ℕ) → Heap → Option (List ℕ × PacketStream × Heap)
process_all s [] h = some ([], s, h)
process_all s (pkt ∷ pkts) h = do
  (got, s', h') ← stream_process s pkt h
  (gots, s'', h'') ← process_all s' pkts h'
  some (got ∷ gots, s'', h'')

-- The camera's side: a header and its payload.
abbrev pub packet : ℕ → ℕ → ℕ → List ℕ → List ℕ
packet flag seq ts payload =
    b'R'
    ∷ b'B'
    ∷ 0
    ∷ flag
    ∷ 0
    ∷ seq
    ∷ 0
    ∷ 0
    ∷ (ts % 256)
    ∷ (ts / 256 % 256)
    ∷ (ts / 65536 % 256)
    ∷ (ts / 16777216)
    ∷ payload

abbrev pub flag_at : PacketStream → ℕ → ℕ
flag_at s k = if k == 0 then sof s else if k + 1 == s.pkts_per_frame then eof s else mof s

-- The packets of the payloads from number `k` of a frame on.
abbrev pub transmit : PacketStream → ℕ → ℕ → ℕ → List (List ℕ) → List (List ℕ)
transmit s k seq ts [] = []
transmit s k seq ts (d ∷ ds) =
    packet (flag_at s k) seq ts d ∷ transmit s (k + 1) (u8 (seq + 1)) ts ds

-- Full payloads, and a last one that fills the frame.
abbrev pub FillsFrame : PacketStream → ℕ → List (List ℕ) → Type 0
FillsFrame s k [] = k ≡ s.pkts_per_frame
FillsFrame s k (d ∷ ds) =
    (length d ≡ (if k + 1 == s.pkts_per_frame then s.last_pkt_size else s.pkt_size))
    × FillsFrame s (k + 1) ds

abbrev pub concat : List (List ℕ) → List ℕ
concat [] = []
concat (d ∷ ds) = d ++ concat ds

-- 0 for each packet but the last, which returns the frame's size.
abbrev pub results : ℕ → List (List ℕ) → List ℕ
results size [] = []
results size (d ∷ []) = size ∷ []
results size (d ∷ e ∷ ds) = 0 ∷ results size (e ∷ ds)
