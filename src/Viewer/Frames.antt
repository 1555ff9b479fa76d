-- ===== src/Viewer/Frames.antt =====
-- A depth frame of the driver in memory, and the colours that `depth_cb` of glview.c makes of it.
use quartz_composer_open_kin.Camera.Process.{words, convert_depth}
use quartz_composer_open_kin.Camera.Process.Laws.{length-words}
use quartz_composer_open_kin.Camera.Process.Safety.{StreamReady}
use quartz_composer_open_kin.Camera.Switch.{depth_sizes}
use quartz_composer_open_kin.Convert.Packed.Laws.{convert_packed_to_16bit-spells}
use quartz_composer_open_kin.Convert.Packed.Value.{AllBelow}
use quartz_composer_open_kin.Device.{depth_11bit}
use quartz_composer_open_kin.Memory.{Heap, memcpy, contents}
use quartz_composer_open_kin.Memory.Bytes.{Fits, HoldsBytes, AllBelow-append}
use quartz_composer_open_kin.Memory.Laws.{blitted, stored, memcpy-fits}
use quartz_composer_open_kin.Prelude.{
  ℕ, zero, suc, ◌+◌, ◌*◌, ◌/◌, ◌%◌, ◌≡◌, true, some, List, [], ◌∷◌, ◌++◌, arith, length,
  length-append, get_elem-inside, refl, ◌==◌, ==_iff, ◌∙◌, sym,
}
use quartz_composer_open_kin.Stream.{PacketStream}
use quartz_composer_open_kin.Viewer.{depth_colour, depth_colours, read_words}

depth_colour-bytes :
    (pval : ℕ) → AllBelow 256 (depth_colour pval) × (length (depth_colour pval) ≡ 3)
unfolding depth_colour
depth_colour-bytes pval = ground arith

-- Depths inside the gamma table have colours, three bytes each.
pub depth_colours-returns :
    (t_gamma ds : List ℕ)
    → AllBelow (length t_gamma) ds
    → (out : List ℕ) × (depth_colours t_gamma ds ≡ some out)
      × AllBelow 256 out
      × (length out ≡ 3 * length ds)
unfolding depth_colours
depth_colours-returns t_gamma [] a = ([], refl, tt, refl)
depth_colours-returns t_gamma (d ∷ ds) (l, a) =
    let (pval, e) = get_elem-inside t_gamma d l in
    let (rest, f, b, n) = depth_colours-returns t_gamma ds a in
    let c = depth_colour-bytes pval in
    (
      depth_colour pval ++ rest,
      rw (e, f) refl,
      AllBelow-append 256 (depth_colour pval) rest c.0 b,
      omega (arith, length-append (depth_colour pval) rest, c.1, n),
    )

-- Words that were stored are read back.
pub read_words-words :
    (n : ℕ) (ws rest : List ℕ) → length ws ≡ n → read_words n (words ws ++ rest) ≡ some ws
unfolding read_words
read_words-words zero [] rest e = refl
read_words-words zero (w ∷ ws) rest e = absurd (omega arith)
read_words-words (suc n) [] rest e = absurd (omega arith)
read_words-words (suc n) (w ∷ ws) rest e =
    let k : w % 256 + 256 * (w / 256) ≡ w = omega arith in
    rw (read_words-words n ws rest (omega arith), k) refl

-- What a converted 11-bit frame leaves in the processed buffer.
abbrev pub HoldsDepth : PacketStream → Heap → Type 0
HoldsDepth s h =
    (raw ds : List ℕ) × (contents s.proc_buf h ≡ some raw)
    × (read_words 307200 raw ≡ some ds)
    × AllBelow 2048 ds
    × (length ds ≡ 307200)

stored_depth :
    (h : Heap) (q : ℕ) (proc ws : List ℕ)
    → AllBelow 2048 ws
    → length ws ≡ 307200
    → (raw ds : List ℕ) × ((stored h q (blitted 0 (words ws) proc)).block q ≡ some raw)
      × (read_words 307200 raw ≡ some ds)
      × AllBelow 2048 ds
      × (length ds ≡ 307200)
stored_depth h q proc ws a n =
    let here : (q == q) ≡ true = (==_iff q q).1 refl in
    (blitted 0 (words ws) proc, ws, rw here refl, read_words-words 307200 ws _ n, a, n)

converted_depth :
    (s : PacketStream) (h h' : Heap)
    → Fits 422400 s.raw_buf h
    → Fits 614400 s.proc_buf h
    → HoldsBytes h
    → convert_depth depth_11bit s h ≡ some h'
    → HoldsDepth s h'
unfolding convert_depth contents
converted_depth s h h' (p, raw, f, g, l) (q, proc, f', g', l') b e =
    let (ws, c, n, a, v) =
      convert_packed_to_16bit-spells raw 11 307200 (omega arith) (b.blocks p raw g) (omega arith) in
    let out : memcpy (some q) 0 (words ws) h ≡ some h' = rw (f, f', g, g', c) at e in
    let same : stored h q (blitted 0 (words ws) proc) ≡ h' =
      some_heap
        (sym (memcpy-fits q 0 (words ws) proc h g' (omega (arith, length-words ws, n))) ∙ out) in
    rw (f', ← same) (stored_depth h q proc ws a n)
  where
    some_heap : {c d : Heap} → some c ≡ some d → c ≡ d
    some_heap e = cc

pub convert_depth-HoldsDepth :
    (s : PacketStream) (h h' : Heap)
    → StreamReady (depth_sizes depth_11bit) s h
    → HoldsBytes h
    → convert_depth depth_11bit s h ≡ some h'
    → HoldsDepth s h'
convert_depth-HoldsDepth s h h' r b e = converted_depth s h h' (rw r.frame at r.raw) r.proc b e
