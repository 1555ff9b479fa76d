-- ===== src/Camera/Process/Laws.antt =====
-- Frames that reach the client, and the one format whose buffer is too small for its frames.
use quartz_composer_open_kin.Camera.Process.{
  words, convert_depth, convert_video, deliver, depth_process, video_process,
}
use quartz_composer_open_kin.Camera.Switch.{video_sizes, put_depth, put_video}
use quartz_composer_open_kin.Convert.Packed.Laws.{convert_packed_to_16bit-spells}
use quartz_composer_open_kin.Convert.Packed.Value.{AllBelow}
use quartz_composer_open_kin.Device.{video_ir_10bit, ir_frame_pix, Sys}
use quartz_composer_open_kin.Memory.{Heap, blit, memcpy, contents}
use quartz_composer_open_kin.Prelude.{
  ℕ, ◌+◌, ◌*◌, ◌<◌, ◌≡◌, ◌⊎◌, false, Option, none, some, List, [], ◌∷◌, ◌==◌, if◌then◌else◌, not,
  length, ◌>>=◌, ◌||◌, arith, refl, inl, inr, Bool-cases, >>=-eq_some, ◌∙◌, ap,
}
use quartz_composer_open_kin.Stream.{PacketStream}
use quartz_composer_open_kin.Stream.Process.{stream_process}

pub length-words : (ws : List ℕ) → length (words ws) ≡ 2 * length ws
length-words [] = refl
length-words (w ∷ ws) = omega (arith, length-words ws)

blit-past : (off : ℕ) (src buf : List ℕ) → length buf < off + length src → blit off src buf ≡ none
unfolding blit
blit-past off src buf l = ground arith

memcpy-past :
    (p : ℕ) (off : ℕ) (src buf : List ℕ) (h : Heap)
    → h.block p ≡ some buf
    → length buf < off + length src
    → memcpy (some p) off src h ≡ none
unfolding memcpy
memcpy-past p off src buf h e l = rw (e, blit-past off src buf l) refl

-- The 10-bit infrared format overruns its buffer. `freenect_start_video` gives this format a buffer of
-- a Bayer frame, 307200 bytes; converting a frame of it writes 624640. So with a buffer of the size
-- asked for, and any raw frame of the size asked for, the conversion is a fault.
pub convert_video-overruns :
    (s : PacketStream) (h : Heap) (p q : ℕ) (raw buf : List ℕ)
    → s.raw_buf ≡ some p
    → h.block p ≡ some raw
    → s.proc_buf ≡ some q
    → h.block q ≡ some buf
    → AllBelow 256 raw
    → length raw ≡ (video_sizes video_ir_10bit).0
    → length buf ≡ (video_sizes video_ir_10bit).1
    → convert_video video_ir_10bit s h ≡ none
unfolding convert_video contents
convert_video-overruns s h p q raw buf a b c d e l m =
    let pixels = convert_packed_to_16bit-spells raw 10 ir_frame_pix (omega arith) e (omega arith) in
    let long : length buf < 0 + length (words pixels.0) =
      omega (arith, length-words pixels.0, pixels.2) in
    rw (a, c, b, d, pixels.1) (memcpy-past q 0 (words pixels.0) buf h d long)

-- A frame, and nothing else, is delivered.
module _ {W : Type 0} where
  -- What a packet that goes through the stream leads to: `convert` for a whole frame.
  abbrev pub after_packet :
      (PacketStream → Heap → Option Heap)
      → Option ℕ
      → (PacketStream → Sys W → Sys W)
      → Sys W
      → ℕ × PacketStream × Heap
      → Option (Sys W)
  after_packet convert cb put y (got, s, h) =
      if got == 0
      then some (record (put s y) { heap = h })
      else (convert s h >>= λ h'.
          some (record (put s y) { heap = h'; delivered = deliver cb s y.delivered }))

  -- The callback is called, once and with the processed buffer and the frame's timestamp, exactly
  -- where a frame was returned and could be converted.
  abbrev pub Delivers :
      (PacketStream → Heap → Option Heap)
      → Option ℕ
      → Sys W
      → Sys W
      → ℕ × PacketStream × Heap
      → Type 0
  Delivers convert cb y z (got, s, h) =
      ((got ≡ 0) × (z.heap ≡ h) × (z.delivered ≡ y.delivered))
      ⊎ ((0 < got) × (convert s h ≡ some z.heap) × (z.delivered ≡ deliver cb s y.delivered))

  after_packet-Delivers :
      (convert : PacketStream → Heap → Option Heap) (cb : Option ℕ)
      (put : PacketStream → Sys W → Sys W) (y z : Sys W) (o : ℕ × PacketStream × Heap)
      → (put o.1 y).delivered ≡ y.delivered
      → after_packet convert cb put y o ≡ some z
      → (z.dev ≡ (put o.1 y).dev) × Delivers convert cb y z o
  after_packet-Delivers convert cb put y z (got, s, h) k e = elim (Bool-cases (got == 0)) [
    | inl f ↦ (let q = rw f at e in (ground arith, inl (ground arith, ground arith, ground arith)))
    | inr f ↦
        (let (h', c, q) = >>=-eq_some (convert s h) _ (rw f at e) in
          (ground arith, inr (ground arith, c ∙ ap some (ground arith), ground arith)))
  ]

  -- Depth packets. A packet that `depth_process` handles without a fault either changes nothing at
  -- all, because it is empty or the stream is stopped, or goes through `stream_process`; then the
  -- client's callback is called, once and with the processed buffer and the frame's timestamp, exactly
  -- where `stream_process` returned a frame, behind its conversion.
  pub depth_process-Delivers :
      (pkt : List ℕ) (y z : Sys W)
      → depth_process pkt y ≡ some z
      → (((length pkt ≡ 0) ⊎ (y.dev.depth.running ≡ false)) × (z ≡ y))
        ⊎ ((o : ℕ × PacketStream × Heap) × (stream_process y.dev.depth pkt y.heap ≡ some o)
            × (z.dev ≡ record (y.dev) { depth = o.1 })
            × Delivers (convert_depth y.dev.depth_format) y.dev.depth_cb y z o)
  unfolding depth_process
  depth_process-Delivers pkt y z = elim (Bool-cases (length pkt == 0 || not y.dev.depth.running)) [
    | inl e ↦ rw e (λ q. inl (ground arith, ground arith))
    | inr e ↦ rw e (λ q.
        let (o, p, r) = >>=-eq_some (stream_process y.dev.depth pkt y.heap) _ q in
        let d =
          after_packet-Delivers (convert_depth y.dev.depth_format) y.dev.depth_cb put_depth y z o
            refl r in
        inr (o, p, d.0, d.1))
  ]

  -- Video packets, the same for `video_process`.
  pub video_process-Delivers :
      (pkt : List ℕ) (y z : Sys W)
      → video_process pkt y ≡ some z
      → (((length pkt ≡ 0) ⊎ (y.dev.video.running ≡ false)) × (z ≡ y))
        ⊎ ((o : ℕ × PacketStream × Heap) × (stream_process y.dev.video pkt y.heap ≡ some o)
            × (z.dev ≡ record (y.dev) { video = o.1 })
            × Delivers (convert_video y.dev.video_format) y.dev.video_cb y z o)
  unfolding video_process
  video_process-Delivers pkt y z = elim (Bool-cases (length pkt == 0 || not y.dev.video.running)) [
    | inl e ↦ rw e (λ q. inl (ground arith, ground arith))
    | inr e ↦ rw e (λ q.
        let (o, p, r) = >>=-eq_some (stream_process y.dev.video pkt y.heap) _ q in
        let d =
          after_packet-Delivers (convert_video y.dev.video_format) y.dev.video_cb put_video y z o
            refl r in
        inr (o, p, d.0, d.1))
  ]
