-- ===== src/Camera/Process/Safety.antt =====
-- A running stream that any packet of bytes can come to: the packet is handled without a fault, and
-- leaves the stream as ready for the next one.
use quartz_composer_open_kin.Camera.Process.{convert_with, convert_depth, convert_video}
use quartz_composer_open_kin.Camera.Process.Converts.{
  Converts, to_words-Converts, to_bytes-Converts, convert_bayer_to_rgb-Converts,
  convert_uyvy_to_rgb-Converts,
}
use quartz_composer_open_kin.Camera.Switch.{depth_sizes, video_sizes}
use quartz_composer_open_kin.Camera.Switch.Laws.{frame_of}
use quartz_composer_open_kin.Convert.Packed.Value.{AllBelow}
use quartz_composer_open_kin.Device.{
  VideoFormat, video_rgb, video_bayer, video_ir_8bit, video_ir_10bit, video_ir_10bit_packed,
  video_yuv_rgb, video_yuv_raw, DepthFormat, depth_11bit, depth_10bit, depth_11bit_packed,
  depth_10bit_packed,
}
use quartz_composer_open_kin.Memory.{Heap, Pointer, contents}
use quartz_composer_open_kin.Memory.Bytes.{
  HoldsBytes, SameShape, SameShape-refl, Sound, Fits, Fits-shape, memcpy-Sound,
}
use quartz_composer_open_kin.Prelude.{
  ℕ, ◌≡◌, ◌≢◌, ◌⊎◌, false, Option, none, some, List, arith, length, refl, inl, inr, ◌∙◌, sym,
}
use quartz_composer_open_kin.Stream.{PacketStream}
use quartz_composer_open_kin.Stream.Process.{stream_process}
use quartz_composer_open_kin.Stream.Process.Frames.{IsCamera, IsCamera-kept, stream_process-Outcome}
use quartz_composer_open_kin.Stream.Process.Stages.{IsCounted, IsKept}
use quartz_composer_open_kin.Stream.Process.Writes.{stream_process-IsSoundStep}

-- The pointer may be NULL.
abbrev pub FitsOrNull : ℕ → Pointer → Heap → Type 0
FitsOrNull n p h = (p ≡ none) ⊎ Fits n p h

-- A camera's stream whose buffers have the sizes asked for.
pub record StreamReady (sizes : ℕ × ℕ) (s : PacketStream) (h : Heap) : Type 0 where
  pub camera : IsCamera s
  pub counted : IsCounted s
  pub frame : s.frame_size ≡ frame_of sizes
  pub whole : s.split_bufs ≡ false → s.frame_size ≡ sizes.1
  pub raw : Fits s.frame_size s.raw_buf h
  pub proc : Fits sizes.1 s.proc_buf h
  pub lib : FitsOrNull sizes.1 s.lib_buf h

pub FitsOrNull-shape :
    (n : ℕ) (p : Pointer) (h h' : Heap) → SameShape h h' → FitsOrNull n p h → FitsOrNull n p h'
FitsOrNull-shape n p h h' s (inl e) = inl e
FitsOrNull-shape n p h h' s (inr f) = inr (Fits-shape n p h h' s f)

pub StreamReady-shape :
    (sizes : ℕ × ℕ) (s : PacketStream) (h h' : Heap)
    → SameShape h h'
    → StreamReady sizes s h
    → StreamReady sizes s h'
StreamReady-shape sizes s h h' k r = record {
  camera = r.camera;
  counted = r.counted;
  frame = r.frame;
  whole = r.whole;
  raw = Fits-shape s.frame_size s.raw_buf h h' k r.raw;
  proc = Fits-shape sizes.1 s.proc_buf h h' k r.proc;
  lib = FitsOrNull-shape sizes.1 s.lib_buf h h' k r.lib;
}

StreamReady-kept :
    (sizes : ℕ × ℕ) (s t : PacketStream) (h : Heap)
    → IsKept s t
    → IsCounted t
    → StreamReady sizes s h
    → StreamReady sizes t h
StreamReady-kept sizes s t h k c r = record {
  camera = IsCamera-kept k r.camera;
  counted = c;
  frame = k.frame_size ∙ r.frame;
  whole = λ e. k.frame_size ∙ r.whole (sym k.split_bufs ∙ e);
  raw = rw (k.frame_size, k.raw_buf) r.raw;
  proc = rw k.proc_buf r.proc;
  lib = rw k.lib_buf r.lib;
}

-- What a packet does to a ready stream, whatever its bytes.
pub record IsHandled (sizes : ℕ × ℕ) (s : PacketStream) (pkt : List ℕ) (h : Heap) : Type 0 where
  pub got : ℕ
  pub stream : PacketStream
  pub heap : Heap
  pub returns : stream_process s pkt h ≡ some (got, stream, heap)
  pub kept : IsKept s stream
  pub ready : StreamReady sizes stream heap
  pub sound : Sound h heap

pub stream_process-IsHandled :
    (sizes : ℕ × ℕ) (s : PacketStream) (pkt : List ℕ) (h : Heap)
    → StreamReady sizes s h
    → AllBelow 256 pkt
    → HoldsBytes h
    → IsHandled sizes s pkt h
stream_process-IsHandled sizes s pkt h r a b =
    let p = stream_process-IsSoundStep s pkt h r.camera.sized r.raw a b in
    record {
      got = p.out.0;
      stream = p.out.1;
      heap = p.out.2;
      returns = p.returns;
      kept = p.kept;
      ready = StreamReady-shape sizes p.out.1 h p.out.2 p.sound.shape (
          StreamReady-kept sizes s p.out.1 h p.kept
            ((stream_process-Outcome s pkt h p.out r.camera r.counted p.returns).0) r);
      sound = p.sound;
    }

-- The stream and the heap behind a packet.
pub handled :
    (sizes : ℕ × ℕ) (s : PacketStream) (pkt : List ℕ) (h : Heap) (o : ℕ × PacketStream × Heap)
    → StreamReady sizes s h
    → AllBelow 256 pkt
    → HoldsBytes h
    → stream_process s pkt h ≡ some o
    → StreamReady sizes o.1 o.2 × HoldsBytes o.2 × IsKept s o.1
handled sizes s pkt h o r a b e =
    let k = stream_process-IsHandled sizes s pkt h r a b in
    let same : (k.got, k.stream, k.heap) ≡ o = some_out (sym k.returns ∙ e) in
    rw (← same) (k.ready, k.sound.bytes, k.kept)
  where
    some_out : {c d : ℕ × PacketStream × Heap} → some c ≡ some d → c ≡ d
    some_out e = cc

-- A conversion that makes bytes that fit.
abbrev pub Safely : Heap → Option Heap → Type 0
Safely h r = (h' : Heap) × (r ≡ some h') × Sound h h'

convert_with-Safely :
    (f : List ℕ → List ℕ → Option (List ℕ)) (rlen plen : ℕ) (s : PacketStream) (h : Heap)
    → Converts f rlen plen
    → Fits rlen s.raw_buf h
    → Fits plen s.proc_buf h
    → HoldsBytes h
    → Safely h (convert_with f s h)
unfolding contents
convert_with-Safely f rlen plen s h c (p, raw, e, g, l) (q, proc, e', g', l') b =
    let (out, r, n, a) = c raw proc l (b.blocks p raw g) l' (b.blocks q proc g') in
    let m =
      memcpy-Sound (some q) 0 (length proc) out h (q, proc, refl, g', omega arith) (omega arith) a
        b in
    (m.0, rw (e, e', g, g', r) m.1, m.2)

untouched : (h : Heap) → HoldsBytes h → Safely h (some h)
untouched h b = (h, refl, record { bytes = b; shape = SameShape-refl h })

module _ (s : PacketStream) (h : Heap) (b : HoldsBytes h) where
  pub convert_depth-Safely :
      (f : DepthFormat) → StreamReady (depth_sizes f) s h → Safely h (convert_depth f s h)
  unfolding convert_depth
  convert_depth-Safely depth_11bit r =
      convert_with-Safely _ 422400 614400 s h
        (to_words-Converts 11 307200 422400 614400 (omega arith) (omega arith) (omega arith)
          (omega arith))
        (rw r.frame at r.raw) r.proc b
  convert_depth-Safely depth_10bit r =
      convert_with-Safely _ 384000 614400 s h
        (to_words-Converts 10 307200 384000 614400 (omega arith) (omega arith) (omega arith)
          (omega arith))
        (rw r.frame at r.raw) r.proc b
  convert_depth-Safely depth_11bit_packed r = untouched h b
  convert_depth-Safely depth_10bit_packed r = untouched h b

  pub convert_video-Safely :
      (f : VideoFormat)
      → f ≢ video_ir_10bit
      → StreamReady (video_sizes f) s h
      → Safely h (convert_video f s h)
  unfolding convert_video
  convert_video-Safely video_rgb n r =
      convert_with-Safely _ 307200 921600 s h convert_bayer_to_rgb-Converts (rw r.frame at r.raw)
        r.proc b
  convert_video-Safely video_bayer n r = untouched h b
  convert_video-Safely video_ir_8bit n r =
      convert_with-Safely _ 390400 312320 s h
        (to_bytes-Converts 312320 390400 312320 (omega arith) (omega arith)) (rw r.frame at r.raw)
        r.proc b
  convert_video-Safely video_ir_10bit n r = absurd (n refl)
  convert_video-Safely video_ir_10bit_packed n r = untouched h b
  convert_video-Safely video_yuv_rgb n r =
      convert_with-Safely _ 614400 921600 s h convert_uyvy_to_rgb-Converts (rw r.frame at r.raw)
        r.proc b
  convert_video-Safely video_yuv_raw n r = untouched h b
