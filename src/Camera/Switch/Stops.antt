-- ===== src/Camera/Switch/Stops.antt =====
-- `freenect_stop_depth` and `freenect_stop_video` of libfreenect/src/cameras.c from the register write
-- to the frees, while the other stream may run.
use mathlib.Core.List.{Mem, Nodup}
use quartz_composer_open_kin.Camera.Session.Good.{IsGood}
use quartz_composer_open_kin.Camera.Session.Setters.{true-false}
use quartz_composer_open_kin.Camera.Switch.{put_video, stop_video, write_all}
use quartz_composer_open_kin.Camera.Switch.Replies.{Replies, write_all-Tagged}
use quartz_composer_open_kin.Device.{Libusb, Device, Sys, Endpoint, depth_ep, video_ep}
use quartz_composer_open_kin.Memory.{Heap}
use quartz_composer_open_kin.Memory.Frees.{
  free_each, free_each-append, free-pointed, pointed, AllAllocated,
}
use quartz_composer_open_kin.Prelude.{
  ℕ, suc, ◌+◌, ◌*◌, ◌≤◌, ◌≡◌, ◌<◌, true, false, none, some, List, [], ◌∷◌, ◌++◌, arith, refl, ap,
  ◌∙◌, sym, inl, inr, Bool-cases, if◌then◌else◌, length, pos,
}
use quartz_composer_open_kin.Stream.{PacketStream}
use quartz_composer_open_kin.Stream.Buffers.{stream_freebufs}
use quartz_composer_open_kin.Stream.Process.Stages.{IsKept}
use quartz_composer_open_kin.Usb.Iso.{no_isoc, cancel_all}
use quartz_composer_open_kin.Usb.Iso.Drain.{Cancels}
use quartz_composer_open_kin.Usb.Iso.Frees.{isoc_blocks, stop_iso-IsStopped}

-- The blocks that `stream_freebufs` frees.
abbrev pub stream_blocks : PacketStream → List ℕ
stream_blocks s = (if s.split_bufs then pointed s.raw_buf else []) ++ pointed s.lib_buf

abbrev pub without_buffers : PacketStream → PacketStream
without_buffers s = record s { raw_buf = none; proc_buf = none; lib_buf = none }

stream_freebufs-blocks :
    (s : PacketStream) (h h' : Heap)
    → free_each (stream_blocks s) h ≡ some h'
    → stream_freebufs s h ≡ some (without_buffers s, h')
unfolding stream_freebufs
stream_freebufs-blocks s h h' e = elim (Bool-cases s.split_bufs) [
  | inl c ↦
      (let (h₁, f, g) = free_each-append (pointed s.raw_buf) (pointed s.lib_buf) h h' (rw c at e) in
        rw (c, free-pointed s.raw_buf h h₁ f, free-pointed s.lib_buf h₁ h' g) refl)
  | inr c ↦ rw (c, free-pointed s.lib_buf h h' (rw c at e)) refl
]

IsKept-blocks : (s t : PacketStream) → IsKept s t → stream_blocks t ≡ stream_blocks s
IsKept-blocks s t k = rw (k.split_bufs, k.raw_buf, k.lib_buf) refl

-- How libusb ends the transfers of a stream that is stopped. `in_flight` lists those submitted that are
-- neither reported nor cancelled, and `pending` counts the cancelled ones that are still to be reported.
-- Where every transfer in flight is cancelled, all of them become pending, and each costs `patience`
-- rounds of events at most; nothing is said of one that is not cancelled.
pub record Halts {W : Type 0} (usb : Libusb W) (ep : Endpoint) (in_flight : W → List ℕ)
    : Type 0 where
  pub patience : ℕ
  pub pending : W → ℕ
  pub rounds : W → ℕ
  pub cancels : Cancels usb ep pending rounds
  pub replies : Replies {V = List ℕ × ℕ × ℕ} usb (λ w. (in_flight w, pending w, rounds w))
  pub cancel_pending :
      (xs : List ℕ) (w : W)
      → ((x : ℕ) → Mem x (in_flight w) → Mem x xs)
      → pending (cancel_all usb xs w) ≡ pending w + length (in_flight w)
  pub cancel_rounds :
      (xs : List ℕ) (w : W)
      → ((x : ℕ) → Mem x (in_flight w) → Mem x xs)
      → rounds (cancel_all usb xs w) ≤ rounds w + patience * length (in_flight w)

module _ {W : Type 0} where
  -- The blocks of a running stream and its transfers.
  abbrev pub depth_blocks : Sys W → List ℕ
  depth_blocks y = isoc_blocks depth_ep y ++ stream_blocks y.dev.depth

  abbrev pub video_blocks : Sys W → List ℕ
  video_blocks y = isoc_blocks video_ep y ++ stream_blocks y.dev.video

module _ {W : Type 0} (usb : Libusb W) (in_flight : W → List ℕ) (fuel : ℕ) (ibuf : List ℕ) where
  -- Stopping video, the same for the other stream.
  pub stop_video-IsSafe :
      (y : Sys W)
      → (halts : Halts usb video_ep in_flight) → IsGood y
      → y.dev.video.running ≡ true
      → y.dev.video_isoc.dead_xfers + (halts.pending y.world + length (in_flight y.world))
        ≡ y.dev.video_isoc.num_xfers
      → ((x : ℕ) → Mem x (in_flight y.world) → Mem x y.dev.video_isoc.xfers)
      → halts.rounds y.world + halts.patience * length (in_flight y.world) < suc fuel
      → Nodup (video_blocks y)
      → AllAllocated (video_blocks y) y.heap
      → (z : Sys W) × (stop_video usb (suc fuel) ibuf y ≡ some (pos 0, z))
        × (z.dev.video.running ≡ false)
        × (z.dev.video_isoc ≡ no_isoc)
        × (z.dev.video ≡ without_buffers z.dev.video)
        × IsKept y.dev.depth z.dev.depth
        × ((q : ℕ) → Mem q (video_blocks y) → z.heap.block q ≡ none)
        × ((q : ℕ) (b : List ℕ)
            → ¬ Mem q (video_blocks y)
            → y.heap.block q ≡ some b
            → (b' : List ℕ) × (z.heap.block q ≡ some b') × (length b' ≡ length b))
  unfolding stop_video
  stop_video-IsSafe y halts g on m cover l d a =
      let off = put_video (record (y.dev.video) { running = false }) y in
      let (y', e, (t, w, same, f)) =
        write_all-Tagged usb (λ w. (in_flight w, halts.pending w, halts.rounds w)) halts.replies
          fuel ibuf ((0x05, 0x00) ∷ []) off in
      let f₀ : in_flight w ≡ in_flight y.world = ap (λ (v : List ℕ × ℕ × ℕ). v.0) f in
      let f₁ : halts.pending w ≡ halts.pending y.world = ap (λ (v : List ℕ × ℕ × ℕ). v.1) f in
      let f₂ : halts.rounds w ≡ halts.rounds y.world = ap (λ (v : List ℕ × ℕ × ℕ). v.2) f in
      let covered : (x : ℕ) → Mem x (in_flight w) → Mem x y.dev.video_isoc.xfers =
        λ x k. cover x (rw f₀ at k) in
      let y₁ = record off { dev = record (off.dev) { cam_tag = t }; world = w } in
      let wrote : write_all usb (suc fuel) ibuf ((0x05, 0x00) ∷ []) off ≡ some y₁ =
        e ∙ ap some same in
      let g₁ : IsGood y₁ = record {
        bytes = g.bytes;
        depth = g.depth;
        video = λ running. absurd (true-false (sym running));
        format = λ running. absurd (true-false (sym running));
      } in
      let (z₁, r, s) =
        stop_iso-IsStopped usb video_ep halts.pending halts.rounds halts.cancels (suc fuel)
          (stream_blocks y.dev.video) y₁ g₁
          (omega
            (arith, halts.cancel_pending y.dev.video_isoc.xfers w covered, f₁, ap length f₀, m))
          (omega (
            arith,
            halts.cancel_rounds y.dev.video_isoc.xfers w covered,
            f₂,
            ap (λ (fs : List ℕ). halts.patience * length fs) f₀,
          ))
          d a in
      let k = s.carried.video in
      let there : z₁.dev.video ≡ s.waited.dev.video = ap (λ (v : Device). v.video) s.ended in
      let frees : stream_freebufs z₁.dev.video z₁.heap
          ≡ some (without_buffers z₁.dev.video, s.after) =
        stream_freebufs-blocks z₁.dev.video z₁.heap s.after (
          ap (λ ps. free_each ps z₁.heap)
            (ap stream_blocks there ∙ IsKept-blocks _ s.waited.dev.video k)
          ∙ s.frees) in
      (
        put_video (without_buffers z₁.dev.video) (record z₁ { heap = s.after }),
        rw (on, wrote, r, frees) refl,
        ap (λ (v : PacketStream). v.running) there ∙ k.running,
        ap (λ (v : Device). v.video_isoc) s.ended,
        refl,
        rw (ap (λ (v : Device). v.depth) s.ended) s.carried.depth,
        s.gone,
        λ q b out own.
            (let (b', at_q, len) = s.carried.shape q b own in (b', s.others q out ∙ at_q, len)),
      )
