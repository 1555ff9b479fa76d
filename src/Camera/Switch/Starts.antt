-- ===== src/Camera/Switch/Starts.antt =====
-- `freenect_start_depth` and `freenect_start_video` of libfreenect/src/cameras.c from the buffers to the
-- register writes, with `fnusb_start_iso` between them.
use quartz_composer_open_kin.Camera.Process.Safety.{StreamReady-shape}
use quartz_composer_open_kin.Camera.Session.Good.{IsGood}
use quartz_composer_open_kin.Camera.Session.Ready.{
  Grows, Grows-trans, malloc-Grows, stream_init-room,
}
use quartz_composer_open_kin.Camera.Session.Start.{started_depth-IsGood, started_video-IsGood}
use quartz_composer_open_kin.Camera.Switch.{
  depth_sizes, video_sizes, depth_setup, video_setup, init_depth, init_video, start_depth,
  start_video, num_xfers, pkts_per_xfer, pktbuf, start_depth_writes, start_video_writes,
}
use quartz_composer_open_kin.Camera.Switch.Replies.{Replies, write_all-Tagged}
use quartz_composer_open_kin.Device.{
  Libusb, IsocStream, Sys, Endpoint, depth_ep, video_ep, video_ir_10bit,
}
use quartz_composer_open_kin.Memory.{Heap, malloc}
use quartz_composer_open_kin.Memory.Bytes.{HoldsBytes, SameShape, SameShape-trans}
use quartz_composer_open_kin.Prelude.{
  ℕ, suc, ◌+◌, ◌*◌, ◌-◌, ◌≡◌, ◌≢◌, ◌≤◌, true, false, some, arith, refl, ap, ◌∙◌, is_some, leb, pos,
  List, >>=-some, if-true, if-false,
}
use quartz_composer_open_kin.Stream.Buffers.Laws.{IsFresh, UserFits}
use quartz_composer_open_kin.Usb.Iso.{put_isoc, start_iso}

malloc-takes :
    (n : ℕ) (h : Heap)
    → n ≤ h.room
    → (is_some (malloc n h).0 ≡ true) × ((malloc n h).1.room ≡ h.room - n)
unfolding malloc
malloc-takes n h l = let e : leb n h.room ≡ true = ground arith in rw e (refl, refl)

-- What the transfers of a stream take.
abbrev pub iso_room : ℕ
iso_room = num_xfers * pkts_per_xfer * pktbuf + 8 * num_xfers

module _ {W : Type 0} (usb : Libusb W) where
  start_iso-Grows :
      (ep : Endpoint) (y : Sys W)
      → iso_room ≤ y.heap.room
      → HoldsBytes y.heap
      → IsFresh y.heap
      → (s : IsocStream) × (h : Heap) × (w : W) × (start_iso usb ep num_xfers pkts_per_xfer pktbuf y
          ≡ some (put_isoc ep s (record y { heap = h; world = w })))
        × Grows y.heap h
        × (h.room + iso_room ≡ y.heap.room)
  unfolding start_iso
  start_iso-Grows ep y l b f =
      let (_, r₁) = malloc-takes (num_xfers * pkts_per_xfer * pktbuf) y.heap (omega arith) in
      let g₁ = malloc-Grows (num_xfers * pkts_per_xfer * pktbuf) y.heap b f in
      let h₁ = (malloc (num_xfers * pkts_per_xfer * pktbuf) y.heap).1 in
      let (there, r₂) = malloc-takes (8 * num_xfers) h₁ (omega (arith, r₁)) in
      let g₂ = malloc-Grows (8 * num_xfers) h₁ g₁.sound.bytes g₁.fresh in
      (_, _, _, if-true _ _ there, Grows-trans _ _ _ g₁ g₂, omega (arith, r₁, r₂))

module _ {W : Type 0} where
  -- What starting a stream leaves alone, but for `n` bytes that it takes.
  pub record Started (n : ℕ) (y z : Sys W) : Type 0 where
    pub good : IsGood z
    pub shape : SameShape y.heap z.heap
    pub fresh : IsFresh z.heap
    pub room : y.heap.room ≤ z.heap.room + n
    pub depth_format : z.dev.depth_format ≡ y.dev.depth_format
    pub video_format : z.dev.video_format ≡ y.dev.video_format

module _ {W : Type 0} (usb : Libusb W) (flying : W → ℕ) (replies : Replies usb flying) (fuel : ℕ)
    (ibuf : List ℕ) where
  pub start_depth-IsGood :
      (y : Sys W)
      → y.dev.depth.running ≡ false
      → (depth_sizes y.dev.depth_format).0 + (depth_sizes y.dev.depth_format).1 + iso_room
        ≤ y.heap.room
      → UserFits y.dev.depth (depth_sizes y.dev.depth_format).1 y.heap
      → IsFresh y.heap
      → IsGood y
      → (z : Sys W) × (start_depth usb (suc fuel) ibuf y ≡ some (pos 0, z))
        × Started
            ((depth_sizes y.dev.depth_format).0 + (depth_sizes y.dev.depth_format).1 + iso_room)
            y
            z
        × (z.dev.depth.running ≡ true)
        × (z.dev.video ≡ y.dev.video)
  unfolding start_depth init_depth
  start_depth-IsGood y off l u f g =
      let (g₁, k₁, f₁) = started_depth-IsGood y (omega arith) u f g in
      let left =
        stream_init-room (depth_setup y.dev) (depth_sizes y.dev.depth_format).0
          (depth_sizes y.dev.depth_format).1 y.heap in
      let (s, h, w, r, k₂, m) =
        start_iso-Grows usb depth_ep (init_depth y) (omega (arith, left)) g₁.bytes f₁ in
      let y₁ = put_isoc depth_ep s (record (init_depth y) { heap = h; world = w }) in
      let (y₂, e, (t, w', same, _)) =
        write_all-Tagged usb flying replies fuel ibuf (start_depth_writes y.dev.depth_format) y₁ in
      let wrote = e ∙ ap some same in
      (
        _,
        if-false _ _ off ∙ >>=-some _ r ∙ >>=-some _ wrote,
        record {
          good = record {
            bytes = k₂.sound.bytes;
            depth = λ on. StreamReady-shape _ _ _ h k₂.sound.shape (g₁.depth refl);
            video = λ on. StreamReady-shape _ y.dev.video _ h k₂.sound.shape (g₁.video on);
            format = g₁.format;
          };
          shape = SameShape-trans y.heap (init_depth y).heap h k₁ k₂.sound.shape;
          fresh = k₂.fresh;
          room = omega (arith, left, m);
          depth_format = refl;
          video_format = refl;
        },
        refl,
        refl,
      )

  pub start_video-IsGood :
      (y : Sys W)
      → y.dev.video.running ≡ false
      → (video_sizes y.dev.video_format).0 + (video_sizes y.dev.video_format).1 + iso_room
        ≤ y.heap.room
      → UserFits y.dev.video (video_sizes y.dev.video_format).1 y.heap
      → IsFresh y.heap
      → y.dev.video_format ≢ video_ir_10bit
      → IsGood y
      → (z : Sys W) × (start_video usb (suc fuel) ibuf y ≡ some (pos 0, z))
        × Started
            ((video_sizes y.dev.video_format).0 + (video_sizes y.dev.video_format).1 + iso_room)
            y
            z
        × (z.dev.video.running ≡ true)
        × (z.dev.video.proc_buf ≡ (init_video y).dev.video.proc_buf)
        × (z.dev.depth ≡ y.dev.depth)
  unfolding start_video init_video
  start_video-IsGood y off l u f n g =
      let (g₁, k₁, f₁) = started_video-IsGood y (omega arith) u f n g in
      let left =
        stream_init-room (video_setup y.dev) (video_sizes y.dev.video_format).0
          (video_sizes y.dev.video_format).1 y.heap in
      let (s, h, w, r, k₂, m) =
        start_iso-Grows usb video_ep (init_video y) (omega (arith, left)) g₁.bytes f₁ in
      let y₁ = put_isoc video_ep s (record (init_video y) { heap = h; world = w }) in
      let (y₂, e, (t, w', same, _)) =
        write_all-Tagged usb flying replies fuel ibuf (start_video_writes y.dev.video_format) y₁ in
      let wrote = e ∙ ap some same in
      (
        _,
        if-false _ _ off ∙ >>=-some _ r ∙ >>=-some _ wrote,
        record {
          good = record {
            bytes = k₂.sound.bytes;
            depth = λ on. StreamReady-shape _ y.dev.depth _ h k₂.sound.shape (g₁.depth on);
            video = λ on. StreamReady-shape _ _ _ h k₂.sound.shape (g₁.video refl);
            format = λ on. n;
          };
          shape = SameShape-trans y.heap (init_video y).heap h k₁ k₂.sound.shape;
          fresh = k₂.fresh;
          room = omega (arith, left, m);
          depth_format = refl;
          video_format = refl;
        },
        refl,
        refl,
        refl,
      )
