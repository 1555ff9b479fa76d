-- ===== src/Usb/Iso/Carried.antt =====
-- What the packets of a transfer leave of a device whose streams run (libfreenect/src/cameras.c, as
-- `iso_callback` of libfreenect/src/usb_libusb10.c calls it).
use quartz_composer_open_kin.Camera.Process.{depth_process, video_process}
use quartz_composer_open_kin.Camera.Process.Laws.{depth_process-Delivers, video_process-Delivers}
use quartz_composer_open_kin.Camera.Process.Safety.{handled}
use quartz_composer_open_kin.Camera.Session.Good.{
  IsGood, depth_process-IsGood, video_process-IsGood,
}
use quartz_composer_open_kin.Convert.Packed.Value.{AllBelow}
use quartz_composer_open_kin.Device.{Device, Sys, IsocStream, Endpoint, depth_ep, video_ep}
use quartz_composer_open_kin.Memory.Bytes.{SameShape, SameShape-refl, SameShape-trans}
use quartz_composer_open_kin.Prelude.{
  ℕ, ◌≡◌, true, false, Option, some, List, [], ◌∷◌, arith, refl, inl, inr, ap, ◌∙◌, Bool-cases,
}
use quartz_composer_open_kin.Stream.Process.Stages.{IsKept, IsKept-refl, IsKept-trans}
use quartz_composer_open_kin.Usb.Iso.{process_packet, process_packets}

-- The same transfers in the same memory; only the count of the dead ones may differ.
pub record SameTransfers (s t : IsocStream) : Type 0 where
  pub xfers : t.xfers ≡ s.xfers
  pub xfers_array : t.xfers_array ≡ s.xfers_array
  pub buffer : t.buffer ≡ s.buffer
  pub num_xfers : t.num_xfers ≡ s.num_xfers
  pub pkts : t.pkts ≡ s.pkts
  pub dead : t.dead ≡ s.dead

pub SameTransfers-refl : (s : IsocStream) → SameTransfers s s
SameTransfers-refl s = ground arith

pub SameTransfers-trans :
    {s t u : IsocStream} → SameTransfers s t → SameTransfers t u → SameTransfers s u
SameTransfers-trans k l = ground arith

-- What events leave of a device's set-up: its streams, its transfers, its formats and its memory.
pub record IsCarried {W : Type 0} (y z : Sys W) : Type 0 where
  pub shape : SameShape y.heap z.heap
  pub depth : IsKept y.dev.depth z.dev.depth
  pub video : IsKept y.dev.video z.dev.video
  pub depth_isoc : SameTransfers y.dev.depth_isoc z.dev.depth_isoc
  pub video_isoc : SameTransfers y.dev.video_isoc z.dev.video_isoc
  pub depth_format : z.dev.depth_format ≡ y.dev.depth_format
  pub video_format : z.dev.video_format ≡ y.dev.video_format

-- Every packet is a list of bytes.
abbrev pub AllBytes : List (List ℕ) → Type 0
AllBytes [] = Unit {0}
AllBytes (pkt ∷ pkts) = AllBelow 256 pkt × AllBytes pkts

module _ {W : Type 0} where
  pub IsCarried-refl : (y : Sys W) → IsCarried y y
  IsCarried-refl y = record {
    shape = SameShape-refl y.heap;
    depth = IsKept-refl y.dev.depth;
    video = IsKept-refl y.dev.video;
    depth_isoc = SameTransfers-refl y.dev.depth_isoc;
    video_isoc = SameTransfers-refl y.dev.video_isoc;
    depth_format = refl;
    video_format = refl;
  }

  pub IsCarried-trans : (x y z : Sys W) → IsCarried x y → IsCarried y z → IsCarried x z
  IsCarried-trans x y z k l = record {
    shape = SameShape-trans x.heap y.heap z.heap k.shape l.shape;
    depth = IsKept-trans k.depth l.depth;
    video = IsKept-trans k.video l.video;
    depth_isoc = SameTransfers-trans k.depth_isoc l.depth_isoc;
    video_isoc = SameTransfers-trans k.video_isoc l.video_isoc;
    depth_format = l.depth_format ∙ k.depth_format;
    video_format = l.video_format ∙ k.video_format;
  }

  -- A step that does not fault, ends in a good state and carries the set-up.
  abbrev pub Carries : Sys W → Option (Sys W) → Type 0
  Carries y r = (z : Sys W) × (r ≡ some z) × IsGood z × IsCarried y z

  -- A stream that is stopped takes no packet.
  depth_process-off :
      (pkt : List ℕ) (y : Sys W) → y.dev.depth.running ≡ false → depth_process pkt y ≡ some y
  unfolding depth_process
  depth_process-off pkt y e = ground arith

  video_process-off :
      (pkt : List ℕ) (y : Sys W) → y.dev.video.running ≡ false → video_process pkt y ≡ some y
  unfolding video_process
  video_process-off pkt y e = ground arith

  depth_process-IsCarried :
      (pkt : List ℕ) (y z : Sys W)
      → AllBelow 256 pkt
      → IsGood y
      → SameShape y.heap z.heap
      → y.dev.depth.running ≡ true
      → depth_process pkt y ≡ some z
      → IsCarried y z
  depth_process-IsCarried pkt y z a g s on e = elim (depth_process-Delivers pkt y z e) [
    | inl (_, same) ↦ rw same (IsCarried-refl y)
    | inr (o, p, d, _) ↦
        (let k = handled _ y.dev.depth pkt y.heap o (g.depth on) a g.bytes p in
          record {
            shape = s;
            depth = rw (ap (λ (v : Device). v.depth) d) k.2;
            video = rw (ap (λ (v : Device). v.video) d) (IsKept-refl y.dev.video);
            depth_isoc =
                rw (ap (λ (v : Device). v.depth_isoc) d) (SameTransfers-refl y.dev.depth_isoc);
            video_isoc =
                rw (ap (λ (v : Device). v.video_isoc) d) (SameTransfers-refl y.dev.video_isoc);
            depth_format = ap (λ (v : Device). v.depth_format) d;
            video_format = ap (λ (v : Device). v.video_format) d;
          })
  ]

  video_process-IsCarried :
      (pkt : List ℕ) (y z : Sys W)
      → AllBelow 256 pkt
      → IsGood y
      → SameShape y.heap z.heap
      → y.dev.video.running ≡ true
      → video_process pkt y ≡ some z
      → IsCarried y z
  video_process-IsCarried pkt y z a g s on e = elim (video_process-Delivers pkt y z e) [
    | inl (_, same) ↦ rw same (IsCarried-refl y)
    | inr (o, p, d, _) ↦
        (let k = handled _ y.dev.video pkt y.heap o (g.video on) a g.bytes p in
          record {
            shape = s;
            depth = rw (ap (λ (v : Device). v.depth) d) (IsKept-refl y.dev.depth);
            video = rw (ap (λ (v : Device). v.video) d) k.2;
            depth_isoc =
                rw (ap (λ (v : Device). v.depth_isoc) d) (SameTransfers-refl y.dev.depth_isoc);
            video_isoc =
                rw (ap (λ (v : Device). v.video_isoc) d) (SameTransfers-refl y.dev.video_isoc);
            depth_format = ap (λ (v : Device). v.depth_format) d;
            video_format = ap (λ (v : Device). v.video_format) d;
          })
  ]

  process_packet-Carries :
      (ep : Endpoint) (pkt : List ℕ) (y : Sys W)
      → AllBelow 256 pkt
      → IsGood y
      → Carries y (process_packet ep pkt y)
  process_packet-Carries depth_ep pkt y a g = elim (Bool-cases y.dev.depth.running) [
    | inl on ↦
        (let (z, e, k, s) = depth_process-IsGood pkt y a g in
          (z, e, k, depth_process-IsCarried pkt y z a g s on e))
    | inr off ↦ (y, depth_process-off pkt y off, g, IsCarried-refl y)
  ]
  process_packet-Carries video_ep pkt y a g = elim (Bool-cases y.dev.video.running) [
    | inl on ↦
        (let (z, e, k, s) = video_process-IsGood pkt y a g in
          (z, e, k, video_process-IsCarried pkt y z a g s on e))
    | inr off ↦ (y, video_process-off pkt y off, g, IsCarried-refl y)
  ]

  pub process_packets-Carries :
      (ep : Endpoint) (pkts : List (List ℕ)) (y : Sys W)
      → AllBytes pkts
      → IsGood y
      → Carries y (process_packets ep pkts y)
  unfolding process_packets
  process_packets-Carries ep [] y a g = (y, refl, g, IsCarried-refl y)
  process_packets-Carries ep (pkt ∷ pkts) y (a, as_bytes) g =
      let (y₁, e, k, c) = process_packet-Carries ep pkt y a g in
      let (z, f, l, d) = process_packets-Carries ep pkts y₁ as_bytes k in
      (z, rw (e, f) refl, l, IsCarried-trans y y₁ z c d)
