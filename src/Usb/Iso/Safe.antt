-- ===== src/Usb/Iso/Safe.antt =====
-- What libusb's events do to a device whose streams run: the callbacks of
-- libfreenect/src/usb_libusb10.c with the packet processing of libfreenect/src/cameras.c behind them.
use quartz_composer_open_kin.Camera.Session.Good.{IsGood}
use quartz_composer_open_kin.Device.{Libusb, Sys, Endpoint, depth_ep, video_ep, Completion}
use quartz_composer_open_kin.Memory.Bytes.{SameShape-refl}
use quartz_composer_open_kin.Prelude.{
  ℕ, zero, suc, ◌≡◌, true, false, some, List, [], ◌∷◌, arith, refl, inl, inr, take, Bool-cases,
}
use quartz_composer_open_kin.Stream.Process.Stages.{IsKept-refl}
use quartz_composer_open_kin.Usb.Iso.{
  isoc_of, count_dead, process_packets, iso_callback, callbacks, process_events,
}
use quartz_composer_open_kin.Usb.Iso.Carried.{
  SameTransfers-refl, IsCarried, IsCarried-refl, IsCarried-trans, AllBytes, Carries,
  process_packets-Carries,
}

-- What libusb reports are bytes.
abbrev pub AllReported : List Completion → Type 0
AllReported [] = Unit {0}
AllReported (c ∷ cs) = AllBytes c.packets × AllReported cs

AllBytes-take : (n : ℕ) (pkts : List (List ℕ)) → AllBytes pkts → AllBytes (take n pkts)
AllBytes-take zero pkts a = tt
AllBytes-take (suc n) [] a = tt
AllBytes-take (suc n) (pkt ∷ pkts) (a, b) = (a, AllBytes-take n pkts b)

module _ {W : Type 0} where
  -- The world of libusb is not part of what is carried.
  IsGood-world : (y : Sys W) (w : W) → IsGood y → IsGood (record y { world = w })
  IsGood-world y w g = record {
    bytes = g.bytes;
    depth = g.depth;
    video = g.video;
    format = g.format;
  }

  IsCarried-world : (y z : Sys W) (w : W) → IsCarried y z → IsCarried y (record z { world = w })
  IsCarried-world y z w c = record {
    shape = c.shape;
    depth = c.depth;
    video = c.video;
    depth_isoc = c.depth_isoc;
    video_isoc = c.video_isoc;
    depth_format = c.depth_format;
    video_format = c.video_format;
  }

  count_dead-Carries : (ep : Endpoint) (y : Sys W) → IsGood y → Carries y (some (count_dead ep y))
  count_dead-Carries depth_ep y g = (
    _,
    refl,
    record { bytes = g.bytes; depth = g.depth; video = g.video; format = g.format },
    record {
      shape = SameShape-refl y.heap;
      depth = IsKept-refl y.dev.depth;
      video = IsKept-refl y.dev.video;
      depth_isoc = ground arith;
      video_isoc = SameTransfers-refl y.dev.video_isoc;
      depth_format = refl;
      video_format = refl;
    },
  )
  count_dead-Carries video_ep y g = (
    _,
    refl,
    record { bytes = g.bytes; depth = g.depth; video = g.video; format = g.format },
    record {
      shape = SameShape-refl y.heap;
      depth = IsKept-refl y.dev.depth;
      video = IsKept-refl y.dev.video;
      depth_isoc = SameTransfers-refl y.dev.depth_isoc;
      video_isoc = ground arith;
      depth_format = refl;
      video_format = refl;
    },
  )

module _ {W : Type 0} (usb : Libusb W) where
  -- The three branches.
  pub iso_callback-dead_lem :
      (c : Completion) (y : Sys W)
      → (isoc_of c.endpoint y.dev).dead ≡ true
      → iso_callback usb c y ≡ some (count_dead c.endpoint y)
  unfolding iso_callback
  iso_callback-dead_lem c y d = rw d refl

  pub iso_callback-failed :
      (c : Completion) (y : Sys W)
      → (isoc_of c.endpoint y.dev).dead ≡ false
      → c.completed ≡ false
      → iso_callback usb c y ≡ some (count_dead c.endpoint y)
  unfolding iso_callback
  iso_callback-failed c y d f = rw (d, f) refl

  pub iso_callback-completed :
      (c : Completion) (y z : Sys W)
      → (isoc_of c.endpoint y.dev).dead ≡ false
      → c.completed ≡ true
      → process_packets c.endpoint (take (isoc_of c.endpoint y.dev).pkts c.packets) y ≡ some z
      → iso_callback usb c y ≡ some (record z { world = (usb.submit_transfer c.xfer z.world).1 })
  unfolding iso_callback
  iso_callback-completed c y z d ok e = rw (d, ok, e) refl

  iso_callback-Carries :
      (c : Completion) (y : Sys W)
      → AllBytes c.packets
      → IsGood y
      → Carries y (iso_callback usb c y)
  iso_callback-Carries c y a g = elim (Bool-cases (isoc_of c.endpoint y.dev).dead) [
    | inl d ↦ rw (iso_callback-dead_lem c y d) (count_dead-Carries c.endpoint y g)
    | inr d ↦ elim (Bool-cases c.completed) [
      | inl ok ↦
          (let n = (isoc_of c.endpoint y.dev).pkts in
            let (z, e, k, l) =
              process_packets-Carries c.endpoint (take n c.packets) y (AllBytes-take n c.packets a)
                g in
            let w = (usb.submit_transfer c.xfer z.world).1 in
            (
              record z { world = w },
              iso_callback-completed c y z d ok e,
              IsGood-world z w k,
              IsCarried-world y z w l,
            ))
      | inr failed ↦ rw (iso_callback-failed c y d failed) (count_dead-Carries c.endpoint y g)
    ]
  ]

  pub callbacks-Carries :
      (cs : List Completion) (y : Sys W)
      → AllReported cs
      → IsGood y
      → Carries y (callbacks usb cs y)
  unfolding callbacks
  callbacks-Carries [] y a g = (y, refl, g, IsCarried-refl y)
  callbacks-Carries (c ∷ cs) y (a, as_bytes) g =
      let (y₁, e, k, l) = iso_callback-Carries c y a g in
      let (z, f, m, n) = callbacks-Carries cs y₁ as_bytes k in
      (z, rw (e, f) refl, m, IsCarried-trans y y₁ z l n)

  -- Rounds of events. From a good state, where libusb reports packets of bytes for whatever transfers
  -- of either stream, completed or not, `freenect_process_events` returns what libusb returned. It
  -- leaves a good state with every block allocated as before, and with the set-up of the streams,
  -- their transfers and the formats carried over.
  pub process_events-IsSafe :
      (y : Sys W)
      → AllReported (usb.handle_events y.world).1
      → IsGood y
      → (z : Sys W) × (process_events usb y ≡ some ((usb.handle_events y.world).0, z))
        × IsGood z
        × IsCarried y z
  unfolding process_events
  process_events-IsSafe y a g =
      let w = (usb.handle_events y.world).2 in
      let y' = record y { world = w } in
      let (z, e, k, l) =
        callbacks-Carries (usb.handle_events y.world).1 y' a (IsGood-world y w g) in
      (z, rw e refl, k, from_start y w z l)
    where
      from_start :
          (y : Sys W) (w : W) (z : Sys W) → IsCarried (record y { world = w }) z → IsCarried y z
      from_start y w z l = record {
        shape = l.shape;
        depth = l.depth;
        video = l.video;
        depth_isoc = l.depth_isoc;
        video_isoc = l.video_isoc;
        depth_format = l.depth_format;
        video_format = l.video_format;
      }
