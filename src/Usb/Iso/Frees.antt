-- ===== src/Usb/Iso/Frees.antt =====
-- `fnusb_stop_iso` of libfreenect/src/usb_libusb10.c as a whole: the wait, and the frees behind it.
use mathlib.Core.List.{Mem, Nodup}
use quartz_composer_open_kin.Camera.Session.Good.{IsGood}
use quartz_composer_open_kin.Device.{Libusb, IsocStream, Sys, Endpoint, depth_ep, video_ep}
use quartz_composer_open_kin.Memory.{Heap, free}
use quartz_composer_open_kin.Memory.Frees.{
  free_each, free_each-frees, free_each-append, free-pointed, pointed, AllAllocated,
  AllAllocated-shape,
}
use quartz_composer_open_kin.Prelude.{
  ℕ, ◌+◌, ◌≡◌, ◌<◌, true, none, some, List, ◌++◌, arith, refl, ap, ◌∙◌,
}
use quartz_composer_open_kin.Usb.Iso.{isoc_of, put_isoc, no_isoc, cancel_all, free_all, stop_iso}
use quartz_composer_open_kin.Usb.Iso.Carried.{SameTransfers, IsCarried}
use quartz_composer_open_kin.Usb.Iso.Drain.{Cancels, drain-IsSafe}

module _ {W : Type 0} where
  -- A stream's transfers in place of others.
  put_isoc-fields :
      (ep : Endpoint) (s : IsocStream) (y : Sys W)
      → (isoc_of ep (put_isoc ep s y).dev ≡ s)
        × ((put_isoc ep s y).dev.depth ≡ y.dev.depth)
        × ((put_isoc ep s y).dev.video ≡ y.dev.video)
  put_isoc-fields depth_ep s y = (refl, refl, refl)
  put_isoc-fields video_ep s y = (refl, refl, refl)

  put_isoc-IsGood :
      (ep : Endpoint) (s : IsocStream) (y : Sys W) (w : W)
      → IsGood y
      → IsGood (record (put_isoc ep s y) { world = w })
  put_isoc-IsGood depth_ep s y w g = record {
    bytes = g.bytes;
    depth = g.depth;
    video = g.video;
    format = g.format;
  }
  put_isoc-IsGood video_ep s y w g = record {
    bytes = g.bytes;
    depth = g.depth;
    video = g.video;
    format = g.format;
  }

  IsCarried-isoc :
      (ep : Endpoint) (y z : Sys W)
      → IsCarried y z
      → SameTransfers (isoc_of ep y.dev) (isoc_of ep z.dev)
  IsCarried-isoc depth_ep y z c = c.depth_isoc
  IsCarried-isoc video_ep y z c = c.video_isoc

  -- The blocks of a stream's transfers.
  abbrev pub isoc_blocks : Endpoint → Sys W → List ℕ
  isoc_blocks ep y = pointed (isoc_of ep y.dev).buffer ++ pointed (isoc_of ep y.dev).xfers_array

module _ {W : Type 0} (usb : Libusb W) (ep : Endpoint) (pending rounds : W → ℕ)
    (cancels : Cancels usb ep pending rounds) where
  -- The stream as `fnusb_stop_iso` begins to wait for it.
  abbrev cancelled : Sys W → Sys W
  cancelled y = record (put_isoc ep (record (isoc_of ep y.dev) { dead = true }) y) {
    world = cancel_all usb (isoc_of ep y.dev).xfers y.world;
  }

  -- What stopping leaves: the stream's own blocks can be freed together with `rest`.
  pub record IsStopped (rest : List ℕ) (y z : Sys W) : Type 0 where
    pub waited : Sys W
    pub good : IsGood waited
    pub carried : IsCarried (cancelled y) waited
    pub after : Heap
    pub frees : free_each rest z.heap ≡ some after
    pub gone : (q : ℕ) → Mem q (isoc_blocks ep y ++ rest) → after.block q ≡ none
    pub others : (q : ℕ) → ¬ Mem q (isoc_blocks ep y ++ rest) → after.block q ≡ waited.heap.block q
    pub ended : z.dev ≡ (put_isoc ep no_isoc waited).dev

  pub stop_iso-IsStopped :
      (fuel : ℕ) (rest : List ℕ) (y : Sys W)
      → IsGood y
      → (isoc_of ep y.dev).dead_xfers + pending (cancelled y).world ≡ (isoc_of ep y.dev).num_xfers
      → rounds (cancelled y).world < fuel
      → Nodup (isoc_blocks ep y ++ rest)
      → AllAllocated (isoc_blocks ep y ++ rest) y.heap
      → (z : Sys W) × (stop_iso usb fuel ep y ≡ some z) × IsStopped rest y z
  unfolding stop_iso
  stop_iso-IsStopped fuel rest y g m l d a =
      let strm = record (isoc_of ep y.dev) { dead = true } in
      let (at, _, _) = put_isoc-fields ep strm y in
      let y₀ = cancelled y in
      let (y₁, e, all, g₁, c) =
        drain-IsSafe usb ep pending rounds cancels fuel y₀ (put_isoc-IsGood ep strm y _ g)
          (ap (λ (s : IsocStream). s.dead) at)
          (omega (
            arith,
            ap (λ (s : IsocStream). s.dead_xfers) at,
            ap (λ (s : IsocStream). s.num_xfers) at,
          ))
          l in
      let t = IsCarried-isoc ep y₀ y₁ c in
      let buffer : (isoc_of ep y₁.dev).buffer ≡ (isoc_of ep y.dev).buffer =
        t.buffer ∙ ap (λ (s : IsocStream). s.buffer) at in
      let array : (isoc_of ep y₁.dev).xfers_array ≡ (isoc_of ep y.dev).xfers_array =
        t.xfers_array ∙ ap (λ (s : IsocStream). s.xfers_array) at in
      let (h, f, gone, others) =
        free_each-frees (isoc_blocks ep y ++ rest) y₁.heap d
          (AllAllocated-shape (isoc_blocks ep y ++ rest) y.heap y₁.heap c.shape a) in
      let (h₂, both, left) = free_each-append (isoc_blocks ep y) rest y₁.heap h f in
      let (h₁, one, two) =
        free_each-append (pointed (isoc_of ep y.dev).buffer)
          (pointed (isoc_of ep y.dev).xfers_array) y₁.heap h₂ both in
      let first : free (isoc_of ep y₁.dev).buffer y₁.heap ≡ some h₁ =
        ap (λ p. free p y₁.heap) buffer ∙ free-pointed _ y₁.heap h₁ one in
      let second : free (isoc_of ep y₁.dev).xfers_array h₁ ≡ some h₂ =
        ap (λ p. free p h₁) array ∙ free-pointed _ h₁ h₂ two in
      (
        put_isoc ep no_isoc
            (record y₁ { heap = h₂; world = free_all usb (isoc_of ep y₁.dev).xfers y₁.world }),
        rw (e, first, second) refl,
        record {
          waited = y₁;
          good = g₁;
          carried = c;
          after = h;
          frees = left;
          gone = gone;
          others = others;
          ended = refl;
        },
      )
