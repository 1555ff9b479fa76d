-- ===== src/Usb/Iso/Laws.antt =====
-- Isochronous streams that are stopped: what callbacks on a dead stream do, and whether the loop that
-- waits for them ends.
use quartz_composer_open_kin.Device.{
  Libusb, Sys, Endpoint, depth_ep, video_ep, IsocStream, Completion,
}
use quartz_composer_open_kin.Prelude.{
  ℕ, zero, suc, ◌+◌, ◌<◌, ◌≡◌, true, some, List, [], ◌∷◌, arith, refl, inl, inr, ◌∙◌, Bool-cases,
  ltb, length, ap, sym,
}
use quartz_composer_open_kin.Usb.Iso.{
  isoc_of, count_dead, iso_callback, callbacks, process_events, drain, put_isoc,
}

-- All completions are of one endpoint.
abbrev pub AllOn : Endpoint → List Completion → Type 0
AllOn ep [] = ep ≡ ep
AllOn ep (c ∷ cs) = (c.endpoint ≡ ep) × AllOn ep cs

-- A stream with `n` more dead transfers.
abbrev pub more_dead : ℕ → IsocStream → IsocStream
more_dead n s = record s { dead_xfers = s.dead_xfers + n }

module _ {W : Type 0} where
  -- `n` dead transfers counted, and nothing else.
  abbrev pub counted : Endpoint → ℕ → Sys W → Sys W
  counted ep n y = put_isoc ep (more_dead n (isoc_of ep y.dev)) y

  counted-zero : (ep : Endpoint) (y : Sys W) → counted ep 0 y ≡ y
  counted-zero depth_ep y =
      ap (λ (k : ℕ). put_isoc depth_ep (record (y.dev.depth_isoc) { dead_xfers = k }) y)
        (omega arith)
  counted-zero video_ep y =
      ap (λ (k : ℕ). put_isoc video_ep (record (y.dev.video_isoc) { dead_xfers = k }) y)
        (omega arith)

  counted-suc :
      (ep : Endpoint) (n : ℕ) (y : Sys W) → counted ep n (count_dead ep y) ≡ counted ep (suc n) y
  counted-suc depth_ep n y =
      ap (λ (k : ℕ). put_isoc depth_ep (record (y.dev.depth_isoc) { dead_xfers = k }) y)
        (omega arith)
  counted-suc video_ep n y =
      ap (λ (k : ℕ). put_isoc video_ep (record (y.dev.video_isoc) { dead_xfers = k }) y)
        (omega arith)

  count_dead-dead :
      (ep : Endpoint) (y : Sys W)
      → (isoc_of ep (count_dead ep y).dev).dead ≡ (isoc_of ep y.dev).dead
  count_dead-dead depth_ep y = refl
  count_dead-dead video_ep y = refl

  counted-fields :
      (ep : Endpoint) (n : ℕ) (y : Sys W)
      → ((isoc_of ep (counted ep n y).dev).dead ≡ (isoc_of ep y.dev).dead)
        × ((isoc_of ep (counted ep n y).dev).dead_xfers ≡ (isoc_of ep y.dev).dead_xfers + n)
        × ((isoc_of ep (counted ep n y).dev).num_xfers ≡ (isoc_of ep y.dev).num_xfers)
  counted-fields depth_ep n y = (refl, refl, refl)
  counted-fields video_ep n y = (refl, refl, refl)

module _ {W : Type 0} (usb : Libusb W) where
  iso_callback-dead :
      (ep : Endpoint) (c : Completion) (y : Sys W)
      → (isoc_of ep y.dev).dead ≡ true
      → c.endpoint ≡ ep
      → iso_callback usb c y ≡ some (count_dead ep y)
  unfolding iso_callback
  iso_callback-dead ep c y d e = rw (e, d) refl

  -- Callbacks on a dead stream. Completions of a stream that `fnusb_stop_iso` has marked dead are
  -- counted, one dead transfer each, and change nothing else: no packet is processed and no transfer
  -- is submitted again.
  pub callbacks-dead :
      (ep : Endpoint) (cs : List Completion) (y : Sys W)
      → (isoc_of ep y.dev).dead ≡ true
      → AllOn ep cs
      → callbacks usb cs y ≡ some (counted ep (length cs) y)
  unfolding callbacks
  callbacks-dead ep [] y d a = ap some (sym (counted-zero ep y))
  callbacks-dead ep (c ∷ cs) y d (e, a) = rw (iso_callback-dead ep c y d e) (
      callbacks-dead ep cs (count_dead ep y) (count_dead-dead ep y ∙ d) a
      ∙ ap some (counted-suc ep (length cs) y))

  -- libusb reports `pending w` more completions, all on one endpoint, at least one at a time.
  pub record Completes (ep : Endpoint) (pending : W → ℕ) : Type 0 where
    pub on : (w : W) → AllOn ep (usb.handle_events w).1
    pub fewer :
        (w : W) → length (usb.handle_events w).1 + pending (usb.handle_events w).2 ≡ pending w
    pub progress : (w : W) → 0 < pending w → 0 < length (usb.handle_events w).1

  -- A dead stream whose transfers are all dead or still to come.
  abbrev pub IsDying : Endpoint → (W → ℕ) → Sys W → Type 0
  IsDying ep pending y =
      ((isoc_of ep y.dev).dead ≡ true)
      × ((isoc_of ep y.dev).dead_xfers + pending y.world ≡ (isoc_of ep y.dev).num_xfers)

  -- The wait in `fnusb_stop_iso` ends. Where libusb reports the cancelled transfers, at least one in
  -- each round of events, and as many are to come as the stream still misses, the loop ends after at
  -- most that many rounds, with every transfer dead.
  pub drain-ends :
      (ep : Endpoint) (pending : W → ℕ) (fuel : ℕ) (y : Sys W)
      → Completes ep pending
      → IsDying ep pending y
      → pending y.world < fuel
      → (z : Sys W) × (drain usb fuel ep y ≡ some z)
        × ((isoc_of ep z.dev).dead_xfers ≡ (isoc_of ep z.dev).num_xfers)
  unfolding drain process_events
  drain-ends ep pending zero y c d l = ground arith
  drain-ends ep pending (suc fuel) y c d l =
      elim (Bool-cases (ltb (isoc_of ep y.dev).dead_xfers (isoc_of ep y.dev).num_xfers)) [
        | inr e ↦ rw e (y, refl, ground arith)
        | inl e ↦
            (let w = y.world in
              let n : ℕ = length (usb.handle_events w).1 in
              let y' = record y { world = (usb.handle_events w).2 } in
              let run = callbacks-dead ep (usb.handle_events w).1 y' d.0 (c.on w) in
              let f = counted-fields ep n y' in
              let waiting : 0 < pending w = ground arith in
              rw (e, run)
                (drain-ends ep pending fuel (counted ep n y') c
                  (f.0 ∙ d.0, omega (arith, f, c.fewer w, d.1))
                  (omega (arith, c.fewer w, c.progress w waiting))))
      ]
