-- ===== src/Usb/Iso/Drain.antt =====
-- The wait of `fnusb_stop_iso` in libfreenect/src/usb_libusb10.c while the other stream goes on.
use quartz_composer_open_kin.Camera.Session.Good.{IsGood}
use quartz_composer_open_kin.Camera.Session.Setters.{true-false}
use quartz_composer_open_kin.Device.{
  Libusb, IsocStream, Sys, Endpoint, depth_ep, video_ep, Completion,
}
use quartz_composer_open_kin.Memory.Kept.{some-is}
use quartz_composer_open_kin.Prelude.{
  ℕ, zero, suc, ◌+◌, ◌≡◌, ◌≤◌, ◌<◌, ◌⊎◌, Bool, true, false, Option, none, some, List, [], ◌∷◌,
  arith, refl, inl, inr, ap, ◌∙◌, sym, take, Bool-cases, ltb, if◌then◌else◌, >>=-eq_some, ℤ, ◌>>=◌,
  >>=-some, lt→ltb,
}
use quartz_composer_open_kin.Usb.Iso.{
  isoc_of, count_dead, process_packets, iso_callback, callbacks, process_events, drain,
}
use quartz_composer_open_kin.Usb.Iso.Carried.{IsCarried, IsCarried-refl, IsCarried-trans}
use quartz_composer_open_kin.Usb.Iso.Quiet.{IsQuiet, process_packets-IsQuiet, IsQuiet-isoc}
use quartz_composer_open_kin.Usb.Iso.Safe.{
  AllReported, iso_callback-dead_lem, iso_callback-failed, process_events-IsSafe,
}

abbrev pub same_ep : Endpoint → Endpoint → Bool
same_ep depth_ep depth_ep = true
same_ep video_ep video_ep = true
same_ep _ _ = false

same_ep-cases : (a b : Endpoint) → (a ≡ b) ⊎ (same_ep a b ≡ false)
same_ep-cases depth_ep depth_ep = inl refl
same_ep-cases depth_ep video_ep = inr refl
same_ep-cases video_ep depth_ep = inr refl
same_ep-cases video_ep video_ep = inl refl

-- How many of the completions are of one stream.
abbrev pub count_on : Endpoint → List Completion → ℕ
count_on ep [] = 0
count_on ep (c ∷ cs) = (if same_ep c.endpoint ep then 1 else 0) + count_on ep cs

-- What libusb does with cancelled transfers of one stream: `pending` of them are still to be reported,
-- and `rounds` bounds the calls of `libusb_handle_events` until all are. Submitting a transfer of the
-- other stream changes neither for the worse, and packets are bytes.
pub record Cancels {W : Type 0} (usb : Libusb W) (ep : Endpoint) (pending rounds : W → ℕ)
    : Type 0 where
  pub reported : (w : W) → AllReported (usb.handle_events w).1
  pub counts :
      (w : W) → count_on ep (usb.handle_events w).1 + pending (usb.handle_events w).2 ≡ pending w
  pub soon : (w : W) → 0 < pending w → rounds (usb.handle_events w).2 < rounds w
  pub submit_pending : (x : ℕ) (w : W) → pending (usb.submit_transfer x w).1 ≡ pending w
  pub submit_rounds : (x : ℕ) (w : W) → rounds (usb.submit_transfer x w).1 ≤ rounds w

count_dead-more :
    {W : Type 0} (e ep : Endpoint) (y : Sys W)
    → ((isoc_of ep (count_dead e y).dev).dead_xfers
        ≡ (isoc_of ep y.dev).dead_xfers + (if same_ep e ep then 1 else 0))
      × ((isoc_of ep (count_dead e y).dev).dead ≡ (isoc_of ep y.dev).dead)
count_dead-more depth_ep depth_ep y = (refl, refl)
count_dead-more depth_ep video_ep y = (omega arith, refl)
count_dead-more video_ep depth_ep y = (omega arith, refl)
count_dead-more video_ep video_ep y = (refl, refl)

IsCarried-num :
    {W : Type 0} (ep : Endpoint) (y z : Sys W)
    → IsCarried y z
    → (isoc_of ep z.dev).num_xfers ≡ (isoc_of ep y.dev).num_xfers
IsCarried-num depth_ep y z c = c.depth_isoc.num_xfers
IsCarried-num video_ep y z c = c.video_isoc.num_xfers

module _ {W : Type 0} (usb : Libusb W) (ep : Endpoint) (pending rounds : W → ℕ)
    (cancels : Cancels usb ep pending rounds) where
  -- `n` more of the stream's transfers are dead, and nothing else of the wait has changed.
  record Waits (y z : Sys W) (n : ℕ) : Type 0 where
    pub more : (isoc_of ep z.dev).dead_xfers ≡ (isoc_of ep y.dev).dead_xfers + n
    pub dead : (isoc_of ep z.dev).dead ≡ (isoc_of ep y.dev).dead
    pub pending_same : pending z.world ≡ pending y.world
    pub rounds_less : rounds z.world ≤ rounds y.world

  count_dead-Waits :
      (e : Endpoint) (y : Sys W) → Waits y (count_dead e y) (if same_ep e ep then 1 else 0)
  count_dead-Waits e y =
      let (m, d) = count_dead-more e ep y in
      record { more = m; dead = d; pending_same = refl; rounds_less = omega arith }

  -- A stream that is not dead is the other one.
  live_other :
      (c : Completion) (y : Sys W)
      → (isoc_of ep y.dev).dead ≡ true
      → (isoc_of c.endpoint y.dev).dead ≡ false
      → same_ep c.endpoint ep ≡ false
  live_other c y d live = elim (same_ep-cases c.endpoint ep) [
    | inl e ↦
        absurd (true-false (sym d ∙ (sym (ap (λ (p : Endpoint). (isoc_of p y.dev).dead) e) ∙ live)))
    | inr n ↦ n
  ]

  resubmitted :
      (x : ℕ) (y z : Sys W)
      → IsQuiet y z
      → Waits y (record z { world = (usb.submit_transfer x z.world).1 }) 0
  resubmitted x y z q =
      let same = IsQuiet-isoc ep y z q in
      record {
        more = omega (arith, ap (λ (s : IsocStream). s.dead_xfers) same);
        dead = ap (λ (s : IsocStream). s.dead) same;
        pending_same = cancels.submit_pending x z.world ∙ ap pending q.world;
        rounds_less = omega (arith, cancels.submit_rounds x z.world, ap rounds q.world);
      }

  iso_callback-Waits :
      (c : Completion) (y z : Sys W)
      → (isoc_of ep y.dev).dead ≡ true
      → iso_callback usb c y ≡ some z
      → Waits y z (if same_ep c.endpoint ep then 1 else 0)
  unfolding iso_callback
  iso_callback-Waits c y z d e = elim (Bool-cases (isoc_of c.endpoint y.dev).dead) [
    | inl dead ↦
        rw (← some-is (sym (iso_callback-dead_lem usb c y dead) ∙ e))
          (count_dead-Waits c.endpoint y)
    | inr live ↦ elim (Bool-cases c.completed) [
      | inr failed ↦
          rw (← some-is (sym (iso_callback-failed usb c y live failed) ∙ e))
            (count_dead-Waits c.endpoint y)
      | inl ok ↦
          (let (y₁, f, g) =
              >>=-eq_some
                (process_packets c.endpoint (take (isoc_of c.endpoint y.dev).pkts c.packets) y) _
                (rw (live, ok) at e) in
            let q = process_packets-IsQuiet c.endpoint _ y y₁ f in
            let other = live_other c y d live in
            rw (← some-is g, other) (resubmitted c.xfer y y₁ q))
    ]
  ]

  callbacks-Waits :
      (cs : List Completion) (y z : Sys W)
      → (isoc_of ep y.dev).dead ≡ true
      → callbacks usb cs y ≡ some z
      → Waits y z (count_on ep cs)
  unfolding callbacks
  callbacks-Waits [] y z d e =
      rw (← some-is e)
        (record { more = omega arith; dead = refl; pending_same = refl; rounds_less = omega arith })
  callbacks-Waits (c ∷ cs) y z d e =
      let (y₁, f, g) = >>=-eq_some (iso_callback usb c y) _ e in
      let k = iso_callback-Waits c y y₁ d f in
      let l = callbacks-Waits cs y₁ z (k.dead ∙ d) g in
      record {
        more = omega (arith, k.more, l.more);
        dead = l.dead ∙ k.dead;
        pending_same = l.pending_same ∙ k.pending_same;
        rounds_less = omega (arith, k.rounds_less, l.rounds_less);
      }

  -- One round of events.
  process_events-Waits :
      (y z : Sys W)
      → (isoc_of ep y.dev).dead ≡ true
      → process_events usb y ≡ some ((usb.handle_events y.world).0, z)
      → (isoc_of ep z.dev).dead_xfers + pending z.world
          ≡ (isoc_of ep y.dev).dead_xfers + pending y.world
        × ((isoc_of ep z.dev).dead ≡ true)
        × (0 < pending y.world → rounds z.world < rounds y.world)
  unfolding process_events
  process_events-Waits y z d e =
      let w = (usb.handle_events y.world).2 in
      let (z', f, g) =
        >>=-eq_some (callbacks usb (usb.handle_events y.world).1 (record y { world = w })) _ e in
      let same : z' ≡ z = ap (λ (r : ℤ × Sys W). r.1) (some-is g) in
      let k = callbacks-Waits (usb.handle_events y.world).1 (record y { world = w }) z' d f in
      let n = cancels.counts y.world in
      rw (← same) (
        omega (arith, k.more, k.pending_same, n),
        k.dead ∙ d,
        λ p. omega (arith, k.rounds_less, cancels.soon y.world p),
      )

  -- The wait ends under traffic. Let a stream be marked dead, in a good state of the device, with as
  -- many transfers still to be reported as it misses. Where libusb reports cancelled transfers within
  -- `rounds` rounds of events, between those of the other stream, which goes on, the loop of
  -- `fnusb_stop_iso` ends after at most that many rounds without a fault. All transfers of the stream
  -- are dead then, the state is good, and the set-up of both streams, their transfers and the memory
  -- are carried over.
  pub drain-IsSafe :
      (fuel : ℕ) (y : Sys W)
      → IsGood y
      → (isoc_of ep y.dev).dead ≡ true
      → (isoc_of ep y.dev).dead_xfers + pending y.world ≡ (isoc_of ep y.dev).num_xfers
      → rounds y.world < fuel
      → (z : Sys W) × (drain usb fuel ep y ≡ some z)
        × ((isoc_of ep z.dev).dead_xfers ≡ (isoc_of ep z.dev).num_xfers)
        × IsGood z
        × IsCarried y z
  unfolding drain
  drain-IsSafe zero y g d m l = absurd (omega arith)
  drain-IsSafe (suc fuel) y g d m l =
      elim (Bool-cases (ltb (isoc_of ep y.dev).dead_xfers (isoc_of ep y.dev).num_xfers)) [
        | inr e ↦ rw e (y, refl, ground arith, g, IsCarried-refl y)
        | inl e ↦
            (let (y₁, f, g₁, c) = process_events-IsSafe usb y (cancels.reported y.world) g in
              let (n, d₁, less) = process_events-Waits y y₁ d f in
              let total = IsCarried-num ep y y₁ c in
              let waiting : 0 < pending y.world = ground arith in
              let (z, r, all, g₂, k) =
                drain-IsSafe fuel y₁ g₁ d₁ (omega (arith, n, m, total))
                  (omega (arith, less waiting)) in
              rw (e, f) (z, r, all, g₂, IsCarried-trans y y₁ z c k))
      ]

  -- `n` rounds of the loop's body, whatever its condition.
  pub go_on : ℕ → Sys W → Option (Sys W)
  go_on zero y = some y
  go_on (suc n) y = process_events usb y >>= λ r. go_on n r.1

  drain-none :
      (n : ℕ) (y : Sys W)
      → IsGood y
      → (isoc_of ep y.dev).dead ≡ true
      → (isoc_of ep y.dev).dead_xfers + pending y.world < (isoc_of ep y.dev).num_xfers
      → drain usb n ep y ≡ none
  unfolding drain
  drain-none zero y g d m = refl
  drain-none (suc n) y g d m =
      let (y₁, f, g₁, c) = process_events-IsSafe usb y (cancels.reported y.world) g in
      let (same, d₁, less) = process_events-Waits y y₁ d f in
      let total = IsCarried-num ep y y₁ c in
      let on : ltb (isoc_of ep y.dev).dead_xfers (isoc_of ep y.dev).num_xfers ≡ true =
        lt→ltb _ _ (omega (arith, m)) in
      rw (on, f) (drain-none n y₁ g₁ d₁ (omega (arith, same, m, total)))

  go_on-waits :
      (n : ℕ) (y : Sys W)
      → IsGood y
      → (isoc_of ep y.dev).dead ≡ true
      → (isoc_of ep y.dev).dead_xfers + pending y.world < (isoc_of ep y.dev).num_xfers
      → (z : Sys W) × (go_on n y ≡ some z)
        × IsGood z
        × ((isoc_of ep z.dev).dead_xfers < (isoc_of ep z.dev).num_xfers)
  unfolding go_on
  go_on-waits zero y g d m = (y, refl, g, omega (arith, m))
  go_on-waits (suc n) y g d m =
      let (y₁, f, g₁, c) = process_events-IsSafe usb y (cancels.reported y.world) g in
      let (same, d₁, less) = process_events-Waits y y₁ d f in
      let total = IsCarried-num ep y y₁ c in
      let (z, e, h, l) = go_on-waits n y₁ g₁ d₁ (omega (arith, same, m, total)) in
      (z, >>=-some _ f ∙ e, h, l)

  -- The wait that never ends. Let a stream be marked dead, in a good state of the device, with fewer
  -- transfers still to be reported than it misses, as where one was never submitted. Where libusb
  -- reports each cancelled transfer once, between those of the other stream, no number of rounds ends
  -- the loop of `fnusb_stop_iso`: `n` rounds succeed for every `n`, in a good state in which the loop's
  -- condition still holds, and `n` rounds are never enough fuel for the loop.
  pub drain-misses :
      (n : ℕ) (y : Sys W)
      → IsGood y
      → (isoc_of ep y.dev).dead ≡ true
      → (isoc_of ep y.dev).dead_xfers + pending y.world < (isoc_of ep y.dev).num_xfers
      → (z : Sys W) × (go_on n y ≡ some z)
        × IsGood z
        × ((isoc_of ep z.dev).dead_xfers < (isoc_of ep z.dev).num_xfers)
        × (drain usb n ep y ≡ none)
  drain-misses n y g d m =
      let (z, e, h, l) = go_on-waits n y g d m in (z, e, h, l, drain-none n y g d m)
