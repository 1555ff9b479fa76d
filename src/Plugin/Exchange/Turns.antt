-- ===== src/Plugin/Exchange/Turns.antt =====
-- The exchange where the threads of the plug-in take turns: renders of RGBOutputImageProvider.mm fall
-- between the callbacks of ImageWithKinectPlugIn.mm.
use quartz_composer_open_kin.Plugin.Exchange.{
  renderer, Phase, idle, locked, moved, Buffers, callback_lock, callback_move, callback_finish,
  render, Step, enters, moves, leaves, renders, Steps, stop, next,
}
use quartz_composer_open_kin.Prelude.{
  ℕ, ◌≡◌, ◌≢◌, ◌⊎◌, none, some, arith, refl, inl, inr, ◌==◌, if◌then◌else◌, ◌∙◌, sym, subst,
}

-- A render only comes where no callback is under way.
abbrev pub Between : Buffers → Type 0
Between s = s.phase ≡ idle

abbrev Distinct3 : ℕ → ℕ → ℕ → Type 0
Distinct3 a b c = (a ≢ b) × (a ≢ c) × (b ≢ c)

-- The three buffers that the program holds: the frame under way is one of them in a callback.
abbrev pub Held : Phase → Buffers → Type 0
Held idle s = (s.rgb_back ≡ s.proc_buf) × Distinct3 s.rgb_back s.rgb_mid s.rgb_front
Held (locked rgb) s =
    (s.rgb_back ≡ s.proc_buf) × (rgb ≡ s.proc_buf) × Distinct3 s.rgb_back s.rgb_mid s.rgb_front
Held (moved rgb) s = (s.rgb_back ≡ s.proc_buf) × Distinct3 s.rgb_back rgb s.rgb_front

Held-idle : (s : Buffers) → s.phase ≡ idle → Held s.phase s → Held idle s
Held-idle s i h = rw i at h

Held-locked : (s : Buffers) (rgb : ℕ) → s.phase ≡ locked rgb → Held s.phase s → Held (locked rgb) s
Held-locked s rgb i h = rw i at h

Held-moved : (s : Buffers) (rgb : ℕ) → s.phase ≡ moved rgb → Held s.phase s → Held (moved rgb) s
Held-moved s rgb i h = rw i at h

-- A render keeps or swaps what it may swap, and nothing else.
render-swaps :
    (s : Buffers)
    → ((render s).phase ≡ s.phase)
      × ((render s).rgb_back ≡ s.rgb_back)
      × ((render s).proc_buf ≡ s.proc_buf)
      × ((((render s).rgb_mid ≡ s.rgb_mid) × ((render s).rgb_front ≡ s.rgb_front))
          ⊎ (((render s).rgb_mid ≡ s.rgb_front) × ((render s).rgb_front ≡ s.rgb_mid)))
unfolding render
render-swaps s = ground arith

render-Held : (s : Buffers) → s.phase ≡ idle → Held idle s → Held (render s).phase (render s)
render-Held s i (b, (d, e, f)) =
    let (p, back, proc, kept) = render-swaps s in
    subst (λ f. Held f (render s)) (sym (p ∙ i))
      (rw (back, proc)
        (
          b,
          elim kept [
            | inl (m, n) ↦ rw (m, n) (d, e, f)
            | inr (m, n) ↦ rw (m, n) (e, d, λ q. f (sym q))
          ],
        ))

Step-Held : (s t : Buffers) → Step Between s t → Held s.phase s → Held t.phase t
unfolding callback_lock callback_move callback_finish
Step-Held s t (enters s' i m b) h = let (_, d) = Held-idle s i h in (b, refl, d)
Step-Held s t (moves s' rgb i) h =
    let (b, r, (d, e, f)) = Held-locked s rgb i h in
    let same : rgb ≡ s.rgb_back = r ∙ sym b in (refl, (rw same (λ q. d (sym q)), f, rw same e))
Step-Held s t (leaves s' rgb i) h = Held-moved s rgb i h
Step-Held s t (renders s' i) h = render-Held s i (Held-idle s i h)

-- Renders between callbacks. If the driver's buffer is `_rgb_back` and the three buffers are
-- distinct outside a callback, then however callbacks and renders follow one another, as long as no
-- render comes in the middle of a callback, they are so again whenever no callback is under way:
-- the assertion of `rgb_cb` holds each time, and the driver never fills the buffer that is drawn.
pub Steps-Held : (s t : Buffers) → Steps Between s t → Held s.phase s → Held t.phase t
Steps-Held s t (stop s') h = h
Steps-Held s t (next s' u t' e es) h = Steps-Held u t es (Step-Held s u e h)

-- Two renders in a row. Where the mutex is free, the first render takes it and neither swaps nor
-- gives it back; the second one frees it, and swaps the buffers where a frame had come.
pub render-twice :
    (s : Buffers)
    → s.mutex ≡ none
    → ((render s).mutex ≡ some renderer)
      × ((render s).rgb_front ≡ s.rgb_front)
      × ((render s).got_rgb ≡ s.got_rgb)
      × ((render (render s)).mutex ≡ none)
      × ((render (render s)).got_rgb ≡ 0)
      × ((render (render s)).rgb_front ≡ (if s.got_rgb == 0 then s.rgb_front else s.rgb_mid))
unfolding render
render-twice s e = rw e (ground arith)
