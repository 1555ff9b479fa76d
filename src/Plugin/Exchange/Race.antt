-- ===== src/Plugin/Exchange/Race.antt =====
-- What the inverted test of `pthread_mutex_trylock` in RGBOutputImageProvider.mm leads to.
use quartz_composer_open_kin.Memory.{Heap, free, update}
use quartz_composer_open_kin.Plugin.Exchange.{
  idle, locked, moved, Buffers, callback_lock, callback_move, callback_finish, render, free_buffers,
  enters, moves, leaves, renders, Steps, stop, next,
}
use quartz_composer_open_kin.Prelude.{
  ℕ, ◌<◌, ◌≡◌, ◌⊎◌, false, none, some, arith, refl, inl, inr, ◌==◌, Bool-cases, Option-cases,
  ==_iff, >>=-eq_some, ◌∙◌, sym,
}

-- A render may come at any time.
abbrev pub Always : Buffers → Type 0
Always s = Unit {0}

free-gone : (p : ℕ) (h : Heap) → h.block p ≡ none → free (some p) h ≡ none
unfolding free
free-gone p h e = rw e refl

free-block :
    (p q : ℕ) (h h' : Heap)
    → free (some p) h ≡ some h'
    → (p ≡ q) ⊎ (h.block q ≡ none)
    → h'.block q ≡ none
unfolding free
free-block p q h h' e g =
    let (b, f, k) = >>=-eq_some (h.block p) _ e in
    let same : h'.block q ≡ update h.block p none q = ground arith in
    same ∙ elim g [
      | inl eq ↦ (let z = (==_iff p q).1 eq in rw z refl)
      | inr gone ↦ elim (Bool-cases (p == q)) [ inl z ↦ rw z refl | inr z ↦ rw z gone ]
    ]

free_buffers-twice : (s : Buffers) (h : Heap) → s.rgb_front ≡ s.rgb_back → free_buffers s h ≡ none
unfolding free_buffers
free_buffers-twice s h same = elim (Option-cases (free (some s.depth_mid) h)) [
  | inl a ↦ rw a refl
  | inr (h₁, a) ↦ elim (Option-cases (free (some s.depth_front) h₁)) [
    | inl b ↦ rw (a, b) refl
    | inr (h₂, b) ↦ elim (Option-cases (free (some s.rgb_back) h₂)) [
      | inl c ↦ rw (a, b, c) refl
      | inr (h₃, c) ↦ elim (Option-cases (free (some s.rgb_mid) h₃)) [
        | inl d ↦ rw (a, b, c, d) refl
        | inr (h₄, d) ↦
            (let gone : h₄.block s.rgb_front ≡ none =
                free-block s.rgb_mid s.rgb_front h₃ h₄ d
                  (inr (free-block s.rgb_back s.rgb_front h₂ h₃ c (inl (sym same)))) in
              rw (a, b, c, d) (free-gone s.rgb_front h₄ gone))
      ]
    ]
  ]
]

raced :
    (s : Buffers)
    → 0 < s.got_rgb
    → let t = callback_finish s.proc_buf (render (callback_move s.proc_buf (callback_lock s))) in
      (t.rgb_front ≡ t.rgb_back) × (t.rgb_front ≡ t.proc_buf)
unfolding callback_lock callback_move callback_finish render
raced s g = let e : (s.got_rgb == 0) ≡ false = ground arith in rw e (refl, refl)

render-phase : (s : Buffers) → (render s).phase ≡ s.phase
unfolding render
render-phase s = ground arith

lock-phase : (s : Buffers) → (callback_lock s).phase ≡ locked s.proc_buf
unfolding callback_lock
lock-phase s = refl

move-phase : (rgb : ℕ) (s : Buffers) → (callback_move rgb s).phase ≡ moved rgb
unfolding callback_move
move-phase rgb s = refl

finish-phase : (rgb : ℕ) (s : Buffers) → (callback_finish rgb s).phase ≡ idle
unfolding callback_finish
finish-phase rgb s = refl

-- A render in the middle of a callback. From every state in which the driver is about to deliver a
-- frame, the buffers are as they should be and a frame has not been drawn yet, the threads can
-- reach a state outside the callback in which `_rgb_front` and `_rgb_back` are the same buffer: the
-- driver fills the buffer that is drawn, and `stopExecution:` frees it twice.
pub render-races :
    (s : Buffers) (h : Heap)
    → s.phase ≡ idle
    → s.mutex ≡ none
    → s.rgb_back ≡ s.proc_buf
    → 0 < s.got_rgb
    → (t : Buffers) × Steps Always s t
      × (t.phase ≡ idle)
      × (t.rgb_front ≡ t.rgb_back)
      × (t.rgb_front ≡ t.proc_buf)
      × (free_buffers t h ≡ none)
render-races s h i m b g =
    let s₁ = callback_lock s in
    let s₂ = callback_move s.proc_buf s₁ in
    let s₃ = render s₂ in
    let s₄ = callback_finish s.proc_buf s₃ in
    let same = raced s g in
    (
      s₄,
      next s s₁ s₄ (enters s i m b) (
          next s₁ s₂ s₄ (moves s₁ s.proc_buf (lock-phase s)) (
            next s₂ s₃ s₄ (renders s₂ tt) (
              next s₃ s₄ s₄ (leaves s₃ s.proc_buf (render-phase s₂ ∙ move-phase s.proc_buf s₁))
                (stop s₄)))),
      finish-phase s.proc_buf s₃,
      same.0,
      same.1,
      free_buffers-twice s₄ h same.0,
    )
