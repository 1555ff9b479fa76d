-- ===== src/Stream/Buffers/Leaks.antt =====
-- Every block that `stream_init` allocates is freed once by `stream_freebufs`.
use quartz_composer_open_kin.Prelude.{
  ℕ, ◌+◌, ◌≡◌, false, none, some, arith, length, length-replicate, replicate, refl, leb, ◌==◌,
  if◌then◌else◌, Bool-cases, Option-cases, inl, inr, leb→le, ◌∙◌, ap,
}
use quartz_composer_open_kin.Memory.{Heap, malloc, free, update}
use quartz_composer_open_kin.Stream.{PacketStream}
use quartz_composer_open_kin.Stream.Buffers.{
  init_bufs, init_raw, init_sizes, stream_init, stream_freebufs,
}
use quartz_composer_open_kin.Stream.Buffers.Laws.{IsFresh}

-- Every block and the memory left are what they were.
pub record IsRestored (h h' : Heap) : Type 0 where
  pub room : h'.room ≡ h.room
  pub block : (q : ℕ) → h'.block q ≡ h.block q

IsRestored-refl : (h : Heap) → IsRestored h h
IsRestored-refl h = record { room = refl; block = λ q. refl }

malloc-IsFresh : (n : ℕ) (h : Heap) → IsFresh h → IsFresh (malloc n h).1
unfolding malloc
malloc-IsFresh n h fresh q = elim (Bool-cases (leb n h.room)) [
  | inl y ↦ rw y (λ l. ground (arith, fresh q))
  | inr n ↦ rw n (fresh q)
]

-- To free what was just allocated undoes the allocation, whatever was done and undone in between.
free-malloc :
    (n : ℕ) (h h₂ : Heap)
    → IsFresh h
    → IsRestored (malloc n h).1 h₂
    → (h₃ : Heap) × (free (malloc n h).0 h₂ ≡ some h₃) × IsRestored h h₃
unfolding malloc free
free-malloc n h h₂ fresh = elim (Bool-cases (leb n h.room)) [
  | inl y ↦ rw y λ r. (
    record h₂ { room = h₂.room + length (replicate n h.fill); block = update h₂.block h.next none },
    ground (arith, r.block h.next),
    record {
      room = omega (arith, r.room, length-replicate n h.fill, leb→le n h.room y);
      block = λ q. ground (arith, r.block q, fresh h.next);
    },
  )
  | inr n ↦ rw n λ r. (h₂, refl, r)
]

init_raw-free :
    (s : PacketStream) (rlen plen : ℕ) (h : Heap)
    → IsFresh h
    → let (t, h') = init_raw s rlen plen h in
      (h₃ : Heap) × ((if t.split_bufs then free t.raw_buf h' else some h') ≡ some h₃)
      × IsRestored h h₃
unfolding init_raw
init_raw-free s rlen plen h fresh = elim (Bool-cases (rlen == 0)) [
  | inl z ↦ rw z (h, refl, IsRestored-refl h)
  | inr n ↦ rw n (free-malloc rlen h (malloc rlen h).1 fresh (IsRestored-refl _))
]

init_raw-lib_buf :
    (s : PacketStream) (rlen plen : ℕ) (h : Heap) → (init_raw s rlen plen h).0.lib_buf ≡ s.lib_buf
unfolding init_raw
init_raw-lib_buf s rlen plen h = ground arith

init_bufs-IsFresh :
    (s : PacketStream) (plen : ℕ) (h : Heap) → IsFresh h → IsFresh (init_bufs s plen h).1
unfolding init_bufs
init_bufs-IsFresh s plen h fresh = elim (Option-cases s.usr_buf) [
  | inl e ↦ rw e (malloc-IsFresh plen h fresh)
  | inr (u, e) ↦ rw e fresh
]

init_bufs-free :
    (s : PacketStream) (plen : ℕ) (h h₂ : Heap)
    → IsFresh h
    → IsRestored (init_bufs s plen h).1 h₂
    → (h₃ : Heap) × (free (init_bufs s plen h).0.lib_buf h₂ ≡ some h₃) × IsRestored h h₃
unfolding init_bufs
init_bufs-free s plen h h₂ fresh = elim (Option-cases s.usr_buf) [
  | inl e ↦ rw e (free-malloc plen h h₂ fresh)
  | inr (u, e) ↦ rw e (λ r. (h₂, unfold free in refl, r))
]

free_both :
    (s : PacketStream) (h h₁ h₂ : Heap)
    → (if s.split_bufs then free s.raw_buf h else some h) ≡ some h₁
    → free s.lib_buf h₁ ≡ some h₂
    → stream_freebufs s h ≡ some (record s { raw_buf = none; proc_buf = none; lib_buf = none }, h₂)
unfolding stream_freebufs
free_both s h h₁ h₂ e f = rw (e, f)

abbrev reset : PacketStream → PacketStream
reset s = record s { valid_frames = 0; synced = false }

-- No leak and no double free. Whatever the sizes, whether or not the client gave a buffer and
-- whether or not memory runs out, `stream_freebufs` after `stream_init` returns, frees exactly what
-- was allocated, and leaves all three buffer pointers NULL.
pub stream_freebufs-stream_init :
    (s : PacketStream) (rlen plen : ℕ) (h : Heap)
    → IsFresh h
    → (t : PacketStream) × (h' : Heap) × (stream_freebufs
          (stream_init s rlen plen h).0
          (stream_init s rlen plen h).1
        ≡ some (t, h'))
      × IsRestored h h'
      × (t.raw_buf ≡ none)
      × (t.proc_buf ≡ none)
      × (t.lib_buf ≡ none)
unfolding stream_init init_sizes
stream_freebufs-stream_init s rlen plen h fresh =
    let s₁ = (init_bufs (reset s) plen h).0 in
    let h₁ = (init_bufs (reset s) plen h).1 in
    let s₂ = init_sizes (init_raw s₁ rlen plen h₁).0 in
    let (h₃, e, r) = init_raw-free s₁ rlen plen h₁ (init_bufs-IsFresh (reset s) plen h fresh) in
    let (h₄, f, r') = init_bufs-free (reset s) plen h h₃ fresh r in
    (
      record s₂ { raw_buf = none; proc_buf = none; lib_buf = none },
      h₄,
      free_both s₂ (init_raw s₁ rlen plen h₁).1 h₃ h₄ e
          (ap (λ p. free p h₃) (init_raw-lib_buf s₁ rlen plen h₁) ∙ f),
      r',
      refl,
      refl,
      refl,
    )
