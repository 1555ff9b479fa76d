-- ===== src/Fakenect/Events/Kept.antt =====
-- What handing a recorded event to its callback leaves of the memory, in `fakenect_process_events` of
-- libfreenect/src/fakenect.c.
use quartz_composer_open_kin.Fakenect.{Globals}
use quartz_composer_open_kin.Fakenect.Events.{
  state_size, copy_image, image, play, new_state, dispatch,
}
use quartz_composer_open_kin.Fakenect.Index.{Event, skip_line}
use quartz_composer_open_kin.Memory.{Heap, Pointer}
use quartz_composer_open_kin.Memory.Bytes.{SameShape, SameShape-refl}
use quartz_composer_open_kin.Memory.Kept.{memcpy-SameShape, some-is}
use quartz_composer_open_kin.Prelude.{
  ℕ, ◌+◌, ◌≡◌, Bool, true, false, Option, none, some, List, arith, length, refl, inl, inr,
  Bool-cases, ◌==◌, leb, >>=-eq_some, ◌>>=◌, ap, take, drop,
}

-- Every block keeps its length, and no memory is taken.
abbrev pub Keeps : Heap → Heap → Type 0
Keeps h h' = SameShape h h' × (h'.room ≡ h.room)

pub Keeps-refl : (h : Heap) → Keeps h h
Keeps-refl h = (SameShape-refl h, refl)

none-played :
    (g : Globals) (h : Heap) (out : Globals × Heap) → some (g, h) ≡ some out → Keeps h out.1
none-played g h out q = rw (← ap (λ o. o.1) (some-is q)) (Keeps-refl h)

copy_image-Keeps :
    (b off : ℕ) (bytes : List ℕ) (size : ℕ) (h h' : Heap)
    → copy_image b off bytes size h ≡ some h'
    → Keeps h h'
copy_image-Keeps b off bytes size h h' e = elim (Bool-cases (leb (off + size) (length bytes))) [
  | inl l ↦ memcpy-SameShape (some b) 0 (take size (drop off bytes)) h h' (rw l at e)
  | inr l ↦ absurd (none-some (rw l at e))
]
  where
    none-some : none ≡ some h' → ⊥
    none-some f = ground arith

buffer-Keeps :
    (buffer : Pointer) (p size : ℕ) (bytes : List ℕ) (n : ℕ) (h : Heap) (out : Pointer × ℕ × Heap)
    → elim buffer as (λ b. Option (Pointer × ℕ × Heap)) [
      | none ↦ some (some p, n, h)
      | some b ↦ (copy_image b n bytes size h >>= λ h'. some (some b, 0, h'))
    ]
      ≡ some out
    → Keeps h out.2
buffer-Keeps none p size bytes n h out e = rw (← ap (λ o. o.2) (some-is e)) (Keeps-refl h)
buffer-Keeps (some b) p size bytes n h out e =
    let (h', f, g) = >>=-eq_some (copy_image b n bytes size h) _ e in
    rw (← ap (λ o. o.2) (some-is g)) (copy_image-Keeps b n bytes size h h' f)

header-Keeps :
    (off : Option ℕ) (buffer : Pointer) (p size : ℕ) (bytes : List ℕ) (h : Heap)
    (out : Pointer × ℕ × Heap)
    → elim off as (λ o. Option (Pointer × ℕ × Heap)) [
      | none ↦ some (none, 0, h)
      | some n ↦ elim buffer [
        | none ↦ some (some p, n, h)
        | some b ↦ (copy_image b n bytes size h >>= λ h'. some (some b, 0, h'))
      ]
    ]
      ≡ some out
    → Keeps h out.2
header-Keeps none buffer p size bytes h out e = rw (← ap (λ o. o.2) (some-is e)) (Keeps-refl h)
header-Keeps (some n) buffer p size bytes h out e = buffer-Keeps buffer p size bytes n h out e

image-Keeps :
    (buffer : Pointer) (p size : ℕ) (h : Heap) (out : Pointer × ℕ × Heap)
    → image buffer p size h ≡ some out
    → Keeps h out.2
unfolding image
image-Keeps buffer p size h out e =
    let (bytes, f, g) = >>=-eq_some (h.block p) _ e in
    let (off, i, j) = >>=-eq_some (skip_line bytes) _ g in
    header-Keeps off buffer p size bytes h out j

play-Keeps :
    (cb : Option ℕ) (running : Bool) (buffer : Pointer) (size : ℕ) (e : Event) (g : Globals)
    (h : Heap) (out : Globals × Heap)
    → play cb running buffer size e g h ≡ some out
    → Keeps h out.1
unfolding play
play-Keeps none running buffer size e g h out q = rw (← ap (λ o. o.1) (some-is q)) (Keeps-refl h)
play-Keeps (some cb) false buffer size e g h out q = rw (← ap (λ o. o.1) (some-is q)) (Keeps-refl h)
play-Keeps (some cb) true buffer size e g h out q =
    let (o, f, k) = >>=-eq_some (image buffer e.image_block size h) _ q in
    rw (← ap (λ o. o.1) (some-is k)) (image-Keeps buffer e.image_block size h o f)

new_state-Keeps :
    (e : Event) (g : Globals) (h : Heap) (out : Globals × Heap)
    → new_state e g h ≡ some out
    → Keeps h out.1
unfolding new_state
new_state-Keeps e g h out q = elim (Bool-cases (e.data_size == state_size)) [
  | inl s ↦
      (let (bytes, f, k) = >>=-eq_some (h.block e.image_block) _ (rw s at q) in
        rw (← ap (λ o. o.1) (some-is k)) (Keeps-refl h))
  | inr s ↦ none-played _ h out (rw s at q)
]

-- Handing an event over keeps every block, with its length, and takes no memory.
pub dispatch-Keeps :
    (e : Event) (g : Globals) (h : Heap) (out : Globals × Heap)
    → dispatch e g h ≡ some out
    → Keeps h out.1
unfolding dispatch
dispatch-Keeps e g h out q = elim (Bool-cases (e.type_code == b'd')) [
  | inl d ↦ play-Keeps g.cur_depth_cb g.depth_running g.depth_buffer _ e g h out (rw d at q)
  | inr d ↦ elim (Bool-cases (e.type_code == b'r')) [
    | inl r ↦ play-Keeps g.cur_rgb_cb g.rgb_running g.rgb_buffer _ e g h out (rw (d, r) at q)
    | inr r ↦ elim (Bool-cases (e.type_code == b'a')) [
      | inl a ↦ new_state-Keeps e g h out (rw (d, r, a) at q)
      | inr a ↦ none-played g h out (rw (d, r, a) at q)
    ]
  ]
]
