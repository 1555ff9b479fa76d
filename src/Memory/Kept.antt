-- ===== src/Memory/Kept.antt =====
-- What a copy and a free leave: the lengths of blocks and the memory that is left.
use quartz_composer_open_kin.Memory.{Heap, Pointer, update, malloc, memcpy, blit, free}
use quartz_composer_open_kin.Memory.Bytes.{SameShape, some-eq}
use quartz_composer_open_kin.Memory.Laws.{blitted, length-blitted, stored}
use quartz_composer_open_kin.Prelude.{
  ℕ, ◌+◌, ◌≤◌, ◌≡◌, false, none, some, Option-cases, List, arith, length, replicate, refl, inl, inr,
  Bool-cases, ==_iff, ◌==◌, leb, >>=-eq_some, ◌∙◌, sym, ap,
}

blit-length : (off : ℕ) (src b out : List ℕ) → blit off src b ≡ some out → length out ≡ length b
unfolding blit
blit-length off src b out e = elim (Bool-cases (leb (off + length src) (length b))) [
  | inl l ↦
      (let same : blitted off src b ≡ out = some-eq (rw l at e) in
        sym (ap length same) ∙ length-blitted off src b (ground (arith, l)))
  | inr l ↦ absurd (none-some (rw l at e))
]
  where
    none-some : none ≡ some out → ⊥
    none-some f = ground arith

stored-SameShape :
    (h : Heap) (q : ℕ) (b b' : List ℕ)
    → h.block q ≡ some b
    → length b' ≡ length b
    → SameShape h (stored h q b')
stored-SameShape h q b b' e l r c f = elim (Bool-cases (q == r)) [
  | inl s ↦
      (let g = (==_iff q r).0 s in
        let same : b ≡ c = some-eq (sym (rw g at e) ∙ f) in (b', rw s refl, l ∙ ap length same))
  | inr s ↦ (c, rw s f, refl)
]

-- A copy that succeeds keeps every block, with its length, and allocates nothing.
pub memcpy-SameShape :
    (p : Pointer) (off : ℕ) (src : List ℕ) (h h' : Heap)
    → memcpy p off src h ≡ some h'
    → SameShape h h' × (h'.room ≡ h.room)
unfolding memcpy
memcpy-SameShape none off src h h' e = ground arith
memcpy-SameShape (some q) off src h h' e =
    let (b, f, g) = >>=-eq_some (h.block q) _ e in
    let (b', k, l) = >>=-eq_some (blit off src b) _ g in
    let same : stored h q b' ≡ h' = cc in
    rw (← same) (stored-SameShape h q b b' f (blit-length off src b b' k), refl)

-- Freeing a block gives back its length.
pub free-room :
    (p : ℕ) (b : List ℕ) (h h' : Heap)
    → h.block p ≡ some b
    → free (some p) h ≡ some h'
    → h'.room ≡ h.room + length b
unfolding free
free-room p b h h' e f = ground (arith, rw e at f)

pub free-others :
    (p q : ℕ) (h h' : Heap) → free (some p) h ≡ some h' → (p == q) ≡ false → h'.block q ≡ h.block q
unfolding free
free-others p q h h' f n =
    let (b, e, g) = >>=-eq_some (h.block p) _ f in
    let same : h'.block q ≡ update h.block p none q = ground arith in same ∙ rw n refl

pub some-is {ℓ} : {A : Type ℓ} {a b : A} → some a ≡ some b → a ≡ b
some-is e = ground arith

pub none-is {ℓ} : {A : Type ℓ} {b : A} → none ≡ some b → ⊥
none-is e = ground arith

-- What an allocation that succeeds gives.
pub malloc-some :
    (n : ℕ) (h : Heap) (p : ℕ)
    → (malloc n h).0 ≡ some p
    → (p ≡ h.next)
      × ((malloc n h).1.block p ≡ some (replicate n h.fill))
      × ((malloc n h).1.room + n ≡ h.room)
      × ((q : ℕ) → (p == q) ≡ false → (malloc n h).1.block q ≡ h.block q)
unfolding malloc
malloc-some n h p e = elim (Bool-cases (leb n h.room)) [
  | inl l ↦
      (let same : h.next ≡ p = some-is (rw l at e) in
        (
          sym same,
          rw (l, same, (==_iff p p).1 refl) refl,
          rw l (ground (arith, l)),
          λ q s. rw (l, same, s) refl,
        ))
  | inr l ↦ absurd (none-some (rw l at e))
]
  where
    none-some : none ≡ some p → ⊥
    none-some f = ground arith

pub malloc-none : (n : ℕ) (h : Heap) → (malloc n h).0 ≡ none → (malloc n h).1 ≡ h
unfolding malloc
malloc-none n h e = elim (Bool-cases (leb n h.room)) [
  | inl l ↦ absurd (some-none (rw l at e))
  | inr l ↦ rw l refl
]
  where
    some-none : some h.next ≡ none → ⊥
    some-none f = ground arith

-- An allocation that succeeds or not keeps every block.
pub malloc-SameShape :
    (n : ℕ) (h : Heap) → ((q : ℕ) → h.next ≤ q → h.block q ≡ none) → SameShape h (malloc n h).1
malloc-SameShape n h fresh q b e = elim (Option-cases (malloc n h).0) [
  | inl m ↦ (b, rw (malloc-none n h m) e, refl)
  | inr (p, m) ↦
      (let (own, _, _, others) = malloc-some n h p m in (b, others q (other p own) ∙ e, refl))
]
  where
    some-none : none ≡ some b → ⊥
    some-none f = ground arith

    other : (p : ℕ) → p ≡ h.next → (p == q) ≡ false
    other p own = elim (Bool-cases (p == q)) [
      | inl s ↦
          (let same = (==_iff p q).0 s in
            absurd (some-none (sym (fresh q (omega (arith, same, own))) ∙ e)))
      | inr s ↦ s
    ]

-- `memcpy` to NULL is a fault.
pub memcpy-null : (off : ℕ) (src : List ℕ) (h : Heap) → memcpy none off src h ≡ none
unfolding memcpy
memcpy-null off src h = refl
