-- ===== src/Memory/Frees.antt =====
-- Freeing a list of blocks, one after the other.
use mathlib.Core.List.{
  Mem, Nodup, Nodup-cons, mem-cons_self, mem-cons_of_mem, mem_of_ne_of_mem, not-mem-nil,
}
use quartz_composer_open_kin.Memory.{Heap, Pointer, update, free}
use quartz_composer_open_kin.Memory.Bytes.{SameShape}
use quartz_composer_open_kin.Memory.Kept.{free-others}
use quartz_composer_open_kin.Prelude.{
  ℕ, ◌+◌, length, ◌≡◌, ◌≢◌, false, Option, none, some, List, [], ◌∷◌, refl, inl, inr, Bool-cases,
  ==_iff, ◌==◌, ◌>>=◌, >>=-eq_some, ◌++◌, ◌∙◌, arith,
}

unfoldable pub free_each : List ℕ → Heap → Option Heap
free_each [] h = some h
free_each (p ∷ ps) h = free (some p) h >>= free_each ps

-- Each of the blocks is allocated.
abbrev pub AllAllocated : List ℕ → Heap → Type 0
AllAllocated [] h = Unit {0}
AllAllocated (p ∷ ps) h = ((b : List ℕ) × (h.block p ≡ some b)) × AllAllocated ps h

free-allocated :
    (p : ℕ) (b : List ℕ) (h : Heap)
    → h.block p ≡ some b
    → (h' : Heap) × (free (some p) h ≡ some h') × (h'.block p ≡ none)
unfolding free
free-allocated p b h e = (
  record h { room = h.room + length b; block = update h.block p none },
  rw e refl,
  rw ((==_iff p p).1 refl) refl,
)

other-false : (p q : ℕ) (ps : List ℕ) → ¬ Mem p ps → Mem q ps → (p == q) ≡ false
other-false p q ps n m = elim (Bool-cases (p == q)) [
  | inl e ↦ (let same : Mem p ps = rw ((==_iff p q).0 e) m in absurd (n same))
  | inr e ↦ e
]

AllAllocated-kept :
    (p : ℕ) (ps : List ℕ) (h h' : Heap)
    → ¬ Mem p ps
    → ((q : ℕ) → (p == q) ≡ false → h'.block q ≡ h.block q)
    → AllAllocated ps h
    → AllAllocated ps h'
AllAllocated-kept p [] h h' n k a = tt
AllAllocated-kept p (q ∷ ps) h h' n k ((b, e), a) = (
  (b, k q (other-false p q (q ∷ ps) n mem-cons_self) ∙ e),
  AllAllocated-kept p ps h h' (λ m. n (mem-cons_of_mem q m)) k a,
)

apart : (q p : ℕ) → (p == q) ≡ false → q ≢ p
apart q p s same = ground (arith, s, same)

different : (q p : ℕ) (ps : List ℕ) → ¬ Mem q (p ∷ ps) → (p == q) ≡ false
different q p ps n = elim (Bool-cases (p == q)) [
  | inl s ↦ (let m : Mem q (p ∷ ps) = rw ((==_iff p q).0 s) mem-cons_self in absurd (n m))
  | inr s ↦ s
]

-- Blocks that are allocated and apart from one another can all be freed; the others stay.
pub free_each-frees :
    (ps : List ℕ) (h : Heap)
    → Nodup ps
    → AllAllocated ps h
    → (h' : Heap) × (free_each ps h ≡ some h')
      × ((q : ℕ) → Mem q ps → h'.block q ≡ none)
      × ((q : ℕ) → ¬ Mem q ps → h'.block q ≡ h.block q)
unfolding free_each
free_each-frees [] h d a = (h, refl, λ q m. absurd (not-mem-nil m), λ q n. refl)
free_each-frees (p ∷ ps) h d ((b, e), a) =
    let (fresh, d') = Nodup-cons.0 d in
    let (h₁, f, gone) = free-allocated p b h e in
    let (h', g, freed, others) =
      free_each-frees ps h₁ d'
        (AllAllocated-kept p ps h h₁ fresh (λ q. free-others p q h h₁ f) a) in
    (
      h',
      rw f g,
      λ q m. (elim (Bool-cases (p == q)) [
        | inl s ↦ (let same = (==_iff p q).0 s in rw (← same) (others p fresh ∙ gone))
        | inr s ↦ freed q (mem_of_ne_of_mem (apart q p s) m)
      ]),
      λ q n. others q (λ m. n (mem-cons_of_mem p m)) ∙ free-others p q h h₁ f (different q p ps n),
    )

-- The blocks behind a pointer.
abbrev pub pointed : Pointer → List ℕ
pointed none = []
pointed (some p) = p ∷ []

pub free-pointed :
    (p : Pointer) (h h' : Heap) → free_each (pointed p) h ≡ some h' → free p h ≡ some h'
unfolding free_each free
free-pointed none h h' e = e
free-pointed (some p) h h' e = let (h₁, f, g) = >>=-eq_some (free (some p) h) _ e in f ∙ g

-- Freeing a list of blocks and then another.
pub free_each-append :
    (ps qs : List ℕ) (h h' : Heap)
    → free_each (ps ++ qs) h ≡ some h'
    → (h₁ : Heap) × (free_each ps h ≡ some h₁) × (free_each qs h₁ ≡ some h')
unfolding free_each
free_each-append [] qs h h' e = (h, refl, e)
free_each-append (p ∷ ps) qs h h' e =
    let (h₁, f, g) = >>=-eq_some (free (some p) h) _ e in
    let (h₂, k, l) = free_each-append ps qs h₁ h' g in (h₂, rw f k, l)

pub AllAllocated-shape :
    (ps : List ℕ) (h h' : Heap) → SameShape h h' → AllAllocated ps h → AllAllocated ps h'
AllAllocated-shape [] h h' s a = tt
AllAllocated-shape (p ∷ ps) h h' s ((b, e), a) =
    let (b', f, _) = s p b e in ((b', f), AllAllocated-shape ps h h' s a)
