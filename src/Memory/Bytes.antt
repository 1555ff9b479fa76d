-- ===== src/Memory/Bytes.antt =====
-- Heaps whose blocks hold bytes, and steps that keep the length of every block.
use quartz_composer_open_kin.Convert.Packed.Value.{AllBelow}
use quartz_composer_open_kin.Memory.{Heap, Pointer, update, memcpy, blit}
use quartz_composer_open_kin.Memory.Laws.{blitted, length-blitted, memcpy-fits, stored}
use quartz_composer_open_kin.Prelude.{
  ℕ, zero, suc, ◌+◌, ◌≤◌, ◌<◌, ◌≡◌, ◌⊎◌, ◌==◌, true, false, none, some, List, [], ◌∷◌, ◌++◌, arith,
  length, take, drop, replicate, refl, inl, inr, Bool-cases, ==_iff, get_or, ◌∙◌, ap, sym,
  >>=-eq_some,
}

pub AllBelow-append :
    (n : ℕ) (xs ys : List ℕ) → AllBelow n xs → AllBelow n ys → AllBelow n (xs ++ ys)
AllBelow-append n [] ys a b = b
AllBelow-append n (x ∷ xs) ys (l, a) b = (l, AllBelow-append n xs ys a b)

pub AllBelow-take : (n k : ℕ) (xs : List ℕ) → AllBelow n xs → AllBelow n (take k xs)
AllBelow-take n zero xs a = tt
AllBelow-take n (suc k) [] a = tt
AllBelow-take n (suc k) (x ∷ xs) (l, a) = (l, AllBelow-take n k xs a)

pub AllBelow-drop : (n k : ℕ) (xs : List ℕ) → AllBelow n xs → AllBelow n (drop k xs)
AllBelow-drop n zero xs a = a
AllBelow-drop n (suc k) [] a = tt
AllBelow-drop n (suc k) (x ∷ xs) (l, a) = AllBelow-drop n k xs a

pub AllBelow-replicate : (n k b : ℕ) → b < n → AllBelow n (replicate k b)
AllBelow-replicate n zero b l = tt
AllBelow-replicate n (suc k) b l = (l, AllBelow-replicate n k b l)

pub AllBelow-get_or : (n : ℕ) (xs : List ℕ) (i : ℕ) → 0 < n → AllBelow n xs → get_or xs i 0 < n
AllBelow-get_or n [] i z a = z
AllBelow-get_or n (x ∷ xs) zero z (l, a) = l
AllBelow-get_or n (x ∷ xs) (suc i) z (l, a) = AllBelow-get_or n xs i z a

-- Every block holds bytes, and so does what malloc gives.
pub record HoldsBytes (h : Heap) : Type 0 where
  pub fill : h.fill < 256
  pub blocks : (q : ℕ) (b : List ℕ) → h.block q ≡ some b → AllBelow 256 b

-- Blocks stay allocated, with their lengths.
abbrev pub SameShape : Heap → Heap → Type 0
SameShape h h' =
    (q : ℕ) (b : List ℕ)
    → h.block q ≡ some b
    → (b' : List ℕ) × (h'.block q ≡ some b') × (length b' ≡ length b)

pub SameShape-refl : (h : Heap) → SameShape h h
SameShape-refl h q b e = (b, e, refl)

pub SameShape-trans : (h h₁ h₂ : Heap) → SameShape h h₁ → SameShape h₁ h₂ → SameShape h h₂
SameShape-trans h h₁ h₂ f g q b e =
    let (b₁, e₁, l₁) = f q b e in let (b₂, e₂, l₂) = g q b₁ e₁ in (b₂, e₂, l₂ ∙ l₁)

-- `p` points to a block of at least `n` bytes.
abbrev pub Fits : ℕ → Pointer → Heap → Type 0
Fits n p h = (q : ℕ) × (b : List ℕ) × (p ≡ some q) × (h.block q ≡ some b) × (n ≤ length b)

pub Fits-shape : (n : ℕ) (p : Pointer) (h h' : Heap) → SameShape h h' → Fits n p h → Fits n p h'
Fits-shape n p h h' s (q, b, e, f, l) =
    let (b', f', k) = s q b f in (q, b', e, f', omega (arith, k))

-- What a step of the heap may do.
pub record Sound (h h' : Heap) : Type 0 where
  pub bytes : HoldsBytes h'
  pub shape : SameShape h h'

pub some-eq : {c d : List ℕ} → some c ≡ some d → c ≡ d
some-eq e = cc

pub updated-HoldsBytes :
    (h h' : Heap) (q : ℕ) (b : List ℕ)
    → h'.fill ≡ h.fill
    → ((r : ℕ) → h'.block r ≡ update h.block q (some b) r)
    → AllBelow 256 b
    → HoldsBytes h
    → HoldsBytes h'
updated-HoldsBytes h h' q b f u a hb = record {
  fill = omega (arith, f, hb.fill);
  blocks = λ r c k. written r c (Bool-cases (q == r)) (sym (u r) ∙ k);
}
  where
    written :
        (r : ℕ) (c : List ℕ)
        → ((q == r) ≡ true) ⊎ ((q == r) ≡ false)
        → update h.block q (some b) r ≡ some c
        → AllBelow 256 c
    written r c (inl s) k = let same : b ≡ c = some-eq (rw s at k) in rw same at a
    written r c (inr s) k = hb.blocks r c (rw s at k)

stored-HoldsBytes :
    (h : Heap) (q : ℕ) (b : List ℕ) → AllBelow 256 b → HoldsBytes h → HoldsBytes (stored h q b)
stored-HoldsBytes h q b a hb = updated-HoldsBytes h (stored h q b) q b refl (λ r. refl) a hb

blitted-bytes :
    (off : ℕ) (src b : List ℕ)
    → AllBelow 256 src
    → AllBelow 256 b
    → AllBelow 256 (blitted off src b)
blitted-bytes off src b a c =
    AllBelow-append 256 (take off b) _ (AllBelow-take 256 off b c)
      (AllBelow-append 256 src _ a (AllBelow-drop 256 (off + length src) b c))

pub blit-bytes :
    (off : ℕ) (src b out : List ℕ)
    → blit off src b ≡ some out
    → AllBelow 256 src
    → AllBelow 256 b
    → AllBelow 256 out
unfolding blit
blit-bytes off src b out e a c =
    let d : out ≡ blitted off src b = ground arith in rw d (blitted-bytes off src b a c)

-- Whatever memcpy does, bytes stay bytes.
pub memcpy-HoldsBytes :
    (p : Pointer) (off : ℕ) (src : List ℕ) (h h' : Heap)
    → memcpy p off src h ≡ some h'
    → AllBelow 256 src
    → HoldsBytes h
    → HoldsBytes h'
unfolding memcpy
memcpy-HoldsBytes none off src h h' e a hb = ground arith
memcpy-HoldsBytes (some q) off src h h' e a hb =
    let (b, f, g) = >>=-eq_some (h.block q) _ e in
    let (b', k, l) = >>=-eq_some (blit off src b) _ g in
    let same : h' ≡ stored h q b' = cc in
    rw same (stored-HoldsBytes h q b' (blit-bytes off src b b' k a (hb.blocks q b f)) hb)

pub memcpy-Sound :
    (p : Pointer) (off n : ℕ) (src : List ℕ) (h : Heap)
    → Fits n p h
    → off + length src ≤ n
    → AllBelow 256 src
    → HoldsBytes h
    → (h' : Heap) × (memcpy p off src h ≡ some h') × Sound h h'
memcpy-Sound p off n src h (q, b, e, f, l) fits a hb =
    let inside : off + length src ≤ length b = omega arith in
    (
      stored h q (blitted off src b),
      rw e (memcpy-fits q off src b h f inside),
      record {
        bytes = stored-HoldsBytes h q _ (blitted-bytes off src b a (hb.blocks q b f)) hb;
        shape = λ r c k. shaped r c inside (Bool-cases (q == r)) k;
      },
    )
  where
    same : (r : ℕ) (c : List ℕ) → (q == r) ≡ true → h.block r ≡ some c → b ≡ c
    same r c s k = let g = (==_iff q r).0 s in some-eq (sym (rw g at f) ∙ k)

    shaped :
        (r : ℕ) (c : List ℕ)
        → off + length src ≤ length b
        → ((q == r) ≡ true) ⊎ ((q == r) ≡ false)
        → h.block r ≡ some c
        → (c' : List ℕ) × ((stored h q (blitted off src b)).block r ≡ some c')
          × (length c' ≡ length c)
    shaped r c i (inl s) k =
        (blitted off src b, rw s refl, length-blitted off src b i ∙ ap length (same r c s k))
    shaped r c i (inr s) k = (c, rw s k, refl)
