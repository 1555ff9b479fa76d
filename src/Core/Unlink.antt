-- ===== src/Core/Unlink.antt =====
-- Closing a device: what the search and the unlinking of `freenect_close_device` in
-- libfreenect/src/core.c make of the linked list.
use quartz_composer_open_kin.Core.Devices.{Node, Store, store_set, unlink}
use quartz_composer_open_kin.Core.Links.{Chain, Absent, AllDistinct, Chain-set}
use quartz_composer_open_kin.Prelude.{
  ℕ, zero, suc, ◌<◌, ◌≡◌, ◌≢◌, true, false, Option, none, some, List, [], ◌∷◌, ◌++◌, ◌==◌, length,
  arith, refl, ◌∙◌, sym, ap, Bool-cases, ==_iff, inl, inr,
}

Absent-append : (p : ℕ) (ps qs : List ℕ) → Absent p (ps ++ qs) → Absent p ps × Absent p qs
Absent-append p [] qs a = (refl, a)
Absent-append p (r ∷ ps) qs (n, a) = let (b, c) = Absent-append p ps qs a in ((n, b), c)

differs : (p q : ℕ) → p ≢ q → (q == p) ≡ false
differs p q n = ground arith

-- The devices that are left have the state they had; only links change.
abbrev pub SameStates : Store → Store → Type 0
SameStates st st' =
    (q : ℕ) (n : Node) → st' q ≡ some n → (m : Node) × (st q ≡ some m) × (n.dev ≡ m.dev)

freed-SameStates : (st : Store) (dev : ℕ) → SameStates st (store_set st dev none)
freed-SameStates st dev q n e = elim (Bool-cases (dev == q)) [
  | inl s ↦ absurd (none-some (rw s at e))
  | inr s ↦ (n, rw s at e, refl)
]
  where
    none-some : none ≡ some n → ⊥
    none-some f = ground arith

linked-SameStates :
    (st : Store) (last : ℕ) (m : Node) (next : Option ℕ)
    → st last ≡ some m
    → SameStates st (store_set st last (some (record m { next = next })))
linked-SameStates st last m next e q n f = elim (Bool-cases (last == q)) [
  | inl s ↦
      (m, rw ((==_iff last q).0 s) at e, sym (ap (λ (k : Node). k.dev) (some_node (rw s at f))))
  | inr s ↦ (n, rw s at f, refl)
]
  where
    some_node : {a b : Node} → some a ≡ some b → a ≡ b
    some_node g = cc

SameStates-trans : (st st₁ st₂ : Store) → SameStates st st₁ → SameStates st₁ st₂ → SameStates st st₂
SameStates-trans st st₁ st₂ f g q n e =
    let (m, h, k) = g q n e in let (o, i, j) = f q m h in (o, i, k ∙ j)

-- What unlinking `dev` leaves behind: the rest of the list, the structure freed, the others as they
-- were.
pub record IsUnlinked (st : Store) (first : Option ℕ) (ps qs : List ℕ) (dev : ℕ)
    (r : Option (Option (Option ℕ × Store))) : Type 0 where
  pub head : Option ℕ
  pub store : Store
  pub returns : r ≡ some (some (head, store))
  pub chain : Chain store head (ps ++ qs)
  pub gone : store dev ≡ none
  pub others : (q : ℕ) → Absent q (ps ++ (dev ∷ qs)) → store q ≡ st q
  pub states : SameStates st store

-- The search from `last` on.
unlink_behind :
    (fuel : ℕ) (first : Option ℕ) (last : ℕ) (ps : List ℕ) (dev : ℕ) (qs : List ℕ) (st : Store)
    (cur : Option ℕ)
    → length ps < fuel
    → Chain st (some last) (last ∷ (ps ++ (dev ∷ qs)))
    → AllDistinct (last ∷ (ps ++ (dev ∷ qs)))
    → Chain st cur (ps ++ (dev ∷ qs))
    → (st' : Store) × (unlink fuel first (some last) cur dev st ≡ some (some (first, st')))
      × Chain st' (some last) (last ∷ (ps ++ qs))
      × (st' dev ≡ none)
      × ((q : ℕ) → Absent q (last ∷ (ps ++ (dev ∷ qs))) → st' q ≡ st q)
      × SameStates st st'
unfolding unlink
unlink_behind zero first last ps dev qs st cur l c d k = absurd (omega arith)
unlink_behind (suc fuel) first last [] dev qs st cur l (_, m, f, _) ((ne, a), (b, _)) (e, n, g, k) =
    let found : (dev == dev) ≡ true = ground arith in
    (
      store_set (store_set st last (some (record m { next = n.next }))) dev none,
      rw (e, g, found, f) refl,
      (
        refl,
        record m { next = n.next },
        ground arith,
        Chain-set _ n.next qs dev none b (Chain-set st n.next qs last _ a k),
      ),
      ground arith,
      (λ q x. ground arith),
      SameStates-trans st (store_set st last (some (record m { next = n.next }))) _
          (linked-SameStates st last m n.next f) (freed-SameStates _ dev),
    )
unlink_behind (suc fuel) first last (p ∷ ps) dev qs st cur l (_, m, f, (g, _, _, _)) ((ne, a), d)
      (e, n, h, k) =
    let apart = (Absent-append p ps (dev ∷ qs) d.0).1 in
    let other : (p == dev) ≡ false = differs dev p (λ same. apart.0 (sym same)) in
    let (st', r, c', z, o, w) =
      unlink_behind fuel first p ps dev qs st n.next (omega arith) (refl, n, h, k) d k in
    (
      st',
      rw (e, h, other) r,
      (refl, m, o last (ne, a) ∙ f, (g, c'.1, c'.2, c'.3)),
      z,
      (λ q x. o q x.1),
      w,
    )

-- Closing a device. Where the context's list leads through the devices `ps`, then `dev` and then
-- `qs`, all distinct, the search of `freenect_close_device` finds `dev` in at most one step for each
-- device; then the list leads through `ps` and `qs`, the structure of `dev` is freed, those outside
-- the list are as they were, and no other device's state changed.
pub unlink-IsUnlinked :
    (fuel : ℕ) (first : Option ℕ) (ps : List ℕ) (dev : ℕ) (qs : List ℕ) (st : Store)
    → length ps < fuel
    → Chain st first (ps ++ (dev ∷ qs))
    → AllDistinct (ps ++ (dev ∷ qs))
    → IsUnlinked st first ps qs dev (unlink fuel first none first dev st)
unfolding unlink
unlink-IsUnlinked zero first ps dev qs st l c d = absurd (omega arith)
unlink-IsUnlinked (suc fuel) first [] dev qs st l (e, n, f, c) (a, d) =
    let found : (dev == dev) ≡ true = ground arith in
    record {
      head = n.next;
      store = store_set st dev none;
      returns = rw (e, f, found) refl;
      chain = Chain-set st n.next qs dev none a c;
      gone = ground arith;
      others = λ q x. ground arith;
      states = freed-SameStates st dev;
    }
unlink-IsUnlinked (suc fuel) first (p ∷ ps) dev qs st l (e, n, f, c) (a, d) =
    let apart = (Absent-append p ps (dev ∷ qs) a).1 in
    let other : (p == dev) ≡ false = differs dev p (λ same. apart.0 (sym same)) in
    let (st', r, c', z, o, w) =
      unlink_behind fuel first p ps dev qs st n.next (omega arith) (refl, n, f, c) (a, d) c in
    record {
      head = first;
      store = st';
      returns = rw (e, f, other) (rw e at r);
      chain = (e, c'.1, c'.2, c'.3);
      gone = z;
      others = o;
      states = w;
    }
