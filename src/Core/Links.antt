-- ===== src/Core/Links.antt =====
-- The linked list of open devices: what `append_device` and `unlink` make of it.
use quartz_composer_open_kin.Core.Devices.{Node, Store, store_set, link_last, append_device}
use quartz_composer_open_kin.Prelude.{
  ℕ, zero, suc, ◌<◌, ◌≡◌, ◌≢◌, Option, none, some, List, [], ◌∷◌, ◌++◌, length, arith, refl, ◌∙◌,
}

-- From `first` the links lead through exactly the structures `ps`, and then to NULL.
abbrev pub Chain : Store → Option ℕ → List ℕ → Type 0
Chain st first [] = first ≡ none
Chain st first (p ∷ ps) = (first ≡ some p) × (n : Node) × (st p ≡ some n) × Chain st n.next ps

abbrev pub Absent : ℕ → List ℕ → Type 0
Absent p [] = p ≡ p
Absent p (q ∷ qs) = (p ≢ q) × Absent p qs

abbrev pub AllDistinct : List ℕ → Type 0
AllDistinct [] = zero ≡ zero
AllDistinct (p ∷ ps) = Absent p ps × AllDistinct ps

-- A structure outside a chain can change.
pub Chain-set :
    (st : Store) (first : Option ℕ) (ps : List ℕ) (q : ℕ) (v : Option Node)
    → Absent q ps
    → Chain st first ps
    → Chain (store_set st q v) first ps
Chain-set st first [] q v a c = c
Chain-set st first (p ∷ ps) q v (d, a) (e, n, f, c) = (e, n, other, Chain-set st n.next ps q v a c)
  where
    other : store_set st q v p ≡ some n
    other = ground arith

here : (st : Store) (p : ℕ) (n : Node) → store_set st p (some n) p ≡ some n
here st p n = ground arith

-- The links from a structure on, with one more behind the last.
link_last-Chain :
    (fuel prev pdev : ℕ) (ps : List ℕ) (st : Store)
    → length ps < fuel
    → Chain st (some prev) (prev ∷ ps)
    → AllDistinct (prev ∷ ps)
    → Absent pdev (prev ∷ ps)
    → Chain st (some pdev) (pdev ∷ [])
    → (st' : Store) × (link_last fuel prev pdev st ≡ some st')
      × Chain st' (some prev) (prev ∷ ps ++ (pdev ∷ []))
      × ((q : ℕ) → Absent q (prev ∷ ps) → st' q ≡ st q)
unfolding link_last
link_last-Chain zero prev pdev ps st l c d x z = ground arith
link_last-Chain (suc fuel) prev pdev [] st l (e, n, f, c) d x (z, m, w, v) =
    rw (f, c)
      (
        store_set st prev (some (record n { next = some pdev })),
        refl,
        (refl, record n { next = some pdev }, here st prev _, (refl, m, ground arith, v)),
        λ q b. ground arith,
      )
link_last-Chain (suc fuel) prev pdev (p ∷ ps) st l (e, n, f, (g, m, h, c)) ((ne, a), d) (x, y) z =
    let (st', r, c', k) = link_last-Chain fuel p pdev ps st (omega arith) (refl, m, h, c) d y z in
    rw (f, g) (st', r, (refl, n, k prev (ne, a) ∙ f, (g, c'.1, c'.2, c'.3)), λ q b. k q b.1)

-- A new device is last. Where the context's list leads through the devices `ps`, all distinct, and
-- the new one is not among them and has a null `next`, `freenect_open_device` makes the list lead
-- through `ps` and then the new device, in a search of at most one step for each device.
pub append_device-Chain :
    (fuel : ℕ) (first : Option ℕ) (pdev : ℕ) (ps : List ℕ) (st : Store)
    → length ps < fuel
    → Chain st first ps
    → AllDistinct ps
    → Absent pdev ps
    → Chain st (some pdev) (pdev ∷ [])
    → (first' : Option ℕ) × (st' : Store) × (append_device fuel first pdev st ≡ some (first', st'))
      × Chain st' first' (ps ++ (pdev ∷ []))
unfolding append_device
append_device-Chain fuel first pdev [] st l c d x z = rw c (some pdev, st, refl, z)
append_device-Chain fuel first pdev (p ∷ ps) st l (e, n, f, c) d x z =
    let (st', r, c', k) = link_last-Chain fuel p pdev ps st (omega arith) (refl, n, f, c) d x z in
    rw (e, r) (some p, st', refl, c')
