-- ===== src/Memory/Behind.antt =====
-- Stores one behind the other.
use quartz_composer_open_kin.Memory.{blit}
use quartz_composer_open_kin.Memory.Laws.{blit-fits}
use quartz_composer_open_kin.Prelude.{
  ℕ, zero, suc, ◌+◌, ◌≤◌, ◌≡◌, some, List, [], ◌∷◌, ◌++◌, arith, length, refl, ap, append_assoc,
  take, drop, length-append, sym, ◌∙◌,
}

take-own : (w r : List ℕ) → take (length w) (w ++ r) ≡ w
take-own [] r = refl
take-own (x ∷ w) r = ap (λ (t : List ℕ). x ∷ t) (take-own w r)

drop-own : (w r : List ℕ) (n : ℕ) → drop (length w + n) (w ++ r) ≡ drop n r
drop-own [] r n = let e : 0 + n ≡ n = omega arith in rw e refl
drop-own (x ∷ w) r n =
    let e : suc (length w) + n ≡ suc (length w + n) = omega arith in rw e (drop-own w r n)

pub drop-twice : (m n : ℕ) (r : List ℕ) → drop n (drop m r) ≡ drop (m + n) r
drop-twice zero n r = let e : 0 + n ≡ n = omega arith in rw e refl
drop-twice (suc m) zero [] = let e : suc m + 0 ≡ suc m = omega arith in rw e refl
drop-twice (suc m) (suc n) [] = let e : suc m + suc n ≡ suc (m + suc n) = omega arith in rw e refl
drop-twice (suc m) n (x ∷ r) =
    let e : suc m + n ≡ suc (m + n) = omega arith in rw e (drop-twice m n r)

-- A store right behind what is written.
pub blit-behind :
    (w r px : List ℕ)
    → length px ≤ length r
    → blit (length w) px (w ++ r) ≡ some ((w ++ px) ++ drop (length px) r)
blit-behind w r px l =
    blit-fits (length w) px (w ++ r) (omega (arith, length-append w r, l))
    ∙ rw (take-own w r, drop-own w r (length px))
        (ap some (sym (append_assoc w px (drop (length px) r))))
