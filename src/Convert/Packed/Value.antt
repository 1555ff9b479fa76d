-- ===== src/Convert/Packed/Value.antt =====
-- Digits in a base, most significant first, and the arithmetic of the bit buffer.
use native.Mathlib.Nat.{
  pow-suc, mul_assoc, mul_comm, one-le-pow, add-zero, pow-zero, mod-lt, mod-mod,
  mul-add-mod_self_right, mod-eq_of_lt, div-add-mod',
}
use quartz_composer_open_kin.Bits.{bit_or-low}
use quartz_composer_open_kin.Prelude.{
  ℕ, zero, suc, ◌+◌, ◌-◌, ◌*◌, ◌/◌, ◌%◌, ◌^◌, ◌≤◌, ◌<◌, ◌≡◌, List, [], ◌∷◌, arith, length, ap, ◌∙◌,
  sym, bit_or, u32,
}

-- The number that `ds` spells.
abbrev pub value : ℕ → List ℕ → ℕ
value base [] = 0
value base (d ∷ ds) = d * base ^ length ds + value base ds

abbrev pub AllBelow : ℕ → List ℕ → Type 0
AllBelow n [] = Unit {0}
AllBelow n (x ∷ xs) = (x < n) × AllBelow n xs

pub pow-add : (a b : ℕ) → 2 ^ (a + b) ≡ 2 ^ a * 2 ^ b
pow-add a zero = rw add-zero (omega arith)
pow-add a (suc b) =
    let e : a + suc b ≡ suc (a + b) = omega arith in
    rw (e, pow-suc 2 (a + b), pow-suc 2 b, pow-add a b) (mul_assoc (2 ^ a) (2 ^ b) 2)

pub pow-mul : (w n : ℕ) → 2 ^ (n * w) ≡ (2 ^ w) ^ n
pow-mul w zero = let e : 0 * w ≡ 0 = omega arith in rw e (sym (pow-zero (2 ^ w)))
pow-mul w (suc n) =
    let e : suc n * w ≡ n * w + w = omega arith in
    rw (e, pow-add (n * w) w, pow-mul w n, pow-suc (2 ^ w) n)

pub pow-pos : (k : ℕ) → 0 < 2 ^ k
pow-pos k = one-le-pow k 2 (omega arith)

mod_unique : (n d q r : ℕ) → n ≡ q * d + r → r < d → n % d ≡ r
mod_unique n d q r e l = rw e (mul-add-mod_self_right q d r ∙ mod-eq_of_lt l)

two_digits : (c r w j : ℕ) → c < w → r < j → c * j + r < j * w
two_digits c r w j p q = grind arith

-- A remainder by a product, digit by digit.
pub mod-mul_split : (x j w : ℕ) → 0 < j → 0 < w → x % (j * w) ≡ (x / j) % w * j + x % j
mod-mul_split x j w p q =
    mod_unique x (j * w) (x / j / w) _
      (omega (
        arith,
        div-add-mod' x j,
        ap (λ (t : ℕ). t * j) (div-add-mod' (x / j) w),
        mul_assoc (x / j / w) w j,
        mul_comm w j,
      ))
      (two_digits ((x / j) % w) (x % j) w j (mod-lt (x / j) q) (mod-lt x p))

pub mod-mul-mod : (x j w : ℕ) → 0 < j → 0 < w → x % (j * w) % j ≡ x % j
mod-mul-mod x j w p q =
    ap (λ (t : ℕ). t % j) (mod-mul_split x j w p q)
    ∙ (mul-add-mod_self_right ((x / j) % w) j (x % j) ∙ mod-mod x j)

-- A byte shifted into the buffer, of which the low `k` bits count.
pub shift_in :
    (k buffer x : ℕ)
    → k ≤ 24
    → x < 256
    → bit_or (u32 (buffer * 2 ^ 8)) x % 2 ^ (k + 8) ≡ buffer % 2 ^ k * 256 + x
shift_in k buffer x l b =
    ap (λ (t : ℕ). t % 2 ^ (k + 8)) joined
    ∙ (ap (λ (t : ℕ). (buffer % 2 ^ 24 * 256 + x) % t) (pow-add k 8)
        ∙ mod_unique (buffer % 2 ^ 24 * 256 + x) (2 ^ k * 256) (buffer % 2 ^ 24 / 2 ^ k) _
            (omega (
              arith,
              low,
              div-add-mod' (buffer % 2 ^ 24) (2 ^ k),
              ap (λ (t : ℕ). t * 256) (div-add-mod' (buffer % 2 ^ 24) (2 ^ k)),
            ))
            (omega (arith, mod-lt buffer (pow-pos k))))
  where
    joined : bit_or (u32 (buffer * 2 ^ 8)) x ≡ buffer % 2 ^ 24 * 256 + x
    joined =
        let e : u32 (buffer * 2 ^ 8) ≡ buffer % 2 ^ 24 * 2 ^ 8 = omega arith in
        rw e (bit_or-low 8 (buffer % 2 ^ 24) x b)

    low : buffer % 2 ^ 24 % 2 ^ k ≡ buffer % 2 ^ k
    low =
        let g : 24 ≡ k + (24 - k) = omega arith in
        let e : 2 ^ 24 ≡ 2 ^ k * 2 ^ (24 - k) = ap (λ (t : ℕ). 2 ^ t) g ∙ pow-add k (24 - k) in
        ap (λ (t : ℕ). buffer % t % 2 ^ k) e
        ∙ mod-mul-mod buffer (2 ^ k) (2 ^ (24 - k)) (pow-pos k) (pow-pos (24 - k))
