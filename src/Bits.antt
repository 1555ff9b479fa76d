-- ===== src/Bits.antt =====
-- Bitwise operations of the conversions as arithmetic: joining fields by `|` and cutting by `&`.
use Prim.Native.Nat.{digits, bitwise, bit_and-bitwise, bit_or-bitwise}
use native.Mathlib.Nat.{pow-suc, one-le-pow, le_refl, div-div-eq-div-mul}
use quartz_composer_open_kin.Prelude.{
  ℕ, zero, suc, ◌+◌, ◌-◌, ◌*◌, ◌/◌, ◌%◌, ◌^◌, ◌≤◌, ◌<◌, ◌≡◌, min, max, bit_and, bit_or, arith, refl,
  ap, ◌∙◌,
}

-- The digits of a number do not depend on how much fuel is left once there is enough.
module _ (last : ℕ → ℕ) (op : ℕ → ℕ → ℕ) where
  digits_enough : (n m x y : ℕ) → x ≤ n → x ≤ m → digits last op n x y ≡ digits last op m x y
  digits_enough zero zero x y p q = refl
  digits_enough zero (suc m) zero y p q = refl
  digits_enough (suc n) zero zero y p q = refl
  digits_enough (suc n) (suc m) zero y p q = refl
  digits_enough zero m (suc x) y p q = absurd (omega arith)
  digits_enough (suc n) zero (suc x) y p q = absurd (omega arith)
  digits_enough (suc n) (suc m) (suc x) y p q =
      omega (arith, digits_enough n m (suc x / 2) (y / 2) (omega arith) (omega arith))

  -- One equation for the lowest digit.
  bitwise-halves :
      (x y : ℕ)
      → bitwise last op (suc x) y ≡ bitwise last op (suc x / 2) (y / 2) * 2 + op (suc x % 2) (y % 2)
  bitwise-halves x y =
      omega (arith, digits_enough x (suc x / 2) (suc x / 2) (y / 2) (omega arith) (le_refl _))

bit_or-halves : (x y : ℕ) → bit_or x y ≡ bit_or (x / 2) (y / 2) * 2 + max (x % 2) (y % 2)
bit_or-halves zero y = omega (arith, bit_or-bitwise 0 y, bit_or-bitwise 0 (y / 2))
bit_or-halves (suc x) y = omega (
  arith,
  bit_or-bitwise (suc x) y,
  bit_or-bitwise (suc x / 2) (y / 2),
  bitwise-halves (λ b. b) max x y,
)

bit_and-halves : (x y : ℕ) → bit_and x y ≡ bit_and (x / 2) (y / 2) * 2 + min (x % 2) (y % 2)
bit_and-halves zero y = omega (arith, bit_and-bitwise 0 y, bit_and-bitwise 0 (y / 2))
bit_and-halves (suc x) y = omega (
  arith,
  bit_and-bitwise (suc x) y,
  bit_and-bitwise (suc x / 2) (y / 2),
  bitwise-halves (λ b. 0) min x y,
)

bit_or-zero : (n x : ℕ) → x ≤ n → bit_or x 0 ≡ x
bit_or-zero n zero p = refl
bit_or-zero zero (suc x) p = absurd (omega arith)
bit_or-zero (suc n) (suc x) p =
    omega (arith, bit_or-halves (suc x) 0, bit_or-zero n (suc x / 2) (omega arith))

bit_and-zero : (n x : ℕ) → x ≤ n → bit_and x 0 ≡ 0
bit_and-zero n zero p = refl
bit_and-zero zero (suc x) p = absurd (omega arith)
bit_and-zero (suc n) (suc x) p =
    omega (arith, bit_and-halves (suc x) 0, bit_and-zero n (suc x / 2) (omega arith))

double-pow : (q k : ℕ) → q * 2 ^ suc k ≡ 2 * (q * 2 ^ k)
double-pow q k = omega (arith, ap (λ (t : ℕ). q * t) (pow-suc 2 k))

-- `(q << k) | r` is a sum if `r` has `k` bits, in either order.
pub bit_or-low : (k q r : ℕ) → r < 2 ^ k → bit_or (q * 2 ^ k) r ≡ q * 2 ^ k + r
bit_or-low zero q r p = ground (arith, bit_or-zero q q (le_refl q))
bit_or-low (suc k) q r p =
    ground
      (arith, bit_or-halves (q * 2 ^ suc k) r, double-pow q k, bit_or-low k q (r / 2) (omega arith))

pub bit_or-high : (k q r : ℕ) → r < 2 ^ k → bit_or r (q * 2 ^ k) ≡ q * 2 ^ k + r
bit_or-high zero q r p = ground (arith, bit_or-bitwise 0 q)
bit_or-high (suc k) q r p =
    ground (
      arith,
      bit_or-halves r (q * 2 ^ suc k),
      double-pow q k,
      bit_or-high k q (r / 2) (omega arith),
    )

bit_and-low : (k q r : ℕ) → r < 2 ^ k → bit_and (q * 2 ^ k + r) (2 ^ k - 1) ≡ r
bit_and-low zero q r p = ground (arith, bit_and-zero (q * 1 + r) (q * 1 + r) (le_refl _))
bit_and-low (suc k) q r p = ground (
  arith,
  bit_and-halves (q * 2 ^ suc k + r) (2 ^ suc k - 1),
  double-pow q k,
  pow-suc 2 k,
  one-le-pow k 2,
  bit_and-low k q (r / 2) (omega arith),
)

-- `x & ((1 << k) - 1)`.
pub bit_and-mask : (k x : ℕ) → bit_and x (2 ^ k - 1) ≡ x % 2 ^ k
bit_and-mask k x = ground (arith, one-le-pow k 2, bit_and-low k (x / 2 ^ k) (x % 2 ^ k))

half_quotient : (k x : ℕ) → x / 2 / 2 ^ k ≡ x / 2 ^ suc k
half_quotient k x =
    div-div-eq-div-mul x 2 (2 ^ k) ∙ ap (λ (t : ℕ). x / t) (omega (arith, pow-suc 2 k))

-- A mask that stands `k` bits up.
pub bit_and-shifted : (k x m : ℕ) → bit_and x (m * 2 ^ k) ≡ bit_and (x / 2 ^ k) m * 2 ^ k
bit_and-shifted zero x m =
    let e : m * 1 ≡ m = omega arith in let f : x / 1 ≡ x = omega arith in rw (e, f) (omega arith)
bit_and-shifted (suc k) x m =
    halve
    ∙ rw (bit_and-shifted k (x / 2) m, half_quotient k x)
        (omega (arith, double-pow (bit_and (x / 2 ^ suc k) m) k))
  where
    halve : bit_and x (m * 2 ^ suc k) ≡ bit_and (x / 2) (m * 2 ^ k) * 2
    halve = ground (arith, bit_and-halves x (m * 2 ^ suc k), double-pow m k)
