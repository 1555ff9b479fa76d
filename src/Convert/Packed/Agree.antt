-- ===== src/Convert/Packed/Agree.antt =====
-- The two packed conversions agree: the 8-bit one drops the low bits of the 16-bit one's pixels.
use native.Mathlib.Nat.{mod-lt, div-div-eq-div-mul, div-eq_of_lt-le, add-mul}
use quartz_composer_open_kin.Convert.Packed.{
  refill, unpack, pixel16, pixel8, convert_packed_to_16bit, convert_packed_to_8bit,
}
use quartz_composer_open_kin.Convert.Packed.Value.{pow-add, pow-pos, mod-mul_split}
use quartz_composer_open_kin.Convert.Packed.Laws.{pixel16-digit}
use quartz_composer_open_kin.Prelude.{
  ℕ, zero, suc, ◌+◌, ◌-◌, ◌*◌, ◌/◌, ◌%◌, ◌^◌, ◌≤◌, ◌<◌, ◌≡◌, Option, none, some, List, ◌∷◌, arith,
  refl, ap, ◌∙◌, sym, map, inl, inr, Option-cases,
}

-- The high part of a remainder.
div-mod_split : (x a b : ℕ) → 0 < a → 0 < b → x % (a * b) / a ≡ x / a % b
div-mod_split x a b p q =
    ap (λ (t : ℕ). t / a) (mod-mul_split x a b p q)
    ∙ div-eq_of_lt-le a (omega arith) (omega (arith, add-mul (x / a % b) 1 a, mod-lt x p))

pixel8-pixel16 :
    (vw buffer j : ℕ) → 8 ≤ vw → vw ≤ 16 → pixel8 vw buffer j ≡ pixel16 vw buffer j / 2 ^ (vw - 8)
pixel8-pixel16 vw buffer j l u = sym (
    ap (λ (t : ℕ). t / 2 ^ (vw - 8)) ((pixel16-digit vw buffer j u).0)
    ∙ (ap (λ (t : ℕ). buffer / 2 ^ j % t / 2 ^ (vw - 8)) split
        ∙ (div-mod_split (buffer / 2 ^ j) (2 ^ (vw - 8)) (2 ^ 8) (pow-pos (vw - 8)) (omega arith)
            ∙ ap (λ (t : ℕ). t % 2 ^ 8) down)))
  where
    split : 2 ^ vw ≡ 2 ^ (vw - 8) * 2 ^ 8
    split = let g : vw ≡ vw - 8 + 8 = omega arith in ap (λ (t : ℕ). 2 ^ t) g ∙ pow-add (vw - 8) 8

    down : buffer / 2 ^ j / 2 ^ (vw - 8) ≡ buffer / 2 ^ (j + vw - 8)
    down =
        let g : j + (vw - 8) ≡ j + vw - 8 = omega arith in
        div-div-eq-div-mul buffer (2 ^ j) (2 ^ (vw - 8))
        ∙ ap (λ (t : ℕ). buffer / t) (sym (pow-add j (vw - 8)) ∙ ap (λ (t : ℕ). 2 ^ t) g)

-- The same loop with one emission or the other.
abbrev pub dropped : ℕ → Option (List ℕ) → Option (List ℕ)
dropped vw none = none
dropped vw (some pixels) = some (map (λ v. v / 2 ^ (vw - 8)) pixels)

unpack_agree :
    (vw len buffer k : ℕ) (raw : List ℕ)
    → 8 ≤ vw
    → vw ≤ 16
    → unpack (pixel8 vw) vw len buffer k raw ≡ dropped vw (unpack (pixel16 vw) vw len buffer k raw)
unfolding unpack
unpack_agree vw zero buffer k raw l u = refl
unpack_agree vw (suc len) buffer k raw l u = elim (Option-cases (refill vw buffer k raw)) [
  | inl e ↦ rw e
  | inr (r, e) ↦
      rw (e, unpack_agree vw len r.buffer (r.bits_in - vw) r.raw l u)
        (elim (Option-cases (unpack (pixel16 vw) vw len r.buffer (r.bits_in - vw) r.raw)) [
          | inl n ↦ rw n
          | inr (ps, s) ↦ rw s (
              ap (λ v. some (v ∷ map (λ v. v / 2 ^ (vw - 8)) ps))
                (pixel8-pixel16 vw r.buffer (r.bits_in - vw) l u))
        ])
]

-- Agreement. For pixels of 8 to 16 bits and any bytes, `convert_packed_to_8bit` returns the pixels of
-- `convert_packed_to_16bit` without their low `vw - 8` bits, and faults exactly where that does.
pub convert_packed_to_8bit-agrees :
    (raw : List ℕ) (vw len : ℕ)
    → 8 ≤ vw
    → vw ≤ 16
    → convert_packed_to_8bit raw vw len ≡ dropped vw (convert_packed_to_16bit raw vw len)
unfolding convert_packed_to_8bit convert_packed_to_16bit
convert_packed_to_8bit-agrees raw vw len l u = unpack_agree vw len 0 0 raw l u
