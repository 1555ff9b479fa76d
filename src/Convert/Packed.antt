-- ===== src/Convert/Packed.antt =====
-- `convert_packed_to_16bit` and `convert_packed_to_8bit` of libfreenect/src/cameras.c. `raw` is the
-- list of the bytes from the pointer on, and a read past them is a fault; the words written to
-- `frame` are the list that is returned.
pub mod Value
pub mod Laws
pub mod Agree
use quartz_composer_open_kin.Prelude.{
  ℕ, zero, suc, ◌+◌, ◌-◌, ◌*◌, ◌/◌, ◌%◌, ◌^◌, Bool, true, false, Option, none, some, List, [], ◌∷◌,
  ltb, if◌then◌else◌, ◌>>=◌, ◌>>>◌, bit_and, bit_or, u8, u16, u32,
}

-- `buffer`, `bitsIn` and what is left of `raw`.
abbrev pub Reader : Type 0
Reader = record { buffer : ℕ; bits_in : ℕ; raw : List ℕ }

-- The inner loop: `while (bitsIn < vw) { buffer = (buffer << 8) | *(raw++); bitsIn += 8; }`
unfoldable pub refill : ℕ → ℕ → ℕ → List ℕ → Option Reader
refill vw buffer bits_in [] =
    if ltb bits_in vw then none else some (record { buffer = buffer; bits_in = bits_in; raw = [] })
refill vw buffer bits_in (b ∷ raw) = elim (ltb bits_in vw) [
  | true ↦ refill vw (bit_or (u32 (buffer * 2 ^ 8)) b) (bits_in + 8) raw
  | false ↦ some (record { buffer = buffer; bits_in = bits_in; raw = b ∷ raw })
]

-- The outer loop over `len` pixels; `emit` is what is written for `buffer` and `bitsIn`.
unfoldable pub unpack : (ℕ → ℕ → ℕ) → ℕ → ℕ → ℕ → ℕ → List ℕ → Option (List ℕ)
unfolding refill
unpack emit vw zero buffer bits_in raw = some []
unpack emit vw (suc len) buffer bits_in raw = do
  r ← refill vw buffer bits_in raw
  let left = r.bits_in - vw
  rest ← unpack emit vw len r.buffer left r.raw
  some (emit r.buffer left ∷ rest)

abbrev pub pixel16 : ℕ → ℕ → ℕ → ℕ
pixel16 vw buffer bits_in = u16 (bit_and (buffer >>> bits_in) (2 ^ vw - 1))

abbrev pub pixel8 : ℕ → ℕ → ℕ → ℕ
pixel8 vw buffer bits_in = u8 (buffer >>> (bits_in + vw - 8))

unfoldable pub convert_packed_to_16bit : List ℕ → ℕ → ℕ → Option (List ℕ)
unfolding unpack
convert_packed_to_16bit raw vw len = unpack (pixel16 vw) vw len 0 0 raw

unfoldable pub convert_packed_to_8bit : List ℕ → ℕ → ℕ → Option (List ℕ)
unfolding unpack
convert_packed_to_8bit raw vw len = unpack (pixel8 vw) vw len 0 0 raw
