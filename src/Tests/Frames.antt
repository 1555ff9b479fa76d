-- ===== src/Tests/Frames.antt =====
-- The theorems on the conversions, for short runs of bytes and for frames of one value.
use quartz_composer_open_kin.Convert.Bayer.{convert_bayer_to_rgb}
use quartz_composer_open_kin.Convert.Bayer.Frame.{convert_bayer_to_rgb-demosaics}
use quartz_composer_open_kin.Convert.Bayer.Line.{AreBytes}
use quartz_composer_open_kin.Convert.Bayer.Described.{Near, described_lines}
use quartz_composer_open_kin.Convert.Bayer.Reference.{lines_from}
use quartz_composer_open_kin.Convert.Packed.{convert_packed_to_16bit, convert_packed_to_8bit}
use quartz_composer_open_kin.Convert.Packed.Agree.{convert_packed_to_8bit-agrees, dropped}
use quartz_composer_open_kin.Convert.Packed.Laws.{convert_packed_to_16bit-spells}
use quartz_composer_open_kin.Convert.Packed.Value.{AllBelow, value}
use quartz_composer_open_kin.Convert.Uyvy.{convert_uyvy_to_rgb}
use quartz_composer_open_kin.Convert.Uyvy.Laws.{convert_uyvy_to_rgb-pairs, pairs_from}
use quartz_composer_open_kin.Prelude.{
  ℕ, zero, suc, ◌-◌, ◌*◌, ◌/◌, ◌^◌, ◌≡◌, ◌≤◌, some, List, [], ◌∷◌, arith, replicate, length,
  length-replicate, take,
}

abbrev three_bytes : List ℕ
three_bytes = 0xab ∷ 0xcd ∷ 0xef ∷ []

convert_packed_to_16bit-spells_example :
    (pixels : List ℕ) × (convert_packed_to_16bit three_bytes 11 2 ≡ some pixels)
    × (length pixels ≡ 2)
    × AllBelow (2 ^ 11) pixels
    × (value (2 ^ 11) pixels ≡ value 256 three_bytes / 2 ^ (8 * length three_bytes - 2 * 11))
convert_packed_to_16bit-spells_example =
    convert_packed_to_16bit-spells three_bytes 11 2 (omega arith)
      (omega arith, (omega arith, (omega arith, tt))) (omega arith)

convert_packed_to_8bit-agrees_example :
    convert_packed_to_8bit three_bytes 10 2 ≡ dropped 10 (convert_packed_to_16bit three_bytes 10 2)
convert_packed_to_8bit-agrees_example =
    convert_packed_to_8bit-agrees three_bytes 10 2 (omega arith) (omega arith)

replicate-long : (n b : ℕ) → n ≤ length (replicate n b)
replicate-long n b = omega (arith, length-replicate n b)

abbrev uyvy_frame : List ℕ
uyvy_frame = replicate 614400 128

abbrev black : List ℕ
black = replicate 921600 0

convert_uyvy_to_rgb-pairs_example :
    (out : List ℕ) × (convert_uyvy_to_rgb uyvy_frame black ≡ some out)
    × (length out ≡ length black)
    × (take 921600 out ≡ pairs_from uyvy_frame 0 153600)
convert_uyvy_to_rgb-pairs_example =
    convert_uyvy_to_rgb-pairs uyvy_frame black (replicate-long 614400 128) (replicate-long 921600 0)

replicate-AreBytes : (n : ℕ) → AreBytes (replicate n 7)
replicate-AreBytes zero i = omega arith
replicate-AreBytes (suc n) zero = omega arith
replicate-AreBytes (suc n) (suc i) = replicate-AreBytes n i

abbrev bayer_frame : List ℕ
bayer_frame = replicate 307200 7

convert_bayer_to_rgb-demosaics_example :
    (convert_bayer_to_rgb bayer_frame ≡ some (lines_from bayer_frame 640 480 0 480))
    × Near (lines_from bayer_frame 640 480 0 480) (described_lines bayer_frame 640 480 0 480)
convert_bayer_to_rgb-demosaics_example =
    convert_bayer_to_rgb-demosaics bayer_frame (replicate-long 307200 7) (replicate-AreBytes 307200)
