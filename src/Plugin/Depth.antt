-- ===== src/Plugin/Depth.antt =====
-- `depth_cb` of ImageWithKinectPlugIn.mm: the colours and the measures of a depth frame. The clamping
-- bounds and the measures are doubles in the code; those that arise are natural numbers, fractions of
-- them, DBL_MAX and DBL_MIN. The gamma table, which `powf` fills, is a parameter of 2048 words.
pub mod Statistics
pub mod Frame
use quartz_composer_open_kin.Device.{frame_pix}
use quartz_composer_open_kin.Memory.{blit}
use quartz_composer_open_kin.Prelude.{
  ℕ, zero, suc, ◌+◌, ◌-◌, ◌*◌, ◌/◌, ◌%◌, Bool, true, false, Option, none, some, List, [], ◌∷◌, ◌++◌,
  ◌==◌, ltb, leb, if◌then◌else◌, get_elem?, ◌>>=◌, u8, map,
}

-- What `depth_cb` reads of the plug-in.
pub record Settings : Type 0 where
  pub use_depth_transform : Bool
  pub t_gamma : List ℕ
  pub depth_clamp_max : ℕ
  pub depth_clamp_min : ℕ

-- Clamped from above, and moved down by the lower bound.
abbrev pub clamp_depth : Settings → ℕ → ℕ
clamp_depth p pval =
    let high = if leb pval p.depth_clamp_max then pval else p.depth_clamp_max in
    if leb p.depth_clamp_min high then high - p.depth_clamp_min else 0

-- The switch over `pval >> 8`.
unfoldable pub transform_pixel : ℕ → List ℕ
transform_pixel pval =
    let lb = pval % 256 in
    let band = pval / 256 in
    if band == 0
    then 255 ∷ 255 ∷ (255 - lb) ∷ (255 - lb) ∷ []
    else if band == 1
    then 255 ∷ 255 ∷ lb ∷ 0 ∷ []
    else if band == 2
    then 255 ∷ (255 - lb) ∷ 255 ∷ 0 ∷ []
    else if band == 3
    then 255 ∷ 0 ∷ 255 ∷ lb ∷ []
    else if band == 4
    then 255 ∷ 0 ∷ (255 - lb) ∷ 255 ∷ []
    else if band == 5
    then 255 ∷ 0 ∷ 0 ∷ (255 - lb) ∷ []
    else 255 ∷ 0 ∷ 0 ∷ 0 ∷ []

-- `int lb = 255.0 - (((double)pval) / 2048.0) * 255.0`, which is exact, cut towards zero and stored
-- into a byte.
unfoldable pub grey_level : ℕ → ℕ
grey_level pval =
    if leb (pval * 255) (255 * 2048)
    then (255 * 2048 - pval * 255) / 2048
    else u8 (256 - (pval * 255 - 255 * 2048) / 2048 % 256)

-- The four bytes of a pixel; `none` is a read past the gamma table.
unfoldable pub depth_pixel : Settings → ℕ → Option (List ℕ)
depth_pixel p d =
    if p.use_depth_transform
    then (do g ← get_elem? p.t_gamma d; some (transform_pixel (clamp_depth p g)))
    else (let lb = grey_level (clamp_depth p d) in some (lb ∷ lb ∷ lb ∷ lb ∷ []))

-- The locals of the loop: `none` is DBL_MAX in `depth_min` and DBL_MIN in `depth_max`.
pub record Measures : Type 0 where
  pub depth_min : Option ℕ
  pub depth_min_x : ℕ
  pub depth_min_y : ℕ
  pub depth_max : Option ℕ
  pub depth_sum : ℕ

abbrev pub no_measures : Measures
no_measures = record {
  depth_min = none;
  depth_min_x = 0;
  depth_min_y = 0;
  depth_max = none;
  depth_sum = 0;
}

-- `pval < depthMin` and `pval > depthMax`
abbrev pub is_below : ℕ → Option ℕ → Bool
is_below pval none = true
is_below pval (some m) = ltb pval m

abbrev pub is_above : ℕ → Option ℕ → Bool
is_above pval none = ltb 0 pval
is_above pval (some m) = ltb m pval

unfoldable pub measure : ℕ → ℕ → Measures → Measures
measure i pval m = record {
  depth_min = if is_below pval m.depth_min then some pval else m.depth_min;
  depth_min_x = if is_below pval m.depth_min then i - i / 640 * 640 else m.depth_min_x;
  depth_min_y = if is_below pval m.depth_min then i / 640 else m.depth_min_y;
  depth_max = if is_above pval m.depth_max then some pval else m.depth_max;
  depth_sum = m.depth_sum + pval;
}

-- The loop from pixel `i` on: `_depth_mid`, and the measures. The four stores of a pixel are one step,
-- and a store past the buffer is a fault.
unfoldable pub depth_loop : Settings → ℕ → List ℕ → List ℕ → Measures → Option (List ℕ × Measures)
depth_loop p i [] buf m = some (buf, m)
depth_loop p i (d ∷ ds) buf m = do
  px ← depth_pixel p d
  buf' ← blit (4 * i) px buf
  depth_loop p (i + 1) ds buf' (measure i (clamp_depth p d) m)

-- A quotient of doubles; the divisor `none` is a multiple of DBL_MIN.
pub record Quotient : Type 0 where
  pub numerator : ℕ
  pub denominator : Option ℕ

-- What the plug-in's outputs read.
pub record Published : Type 0 where
  pub depth_nearest_x : Quotient
  pub depth_nearest_y : Quotient
  pub depth_max : Option ℕ
  pub depth_min : Option ℕ
  pub depth_avg : Quotient

-- `depthMax * FREENECT_FRAME_PIX`
abbrev pub times_pix : Option ℕ → Option ℕ
times_pix none = none
times_pix (some m) = some (m * frame_pix)

abbrev pub publish : Measures → Published
publish m = record {
  depth_nearest_x = record { numerator = m.depth_min_x; denominator = some 640 };
  depth_nearest_y = record { numerator = m.depth_min_y; denominator = some 480 };
  depth_max = m.depth_max;
  depth_min = m.depth_min;
  depth_avg = record { numerator = m.depth_sum; denominator = times_pix m.depth_max };
}

-- What `depth_cb` does under its mutex, but for the count of frames.
unfoldable pub depth_frame : Settings → List ℕ → List ℕ → Option (List ℕ × Published)
depth_frame p ds buf = do (buf', m) ← depth_loop p 0 ds buf no_measures; some (buf', publish m)
