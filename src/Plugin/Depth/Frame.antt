-- ===== src/Plugin/Depth/Frame.antt =====
-- A depth frame of the driver through `depth_cb` of ImageWithKinectPlugIn.mm.
use quartz_composer_open_kin.Plugin.Depth.{Settings, depth_pixel, Published}
use quartz_composer_open_kin.Plugin.Depth.Statistics.{total}
use quartz_composer_open_kin.Prelude.{
  ℕ, ◌*◌, ◌≤◌, ◌<◌, ◌≡◌, some, List, [], ◌∷◌, ◌++◌, ◌/◌, ◌%◌, ◌⊎◌, Option, none, ◌>>=◌,
}

-- The pixels of a frame, one behind the other.
abbrev pub pixels_of : Settings → List ℕ → Option (List ℕ)
pixels_of p [] = some []
pixels_of p (d ∷ ds) = depth_pixel p d >>= λ px. (pixels_of p ds >>= λ rest. some (px ++ rest))

-- What the plug-in publishes of the values `f` of a frame. `nearest` is the first of the nearest pixels,
-- and its column and row are fractions of the width and the height. With a farthest pixel the average is
-- a fraction of its depth, at most 1. Where all values are 0 the greatest is DBL_MIN, and the average 0
-- over a multiple of it.
pub record IsPublished (f : ℕ → ℕ) (q : Published) : Type 0 where
  pub nearest : ℕ
  pub inside : nearest < 307200
  pub depth_min : q.depth_min ≡ some (f nearest)
  pub least : (j : ℕ) → j < 307200 → f nearest ≤ f j
  pub first : (j : ℕ) → j < nearest → f nearest < f j
  pub column :
      (q.depth_nearest_x.numerator ≡ nearest % 640) × (q.depth_nearest_x.denominator ≡ some 640)
  pub row :
      (q.depth_nearest_y.numerator ≡ nearest / 640) × (q.depth_nearest_y.denominator ≡ some 480)
  pub above : nearest / 640 < 480
  pub farthest :
      ((q.depth_max ≡ none)
        × ((j : ℕ) → j < 307200 → f j ≡ 0)
        × (q.depth_avg.denominator ≡ none)
        × (q.depth_avg.numerator ≡ 0))
      ⊎ ((k : ℕ) × (k < 307200)
          × (q.depth_max ≡ some (f k))
          × ((j : ℕ) → j < 307200 → f j ≤ f k)
          × (q.depth_avg.denominator ≡ some (f k * 307200))
          × (q.depth_avg.numerator ≡ total f 307200)
          × (total f 307200 ≤ f k * 307200))
