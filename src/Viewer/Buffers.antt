-- ===== src/Viewer/Buffers.antt =====
-- The buffers of the viewer of libfreenect/examples/glview.c, and what swapping does to them.
use quartz_composer_open_kin.Device.{video_rgb_size}
use quartz_composer_open_kin.Memory.{Heap}
use quartz_composer_open_kin.Memory.Bytes.{SameShape, Fits, Fits-shape}
use quartz_composer_open_kin.Prelude.{ℕ, ◌≡◌, ◌≢◌, some, inl, inr, Bool-cases, ◌==◌, sym}
use quartz_composer_open_kin.Viewer.{Viewer, swap_rgb, swap_depth}

-- A buffer of the viewer: a block that holds an RGB frame.
abbrev pub IsBuffer : ℕ → Heap → Type 0
IsBuffer p h = Fits video_rgb_size (some p) h

-- The buffers, of which the three for video are apart from one another.
pub record HasBuffers (v : Viewer) (h : Heap) : Type 0 where
  pub depth_mid : IsBuffer v.depth_mid h
  pub depth_front : IsBuffer v.depth_front h
  pub rgb_back : IsBuffer v.rgb_back h
  pub rgb_mid : IsBuffer v.rgb_mid h
  pub rgb_front : IsBuffer v.rgb_front h
  pub back-mid : v.rgb_back ≢ v.rgb_mid
  pub back-front : v.rgb_back ≢ v.rgb_front
  pub mid-front : v.rgb_mid ≢ v.rgb_front

pub HasBuffers-shape :
    (v : Viewer) (h h' : Heap) → SameShape h h' → HasBuffers v h → HasBuffers v h'
HasBuffers-shape v h h' s b = record {
  depth_mid = Fits-shape _ _ h h' s b.depth_mid;
  depth_front = Fits-shape _ _ h h' s b.depth_front;
  rgb_back = Fits-shape _ _ h h' s b.rgb_back;
  rgb_mid = Fits-shape _ _ h h' s b.rgb_mid;
  rgb_front = Fits-shape _ _ h h' s b.rgb_front;
  back-mid = b.back-mid;
  back-front = b.back-front;
  mid-front = b.mid-front;
}

-- Swapping to the front keeps them.
pub swap_depth-HasBuffers : (v : Viewer) (h : Heap) → HasBuffers v h → HasBuffers (swap_depth v) h
swap_depth-HasBuffers v h b = elim (Bool-cases (v.got_depth == 0)) [
  | inl e ↦ rw e b
  | inr e ↦ rw e (record {
    depth_mid = b.depth_front;
    depth_front = b.depth_mid;
    rgb_back = b.rgb_back;
    rgb_mid = b.rgb_mid;
    rgb_front = b.rgb_front;
    back-mid = b.back-mid;
    back-front = b.back-front;
    mid-front = b.mid-front;
  })
]

pub swap_rgb-HasBuffers : (v : Viewer) (h : Heap) → HasBuffers v h → HasBuffers (swap_rgb v) h
swap_rgb-HasBuffers v h b = elim (Bool-cases (v.got_rgb == 0)) [
  | inl e ↦ rw e b
  | inr e ↦ rw e (record {
    depth_mid = b.depth_mid;
    depth_front = b.depth_front;
    rgb_back = b.rgb_back;
    rgb_mid = b.rgb_front;
    rgb_front = b.rgb_mid;
    back-mid = b.back-front;
    back-front = b.back-mid;
    mid-front = λ e. b.mid-front (sym e);
  })
]

-- What the other fields of the viewer are does not matter.
pub HasBuffers-same :
    (v w : Viewer) (h : Heap)
    → HasBuffers v h
    → w.depth_mid ≡ v.depth_mid
    → w.depth_front ≡ v.depth_front
    → w.rgb_back ≡ v.rgb_back
    → w.rgb_mid ≡ v.rgb_mid
    → w.rgb_front ≡ v.rgb_front
    → HasBuffers w h
HasBuffers-same v w h b m f k n o = record {
  depth_mid = rw m b.depth_mid;
  depth_front = rw f b.depth_front;
  rgb_back = rw k b.rgb_back;
  rgb_mid = rw n b.rgb_mid;
  rgb_front = rw o b.rgb_front;
  back-mid = rw (k, n) b.back-mid;
  back-front = rw (k, o) b.back-front;
  mid-front = rw (n, o) b.mid-front;
}

-- The exchange in `rgb_cb`: the delivered buffer goes to the middle, and the middle one to the back.
pub HasBuffers-exchange :
    (v : Viewer) (h : Heap) (n : ℕ)
    → HasBuffers v h
    → HasBuffers (record v { rgb_back = v.rgb_mid; rgb_mid = v.rgb_back; got_rgb = n }) h
HasBuffers-exchange v h n b = record {
  depth_mid = b.depth_mid;
  depth_front = b.depth_front;
  rgb_back = b.rgb_mid;
  rgb_mid = b.rgb_back;
  rgb_front = b.rgb_front;
  back-mid = λ e. b.back-mid (sym e);
  back-front = b.mid-front;
  mid-front = b.back-front;
}
