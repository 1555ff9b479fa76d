-- ===== src/Plugin/Depth/Statistics.antt =====
-- The measures that `depth_cb` of ImageWithKinectPlugIn.mm takes of a frame.
use quartz_composer_open_kin.Plugin.Depth.{
  Settings, clamp_depth, depth_pixel, Measures, no_measures, measure, depth_loop,
}
use quartz_composer_open_kin.Memory.{blit}
use quartz_composer_open_kin.Prelude.{
  ℕ, zero, suc, ◌+◌, ◌-◌, ◌*◌, ◌/◌, ◌%◌, ◌≤◌, ◌<◌, ◌≡◌, ◌⊎◌, false, none, some, List, [], ◌∷◌,
  arith, length, get_or, refl, inl, inr, Bool-cases, ltb, ltb→lt, >>=-eq_some, ◌∙◌, ap,
}

-- The first `n` values of `f` added up.
abbrev pub total : (ℕ → ℕ) → ℕ → ℕ
total f zero = 0
total f (suc n) = total f n + f n

-- Pixel `k` is the first of the nearest ones.
pub record IsNearest (f : ℕ → ℕ) (n k : ℕ) (m : Measures) : Type 0 where
  pub inside : k < n
  pub value : m.depth_min ≡ some (f k)
  pub column : m.depth_min_x ≡ k % 640
  pub row : m.depth_min_y ≡ k / 640
  pub least : (j : ℕ) → j < n → f k ≤ f j
  pub first : (j : ℕ) → j < k → f k < f j

-- Pixel `k` is a farthest one.
pub record IsFarthest (f : ℕ → ℕ) (n k : ℕ) (m : Measures) : Type 0 where
  pub inside : k < n
  pub value : m.depth_max ≡ some (f k)
  pub positive : 0 < f k
  pub greatest : (j : ℕ) → j < n → f j ≤ f k

-- What the measures say of the first `n` values.
pub record IsMeasured (f : ℕ → ℕ) (n : ℕ) (m : Measures) : Type 0 where
  pub nearest : ((n ≡ 0) × (m.depth_min ≡ none)) ⊎ ((k : ℕ) × IsNearest f n k m)
  pub farthest :
      ((m.depth_max ≡ none) × ((j : ℕ) → j < n → f j ≡ 0)) ⊎ ((k : ℕ) × IsFarthest f n k m)
  pub sum : m.depth_sum ≡ total f n

up_to : (n j : ℕ) → j < n + 1 → (j < n) ⊎ (j ≡ n)
up_to n j l = ground arith

new-IsNearest :
    (f : ℕ → ℕ) (n : ℕ) (m : Measures)
    → ((j : ℕ) → j < n → f n < f j)
    → m.depth_min ≡ some (f n)
    → m.depth_min_x ≡ n - n / 640 * 640
    → m.depth_min_y ≡ n / 640
    → IsNearest f (n + 1) n m
new-IsNearest f n m l e x y = record {
  inside = omega arith;
  value = e;
  column = omega arith;
  row = y;
  least =
      λ j b. elim (up_to n j b) [ inl c ↦ omega (arith, l j c) | inr same ↦ rw same (omega arith) ];
  first = l;
}

kept-IsNearest :
    (f : ℕ → ℕ) (n k : ℕ) (m m' : Measures)
    → IsNearest f n k m
    → ltb (f n) (f k) ≡ false
    → m'.depth_min ≡ some (f k)
    → m'.depth_min_x ≡ m.depth_min_x
    → m'.depth_min_y ≡ m.depth_min_y
    → IsNearest f (n + 1) k m'
kept-IsNearest f n k m m' r g e x y = record {
  inside = omega (arith, r.inside);
  value = e;
  column = x ∙ r.column;
  row = y ∙ r.row;
  least =
      λ j b. elim (up_to n j b) [ inl c ↦ r.least j c | inr same ↦ rw same (ground (arith, g)) ];
  first = r.first;
}

measure-IsNearest :
    (f : ℕ → ℕ) (n : ℕ) (m : Measures)
    → IsMeasured f n m
    → (k : ℕ) × IsNearest f (n + 1) k (measure n (f n) m)
unfolding measure
measure-IsNearest f n m h = elim h.nearest [
  | inl (z, e) ↦
      (n, new-IsNearest f n _ (λ j l. absurd (omega arith)) (rw e refl) (rw e refl) (rw e refl))
  | inr (k, r) ↦ elim (Bool-cases (ltb (f n) (f k))) [
    | inl l ↦ (
      n,
      new-IsNearest f n _ (λ j b. omega (arith, r.least j b, ltb→lt (f n) (f k) l))
          (rw (r.value, l) refl) (rw (r.value, l) refl) (rw (r.value, l) refl),
    )
    | inr g ↦ (
      k,
      kept-IsNearest f n k m _ r g (rw (r.value, g) refl) (rw (r.value, g) refl)
          (rw (r.value, g) refl),
    )
  ]
]

IsFarthest-on :
    (f : ℕ → ℕ) (n k : ℕ) (m : Measures)
    → k < n + 1
    → m.depth_max ≡ some (f k)
    → 0 < f k
    → f n ≤ f k
    → ((j : ℕ) → j < n → f j ≤ f k)
    → IsFarthest f (n + 1) k m
IsFarthest-on f n k m i e p l g = record {
  inside = i;
  value = e;
  positive = p;
  greatest = λ j b. elim (up_to n j b) [ inl c ↦ g j c | inr same ↦ rw same l ];
}

measure-IsFarthest :
    (f : ℕ → ℕ) (n : ℕ) (m : Measures)
    → IsMeasured f n m
    → (((measure n (f n) m).depth_max ≡ none) × ((j : ℕ) → j < n + 1 → f j ≡ 0))
      ⊎ ((k : ℕ) × IsFarthest f (n + 1) k (measure n (f n) m))
unfolding measure
measure-IsFarthest f n m h = elim h.farthest [
  | inl (e, z) ↦ elim (Bool-cases (ltb 0 (f n))) [
    | inl l ↦ inr (
      n,
      IsFarthest-on f n n _ (omega arith) (rw (e, l) refl) (ltb→lt 0 (f n) l) (omega arith)
          (λ j b. omega (arith, z j b)),
    )
    | inr g ↦ inl (
      rw (e, g) refl,
      λ j b. elim (up_to n j b) [ inl c ↦ z j c | inr same ↦ rw same (ground (arith, g)) ],
    )
  ]
  | inr (k, r) ↦ elim (Bool-cases (ltb (f k) (f n))) [
    | inl l ↦
        (let more = ltb→lt (f k) (f n) l in
          inr (
            n,
            IsFarthest-on f n n _ (omega arith) (rw (r.value, l) refl) (omega arith) (omega arith)
                (λ j b. omega (arith, more, r.greatest j b)),
          ))
    | inr g ↦ inr (
      k,
      IsFarthest-on f n k _ (omega (arith, r.inside)) (rw (r.value, g) refl) r.positive
          (ground (arith, g)) r.greatest,
    )
  ]
]

measure-IsMeasured :
    (f : ℕ → ℕ) (n : ℕ) (m : Measures) → IsMeasured f n m → IsMeasured f (n + 1) (measure n (f n) m)
measure-IsMeasured f n m h = record {
  nearest = inr (measure-IsNearest f n m h);
  farthest = measure-IsFarthest f n m h;
  sum = measure-sum;
}
  where
    measure-sum : (measure n (f n) m).depth_sum ≡ total f (n + 1)
    measure-sum =
        let e : n + 1 ≡ suc n = omega arith in unfold measure in rw e (omega (arith, h.sum))

-- The value that the loop counts for pixel `j` of a frame.
abbrev pub value_of : Settings → List ℕ → ℕ → ℕ
value_of p ds j = clamp_depth p (get_or ds j 0)

loop-IsMeasured :
    (p : Settings) (f : ℕ → ℕ) (i : ℕ) (ds buf : List ℕ) (m : Measures) (out : List ℕ × Measures)
    → depth_loop p i ds buf m ≡ some out
    → ((j : ℕ) → f (i + j) ≡ value_of p ds j)
    → IsMeasured f i m
    → IsMeasured f (i + length ds) out.1
unfolding depth_loop
loop-IsMeasured p f i [] buf m out e v h =
    let q : out.1 ≡ m = ground arith in let n : i + 0 ≡ i = omega arith in rw (q, n) h
loop-IsMeasured p f i (d ∷ ds) buf m out e v h =
    let first : i ≡ i + 0 = omega arith in
    let (px, a, g) = >>=-eq_some (depth_pixel p d) _ e in
    let (buf', b, c) = >>=-eq_some (blit (4 * i) px buf) _ g in
    let here : f i ≡ clamp_depth p d = ap f first ∙ v 0 in
    let r =
      loop-IsMeasured p f (i + 1) ds buf' (measure i (clamp_depth p d) m) out c
        (λ j. ap f (later j) ∙ v (suc j)) (rw here at (measure-IsMeasured f i m h)) in
    rw (← later (length ds)) r
  where
    later : (j : ℕ) → i + 1 + j ≡ i + suc j
    later j = omega arith

-- The measures of a frame of `n` depths, of the clamped ones.
pub depth_loop-IsMeasured :
    (p : Settings) (ds buf : List ℕ) (out : List ℕ × Measures)
    → depth_loop p 0 ds buf no_measures ≡ some out
    → IsMeasured (value_of p ds) (length ds) out.1
depth_loop-IsMeasured p ds buf out e =
    let start : 0 + length ds ≡ length ds = omega arith in
    rw start at (
      loop-IsMeasured p (value_of p ds) 0 ds buf no_measures out e (λ j. same j)
        (record {
          nearest = inl (refl, refl);
          farthest = inl (refl, λ j l. absurd (omega arith));
          sum = refl;
        }))
  where
    same : (j : ℕ) → value_of p ds (0 + j) ≡ value_of p ds j
    same j = let e : 0 + j ≡ j = omega arith in rw e refl
