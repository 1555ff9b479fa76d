-- ===== src/Fakenect/Index/Laws.antt =====
-- Lines of the index and headers of recorded images.
use quartz_composer_open_kin.Fakenect.Index.{ends_line, read_line, one_line, skip_line}
use quartz_composer_open_kin.Prelude.{
  ℕ, zero, suc, ◌≡◌, false, some, List, [], ◌∷◌, ◌++◌, ◌==◌, refl, drop,
}

-- Characters that do not end a line.
abbrev pub AllPlain : List ℕ → Type 0
AllPlain [] = zero ≡ zero
AllPlain (c ∷ cs) = (ends_line c ≡ false) × AllPlain cs

read_line-line :
    (line rest : List ℕ) → AllPlain line → read_line (line ++ (10 ∷ rest)) ≡ (line, rest)
unfolding read_line
read_line-line [] rest p = refl
read_line-line (c ∷ cs) rest (e, p) = rw (e, read_line-line cs rest p) refl

-- Lines of the index. A line of characters other than NUL, newline and 0xff, at least one of them,
-- is read whole, and reading goes on behind its newline.
pub one_line-line :
    (c : ℕ) (line rest : List ℕ)
    → AllPlain (c ∷ line)
    → one_line (c ∷ line ++ (10 ∷ rest)) ≡ (some (c ∷ line), rest)
unfolding one_line
one_line-line c line rest p = rw (read_line-line (c ∷ line) rest p) refl

-- Characters of a header line.
abbrev pub AllHeader : List ℕ → Type 0
AllHeader [] = zero ≡ zero
AllHeader (c ∷ cs) = ((c == 10) ≡ false) × ((c == 0) ≡ false) × AllHeader cs

-- Headers of recorded images. Where an image begins with a line without NUL, `skip_line` finds the
-- offset of what follows the line.
pub skip_line-header :
    (header body : List ℕ)
    → AllHeader header
    → (n : ℕ) × (skip_line (header ++ (10 ∷ body)) ≡ some (some n))
      × (drop n (header ++ (10 ∷ body)) ≡ body)
unfolding skip_line
skip_line-header [] body p = (1, refl, refl)
skip_line-header (c ∷ cs) body (e, f, p) =
    let (n, s, d) = skip_line-header cs body p in (suc n, rw (e, f, s) refl, d)
