-- ===== src/Memory/Laws.antt =====
-- What memcpy needs, and what it leaves as it was.
use quartz_composer_open_kin.Prelude.{
  ℕ, ◌+◌, ◌≤◌, ◌≡◌, ap, ◌∙◌, sym, some, List, ◌++◌, arith, length, take, drop, length-append,
  length-take, length-drop, take-append, append_assoc, take-all,
}
use quartz_composer_open_kin.Memory.{Heap, update, blit, memcpy}

-- The block that a copy leaves behind.
abbrev pub blitted : ℕ → List ℕ → List ℕ → List ℕ
blitted off src buf = take off buf ++ (src ++ drop (off + length src) buf)

pub blit-fits :
    (off : ℕ) (src buf : List ℕ)
    → off + length src ≤ length buf
    → blit off src buf ≡ some (blitted off src buf)
unfolding blit
blit-fits off src buf h = ground arith

pub length-blitted :
    (off : ℕ) (src buf : List ℕ)
    → off + length src ≤ length buf
    → length (blitted off src buf) ≡ length buf
length-blitted off src buf h = omega (
  arith,
  length-append (take off buf) (src ++ drop (off + length src) buf),
  length-append src (drop (off + length src) buf),
  length-take off buf,
  length-drop (off + length src) buf,
)

-- A copy just behind a prefix extends the prefix by what is copied.
pub take-blitted :
    (off : ℕ) (src buf : List ℕ)
    → off + length src ≤ length buf
    → take (off + length src) (blitted off src buf) ≡ take off buf ++ src
take-blitted off src buf h =
    ap (take (off + length src))
      (sym (append_assoc (take off buf) src (drop (off + length src) buf)))
    ∙ (take-append (off + length src) (take off buf ++ src) _ (omega (arith, here))
        ∙ take-all (off + length src) (take off buf ++ src) (omega (arith, here)))
  where
    here : off + length src ≡ length (take off buf ++ src)
    here = omega (arith, length-append (take off buf) src, length-take off buf)

-- The heap after a copy into block `p`.
abbrev pub stored : Heap → ℕ → List ℕ → Heap
stored h p b = record h { block = update h.block p (some b) }

pub memcpy-fits :
    (p off : ℕ) (src buf : List ℕ) (h : Heap)
    → h.block p ≡ some buf
    → off + length src ≤ length buf
    → memcpy (some p) off src h ≡ some (stored h p (blitted off src buf))
unfolding memcpy
memcpy-fits p off src buf h e fits = ground arith
