-- ===== src/Memory.antt =====
-- The C heap that the driver's buffers live in: malloc, free, memcpy and reads through pointers.
-- A pointer is the number of a block with an offset written beside it; NULL is `none`.
pub mod Laws
pub mod Behind
pub mod Bytes
pub mod Kept
pub mod Frees
use quartz_composer_open_kin.Prelude.{
  ℕ, ◌+◌, ◌-◌, ◌≡◌, Bool, Option, none, some, List, ◌++◌, ◌==◌, leb, if◌then◌else◌, length, take,
  drop, replicate, ◌>>=◌,
}

-- `room` is what malloc can still hand out, `fill` the unspecified contents of a new block.
pub record Heap : Type 0 where
  pub next : ℕ
  pub room : ℕ
  pub fill : ℕ
  pub block : ℕ → Option (List ℕ)

abbrev pub Pointer : Type 0
Pointer = Option ℕ

abbrev pub update : (ℕ → Option (List ℕ)) → ℕ → Option (List ℕ) → ℕ → Option (List ℕ)
update f p v q = if p == q then v else f q

unfoldable pub malloc : ℕ → Heap → Pointer × Heap
malloc n h =
    if leb n h.room
    then (
      some h.next,
      record h {
        next = h.next + 1;
        room = h.room - n;
        block = update h.block h.next (some (replicate n h.fill));
      },
    )
    else (none, h)

-- `free(NULL)` does nothing; to free what is not allocated is a fault.
unfoldable pub free : Pointer → Heap → Option Heap
free none h = some h
free (some p) h = do
  b ← h.block p
  some (record h { room = h.room + length b; block = update h.block p none })

-- The bytes `src` over those of `buf` from `off` on; past the end it is a fault.
unfoldable pub blit : ℕ → List ℕ → List ℕ → Option (List ℕ)
blit off src buf =
    if leb (off + length src) (length buf)
    then some (take off buf ++ (src ++ drop (off + length src) buf))
    else none

-- `memcpy(p + off, src, length src)`.
unfoldable pub memcpy : Pointer → ℕ → List ℕ → Heap → Option Heap
unfolding blit
memcpy none off src h = none
memcpy (some p) off src h = do
  b ← h.block p
  b' ← blit off src b
  some (record h { block = update h.block p (some b') })

-- The block behind a pointer that is read.
unfoldable pub contents : Pointer → Heap → Option (List ℕ)
contents none h = none
contents (some p) h = h.block p
