-- ===== src/Fakenect/Index.antt =====
-- Reading the index and the recorded files: `one_line`, `parse_line`, `open_index` and `skip_line` of
-- libfreenect/src/fakenect.c.
pub mod Laws
use quartz_composer_open_kin.Fakenect.{Host, Globals}
use quartz_composer_open_kin.Memory.{Heap, malloc, memcpy}
use quartz_composer_open_kin.Prelude.{
  ℕ, zero, suc, ◌+◌, Bool, true, false, Option, none, some, List, [], ◌∷◌, ◌++◌, ◌==◌, ◌||◌,
  if◌then◌else◌, length, ◌>>=◌,
}

-- Where the loop of `one_line` stops: at NUL, at a newline, and at 0xff, which as a `char` is EOF.
abbrev pub ends_line : ℕ → Bool
ends_line c = c == 0 || c == 10 || c == 0xff

-- The characters before the end of the line, and what is left of the file.
unfoldable pub read_line : List ℕ → List ℕ × List ℕ
read_line [] = ([], [])
read_line (c ∷ cs) =
    let (line, rest) = read_line cs in if ends_line c then ([], cs) else (c ∷ line, rest)

-- `out` is NULL where no character was read.
abbrev pub non_empty : List ℕ → Option (List ℕ)
non_empty [] = none
non_empty (c ∷ cs) = some (c ∷ cs)

unfoldable pub one_line : List ℕ → Option (List ℕ) × List ℕ
unfolding read_line
one_line fp = (non_empty (read_line fp).0, (read_line fp).1)

unfoldable pub open_index : Host → Globals → Globals
open_index host g = elim (host.fakenect_path) [
  | none ↦ record g { input_path = none }
  | some path ↦ record g {
    input_path = some path;
    index_fp =
        host.open_file
          (path ++ (b'/' ∷ b'I' ∷ b'N' ∷ b'D' ∷ b'E' ∷ b'X' ∷ b'.' ∷ b't' ∷ b'x' ∷ b't' ∷ []));
  }
]

-- A recorded event: its type, timestamp and size, and the block that its file was read into.
pub record Event : Type 0 where
  pub type_code : ℕ
  pub timestamp : ℕ
  pub data_size : ℕ
  pub image_block : ℕ

-- A file read into a new block. An empty file cannot be read: `fread` returns 0 for it. The inner
-- `none` is the return of -1; a block that was not allocated is a fault.
abbrev pub read_data : ℕ × ℕ → List ℕ → Heap → Option (Option Event × Heap)
read_data (code, timestamp) bytes h =
    let (p, h₁) = malloc (length bytes) h in
    if length bytes == 0 then some (none, h₁) else do
      h₂ ← memcpy p 0 bytes h₁
      q ← p
      some (
        some (record {
          type_code = code;
          timestamp = timestamp;
          data_size = length bytes;
          image_block = q;
        }),
        h₂,
      )

-- The event that a line of the index names. A name that `sscanf` cannot take apart leaves variables
-- without a value, which is a fault.
unfoldable pub event_of : Host → Globals → List ℕ → Heap → Option (Option Event × Heap)
event_of host g line h = do
  path ← g.input_path
  elim (host.open_file (path ++ (b'/' ∷ line))) [
    | none ↦ some (none, h)
    | some bytes ↦ (host.scan_name line >>= λ name. read_data name bytes h)
  ]

-- `fgetc` on a NULL file is a fault.
unfoldable pub parse_line : Host → Globals → Heap → Option (Option Event × Globals × Heap)
parse_line host g h = do
  fp ← g.index_fp
  let g' = record g { index_fp = some (one_line fp).1 }
  elim ((one_line fp).0) [
    | none ↦ some (none, g', h)
    | some line ↦ (event_of host g line h >>= λ r. some (r.0, g', r.1))
  ]

-- The offset behind the first newline, as `strchr` finds it; the inner `none` is NULL, and to reach
-- the end of the block before a newline or NUL is a fault.
unfoldable pub skip_line : List ℕ → Option (Option ℕ)
skip_line [] = none
skip_line (c ∷ cs) =
    let rest = skip_line cs in
    if c == 10
    then some (some 1)
    else if c == 0
    then some none
    else elim rest [ none ↦ none | some none ↦ some none | some (some n) ↦ some (some (suc n)) ]
