-- ===== src/Fakenect/Events/Faults.antt =====
-- `fakenect_process_events` of libfreenect/src/fakenect.c without an index.
use quartz_composer_open_kin.Fakenect.{Host, Globals}
use quartz_composer_open_kin.Fakenect.Events.{fake_process_events}
use quartz_composer_open_kin.Fakenect.Index.{parse_line, open_index}
use quartz_composer_open_kin.Memory.{Heap}
use quartz_composer_open_kin.Prelude.{
  [], ◌⊎◌, refl, ℕ, ◌≡◌, none, some, List, ◌∷◌, ◌++◌, inl, inr, ap, is_some,
}

-- No index can be opened.
abbrev pub NoIndex : Host → Type 0
NoIndex host =
    (host.fakenect_path ≡ none)
    ⊎ ((path : List ℕ) × (host.fakenect_path ≡ some path)
        × (host.open_file
              (path ++ (b'/' ∷ b'I' ∷ b'N' ∷ b'D' ∷ b'E' ∷ b'X' ∷ b'.' ∷ b't' ∷ b'x' ∷ b't' ∷ []))
            ≡ none))

open_index-NoIndex :
    (host : Host) (g : Globals)
    → NoIndex host
    → g.index_fp ≡ none
    → (open_index host g).index_fp ≡ none
unfolding open_index
open_index-NoIndex host g (inl unset) e = rw unset e
open_index-NoIndex host g (inr (path, set, missing)) e = rw (set, missing) refl

parse_line-closed :
    (host : Host) (g : Globals) (h : Heap) → g.index_fp ≡ none → parse_line host g h ≡ none
unfolding parse_line
parse_line-closed host g h e = rw e refl

-- Where no index is open, and FAKENECT_PATH is not set or INDEX.txt cannot be opened in it,
-- `fakenect_process_events` on the fake context faults: `open_index` only prints a message, and
-- `one_line` reads from a NULL file.
pub fake_process_events-NoIndex :
    (host : Host) (g : Globals) (h : Heap)
    → g.index_fp ≡ none
    → NoIndex host
    → fake_process_events host g h ≡ none
unfolding fake_process_events
fake_process_events-NoIndex host g h e n =
    rw (ap is_some e, parse_line-closed host (open_index host g) h (open_index-NoIndex host g n e))
      refl
