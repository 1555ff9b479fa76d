-- ===== src/Core/Devices.antt =====
-- The linked list of a context's devices, libfreenect/src/core.c: appending in `freenect_open_device`
-- and unlinking in `freenect_close_device`. A device structure is known by the number that its
-- allocation got; `none` is a fault or a walk that has not ended with the fuel given.
use quartz_composer_open_kin.Device.{Device}
use quartz_composer_open_kin.Prelude.{
  ℕ, zero, suc, true, false, Option, none, some, ◌==◌, if◌then◌else◌, ◌>>=◌,
}

-- `struct _freenect_device` in the list: its state and its `next`.
pub record Node : Type 0 where
  pub dev : Device
  pub next : Option ℕ

abbrev pub Store : Type 0
Store = ℕ → Option Node

abbrev pub store_set : Store → ℕ → Option Node → Store
store_set st p v q = if p == q then v else st q

-- `while (prev->next) prev = prev->next;`, then `prev->next = pdev`.
unfoldable pub link_last : ℕ → ℕ → ℕ → Store → Option Store
link_last zero prev pdev st = none
link_last (suc fuel) prev pdev st = do
  n ← st prev
  elim (n.next) [
    | none ↦ some (store_set st prev (some (record n { next = some pdev })))
    | some p ↦ link_last fuel p pdev st
  ]

-- The list with a new device behind the others: its first device and the structures.
unfoldable pub append_device : ℕ → Option ℕ → ℕ → Store → Option (Option ℕ × Store)
append_device fuel none pdev st = some (some pdev, st)
append_device fuel (some f) pdev st = do st' ← link_last fuel f pdev st; some (some f, st')

-- The search of `freenect_close_device` with `last` and `cur`, and the unlinking; the inner `none`
-- is a device that is not in the list.
unfoldable pub unlink :
    ℕ → Option ℕ → Option ℕ → Option ℕ → ℕ → Store → Option (Option (Option ℕ × Store))
unlink fuel first last none dev st = some none
unlink zero first last (some cur) dev st = none
unlink (suc fuel) first last (some cur) dev st = do
  n ← st cur
  elim (cur == dev) [
    | false ↦ unlink fuel first (some cur) n.next dev st
    | true ↦ elim last [
      | none ↦ some (some (n.next, store_set st dev none))
      | some l ↦
          (st l >>= λ m.
          some
            (some (first, store_set (store_set st l (some (record m { next = n.next }))) dev none)))
    ]
  ]
