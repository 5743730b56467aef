-- ===== src/State/Functions.antt =====
-- The function table and the counts of references to the payloads, which clones share.
pub mod Counts
use cshell.Prelude.{
  ℕ, ◌+◌, ◌-◌, Bool, true, false, Option, none, some, List, [], ◌∷◌, ◌==◌, if◌then◌else◌,
}
use cshell.Prelude.Bytes.{Bytes}
use cshell.Prelude.Memory.{Memory, allocations}
use cshell.Prelude.Table.{Table, find, remove, put_last}
use cshell.State.{State, StateResult, ok, invalid, nomem, valid_name}

-- The payloads by their numbers: `references` of each, and those that `destroy` was called on.
pub record Payloads : Type 0 where
  pub references : ℕ → ℕ
  pub destroyed : List ℕ

abbrev pub counted : (ℕ → ℕ) → ℕ → ℕ → ℕ → ℕ
counted f p n q = if p == q then n else f q

-- `csh_function_retain`.
unfoldable pub retain : ℕ → Payloads → Payloads
retain p h = record h { references = counted h.references p (h.references p + 1) }

-- `csh_function_release` of a payload that is referred to.
unfoldable pub release : ℕ → Payloads → Payloads
release p h =
    let left = h.references p - 1 in
    record {
      references = counted h.references p left;
      destroyed = if left == 0 then p ∷ h.destroyed else h.destroyed;
    }

-- `csh_state_function`.
unfoldable pub function : State → Bytes → Option ℕ
function s name = find name s.functions

-- `csh_state_set_function` with NULL for the function.
unfoldable pub remove_function : Bytes → State → Payloads → StateResult × State × Payloads
remove_function name s h =
    if valid_name name
    then elim (find name s.functions) [
      | none ↦ (ok, s, h)
      | some p ↦ (ok, record s { functions = remove name s.functions }, release p h)
    ]
    else (invalid, s, h)

-- `csh_state_set_function` with a payload: it is retained before the old one is released. A new
-- entry takes two allocations, its node and its name, and stands at the end of the list.
unfoldable pub set_function :
    Bytes → ℕ → State → Payloads → Memory → StateResult × State × Payloads × Memory
set_function name p s h m =
    let stored = record s { functions = put_last name p s.functions } in
    let (made, left) = allocations 2 m in
    if valid_name name
    then elim (find name s.functions) [
      | some old ↦ (ok, stored, release old (retain p h), m)
      | none ↦ if made then (ok, stored, retain p h, left) else (nomem, s, h, left)
    ]
    else (invalid, s, h, m)
