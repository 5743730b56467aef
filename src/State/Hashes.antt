-- ===== src/State/Hashes.antt =====
-- The cache of command paths, and the lazily made alias table.
use cshell.Prelude.{Option, none, some, List, [], ◌∷◌, if◌then◌else◌}
use cshell.Prelude.Bytes.{Bytes}
use cshell.Prelude.Lists.{length}
use cshell.Prelude.Memory.{Memory, allocate, allocations}
use cshell.Prelude.Table.{Table, find, put_last}
use cshell.State.{State, StateResult, ok, nomem}

-- `csh_state_hash_clear`.
unfoldable pub hash_clear : State → State
hash_clear s = record s { hashes = [] }

-- `csh_state_hash_get`.
unfoldable pub hash_get : State → Bytes → Option Bytes
hash_get s name = find name s.hashes

-- `csh_state_hash_set`: the new node takes the place of the one with its name, or the end.
unfoldable pub hash_set : Bytes → Bytes → State → Memory → StateResult × State × Memory
hash_set name path s m =
    let (made, left) = allocations 3 m in
    if made then (ok, record s { hashes = put_last name path s.hashes }, left) else (nomem, s, left)

names_of {ℓ} : {V : Type ℓ} → Table V → List Bytes
names_of [] = []
names_of ((k, v) ∷ t) = k ∷ names_of t

-- `csh_state_hash_names`: the vector, and a copy of each name.
unfoldable pub hash_names : State → Memory → StateResult × List Bytes × Memory
unfolding names_of
hash_names s m =
    let names = names_of s.hashes in
    let (made, left) = allocate m in
    let (copied, left') = allocations (length names) left in
    if made then (if copied then (ok, names, left') else (nomem, [], left')) else (nomem, [], left)

-- `csh_state_names`.
unfoldable pub variable_names : State → Memory → StateResult × List Bytes × Memory
unfolding names_of
variable_names s m =
    let names = names_of s.variables in
    let (made, left) = allocate m in
    let (copied, left') = allocations (length names) left in
    if made then (if copied then (ok, names, left') else (nomem, [], left')) else (nomem, [], left)

-- `csh_state_aliases`; with no memory the table stays unmade.
unfoldable pub state_aliases : State → Memory → State × Memory
state_aliases s m =
    let (made, left) = allocate m in
    elim s.aliases [
      | some t ↦ (s, m)
      | none ↦ if made then (record s { aliases = some [] }, left) else (s, left)
    ]
