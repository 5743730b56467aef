-- ===== src/Alias.antt =====
-- src/alias.c: the alias table, a linked list that is kept in the order of `strcmp`.
pub mod Order
pub mod Clone
pub mod Builtin
use cshell.Prelude.{
  ℕ, Bool, true, false, not, ◌&&◌, ◌||◌, Option, none, some, List, [], ◌∷◌, ◌==◌, within,
  if◌then◌else◌,
}
use cshell.Prelude.Bytes.{Bytes, bytes_lt, codes}
use cshell.Prelude.Memory.{Memory, allocate}
use cshell.Prelude.Table.{Table, find, assign, remove}

abbrev pub Aliases : Type 0
Aliases = Table Bytes

-- `struct csh_error`, as `fail` fills it in; the messages are those of `set_alias`.
pub data AliasError : Type 0 where
  invalid_definition no_value_memory no_definition_memory no_name_memory : AliasError

pub data Outcome : Type 0 where
  ok : Outcome
  err : AliasError → Outcome

unfoldable pub message : AliasError → Bytes
message invalid_definition = codes "invalid alias definition"
message no_value_memory = codes "cannot allocate alias value"
message no_definition_memory = codes "cannot allocate alias definition"
message no_name_memory = codes "cannot allocate alias name"

unfoldable pub alias_byte : ℕ → Bool
alias_byte c =
    within b'a' b'z' c
    || within b'A' b'Z' c
    || within b'0' b'9' c
    || c == b'!'
    || c == b'%'
    || c == b','
    || c == b'-'
    || c == b'@'
    || c == b'_'

unfoldable pub alias_bytes : Bytes → Bool
alias_bytes [] = true
alias_bytes (c ∷ cs) = alias_byte c && alias_bytes cs

-- `valid_name`, and `csh_alias_name_valid` of a name that is not NULL.
unfoldable pub valid_name : Bytes → Bool
unfolding alias_bytes
valid_name [] = false
valid_name (c ∷ cs) = alias_bytes (c ∷ cs)

-- `csh_aliases_get`; `none` is NULL.
unfoldable pub get : Aliases → Bytes → Option Bytes
get t name = if valid_name name then find name t else none

-- The loop that finds the link of a new entry, and links it there.
unfoldable pub insert_sorted : Bytes → Bytes → Aliases → Aliases
insert_sorted name value [] = (name, value) ∷ []
insert_sorted name value ((j, w) ∷ t) =
    if bytes_lt j name then (j, w) ∷ insert_sorted name value t else (name, value) ∷ (j, w) ∷ t

-- A new entry: the value is copied first, then come the entry and the copy of its name.
add_alias : Bytes → Bytes → Aliases → Memory → Outcome × Aliases × Memory
add_alias name value t m =
    let (copied, m1) = allocate m in
    let (made, m2) = allocate m1 in
    let (named, m3) = allocate m2 in
    if not copied
    then (err no_value_memory, t, m1)
    else if not made
    then (err no_definition_memory, t, m2)
    else if named
    then (ok, insert_sorted name value t, m3)
    else (err no_name_memory, t, m3)

replace_alias : Bytes → Bytes → Aliases → Memory → Outcome × Aliases × Memory
replace_alias name value t m =
    let (copied, m1) = allocate m in
    if copied then (ok, assign name value t, m1) else (err no_value_memory, t, m1)

-- `set_alias`.
unfoldable pub set_alias : Bytes → Bytes → Aliases → Memory → Outcome × Aliases × Memory
unfolding add_alias replace_alias
set_alias name value t m =
    if not (valid_name name) then (err invalid_definition, t, m) else elim (find name t) [
      | some old ↦ replace_alias name value t m
      | none ↦ add_alias name value t m
    ]

-- `csh_aliases_unset`; the flag is false for an invalid name.
unfoldable pub unset_alias : Bytes → Aliases → Bool × Aliases
unset_alias name t = if valid_name name then (true, remove name t) else (false, t)

-- `csh_aliases_clone` of a table that is there: the loop over its entries.
unfoldable pub clone_onto : Aliases → Aliases → Memory → Option Aliases × Memory
clone_onto copy [] m = (some copy, m)
clone_onto copy ((k, v) ∷ t) m =
    let (r, grown, left) = set_alias k v copy m in
    elim r [ ok ↦ clone_onto grown t left | err e ↦ (none, left) ]

unfoldable pub clone : Aliases → Memory → Option Aliases × Memory
unfolding clone_onto
clone t m = let (got, left) = allocate m in if got then clone_onto [] t left else (none, left)
