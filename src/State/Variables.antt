-- ===== src/State/Variables.antt =====
-- Reading, assigning, marking and unsetting variables. A new variable is linked in front.
pub mod Lookup
pub mod Tables
pub mod Failure
use cshell.Prelude.{
  ℕ, Bool, true, false, not, ◌&&◌, ◌||◌, Option, none, some, List, [], ◌∷◌, if◌then◌else◌,
}
use cshell.Prelude.Bytes.{Bytes, bytes_eq, codes}
use cshell.Prelude.Memory.{Memory, allocate, allocations}
use cshell.Prelude.Table.{Table, find, assign, remove}
use cshell.State.{
  State, StateResult, ok, invalid, nomem, readonly, Variable, Mask, Libc, allexport, valid_name,
}
use cshell.State.Locale.{locale_variable, refresh_locale}

-- `struct csh_variable_view`.
pub record View : Type 0 where
  pub value : Option Bytes
  pub exported : Bool
  pub protected : Bool

abbrev pub no_view : View
no_view = record { value = none; exported = false; protected = false }

abbrev pub view_of : Option Variable → View
view_of none = no_view
view_of (some v) = record { value = v.value; exported = v.exported; protected = v.protected }

-- `csh_state_get_variable`.
unfoldable pub get_variable : State → Bytes → StateResult × View
get_variable s name =
    if valid_name name then (ok, view_of (find name s.variables)) else (invalid, no_view)

-- `csh_state_hash_clear` when PATH changes.
unfoldable pub path_changed : Bytes → State → State
path_changed name s = if bytes_eq name (codes "PATH") then record s { hashes = [] } else s

unfoldable pub optind_changed : Bytes → State → State
optind_changed name s =
    if bytes_eq name (codes "OPTIND") then record s { getopts_offset = 0 } else s

-- `variable->attributes |= CSH_VAR_EXPORT` under allexport.
abbrev pub assigned : State → Bytes → Variable → Variable
assigned s value v = record v {
  value = some value;
  exported = if s.info.options allexport then true else v.exported;
}

abbrev pub blank : Variable
blank = record { value = none; exported = false; protected = false }

module _ (libc : Libc) where
  unfoldable pub locale_changed : Bytes → State → State
  locale_changed name s = if locale_variable name then refresh_locale libc s else s

  -- What follows every assignment that succeeds.
  unfoldable pub after_assignment : Bytes → State → State
  after_assignment name s = locale_changed name (optind_changed name (path_changed name s))

  unfoldable pub assign_old :
      Bytes → Bytes → Variable → State → Memory → StateResult × State × Memory
  assign_old name value v s m =
      let (copied, left) = allocate m in
      if v.protected
      then (readonly, s, m)
      else if copied
      then (
        ok,
        after_assignment name
            (record s { variables = assign name (assigned s value v) s.variables }),
        left,
      )
      else (nomem, s, left)

  -- `new_variable` allocates the node, the name and the value.
  unfoldable pub assign_new : Bytes → Bytes → State → Memory → StateResult × State × Memory
  assign_new name value s m =
      let (made, left) = allocations 3 m in
      if made
      then (
        ok,
        after_assignment name
            (record s { variables = (name, assigned s value blank) ∷ s.variables }),
        left,
      )
      else (nomem, s, left)

  -- `csh_state_set_variable`.
  unfoldable pub set_variable : Bytes → Bytes → State → Memory → StateResult × State × Memory
  set_variable name value s m =
      if valid_name name
      then elim (find name s.variables) [
        | some v ↦ assign_old name value v s m
        | none ↦ assign_new name value s m
      ]
      else (invalid, s, m)

  -- `csh_state_unset_variable`.
  unfoldable pub unset_variable : Bytes → State → StateResult × State
  unset_variable name s =
      if valid_name name
      then elim (find name s.variables) [
        | none ↦ (ok, s)
        | some v ↦ if v.protected then (readonly, s) else (
          ok,
          locale_changed name
              (path_changed name (record s { variables = remove name s.variables })),
        )
      ]
      else (invalid, s)

-- `((set | clear) & ~VARIABLE_ATTRIBUTES) != 0 || (set & clear) != 0`.
unfoldable pub bad_masks : Mask → Mask → Bool
bad_masks set clear =
    set.other_bits
    || clear.other_bits
    || (set.export_bit && clear.export_bit)
    || (set.readonly_bit && clear.readonly_bit)

-- `(attributes | set) & ~clear`.
abbrev pub marked : Mask → Mask → Variable → Variable
marked set clear v = record v {
  exported = (v.exported || set.export_bit) && not clear.export_bit;
  protected = (v.protected || set.readonly_bit) && not clear.readonly_bit;
}

unfoldable pub mark_old :
    Bytes → Mask → Mask → Variable → State → Memory → StateResult × State × Memory
mark_old name set clear v s m =
    if v.protected && clear.readonly_bit
    then (readonly, s, m)
    else (ok, record s { variables = assign name (marked set clear v) s.variables }, m)

-- The node and its name; there is no value to copy.
unfoldable pub mark_new : Bytes → Mask → Mask → State → Memory → StateResult × State × Memory
mark_new name set clear s m =
    let (made, left) = allocations 2 m in
    let v = marked set clear blank in
    if not (v.exported || v.protected)
    then (ok, s, m)
    else if made
    then (ok, record s { variables = (name, v) ∷ s.variables }, left)
    else (nomem, s, left)

-- `csh_state_update_attributes`.
unfoldable pub update_attributes :
    Bytes → Mask → Mask → State → Memory → StateResult × State × Memory
update_attributes name set clear s m =
    if not (valid_name name) || bad_masks set clear
    then (invalid, s, m)
    else elim (find name s.variables) [
      | some v ↦ mark_old name set clear v s m
      | none ↦ mark_new name set clear s m
    ]
