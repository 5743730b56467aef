-- ===== src/State/Saves.antt =====
-- Selective rollback: copies of named variables, absence included, and their restoration.
pub mod Rollback
pub mod Invariant
use cshell.Prelude.{
  ℕ, Bool, true, false, ◌&&◌, ◌||◌, Option, none, some, List, [], ◌∷◌, if◌then◌else◌,
}
use cshell.Prelude.Bytes.{Bytes}
use cshell.Prelude.Memory.{Memory, allocations}
use cshell.Prelude.Table.{Table, find, remove}
use cshell.State.{State, StateResult, ok, invalid, nomem, Variable, Libc, valid_name}
use cshell.State.Locale.{locale_variable, refresh_locale}
use cshell.State.Variables.{path_changed}

-- `struct csh_variable_save`: under each name the variable that it had, `none` for none.
abbrev pub Saved : Type 0
Saved = Table (Option Variable)

unfoldable pub all_valid : List Bytes → Bool
all_valid [] = true
all_valid (n ∷ names) = valid_name n && all_valid names

-- The entry, the copy of the variable and its name, and a copy of the value if there is one.
unfoldable pub save_cost : Option Variable → ℕ
save_cost none = 3
save_cost (some v) = elim v.value [ none ↦ 3 | some b ↦ 4 ]

-- The second loop: a name that is saved already is passed over.
unfoldable pub save_loop :
    Table Variable → List Bytes → Saved → Memory → StateResult × Saved × Memory
unfolding save_cost
save_loop vars [] out m = (ok, out, m)
save_loop vars (n ∷ names) out m = elim (find n out) [
  | some old ↦ save_loop vars names out m
  | none ↦
      let original = find n vars in
      let (made, left) = allocations (save_cost original) m in
      elim made [
        | true ↦ save_loop vars names ((n, original) ∷ out) left
        | false ↦ (nomem, [], left)
      ]
]

-- `csh_state_save_variables`.
unfoldable pub save_variables : State → List Bytes → Memory → StateResult × Saved × Memory
unfolding all_valid save_loop
save_variables s names m =
    if all_valid names then save_loop s.variables names [] m else (invalid, [], m)

-- One round of the loop: the current variable goes, and the saved one is linked in front.
unfoldable pub restore_one : Bytes → Option Variable → State → State
unfolding path_changed
restore_one name original s =
    let bare = remove name s.variables in
    path_changed name
      (record s { variables = elim original [ none ↦ bare | some v ↦ (name, v) ∷ bare ] })

unfoldable pub restore_loop : Saved → State → State
unfolding restore_one
restore_loop [] s = s
restore_loop ((n, original) ∷ rest) s = restore_loop rest (restore_one n original s)

-- `changed_locale`, gathered over the loop.
unfoldable pub any_locale : Saved → Bool
any_locale [] = false
any_locale ((n, original) ∷ rest) = locale_variable n || any_locale rest

-- `csh_state_restore_variables`; it allocates nothing and cannot fail.
unfoldable pub restore_variables : Libc → Saved → State → State
unfolding restore_loop any_locale
restore_variables libc save s =
    if any_locale save then refresh_locale libc (restore_loop save s) else restore_loop save s
