-- ===== src/State/Saves/Invariant.antt =====
-- Restoring saved variables keeps a state well formed, and what is saved has valid names.
use cshell.Prelude.{true, Option, none, some, List, [], ◌∷◌, ◌≡◌, arith, Option-cases, inl, inr}
use cshell.Prelude.Bytes.{Bytes}
use cshell.Prelude.Memory.{Memory, allocations}
use cshell.Prelude.Table.{Table, find, remove}
use cshell.State.{State, Variable, Libc, valid_name}
use cshell.State.Locale.{refresh_locale}
use cshell.State.Saves.{
  Saved, all_valid, save_cost, save_loop, restore_one, restore_loop, restore_variables,
}
use cshell.State.Saves.Rollback.{put_back-NamesUnique}
use cshell.State.Snapshot.{save}
use cshell.State.Variables.{path_changed}
use cshell.State.Variables.Tables.{IsState, NamesValid, remove-NamesValid, IsState-variables}

pub refresh_locale-IsState : (libc : Libc) (s : State) → IsState s → IsState (refresh_locale libc s)
unfolding refresh_locale
refresh_locale-IsState libc s i = ground arith

path_changed-IsState : (k : Bytes) (s : State) → IsState s → IsState (path_changed k s)
unfolding path_changed
path_changed-IsState k s i = ground arith

restore_one-IsState :
    (n : Bytes) (o : Option Variable) (s : State)
    → valid_name n ≡ true
    → IsState s
    → IsState (restore_one n o s)
unfolding restore_one
restore_one-IsState n none s v i = path_changed-IsState n _ (
    IsState-variables s (remove n s.variables) i
      (put_back-NamesUnique n none s.variables i.variables_unique)
      (remove-NamesValid n s.variables i.variables_valid))
restore_one-IsState n (some w) s v i = path_changed-IsState n _ (
    IsState-variables s ((n, w) ∷ remove n s.variables) i
      (put_back-NamesUnique n (some w) s.variables i.variables_unique)
      (v, remove-NamesValid n s.variables i.variables_valid))

restore_loop-IsState :
    (save : Saved) (s : State) → NamesValid save → IsState s → IsState (restore_loop save s)
unfolding restore_loop
restore_loop-IsState [] s v i = i
restore_loop-IsState ((n, o) ∷ rest) s v i =
    restore_loop-IsState rest (restore_one n o s) v.1 (restore_one-IsState n o s v.0 i)

pub restore_variables-IsState :
    (libc : Libc) (save : Saved) (s : State)
    → NamesValid save
    → IsState s
    → IsState (restore_variables libc save s)
unfolding restore_variables
restore_variables-IsState libc save s v i =
    let j = restore_loop-IsState save s v i in
    ground (arith, j, refresh_locale-IsState libc (restore_loop save s) j)

pub save_loop-NamesValid :
    (vars : Table Variable) (names : List Bytes) (out : Saved) (m : Memory)
    → all_valid names ≡ true
    → NamesValid out
    → NamesValid (save_loop vars names out m).1
unfolding save_loop all_valid
save_loop-NamesValid vars [] out m a v = v
save_loop-NamesValid vars (n ∷ names) out m a v = elim (Option-cases (find n out)) [
  | inr (o, e) ↦ ground (arith, e, a, save_loop-NamesValid vars names out m)
  | inl e ↦
      let grown = (n, find n vars) ∷ out in
      let left = (allocations (save_cost (find n vars)) m).1 in
      ground (arith, e, a, save_loop-NamesValid vars names grown left)
]
