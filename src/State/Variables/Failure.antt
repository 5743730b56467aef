-- ===== src/State/Variables/Failure.antt =====
-- A mutation that does not succeed leaves the state as it was, as include/cshell/state.h promises.
use cshell.Prelude.{List, ◌≡◌, arith, ℕ, Option-cases, inl, inr}
use cshell.Prelude.Bytes.{Bytes}
use cshell.Prelude.Int.{ℤ}
use cshell.Prelude.Memory.{Memory}
use cshell.Prelude.Table.{find}
use cshell.State.{State, StateResult, ok, Mask, Libc}
use cshell.State.Functions.{Payloads, set_function}
use cshell.State.Hashes.{hash_set}
use cshell.State.Parameters.{
  OptionMask, set_parameters, push_parameters, set_status, set_background, update_options,
}
use cshell.State.Variables.{
  set_variable, assign_old, assign_new, unset_variable, update_attributes, mark_old, mark_new,
}

-- The state behind a result, unless the result is a success.
abbrev pub Unchanged : State → StateResult → State → Type 0
Unchanged s r t = (elim r [ ok ↦ s | _ ↦ t ]) ≡ s

set_variable-Unchanged :
    (libc : Libc) (k v : Bytes) (s : State) (m : Memory)
    → Unchanged s (set_variable libc k v s m).0 (set_variable libc k v s m).1
unfolding set_variable assign_old assign_new
set_variable-Unchanged libc k v s m = elim (Option-cases (find k s.variables)) [
  | inl h ↦ ground (arith, h)
  | inr (w, h) ↦ ground (arith, h)
]

update_attributes-Unchanged :
    (k : Bytes) (set clear : Mask) (s : State) (m : Memory)
    → Unchanged s (update_attributes k set clear s m).0 (update_attributes k set clear s m).1
unfolding update_attributes mark_old mark_new
update_attributes-Unchanged k set clear s m = ground arith

unset_variable-Unchanged :
    (libc : Libc) (k : Bytes) (s : State)
    → Unchanged s (unset_variable libc k s).0 (unset_variable libc k s).1
unfolding unset_variable
unset_variable-Unchanged libc k s = ground arith

set_function-Unchanged :
    (k : Bytes) (p : ℕ) (s : State) (h : Payloads) (m : Memory)
    → Unchanged s (set_function k p s h m).0 (set_function k p s h m).1
unfolding set_function
set_function-Unchanged k p s h m = ground arith

-- Whatever the reason (an invalid argument, a readonly variable, no memory), a mutation of
-- variables, attributes, parameters, hashed paths, functions, options, the status or the background
-- process that does not return CSH_STATE_OK leaves the whole state unchanged.
pub failure-Unchanged :
    (libc : Libc) (k v : Bytes) (set clear : Mask) (args : List Bytes) (p : ℕ) (z : ℤ)
    (a b : OptionMask) (s : State) (h : Payloads) (m : Memory)
    → Unchanged s (set_variable libc k v s m).0 (set_variable libc k v s m).1
      × Unchanged s (update_attributes k set clear s m).0 (update_attributes k set clear s m).1
      × Unchanged s (unset_variable libc k s).0 (unset_variable libc k s).1
      × Unchanged s (set_parameters args s m).0 (set_parameters args s m).1
      × Unchanged s (push_parameters args s m).0 (push_parameters args s m).2
      × Unchanged s (hash_set k v s m).0 (hash_set k v s m).1
      × Unchanged s (set_function k p s h m).0 (set_function k p s h m).1
      × Unchanged s (set_status z s).0 (set_status z s).1
      × Unchanged s (set_background z s).0 (set_background z s).1
      × Unchanged s (update_options a b s).0 (update_options a b s).1
unfolding set_parameters push_parameters hash_set set_status set_background update_options
failure-Unchanged libc k v set clear args p z a b s h m = (
  set_variable-Unchanged libc k v s m,
  update_attributes-Unchanged k set clear s m,
  unset_variable-Unchanged libc k s,
  ground arith,
  ground arith,
  ground arith,
  set_function-Unchanged k p s h m,
  ground arith,
  ground arith,
  ground arith,
)
