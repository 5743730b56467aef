-- ===== src/State/Mutations/Invariant.antt =====
-- The well-formedness of a state, and that every mutation keeps it.
use cshell.Prelude.{ℕ, true, [], ◌∷◌, ◌≡◌, arith}
use cshell.Prelude.Bytes.{Bytes}
use cshell.Prelude.Memory.{Memory}
use cshell.Prelude.Table.{Table, put_last, remove-NamesUnique, put_last-NamesUnique}
use cshell.State.{State, Libc, valid_name}
use cshell.State.Functions.{Payloads, set_function, remove_function}
use cshell.State.Hashes.{hash_clear, hash_set, state_aliases}
use cshell.State.Locale.{manage_locale, refresh_locale}
use cshell.State.Parameters.{
  set_parameters, set_status, set_background, update_options, set_errexit_ignored,
  set_function_depth, set_source_depth,
}
use cshell.State.Variables.Tables.{
  IsState, NamesValid, set_variable-IsState, unset_variable-IsState, update_attributes-IsState,
  remove-NamesValid,
}
use cshell.State.Mutations.{
  Mutation, set_var, mark_var, unset_var, set_params, set_stat, set_bg, set_opts, set_errexit,
  set_fdepth, set_sdepth, set_getopts, clear_hashes, set_hash, set_fun, drop_fun, make_aliases,
  follow_locale, apply,
}

put_last-NamesValid :
    (k : Bytes) (p : ℕ) (t : Table ℕ)
    → valid_name k ≡ true
    → NamesValid t
    → NamesValid (put_last k p t)
unfolding put_last
put_last-NamesValid k p [] v h = (v, tt)
put_last-NamesValid k p ((j, w) ∷ t) v h = ground (arith, put_last-NamesValid k p t v h.1)

set_function-IsState :
    (k : Bytes) (p : ℕ) (s : State) (h : Payloads) (m : Memory)
    → IsState s
    → IsState (set_function k p s h m).1
unfolding set_function
set_function-IsState k p s h m i = ground (
  arith,
  put_last-NamesUnique k p s.functions i.functions_unique,
  put_last-NamesValid k p s.functions,
)

remove_function-IsState :
    (k : Bytes) (s : State) (h : Payloads) → IsState s → IsState (remove_function k s h).1
unfolding remove_function
remove_function-IsState k s h i = ground (
  arith,
  remove-NamesUnique k s.functions i.functions_unique,
  remove-NamesValid k s.functions i.functions_valid,
)

hash_set-IsState : (k p : Bytes) (s : State) (m : Memory) → IsState s → IsState (hash_set k p s m).1
unfolding hash_set
hash_set-IsState k p s m i = ground (arith, put_last-NamesUnique k p s.hashes i.hashes_unique)

state_aliases-IsState : (s : State) (m : Memory) → IsState s → IsState (state_aliases s m).0
unfolding state_aliases
state_aliases-IsState s m i = ground arith

-- One mutation, whether it succeeds or not, keeps the state well formed.
pub apply-IsState : (libc : Libc) (a : Mutation) (s : State) → IsState s → IsState (apply libc a s)
unfolding apply
apply-IsState libc (set_var k v m) s i = set_variable-IsState libc k v s m i
apply-IsState libc (mark_var k set clear m) s i = update_attributes-IsState k set clear s m i
apply-IsState libc (unset_var k) s i = unset_variable-IsState libc k s i
apply-IsState libc (set_params args m) s i = unfold set_parameters in ground arith
apply-IsState libc (set_stat z) s i = unfold set_status in ground arith
apply-IsState libc (set_bg z) s i = unfold set_background in ground arith
apply-IsState libc (set_opts a b) s i = unfold update_options in ground arith
apply-IsState libc (set_errexit n) s i = unfold set_errexit_ignored in ground arith
apply-IsState libc (set_fdepth n) s i = unfold set_function_depth in ground arith
apply-IsState libc (set_sdepth n) s i = unfold set_source_depth in ground arith
apply-IsState libc (set_getopts n) s i = ground arith
apply-IsState libc clear_hashes s i = unfold hash_clear in ground arith
apply-IsState libc (set_hash k p m) s i = hash_set-IsState k p s m i
apply-IsState libc (set_fun k p h m) s i = set_function-IsState k p s h m i
apply-IsState libc (drop_fun k h) s i = remove_function-IsState k s h i
apply-IsState libc (make_aliases m) s i = state_aliases-IsState s m i
apply-IsState libc follow_locale s i = unfold manage_locale refresh_locale in ground arith
