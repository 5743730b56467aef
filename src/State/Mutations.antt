-- ===== src/State/Mutations.antt =====
-- The mutations that a shell makes of its state, as data, and what sequences of them do.
pub mod Invariant
pub mod Protected
pub mod Locale
use cshell.Prelude.{ℕ, Option, List, [], ◌∷◌}
use cshell.Prelude.Bytes.{Bytes}
use cshell.Prelude.Int.{ℤ}
use cshell.Prelude.Memory.{Memory}
use cshell.State.{State, Mask, Libc}
use cshell.State.Functions.{Payloads, set_function, remove_function}
use cshell.State.Hashes.{hash_clear, hash_set, state_aliases}
use cshell.State.Locale.{manage_locale}
use cshell.State.Parameters.{
  OptionMask, set_parameters, set_status, set_background, update_options, set_errexit_ignored,
  set_function_depth, set_source_depth,
}
use cshell.State.Variables.{set_variable, unset_variable, update_attributes}

pub data Mutation : Type 0 where
  set_var : Bytes → Bytes → Memory → Mutation
  mark_var : Bytes → Mask → Mask → Memory → Mutation
  unset_var : Bytes → Mutation
  set_params : List Bytes → Memory → Mutation
  set_stat : ℤ → Mutation
  set_bg : ℤ → Mutation
  set_opts : OptionMask → OptionMask → Mutation
  set_errexit set_fdepth set_sdepth set_getopts : ℕ → Mutation
  clear_hashes : Mutation
  set_hash : Bytes → Bytes → Memory → Mutation
  set_fun : Bytes → ℕ → Payloads → Memory → Mutation
  drop_fun : Bytes → Payloads → Mutation
  make_aliases : Memory → Mutation
  follow_locale : Mutation

-- `csh_state_set_getopts_offset`.
unfoldable pub set_getopts_offset : ℕ → State → State
set_getopts_offset n s = record s { getopts_offset = n }

module _ (libc : Libc) where
  unfoldable pub apply : Mutation → State → State
  unfolding set_getopts_offset
  apply (set_var k v m) s = (set_variable libc k v s m).1
  apply (mark_var k set clear m) s = (update_attributes k set clear s m).1
  apply (unset_var k) s = (unset_variable libc k s).1
  apply (set_params args m) s = (set_parameters args s m).1
  apply (set_stat z) s = (set_status z s).1
  apply (set_bg z) s = (set_background z s).1
  apply (set_opts a b) s = (update_options a b s).1
  apply (set_errexit n) s = set_errexit_ignored n s
  apply (set_fdepth n) s = set_function_depth n s
  apply (set_sdepth n) s = set_source_depth n s
  apply (set_getopts n) s = set_getopts_offset n s
  apply clear_hashes s = hash_clear s
  apply (set_hash k p m) s = (hash_set k p s m).1
  apply (set_fun k p h m) s = (set_function k p s h m).1
  apply (drop_fun k h) s = (remove_function k s h).1
  apply (make_aliases m) s = (state_aliases s m).0
  apply follow_locale s = manage_locale libc s

  unfoldable pub run : List Mutation → State → State
  run [] s = s
  run (a ∷ rest) s = run rest (apply a s)
