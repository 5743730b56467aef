-- ===== src/State/Parameters.antt =====
-- Positional parameters and the other fields of the state's information.
pub mod Laws
use cshell.Prelude.{
  ℕ, zero, suc, ◌+◌, ◌-◌, ◌/◌, ◌^◌, Bool, true, false, not, ◌&&◌, ◌||◌, Option, none, some, List,
  [], ◌∷◌, ltb, if◌then◌else◌,
}
use cshell.Prelude.Bytes.{Bytes}
use cshell.Prelude.Int.{ℤ, pos, negsuc}
use cshell.Prelude.Lists.{length, get_elem?}
use cshell.Prelude.Memory.{Memory, allocations}
use cshell.State.{
  State, Info, StateResult, ok, invalid, nomem, ShellOption, interactive, allexport, errexit,
  noglob, noexec, nounset, verbose, xtrace, noclobber, pipefail, monitor, notify, hashall,
  ignoreeof, nolog,
}

-- SIZE_MAX of the hosts, and the size of a pointer there.
abbrev pub size_max : ℕ
size_max = 2 ^ 64 - 1

abbrev pub pointer_size : ℕ
pointer_size = 8

-- `csh_state_set_parameters`: the array, then a copy of each argument.
unfoldable pub set_parameters : List Bytes → State → Memory → StateResult × State × Memory
set_parameters args s m =
    let count = length args in
    let (made, left) = allocations (suc count) m in
    if ltb (size_max / pointer_size - 1) count
    then (nomem, s, m)
    else if made
    then (
      ok,
      record s { arguments = args; info = record (s.info) { argument_count = count } },
      left,
    )
    else (nomem, s, left)

-- `csh_state_parameter`; `none` is NULL. The array ends in a NULL.
unfoldable pub parameter : State → ℕ → Option Bytes
parameter s zero = some s.arg0
parameter s (suc i) = if ltb s.info.argument_count (suc i) then none else get_elem? s.arguments i

-- `struct csh_parameter_save`.
pub record ParameterSave : Type 0 where
  pub arguments : List Bytes
  pub count : ℕ

-- `csh_state_push_parameters`: the new array is built in a temporary state first.
unfoldable pub push_parameters :
    List Bytes → State → Memory → StateResult × Option ParameterSave × State × Memory
unfolding set_parameters
push_parameters args s m =
    let count = length args in
    let (made, left) = allocations (suc count) m in
    if ltb (size_max / pointer_size - 1) count
    then (nomem, none, s, m)
    else if made
    then (
      ok,
      some (record { arguments = s.arguments; count = s.info.argument_count }),
      record s { arguments = args; info = record (s.info) { argument_count = count } },
      left,
    )
    else (nomem, none, s, left)

-- `csh_state_pop_parameters`.
unfoldable pub pop_parameters : ParameterSave → State → State
pop_parameters save s = record s {
  arguments = save.arguments;
  info = record (s.info) { argument_count = save.count };
}

-- `csh_state_set_status`.
unfoldable pub set_status : ℤ → State → StateResult × State
set_status (pos n) s = (ok, record s { info = record (s.info) { last_status = n } })
set_status (negsuc n) s = (invalid, s)

-- `csh_state_set_background`.
unfoldable pub set_background : ℤ → State → StateResult × State
set_background (pos n) s = (ok, record s { info = record (s.info) { background_pid = n } })
set_background (negsuc n) s = (invalid, s)

-- `csh_state_set_errexit_ignored`, `csh_state_set_function_depth`, `csh_state_set_source_depth`.
unfoldable pub set_errexit_ignored : ℕ → State → State
set_errexit_ignored depth s = record s { info = record (s.info) { errexit_ignored = depth } }

unfoldable pub set_function_depth : ℕ → State → State
set_function_depth depth s = record s { info = record (s.info) { function_depth = depth } }

unfoldable pub set_source_depth : ℕ → State → State
set_source_depth depth s = record s { info = record (s.info) { source_depth = depth } }

-- A mask of option bits, and whether a bit outside `SHELL_OPTIONS` is set.
pub record OptionMask : Type 0 where
  pub bits : ShellOption → Bool
  pub other_bits : Bool

-- `SHELL_OPTIONS`.
abbrev pub shell_options : List ShellOption
shell_options =
    interactive ∷ allexport ∷ errexit ∷ noglob ∷ noexec ∷ nounset ∷ verbose ∷ xtrace ∷ noclobber
    ∷ pipefail ∷ monitor ∷ notify ∷ hashall ∷ ignoreeof ∷ nolog ∷ []

unfoldable pub overlap : (ShellOption → Bool) → (ShellOption → Bool) → List ShellOption → Bool
overlap a b [] = false
overlap a b (o ∷ os) = (a o && b o) || overlap a b os

-- `csh_state_update_options`.
unfoldable pub update_options : OptionMask → OptionMask → State → StateResult × State
update_options set clear s =
    if set.other_bits || clear.other_bits || overlap set.bits clear.bits shell_options
    then (invalid, s)
    else (
      ok,
      record s {
        info = record (s.info) {
          options = λ o. (s.info.options o || set.bits o) && not (clear.bits o);
        };
      },
    )
