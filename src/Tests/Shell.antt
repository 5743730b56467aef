-- ===== src/Tests/Shell.antt =====
-- Runs of the operations on a shell's state, and their theorems at concrete states.
use cshell.Prelude.{
  ℕ, Bool, true, false, Option, none, some, List, [], ◌∷◌, ◌≡◌, refl, arith, if◌then◌else◌, leb,
}
use cshell.Prelude.Bytes.{Bytes, codes, bytes_eq}
use cshell.Prelude.Int.{negsuc}
use cshell.Prelude.Memory.{Memory, allocate}
use cshell.Prelude.Table.{find}
use cshell.State.{State, Variable, ok}
use cshell.State.Environment.{
  blank_state, environment, import_environment, export_mask, empty_mask, environment_loop, entry_of,
}
use cshell.State.Environment.RoundTrip.{handed_down, import-environment}
use cshell.State.Functions.{set_function, remove_function}
use cshell.State.Functions.Counts.{
  IsCounted, SafeDestroy, set_function-IsCounted, remove_function-IsCounted,
}
use cshell.State.Locale.Fresh.{IsFresh}
use cshell.State.Mutations.{Mutation, set_var, unset_var, mark_var, follow_locale, run}
use cshell.State.Mutations.Protected.{IsProtected, run-IsProtected}
use cshell.State.Hashes.{hash_set}
use cshell.State.Parameters.{
  OptionMask, set_status, set_background, update_options, ParameterSave, parameter, push_parameters,
  pop_parameters, set_parameters,
}
use cshell.State.Parameters.Laws.{pop-push_parameters}
use cshell.State.Saves.{save_variables, restore_variables}
use cshell.State.Saves.Rollback.{restore-save}
use cshell.State.Session.{
  Session, Action, mutate, define_alias, drop_alias, push, pop, save_vars, restore_vars, save_state,
  restore_state, act_all,
}
use cshell.State.Session.Fresh.{act_all-IsFresh}
use cshell.State.Session.Invariant.{IsSession, act_all-IsSession}
use cshell.State.Snapshot.{clone, save, restore}
use cshell.State.Snapshot.Identity.{retain_all, clone_lem, restore-save_lem}
use cshell.State.Variables.{set_variable, unset_variable, update_attributes}
use cshell.State.Variables.Failure.{Unchanged, failure-Unchanged}
use cshell.State.Variables.Lookup.{
  AssignedLookup, find-set_variable, find-unset_variable, marked_to, find-update_attributes,
}
use cshell.Tests.{
  all_locales, shell, shell-IsState, shell-IsFresh, one_payload, one_payload-IsCounted,
}

abbrev mutations : List Mutation
mutations =
    set_var (codes "N") (codes "6") []
    ∷ unset_var (codes "N")
    ∷ mark_var (codes "N") empty_mask export_mask []
    ∷ set_var (codes "LANG") (codes "C") []
    ∷ follow_locale
    ∷ []

abbrev all_options : OptionMask
all_options = record { bits = λ o. true; other_bits = false }

run-IsProtected_example :
    IsProtected (codes "N") (some (codes "5")) (run all_locales mutations shell)
unfolding find bytes_eq
run-IsProtected_example =
    run-IsProtected all_locales (codes "N") (some (codes "5")) mutations shell (record {
      variable = record { value = some (codes "5"); exported = false; protected = true };
      found = refl;
      same_value = refl;
      is_readonly = refl;
    })

-- Nothing is saved yet.
abbrev session : Session
session = record { state = shell; pushed = []; saved = []; kept = [] }

-- What a function call with an assignment does, with an alias, in a shell that is restored behind it.
abbrev actions : List Action
actions =
    save_state one_payload []
    ∷ save_vars (codes "LANG" ∷ codes "HOME" ∷ []) []
    ∷ push (codes "x" ∷ codes "y" ∷ []) []
    ∷ mutate (set_var (codes "LANG") (codes "C") [])
    ∷ mutate (unset_var (codes "HOME"))
    ∷ define_alias (codes "ll") (codes "ls -l") []
    ∷ drop_alias (codes "ll")
    ∷ pop
    ∷ restore_vars
    ∷ restore_state one_payload
    ∷ []

act_all-IsSession_example : IsSession (act_all all_locales actions session)
act_all-IsSession_example =
    act_all-IsSession all_locales actions session
      (record { state = shell-IsState; counts = tt; names = tt; checkpoints = tt })

act_all-IsFresh_example : IsFresh all_locales (act_all all_locales actions session).state
act_all-IsFresh_example = act_all-IsFresh all_locales actions session shell-IsFresh

restore-save_example :
    find
      (codes "HOME")
      (restore_variables all_locales
        (save_variables shell (codes "HOME" ∷ []) []).1
        shell).variables
    ≡ some (record { value = some (codes "/h"); exported = true; protected = false })
unfolding save_variables cshell.State.valid_name find cshell.Prelude.Memory.allocations bytes_eq
restore-save_example =
    restore-save all_locales shell shell (codes "HOME" ∷ []) [] (codes "HOME") refl
      shell-IsState.variables_unique

find-set_variable_example :
    AssignedLookup all_locales
      (codes "HOME")
      (codes "N")
      (codes "/r")
      shell
      (set_variable all_locales (codes "HOME") (codes "/r") shell [])
find-set_variable_example =
    find-set_variable all_locales (codes "HOME") (codes "N") (codes "/r") shell []

find-unset_variable_example :
    find (codes "HOME") (unset_variable all_locales (codes "HOME") shell).1.variables
    ≡ (elim (unset_variable all_locales (codes "HOME") shell).0 [
      | ok ↦
          if bytes_eq (codes "HOME") (codes "HOME")
          then none
          else find (codes "HOME") shell.variables
      | _ ↦ find (codes "HOME") shell.variables
    ])
find-unset_variable_example =
    find-unset_variable all_locales (codes "HOME") (codes "HOME") shell
      shell-IsState.variables_unique

find-update_attributes_example :
    find (codes "N") (update_attributes (codes "N") export_mask empty_mask shell []).1.variables
    ≡ (elim (update_attributes (codes "N") export_mask empty_mask shell []).0 [
      | ok ↦
          if bytes_eq (codes "N") (codes "N")
          then marked_to export_mask empty_mask (find (codes "N") shell.variables)
          else find (codes "N") shell.variables
      | _ ↦ find (codes "N") shell.variables
    ])
find-update_attributes_example =
    find-update_attributes (codes "N") (codes "N") export_mask empty_mask shell []

set_function-IsCounted_example :
    IsCounted
      (λ q. 0)
      (set_function (codes "f") 8 shell one_payload []).1.functions
      (set_function (codes "f") 8 shell one_payload []).2
    × SafeDestroy
        (λ q. 0)
        (set_function (codes "f") 8 shell one_payload []).1.functions
        one_payload
        (set_function (codes "f") 8 shell one_payload []).2
set_function-IsCounted_example =
    set_function-IsCounted (λ q. 0) (codes "f") 8 shell one_payload [] one_payload-IsCounted

remove_function-IsCounted_example :
    IsCounted
      (λ q. 0)
      (remove_function (codes "f") shell one_payload).1.functions
      (remove_function (codes "f") shell one_payload).2
    × SafeDestroy
        (λ q. 0)
        (remove_function (codes "f") shell one_payload).1.functions
        one_payload
        (remove_function (codes "f") shell one_payload).2
remove_function-IsCounted_example =
    remove_function-IsCounted (λ q. 0) (codes "f") shell one_payload one_payload-IsCounted

clone_lem_example :
    clone shell one_payload [] ≡ (ok, some shell, retain_all shell.functions one_payload, [])
clone_lem_example = clone_lem shell one_payload shell-IsState refl

restore-save_lem_example :
    (c : State) × (save shell one_payload []
      ≡ (ok, some c, retain_all shell.functions one_payload, []))
    × ((restore all_locales (blank_state (λ c. [])) c one_payload).0 ≡ shell)
restore-save_lem_example =
    restore-save_lem all_locales shell (blank_state (λ c. [])) one_payload one_payload shell-IsState
      refl shell-IsFresh

pop-push_parameters_example :
    (s : ParameterSave) × ((push_parameters (codes "x" ∷ []) shell []).1 ≡ some s)
    × (parameter (push_parameters (codes "x" ∷ []) shell []).2 0 ≡ some (codes "csh"))
    × ((push_parameters (codes "x" ∷ []) shell []).2.arguments ≡ codes "x" ∷ [])
    × ((push_parameters (codes "x" ∷ []) shell []).2.info.argument_count ≡ 1)
    × (pop_parameters s (push_parameters (codes "x" ∷ []) shell []).2 ≡ shell)
    × (pop_parameters s
          (record shell { arguments = []; info = record (shell.info) { argument_count = 0 } })
        ≡ shell)
unfolding push_parameters set_parameters cshell.Prelude.Memory.allocations
pop-push_parameters_example = pop-push_parameters (codes "x" ∷ []) [] 0 shell [] refl

-- The import has memory for six allocations.
abbrev six : Memory
six = true ∷ true ∷ true ∷ true ∷ true ∷ true ∷ false ∷ []

import_with_six :
    (import_environment all_locales (environment shell []).1 (blank_state (λ c. [])) six).0 ≡ ok
unfolding environment environment_loop entry_of cshell.Prelude.Memory.allocations import_environment
    cshell.State.Environment.importable cshell.State.Environment.split_entry
    cshell.State.Environment.exported_count cshell.State.Environment.import_one
    cshell.State.valid_name cshell.State.name_byte cshell.State.name_bytes cshell.State.name_start
    set_variable find bytes_eq allocate update_attributes cshell.Prelude.Table.assign
    cshell.State.Variables.assign_new cshell.State.Variables.assign_old
    cshell.State.Variables.mark_old cshell.State.Variables.mark_new cshell.State.Variables.bad_masks
    cshell.State.Variables.after_assignment cshell.State.Variables.locale_changed
    cshell.State.Variables.optind_changed cshell.State.Variables.path_changed
    cshell.State.Locale.locale_variable cshell.State.Locale.category_name
    cshell.State.Locale.refresh_locale
import_with_six = refl

import-environment_example :
    ((import_environment all_locales (environment shell []).1 (blank_state (λ c. [])) []).0 ≡ ok)
    × ((j : Bytes)
        → find j
            (import_environment all_locales
              (environment shell []).1
              (blank_state (λ c. []))
              six).1.variables
          ≡ handed_down (find j shell.variables))
unfolding environment environment_loop entry_of cshell.Prelude.Memory.allocations
import-environment_example =
    import-environment all_locales shell (blank_state (λ c. [])) [] six
      shell-IsState.variables_unique shell-IsState.variables_valid refl refl import_with_six

failure-Unchanged_example :
    Unchanged shell
      (set_variable all_locales (codes "N") (codes "6") shell []).0
      (set_variable all_locales (codes "N") (codes "6") shell []).1
    × Unchanged shell
        (update_attributes (codes "N") empty_mask export_mask shell []).0
        (update_attributes (codes "N") empty_mask export_mask shell []).1
    × Unchanged shell
        (unset_variable all_locales (codes "N") shell).0
        (unset_variable all_locales (codes "N") shell).1
    × Unchanged shell (set_parameters [] shell []).0 (set_parameters [] shell []).1
    × Unchanged shell (push_parameters [] shell []).0 (push_parameters [] shell []).2
    × Unchanged shell
        (hash_set (codes "N") (codes "6") shell []).0
        (hash_set (codes "N") (codes "6") shell []).1
    × Unchanged shell
        (set_function (codes "N") 8 shell one_payload []).0
        (set_function (codes "N") 8 shell one_payload []).1
    × Unchanged shell (set_status (negsuc 0) shell).0 (set_status (negsuc 0) shell).1
    × Unchanged shell (set_background (negsuc 0) shell).0 (set_background (negsuc 0) shell).1
    × Unchanged shell
        (update_options all_options all_options shell).0
        (update_options all_options all_options shell).1
failure-Unchanged_example =
    failure-Unchanged all_locales (codes "N") (codes "6") empty_mask export_mask [] 8 (negsuc 0)
      all_options all_options shell one_payload []
