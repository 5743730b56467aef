-- ===== src/State/Session.antt =====
-- A shell's state with what was saved of it: positional parameters that were pushed, variables that
-- were saved by name, and checkpoints, each of which is given back once, the last first.
pub mod Invariant
pub mod Fresh
use cshell.Prelude.{Option, none, some, List, [], ◌∷◌}
use cshell.Prelude.Bytes.{Bytes}
use cshell.Prelude.Memory.{Memory}
use cshell.Alias.{Aliases, set_alias, unset_alias}
use cshell.State.{State, StateResult, ok, Libc}
use cshell.State.Functions.{Payloads}
use cshell.State.Mutations.{Mutation, apply}
use cshell.State.Parameters.{ParameterSave, push_parameters, pop_parameters}
use cshell.State.Saves.{Saved, save_variables, restore_variables}
use cshell.State.Snapshot.{save, restore}

pub record Session : Type 0 where
  pub state : State
  pub pushed : List ParameterSave
  pub saved : List Saved
  pub kept : List State

pub data Action : Type 0 where
  mutate : Mutation → Action
  define_alias : Bytes → Bytes → Memory → Action
  drop_alias : Bytes → Action
  push : List Bytes → Memory → Action
  pop : Action
  save_vars : List Bytes → Memory → Action
  restore_vars : Action
  save_state : Payloads → Memory → Action
  restore_state : Payloads → Action

-- A change of the alias table, if it has been made.
unfoldable pub on_aliases : (Aliases → Aliases) → State → State
on_aliases f s = elim s.aliases [ none ↦ s | some t ↦ record s { aliases = some (f t) } ]

unfoldable pub add_save {ℓ} : {A : Type ℓ} → Option A → List A → List A
add_save none as' = as'
add_save (some a) as' = a ∷ as'

-- What is saved of the variables when that goes well.
unfoldable pub add_saved : StateResult → Saved → List Saved → List Saved
add_saved ok save as' = save ∷ as'
add_saved _ save as' = as'

module _ (libc : Libc) where
  unfoldable pub pop_from : List ParameterSave → Session → Session
  pop_from [] x = x
  pop_from (p ∷ ps) x = record x { state = pop_parameters p x.state; pushed = ps }

  unfoldable pub restore_from : List Saved → Session → Session
  restore_from [] x = x
  restore_from (v ∷ vs) x = record x { state = restore_variables libc v x.state; saved = vs }

  unfoldable pub roll_back : List State → Payloads → Session → Session
  roll_back [] h x = x
  roll_back (c ∷ cs) h x = record x { state = (restore libc x.state c h).0; kept = cs }

  unfoldable pub act : Action → Session → Session
  unfolding on_aliases add_save add_saved pop_from restore_from roll_back
  act (mutate a) x = record x { state = apply libc a x.state }
  act (define_alias k v m) x = record x { state = on_aliases (λ t. (set_alias k v t m).1) x.state }
  act (drop_alias k) x = record x { state = on_aliases (λ t. (unset_alias k t).1) x.state }
  act (push args m) x =
      let r = push_parameters args x.state m in
      record x { state = r.2; pushed = add_save r.1 x.pushed }
  act pop x = pop_from x.pushed x
  act (save_vars names m) x =
      let r = save_variables x.state names m in record x { saved = add_saved r.0 r.1 x.saved }
  act restore_vars x = restore_from x.saved x
  act (save_state h m) x = record x { kept = add_save (save x.state h m).1 x.kept }
  act (restore_state h) x = roll_back x.kept h x

  unfoldable pub act_all : List Action → Session → Session
  act_all [] x = x
  act_all (a ∷ rest) x = act_all rest (act a x)
