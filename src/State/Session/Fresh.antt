-- ===== src/State/Session/Fresh.antt =====
-- The locale stays in step with the variables, whatever is saved and given back.
use cshell.Prelude.{
  false, Option, none, some, List, [], ◌∷◌, ◌≡◌, refl, arith, Bool-cases, inl, inr,
}
use cshell.Prelude.Bytes.{Bytes}
use cshell.Prelude.Memory.{Memory}
use cshell.State.Functions.{Payloads}
use cshell.Prelude.Table.{remove, find-cons, find-remove_ne}
use cshell.Alias.{Aliases}
use cshell.State.{State, Variable, Libc}
use cshell.State.Locale.{locale_variable}
use cshell.State.Locale.Fresh.{IsFresh, refresh_locale-IsFresh, locale_variable-ne}
use cshell.State.Mutations.Locale.{
  IsFresh-variables, path_changed-IsFresh, unchanged-IsFresh, apply-IsFresh,
}
use cshell.State.Parameters.{ParameterSave, push_parameters, pop_parameters}
use cshell.State.Saves.{Saved, restore_one, restore_loop, any_locale, restore_variables}
use cshell.State.Snapshot.{restore}
use cshell.State.Session.{
  Session, Action, mutate, define_alias, drop_alias, push, pop, save_vars, restore_vars, save_state,
  restore_state, on_aliases, pop_from, restore_from, roll_back, act, act_all,
}

module _ (libc : Libc) where
  restore_one-IsFresh :
      (n : Bytes) (o : Option Variable) (s : State)
      → locale_variable n ≡ false
      → IsFresh libc s
      → IsFresh libc (restore_one n o s)
  unfolding restore_one
  restore_one-IsFresh n none s l f = path_changed-IsFresh libc n _ (
      IsFresh-variables libc (remove n s.variables) s
        (λ j e. find-remove_ne n j s.variables (locale_variable-ne n j l e)) f)
  restore_one-IsFresh n (some v) s l f = path_changed-IsFresh libc n _ (
      IsFresh-variables libc ((n, v) ∷ remove n s.variables) s
        (λ j e. ground (
          arith,
          find-cons n j v (remove n s.variables),
          locale_variable-ne n j l e,
          find-remove_ne n j s.variables (locale_variable-ne n j l e),
        ))
        f)

  restore_loop-IsFresh :
      (save : Saved) (s : State)
      → any_locale save ≡ false
      → IsFresh libc s
      → IsFresh libc (restore_loop save s)
  unfolding restore_loop any_locale
  restore_loop-IsFresh [] s l f = f
  restore_loop-IsFresh ((n, o) ∷ rest) s l f =
      restore_loop-IsFresh rest (restore_one n o s) (ground (arith, l))
        (restore_one-IsFresh n o s (ground (arith, l)) f)

  restore_variables-IsFresh :
      (save : Saved) (s : State) → IsFresh libc s → IsFresh libc (restore_variables libc save s)
  unfolding restore_variables
  restore_variables-IsFresh save s f = elim (Bool-cases (any_locale save)) [
    | inl e ↦ rw e (refresh_locale-IsFresh libc _)
    | inr e ↦ rw e (restore_loop-IsFresh save s e f)
  ]

  on_aliases-IsFresh :
      (g : Aliases → Aliases) (s : State) → IsFresh libc s → IsFresh libc (on_aliases g s)
  unfolding on_aliases
  on_aliases-IsFresh g s f =
      unchanged-IsFresh libc s _ (ground arith) (ground arith) (ground arith) f

  push_parameters-IsFresh :
      (args : List Bytes) (s : State) (m : Memory)
      → IsFresh libc s
      → IsFresh libc (push_parameters args s m).2
  unfolding push_parameters
  push_parameters-IsFresh args s m f =
      unchanged-IsFresh libc s _ (ground arith) (ground arith) (ground arith) f

  pop_from-IsFresh :
      (ps : List ParameterSave) (x : Session)
      → IsFresh libc x.state
      → IsFresh libc (pop_from libc ps x).state
  unfolding pop_from pop_parameters
  pop_from-IsFresh [] x f = f
  pop_from-IsFresh (p ∷ ps) x f = unchanged-IsFresh libc x.state _ refl refl refl f

  restore_from-IsFresh :
      (vs : List Saved) (x : Session)
      → IsFresh libc x.state
      → IsFresh libc (restore_from libc vs x).state
  unfolding restore_from
  restore_from-IsFresh [] x f = f
  restore_from-IsFresh (v ∷ vs) x f = restore_variables-IsFresh v x.state f

  roll_back-IsFresh :
      (cs : List State) (h : Payloads) (x : Session)
      → IsFresh libc x.state
      → IsFresh libc (roll_back libc cs h x).state
  unfolding roll_back restore
  roll_back-IsFresh [] h x f = f
  roll_back-IsFresh (c ∷ cs) h x f = refresh_locale-IsFresh libc _

  act-IsFresh :
      (a : Action) (x : Session) → IsFresh libc x.state → IsFresh libc (act libc a x).state
  unfolding act
  act-IsFresh (mutate a) x f = apply-IsFresh libc a x.state f
  act-IsFresh (define_alias k v m) x f = on_aliases-IsFresh _ x.state f
  act-IsFresh (drop_alias k) x f = on_aliases-IsFresh _ x.state f
  act-IsFresh (push args m) x f = push_parameters-IsFresh args x.state m f
  act-IsFresh pop x f = pop_from-IsFresh x.pushed x f
  act-IsFresh (save_vars names m) x f = f
  act-IsFresh restore_vars x f = restore_from-IsFresh x.saved x f
  act-IsFresh (save_state h m) x f = f
  act-IsFresh (restore_state h) x f = roll_back-IsFresh x.kept h x f

  -- Through every sequence of mutations, pushes and pops of parameters, saves and restorations of
  -- variables, and checkpoints and their restorations, once a state that manages the locale has the
  -- locale that its variables select, it has it.
  pub act_all-IsFresh :
      (as' : List Action) (x : Session)
      → IsFresh libc x.state
      → IsFresh libc (act_all libc as' x).state
  unfolding act_all
  act_all-IsFresh [] x f = f
  act_all-IsFresh (a ∷ rest) x f = act_all-IsFresh rest (act libc a x) (act-IsFresh a x f)
