-- ===== src/State/Session/Invariant.antt =====
-- A session's state stays well formed, with what was saved of it.
use cshell.Prelude.{
  Option, none, some, List, [], ◌∷◌, ◌≡◌, refl, sym, subst, arith, Bool-cases, inl, inr,
}
use cshell.Prelude.Bytes.{Bytes}
use cshell.Prelude.Lists.{length}
use cshell.Prelude.Memory.{Memory}
use cshell.Alias.{Aliases}
use cshell.Alias.Order.{IsTable, set_alias-IsTable, unset_alias-IsTable}
use cshell.State.{State, Category, Libc}
use cshell.State.Functions.{Payloads}
use cshell.State.Mutations.Invariant.{apply-IsState}
use cshell.State.Parameters.{ParameterSave, push_parameters, pop_parameters}
use cshell.State.Saves.{Saved, all_valid, save_variables}
use cshell.State.Saves.Invariant.{
  refresh_locale-IsState, restore_variables-IsState, save_loop-NamesValid,
}
use cshell.State.Snapshot.{save, restore}
use cshell.State.Snapshot.Scarce.{IsKept, save-IsKept}
use cshell.State.Variables.Tables.{IsState, NamesValid, AliasesSorted}
use cshell.State.Session.{
  Session, Action, mutate, define_alias, drop_alias, push, pop, save_vars, restore_vars, save_state,
  restore_state, on_aliases, add_save, add_saved, pop_from, restore_from, roll_back, act, act_all,
}

-- The saves of parameters have the right counts, those of variables valid names, and the
-- checkpoints are well formed.
abbrev pub AllCounted : List ParameterSave → Type 0
AllCounted [] = Unit
AllCounted (p ∷ ps) = (p.count ≡ length p.arguments) × AllCounted ps

abbrev pub AllNamed : List Saved → Type 0
AllNamed [] = Unit
AllNamed (v ∷ vs) = NamesValid v × AllNamed vs

abbrev pub AllStates : List State → Type 0
AllStates [] = Unit
AllStates (c ∷ cs) = IsState c × AllStates cs

pub record IsSession (x : Session) : Type 0 where
  pub state : IsState x.state
  pub counts : AllCounted x.pushed
  pub names : AllNamed x.saved
  pub checkpoints : AllStates x.kept

on_aliases-IsState :
    (g : Aliases → Aliases) (s : State)
    → ((t : Aliases) → IsTable t → IsTable (g t))
    → IsState s
    → IsState (on_aliases g s)
unfolding on_aliases
on_aliases-IsState g s h i = by_table s.aliases i.aliases_sorted refl
  where
    by_table :
        (o : Option Aliases)
        → AliasesSorted o
        → s.aliases ≡ o
        → IsState (elim o as (λ _. State) [ none ↦ s | some t ↦ record s { aliases = some (g t) } ])
    by_table none a e = i
    by_table (some t) a e = record {
      variables_unique = i.variables_unique;
      variables_valid = i.variables_valid;
      hashes_unique = i.hashes_unique;
      functions_unique = i.functions_unique;
      functions_valid = i.functions_valid;
      aliases_sorted = h t a;
      arguments_counted = i.arguments_counted;
    }

push_parameters-IsState :
    (args : List Bytes) (s : State) (m : Memory) → IsState s → IsState (push_parameters args s m).2
unfolding push_parameters
push_parameters-IsState args s m i = ground arith

push_parameters-AllCounted :
    (args : List Bytes) (s : State) (m : Memory) (ps : List ParameterSave)
    → IsState s
    → AllCounted ps
    → AllCounted (add_save (push_parameters args s m).1 ps)
unfolding push_parameters add_save
push_parameters-AllCounted args s m ps i c = ground (arith, i.arguments_counted)

save_variables-AllNamed :
    (s : State) (names : List Bytes) (m : Memory) (vs : List Saved)
    → AllNamed vs
    → AllNamed (add_saved (save_variables s names m).0 (save_variables s names m).1 vs)
unfolding save_variables add_saved
save_variables-AllNamed s names m vs v = elim (Bool-cases (all_valid names)) [
  | inr e ↦ ground (arith, e)
  | inl e ↦ ground (arith, e, save_loop-NamesValid s.variables names [] m e tt)
]

relocated : (s : State) (l : Category → Bytes) → IsState s → IsState (record s { locale = l })
relocated s l i = ground arith

counted_arguments :
    (p : ParameterSave) (s : State)
    → p.count ≡ length p.arguments
    → IsState s
    → IsState (pop_parameters p s)
unfolding pop_parameters
counted_arguments p s c i = ground (arith, c)

kept-AllStates :
    (s : State) (o : Option State) (cs : List State)
    → IsState s
    → IsKept s o
    → AllStates cs
    → AllStates (add_save o cs)
unfolding add_save
kept-AllStates s none cs i k a = a
kept-AllStates s (some c) cs i k a = (subst (λ z. IsState z) (sym k) i, a)

module _ (libc : Libc) where
  pop_from-IsSession :
      (ps : List ParameterSave) (x : Session)
      → AllCounted ps
      → IsSession x
      → IsSession (pop_from libc ps x)
  unfolding pop_from pop_parameters
  pop_from-IsSession [] x c i = i
  pop_from-IsSession (p ∷ ps) x c i = record {
    state = counted_arguments p x.state c.0 i.state;
    counts = c.1;
    names = i.names;
    checkpoints = i.checkpoints;
  }

  restore_from-IsSession :
      (vs : List Saved) (x : Session)
      → AllNamed vs
      → IsSession x
      → IsSession (restore_from libc vs x)
  unfolding restore_from
  restore_from-IsSession [] x v i = i
  restore_from-IsSession (s ∷ vs) x v i = record {
    state = restore_variables-IsState libc s x.state v.0 i.state;
    counts = i.counts;
    names = v.1;
    checkpoints = i.checkpoints;
  }

  roll_back-IsSession :
      (cs : List State) (h : Payloads) (x : Session)
      → AllStates cs
      → IsSession x
      → IsSession (roll_back libc cs h x)
  unfolding roll_back restore
  roll_back-IsSession [] h x c i = i
  roll_back-IsSession (s ∷ cs) h x c i = record {
    state =
        refresh_locale-IsState libc (record s { locale = x.state.locale })
          (relocated s x.state.locale c.0);
    counts = i.counts;
    names = i.names;
    checkpoints = c.1;
  }

  with_state :
      (x : Session) (s : State) → IsSession x → IsState s → IsSession (record x { state = s })
  with_state x s i j = record {
    state = j;
    counts = i.counts;
    names = i.names;
    checkpoints = i.checkpoints;
  }

  act-IsSession : (a : Action) (x : Session) → IsSession x → IsSession (act libc a x)
  unfolding act
  act-IsSession (mutate a) x i = with_state x _ i (apply-IsState libc a x.state i.state)
  act-IsSession (define_alias k v m) x i =
      with_state x _ i (on_aliases-IsState _ x.state (λ t h. set_alias-IsTable k v t m h) i.state)
  act-IsSession (drop_alias k) x i =
      with_state x _ i (on_aliases-IsState _ x.state (λ t h. unset_alias-IsTable k t h) i.state)
  act-IsSession (push args m) x i = record {
    state = push_parameters-IsState args x.state m i.state;
    counts = push_parameters-AllCounted args x.state m x.pushed i.state i.counts;
    names = i.names;
    checkpoints = i.checkpoints;
  }
  act-IsSession pop x i = pop_from-IsSession x.pushed x i.counts i
  act-IsSession (save_vars names m) x i = record {
    state = i.state;
    counts = i.counts;
    names = save_variables-AllNamed x.state names m x.saved i.names;
    checkpoints = i.checkpoints;
  }
  act-IsSession restore_vars x i = restore_from-IsSession x.saved x i.names i
  act-IsSession (save_state h m) x i = record {
    state = i.state;
    counts = i.counts;
    names = i.names;
    checkpoints =
        kept-AllStates x.state (save x.state h m).1 x.kept i.state (save-IsKept x.state h m i.state)
          i.checkpoints;
  }
  act-IsSession (restore_state h) x i = roll_back-IsSession x.kept h x i.checkpoints i

  -- Through every sequence of mutations, alias definitions and removals, pushes and pops of
  -- parameters, saves and restorations of variables, and checkpoints and their restorations,
  -- successful or not, a well-formed session stays well formed. In its state each variable, hashed
  -- path and function has one entry and the variables and functions valid names, the aliases are in
  -- order, each once, with valid names, and the argument count is the number of arguments; and so
  -- it will be when what is saved comes back.
  pub act_all-IsSession :
      (as' : List Action) (x : Session) → IsSession x → IsSession (act_all libc as' x)
  unfolding act_all
  act_all-IsSession [] x i = i
  act_all-IsSession (a ∷ rest) x i = act_all-IsSession rest (act libc a x) (act-IsSession a x i)
