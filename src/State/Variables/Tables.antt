-- ===== src/State/Variables/Tables.antt =====
-- How the operations on variables change the tables of the state, entry by entry.
use cshell.Prelude.{true, Option, none, some, [], ◌∷◌, ◌≡◌, arith, Option-cases, inl, inr}
use cshell.Prelude.Bytes.{Bytes}
use cshell.Prelude.Memory.{Memory}
use cshell.Prelude.Table.{
  Table, find, assign, remove, NamesUnique, remove-NamesUnique, assign-NamesUnique,
}
use cshell.Alias.{Aliases}
use cshell.Alias.Order.{IsTable}
use cshell.Prelude.Lists.{length}
use cshell.State.{State, Variable, Mask, Libc, valid_name}
use cshell.State.Locale.{refresh_locale}
use cshell.State.Variables.{
  set_variable, assign_old, assign_new, after_assignment, unset_variable, update_attributes,
  path_changed, optind_changed, locale_changed, marked, assigned, blank, mark_new, mark_old,
}

-- Every name is one that `valid_name` takes.
abbrev pub NamesValid {ℓ} : {V : Type ℓ} → Table V → Type 0
NamesValid [] = Unit
NamesValid ((k, v) ∷ t) = (valid_name k ≡ true) × NamesValid t

module _ {ℓ} {V : Type ℓ} where
  pub assign-NamesValid :
      (k : Bytes) (v : V) (t : Table V) → NamesValid t → NamesValid (assign k v t)
  unfolding assign
  assign-NamesValid k v [] h = tt
  assign-NamesValid k v ((j, w) ∷ t) h = ground (arith, assign-NamesValid k v t h.1)

  pub remove-NamesValid : (k : Bytes) (t : Table V) → NamesValid t → NamesValid (remove k t)
  unfolding remove
  remove-NamesValid k [] h = tt
  remove-NamesValid k ((j, w) ∷ t) h = ground (arith, remove-NamesValid k t h.1)

abbrev pub AliasesSorted : Option Aliases → Type 0
AliasesSorted none = Unit
AliasesSorted (some t) = IsTable t

-- The invariant of a state.
pub record IsState (s : State) : Type 0 where
  pub variables_unique : NamesUnique s.variables
  pub variables_valid : NamesValid s.variables
  pub hashes_unique : NamesUnique s.hashes
  pub functions_unique : NamesUnique s.functions
  pub functions_valid : NamesValid s.functions
  pub aliases_sorted : AliasesSorted s.aliases
  pub arguments_counted : s.info.argument_count ≡ length s.arguments

-- A state with new variables.
abbrev with_variables : State → Table Variable → State
with_variables s vars = record s { variables = vars }

pub IsState-variables :
    (s : State) (vars : Table Variable)
    → IsState s
    → NamesUnique vars
    → NamesValid vars
    → IsState (with_variables s vars)
IsState-variables s vars i u v = record {
  variables_unique = u;
  variables_valid = v;
  hashes_unique = i.hashes_unique;
  functions_unique = i.functions_unique;
  functions_valid = i.functions_valid;
  aliases_sorted = i.aliases_sorted;
  arguments_counted = i.arguments_counted;
}

-- A variable that is overwritten where it stands.
assigned-IsState :
    (k : Bytes) (v : Variable) (s : State)
    → IsState s
    → IsState (with_variables s (assign k v s.variables))
assigned-IsState k v s i =
    IsState-variables s (assign k v s.variables) i
      (assign-NamesUnique k v s.variables i.variables_unique)
      (assign-NamesValid k v s.variables i.variables_valid)

-- A new variable in front.
linked-IsState :
    (k : Bytes) (v : Variable) (s : State)
    → valid_name k ≡ true
    → find k s.variables ≡ none
    → IsState s
    → IsState (with_variables s ((k, v) ∷ s.variables))
linked-IsState k v s valid new i =
    IsState-variables s ((k, v) ∷ s.variables) i (new, i.variables_unique)
      (valid, i.variables_valid)

removed-IsState :
    (k : Bytes) (s : State) → IsState s → IsState (with_variables s (remove k s.variables))
removed-IsState k s i =
    IsState-variables s (remove k s.variables) i
      (remove-NamesUnique k s.variables i.variables_unique)
      (remove-NamesValid k s.variables i.variables_valid)

module _ (libc : Libc) where
  pub after_assignment-IsState :
      (k : Bytes) (s : State) → IsState s → IsState (after_assignment libc k s)
  unfolding after_assignment locale_changed optind_changed path_changed refresh_locale
  after_assignment-IsState k s i = ground arith

  assign_old-IsState :
      (k v : Bytes) (w : Variable) (s : State) (m : Memory)
      → IsState s
      → IsState (assign_old libc k v w s m).1
  unfolding assign_old
  assign_old-IsState k v w s m i =
      let stored = with_variables s (assign k (assigned s v w) s.variables) in
      ground (arith, after_assignment-IsState k stored (assigned-IsState k (assigned s v w) s i))

  assign_new-IsState :
      (k v : Bytes) (s : State) (m : Memory)
      → valid_name k ≡ true
      → find k s.variables ≡ none
      → IsState s
      → IsState (assign_new libc k v s m).1
  unfolding assign_new
  assign_new-IsState k v s m valid new i =
      let stored = with_variables s ((k, assigned s v blank) ∷ s.variables) in
      ground (
        arith,
        after_assignment-IsState k stored (linked-IsState k (assigned s v blank) s valid new i),
      )

  pub set_variable-IsState :
      (k v : Bytes) (s : State) (m : Memory) → IsState s → IsState (set_variable libc k v s m).1
  unfolding set_variable
  set_variable-IsState k v s m i = elim (Option-cases (find k s.variables)) [
    | inl h ↦ ground (arith, h, assign_new-IsState k v s m)
    | inr (w, h) ↦ ground (arith, h, assign_old-IsState k v w s m i)
  ]

  path_locale-IsState :
      (k : Bytes) (s : State) → IsState s → IsState (locale_changed libc k (path_changed k s))
  unfolding path_changed locale_changed refresh_locale
  path_locale-IsState k s i = ground arith

  pub unset_variable-IsState :
      (k : Bytes) (s : State) → IsState s → IsState (unset_variable libc k s).1
  unfolding unset_variable
  unset_variable-IsState k s i = ground (
    arith,
    path_locale-IsState k (with_variables s (remove k s.variables)) (removed-IsState k s i),
  )

pub update_attributes-IsState :
    (k : Bytes) (set clear : Mask) (s : State) (m : Memory)
    → IsState s
    → IsState (update_attributes k set clear s m).1
unfolding update_attributes mark_old mark_new
update_attributes-IsState k set clear s m i = elim (Option-cases (find k s.variables)) [
  | inl h ↦
      ground
        (arith, h, λ (v : valid_name k ≡ true). linked-IsState k (marked set clear blank) s v h i)
  | inr (w, h) ↦ ground (arith, h, assigned-IsState k (marked set clear w) s i)
]
