-- ===== src/State/Snapshot/Identity.antt =====
-- A clone is equal to the state it was made from, and restoring a checkpoint gives the state back
-- as it was saved.
use mathlib.Core.List.{append-nil, append_assoc}
use mathlib.Core.Path.{fun_ext}
use cshell.Prelude.{
  ℕ, suc, ltb, ◌-◌, ◌/◌, Bool, true, false, Option, none, some, List, [], ◌∷◌, ◌++◌, ◌≡◌, refl, ◌∙◌,
  ap, sym, arith, if◌then◌else◌,
}
use cshell.Prelude.Bytes.{Bytes, bytes_eq, bytes_eq_sym}
use cshell.Prelude.Lists.{length, take, take-length}
use cshell.Prelude.Memory.{allocate, allocations-plenty}
use cshell.Prelude.Table.{Table, find, NamesUnique, put_last-absent}
use cshell.Alias.{Aliases}
use cshell.Alias.Clone.{clone-eq}
use cshell.State.{State, ok, Variable, Libc, Category, valid_name}
use cshell.State.Environment.{blank_state}
use cshell.State.Functions.{Payloads, retain, set_function}
use cshell.State.Hashes.{hash_set}
use cshell.State.Locale.{refresh_locale}
use cshell.State.Locale.Fresh.{IsFresh, refresh_loop-wanted}
use cshell.State.Parameters.{set_parameters, size_max, pointer_size}
use cshell.State.Variables.Tables.{IsState, NamesValid, AliasesSorted}
use cshell.State.Snapshot.{
  ◌then_copy◌, is_ok, copy_arg0, copy_parameters, variable_cost, copy_variable, copy_variables,
  copy_functions, copy_aliases, copy_hashes, copy_rest, copy_all, finish_copy, clone, save, restore,
}

-- No name of the first table stands in the second.
abbrev pub Apart {ℓ} : {V : Type ℓ} → Table V → Table V → Type ℓ
Apart copy [] = Unit
Apart copy ((k, v) ∷ t) = (find k copy ≡ none) × Apart copy t

module _ {ℓ} {V : Type ℓ} where
  find-append_none :
      (k j : Bytes) (v : V) (t : Table V)
      → find k t ≡ none
      → bytes_eq j k ≡ false
      → find k (t ++ ((j, v) ∷ [])) ≡ none
  unfolding find
  find-append_none k j v [] h n = ground arith
  find-append_none k j v ((i, w) ∷ t) h n = ground (arith, find-append_none k j v t)

  pub Apart-append :
      (copy : Table V) (k : Bytes) (v : V) (t : Table V)
      → find k t ≡ none
      → Apart copy t
      → Apart (copy ++ ((k, v) ∷ [])) t
  unfolding find
  Apart-append copy k v [] h a = tt
  Apart-append copy k v ((i, w) ∷ t) h a =
      ground (arith, find-append_none i k v copy, bytes_eq_sym i k, Apart-append copy k v t)

  pub Apart-nil : (t : Table V) → Apart [] t
  unfolding find
  Apart-nil [] = tt
  Apart-nil ((k, v) ∷ t) = (refl, Apart-nil t)

-- Every function of the table is retained once.
abbrev pub retain_all : Table ℕ → Payloads → Payloads
retain_all [] h = h
retain_all ((k, p) ∷ t) h = retain_all t (retain p h)

set_function-new :
    (k : Bytes) (p : ℕ) (c : State) (h : Payloads)
    → valid_name k ≡ true
    → find k c.functions ≡ none
    → set_function k p c h []
      ≡ (ok, record c { functions = c.functions ++ ((k, p) ∷ []) }, retain p h, [])
unfolding set_function
set_function-new k p c h v n =
    ground (arith, allocations-plenty 2, put_last-absent k p c.functions n)

copy_functions-append :
    (t : Table ℕ) (c : State) (h : Payloads)
    → NamesUnique t
    → NamesValid t
    → Apart c.functions t
    → copy_functions t c h []
      ≡ (true, record c { functions = c.functions ++ t }, retain_all t h, [])
unfolding copy_functions ◌then_copy◌ is_ok
copy_functions-append [] c h u v a = rw append-nil
copy_functions-append ((k, p) ∷ t) c h u v a =
    let grown = record c { functions = c.functions ++ ((k, p) ∷ []) } in
    rw (set_function-new k p c h v.0 a.0, copy_functions)
      (copy_functions-append t grown (retain p h) u.1 v.1 (Apart-append c.functions k p t u.0 a.1)
        ∙ rw append_assoc)

hash_set-new :
    (k p : Bytes) (c : State)
    → find k c.hashes ≡ none
    → hash_set k p c [] ≡ (ok, record c { hashes = c.hashes ++ ((k, p) ∷ []) }, [])
unfolding hash_set
hash_set-new k p c n = ground (arith, allocations-plenty 3, put_last-absent k p c.hashes n)

copy_hashes-append :
    (t : Table Bytes) (c : State) (h : Payloads)
    → NamesUnique t
    → Apart c.hashes t
    → copy_hashes t c h [] ≡ (true, record c { hashes = c.hashes ++ t }, h, [])
unfolding copy_hashes ◌then_copy◌ is_ok
copy_hashes-append [] c h u a = rw append-nil
copy_hashes-append ((k, p) ∷ t) c h u a =
    let grown = record c { hashes = c.hashes ++ ((k, p) ∷ []) } in
    rw (hash_set-new k p c a.0, copy_hashes)
      (copy_hashes-append t grown h u.1 (Apart-append c.hashes k p t u.0 a.1) ∙ rw append_assoc)

-- The arguments fit into an array: `count > SIZE_MAX / sizeof(*copy) - 1` is false.
abbrev pub ArgumentsFit : State → Type 0
ArgumentsFit s = ltb (size_max / pointer_size - 1) (length s.arguments) ≡ false

copy_parameters-plenty :
    (args : List Bytes) (c : State) (h : Payloads)
    → ltb (size_max / pointer_size - 1) (length args) ≡ false
    → copy_parameters args c h [] ≡ (
      true,
      record c { arguments = args; info = record (c.info) { argument_count = length args } },
      h,
      [],
    )
unfolding copy_parameters set_parameters is_ok
copy_parameters-plenty args c h f = rw (f, allocations-plenty (suc (length args)))

copy_aliases-plenty :
    (o : Option Aliases) (c : State) (h : Payloads)
    → AliasesSorted o
    → c.aliases ≡ none
    → copy_aliases o c h [] ≡ (true, record c { aliases = o }, h, [])
unfolding copy_aliases
copy_aliases-plenty none c h a e = ground arith
copy_aliases-plenty (some t) c h a e = rw (clone-eq t a)

copy_variables-plenty :
    (t : Table Variable) (c : State) (h : Payloads)
    → copy_variables t c h [] ≡ (true, record c { variables = c.variables ++ t }, h, [])
unfolding copy_variables copy_variable ◌then_copy◌
copy_variables-plenty [] c h = rw append-nil
copy_variables-plenty ((k, v) ∷ t) c h =
    let grown = record c { variables = c.variables ++ ((k, v) ∷ []) } in
    rw (allocations-plenty (variable_cost v.value), copy_variables)
      (copy_variables-plenty t grown h ∙ rw append_assoc)

pub take-arguments : (s : State) → IsState s → take s.info.argument_count s.arguments ≡ s.arguments
take-arguments s i = rw i.arguments_counted (take-length s.arguments)

-- The copy after the steps up to the parameters, the variables, the functions and the aliases.
abbrev pub with_parameters : State → State
with_parameters s =
    let c = record (blank_state s.locale) { arg0 = s.arg0 } in
    record c {
      arguments = s.arguments;
      info = record (c.info) { argument_count = length s.arguments };
    }

abbrev pub with_variables : State → State
with_variables s = record (with_parameters s) { variables = s.variables }

abbrev pub with_functions : State → State
with_functions s = record (with_variables s) { functions = s.functions }

abbrev pub with_aliases : State → State
with_aliases s = record (with_functions s) { aliases = s.aliases }

copy_all-eq :
    (s : State) (h : Payloads)
    → IsState s
    → ArgumentsFit s
    → copy_all s h [] ≡ (true, s, retain_all s.functions h, [])
unfolding copy_all ◌then_copy◌ copy_arg0 copy_rest allocate
copy_all-eq s h i f =
    let named = record (blank_state s.locale) { arg0 = s.arg0 } in
    rw (
      take-arguments s i,
      copy_parameters-plenty s.arguments named h f,
      copy_variables-plenty s.variables (with_parameters s) h,
      copy_functions-append s.functions (with_variables s) h i.functions_unique i.functions_valid
          (Apart-nil s.functions),
      copy_aliases-plenty s.aliases (with_functions s) (retain_all s.functions h) i.aliases_sorted
          refl,
      copy_hashes-append s.hashes (with_aliases s) (retain_all s.functions h) i.hashes_unique
          (Apart-nil s.hashes),
    )

-- With memory enough, `csh_state_clone` of a well-formed state whose arguments fit an array is equal
-- to it in every field, and
-- the counts grow by one for each function entry.
pub clone_lem :
    (s : State) (h : Payloads)
    → IsState s
    → ArgumentsFit s
    → clone s h [] ≡ (ok, some s, retain_all s.functions h, [])
unfolding clone allocate finish_copy
clone_lem s h i f = rw (copy_all-eq s h i f)

relocate :
    (b : Bool) (s : State) {l k : Category → Bytes} (old : Category → Bytes)
    → (b ≡ true → l ≡ k)
    → (if b then record s { locale = l } else record s { locale = old })
      ≡ record s { locale = if b then k else old }
relocate true s old e = ap (λ x. record s { locale = x }) (e refl)
relocate false s old e = refl

pub save-eq :
    (s : State) (h : Payloads)
    → IsState s
    → ArgumentsFit s
    → save s h [] ≡ (ok, some s, retain_all s.functions h, [])
unfolding save allocate
save-eq s h i f = rw (clone_lem s h i f)

pub restore-eq :
    (libc : Libc) (s t : State) (h' : Payloads)
    → IsFresh libc s
    → (restore libc t s h').0
      ≡ record s { locale = if s.manages_locale then s.locale else t.locale }
unfolding restore refresh_locale
restore-eq libc s t h' fresh =
    relocate s.manages_locale s t.locale
      (λ e. fun_ext (λ c. refresh_loop-wanted libc s.variables t.locale c ∙ sym (fresh.fresh e c)))

-- With memory enough, the checkpoint of a well-formed state whose arguments fit an array and whose
-- locale, if it manages it, is in step, restored over any state of the process: every field is as it
-- was when it was saved. The locale of the process is so too if the saved state manages it and was
-- in step with it; if not, restoring leaves the locale alone.
pub restore-save_lem :
    (libc : Libc) (s t : State) (h h' : Payloads)
    → IsState s
    → ArgumentsFit s
    → IsFresh libc s
    → (c : State) × (save s h [] ≡ (ok, some c, retain_all s.functions h, []))
      × ((restore libc t c h').0
          ≡ record s { locale = if s.manages_locale then s.locale else t.locale })
restore-save_lem libc s t h h' i f fresh = (s, save-eq s h i f, restore-eq libc s t h' fresh)
