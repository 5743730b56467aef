-- ===== src/State/Snapshot/Scarce.antt =====
-- A checkpoint that is made is the state it was made from, whatever the allocations answer.
use mathlib.Core.List.{append-nil, append_assoc}
use cshell.Prelude.{
  ℕ, Bool, true, false, Option, none, some, List, [], ◌∷◌, ◌++◌, ◌≡◌, refl, ap, sym, subst, arith,
  Bool-cases, inl, inr,
}
use cshell.Prelude.Bytes.{Bytes}
use cshell.Prelude.Lists.{length, take}
use cshell.Prelude.Memory.{Memory, allocate, allocations}
use cshell.Prelude.Table.{Table, find, NamesUnique, put_last-absent}
use cshell.Alias
use cshell.Alias.{Aliases}
use cshell.Alias.Clone.{clone-made}
use cshell.State.{State, Variable, valid_name}
use cshell.State.Environment.{blank_state}
use cshell.State.Functions.{Payloads, set_function}
use cshell.State.Hashes.{hash_set}
use cshell.State.Parameters.{set_parameters}
use cshell.State.Variables.Tables.{IsState, NamesValid, AliasesSorted}
use cshell.State.Snapshot.{
  Copy, ◌then_copy◌, is_ok, copy_arg0, copy_parameters, variable_cost, copy_variable,
  copy_variables, copy_functions, copy_aliases, copy_hashes, copy_rest, copy_all, finish_copy,
  clone, save,
}
use cshell.State.Snapshot.Identity.{
  Apart, Apart-append, Apart-nil, take-arguments, with_parameters, with_variables, with_functions,
  with_aliases,
}

-- A step that succeeds has made this state.
abbrev Copied : State → Copy → Type 0
Copied t (false, c, h, m) = Unit
Copied t (true, c, h, m) = c ≡ t

Copied-if :
    (t : State) (b : Bool) (c : State) (h : Payloads) (m : Memory)
    → (b ≡ true → c ≡ t)
    → Copied t (b, c, h, m)
Copied-if t false c h m e = tt
Copied-if t true c h m e = e refl

then_copy-Copied :
    (t u : State) (x : Copy) (f : State → Payloads → Memory → Copy)
    → Copied t x
    → ((h : Payloads) (m : Memory) → Copied u (f t h m))
    → Copied u (x then_copy f)
unfolding ◌then_copy◌
then_copy-Copied t u (false, c, h, m) f e k = tt
then_copy-Copied t u (true, c, h, m) f e k = subst (λ z. Copied u (f z h m)) (sym e) (k h m)

copy_variable-Copied :
    (k : Bytes) (v : Variable) (c : State) (h : Payloads) (m : Memory)
    → Copied (record c { variables = c.variables ++ ((k, v) ∷ []) }) (copy_variable k v c h m)
unfolding copy_variable
copy_variable-Copied k v c h m =
    Copied-if _ (allocations (variable_cost v.value) m).0 _ h _ (λ e. rw e refl)

copy_variables-Copied :
    (t : Table Variable) (c : State) (h : Payloads) (m : Memory)
    → Copied (record c { variables = c.variables ++ t }) (copy_variables t c h m)
unfolding copy_variables
copy_variables-Copied [] c h m = rw append-nil
copy_variables-Copied ((k, v) ∷ t) c h m =
    let grown = record c { variables = c.variables ++ ((k, v) ∷ []) } in
    then_copy-Copied grown _ (copy_variable k v c h m) (copy_variables t)
      (copy_variable-Copied k v c h m)
      (λ h' m'.
        subst (λ vs. Copied (record c { variables = vs }) (copy_variables t grown h' m'))
          (append_assoc c.variables ((k, v) ∷ []) t) (copy_variables-Copied t grown h' m'))

set_function-appended :
    (k : Bytes) (p : ℕ) (c : State) (h : Payloads) (m : Memory)
    → valid_name k ≡ true
    → find k c.functions ≡ none
    → is_ok (set_function k p c h m).0 ≡ true
    → (set_function k p c h m).1 ≡ record c { functions = c.functions ++ ((k, p) ∷ []) }
unfolding set_function is_ok
set_function-appended k p c h m v n e = ground (arith, put_last-absent k p c.functions n)

copy_functions-Copied :
    (t : Table ℕ) (c : State) (h : Payloads) (m : Memory)
    → NamesUnique t
    → NamesValid t
    → Apart c.functions t
    → Copied (record c { functions = c.functions ++ t }) (copy_functions t c h m)
unfolding copy_functions
copy_functions-Copied [] c h m u v a = rw append-nil
copy_functions-Copied ((k, p) ∷ t) c h m u v a =
    let grown = record c { functions = c.functions ++ ((k, p) ∷ []) } in
    let r = set_function k p c h m in
    then_copy-Copied grown _ (is_ok r.0, r.1, r.2, r.3) (copy_functions t)
      (Copied-if grown (is_ok r.0) r.1 r.2 r.3 (set_function-appended k p c h m v.0 a.0))
      (λ h' m'.
        subst (λ fs. Copied (record c { functions = fs }) (copy_functions t grown h' m'))
          (append_assoc c.functions ((k, p) ∷ []) t)
          (copy_functions-Copied t grown h' m' u.1 v.1 (Apart-append c.functions k p t u.0 a.1)))

hash_set-appended :
    (k p : Bytes) (c : State) (m : Memory)
    → find k c.hashes ≡ none
    → is_ok (hash_set k p c m).0 ≡ true
    → (hash_set k p c m).1 ≡ record c { hashes = c.hashes ++ ((k, p) ∷ []) }
unfolding hash_set is_ok
hash_set-appended k p c m n e = ground (arith, put_last-absent k p c.hashes n)

copy_hashes-Copied :
    (t : Table Bytes) (c : State) (h : Payloads) (m : Memory)
    → NamesUnique t
    → Apart c.hashes t
    → Copied (record c { hashes = c.hashes ++ t }) (copy_hashes t c h m)
unfolding copy_hashes
copy_hashes-Copied [] c h m u a = rw append-nil
copy_hashes-Copied ((k, p) ∷ t) c h m u a =
    let grown = record c { hashes = c.hashes ++ ((k, p) ∷ []) } in
    let r = hash_set k p c m in
    then_copy-Copied grown _ (is_ok r.0, r.1, h, r.2) (copy_hashes t)
      (Copied-if grown (is_ok r.0) r.1 h r.2 (hash_set-appended k p c m a.0))
      (λ h' m'.
        subst (λ ps. Copied (record c { hashes = ps }) (copy_hashes t grown h' m'))
          (append_assoc c.hashes ((k, p) ∷ []) t)
          (copy_hashes-Copied t grown h' m' u.1 (Apart-append c.hashes k p t u.0 a.1)))

copy_parameters-Copied :
    (args : List Bytes) (c : State) (h : Payloads) (m : Memory)
    → Copied
        (record c { arguments = args; info = record (c.info) { argument_count = length args } })
        (copy_parameters args c h m)
unfolding copy_parameters set_parameters is_ok
copy_parameters-Copied args c h m = Copied-if _ _ _ h _ (λ e. ground (arith, e))

copy_aliases-Copied :
    (o : Option Aliases) (c : State) (h : Payloads) (m : Memory)
    → AliasesSorted o
    → c.aliases ≡ none
    → Copied (record c { aliases = o }) (copy_aliases o c h m)
unfolding copy_aliases
copy_aliases-Copied none c h m a e = ground (arith, e)
copy_aliases-Copied (some t) c h m a e = made (Alias.clone t m).0 refl
  where
    made :
        (r : Option Aliases)
        → (Alias.clone t m).0 ≡ r
        → Copied
            (record c { aliases = some t })
            (
              (elim r [ none ↦ false | some t' ↦ true ]),
              record c { aliases = r },
              h,
              (Alias.clone t m).1,
            )
    made none q = tt
    made (some r) q = ap (λ z. record c { aliases = some z }) (clone-made t r m a q)

copy_all-Copied : (s : State) (h : Payloads) (m : Memory) → IsState s → Copied s (copy_all s h m)
unfolding copy_all copy_arg0 copy_rest
copy_all-Copied s h m i =
    let named = record (blank_state s.locale) { arg0 = s.arg0 } in
    let hashed = record (with_aliases s) { hashes = s.hashes } in
    let x0 = copy_arg0 s.arg0 (blank_state s.locale) h m in
    let x1 = x0 then_copy copy_parameters (take s.info.argument_count s.arguments) in
    let x2 = x1 then_copy copy_variables s.variables in
    let x3 = x2 then_copy copy_functions s.functions in
    let x4 = x3 then_copy copy_aliases s.aliases in
    let x5 = x4 then_copy copy_hashes s.hashes in
    let r0 : Copied named x0 = Copied-if named (allocate m).0 named h (allocate m).1 (λ e. refl) in
    let r1 : Copied (with_parameters s) x1 =
      then_copy-Copied named (with_parameters s) x0
        (copy_parameters (take s.info.argument_count s.arguments)) r0
        (λ h' m'. rw (take-arguments s i) (copy_parameters-Copied s.arguments named h' m')) in
    let r2 : Copied (with_variables s) x2 =
      then_copy-Copied (with_parameters s) (with_variables s) x1 (copy_variables s.variables) r1
        (copy_variables-Copied s.variables (with_parameters s)) in
    let r3 : Copied (with_functions s) x3 =
      then_copy-Copied (with_variables s) (with_functions s) x2 (copy_functions s.functions) r2
        (λ h' m'.
          copy_functions-Copied s.functions (with_variables s) h' m' i.functions_unique
            i.functions_valid (Apart-nil s.functions)) in
    let r4 : Copied (with_aliases s) x4 =
      then_copy-Copied (with_functions s) (with_aliases s) x3 (copy_aliases s.aliases) r3
        (λ h' m'. copy_aliases-Copied s.aliases (with_functions s) h' m' i.aliases_sorted refl) in
    let r5 : Copied hashed x5 =
      then_copy-Copied (with_aliases s) hashed x4 (copy_hashes s.hashes) r4 (λ h' m'.
        copy_hashes-Copied s.hashes (with_aliases s) h' m' i.hashes_unique (Apart-nil s.hashes)) in
    then_copy-Copied hashed s x5 (copy_rest s) r5 (λ h' m'. refl)

-- The checkpoint, if there is one.
abbrev pub IsKept : State → Option State → Type 0
IsKept s none = Unit
IsKept s (some c) = c ≡ s

finish_copy-IsKept : (s : State) (x : Copy) → Copied s x → IsKept s (finish_copy x).1
unfolding finish_copy
finish_copy-IsKept s (false, c, h, m) e = tt
finish_copy-IsKept s (true, c, h, m) e = e

-- Whatever the allocations answer, the checkpoint of a well-formed state, if it is made, holds that
-- state.
pub save-IsKept : (s : State) (h : Payloads) (m : Memory) → IsState s → IsKept s (save s h m).1
unfolding save clone
save-IsKept s h m i = elim (Bool-cases (allocate m).0) [
  | inr e ↦ rw (e, IsKept) tt
  | inl e ↦ elim (Bool-cases (allocate (allocate m).1).0) [
    | inr f ↦ rw (e, f, IsKept) tt
    | inl f ↦
        let x = copy_all s h (allocate (allocate m).1).1 in
        rw (e, f) (finish_copy-IsKept s x (copy_all-Copied s h (allocate (allocate m).1).1 i))
  ]
]
