-- ===== src/State/Environment/RoundTrip.antt =====
-- The environment that a shell hands to a command, imported by another shell, defines exactly the
-- exported variables that have a value, with these values.
use cshell.Prelude.{
  ℕ, true, false, Option, none, some, List, [], ◌∷◌, ◌++◌, ◌≡◌, refl, subst, arith, ◌⊎◌, ◌==◌,
  if◌then◌else◌, Bool-cases, Option-cases, inl, inr,
}
use cshell.Prelude.Bytes.{Bytes, bytes_eq, bytes_eq_iff, bytes_eq_sym, bytes_eq_refl}
use cshell.Prelude.Memory.{Memory, allocate, allocations-plenty}
use cshell.Prelude.Table.{Table, find, find-nil, find-cons, NamesUnique}
use cshell.State.{
  State, StateResult, ok, Variable, Libc, name_start, name_byte, name_bytes, valid_name,
}
use cshell.State.Environment.{
  split_entry, importable, import_one, import_environment, entry_of, environment_loop, environment,
  export_mask, empty_mask,
}
use cshell.State.Variables.{
  set_variable, assign_new, update_attributes, mark_old, bad_masks, assigned, blank,
}
use cshell.State.Variables.Lookup.{find-set_variable, find-update_attributes}
use cshell.State.Variables.Tables.{NamesValid}

-- The entries of the exported variables that have a value, in the order of the list.
abbrev entries : Table Variable → List Bytes
entries [] = []
entries ((k, v) ∷ t) = elim (entry_of k v) [ none ↦ entries t | some e ↦ e ∷ entries t ]

-- What importing gives a variable that was handed down.
abbrev pub handed_down : Option Variable → Option Variable
handed_down none = none
handed_down (some v) = elim v.value [
  | none ↦ none
  | some b ↦
      if v.exported
      then some (record { value = some b; exported = true; protected = false })
      else none
]

environment_loop-entries :
    (t : Table Variable) (m : Memory) (es : List Bytes)
    → (environment_loop t m).0 ≡ some es
    → es ≡ entries t
unfolding environment_loop
environment_loop-entries [] m es h = ground arith
environment_loop-entries ((k, v) ∷ t) m es h = elim (Option-cases (entry_of k v)) [
  | inl e ↦ ground (arith, e, environment_loop-entries t m es)
  | inr (b, e) ↦ elim (Option-cases (environment_loop t (allocate m).1).0) [
    | inl n ↦ ground (arith, e, n)
    | inr (rest, r) ↦ ground (arith, e, r, environment_loop-entries t (allocate m).1 rest r)
  ]
]

name_byte-ne-equals : (c : ℕ) → name_byte c ≡ true → (c == b'=') ≡ false
unfolding name_byte name_start
name_byte-ne-equals c h = ground arith

name_start-name_byte : (c : ℕ) → name_start c ≡ true → name_byte c ≡ true
unfolding name_byte
name_start-name_byte c h = ground arith

split_entry-name_bytes :
    (k v : Bytes) → name_bytes k ≡ true → split_entry (k ++ (b'=' ∷ v)) ≡ some (k, v)
unfolding split_entry name_bytes
split_entry-name_bytes [] v h = refl
split_entry-name_bytes (c ∷ cs) v h =
    ground (arith, split_entry-name_bytes cs v, name_byte-ne-equals c)

valid_name-name_bytes : (k : Bytes) → valid_name k ≡ true → name_bytes k ≡ true
unfolding valid_name name_bytes
valid_name-name_bytes [] h = refl
valid_name-name_bytes (c ∷ cs) h = ground (arith, name_start-name_byte c)

importable-entry : (k v : Bytes) → valid_name k ≡ true → importable (k ++ (b'=' ∷ v)) ≡ some (k, v)
unfolding importable
importable-entry k v h = ground (arith, split_entry-name_bytes k v (valid_name-name_bytes k h), h)

set_variable-new :
    (libc : Libc) (k v : Bytes) (s : State)
    → valid_name k ≡ true
    → find k s.variables ≡ none
    → ((set_variable libc k v s []).0 ≡ ok) × ((set_variable libc k v s []).2 ≡ [])
unfolding set_variable assign_new
set_variable-new libc k v s h n =
    (ground (arith, allocations-plenty 3), ground (arith, allocations-plenty 3))

export-found :
    (k : Bytes) (w : Variable) (s : State) (m : Memory)
    → valid_name k ≡ true
    → find k s.variables ≡ some w
    → ((update_attributes k export_mask empty_mask s m).0 ≡ ok)
      × ((update_attributes k export_mask empty_mask s m).2 ≡ m)
unfolding update_attributes mark_old bad_masks
export-found k w s m h e = (ground arith, ground arith)

-- One entry of a new name, imported with memory enough.
record Imported (k v : Bytes) (s : State) (r : StateResult × State × Memory) : Type 0 where
  succeeds : r.0 ≡ ok
  no_cost : r.2 ≡ []

import_one-Imported :
    (libc : Libc) (k v : Bytes) (s : State)
    → valid_name k ≡ true
    → find k s.variables ≡ none
    → Imported k v s (import_one libc k v s [])
unfolding import_one allocate
import_one-Imported libc k v s h n =
    let (set_ok, set_left) = set_variable-new libc k v s h n in
    let s' = (set_variable libc k v s []).1 in
    let here : find k s'.variables ≡ some (assigned s v blank) =
      ground (arith, find-set_variable libc k k v s [], n, bytes_eq_refl k, set_ok) in
    let (mark_ok, mark_left) = export-found k (assigned s v blank) s' [] h here in
    record { succeeds = rw (set_ok, set_left) mark_ok; no_cost = rw (set_ok, set_left) mark_left }

import_one-copied :
    (libc : Libc) (k v : Bytes) (s : State) (m : Memory)
    → (import_one libc k v s m).0 ≡ ok
    → ((allocate m).0 ≡ true) × ((set_variable libc k v s (allocate m).1).0 ≡ ok)
unfolding import_one
import_one-copied libc k v s m h = (ground (arith, h), ground (arith, h))

-- What it leaves with any memory, if it goes well.
import_one-lookups :
    (libc : Libc) (k v : Bytes) (s : State) (m : Memory)
    → valid_name k ≡ true
    → find k s.variables ≡ none
    → (import_one libc k v s m).0 ≡ ok
    → (j : Bytes)
    → find j (import_one libc k v s m).1.variables ≡ (
        if bytes_eq k j
        then some (record { value = some v; exported = true; protected = false })
        else find j s.variables)
unfolding import_one
import_one-lookups libc k v s m h n good j =
    let (copied, set_ok) = import_one-copied libc k v s m good in
    let x = set_variable libc k v s (allocate m).1 in
    let here : find k x.1.variables ≡ some (assigned s v blank) =
      ground (arith, find-set_variable libc k k v s (allocate m).1, n, bytes_eq_refl k, set_ok) in
    let (mark_ok, mark_left) = export-found k (assigned s v blank) x.1 x.2 h here in
    rw (copied, set_ok)
      (ground (
        arith,
        find-update_attributes k j export_mask empty_mask x.1 x.2,
        mark_ok,
        here,
        find-set_variable libc k j v s (allocate m).1,
        set_ok,
        n,
      ))

-- A variable is handed down, as `name=value`, or it is not.
entry_of-cases :
    (k : Bytes) (v : Variable)
    → ((entry_of k v ≡ none) × (handed_down (some v) ≡ none))
      ⊎ ((b : Bytes) × (entry_of k v ≡ some (k ++ (b'=' ∷ b)))
          × (handed_down (some v)
              ≡ some (record { value = some b; exported = true; protected = false })))
unfolding entry_of
entry_of-cases k v = elim (Option-cases v.value) [
  | inl e ↦ inl (rw e, rw e)
  | inr (b, e) ↦ elim (Bool-cases v.exported) [
    | inl x ↦ inr (b, ground arith, ground arith)
    | inr x ↦ inl (ground arith, ground arith)
  ]
]

-- No variable of the state has a name of the table.
abbrev Absent : Table Variable → Table Variable → Type 0
Absent vars [] = Unit
Absent vars ((k, v) ∷ t) = (find k vars ≡ none) × Absent vars t

Absent-step :
    (k : Bytes) (x : Option Variable) (vars vars' t : Table Variable)
    → ((j : Bytes) → find j vars' ≡ (if bytes_eq k j then x else find j vars))
    → find k t ≡ none
    → Absent vars t
    → Absent vars' t
unfolding find
Absent-step k x vars vars' [] h n a = tt
Absent-step k x vars vars' ((i, w) ∷ t) h n a =
    (ground (arith, h i, bytes_eq_sym i k), Absent-step k x vars vars' t h (ground arith) a.1)

-- With memory enough the import goes well.
import-ok :
    (libc : Libc) (t : Table Variable) (s : State)
    → NamesUnique t
    → NamesValid t
    → Absent s.variables t
    → (import_environment libc (entries t) s []).0 ≡ ok
unfolding import_environment
import-ok libc [] s u v a = refl
import-ok libc ((k, w) ∷ t) s u v a = elim (entry_of-cases k w) [
  | inl (e, d) ↦ ground (arith, e, import-ok libc t s u.1 v.1 a.1)
  | inr (b, e, d) ↦
      let one = import_one-Imported libc k b s v.0 a.0 in
      let s' = (import_one libc k b s []).1 in
      let look = import_one-lookups libc k b s [] v.0 a.0 one.succeeds in
      let a' : Absent s'.variables t = Absent-step k _ s.variables s'.variables t look u.0 a.1 in
      let step = importable-entry k b v.0 in
      ground (arith, e, step, one.succeeds, one.no_cost, import-ok libc t s' u.1 v.1 a')
]

-- What importing the entries of `t` into `s` leaves, if it goes well.
import-lookups :
    (libc : Libc) (t : Table Variable) (s : State) (m : Memory)
    → NamesUnique t
    → NamesValid t
    → Absent s.variables t
    → (import_environment libc (entries t) s m).0 ≡ ok
    → (j : Bytes)
    → find j (import_environment libc (entries t) s m).1.variables
      ≡ (elim (handed_down (find j t)) [ none ↦ find j s.variables | some x ↦ some x ])
unfolding import_environment
import-lookups libc [] s m u v a good j = ground (arith, find-nil {V = Variable} j)
import-lookups libc ((k, w) ∷ t) s m u v a good j = elim (entry_of-cases k w) [
  | inl (e, d) ↦
      let ih = import-lookups libc t s m u.1 v.1 a.1 (ground (arith, good, e)) j in
      ground (arith, e, ih, find-cons k j w t, bytes_eq_iff k j, d, u.0)
  | inr (b, e, d) ↦
      let x = import_one libc k b s m in
      let step = importable-entry k b v.0 in
      let x_ok : x.0 ≡ ok = ground (arith, good, e, step) in
      let look = import_one-lookups libc k b s m v.0 a.0 x_ok in
      let a' : Absent x.1.variables t = Absent-step k _ s.variables x.1.variables t look u.0 a.1 in
      let ih = import-lookups libc t x.1 x.2 u.1 v.1 a' (ground (arith, good, e, step, x_ok)) j in
      ground (arith, e, step, x_ok, ih, look j, find-cons k j w t, bytes_eq_iff k j, d, u.0)
]

Absent-nil : (t : Table Variable) → Absent [] t
unfolding find
Absent-nil [] = tt
Absent-nil ((k, w) ∷ t) = (refl, Absent-nil t)

environment-entries :
    (s : State) (m : Memory) → (environment s m).0 ≡ ok → (environment s m).1 ≡ entries s.variables
unfolding environment
environment-entries s m h = elim (Option-cases (environment_loop s.variables (allocate m).1).0) [
  | inl n ↦ absurd (ground (arith, n))
  | inr (es, e) ↦ ground (arith, e, environment_loop-entries s.variables (allocate m).1 es e)
]

-- The environment of a shell whose variables have valid names, each once, if it could be made, is
-- imported into a shell with no variable. With memory enough the import succeeds; and whenever it
-- succeeds, each name then has the value that it had if it was exported and had one, as an exported
-- variable that is not readonly, and has no variable if not.
pub import-environment :
    (libc : Libc) (s t : State) (m m' : Memory)
    → NamesUnique s.variables
    → NamesValid s.variables
    → (environment s m).0 ≡ ok
    → t.variables ≡ []
    → (import_environment libc (environment s m).1 t m').0 ≡ ok
    → ((import_environment libc (environment s m).1 t []).0 ≡ ok)
      × ((j : Bytes)
          → find j (import_environment libc (environment s m).1 t m').1.variables
            ≡ handed_down (find j s.variables))
import-environment libc s t m m' u v h e good =
    let a : Absent t.variables s.variables = rw e (Absent-nil s.variables) in
    let same = environment-entries s m h in
    let fine : (import_environment libc (entries s.variables) t m').0 ≡ ok =
      subst (λ es. (import_environment libc es t m').0 ≡ ok) same good in
    (
      rw same (import-ok libc s.variables t u v a),
      λ j.
          let look = import-lookups libc s.variables t m' u v a fine j in
          ground (arith, same, look, find-nil {V = Variable} j, e),
    )
