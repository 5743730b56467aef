-- ===== src/State/Saves/Rollback.antt =====
-- Restoring saved variables puts each of them back, and leaves every other variable alone.
use cshell.Prelude.{
  Bool, true, false, Option, none, some, List, [], ◌∷◌, ◌≡◌, refl, arith, if◌then◌else◌, Bool-cases,
  Option-cases, inl, inr,
}
use cshell.Prelude.Bytes.{Bytes, bytes_eq, bytes_eq_iff}
use cshell.Prelude.Memory.{Memory, allocations}
use cshell.Prelude.Table.{
  Table, find, remove, NamesUnique, find-nil, find-cons, find-remove, remove-NamesUnique,
}
use cshell.State.{State, ok, Variable, Libc}
use cshell.State.Locale.{refresh_locale}
use cshell.State.Variables.{path_changed}
use cshell.State.Saves.{
  Saved, all_valid, save_cost, save_loop, save_variables, restore_one, restore_loop,
  restore_variables,
}

abbrev pub member : Bytes → List Bytes → Bool
member j [] = false
member j (n ∷ names) = if bytes_eq n j then true else member j names

-- What is saved under a name after the loop.
abbrev saved_as : Bytes → Table Variable → List Bytes → Saved → Option (Option Variable)
saved_as j vars names out = elim (find j out) [
  | some original ↦ some original
  | none ↦ if member j names then some (find j vars) else none
]

find-save_loop :
    (j : Bytes) (vars : Table Variable) (names : List Bytes) (out : Saved) (m : Memory)
    → (save_loop vars names out m).0 ≡ ok
    → find j (save_loop vars names out m).1 ≡ saved_as j vars names out
unfolding save_loop
find-save_loop j vars [] out m h = ground arith
find-save_loop j vars (n ∷ names) out m h = elim (Option-cases (find n out)) [
  | inr (o, e) ↦ ground (arith, e, find-save_loop j vars names out m, bytes_eq_iff n j)
  | inl e ↦
      let grown = (n, find n vars) ∷ out in
      let left = (allocations (save_cost (find n vars)) m).1 in
      ground (
        arith,
        e,
        find-save_loop j vars names grown left,
        find-cons n j (find n vars) out,
        bytes_eq_iff n j,
      )
]

save_loop-NamesUnique :
    (vars : Table Variable) (names : List Bytes) (out : Saved) (m : Memory)
    → NamesUnique out
    → NamesUnique (save_loop vars names out m).1
unfolding save_loop
save_loop-NamesUnique vars [] out m u = u
save_loop-NamesUnique vars (n ∷ names) out m u = elim (Option-cases (find n out)) [
  | inr (o, e) ↦ ground (arith, e, save_loop-NamesUnique vars names out m u)
  | inl e ↦
      let grown = (n, find n vars) ∷ out in
      let left = (allocations (save_cost (find n vars)) m).1 in
      ground (arith, e, save_loop-NamesUnique vars names grown left (e, u))
]

-- One saved variable put back.
abbrev pub put_back : Bytes → Option Variable → Table Variable → Table Variable
put_back n original vars = elim original [ none ↦ remove n vars | some v ↦ (n, v) ∷ remove n vars ]

variables-restore_one :
    (n : Bytes) (original : Option Variable) (s : State)
    → (restore_one n original s).variables ≡ put_back n original s.variables
unfolding restore_one path_changed
variables-restore_one n original s = ground arith

find-put_back :
    (n j : Bytes) (original : Option Variable) (vars : Table Variable)
    → NamesUnique vars
    → find j (put_back n original vars) ≡ (if bytes_eq n j then original else find j vars)
find-put_back n j none vars u = find-remove n j vars u
find-put_back n j (some v) vars u =
    ground (arith, find-cons n j v (remove n vars), find-remove n j vars u)

pub put_back-NamesUnique :
    (n : Bytes) (original : Option Variable) (vars : Table Variable)
    → NamesUnique vars
    → NamesUnique (put_back n original vars)
put_back-NamesUnique n none vars u = remove-NamesUnique n vars u
put_back-NamesUnique n (some v) vars u =
    (ground (arith, find-remove n n vars u, bytes_eq_iff n n), remove-NamesUnique n vars u)

find-restore_loop :
    (j : Bytes) (save : Saved) (s : State)
    → NamesUnique save
    → NamesUnique s.variables
    → find j (restore_loop save s).variables
      ≡ (elim (find j save) [ none ↦ find j s.variables | some original ↦ original ])
unfolding restore_loop
find-restore_loop j [] s u v = unfold find in refl
find-restore_loop j ((n, original) ∷ rest) s u v =
    let e = variables-restore_one n original s in
    let v' : NamesUnique (restore_one n original s).variables =
      rw e (put_back-NamesUnique n original s.variables v) in
    ground (
      arith,
      find-restore_loop j rest (restore_one n original s) u.1 v',
      find-put_back n j original s.variables v,
      find-cons n j original rest,
      bytes_eq_iff n j,
      e,
    )

variables-restore_variables :
    (libc : Libc) (save : Saved) (s : State)
    → (restore_variables libc save s).variables ≡ (restore_loop save s).variables
unfolding restore_variables refresh_locale
variables-restore_variables libc save s = ground arith

-- Variables of `s` are saved with success, whatever happens then leads to a state `t` that has each
-- name at most once, and the save is restored:
-- each saved name has in the end the variable it had in `s`, value, attributes and absence
-- included, and every other name has the one it has in `t`.
pub restore-save :
    (libc : Libc) (s t : State) (names : List Bytes) (m : Memory) (j : Bytes)
    → (save_variables s names m).0 ≡ ok
    → NamesUnique t.variables
    → find j (restore_variables libc (save_variables s names m).1 t).variables
      ≡ (if member j names then find j s.variables else find j t.variables)
unfolding save_variables
restore-save libc s t names m j h u = elim (Bool-cases (all_valid names)) [
  | inr bad ↦ absurd (ground arith)
  | inl good ↦
      let out = (save_loop s.variables names [] m).1 in
      let k = save_loop-NamesUnique s.variables names [] m tt in
      ground (
        arith,
        good,
        variables-restore_variables libc out t,
        find-restore_loop j out t k u,
        find-save_loop j s.variables names [] m,
        find-nil {V = Option Variable} j,
      )
]
