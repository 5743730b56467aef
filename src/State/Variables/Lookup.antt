-- ===== src/State/Variables/Lookup.antt =====
-- What the operations on variables do to every lookup, under the name and under all others.
use cshell.Prelude.{
  Bool, true, false, not, ◌&&◌, ◌||◌, Option, none, some, ◌∷◌, ◌≡◌, refl, arith, if◌then◌else◌,
  Option-cases, Bool-cases, inl, inr,
}
use cshell.Prelude.Bytes.{Bytes, bytes_eq, bytes_eq_iff, bytes_eq_refl}
use cshell.Prelude.Memory.{Memory}
use cshell.Prelude.Table.{
  find, assign, find-cons, find-assign, find-remove, find-remove_ne, NamesUnique,
}
use cshell.State.{State, StateResult, ok, Variable, Mask, Libc, allexport, valid_name}
use cshell.State.Locale.{refresh_locale}
use cshell.State.Variables.{
  set_variable, assign_old, assign_new, after_assignment, unset_variable, update_attributes,
  mark_old, mark_new, assigned, marked, blank, path_changed, optind_changed, locale_changed,
  bad_masks,
}

abbrev pub was_exported : Option Variable → Bool
was_exported none = false
was_exported (some v) = v.exported

module _ (libc : Libc) where
  pub variables-after_assignment :
      (k : Bytes) (s : State) → (after_assignment libc k s).variables ≡ s.variables
  unfolding after_assignment locale_changed optind_changed path_changed refresh_locale
  variables-after_assignment k s = ground arith

  -- The variable that an assignment which succeeds leaves under its name: the value, exported under
  -- allexport or if it was, and not readonly, as a readonly one is refused.
  abbrev pub assigned_to : State → Bytes → Option Variable → Variable
  assigned_to s v old = record {
    value = some v;
    exported = s.info.options allexport || was_exported old;
    protected = false;
  }

  -- The lookup of `j` that a result of assigning `v` to `k` leaves.
  abbrev pub AssignedLookup : Bytes → Bytes → Bytes → State → StateResult × State × Memory → Type 0
  AssignedLookup k j v s r = find j r.1.variables ≡ (elim r.0 [
    | ok ↦ if bytes_eq k j then some (assigned_to s v (find k s.variables)) else find j s.variables
    | _ ↦ find j s.variables
  ])

  assign_old-AssignedLookup :
      (k j v : Bytes) (w : Variable) (s : State) (m : Memory)
      → find k s.variables ≡ some w
      → AssignedLookup k j v s (assign_old libc k v w s m)
  unfolding assign_old
  assign_old-AssignedLookup k j v w s m h =
      let stored = record s { variables = assign k (assigned s v w) s.variables } in
      ground
        (arith, variables-after_assignment k stored, find-assign k j (assigned s v w) s.variables)

  assign_new-AssignedLookup :
      (k j v : Bytes) (s : State) (m : Memory)
      → find k s.variables ≡ none
      → AssignedLookup k j v s (assign_new libc k v s m)
  unfolding assign_new
  assign_new-AssignedLookup k j v s m h =
      let stored = record s { variables = (k, assigned s v blank) ∷ s.variables } in
      ground
        (arith, variables-after_assignment k stored, find-cons k j (assigned s v blank) s.variables)

  -- Every variable after `csh_state_set_variable`: on success the named one has the new value, is
  -- exported if it was or if allexport is set, and is not readonly; no other has changed. On failure
  -- none has.
  pub find-set_variable :
      (k j v : Bytes) (s : State) (m : Memory) → AssignedLookup k j v s (set_variable libc k v s m)
  unfolding set_variable
  find-set_variable k j v s m = elim (Option-cases (find k s.variables)) [
    | inl h ↦ ground (arith, assign_new-AssignedLookup k j v s m h)
    | inr (w, h) ↦ ground (arith, assign_old-AssignedLookup k j v w s m h)
  ]

  pub set_variable_protected :
      (k v : Bytes) (w : Variable) (s : State) (m : Memory)
      → find k s.variables ≡ some w
      → w.protected ≡ true
      → (set_variable libc k v s m).1 ≡ s
  unfolding set_variable assign_old
  set_variable_protected k v w s m h p = ground (arith, h)

  pub unset_variable_protected :
      (k : Bytes) (w : Variable) (s : State)
      → find k s.variables ≡ some w
      → w.protected ≡ true
      → (unset_variable libc k s).1 ≡ s
  unfolding unset_variable
  unset_variable_protected k w s h p = ground (arith, h)

  pub find-unset_variable_ne :
      (k j : Bytes) (s : State)
      → bytes_eq k j ≡ false
      → find j (unset_variable libc k s).1.variables ≡ find j s.variables
  unfolding unset_variable locale_changed path_changed refresh_locale
  find-unset_variable_ne k j s n = ground (arith, find-remove_ne k j s.variables n)

  -- In a state with each name at most once, every variable after `csh_state_unset_variable`: on success the named one is gone with its
  -- attributes and no other has changed; on failure none has.
  pub find-unset_variable :
      (k j : Bytes) (s : State)
      → NamesUnique s.variables
      → find j (unset_variable libc k s).1.variables ≡ (elim (unset_variable libc k s).0 [
        | ok ↦ if bytes_eq k j then none else find j s.variables
        | _ ↦ find j s.variables
      ])
  unfolding unset_variable locale_changed path_changed refresh_locale
  find-unset_variable k j s u = ground (arith, find-remove k j s.variables u, bytes_eq_iff k j)

-- The variable that marking leaves under its name.
abbrev pub marked_to : Mask → Mask → Option Variable → Option Variable
marked_to set clear none =
    if set.export_bit || set.readonly_bit
    then some (record { value = none; exported = set.export_bit; protected = set.readonly_bit })
    else none
marked_to set clear (some old) = some (record {
  value = old.value;
  exported = if set.export_bit then true else if clear.export_bit then false else old.exported;
  protected = old.protected || set.readonly_bit;
})

marked-marked_to :
    (set clear : Mask) (w : Variable)
    → bad_masks set clear ≡ false
    → (w.protected && clear.readonly_bit) ≡ false
    → some (marked set clear w) ≡ marked_to set clear (some w)
unfolding bad_masks
marked-marked_to set clear w b p = ground arith

-- What marking makes of a name with no variable.
blank-marked_to :
    (set clear : Mask)
    → bad_masks set clear ≡ false
    → (if (marked set clear blank).exported || (marked set clear blank).protected
        then some (marked set clear blank)
        else none)
      ≡ marked_to set clear none
unfolding bad_masks
blank-marked_to set clear b = ground arith

-- Every variable after `csh_state_update_attributes`: on success the named one has the bits of
-- `set` and not those of `clear`, and its value; a name with no variable gets an unset one if a bit
-- is to be set; and no other has changed. On failure none has.
pub find-update_attributes :
    (k j : Bytes) (set clear : Mask) (s : State) (m : Memory)
    → find j (update_attributes k set clear s m).1.variables
      ≡ (elim (update_attributes k set clear s m).0 [
        | ok ↦ if bytes_eq k j then marked_to set clear (find k s.variables) else find j s.variables
        | _ ↦ find j s.variables
      ])
unfolding update_attributes mark_old mark_new
find-update_attributes k j set clear s m = elim (Bool-cases (bad_masks set clear)) [
  | inl b ↦ ground (arith, b)
  | inr b ↦ elim (Option-cases (find k s.variables)) [
    | inl h ↦ ground (
      arith,
      h,
      b,
      blank-marked_to set clear b,
      find-cons k j (marked set clear blank) s.variables,
      bytes_eq_iff k j,
    )
    | inr (w, h) ↦ ground (
      arith,
      h,
      b,
      marked-marked_to set clear w b,
      find-assign k j (marked set clear w) s.variables,
    )
  ]
]

-- Marking a readonly variable leaves it readonly, with its value.
pub update_attributes_protected :
    (k : Bytes) (set clear : Mask) (w : Variable) (s : State) (m : Memory)
    → find k s.variables ≡ some w
    → w.protected ≡ true
    → (x : Variable) × (find k (update_attributes k set clear s m).1.variables ≡ some x)
      × (x.value ≡ w.value)
      × (x.protected ≡ true)
unfolding update_attributes mark_old mark_new
update_attributes_protected k set clear w s m h p =
    elim (Bool-cases (not (valid_name k) || bad_masks set clear || clear.readonly_bit)) [
      | inl b ↦ (w, ground (arith, h), refl, p)
      | inr b ↦ (
        marked set clear w,
        ground (arith, h, find-assign k k (marked set clear w) s.variables, bytes_eq_refl k),
        refl,
        ground arith,
      )
    ]
