-- ===== src/State/Mutations/Locale.antt =====
-- Every mutation leaves the locale of the process in step with the variables.
use cshell.Prelude.{
  true, false, none, some, ◌∷◌, ◌≡◌, refl, ◌∙◌, ap, arith, Bool-cases, Option-cases, inl, inr,
}
use cshell.Prelude.Bytes.{Bytes, bytes_eq, bytes_eq_iff, codes}
use cshell.Prelude.Memory.{Memory}
use cshell.Prelude.Table.{Table, find, assign, remove, find-cons, find-assign, find-remove_ne}
use cshell.State.{State, Variable, Mask, Libc}
use cshell.State.Functions.{set_function, remove_function}
use cshell.State.Hashes.{hash_clear, hash_set, state_aliases}
use cshell.State.Locale.{locale_variable, locale_value, non_empty, manage_locale}
use cshell.State.Locale.Fresh.{IsFresh, IsFresh-same, refresh_locale-IsFresh, locale_variable-ne}
use cshell.State.Parameters.{
  set_parameters, set_status, set_background, update_options, set_errexit_ignored,
  set_function_depth, set_source_depth,
}
use cshell.State.Variables.{
  set_variable, assign_old, assign_new, after_assignment, locale_changed, optind_changed,
  path_changed, unset_variable, update_attributes, mark_old, mark_new, assigned, marked, blank,
}
use cshell.State.Mutations.{
  Mutation, set_var, mark_var, unset_var, set_params, set_stat, set_bg, set_opts, set_errexit,
  set_fdepth, set_sdepth, set_getopts, clear_hashes, set_hash, set_fun, drop_fun, make_aliases,
  follow_locale, apply,
}

locale_value-find :
    (vars vars' : Table Variable) (j : Bytes)
    → find j vars' ≡ find j vars
    → locale_value vars' j ≡ locale_value vars j
unfolding locale_value
locale_value-find vars vars' j e = rw e

module _ (libc : Libc) where
  -- A change of the variables that leaves the locale variables alone.
  pub IsFresh-variables :
      (vars : Table Variable) (s : State)
      → ((j : Bytes) → locale_variable j ≡ true → find j vars ≡ find j s.variables)
      → IsFresh libc s
      → IsFresh libc (record s { variables = vars })
  IsFresh-variables vars s h f =
      IsFresh-same libc {s = s} refl refl (λ j l. locale_value-find s.variables vars j (h j l)) f

  locale_changed-IsFresh :
      (k : Bytes) (s : State)
      → (locale_variable k ≡ false → IsFresh libc s)
      → IsFresh libc (locale_changed libc k s)
  unfolding locale_changed
  locale_changed-IsFresh k s h = elim (Bool-cases (locale_variable k)) [
    | inl e ↦ rw e (refresh_locale-IsFresh libc s)
    | inr e ↦ rw e (h e)
  ]

  pub path_changed-IsFresh :
      (k : Bytes) (s : State) → IsFresh libc s → IsFresh libc (path_changed k s)
  unfolding path_changed
  path_changed-IsFresh k s f = elim (Bool-cases (bytes_eq k (codes "PATH"))) [
    | inl e ↦ rw e (IsFresh-same libc {s = s} refl refl (λ j l. refl) f)
    | inr e ↦ rw e f
  ]

  optind_changed-IsFresh :
      (k : Bytes) (s : State) → IsFresh libc s → IsFresh libc (optind_changed k s)
  unfolding optind_changed
  optind_changed-IsFresh k s f = elim (Bool-cases (bytes_eq k (codes "OPTIND"))) [
    | inl e ↦ rw e (IsFresh-same libc {s = s} refl refl (λ j l. refl) f)
    | inr e ↦ rw e f
  ]

  after_assignment-IsFresh :
      (k : Bytes) (s : State)
      → (locale_variable k ≡ false → IsFresh libc s)
      → IsFresh libc (after_assignment libc k s)
  unfolding after_assignment
  after_assignment-IsFresh k s h =
      locale_changed-IsFresh k _ (λ e. optind_changed-IsFresh k _ (path_changed-IsFresh k s (h e)))

  assigned-IsFresh :
      (k : Bytes) (v : Variable) (s : State)
      → IsFresh libc s
      → locale_variable k ≡ false
      → IsFresh libc (record s { variables = assign k v s.variables })
  assigned-IsFresh k v s f e =
      IsFresh-variables (assign k v s.variables) s
        (λ j l. find-assign k j v s.variables ∙ rw (locale_variable-ne k j e l)) f

  linked-IsFresh :
      (k : Bytes) (v : Variable) (s : State)
      → IsFresh libc s
      → locale_variable k ≡ false
      → IsFresh libc (record s { variables = (k, v) ∷ s.variables })
  linked-IsFresh k v s f e =
      IsFresh-variables ((k, v) ∷ s.variables) s
        (λ j l. find-cons k j v s.variables ∙ rw (locale_variable-ne k j e l)) f

  removed-IsFresh :
      (k : Bytes) (s : State)
      → IsFresh libc s
      → locale_variable k ≡ false
      → IsFresh libc (record s { variables = remove k s.variables })
  removed-IsFresh k s f e =
      IsFresh-variables (remove k s.variables) s
        (λ j l. find-remove_ne k j s.variables (locale_variable-ne k j e l)) f

  assign_old-IsFresh :
      (k v : Bytes) (w : Variable) (s : State) (m : Memory)
      → IsFresh libc s
      → IsFresh libc (assign_old libc k v w s m).1
  unfolding assign_old
  assign_old-IsFresh k v w s m f =
      ground (arith, after_assignment-IsFresh k _ (assigned-IsFresh k (assigned s v w) s f))

  assign_new-IsFresh :
      (k v : Bytes) (s : State) (m : Memory)
      → IsFresh libc s
      → IsFresh libc (assign_new libc k v s m).1
  unfolding assign_new
  assign_new-IsFresh k v s m f =
      ground (arith, after_assignment-IsFresh k _ (linked-IsFresh k (assigned s v blank) s f))

  set_variable-IsFresh :
      (k v : Bytes) (s : State) (m : Memory)
      → IsFresh libc s
      → IsFresh libc (set_variable libc k v s m).1
  unfolding set_variable
  set_variable-IsFresh k v s m f = elim (Option-cases (find k s.variables)) [
    | inl h ↦ ground (arith, h, assign_new-IsFresh k v s m f)
    | inr (w, h) ↦ ground (arith, h, assign_old-IsFresh k v w s m f)
  ]

  unset_variable-IsFresh :
      (k : Bytes) (s : State) → IsFresh libc s → IsFresh libc (unset_variable libc k s).1
  unfolding unset_variable
  unset_variable-IsFresh k s f =
      let kept =
        locale_changed-IsFresh k _ (λ e. path_changed-IsFresh k _ (removed-IsFresh k s f e)) in
      ground (arith, kept)

-- Marking a variable changes no value.
locale_value-marked :
    (k j : Bytes) (set clear : Mask) (w : Variable) (vars : Table Variable)
    → find k vars ≡ some w
    → locale_value (assign k (marked set clear w) vars) j ≡ locale_value vars j
unfolding locale_value non_empty
locale_value-marked k j set clear w vars h =
    ground (arith, find-assign k j (marked set clear w) vars, bytes_eq_iff k j)

locale_value-marked_new :
    (k j : Bytes) (set clear : Mask) (vars : Table Variable)
    → find k vars ≡ none
    → locale_value ((k, marked set clear blank) ∷ vars) j ≡ locale_value vars j
unfolding locale_value non_empty
locale_value-marked_new k j set clear vars h =
    ground (arith, find-cons k j (marked set clear blank) vars, bytes_eq_iff k j)

update_attributes-IsFresh :
    (libc : Libc) (k : Bytes) (set clear : Mask) (s : State) (m : Memory)
    → IsFresh libc s
    → IsFresh libc (update_attributes k set clear s m).1
unfolding update_attributes mark_old mark_new
update_attributes-IsFresh libc k set clear s m f = elim (Option-cases (find k s.variables)) [
  | inl h ↦
      let new = (k, marked set clear blank) ∷ s.variables in
      let kept : IsFresh libc (record s { variables = new }) =
        IsFresh-same libc {s = s} refl refl
          (λ j l. locale_value-marked_new k j set clear s.variables h) f in
      ground (arith, h, kept)
  | inr (w, h) ↦
      let new = assign k (marked set clear w) s.variables in
      let kept : IsFresh libc (record s { variables = new }) =
        IsFresh-same libc {s = s} refl refl
          (λ j l. locale_value-marked k j set clear w s.variables h) f in
      ground (arith, h, kept)
]

module _ (libc : Libc) where
  pub unchanged-IsFresh :
      (s t : State)
      → t.manages_locale ≡ s.manages_locale
      → t.locale ≡ s.locale
      → t.variables ≡ s.variables
      → IsFresh libc s
      → IsFresh libc t
  unchanged-IsFresh s t m l v f =
      IsFresh-same libc {s = s} m l (λ j h. ap (λ x. locale_value x j) v) f

  pub apply-IsFresh : (a : Mutation) (s : State) → IsFresh libc s → IsFresh libc (apply libc a s)
  unfolding apply
  apply-IsFresh (set_var k v m) s f = set_variable-IsFresh libc k v s m f
  apply-IsFresh (mark_var k set clear m) s f = update_attributes-IsFresh libc k set clear s m f
  apply-IsFresh (unset_var k) s f = unset_variable-IsFresh libc k s f
  apply-IsFresh (set_params args m) s f =
      unfold set_parameters in unchanged-IsFresh s _ (ground arith) (ground arith) (ground arith) f
  apply-IsFresh (set_stat z) s f =
      unfold set_status in unchanged-IsFresh s _ (ground arith) (ground arith) (ground arith) f
  apply-IsFresh (set_bg z) s f =
      unfold set_background in unchanged-IsFresh s _ (ground arith) (ground arith) (ground arith) f
  apply-IsFresh (set_opts a b) s f =
      unfold update_options in unchanged-IsFresh s _ (ground arith) (ground arith) (ground arith) f
  apply-IsFresh (set_errexit n) s f =
      unfold set_errexit_ignored in unchanged-IsFresh s _ refl refl refl f
  apply-IsFresh (set_fdepth n) s f =
      unfold set_function_depth in unchanged-IsFresh s _ refl refl refl f
  apply-IsFresh (set_sdepth n) s f =
      unfold set_source_depth in unchanged-IsFresh s _ refl refl refl f
  apply-IsFresh (set_getopts n) s f = unchanged-IsFresh s _ refl refl refl f
  apply-IsFresh clear_hashes s f = unfold hash_clear in unchanged-IsFresh s _ refl refl refl f
  apply-IsFresh (set_hash k p m) s f =
      unfold hash_set in unchanged-IsFresh s _ (ground arith) (ground arith) (ground arith) f
  apply-IsFresh (set_fun k p h m) s f =
      unfold set_function in unchanged-IsFresh s _ (ground arith) (ground arith) (ground arith) f
  apply-IsFresh (drop_fun k h) s f =
      unfold remove_function in unchanged-IsFresh s _ (ground arith) (ground arith) (ground arith) f
  apply-IsFresh (make_aliases m) s f =
      unfold state_aliases in unchanged-IsFresh s _ (ground arith) (ground arith) (ground arith) f
  apply-IsFresh follow_locale s f = unfold manage_locale in refresh_locale-IsFresh libc _
