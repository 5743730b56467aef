-- ===== src/State/Mutations/Protected.antt =====
-- A readonly variable keeps its value, and stays readonly, whatever mutations follow.
use cshell.Prelude.{true, Option, some, List, [], ◌∷◌, ◌≡◌, refl, ◌∙◌, arith, Bool-cases, inl, inr}
use cshell.Prelude.Bytes.{Bytes, bytes_eq, bytes_eq→eq}
use cshell.Prelude.Memory.{Memory}
use cshell.Prelude.Table.{find}
use cshell.State.{State, Variable, Mask, Libc}
use cshell.State.Functions.{set_function, remove_function}
use cshell.State.Hashes.{hash_clear, hash_set, state_aliases}
use cshell.State.Locale.{manage_locale, refresh_locale}
use cshell.State.Parameters.{
  set_parameters, set_status, set_background, update_options, set_errexit_ignored,
  set_function_depth, set_source_depth,
}
use cshell.State.Variables.{set_variable, unset_variable, update_attributes}
use cshell.State.Variables.Lookup.{
  find-set_variable, find-update_attributes, set_variable_protected, unset_variable_protected,
  find-unset_variable_ne, update_attributes_protected,
}
use cshell.State.Mutations.{
  Mutation, set_var, mark_var, unset_var, set_params, set_stat, set_bg, set_opts, set_errexit,
  set_fdepth, set_sdepth, set_getopts, clear_hashes, set_hash, set_fun, drop_fun, make_aliases,
  follow_locale, apply, run,
}

-- The state has a readonly variable of this name and value.
pub record IsProtected (k : Bytes) (value : Option Bytes) (s : State) : Type 0 where
  pub variable : Variable
  pub found : find k s.variables ≡ some variable
  pub same_value : variable.value ≡ value
  pub is_readonly : variable.protected ≡ true

module _ {k : Bytes} {value : Option Bytes} where
  IsProtected-same :
      {s t : State}
      → find k t.variables ≡ find k s.variables
      → IsProtected k value s
      → IsProtected k value t
  IsProtected-same e p = record {
    variable = p.variable;
    found = e ∙ p.found;
    same_value = p.same_value;
    is_readonly = p.is_readonly;
  }

module _ (libc : Libc) (k : Bytes) (value : Option Bytes) where
  set_variable-IsProtected :
      (j v : Bytes) (m : Memory) (s : State)
      → IsProtected k value s
      → IsProtected k value (set_variable libc j v s m).1
  set_variable-IsProtected j v m s p = elim (Bool-cases (bytes_eq j k)) [
    | inl e ↦
        let e' = bytes_eq→eq j k e in
        rw (e', set_variable_protected libc k v p.variable s m p.found p.is_readonly) p
    | inr n ↦ IsProtected-same {s = s} (ground (arith, find-set_variable libc j k v s m)) p
  ]

  unset_variable-IsProtected :
      (j : Bytes) (s : State)
      → IsProtected k value s
      → IsProtected k value (unset_variable libc j s).1
  unset_variable-IsProtected j s p = elim (Bool-cases (bytes_eq j k)) [
    | inl e ↦
        let e' = bytes_eq→eq j k e in
        rw (e', unset_variable_protected libc k p.variable s p.found p.is_readonly) p
    | inr n ↦ IsProtected-same {s = s} (find-unset_variable_ne libc j k s n) p
  ]

  update_attributes-IsProtected :
      (j : Bytes) (set clear : Mask) (m : Memory) (s : State)
      → IsProtected k value s
      → IsProtected k value (update_attributes j set clear s m).1
  update_attributes-IsProtected j set clear m s p = elim (Bool-cases (bytes_eq j k)) [
    | inl e ↦
        let (x, found, same, prot) =
          update_attributes_protected k set clear p.variable s m p.found p.is_readonly in
        rw (bytes_eq→eq j k e) (record {
          variable = x;
          found = found;
          same_value = same ∙ p.same_value;
          is_readonly = prot;
        })
    | inr n ↦ IsProtected-same {s = s} (ground (arith, find-update_attributes j k set clear s m)) p
  ]

  apply-IsProtected :
      (a : Mutation) (s : State) → IsProtected k value s → IsProtected k value (apply libc a s)
  unfolding apply
  apply-IsProtected (set_var j v m) s p = set_variable-IsProtected j v m s p
  apply-IsProtected (mark_var j set clear m) s p = update_attributes-IsProtected j set clear m s p
  apply-IsProtected (unset_var j) s p = unset_variable-IsProtected j s p
  apply-IsProtected (set_params args m) s p =
      IsProtected-same {s = s} (unfold set_parameters in ground arith) p
  apply-IsProtected (set_stat z) s p =
      IsProtected-same {s = s} (unfold set_status in ground arith) p
  apply-IsProtected (set_bg z) s p =
      IsProtected-same {s = s} (unfold set_background in ground arith) p
  apply-IsProtected (set_opts a b) s p =
      IsProtected-same {s = s} (unfold update_options in ground arith) p
  apply-IsProtected (set_errexit n) s p =
      IsProtected-same {s = s} (unfold set_errexit_ignored in refl) p
  apply-IsProtected (set_fdepth n) s p =
      IsProtected-same {s = s} (unfold set_function_depth in refl) p
  apply-IsProtected (set_sdepth n) s p =
      IsProtected-same {s = s} (unfold set_source_depth in refl) p
  apply-IsProtected (set_getopts n) s p = IsProtected-same {s = s} refl p
  apply-IsProtected clear_hashes s p = IsProtected-same {s = s} (unfold hash_clear in refl) p
  apply-IsProtected (set_hash j q m) s p =
      IsProtected-same {s = s} (unfold hash_set in ground arith) p
  apply-IsProtected (set_fun j q h m) s p =
      IsProtected-same {s = s} (unfold set_function in ground arith) p
  apply-IsProtected (drop_fun j h) s p =
      IsProtected-same {s = s} (unfold remove_function in ground arith) p
  apply-IsProtected (make_aliases m) s p =
      IsProtected-same {s = s} (unfold state_aliases in ground arith) p
  apply-IsProtected follow_locale s p =
      IsProtected-same {s = s} (unfold manage_locale refresh_locale in refl) p

  -- A readonly variable keeps its value, and stays readonly, through every sequence of mutations.
  -- (Restoring saved variables and checkpoints is no such mutation: it puts old variables back.)
  pub run-IsProtected :
      (as' : List Mutation) (s : State)
      → IsProtected k value s
      → IsProtected k value (run libc as' s)
  unfolding run
  run-IsProtected [] s p = p
  run-IsProtected (a ∷ rest) s p = run-IsProtected rest (apply libc a s) (apply-IsProtected a s p)
