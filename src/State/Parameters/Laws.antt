-- ===== src/State/Parameters/Laws.antt =====
-- Positional parameters after they are set, pushed and popped; the option bits.
use cshell.Prelude.{
  ℕ, zero, suc, Bool, true, false, Option, none, some, List, ◌≡◌, refl, arith, ltb, leb, Bool-cases,
  inl, inr,
}
use cshell.Prelude.Bytes.{Bytes}
use cshell.Prelude.Lists.{length, get_elem?-IsSome}
use cshell.Prelude.Memory.{Memory}
use cshell.State.{State, ok}
use cshell.State.Parameters.{push_parameters, pop_parameters, parameter, ParameterSave}
use cshell.State.Variables.Tables.{IsState}

abbrev pub present {ℓ} : {A : Type ℓ} → Option A → Bool
present none = false
present (some a) = true

present_of {ℓ} : {A : Type ℓ} (o : Option A) (a : A) → o ≡ some a → present o ≡ true
present_of o a e = rw e

-- `csh_state_parameter` of a well-formed state never reads outside the array: it gives a string at
-- every index from 0 to `$#`, and NULL at exactly the others.
pub parameter_bounds :
    (s : State) (i : ℕ) → IsState s → present (parameter s i) ≡ leb i s.info.argument_count
unfolding parameter
parameter_bounds s zero v = ground arith
parameter_bounds s (suc i) v = elim (Bool-cases (ltb s.info.argument_count (suc i))) [
  | inl e ↦ ground arith
  | inr e ↦
      let (a, found) = get_elem?-IsSome s.arguments i (ground (arith, v.arguments_counted)) in
      ground (arith, found)
]

-- A push that succeeds shows the new arguments and leaves `$0`; the pop that follows it brings the
-- old state back, whatever the function in between did to the parameters.
pub pop-push_parameters :
    (args other : List Bytes) (n : ℕ) (s : State) (m : Memory)
    → (push_parameters args s m).0 ≡ ok
    → (save : ParameterSave) × ((push_parameters args s m).1 ≡ some save)
      × (parameter (push_parameters args s m).2 0 ≡ some s.arg0)
      × ((push_parameters args s m).2.arguments ≡ args)
      × ((push_parameters args s m).2.info.argument_count ≡ length args)
      × (pop_parameters save (push_parameters args s m).2 ≡ s)
      × (pop_parameters save
            (record s { arguments = other; info = record (s.info) { argument_count = n } })
          ≡ s)
unfolding push_parameters pop_parameters parameter
pop-push_parameters args other n s m h = (
  record { arguments = s.arguments; count = s.info.argument_count },
  ground arith,
  ground arith,
  ground arith,
  ground arith,
  ground arith,
  refl,
)
