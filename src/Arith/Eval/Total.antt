-- ===== src/Arith/Eval/Total.antt =====
-- The interface's functions answer: the fuel they start with is enough.
use cshell.Prelude.{ℕ, ◌<◌, Bool, true, false, Option, none, some, [], arith, if◌then◌else◌}
use cshell.Prelude.Bytes.{Bytes}
use cshell.Prelude.Lists.{length}
use cshell.Prelude.Int.{ℤ}
use cshell.Prelude.Memory.{Memory, allocate}
use cshell.State.{State, Libc}
use cshell.State.Functions.{Payloads}
use cshell.State.Snapshot.{save}
use cshell.Arith.{Parser, plain}
use cshell.Arith.Operation.{zero_ℤ}
use cshell.Arith.Expression.{Run}
use cshell.Arith.Values.{is_end}
use cshell.Arith.Expression.Total.{Returns, expression-Returns}
use cshell.Arith.Lexer.{next_token}
use cshell.Arith.Lexer.Progress.{measure, measure-next_token-le}
use cshell.Arith.Eval.{
  run, eval, evaluate_from, probe, probe_prefix, finish_read, check_end, start_parser, fuel_for,
}

-- The call gives a result.
abbrev pub Answers {ℓ} : {A : Type ℓ} → Option A → Type 0
Answers none = ⊥
Answers (some a) = Unit

Answers-if {ℓ} :
    {A : Type ℓ}
    → (b : Bool) (x y : Option A) → Answers x
    → Answers y
    → Answers (if b then x else y)
Answers-if true x y h k = h
Answers-if false x y h k = k

abbrev pub finished : Bool → Run → Option (Option ℤ × Parser)
finished execute r = elim r [
  | none ↦ none
  | some (v, q) ↦ some (finish_read execute v (check_end q))
]

finished-Answers : (n : ℕ) (execute : Bool) (r : Run) → Returns n r → Answers (finished execute r)
finished-Answers n execute none h = absurd h
finished-Answers n execute (some (v, q)) h = tt

Returns-if :
    (n : ℕ) (b : Bool) (x y : Run) → Returns n x → Returns n y → Returns n (if b then x else y)
Returns-if n true x y h k = h
Returns-if n false x y h k = k

module _ (libc : Libc) (stack : ℕ → Bool) where
  -- `run` answers when it has more fuel than there are bytes.
  pub run-Answers :
      (fuel : ℕ) (execute : Bool) (p : Parser)
      → length p.next < fuel
      → Answers (run libc stack fuel execute p)
  unfolding run
  run-Answers fuel execute p h =
      let q = next_token p in
      finished-Answers (measure q) execute _ (
        Returns-if (measure q) (is_end q.token) (some (plain zero_ℤ, q)) _ (omega arith) (
          expression-Returns libc stack fuel 0 1 execute q (omega arith)
            (omega (arith, measure-next_token-le p, h))))

  after-Answers {ℓ₁ ℓ₂} :
      {A : Type ℓ₁} {B : Type ℓ₂}
      → (r : Option A) (f : A → B) → Answers r
      → Answers (elim r [ none ↦ none | some a ↦ some (f a) ])
  after-Answers none f h = absurd h
  after-Answers (some a) f h = tt

  evaluate_from-Answers :
      (text : Bytes) (s : State) (saved : Option State) (h : Payloads) (m : Memory)
      → Answers (evaluate_from libc stack text s saved h m)
  unfolding evaluate_from
  evaluate_from-Answers text s none h m = tt
  evaluate_from-Answers text s (some saved) h m =
      after-Answers _ _
        (run-Answers (fuel_for text) true (start_parser text s s.info.options m) (omega arith))

  -- `csh_arith_eval` answers, for every text, state and outcome of the allocations.
  pub eval-Answers :
      (text : Bytes) (s : State) (h : Payloads) (m : Memory) → Answers (eval libc stack text s h m)
  unfolding eval
  eval-Answers text s h m =
      let left = (allocate m).1 in
      let (r, saved, h', left') = save s h left in
      Answers-if (allocate m).0 _ _ (evaluate_from-Answers text s saved h' left') tt

  -- `csh_arith_probe` and `csh_arith_probe_prefix` answer, for every text.
  pub probe-Answers :
      (s : State) (text : Bytes)
      → Answers (probe libc stack s text) × Answers (probe_prefix libc stack s text)
  unfolding probe probe_prefix
  probe-Answers s text =
      let r =
        run-Answers (fuel_for text) false (start_parser text s (λ o. false) []) (omega arith) in
      (after-Answers _ _ r, after-Answers _ _ r)
