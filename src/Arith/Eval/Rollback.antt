-- ===== src/Arith/Eval/Rollback.antt =====
-- `csh_arith_eval` is all or nothing.
use cshell.Prelude.{
  ◌⊎◌, subst, ℕ, Bool, true, false, Option, none, some, ◌≡◌, refl, sym, ap, ◌∙◌, arith,
  if◌then◌else◌, Bool-cases, Option-cases, inl, inr,
}
use cshell.Prelude.Bytes.{Bytes}
use cshell.Prelude.Int.{ℤ}
use cshell.Prelude.Memory.{Memory, allocate}
use cshell.State.{State, Libc}
use cshell.State.Functions.{Payloads}
use cshell.State.Locale.Fresh.{IsFresh}
use cshell.State.Snapshot.{save}
use cshell.State.Snapshot.Identity.{restore-eq}
use cshell.State.Snapshot.Scarce.{IsKept, save-IsKept}
use cshell.State.Variables.Tables.{IsState}
use cshell.Arith.{Parser, Value}
use cshell.Arith.Expression.{Run}
use cshell.Arith.Values.{is_ok}
use cshell.Arith.Eval.Total.{Answers, finished, run-Answers}
use cshell.Arith.Eval.{
  Evaluated, run, eval, evaluate_from, settle, finish_read, check_end, start_parser, fuel_for,
}

abbrev written {ℓ} : {A : Type ℓ} → Option A → Bool
written none = false
written (some a) = true

finish_read-written :
    (execute : Bool) (v : Value) (p : Parser)
    → written (finish_read execute v p).0 ≡ is_ok (finish_read execute v p).1.error
unfolding finish_read
finish_read-written execute v p = ground arith

finished-written :
    (execute : Bool) (r : Run) (out : Option ℤ) (q : Parser)
    → finished execute r ≡ some (out, q)
    → written out ≡ is_ok q.error
finished-written execute none out q h = cc
finished-written execute (some (v, p)) out q h =
    ground (arith, h, finish_read-written execute v (check_end p))

no_answer {ℓ} : {A : Type ℓ} {o : Option A} → o ≡ none → Answers o → ⊥
no_answer e a = subst (λ x. Answers x) e a

run-written :
    (libc : Libc) (stack : ℕ → Bool) (fuel : ℕ) (execute : Bool) (p q : Parser) (out : Option ℤ)
    → run libc stack fuel execute p ≡ some (out, q)
    → written out ≡ is_ok q.error
unfolding run
run-written libc stack fuel execute p q out h = finished-written execute _ out q h

-- `*out` is written when the result is ok, and when it is not the state is the one before.
abbrev pub AllOrNothing : State → Evaluated → Type 0
AllOrNothing s e = (written e.out ≡ is_ok e.result) × ((is_ok e.result ≡ true) ⊎ (e.state ≡ s))

-- The call answers, with such a result.
abbrev pub AnswersAllOrNothing : State → Option Evaluated → Type 0
AnswersAllOrNothing s none = ⊥
AnswersAllOrNothing s (some e) = AllOrNothing s e

settle-AllOrNothing :
    (libc : Libc) (s : State) (h : Payloads) (out : Option ℤ) (p : Parser)
    → IsFresh libc s
    → s.manages_locale ≡ true
    → written out ≡ is_ok p.error
    → AllOrNothing s (settle libc s h out p)
unfolding settle
settle-AllOrNothing libc s h out p fresh managed w = elim (Bool-cases (is_ok p.error)) [
  | inl e ↦ rw (e, AllOrNothing) (w, inl e)
  | inr e ↦
      rw (e, AllOrNothing)
        (
          w,
          inr (
              restore-eq libc s p.state h fresh
              ∙ ap (λ b. record s { locale = if b then s.locale else p.state.locale }) managed),
        )
]

module _ (libc : Libc) (stack : ℕ → Bool) where
  evaluate_from-AllOrNothing :
      (text : Bytes) (s : State) (h : Payloads) (m : Memory)
      → IsFresh libc s
      → s.manages_locale ≡ true
      → AnswersAllOrNothing s (evaluate_from libc stack text s (some s) h m)
  unfolding evaluate_from
  evaluate_from-AllOrNothing text s h m fresh managed =
      let p = start_parser text s s.info.options m in
      elim (Option-cases (run libc stack (fuel_for text) true p)) [
        | inl e ↦ absurd (no_answer e (run-Answers libc stack (fuel_for text) true p (omega arith)))
        | inr ((out, q), e) ↦
            rw (e, AnswersAllOrNothing)
              (settle-AllOrNothing libc s h out q fresh managed
                (run-written libc stack (fuel_for text) true p q out e))
      ]

  from_checkpoint-AllOrNothing :
      (text : Bytes) (s : State) (o : Option State) (h : Payloads) (m : Memory)
      → IsKept s o
      → IsFresh libc s
      → s.manages_locale ≡ true
      → AnswersAllOrNothing s (evaluate_from libc stack text s o h m)
  from_checkpoint-AllOrNothing text s none h m k fresh managed =
      unfold evaluate_from is_ok in (refl, inr refl)
  from_checkpoint-AllOrNothing text s (some c) h m k fresh managed =
      subst (λ z. AnswersAllOrNothing s (evaluate_from libc stack text s (some z) h m)) (sym k)
        (evaluate_from-AllOrNothing text s h m fresh managed)

  -- `csh_arith_eval` on a well-formed state whose locale is managed and in step, whatever the
  -- allocations answer, its own, those of the checkpoint and those of the evaluation: it answers;
  -- `*out` is written exactly if the result is ok; and if it is not, every assignment that the
  -- expression made is undone.
  pub eval-AllOrNothing :
      (text : Bytes) (s : State) (h : Payloads) (m : Memory)
      → IsState s
      → IsFresh libc s
      → s.manages_locale ≡ true
      → AnswersAllOrNothing s (eval libc stack text s h m)
  unfolding eval
  eval-AllOrNothing text s h m i fresh managed = elim (Bool-cases (allocate m).0) [
    | inr e ↦ rw (e, AnswersAllOrNothing, AllOrNothing) (unfold is_ok in (refl, inr refl))
    | inl e ↦
        let x = save s h (allocate m).1 in
        rw e (
          from_checkpoint-AllOrNothing text s x.1 x.2 x.3 (save-IsKept s h (allocate m).1 i) fresh
            managed)
  ]
