-- ===== src/Arith/Expression/Silent.antt =====
-- What is not to be executed is only read: `execute` is 0 in the branch not taken of `?:`, on the
-- right of a decided `&&` or `||`, and in all of a probe.
use cshell.Prelude.{
  ℕ, zero, suc, ◌+◌, Bool, true, false, not, ◌&&◌, none, some, ◌≡◌, refl, ◌∙◌, arith, leb, ◌==◌,
  if◌then◌else◌, Bool-cases, Option-cases, inl, inr,
}
use cshell.Prelude.Int.{ℤ}
use cshell.State.{Libc}
use cshell.Arith.{
  Parser, Token, Value, number, name, lparen, add, sub, not_token, inv, question, logical_and,
  logical_or, resource, syntax, plain,
}
use cshell.Arith.Lexer.{next_token}
use cshell.Arith.Literal.{literal}
use cshell.Arith.Operation.{zero_ℤ}
use cshell.Arith.Expression.{
  Run, Nested, Round, out_of_fuel, leave, again, ◌then_run◌, ◌then_round◌, apply_prefix,
  close_paren, primary_number, primary_prefix, primary_at, second_branch, conditional,
  right_execute, combine, binary, round_on, round, loop, expression, no_name,
}
use cshell.Arith.Values.{
  is_ok, is_rparen, is_colon, is_assign, failed, missing, read_value, precedence,
}

-- `q` has the variables, the rest of the state, and the memory of `p`.
abbrev pub SameState : Parser → Parser → Type 0
SameState p q = (q.state ≡ p.state) × (q.memory ≡ p.memory)

-- What a run, or a round, leaves if it ends.
abbrev pub Keeps : Parser → Run → Type 0
Keeps p none = Unit
Keeps p (some (v, q)) = SameState p q

abbrev KeepsRound : Parser → Round → Type 0
KeepsRound p out_of_fuel = Unit
KeepsRound p (leave v q) = SameState p q
KeepsRound p (again v q) = SameState p q

abbrev IsSilent : Nested → Type 0
IsSilent nested = (minimum : ℕ) (p : Parser) → Keeps p (nested minimum false p)

Keeps-trans : (p q : Parser) (r : Run) → SameState p q → Keeps q r → Keeps p r
Keeps-trans p q none h k = tt
Keeps-trans p q (some (v, o)) h k = (k.0 ∙ h.0, k.1 ∙ h.1)

then_run-Keeps :
    (p : Parser) (r : Run) (f : Value → Parser → Run)
    → Keeps p r
    → ((v : Value) (q : Parser) → Keeps q (f v q))
    → Keeps p (r then_run f)
unfolding ◌then_run◌
then_run-Keeps p none f h g = tt
then_run-Keeps p (some (v, q)) f h g = Keeps-trans p q (f v q) h (g v q)

KeepsRound-trans : (p q : Parser) (r : Round) → SameState p q → KeepsRound q r → KeepsRound p r
KeepsRound-trans p q out_of_fuel h k = tt
KeepsRound-trans p q (leave v o) h k = (k.0 ∙ h.0, k.1 ∙ h.1)
KeepsRound-trans p q (again v o) h k = (k.0 ∙ h.0, k.1 ∙ h.1)

then_round-Keeps :
    (p : Parser) (r : Run) (f : Value → Parser → Round)
    → Keeps p r
    → ((v : Value) (q : Parser) → KeepsRound q (f v q))
    → KeepsRound p (r then_round f)
unfolding ◌then_round◌
then_round-Keeps p none f h g = tt
then_round-Keeps p (some (v, q)) f h g = KeepsRound-trans p q (f v q) h (g v q)

Keeps-if :
    (p : Parser) (b : Bool) (x y : Run) → Keeps p x → Keeps p y → Keeps p (if b then x else y)
Keeps-if p true x y h k = h
Keeps-if p false x y h k = k

KeepsRound-if :
    (p : Parser) (b : Bool) (x y : Round)
    → KeepsRound p x
    → KeepsRound p y
    → KeepsRound p (if b then x else y)
KeepsRound-if p true x y h k = h
KeepsRound-if p false x y h k = k

next_token-SameState : (p : Parser) → SameState p (next_token p)
unfolding next_token
next_token-SameState p = (refl, refl)

close_paren-Keeps : (v : Value) (p : Parser) → Keeps p (close_paren v p)
unfolding close_paren
close_paren-Keeps v p =
    Keeps-if p (is_ok p.error) _ (some (v, p))
      (Keeps-if p (is_rparen p.token) (some (v, next_token p)) (some (v, missing p))
        (next_token-SameState p) (refl, refl))
      (refl, refl)

primary_number-Keeps : (p : Parser) → Keeps p (primary_number p)
unfolding primary_number
primary_number-Keeps p = elim (Option-cases (literal p.text)) [
  | inl e ↦ ground (arith, e, next_token-SameState (failed syntax p))
  | inr (v, e) ↦ ground (arith, e, next_token-SameState p)
]

right_execute-false : (t : Token) (lhs : ℤ) → right_execute t false lhs ≡ false
unfolding right_execute
right_execute-false logical_and lhs = ground arith
right_execute-false logical_or lhs = ground arith
right_execute-false t lhs = refl

abbrev after_round : Round → (Value → Parser → Run) → Run
after_round r f = elim r [ out_of_fuel ↦ none | leave v q ↦ some (v, q) | again v q ↦ f v q ]

after_round-Keeps :
    (p : Parser) (r : Round) (f : Value → Parser → Run)
    → KeepsRound p r
    → ((v : Value) (q : Parser) → Keeps q (f v q))
    → Keeps p (after_round r f)
after_round-Keeps p out_of_fuel f h g = tt
after_round-Keeps p (leave v q) f h g = h
after_round-Keeps p (again v q) f h g = Keeps-trans p q (f v q) h (g v q)

module _ (nested : Nested) (silent : IsSilent nested) where
  nested_next : (minimum : ℕ) (p : Parser) → Keeps p (nested minimum false (next_token p))
  nested_next minimum p =
      Keeps-trans p (next_token p) (nested minimum false (next_token p)) (next_token-SameState p)
        (silent minimum (next_token p))

  primary_prefix-Keeps : (p : Parser) → Keeps p (primary_prefix nested false p)
  unfolding primary_prefix apply_prefix read_value
  primary_prefix-Keeps p =
      then_run-Keeps p (nested 14 false (next_token p)) _ (nested_next 14 p) λ v q. (refl, refl)

  primary_at-Keeps : (t : Token) (p : Parser) → Keeps p (primary_at t nested false p)
  unfolding primary_at
  primary_at-Keeps number p = primary_number-Keeps p
  primary_at-Keeps name p = next_token-SameState p
  primary_at-Keeps lparen p =
      then_run-Keeps p (nested 1 false (next_token p)) close_paren (nested_next 1 p)
        λ v q. close_paren-Keeps v q
  primary_at-Keeps add p = primary_prefix-Keeps p
  primary_at-Keeps sub p = primary_prefix-Keeps p
  primary_at-Keeps not_token p = primary_prefix-Keeps p
  primary_at-Keeps inv p = primary_prefix-Keeps p
  primary_at-Keeps _ p = (refl, refl)

  second_branch-Keeps :
      (lhs first : ℤ) (left : Value) (p : Parser)
      → KeepsRound p (second_branch nested false lhs first left p)
  unfolding second_branch read_value
  second_branch-Keeps lhs first left p =
      then_round-Keeps p (nested 3 false (next_token p)) _ (nested_next 3 p) λ v q. (refl, refl)

  conditional-Keeps :
      (lhs : ℤ) (left : Value) (p : Parser) → KeepsRound p (conditional nested false lhs left p)
  unfolding conditional read_value
  conditional-Keeps lhs left p = then_round-Keeps p (nested 1 false p) _ (silent 1 p) λ v q.
      KeepsRound-if q (not (is_ok q.error)) (leave left q) _ (refl, refl)
        (KeepsRound-if q (is_colon q.token) _ (leave left (missing q))
          (second_branch-Keeps lhs zero_ℤ left q) (refl, refl))

  binary-Keeps :
      (libc : Libc) (t : Token) (left : Value) (lhs : ℤ) (p : Parser)
      → KeepsRound p (binary libc nested t false left lhs p)
  unfolding binary combine read_value
  binary-Keeps libc t left lhs p =
      let minimum = precedence t + (if precedence t == 2 then 0 else 1) in
      rw (right_execute-false t lhs)
        (then_round-Keeps p (nested minimum false p) _ (silent minimum p) λ v q. (refl, refl))

  round_on-Keeps :
      (libc : Libc) (t : Token) (left : Value) (lhs : ℤ) (p : Parser)
      → KeepsRound p (round_on libc nested t false left lhs p)
  unfolding round_on
  round_on-Keeps libc question left lhs p = conditional-Keeps lhs left p
  round_on-Keeps libc t left lhs p = binary-Keeps libc t left lhs p

  read_left :
      (b : Bool) (left : Value) (p : Parser)
      → SameState p (if b then (zero_ℤ, p) else read_value left false p).1
  unfolding read_value
  read_left true left p = (refl, refl)
  read_left false left p = (refl, refl)

  round-Keeps :
      (libc : Libc) (left : Value) (p : Parser) → KeepsRound p (round libc nested false left p)
  unfolding round
  round-Keeps libc left p =
      let q = next_token p in
      let l = if is_assign p.token then (zero_ℤ, q) else read_value left false q in
      let rest = round_on libc nested p.token false left l.0 l.1 in
      KeepsRound-trans p q _ (next_token-SameState p) (
        KeepsRound-if q (precedence p.token == 2 && no_name left) (leave left (failed syntax q))
          rest (refl, refl)
          (KeepsRound-trans q l.1 rest (read_left (is_assign p.token) left q)
            (round_on-Keeps libc p.token left l.0 l.1)))

module _ (libc : Libc) where
  loop-Keeps :
      (nested : Nested)
      → IsSilent nested
      → (n minimum : ℕ) (left : Value) (p : Parser)
      → Keeps p (loop libc nested n minimum false left p)
  unfolding loop
  loop-Keeps nested silent zero minimum left p = tt
  loop-Keeps nested silent (suc n) minimum left p =
      elim (Bool-cases (is_ok p.error && leb minimum (precedence p.token))) [
        | inr e ↦ rw (e, Keeps) (refl, refl)
        | inl e ↦
            rw (e, Keeps)
              (after_round-Keeps p (round libc nested false left p)
                (λ v q. loop libc nested n minimum false v q)
                (round-Keeps nested silent libc left p)
                λ v q. loop-Keeps nested silent n minimum v q)
      ]

  -- An expression that is not to be executed leaves the variables, the rest of the state and the
  -- memory as they are, whatever it says, assignments and all.
  pub expression-Keeps :
      (stack : ℕ → Bool) (f depth minimum : ℕ) (p : Parser)
      → Keeps p (expression libc stack f depth minimum false p)
  unfolding expression
  expression-Keeps stack zero depth minimum p = tt
  expression-Keeps stack (suc f) depth minimum p =
      let nested = expression libc stack f (suc depth) in
      let silent : IsSilent nested = λ n q. expression-Keeps stack f (suc depth) n q in
      Keeps-if p (not (is_ok p.error)) (some (plain zero_ℤ, p)) _ (refl, refl)
        (Keeps-if p (stack depth) _ (some (plain zero_ℤ, failed resource p))
          (then_run-Keeps p (primary_at p.token nested false p) _
            (primary_at-Keeps nested silent p.token p)
            λ v q. loop-Keeps nested silent (suc f) minimum v q)
          (refl, refl))
