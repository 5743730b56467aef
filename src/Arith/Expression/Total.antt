-- ===== src/Arith/Expression/Total.antt =====
-- The recursion ends: with more fuel than there is text and token left, every call of `expression`
-- returns, and has not moved back in the text.
use cshell.Prelude.{
  ap, ℕ, zero, suc, ◌+◌, ◌≤◌, ◌<◌, Bool, true, false, not, ◌&&◌, none, some, ◌≡◌, refl, arith, leb,
  ◌==◌, if◌then◌else◌, Bool-cases, Option-cases, inl, inr,
}
use cshell.Prelude.Int.{ℤ}
use cshell.State.{Libc}
use cshell.Arith.{
  Parser, Token, Value, number, name, lparen, add, sub, not_token, inv, question, end_token, syntax,
}
use cshell.Arith.Lexer.{next_token}
use cshell.Arith.Lexer.Progress.{at_end, measure, measure-next_token, measure-next_token-le}
use cshell.Arith.Expression.Places.{
  SamePlace, read_value-SamePlace, combine-SamePlace, apply_prefix-SamePlace,
}
use cshell.Arith.Operation.{zero_ℤ}
use cshell.Arith.Literal.{literal}
use cshell.Arith.Expression.{
  Run, Nested, Round, out_of_fuel, leave, again, ◌then_run◌, ◌then_round◌, apply_prefix,
  close_paren, primary_number, primary_prefix, primary_at, second_branch, conditional,
  right_execute, binary, round_on, round, loop, expression, no_name,
}
use cshell.Arith.Values.{
  is_ok, is_rparen, is_colon, is_assign, failed, missing, nonzero, read_value, precedence,
}

measure-SamePlace : {p q : Parser} → SamePlace p q → measure q ≡ measure p
measure-SamePlace s = rw (s.same_next, s.same_token)

-- The run returns, with at most `n` left to do.
abbrev pub Returns : ℕ → Run → Type 0
Returns n none = ⊥
Returns n (some (v, q)) = measure q ≤ n

-- The round ends; if it goes on, with less than `n` left to do, and at most `n` if not.
abbrev Ends : ℕ → Round → Type 0
Ends n out_of_fuel = ⊥
Ends n (leave v q) = measure q ≤ n
Ends n (again v q) = measure q < n

-- Calls with less than `f` left to do return.
abbrev IsTotal : ℕ → Nested → Type 0
IsTotal f nested =
    (minimum : ℕ) (execute : Bool) (p : Parser)
    → 1 ≤ minimum
    → measure p < f
    → Returns (measure p) (nested minimum execute p)

then_run-Returns :
    (n k : ℕ) (r : Run) (f : Value → Parser → Run)
    → Returns n r
    → ((v : Value) (q : Parser) → measure q ≤ n → Returns k (f v q))
    → Returns k (r then_run f)
unfolding ◌then_run◌
then_run-Returns n k none f h g = absurd h
then_run-Returns n k (some (v, q)) f h g = g v q h

then_round-Ends :
    (n k : ℕ) (r : Run) (f : Value → Parser → Round)
    → Returns n r
    → ((v : Value) (q : Parser) → measure q ≤ n → Ends k (f v q))
    → Ends k (r then_round f)
unfolding ◌then_round◌
then_round-Ends n k none f h g = absurd h
then_round-Ends n k (some (v, q)) f h g = g v q h

close_paren-Returns : (n : ℕ) (v : Value) (q : Parser) → measure q ≤ n → Returns n (close_paren v q)
unfolding close_paren is_rparen
close_paren-Returns n v q h = ground (arith, h, measure-next_token-le q)

precedence-not_at_end : (t : Token) → 1 ≤ precedence t → at_end t ≡ false
unfolding precedence
precedence-not_at_end end_token h = absurd (omega (arith, h))
precedence-not_at_end _ h = refl

Returns-le : (m n : ℕ) (r : Run) → m ≤ n → Returns m r → Returns n r
Returns-le m n none h r = absurd r
Returns-le m n (some (v, q)) h r = omega (arith, h, r)

Ends-if : (n : ℕ) (b : Bool) (x y : Round) → Ends n x → Ends n y → Ends n (if b then x else y)
Ends-if n true x y h k = h
Ends-if n false x y h k = k

Returns-if :
    (n : ℕ) (b : Bool) (x y : Run) → Returns n x → Returns n y → Returns n (if b then x else y)
Returns-if n true x y h k = h
Returns-if n false x y h k = k

module _ (f : ℕ) (nested : Nested) (total : IsTotal f nested) where
  primary_number-Returns : (p : Parser) → Returns (measure p) (primary_number p)
  unfolding primary_number
  primary_number-Returns p = elim (Option-cases (literal p.text)) [
    | inl e ↦ ground (arith, e, measure-next_token-le (failed syntax p))
    | inr (v, e) ↦ ground (arith, e, measure-next_token-le p)
  ]

  nested_next :
      (minimum : ℕ) (execute : Bool) (p : Parser)
      → 1 ≤ minimum
      → at_end p.token ≡ false
      → measure p ≤ f
      → Returns (measure p) (nested minimum execute (next_token p))
  nested_next minimum execute p one h le =
      let less = measure-next_token p h in
      Returns-le (measure (next_token p)) (measure p) (nested minimum execute (next_token p))
        (omega (arith, less)) (total minimum execute (next_token p) one (omega (arith, less, le)))

  primary_prefix-Returns :
      (execute : Bool) (p : Parser)
      → at_end p.token ≡ false
      → measure p ≤ f
      → Returns (measure p) (primary_prefix nested execute p)
  unfolding primary_prefix
  primary_prefix-Returns execute p h le =
      then_run-Returns (measure p) (measure p) (nested 14 execute (next_token p))
        (λ v q. some (apply_prefix p.token execute v q))
        (nested_next 14 execute p (omega arith) h le)
        λ v q less. rw (measure-SamePlace (apply_prefix-SamePlace p.token execute v q)) less

  primary_at-Returns :
      (t : Token) (execute : Bool) (p : Parser)
      → p.token ≡ t
      → measure p ≤ f
      → Returns (measure p) (primary_at t nested execute p)
  unfolding primary_at
  primary_at-Returns number execute p e le = primary_number-Returns p
  primary_at-Returns name execute p e le = omega (arith, measure-next_token-le p)
  primary_at-Returns lparen execute p e le =
      then_run-Returns (measure p) (measure p) (nested 1 execute (next_token p)) close_paren
        (nested_next 1 execute p (omega arith) (ap at_end e) le)
        λ v q less. close_paren-Returns (measure p) v q less
  primary_at-Returns add execute p e le = primary_prefix-Returns execute p (ap at_end e) le
  primary_at-Returns sub execute p e le = primary_prefix-Returns execute p (ap at_end e) le
  primary_at-Returns not_token execute p e le = primary_prefix-Returns execute p (ap at_end e) le
  primary_at-Returns inv execute p e le = primary_prefix-Returns execute p (ap at_end e) le
  primary_at-Returns _ execute p e le = omega arith

  second_branch-Ends :
      (n : ℕ) (execute : Bool) (lhs first : ℤ) (left : Value) (p : Parser)
      → measure p < n
      → n ≤ f
      → Ends n (second_branch nested execute lhs first left p)
  unfolding second_branch
  second_branch-Ends n execute lhs first left p h le =
      let chosen = execute && not (nonzero lhs) in
      then_round-Ends (measure (next_token p)) n (nested 3 chosen (next_token p)) _
        (total 3 chosen (next_token p) (omega arith)
          (omega (arith, measure-next_token-le p, h, le)))
        λ v q less.
          rw (measure-SamePlace (read_value-SamePlace v chosen q))
            (omega (arith, less, measure-next_token-le p, h))

  conditional-Ends :
      (n : ℕ) (execute : Bool) (lhs : ℤ) (left : Value) (p : Parser)
      → measure p < n
      → n ≤ f
      → Ends n (conditional nested execute lhs left p)
  unfolding conditional
  conditional-Ends n execute lhs left p h le =
      let chosen = execute && nonzero lhs in
      then_round-Ends (measure p) n (nested 1 chosen p) _
        (total 1 chosen p (omega arith) (omega (arith, h, le)))
        λ v q less.
          let r = read_value v chosen q in
          let same = measure-SamePlace (read_value-SamePlace v chosen q) in
          Ends-if n (not (is_ok r.1.error)) (leave left r.1) _ (omega (arith, same, less, h)) (
            Ends-if n (is_colon r.1.token) _ (leave left (missing r.1))
              (second_branch-Ends n execute lhs r.0 left r.1 (omega (arith, same, less, h)) le)
              (omega (arith, same, less, h)))

  binary-Ends :
      (libc : Libc) (n : ℕ) (t : Token) (execute : Bool) (left : Value) (lhs : ℤ) (p : Parser)
      → 1 ≤ precedence t
      → measure p < n
      → n ≤ f
      → Ends n (binary libc nested t execute left lhs p)
  unfolding binary
  binary-Ends libc n t execute left lhs p one h le =
      let chosen = right_execute t execute lhs in
      let minimum = precedence t + (if precedence t == 2 then 0 else 1) in
      then_round-Ends (measure p) n (nested minimum chosen p) _
        (total minimum chosen p (omega (arith, one)) (omega (arith, h, le)))
        λ v q less.
          let r = read_value v chosen q in
          omega (
            arith,
            less,
            h,
            measure-SamePlace (read_value-SamePlace v chosen q),
            measure-SamePlace (combine-SamePlace libc t execute left lhs r.0 r.1),
          )

  round_on-Ends :
      (libc : Libc) (n : ℕ) (t : Token) (execute : Bool) (left : Value) (lhs : ℤ) (p : Parser)
      → 1 ≤ precedence t
      → measure p < n
      → n ≤ f
      → Ends n (round_on libc nested t execute left lhs p)
  unfolding round_on
  round_on-Ends libc n question execute left lhs p one h le =
      conditional-Ends n execute lhs left p h le
  round_on-Ends libc n t execute left lhs p one h le =
      binary-Ends libc n t execute left lhs p one h le

  measure-left :
      (b execute : Bool) (left : Value) (p : Parser)
      → measure (if b then (zero_ℤ, p) else read_value left execute p).1 ≡ measure p
  measure-left true execute left p = refl
  measure-left false execute left p = measure-SamePlace (read_value-SamePlace left execute p)

  round-Ends :
      (libc : Libc) (execute : Bool) (left : Value) (p : Parser)
      → 1 ≤ precedence p.token
      → measure p ≤ f
      → Ends (measure p) (round libc nested execute left p)
  unfolding round
  round-Ends libc execute left p one le =
      let t = p.token in
      let less = measure-next_token p (precedence-not_at_end t one) in
      let l =
        if is_assign t then (zero_ℤ, next_token p) else read_value left execute (next_token p) in
      let same : measure l.1 ≡ measure (next_token p) =
        measure-left (is_assign t) execute left (next_token p) in
      Ends-if (measure p) (precedence t == 2 && no_name left) _ _ (omega (arith, less))
        (round_on-Ends libc (measure p) t execute left l.0 l.1 one (omega (arith, same, less)) le)

-- What the loop makes of a round.
abbrev after_round : Round → (Value → Parser → Run) → Run
after_round r f = elim r [ out_of_fuel ↦ none | leave v q ↦ some (v, q) | again v q ↦ f v q ]

after_round-Returns :
    (n : ℕ) (r : Round) (f : Value → Parser → Run)
    → Ends n r
    → ((v : Value) (q : Parser) → measure q < n → Returns (measure q) (f v q))
    → Returns n (after_round r f)
after_round-Returns n out_of_fuel f h g = absurd h
after_round-Returns n (leave v q) f h g = h
after_round-Returns n (again v q) f h g =
    Returns-le (measure q) n (f v q) (omega (arith, h)) (g v q h)

module _ (libc : Libc) where
  loop-Returns :
      (f : ℕ) (nested : Nested) (total : IsTotal f nested) (n minimum : ℕ) (execute : Bool)
      (left : Value) (p : Parser)
      → 1 ≤ minimum
      → measure p < n
      → measure p ≤ f
      → Returns (measure p) (loop libc nested n minimum execute left p)
  unfolding loop
  loop-Returns f nested total zero minimum execute left p one h le = absurd (omega (arith, h))
  loop-Returns f nested total (suc n) minimum execute left p one h le =
      elim (Bool-cases (is_ok p.error && leb minimum (precedence p.token))) [
        | inr e ↦ rw (e, Returns) (omega arith)
        | inl e ↦
            let some_operator : 1 ≤ precedence p.token = ground (arith, e, one) in
            rw (e, Returns)
              (after_round-Returns (measure p) (round libc nested execute left p)
                (λ v q. loop libc nested n minimum execute v q)
                (round-Ends f nested total libc execute left p some_operator le)
                λ v q less.
                  loop-Returns f nested total n minimum execute v q one (omega (arith, less, h))
                    (omega (arith, less, le)))
      ]

  expression-IsTotal : (stack : ℕ → Bool) (f depth : ℕ) → IsTotal f (expression libc stack f depth)
  unfolding expression
  expression-IsTotal stack zero depth minimum execute p one h = absurd (omega (arith, h))
  expression-IsTotal stack (suc f) depth minimum execute p one h =
      let nested = expression libc stack f (suc depth) in
      let total = expression-IsTotal stack f (suc depth) in
      Returns-if (measure p) (not (is_ok p.error)) _ _ (omega arith) (
        Returns-if (measure p) (stack depth) _ _
          (then_run-Returns (measure p) (measure p) (primary_at p.token nested execute p) _
            (primary_at-Returns f nested total p.token execute p refl (omega (arith, h)))
            λ v q less.
              Returns-le (measure q) (measure p) (loop libc nested (suc f) minimum execute v q) less
                (loop-Returns f nested total (suc f) minimum execute v q one
                  (omega (arith, less, h)) (omega (arith, less, h))))
          (omega arith))

  -- `expression` returns, whatever the allocations and the stack do, when it has more fuel than
  -- there are bytes and tokens left and its least precedence is at least 1, as in every call of the
  -- source; and then no more is left than before.
  pub expression-Returns :
      (stack : ℕ → Bool) (f depth minimum : ℕ) (execute : Bool) (p : Parser)
      → 1 ≤ minimum
      → measure p < f
      → Returns (measure p) (expression libc stack f depth minimum execute p)
  expression-Returns stack f depth = expression-IsTotal stack f depth
