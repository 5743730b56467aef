-- ===== src/Arith/Expression.antt =====
-- The evaluator: operands, prefix operators, and precedence climbing. Calls that may run out of
-- fuel return an Option; `Total` proves that enough fuel is always given. `stack n` says whether
-- `csh_stack_check` finds room at nesting depth `n` of `expression`.
pub mod Places
pub mod Total
pub mod Silent
use cshell.Prelude.{
  ℕ, zero, suc, ◌+◌, Bool, true, false, not, ◌&&◌, ◌||◌, Option, none, some, List, [], ◌∷◌, ltb,
  leb, ◌==◌, if◌then◌else◌,
}
use cshell.Prelude.Bytes.{Bytes}
use cshell.Prelude.Int.{ℤ, pos, negsuc, neg_ℤ, eq_ℤ}
use cshell.Prelude.Memory.{Memory, allocate}
use cshell.State.{State, StateResult, Libc, ShellOption, allexport, nounset}
use cshell.State.Environment.{export_mask, empty_mask}
use cshell.State.Variables.{get_variable, set_variable, update_attributes}
use cshell.Arith.Lexer.{next_token}
use cshell.Arith.Literal.{literal, print_long}
use cshell.Arith.Operation.{Computed, value, fails, operation, complement, truth, zero_ℤ}
use cshell.Arith.{
  ArithResult, ok, syntax, range, nomem, readonly, resource, Token, end_token, bad, number, name,
  lparen, rparen, comma, assign, mul_assign, div_assign, mod_assign, add_assign, sub_assign,
  shl_assign, shr_assign, and_assign, xor_assign, or_assign, question, colon, logical_or,
  logical_and, bit_or, bit_xor, bit_and, eq, ne, lt, le, gt, ge, shl, shr, add, sub, mul, div,
  mod_token, not_token, inv, Value, plain, Parser, long_min,
}
use cshell.Arith.Values.{
  precedence, assignment_operation, is_ok, is_end, is_rparen, is_colon, is_assign, nonzero, failed,
  missing, read_signed, read_text, read_name, read_value, state_error, export_assigned,
  assign_value,
}

-- A run that may be out of fuel, from one parser to the next.
abbrev pub Run : Type 0
Run = Option (Value × Parser)

-- The rest of the work on what a nested call leaves.
infixl 5 ◌then_run◌
unfoldable pub ◌then_run◌ : Run → (Value → Parser → Run) → Run
none then_run f = none
some (v, p) then_run f = f v p

-- A call of `expression` one level deeper.
abbrev pub Nested : Type 0
Nested = ℕ → Bool → Parser → Run

-- What a prefix operator makes of a number.
unfoldable pub prefix : Token → ℤ → ℤ
prefix sub n = neg_ℤ n
prefix not_token n = truth (eq_ℤ n zero_ℤ)
prefix inv n = complement n
prefix _ n = n

unfoldable pub is_sub : Token → Bool
is_sub sub = true
is_sub _ = false

unfoldable pub no_name : Value → Bool
no_name v = elim v.name [ none ↦ true | some n ↦ false ]

-- A prefix operator on the operand that was read behind it.
unfoldable pub apply_prefix : Token → Bool → Value → Parser → Value × Parser
apply_prefix t execute v p =
    let (n, p') = read_value v execute p in
    if execute && is_ok p.error
    then (if is_sub t && no_name v && v.high == 1
        then (plain long_min, p)
        else if is_sub t && eq_ℤ n long_min
        then (plain v.number, failed range p')
        else (plain (prefix t n), p'))
    else (plain v.number, p)

unfoldable pub close_paren : Value → Parser → Run
close_paren v p =
    if is_ok p.error
    then (if is_rparen p.token then some (v, next_token p) else some (v, missing p))
    else some (v, p)

unfoldable pub primary_number : Parser → Run
primary_number p = elim (literal p.text) [
  | some v ↦ some (v, next_token p)
  | none ↦ some (plain zero_ℤ, next_token (failed syntax p))
]

unfoldable pub primary_prefix : Nested → Bool → Parser → Run
primary_prefix nested execute p =
    nested 14 execute (next_token p) then_run λ v q. some (apply_prefix p.token execute v q)

-- `primary`, on the token that the parser stands at.
unfoldable pub primary_at : Token → Nested → Bool → Parser → Run
primary_at number nested execute p = primary_number p
primary_at name nested execute p =
    some (record { number = zero_ℤ; name = some p.text; high = 0 }, next_token p)
primary_at lparen nested execute p = nested 1 execute (next_token p) then_run close_paren
primary_at add nested execute p = primary_prefix nested execute p
primary_at sub nested execute p = primary_prefix nested execute p
primary_at not_token nested execute p = primary_prefix nested execute p
primary_at inv nested execute p = primary_prefix nested execute p
primary_at _ nested execute p = some (plain zero_ℤ, missing p)

-- How a round of the operator loop ends: by `break`, or at the loop's test again.
pub data Round : Type 0 where
  out_of_fuel : Round
  leave again : Value → Parser → Round

infixl 5 ◌then_round◌
unfoldable pub ◌then_round◌ : Run → (Value → Parser → Round) → Round
none then_round f = out_of_fuel
some (v, p) then_round f = f v p

-- `?:` behind the colon: the second branch.
unfoldable pub second_branch : Nested → Bool → ℤ → ℤ → Value → Parser → Round
second_branch nested execute lhs first left p =
    let chosen = execute && not (nonzero lhs) in
    nested 3 chosen (next_token p) then_round λ v q.
    let (rhs, q') = read_value v chosen q in again (plain (if nonzero lhs then first else rhs)) q'

unfoldable pub conditional : Nested → Bool → ℤ → Value → Parser → Round
conditional nested execute lhs left p =
    let chosen = execute && nonzero lhs in
    nested 1 chosen p then_round λ v q.
    let (first, q') = read_value v chosen q in
    let rest = second_branch nested execute lhs first left q' in
    if not (is_ok q'.error)
    then leave left q'
    else if is_colon q'.token
    then rest
    else leave left (missing q')

-- `&&` and `||` do not evaluate a right side that they do not need.
unfoldable pub right_execute : Token → Bool → ℤ → Bool
right_execute logical_and execute lhs = if nonzero lhs then execute else false
right_execute logical_or execute lhs = if nonzero lhs then false else execute
right_execute _ execute lhs = execute

-- The result of `operation`, its error left in the parser.
unfoldable pub computed : Computed → Parser → Value × Parser
computed (value n) p = (plain n, p)
computed (fails e) p = (plain zero_ℤ, failed e p)

module _ (libc : Libc) where
  unfoldable pub store_computed : Bytes → Computed → Parser → Value × Parser
  store_computed target (value n) p = (plain n, assign_value libc target n p)
  store_computed target (fails e) p = (plain zero_ℤ, failed e p)

  -- An assignment, to the name of the left side.
  unfoldable pub store : Token → Value → ℤ → ℤ → Parser → Value × Parser
  store t left lhs rhs p = elim left.name [
    | none ↦ (plain zero_ℤ, p)
    | some target ↦
        store_computed target
          (if is_assign t then value rhs else operation (assignment_operation t) lhs rhs) p
  ]

  -- The last part of a round: the operation, if it is to be executed.
  unfoldable pub combine : Token → Bool → Value → ℤ → ℤ → Parser → Value × Parser
  combine t execute left lhs rhs p =
      if execute && is_ok p.error
      then (if precedence t == 2 then store t left lhs rhs p else computed (operation t lhs rhs) p)
      else (plain zero_ℤ, p)

  unfoldable pub binary : Nested → Token → Bool → Value → ℤ → Parser → Round
  binary nested t execute left lhs p =
      let chosen = right_execute t execute lhs in
      let assigns = precedence t == 2 in
      nested (precedence t + (if assigns then 0 else 1)) chosen p then_round λ v q.
      let (rhs, q') = read_value v chosen q in
      let (result, q'') = combine t execute left lhs rhs q' in again result q''

  unfoldable pub round_on : Nested → Token → Bool → Value → ℤ → Parser → Round
  round_on nested question execute left lhs p = conditional nested execute lhs left p
  round_on nested t execute left lhs p = binary nested t execute left lhs p

  -- One round of the loop, at an operator of high enough precedence.
  unfoldable pub round : Nested → Bool → Value → Parser → Round
  round nested execute left p =
      let t = p.token in
      let p1 = next_token p in
      let (lhs, p2) = (if is_assign t then (zero_ℤ, p1) else read_value left execute p1) in
      let rest = round_on nested t execute left lhs p2 in
      if precedence t == 2 && no_name left then leave left (failed syntax p1) else rest

  unfoldable pub loop : Nested → ℕ → ℕ → Bool → Value → Parser → Run
  loop nested zero minimum execute left p = none
  loop nested (suc f) minimum execute left p =
      elim (is_ok p.error && leb minimum (precedence p.token)) [
        | false ↦ some (left, p)
        | true ↦ elim (round nested execute left p) [
          | out_of_fuel ↦ none
          | leave v q ↦ some (v, q)
          | again v q ↦ loop nested f minimum execute v q
        ]
      ]

  -- `expression`, at a nesting depth.
  unfoldable pub expression : (ℕ → Bool) → ℕ → ℕ → Nested
  expression stack zero depth minimum execute p = none
  expression stack (suc f) depth minimum execute p =
      let nested = expression stack f (suc depth) in
      let work = primary_at p.token nested execute p then_run loop nested (suc f) minimum execute in
      if not (is_ok p.error)
      then some (plain zero_ℤ, p)
      else if stack depth
      then work
      else some (plain zero_ℤ, failed resource p)
