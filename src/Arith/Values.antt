-- ===== src/Arith/Values.antt =====
-- The values of operands: the precedence of tokens, `read_value` and `assign` of src/arithmetic.c.
use cshell.Prelude.{ℕ, Bool, true, false, not, ◌&&◌, none, some, [], ◌∷◌, ◌==◌, if◌then◌else◌}
use cshell.Prelude.Bytes.{Bytes}
use cshell.Prelude.Int.{ℤ, neg_ℤ, eq_ℤ}
use cshell.Prelude.Memory.{allocate}
use cshell.State.{StateResult, Libc, allexport, nounset}
use cshell.State.Environment.{export_mask, empty_mask}
use cshell.State.Variables.{get_variable, set_variable, update_attributes}
use cshell.Arith.Literal.{literal, print_long}
use cshell.Arith.Operation.{zero_ℤ}
use cshell.Arith.{
  ArithResult, ok, syntax, range, nomem, readonly, Token, end_token, bad, rparen, comma, assign,
  mul_assign, div_assign, mod_assign, add_assign, sub_assign, shl_assign, shr_assign, and_assign,
  xor_assign, or_assign, question, colon, logical_or, logical_and, bit_or, bit_xor, bit_and, eq, ne,
  lt, le, gt, ge, shl, shr, add, sub, mul, div, mod_token, Value, Parser, long_min,
}

unfoldable pub precedence : Token → ℕ
precedence comma = 1
precedence assign = 2
precedence mul_assign = 2
precedence div_assign = 2
precedence mod_assign = 2
precedence add_assign = 2
precedence sub_assign = 2
precedence shl_assign = 2
precedence shr_assign = 2
precedence and_assign = 2
precedence xor_assign = 2
precedence or_assign = 2
precedence question = 3
precedence logical_or = 4
precedence logical_and = 5
precedence bit_or = 6
precedence bit_xor = 7
precedence bit_and = 8
precedence eq = 9
precedence ne = 9
precedence lt = 10
precedence le = 10
precedence gt = 10
precedence ge = 10
precedence shl = 11
precedence shr = 11
precedence add = 12
precedence sub = 12
precedence mul = 13
precedence div = 13
precedence mod_token = 13
precedence _ = 0

unfoldable pub assignment_operation : Token → Token
assignment_operation mul_assign = mul
assignment_operation div_assign = div
assignment_operation mod_assign = mod_token
assignment_operation add_assign = add
assignment_operation sub_assign = sub
assignment_operation shl_assign = shl
assignment_operation shr_assign = shr
assignment_operation and_assign = bit_and
assignment_operation xor_assign = bit_xor
assignment_operation or_assign = bit_or
assignment_operation _ = bad

-- `parser->error == CSH_ARITH_OK`.
unfoldable pub is_ok : ArithResult → Bool
is_ok ok = true
is_ok _ = false

-- Tests on the token.
unfoldable pub is_end : Token → Bool
is_end end_token = true
is_end _ = false

unfoldable pub is_rparen : Token → Bool
is_rparen rparen = true
is_rparen _ = false

unfoldable pub is_colon : Token → Bool
is_colon colon = true
is_colon _ = false

unfoldable pub is_assign : Token → Bool
is_assign assign = true
is_assign _ = false

abbrev pub nonzero : ℤ → Bool
nonzero n = not (eq_ℤ n zero_ℤ)

abbrev pub failed : ArithResult → Parser → Parser
failed e p = record p { error = e }

-- A token that is missing: a syntax error, incomplete at the end of the text.
abbrev pub missing : Parser → Parser
missing p = record p { error = syntax; incomplete = is_end p.token }

-- The text of a variable behind its sign, read as a constant.
unfoldable pub read_signed : Bool → Bytes → Parser → ℤ × Parser
read_signed negative text p = elim (literal text) [
  | none ↦ (zero_ℤ, failed syntax p)
  | some v ↦
      if negative && v.high == 1
      then (long_min, p)
      else if not (v.high == 0)
      then (zero_ℤ, failed range p)
      else (if negative then neg_ℤ v.number else v.number, p)
]

unfoldable pub read_text : Bytes → Parser → ℤ × Parser
read_text [] p = (zero_ℤ, p)
read_text (c ∷ cs) p =
    if c == b'-'
    then read_signed true cs p
    else if c == b'+'
    then read_signed false cs p
    else read_signed false (c ∷ cs) p

-- The value of a variable; an unset one is 0, or an error under nounset.
unfoldable pub read_name : Bytes → Parser → ℤ × Parser
read_name n p =
    let (copied, left) = allocate p.memory in
    let p' = record p { memory = left } in
    if copied
    then (elim (get_variable p.state n).1.value [
      | some text ↦ read_text text p'
      | none ↦ (zero_ℤ, if p.options nounset then failed syntax p' else p')
    ])
    else (zero_ℤ, failed nomem p')

-- `read_value`.
unfoldable pub read_value : Value → Bool → Parser → ℤ × Parser
read_value v execute p =
    if execute && is_ok p.error
    then (elim v.name [
      | some n ↦ read_name n p
      | none ↦ if v.high == 0 then (v.number, p) else (zero_ℤ, failed range p)
    ])
    else (zero_ℤ, p)

-- The error that a result of the state stands for.
unfoldable pub state_error : StateResult → Parser → Parser
state_error StateResult.ok p = p
state_error StateResult.nomem p = failed nomem p
state_error StateResult.readonly p = failed readonly p
state_error StateResult.invalid p = failed syntax p

module _ (libc : Libc) where
  -- The export under allexport, after an assignment that succeeded.
  unfoldable pub export_assigned : Bytes → Parser → Parser
  export_assigned n p =
      let (marked, s, left) = update_attributes n export_mask empty_mask p.state p.memory in
      state_error marked (record p { state = s; memory = left })

  -- `assign`; the target has a name.
  unfoldable pub assign_value : Bytes → ℤ → Parser → Parser
  assign_value n num p =
      let (copied, left) = allocate p.memory in
      let (set, s, left') = set_variable libc n (print_long num) p.state left in
      let p' = record p { state = s; memory = left' } in
      if copied
      then (elim set [
        | StateResult.ok ↦ if p.options allexport then export_assigned n p' else p'
        | r ↦ state_error r p'
      ])
      else failed nomem (record p { memory = left })
