-- ===== src/Arith/Expression/Places.antt =====
-- Reading a value, assigning and combining leave the parser where it stands in the text.
use cshell.Prelude.{Bool, true, false, [], ◌∷◌, ◌≡◌, arith, if◌then◌else◌, Option-cases, inl, inr}
use cshell.Prelude.Bytes.{Bytes}
use cshell.Prelude.Int.{ℤ}
use cshell.Prelude.Memory.{allocate}
use cshell.State.{StateResult, Libc}
use cshell.State.Environment.{export_mask, empty_mask}
use cshell.State.Variables.{get_variable, set_variable, update_attributes}
use cshell.Arith.{Parser, Token, Value}
use cshell.Arith.Literal.{print_long}
use cshell.Arith.Operation.{Computed, value, fails, operation}
use cshell.Arith.Expression.{apply_prefix, computed, store_computed, store, combine}
use cshell.Arith.Values.{
  read_signed, read_text, read_name, read_value, state_error, export_assigned, assign_value,
  is_assign, assignment_operation,
}

-- `q` stands where `p` stood.
pub record SamePlace (p q : Parser) : Type 0 where
  pub same_next : q.next ≡ p.next
  pub same_token : q.token ≡ p.token

read_signed-SamePlace :
    (negative : Bool) (text : Bytes) (p : Parser) → SamePlace p (read_signed negative text p).1
unfolding read_signed
read_signed-SamePlace negative text p = ground arith

read_text-SamePlace : (text : Bytes) (p : Parser) → SamePlace p (read_text text p).1
unfolding read_text
read_text-SamePlace [] p = ground arith
read_text-SamePlace (c ∷ cs) p = ground (
  arith,
  read_signed-SamePlace true cs p,
  read_signed-SamePlace false cs p,
  read_signed-SamePlace false (c ∷ cs) p,
)

read_name-SamePlace : (n : Bytes) (p : Parser) → SamePlace p (read_name n p).1
unfolding read_name
read_name-SamePlace n p = elim (Option-cases (get_variable p.state n).1.value) [
  | inl e ↦ ground (arith, e)
  | inr (text, e) ↦
      ground (arith, e, read_text-SamePlace text (record p { memory = (allocate p.memory).1 }))
]

pub read_value-SamePlace : (v : Value) (e : Bool) (p : Parser) → SamePlace p (read_value v e p).1
unfolding read_value
read_value-SamePlace v e p = elim (Option-cases v.name) [
  | inl n ↦ ground (arith, n)
  | inr (n, h) ↦ ground (arith, h, read_name-SamePlace n p)
]

state_error-SamePlace : (r : StateResult) (p : Parser) → SamePlace p (state_error r p)
unfolding state_error
state_error-SamePlace StateResult.ok p = ground arith
state_error-SamePlace _ p = ground arith

module _ (libc : Libc) where
  export_assigned-SamePlace : (n : Bytes) (p : Parser) → SamePlace p (export_assigned libc n p)
  unfolding export_assigned
  export_assigned-SamePlace n p =
      let u = update_attributes n export_mask empty_mask p.state p.memory in
      let q = record p { state = u.1; memory = u.2 } in ground (arith, state_error-SamePlace u.0 q)

  assign_value-SamePlace : (n : Bytes) (z : ℤ) (p : Parser) → SamePlace p (assign_value libc n z p)
  unfolding assign_value
  assign_value-SamePlace n z p =
      let s = set_variable libc n (print_long z) p.state (allocate p.memory).1 in
      let q = record p { state = s.1; memory = s.2 } in
      ground (
        arith,
        export_assigned-SamePlace n q,
        state_error-SamePlace StateResult.invalid q,
        state_error-SamePlace StateResult.nomem q,
        state_error-SamePlace StateResult.readonly q,
      )

  store_computed-SamePlace :
      (n : Bytes) (c : Computed) (p : Parser) → SamePlace p (store_computed libc n c p).1
  unfolding store_computed
  store_computed-SamePlace n (value z) p = assign_value-SamePlace n z p
  store_computed-SamePlace n (fails e) p = ground arith

  store-SamePlace :
      (t : Token) (left : Value) (lhs rhs : ℤ) (p : Parser)
      → SamePlace p (store libc t left lhs rhs p).1
  unfolding store
  store-SamePlace t left lhs rhs p = elim (Option-cases left.name) [
    | inl n ↦ ground (arith, n)
    | inr (n, h) ↦
        let c = if is_assign t then value rhs else operation (assignment_operation t) lhs rhs in
        ground (arith, h, store_computed-SamePlace n c p)
  ]

  computed-SamePlace : (c : Computed) (p : Parser) → SamePlace p (computed c p).1
  unfolding computed
  computed-SamePlace (value n) p = ground arith
  computed-SamePlace (fails e) p = ground arith

  pub combine-SamePlace :
      (t : Token) (execute : Bool) (left : Value) (lhs rhs : ℤ) (p : Parser)
      → SamePlace p (combine libc t execute left lhs rhs p).1
  unfolding combine
  combine-SamePlace t execute left lhs rhs p =
      ground (arith, store-SamePlace t left lhs rhs p, computed-SamePlace (operation t lhs rhs) p)

pub apply_prefix-SamePlace :
    (t : Token) (execute : Bool) (v : Value) (p : Parser)
    → SamePlace p (apply_prefix t execute v p).1
unfolding apply_prefix
apply_prefix-SamePlace t execute v p = ground (arith, read_value-SamePlace v execute p)
