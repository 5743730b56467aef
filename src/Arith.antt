-- ===== src/Arith.antt =====
-- src/arithmetic.c: integer expressions over `long`, 64 bits wide as on the hosts of the program.
pub mod Literal
pub mod Lexer
pub mod Operation
pub mod Values
pub mod Expression
pub mod Eval
use cshell.Prelude.{ℕ, ◌-◌, ◌^◌, Bool, true, false, Option, none}
use cshell.Prelude.Bytes.{Bytes}
use cshell.Prelude.Int.{ℤ, pos, negsuc}
use cshell.Prelude.Memory.{Memory}
use cshell.State.{State, ShellOption}

-- LONG_MAX and LONG_MIN.
abbrev pub long_max : ℕ
long_max = 2 ^ 63 - 1

abbrev pub long_min : ℤ
long_min = negsuc long_max

-- `enum csh_arith_result`.
pub data ArithResult : Type 0 where
  ok syntax range nomem readonly resource : ArithResult

-- `enum token`.
pub data Token : Type 0 where
  end_token bad number name lparen rparen comma assign : Token
  mul_assign div_assign mod_assign add_assign sub_assign : Token
  shl_assign shr_assign and_assign xor_assign or_assign : Token
  question colon logical_or logical_and bit_or bit_xor bit_and : Token
  eq ne lt le gt ge shl shr add sub mul div mod_token not_token inv : Token

-- `struct value`. `name` is `none` for NULL, and else the bytes of the name.
pub record Value : Type 0 where
  pub number : ℤ
  pub name : Option Bytes
  pub high : ℕ

-- `(struct value){.number = n}`.
abbrev pub plain : ℤ → Value
plain n = record { number = n; name = none; high = 0 }

-- `struct parser`. `text` holds the `length` bytes from `start`; `memory` is what `malloc` will
-- answer.
pub record Parser : Type 0 where
  pub next : Bytes
  pub text : Bytes
  pub token : Token
  pub error : ArithResult
  pub state : State
  pub options : ShellOption → Bool
  pub incomplete : Bool
  pub memory : Memory
