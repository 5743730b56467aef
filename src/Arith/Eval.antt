-- ===== src/Arith/Eval.antt =====
-- `run` and the three functions of the interface.
pub mod Rollback
pub mod Total
use cshell.Prelude.{
  ℕ, zero, suc, ◌+◌, ◌*◌, Bool, true, false, ◌||◌, Option, none, some, List, [], ◌∷◌, if◌then◌else◌,
}
use cshell.Prelude.Bytes.{Bytes, codes}
use cshell.Prelude.Int.{ℤ, pos}
use cshell.Prelude.Lists.{length}
use cshell.Prelude.Memory.{Memory, allocate}
use cshell.State
use cshell.State.{State, Libc, ShellOption}
use cshell.State.Environment.{blank_state}
use cshell.State.Functions.{Payloads}
use cshell.State.Snapshot.{save, restore, checkpoint_destroy}
use cshell.Arith.{ArithResult, ok, syntax, nomem, resource, Token, end_token, Value, plain, Parser}
use cshell.Arith.Expression.{Run, ◌then_run◌, expression}
use cshell.Arith.Values.{is_ok, is_end, failed, read_value}
use cshell.Arith.Lexer.{next_token}
use cshell.Arith.Operation.{zero_ℤ}

-- A parser at the start of a text.
abbrev pub start_parser : Bytes → State → (ShellOption → Bool) → Memory → Parser
start_parser text s options m = record {
  next = text;
  text = [];
  token = end_token;
  error = ok;
  state = s;
  options = options;
  incomplete = false;
  memory = m;
}

-- The fuel of every run: more than the bytes of its text.
abbrev pub fuel_for : Bytes → ℕ
fuel_for text = length text + 3

-- `*out` is written if the last read succeeds.
unfoldable pub finish_read : Bool → Value → Parser → Option ℤ × Parser
finish_read execute v p =
    let (n, p') = read_value v execute p in
    if is_ok p.error then ((if is_ok p'.error then some n else none), p') else (none, p)

unfoldable pub check_end : Parser → Parser
check_end p = if is_ok p.error then (if is_end p.token then p else failed syntax p) else p

-- `run`: the number written to `*out`, if one is, and the parser it leaves.
unfoldable pub run : Libc → (ℕ → Bool) → ℕ → Bool → Parser → Option (Option ℤ × Parser)
run libc stack fuel execute p =
    let q = next_token p in
    let parsed : Run =
      if is_end q.token then some (plain zero_ℤ, q) else expression libc stack fuel 0 1 execute q in
    elim parsed [ none ↦ none | some (v, r) ↦ some (finish_read execute v (check_end r)) ]

-- `csh_arith_probe`. The parser has no state there, and never looks at it; `s` stands for any.
unfoldable pub probe : Libc → (ℕ → Bool) → State → Bytes → Option ArithResult
probe libc stack s text =
    elim (run libc stack (fuel_for text) false (start_parser text s (λ o. false) [])) [
      | none ↦ none
      | some (n, p) ↦ some p.error
    ]

unfoldable pub is_resource : ArithResult → Bool
is_resource resource = true
is_resource _ = false

-- `csh_arith_probe_prefix`: `none` of the inner option is -1.
unfoldable pub probe_prefix : Libc → (ℕ → Bool) → State → Bytes → Option (Option Bool)
probe_prefix libc stack s text =
    elim (run libc stack (fuel_for text) false (start_parser text s (λ o. false) [])) [
      | none ↦ none
      | some (n, p) ↦
          some (if is_resource p.error then none else some (is_ok p.error || p.incomplete))
    ]

-- What `csh_arith_eval` leaves.
pub record Evaluated : Type 0 where
  pub result : ArithResult
  pub out : Option ℤ
  pub state : State
  pub payloads : Payloads
  pub memory : Memory

-- Behind `run`: the checkpoint is restored after an error, and destroyed in any case.
unfoldable pub settle : Libc → State → Payloads → Option ℤ → Parser → Evaluated
settle libc saved h n p =
    let (s', h') = restore libc p.state saved h in
    if is_ok p.error
    then record {
      result = p.error;
      out = n;
      state = p.state;
      payloads = checkpoint_destroy saved h;
      memory = p.memory;
    }
    else record { result = p.error; out = n; state = s'; payloads = h'; memory = p.memory }

unfoldable pub evaluate_from :
    Libc → (ℕ → Bool) → Bytes → State → Option State → Payloads → Memory → Option Evaluated
evaluate_from libc stack text s none h m =
    some (record { result = nomem; out = none; state = s; payloads = h; memory = m })
evaluate_from libc stack text s (some saved) h m =
    elim (run libc stack (fuel_for text) true (start_parser text s s.info.options m)) [
      | none ↦ none
      | some (n, p) ↦ some (settle libc saved h n p)
    ]

-- `csh_arith_eval`, for a text shorter than SIZE_MAX: the text is copied and the state saved, then
-- it is run. `out` is what is written to `*out`, if anything.
unfoldable pub eval : Libc → (ℕ → Bool) → Bytes → State → Payloads → Memory → Option Evaluated
eval libc stack text s h m =
    let (copied, left) = allocate m in
    let (r, saved, h', left') = save s h left in
    if copied
    then evaluate_from libc stack text s saved h' left'
    else some (record { result = nomem; out = none; state = s; payloads = h; memory = left })
