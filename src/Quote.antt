-- ===== src/Quote.antt =====
-- The decoder of `$'...'`: src/quote.c.
pub mod Bounds
use cshell.Prelude.{
  ℕ, zero, suc, ◌+◌, ◌-◌, ◌*◌, ◌%◌, Bool, true, false, not, ◌&&◌, Option, none, some, List, [], ◌∷◌,
  ◌++◌, ltb, within, ◌==◌, if◌then◌else◌,
}
use cshell.Prelude.Bytes.{Bytes}
use cshell.Prelude.Lists.{length, take, drop}
use cshell.Prelude.Memory.{Memory, allocate}
use cshell.Character.{Characters, character_length}

unfoldable pub hexadecimal : ℕ → Option ℕ
hexadecimal c =
    if within b'0' b'9' c
    then some (c - b'0')
    else if within b'a' b'f' c
    then some (c - b'a' + 10)
    else if within b'A' b'F' c
    then some (c - b'A' + 10)
    else none

-- The control byte that `\c` makes of a byte.
unfoldable pub control : ℕ → Option ℕ
control c =
    if within b'a' b'z' c
    then some (c - b'a' + 1)
    else if within b'A' b'Z' c
    then some (c - b'A' + 1)
    else if within b'[' b'_' c
    then some (c - b'[' + 27)
    else if c == b'?'
    then some 127
    else none

-- An octal digit.
unfoldable pub octal : ℕ → Option ℕ
octal c = if within b'0' b'7' c then some (c - b'0') else none

-- The loops over at most `limit` digits of a base: how many there are, the number that begins with
-- `value`, and the bytes behind it.
unfoldable pub digits : (ℕ → Option ℕ) → ℕ → ℕ → ℕ → Bytes → ℕ × ℕ × Bytes
digits digit base zero value text = (0, value, text)
digits digit base (suc limit) value [] = (0, value, [])
digits digit base (suc limit) value (c ∷ cs) = elim (digit c) [
  | none ↦ (0, value, c ∷ cs)
  | some d ↦ let (n, v, rest) = digits digit base limit (value * base + d) cs in (suc n, v, rest)
]

-- An escape: what goes into the result before its byte, the byte, whether the locale has to know
-- it, and the bytes behind.
pub record Escape : Type 0 where
  pub before : Bytes
  pub byte : ℕ
  pub check_control : Bool
  pub rest : Bytes

abbrev pub plainly : ℕ → Bytes → Escape
plainly c cs = record { before = []; byte = c; check_control = false; rest = cs }

abbrev pub kept : ℕ → Bytes → Escape
kept c cs = record { before = b'\\' ∷ []; byte = c; check_control = false; rest = cs }

abbrev pub checked : ℕ → Bytes → Escape
checked c cs = record { before = []; byte = c; check_control = true; rest = cs }

-- `\c\`: the backslash has to be doubled.
unfoldable pub doubled : ℕ → ℕ → Bytes → Escape
doubled e v [] = kept e (b'\\' ∷ [])
doubled e v (d ∷ ds) = if d == b'\\' then checked v ds else kept e (b'\\' ∷ d ∷ ds)

-- `\c`.
unfoldable pub control_escape : ℕ → Bytes → Escape
control_escape e [] = kept e []
control_escape e (c ∷ cs) = elim (control c) [
  | none ↦ kept e (c ∷ cs)
  | some v ↦ if c == b'\\' then doubled e v cs else checked v cs
]

unfoldable pub hex_escape : ℕ → Bytes → Escape
hex_escape e cs =
    let (n, v, rest) = digits hexadecimal 16 2 0 cs in if n == 0 then kept e cs else plainly v rest

unfoldable pub octal_escape : ℕ → Bytes → Escape
octal_escape e cs = let (n, v, rest) = digits octal 8 2 (e - b'0') cs in plainly (v % 256) rest

-- The bytes that stand for one byte each, behind a backslash.
unfoldable pub simple_escape : ℕ → Option ℕ
simple_escape e =
    if e == 34
    then some 34
    else if e == 39
    then some 39
    else if e == b'\\'
    then some b'\\'
    else if e == b'a'
    then some 7
    else if e == b'b'
    then some 8
    else if e == b'f'
    then some 12
    else if e == b'n'
    then some 10
    else if e == b'r'
    then some 13
    else if e == b't'
    then some 9
    else if e == b'v'
    then some 11
    else none

-- The switch on the escaped byte.
unfoldable pub escape : ℕ → Bytes → Escape
escape e cs = elim (simple_escape e) [
  | some c ↦ plainly c cs
  | none ↦
      if e == b'e'
      then checked 27 cs
      else if e == b'c'
      then control_escape e cs
      else if e == b'x'
      then hex_escape e cs
      else if within b'0' b'7' e
      then octal_escape e cs
      else kept e cs
]

-- A round of the loop: bytes of the result and the rest of the region, or its last bytes, or an
-- invalid region.
pub data Step : Type 0 where
  emit : Bytes → Bytes → Step
  stop : Bytes → Step
  refuse : Step

-- The end of a round: a control byte that the locale does not know is refused, NUL ends the region.
unfoldable pub finish : Characters → Escape → Step
finish lib x =
    if x.check_control && not (lib.btowc x.byte)
    then refuse
    else if x.byte == 0
    then stop x.before
    else emit (x.before ++ x.byte ∷ []) x.rest

-- A backslash with something behind it; a wider character there is kept.
unfoldable pub backslash : Characters → ℕ → Bytes → Step
backslash lib e cs =
    let width = character_length lib (e ∷ cs) true true in
    if ltb 1 width
    then emit (b'\\' ∷ take width (e ∷ cs)) (drop width (e ∷ cs))
    else finish lib (escape e cs)

unfoldable pub narrow : Characters → ℕ → Bytes → Step
narrow lib c [] = finish lib (plainly c [])
narrow lib c (e ∷ cs) = if c == b'\\' then backslash lib e cs else finish lib (plainly c (e ∷ cs))

unfoldable pub step : Characters → ℕ → Bytes → Step
step lib c cs =
    let width = character_length lib (c ∷ cs) true true in
    if ltb 1 width then emit (take width (c ∷ cs)) (drop width (c ∷ cs)) else narrow lib c cs

pub data QuoteResult : Type 0 where
  ok : Bytes → QuoteResult
  invalid nomem : QuoteResult

unfoldable pub prepend : Bytes → QuoteResult → QuoteResult
prepend before (ok out) = ok (before ++ out)
prepend before r = r

-- The loop, on fuel; what is behind `before` is the rest of the result.
unfoldable pub decode_loop : Characters → ℕ → Bytes → Option QuoteResult
decode_loop lib zero text = none
decode_loop lib (suc f) [] = some (ok [])
decode_loop lib (suc f) (c ∷ cs) = elim (step lib c cs) [
  | refuse ↦ some invalid
  | stop out ↦ some (ok out)
  | emit out rest ↦ elim (decode_loop lib f rest) [ none ↦ none | some r ↦ some (prepend out r) ]
]

unfoldable pub has_nul : Bytes → Bool
has_nul [] = false
has_nul (c ∷ cs) = if c == 0 then true else has_nul cs

-- `csh_quote_decode`, for a region shorter than SIZE_MAX and pointers that are not null.
unfoldable pub decode : Characters → Bytes → Memory → Option QuoteResult
decode lib text m =
    if has_nul text
    then some invalid
    else if (allocate m).0
    then decode_loop lib (suc (length text)) text
    else some nomem
