-- ===== src/Arith/Literal.antt =====
-- Integer constants in decimal, octal and hexadecimal, and the decimal print of `%ld`.
use cshell.Prelude.{
  ℕ, zero, suc, ◌+◌, ◌-◌, ◌*◌, ◌/◌, ◌%◌, Bool, true, false, ◌||◌, Option, none, some, [], ◌∷◌, ◌++◌,
  ltb, leb, ◌==◌, within, if◌then◌else◌,
}
use cshell.Prelude.Bytes.{Bytes}
use cshell.Prelude.Int.{ℤ, pos, negsuc}
use cshell.Arith.{Value, plain, long_max}

-- `digit_value`; `none` is -1.
unfoldable pub digit_value : ℕ → Option ℕ
digit_value c =
    if within b'0' b'9' c
    then some (c - b'0')
    else if within b'a' b'f' c
    then some (c - b'a' + 10)
    else if within b'A' b'F' c
    then some (c - b'A' + 10)
    else none

-- `(unsigned long)LONG_MAX + 1UL`.
abbrev pub limit : ℕ
limit = long_max + 1

-- What the loop keeps: `magnitude` and `too_large`.
pub record Scan : Type 0 where
  pub magnitude : ℕ
  pub too_large : Bool

-- One digit: the multiplication is made only if its result stays within the limit.
unfoldable pub scan_digit : ℕ → ℕ → Scan → Scan
scan_digit base n s =
    if s.too_large
    then s
    else if ltb ((limit - n) / base) s.magnitude
    then record s { too_large = true }
    else record s { magnitude = s.magnitude * base + n }

-- The loop over the digits; `none` is `return 0`.
unfoldable pub scan_digits : ℕ → Bytes → Scan → Option Scan
scan_digits base [] s = some s
scan_digits base (c ∷ cs) s = elim (digit_value c) [
  | none ↦ none
  | some n ↦
      let rest = scan_digits base cs (scan_digit base n s) in if leb base n then none else rest
]

-- The base, and the text from `index` on.
unfoldable pub base_of : Bytes → ℕ × Bytes
base_of [] = (10, [])
base_of (c ∷ []) = if c == b'0' then (8, c ∷ []) else (10, c ∷ [])
base_of (c ∷ d ∷ rest) =
    if c == b'0'
    then (if d == b'x' || d == b'X' then (16, rest) else (8, c ∷ d ∷ rest))
    else (10, c ∷ d ∷ rest)

-- The two assignments to `out`.
unfoldable pub finish_literal : Scan → Value
finish_literal s =
    if s.too_large
    then record (plain (pos 0)) { high = 2 }
    else if ltb long_max s.magnitude
    then record (plain (pos 0)) { high = 1 }
    else plain (pos s.magnitude)

abbrev pub no_digits : Scan
no_digits = record { magnitude = 0; too_large = false }

literal_digits : ℕ × Bytes → Option Value
literal_digits (base, []) = none
literal_digits (base, c ∷ cs) = elim (scan_digits base (c ∷ cs) no_digits) [
  | none ↦ none
  | some s ↦ some (finish_literal s)
]

-- `literal`; `none` is `return 0`. An empty text, or "0x" alone, is none.
unfoldable pub literal : Bytes → Option Value
unfolding literal_digits
literal text = literal_digits (base_of text)

-- The decimal digits of a number below 10 ^ fuel.
unfoldable pub decimal_loop : ℕ → ℕ → Bytes
decimal_loop zero n = []
decimal_loop (suc f) n =
    let front = decimal_loop f (n / 10) in
    if ltb n 10 then (b'0' + n) ∷ [] else front ++ ((b'0' + n % 10) ∷ [])

-- `snprintf(buffer, sizeof(buffer), "%ld", number)`: a magnitude of at most 2 ^ 63 has 19 digits.
unfoldable pub print_long : ℤ → Bytes
print_long (pos n) = decimal_loop 20 n
print_long (negsuc n) = b'-' ∷ decimal_loop 20 (suc n)
