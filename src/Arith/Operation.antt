-- ===== src/Arith/Operation.antt =====
-- `operation`: the binary operators, with every overflow and every undefined case of C refused.
pub mod Exact
use Prim.Native.Nat.{bit_and as and_bits, bit_or as or_bits, bit_xor as xor_bits}
use cshell.Prelude.{
  ℕ, suc, ◌+◌, ◌-◌, ◌*◌, ◌/◌, ◌%◌, ◌^◌, Bool, true, false, ◌&&◌, ◌||◌, not, ltb, leb, ◌==◌,
  if◌then◌else◌,
}
use cshell.Prelude.Int.{
  ℤ, pos, negsuc, neg_ℤ, ◌+ℤ◌, ◌-ℤ◌, ◌*ℤ◌, quot, rem, ltb_ℤ, leb_ℤ, eq_ℤ, magnitude,
}
use cshell.Arith.{
  ArithResult, Token, comma, logical_or, logical_and, bit_or, bit_xor, bit_and, eq, ne, lt, le, gt,
  ge, shl, shr, add, sub, mul, div, mod_token, long_max, long_min,
}

-- A number, or the error that the parser is left with.
pub data Computed : Type 0 where
  value : ℤ → Computed
  fails : ArithResult → Computed

abbrev pub zero_ℤ : ℤ
zero_ℤ = pos 0

abbrev pub max_ℤ : ℤ
max_ℤ = pos long_max

-- C's value of a test.
abbrev pub truth : Bool → ℤ
truth b = if b then pos 1 else pos 0

-- `break` out of the switch, or the value.
abbrev pub unless : Bool → ℤ → Computed
unless b n = if b then fails ArithResult.range else value n

unfoldable pub add_overflows : ℤ → ℤ → Bool
add_overflows left right =
    (ltb_ℤ zero_ℤ right && ltb_ℤ (max_ℤ -ℤ right) left)
    || (ltb_ℤ right zero_ℤ && ltb_ℤ left (long_min -ℤ right))

unfoldable pub sub_overflows : ℤ → ℤ → Bool
sub_overflows left right =
    (ltb_ℤ right zero_ℤ && ltb_ℤ (max_ℤ +ℤ right) left)
    || (ltb_ℤ zero_ℤ right && ltb_ℤ left (long_min +ℤ right))

unfoldable pub mul_overflows : ℤ → ℤ → Bool
mul_overflows left right =
    if ltb_ℤ zero_ℤ left
    then (if ltb_ℤ zero_ℤ right
        then ltb_ℤ (quot max_ℤ right) left
        else ltb_ℤ right (quot long_min left))
    else (ltb_ℤ left zero_ℤ
        && (if ltb_ℤ zero_ℤ right
            then ltb_ℤ left (quot long_min right)
            else (ltb_ℤ right zero_ℤ && ltb_ℤ left (quot max_ℤ right))))

unfoldable pub div_undefined : ℤ → ℤ → Bool
div_undefined left right = eq_ℤ right zero_ℤ || (eq_ℤ left long_min && eq_ℤ right (negsuc 0))

-- `left << right` and `left >> right`; `right` is negative or a number of bits.
unfoldable pub shift_left : ℤ → ℤ → Computed
shift_left left (negsuc n) = fails ArithResult.range
shift_left (negsuc l) (pos n) = fails ArithResult.range
shift_left (pos l) (pos n) =
    if leb 64 n
    then fails ArithResult.range
    else if ltb (long_max / 2 ^ n) l
    then fails ArithResult.range
    else value (pos (l * 2 ^ n))

-- A negative number is `-1 - l`, and `-1 - ((-1 - left) >> right)` shifts `l`.
unfoldable pub shift_right : ℤ → ℤ → Computed
shift_right left (negsuc n) = fails ArithResult.range
shift_right (pos l) (pos n) = if leb 64 n then fails ArithResult.range else value (pos (l / 2 ^ n))
shift_right (negsuc l) (pos n) =
    if leb 64 n then fails ArithResult.range else value (negsuc (l / 2 ^ n))

-- The bit pattern of a `long`, and the `long` of a bit pattern.
unfoldable pub to_word : ℤ → ℕ
to_word (pos n) = n
to_word (negsuc n) = 2 ^ 64 - 1 - n

unfoldable pub of_word : ℕ → ℤ
of_word w = if ltb w (2 ^ 63) then pos w else negsuc (2 ^ 64 - 1 - w)

-- `~number`.
unfoldable pub complement : ℤ → ℤ
complement (pos n) = negsuc n
complement (negsuc n) = pos n

-- `operation`; the error is the one it leaves in the parser.
unfoldable pub operation : Token → ℤ → ℤ → Computed
operation add l r = unless (add_overflows l r) (l +ℤ r)
operation sub l r = unless (sub_overflows l r) (l -ℤ r)
operation mul l r = unless (mul_overflows l r) (l *ℤ r)
operation div l r = unless (div_undefined l r) (quot l r)
operation mod_token l r = unless (div_undefined l r) (rem l r)
operation shl l r = shift_left l r
operation shr l r = shift_right l r
operation lt l r = value (truth (ltb_ℤ l r))
operation le l r = value (truth (leb_ℤ l r))
operation gt l r = value (truth (ltb_ℤ r l))
operation ge l r = value (truth (leb_ℤ r l))
operation eq l r = value (truth (eq_ℤ l r))
operation ne l r = value (truth (not (eq_ℤ l r)))
operation bit_and l r = value (of_word (and_bits (to_word l) (to_word r)))
operation bit_xor l r = value (of_word (xor_bits (to_word l) (to_word r)))
operation bit_or l r = value (of_word (or_bits (to_word l) (to_word r)))
operation logical_and l r = value (truth (not (eq_ℤ l zero_ℤ) && not (eq_ℤ r zero_ℤ)))
operation logical_or l r = value (truth (not (eq_ℤ l zero_ℤ) || not (eq_ℤ r zero_ℤ)))
operation comma l r = value r
operation _ l r = fails ArithResult.syntax
