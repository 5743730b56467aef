-- ===== src/Arith/Operation/Exact.antt =====
-- The tests for overflow are exact: they refuse a sum or a difference just when it is no `long`.
use cshell.Prelude.{Bool, true, ◌≡◌, arith, leb, if◌then◌else◌}
use cshell.Prelude.Int.{ℤ, pos, negsuc, ◌+ℤ◌, ◌-ℤ◌}
use cshell.Arith.{ArithResult, add, sub, long_max}
use cshell.Arith.Operation.{value, fails, operation, add_overflows, sub_overflows}

-- Does a `long` hold the number?
abbrev pub in_range : ℤ → Bool
in_range (pos n) = leb n long_max
in_range (negsuc n) = leb n long_max

-- `operation` adds two numbers that a `long` holds to their sum when a `long` holds that, and
-- leaves a range error when not.
pub operation-add :
    (l r : ℤ)
    → in_range l ≡ true
    → in_range r ≡ true
    → operation add l r ≡ (if in_range (l +ℤ r) then value (l +ℤ r) else fails ArithResult.range)
unfolding operation add_overflows ◌+ℤ◌ ◌-ℤ◌
operation-add (pos l) (pos r) h k = ground arith
operation-add (pos l) (negsuc r) h k = ground arith
operation-add (negsuc l) (pos r) h k = ground arith
operation-add (negsuc l) (negsuc r) h k = ground arith

-- `operation` subtracts two numbers that a `long` holds to their difference when a `long` holds
-- that, and leaves a range error when not.
pub operation-sub :
    (l r : ℤ)
    → in_range l ≡ true
    → in_range r ≡ true
    → operation sub l r ≡ (if in_range (l -ℤ r) then value (l -ℤ r) else fails ArithResult.range)
unfolding operation sub_overflows ◌+ℤ◌ ◌-ℤ◌
operation-sub (pos l) (pos r) h k = ground arith
operation-sub (pos l) (negsuc r) h k = ground arith
operation-sub (negsuc l) (pos r) h k = ground arith
operation-sub (negsuc l) (negsuc r) h k = ground arith
