-- ===== src/Prelude/Memory.antt =====
-- What `malloc` answers: the outcomes of the coming allocations, in order. Past the end of the
-- list every allocation succeeds, so `[]` is a machine that does not run out.
use cshell.Prelude.{ℕ, zero, suc, Bool, true, false, List, [], ◌∷◌, ◌≡◌, refl, if◌then◌else◌}

abbrev pub Memory : Type 0
Memory = List Bool

unfoldable pub allocate : Memory → Bool × Memory
allocate [] = (true, [])
allocate (b ∷ m) = (b, m)

-- So many allocations in a row; the first that fails ends the row.
unfoldable pub allocations : ℕ → Memory → Bool × Memory
unfolding allocate
allocations zero m = (true, m)
allocations (suc n) m =
    let (got, left) = allocate m in
    let rest = allocations n left in if got then rest else (false, left)

pub allocations-plenty : (n : ℕ) → allocations n [] ≡ (true, [])
unfolding allocations allocate
allocations-plenty zero = refl
allocations-plenty (suc n) = allocations-plenty n
