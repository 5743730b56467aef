-- ===== src/Character.antt =====
-- Character lengths: src/character.c. `mbrlen` is the C library's, in the locale of the lexer (the
-- one captured at startup) or in the present one.
use cshell.Prelude.{ℕ, Bool, [], ◌∷◌, ltb, ◌==◌, if◌then◌else◌}
use cshell.Prelude.Bytes.{Bytes}

-- What `mbrlen` answers: (size_t)-1, (size_t)-2, or a count.
pub data Count : Type 0 where
  invalid incomplete : Count
  count : ℕ → Count

-- The two calls of the C library: `mbrlen` for the lexer's locale or the present one, and whether
-- `btowc` knows a byte in the present one.
pub record Characters : Type 0 where
  pub mbrlen : Bool → Bytes → Count
  pub btowc : ℕ → Bool

-- `csh_character_length`.
unfoldable pub character_length : Characters → Bytes → Bool → Bool → ℕ
character_length lib [] lexical final = 0
character_length lib (c ∷ cs) lexical final =
    if ltb c 128 then 1 else elim (lib.mbrlen lexical (c ∷ cs)) [
      | invalid ↦ 1
      | incomplete ↦ if final then 1 else 0
      | count n ↦ if n == 0 then 1 else n
    ]
