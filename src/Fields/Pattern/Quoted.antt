-- ===== src/Fields/Pattern/Quoted.antt =====
-- A quoted field as a pattern matches itself and nothing else.
use cshell.Prelude.{
  ℕ, zero, suc, ◌<◌, ◌≡◌, refl, ap, ◌∙◌, Bool, true, false, ◌||◌, Option, none, some, List, [], ◌∷◌,
  ◌++◌, arith, ◌==◌, if◌then◌else◌, Bool-cases, inl, inr,
}
use cshell.Prelude.Bytes.{Bytes}
use cshell.Prelude.Lists.{length}
use cshell.Character.{Characters, character_length}
use cshell.Fields.{Mark, bytes_of, poll}
use cshell.Fields.Pattern.{
  outside, in_list, is_special, is_protected, next_bracket, put, make_loop, make_pattern,
}

-- A byte that begins more than itself in a pattern.
abbrev pub is_active : ℕ → Bool
is_active c = c == b'*' || c == b'?' || c == b'['

abbrev pub cons_to : ℕ → Option Bytes → Option Bytes
cons_to c none = none
cons_to c (some cs) = some (c ∷ cs)

-- The one text that a pattern with no active byte matches, by the rule of `fnmatch`: a backslash
-- makes the next byte stand for itself.
unfoldable pub literal_of : Bytes → Option Bytes
literal_of [] = some []
literal_of (c ∷ []) = if c == b'\\' || is_active c then none else some (c ∷ [])
literal_of (c ∷ d ∷ cs) = elim (c == b'\\') [
  | true ↦ cons_to d (literal_of cs)
  | false ↦ elim (is_active c) [ true ↦ none | false ↦ cons_to c (literal_of (d ∷ cs)) ]
]

abbrev pub AllQuoted : List Mark → Type 0
AllQuoted [] = Unit
AllQuoted (m ∷ ms) = (m.quoted ≡ true) × AllQuoted ms

unfoldable encoded : List Mark → Bytes
encoded [] = []
encoded (m ∷ ms) = (if is_protected false m then b'\\' ∷ m.byte ∷ [] else m.byte ∷ []) ++ encoded ms

make_loop-encoded :
    (lib : Characters) (paths : Bool) (f : ℕ) (raw : List Mark)
    → ((c : ℕ) (cs : Bytes) → character_length lib (c ∷ cs) false true ≡ 1)
    → AllQuoted raw
    → length raw < f
    → make_loop lib paths f raw false outside [] ≡ some (some (encoded raw), [])
unfolding make_loop encoded poll in_list is_protected next_bracket put
make_loop-encoded lib paths zero raw one q h = absurd (omega (arith, h))
make_loop-encoded lib paths (suc f) [] one q h = refl
make_loop-encoded lib paths (suc f) (m ∷ ms) one q h =
    let rest = make_loop-encoded lib paths f ms one q.1 (omega (arith, h)) in
    ground (arith, rest, one m.byte (bytes_of ms), q.0)

literal_of-plain :
    (c : ℕ) (cs : Bytes)
    → c == b'\\' ≡ false
    → is_active c ≡ false
    → literal_of (c ∷ cs) ≡ cons_to c (literal_of cs)
unfolding literal_of
literal_of-plain c [] h k = ground (arith, h, k)
literal_of-plain c (d ∷ cs) h k = ground (arith, h, k)

-- One byte, protected or not.
literal_of-mark :
    (m : Mark) (cs : Bytes)
    → m.quoted ≡ true
    → literal_of ((if is_protected false m then b'\\' ∷ m.byte ∷ [] else m.byte ∷ []) ++ cs)
      ≡ cons_to m.byte (literal_of cs)
unfolding is_protected is_special
literal_of-mark m cs q = elim (Bool-cases (is_protected false m)) [
  | inl p ↦ rw p (unfold literal_of in refl)
  | inr p ↦ rw p (literal_of-plain m.byte cs (ground (arith, p, q)) (ground (arith, p, q)))
]

literal_of-encoded :
    (raw : List Mark) → AllQuoted raw → literal_of (encoded raw) ≡ some (bytes_of raw)
unfolding encoded
literal_of-encoded [] q = unfold literal_of in refl
literal_of-encoded (m ∷ ms) q =
    literal_of-mark m (encoded ms) q.0 ∙ ap (cons_to m.byte) (literal_of-encoded ms q.1)

-- In a locale of one-byte characters, the pattern that `make_pattern` makes of a field whose bytes
-- are all quoted, uninterrupted, is read by `fnmatch` as that field's bytes, each for itself.
pub make_pattern-quoted :
    (lib : Characters) (paths : Bool) (raw : List Mark)
    → ((c : ℕ) (cs : Bytes) → character_length lib (c ∷ cs) false true ≡ 1)
    → AllQuoted raw
    → (pattern : Bytes) × (make_pattern lib paths raw [] ≡ some (some pattern, []))
      × (literal_of pattern ≡ some (bytes_of raw))
unfolding make_pattern
make_pattern-quoted lib paths raw one q = (
  encoded raw,
  make_loop-encoded lib paths (suc (length raw)) raw one q (omega arith),
  literal_of-encoded raw q,
)
