-- ===== src/Fields/Pattern.antt =====
-- The encoding of a field as a pattern: `bracket_subexpression` and `make_pattern`.
pub mod Bounds
pub mod Quoted
use cshell.Prelude.{
  ℕ, zero, suc, ◌+◌, Bool, true, false, not, ◌&&◌, ◌||◌, Option, none, some, List, [], ◌∷◌, ◌++◌,
  ltb, ◌==◌, if◌then◌else◌,
}
use cshell.Prelude.Bytes.{Bytes}
use cshell.Prelude.Lists.{length, take, drop}
use cshell.Character.{Characters, character_length}
use cshell.Fields.{Mark, bytes_of, Polls, poll}

-- Outside a list, before its first member, behind an initial `!`, and where `]` can close it.
pub data Bracket : Type 0 where
  outside first bang member : Bracket

unfoldable pub in_list : Bracket → Bool
in_list outside = false
in_list _ = true

-- `if (bracket) bracket = 3`.
unfoldable pub entered : Bracket → Bracket
entered outside = outside
entered _ = member

-- What `bracket_subexpression` finds: the distance from its `[` to its last byte, 0 for none, and
-- whether a byte of it is quoted; or an interruption.
pub data Found : Type 0 where
  found : ℕ → Bool → Polls → Found
  stopped : Polls → Found

unfoldable pub closes : ℕ → Bool → List Mark → Bool
closes kind at_first [] = false
closes kind at_first (m ∷ []) = false
closes kind at_first (m ∷ n ∷ ms) = not at_first && m.byte == kind && n.byte == b']'

-- Whether the byte behind is quoted.
unfoldable pub next_quoted : List Mark → Bool
next_quoted [] = false
next_quoted (m ∷ []) = false
next_quoted (m ∷ n ∷ ms) = n.quoted

-- The loop, on fuel: `i` is the distance of `rest` from the `[`.
unfoldable pub sub_loop :
    Characters → Bool → ℕ → Bool → ℕ → List Mark → ℕ → Bool → Polls → Option Found
sub_loop lib paths kind at_first zero rest i quoted polls = none
sub_loop lib paths kind at_first (suc f) [] i quoted polls = some (found 0 quoted polls)
sub_loop lib paths kind at_first (suc f) (m ∷ ms) i quoted polls =
    let (stop, polls') = poll polls in
    let width = character_length lib (bytes_of (m ∷ ms)) false true in
    let later =
      sub_loop lib paths kind false f (drop width (m ∷ ms)) (i + width) (quoted || m.quoted)
        polls' in
    if stop
    then some (stopped polls')
    else if paths && m.byte == b'/'
    then some (found 0 quoted polls')
    else if closes kind at_first (m ∷ ms)
    then some (found (i + 1) (quoted || m.quoted || next_quoted (m ∷ ms)) polls')
    else later

unfoldable pub opens_class : ℕ → Bool
opens_class c = c == b':' || c == b'.' || c == b'='

-- `bracket_subexpression`, on what is left from its `[` on.
unfoldable pub bracket_subexpression : Characters → Bool → List Mark → Polls → Option Found
bracket_subexpression lib paths [] polls = some (found 0 false polls)
bracket_subexpression lib paths (m ∷ []) polls = some (found 0 false polls)
bracket_subexpression lib paths (m ∷ n ∷ ms) polls =
    if opens_class n.byte
    then sub_loop lib paths n.byte true (suc (length (n ∷ ms))) (n ∷ ms) 1 false polls
    else some (found 0 false polls)

-- A byte that a pattern reads as more than itself.
unfoldable pub is_special : ℕ → Bool
is_special c =
    c == b'*' || c == b'?' || c == b'[' || c == b']' || c == b'-' || c == b'!' || c == b'^'

-- Whether a protective backslash goes in front.
unfoldable pub is_protected : Bool → Mark → Bool
is_protected force m =
    force || (m.byte == b'\\' && (m.quoted || m.literal)) || (m.quoted && is_special m.byte)

unfoldable pub next_bracket : Bool → Mark → Bracket → Bracket
next_bracket force m outside =
    if m.byte == b'[' && not m.quoted && not force then first else outside
next_bracket force m first = if m.byte == b'!' && not m.quoted then bang else member
next_bracket force m bang = member
next_bracket force m member = if m.byte == b']' && not m.quoted then outside else member

-- The pattern, or none for an interruption, and the callback.
abbrev pub Made : Type 0
Made = Option (Option Bytes × Polls)

-- Bytes in front of what the rest of the loop writes.
unfoldable pub put : Bytes → Made → Made
put b none = none
put b (some (none, p)) = some (none, p)
put b (some (some rest, p)) = some (some (b ++ rest), p)

-- The loop of `make_pattern`, on fuel: what is left, `pending_escape`, `bracket` and the callback.
unfoldable pub make_loop : Characters → Bool → ℕ → List Mark → Bool → Bracket → Polls → Made
make_loop lib paths zero rest pending b polls = none
make_loop lib paths (suc f) [] pending b polls = some (some [], polls)
make_loop lib paths (suc f) (m ∷ ms) pending b polls =
    let width = character_length lib (bytes_of (m ∷ ms)) false true in
    let (stop, p) = poll polls in
    let here = if paths && m.byte == b'/' then outside else b in
    elim stop [
      | true ↦ some (none, p)
      | false ↦ elim (ltb 1 width) [
        | true ↦
            put (take width (bytes_of (m ∷ ms)))
              (make_loop lib paths f (drop width (m ∷ ms)) false (entered b) p)
        | false ↦ elim pending [
          | true ↦ put (m.byte ∷ []) (make_loop lib paths f ms false (entered here) p)
          | false ↦
              elim (if in_list here && m.byte == b'[' && not m.quoted
                then bracket_subexpression lib paths (m ∷ ms) p
                else some (found 0 false p)) [
                  | none ↦ none
                  | some (stopped p') ↦ some (none, p')
                  | some (found n quoted p') ↦ elim (not (n == 0) && not quoted) [
                    | true ↦
                        put (take (suc n) (bytes_of (m ∷ ms)))
                          (make_loop lib paths f (drop (suc n) (m ∷ ms)) false member p')
                    | false ↦
                        let force = not (n == 0) && quoted in
                        let escapes = not (is_protected force m) && m.byte == b'\\' in
                        put (if is_protected force m then b'\\' ∷ m.byte ∷ [] else m.byte ∷ []) (
                          make_loop lib paths f ms escapes
                            (if escapes then here else next_bracket force m here) p')
                  ]
                ]
        ]
      ]
    ]

-- `make_pattern`; `paths` is whether the context is CSH_EXPAND_ARGUMENT.
unfoldable pub make_pattern : Characters → Bool → List Mark → Polls → Made
make_pattern lib paths raw polls = make_loop lib paths (suc (length raw)) raw false outside polls
