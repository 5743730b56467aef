-- ===== src/Fields/Split.antt =====
-- The splitting of a field at IFS delimiters: `current`, `delimiter`, `emit`, `finish_field` and
-- `csh_expand_fields`.
pub mod Left
pub mod Total
pub mod Words
use cshell.Prelude.{
  ℕ, zero, suc, ◌+◌, ◌-◌, Bool, true, false, not, ◌&&◌, ◌||◌, Option, none, some, List, [], ◌∷◌,
  ◌++◌, ltb, leb, ◌==◌, if◌then◌else◌,
}
use cshell.Prelude.Bytes.{Bytes, bytes_eq}
use cshell.Prelude.Lists.{length, take, drop}
use cshell.Prelude.Memory.{Memory, allocate}
use cshell.Character.{Characters, Count, invalid, incomplete, count, character_length}
use cshell.Fields.{
  Context, argument, assignment, pattern_word, redirection, heredoc, Quoting, Origin, literal_text,
  Result, ok, no_memory, interrupted, Span, Mark, bytes_of, Polls, poll, Output, append, is_quoted,
  is_argument,
}
use cshell.Fields.Pattern.{make_pattern}

-- What the file is given: the C library, `csh_pathname_expand`, IFS and whether NOGLOB is set.
pub record Setting : Type 0 where
  pub lib : Characters
  pub pathname_expand : Bytes → Bytes → Output → Result × Output
  pub ifs : Bytes
  pub noglob : Bool

-- `struct field_cursor`: the spans from its span on, and its offset.
pub record Cursor : Type 0 where
  pub spans : List Span
  pub offset : ℕ

-- `current`: where the cursor comes to stand, at a span or behind the last.
unfoldable pub settle : List Span → ℕ → Cursor
settle [] offset = record { spans = []; offset = offset }
settle (s ∷ ss) offset =
    let here = ltb offset (length s.text) || (length s.text == 0 && s.keep_empty) in
    if here then record { spans = s ∷ ss; offset = offset } else settle ss 0

unfoldable pub current : Cursor → Cursor
current c = settle c.spans c.offset

-- The length of the IFS character that `ifs` begins with.
unfoldable pub ifs_width : Characters → Bytes → ℕ
ifs_width lib ifs = elim (lib.mbrlen false ifs) [
  | invalid ↦ 1
  | incomplete ↦ 1
  | count n ↦ if n == 0 then 1 else n
]

unfoldable pub is_white : Bytes → Bool
is_white [] = false
is_white (c ∷ cs) = c == b' ' || c == b'\t' || c == b'\n'

-- The loop of `delimiter`, on fuel: the length of the delimiter and whether it is white space.
unfoldable pub ifs_loop : Characters → ℕ → Bytes → Bytes → ℕ × Bool
ifs_loop lib zero ifs rest = (0, false)
ifs_loop lib (suc f) [] rest = (0, false)
ifs_loop lib (suc f) (c ∷ cs) rest =
    let n = ifs_width lib (c ∷ cs) in
    let later = ifs_loop lib f (drop n (c ∷ cs)) rest in
    if leb n (length rest) && bytes_eq (take n rest) (take n (c ∷ cs))
    then (n, n == 1 && is_white (c ∷ cs))
    else later

-- `delimiter`, at the cursor.
unfoldable pub delimiter : Characters → Bytes → Cursor → ℕ × Bool
delimiter lib ifs c = elim c.spans [
  | [] ↦ (0, false)
  | s ∷ ss ↦
      if s.split && not (is_quoted s.quote) && not (c.offset == length s.text)
      then ifs_loop lib (length ifs) ifs (drop c.offset s.text)
      else (0, false)
]

-- `emit`; none is a pattern that ran out of fuel.
unfoldable pub emit_pattern : Setting → Context → List Mark → Output → Option (Result × Output)
emit_pattern set context raw out = elim (make_pattern set.lib (is_argument context) raw out.polls) [
  | none ↦ none
  | some (none, p) ↦ some (interrupted, record out { polls = p })
  | some (some pattern, p) ↦
      let out' : Output = record out { polls = p } in
      if is_argument context
      then some (set.pathname_expand (bytes_of raw) pattern out')
      else some (append pattern out')
]

unfoldable pub emit : Setting → Context → List Mark → Output → Option (Result × Output)
emit set argument raw out =
    if set.noglob then some (append (bytes_of raw) out) else emit_pattern set argument raw out
emit set pattern_word raw out = emit_pattern set pattern_word raw out
emit set _ raw out = some (append (bytes_of raw) out)

unfoldable pub has_nul : Bytes → Bool
has_nul [] = false
has_nul (c ∷ cs) = c == 0 || has_nul cs

unfoldable pub is_valid : Span → Bool
is_valid s =
    not (s.split && is_quoted s.quote)
    && not (s.keep_empty && not (is_quoted s.quote))
    && not (has_nul s.text)

-- The loop that looks over the spans: `invalid` or `interrupted`, or ok.
unfoldable pub check_spans : List Span → Output → Result × Output
check_spans [] out = (ok, out)
check_spans (s ∷ ss) out =
    let (stop, p) = poll out.polls in
    let out' : Output = record out { polls = p } in
    let rest = check_spans ss out' in
    if stop then (interrupted, out') else if is_valid s then rest else (Result.invalid, out')

unfoldable pub is_literal : Origin → Bool
is_literal literal_text = true
is_literal _ = false

unfoldable pub marks : Span → Bytes → List Mark
marks s [] = []
marks s (c ∷ cs) =
    record { byte = c; quoted = is_quoted s.quote; literal = is_literal s.origin } ∷ marks s cs

-- The loop over IFS white space: an interruption, or the length of the delimiter behind it and the
-- cursor there. `n` is the length of the one that is found, `white` whether it is white space.
unfoldable pub white_loop :
    Setting → ℕ → ℕ → Bool → Cursor → Polls → Option (Option (ℕ × Cursor) × Polls)
white_loop set zero n white c polls = none
white_loop set (suc f) n white c polls =
    let (stop, p) = poll polls in
    let next = current (record c { offset = c.offset + n }) in
    let (n', white') = delimiter set.lib set.ifs next in
    elim (not (n == 0) && white) [
      | false ↦ some (some (n, c), polls)
      | true ↦ elim stop [ true ↦ some (none, p) | false ↦ white_loop set f n' white' next p ]
    ]

-- The bytes and spans that are left.
abbrev pub amount : List Span → ℕ
amount [] = 0
amount (s ∷ ss) = suc (length s.text) + amount ss

-- The rest of `finish_field`'s loop, from a cursor, `raw` and `keep`.
abbrev pub Rest : Type 0
Rest = Cursor → List Mark → Bool → Output → Option (Result × Output)

-- What follows if the result is CSH_EXPAND_OK.
unfoldable pub and_then :
    (Output → Option (Result × Output)) → Option (Result × Output) → Option (Result × Output)
and_then rest none = none
and_then rest (some (ok, out)) = rest out
and_then rest (some (e, out)) = some (e, out)

-- Behind the white space: the end of a field, if there is one.
unfoldable pub delimited :
    Setting
    → Context
    → Rest
    → List Mark
    → Bool
    → Output
    → Option (Option (ℕ × Cursor) × Polls)
    → Option (Result × Output)
delimited set context rest raw keep out none = none
delimited set context rest raw keep out (some (none, p)) =
    some (interrupted, record out { polls = p })
delimited set context rest raw keep out (some (some (n, c), p)) =
    let out' : Output = record out { polls = p } in
    let next : Cursor = record c { offset = c.offset + n } in
    elim (not (length raw == 0) || keep || not (n == 0)) [
      | false ↦ rest next [] false out'
      | true ↦ and_then (rest next [] false) (emit set context raw out')
    ]

-- One round, at the span and offset of `current`; behind the last span, the last field.
unfoldable pub field_round :
    Setting → Context → Rest → List Span → ℕ → List Mark → Bool → Output → Option (Result × Output)
field_round set context rest [] offset raw keep out =
    if not (length raw == 0) || keep then emit set context raw out else some (ok, out)
field_round set context rest (s ∷ ss) offset raw keep out =
    let at : Cursor = record { spans = s ∷ ss; offset = offset } in
    let (stop, p) = poll out.polls in
    let out' : Output = record out { polls = p } in
    let (n, white) = if is_argument context then delimiter set.lib set.ifs at else (0, false) in
    let text = drop offset s.text in
    let width = character_length set.lib text false true in
    elim stop [
      | true ↦ some (interrupted, out')
      | false ↦ elim (length s.text == 0) [
        | true ↦ rest (record { spans = ss; offset = offset }) raw true out'
        | false ↦ elim (n == 0) [
          | true ↦
              rest (record at { offset = offset + width }) (raw ++ marks s (take width text)) keep
                out'
          | false ↦
              delimited set context rest raw keep out'
                (white_loop set (suc (amount (s ∷ ss))) n white at p)
        ]
      ]
    ]

-- The loop of `finish_field`, on fuel, with `raw` and `keep`.
unfoldable pub field_loop : Setting → Context → ℕ → Rest
field_loop set context zero c raw keep out = none
field_loop set context (suc f) c raw keep out =
    let at = current c in
    field_round set context (field_loop set context f) at.spans at.offset raw keep out

-- The three buffers of `finish_field`, and its loop.
unfoldable pub split_field : Setting → Context → List Span → Output → Option (Result × Output)
split_field set context spans out =
    let (raw_made, m1) = allocate out.memory in
    let (pattern_made, m2) = allocate m1 in
    let (protection_made, m3) = allocate m2 in
    let out' : Output = record out { memory = m3 } in
    if raw_made && pattern_made && protection_made
    then field_loop set context (suc (amount spans)) (record { spans = spans; offset = 0 }) []
        (not (is_argument context)) out'
    else some (no_memory, out')

-- `finish_field`: the check first.
unfoldable pub finish_field : Setting → Context → List Span → Output → Option (Result × Output)
finish_field set context spans out =
    and_then (split_field set context spans) (some (check_spans spans out))

-- The loop of `csh_expand_fields`.
unfoldable pub fields_loop :
    Setting → Context → List (List Span) → Output → Option (Result × Output)
fields_loop set context [] out = some (ok, out)
fields_loop set context (f ∷ fs) out =
    let (stop, p) = poll out.polls in
    let out' : Output = record out { polls = p } in
    let rest = and_then (fields_loop set context fs) (finish_field set context f out') in
    if stop then some (interrupted, out') else rest

-- The fields, or none on an error; the callback is asked once more.
unfoldable pub finish : Option (Result × Output) → Option (Result × List Bytes)
finish none = none
finish (some (ok, out)) =
    if (poll out.polls).0 then some (interrupted, []) else some (ok, out.values)
finish (some (e, out)) = some (e, [])

-- `csh_expand_fields` behind the look at the state: the result and the fields, none on an error.
unfoldable pub expand_fields :
    Setting → Context → List (List Span) → Memory → Polls → Option (Result × List Bytes)
expand_fields set context fields m polls =
    finish (fields_loop set context fields (record { values = []; memory = m; polls = polls }))
