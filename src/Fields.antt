-- ===== src/Fields.antt =====
-- src/fields.c: from the spans of an expanded word to fields. `mbrlen` and the pathname expansion of
-- src/pathname.c are arguments; so is what the interruption callback answers, call after call.
pub mod Pattern
pub mod Split
use cshell.Prelude.{ℕ, Bool, true, false, List, [], ◌∷◌, ◌++◌, if◌then◌else◌}
use cshell.Prelude.Bytes.{Bytes}
use cshell.Prelude.Memory.{Memory, allocate}

-- `enum csh_expand_context`.
pub data Context : Type 0 where
  argument assignment pattern_word redirection heredoc : Context

-- `enum csh_quote`, and `enum csh_expand_origin`.
pub data Quoting : Type 0 where
  unquoted single double dollar_single : Quoting

pub data Origin : Type 0 where
  literal_text tilde parameter arithmetic substitution : Origin

-- The results of `enum csh_expand_result` that this file gives.
pub data Result : Type 0 where
  ok invalid no_memory limit io interrupted : Result

-- `struct csh_expand_span`, with a text.
pub record Span : Type 0 where
  pub text : Bytes
  pub quote : Quoting
  pub origin : Origin
  pub split : Bool
  pub keep_empty : Bool

-- A byte of `raw` with its FIELD_QUOTED and FIELD_LITERAL.
pub record Mark : Type 0 where
  pub byte : ℕ
  pub quoted : Bool
  pub literal : Bool

abbrev pub bytes_of : List Mark → Bytes
bytes_of [] = []
bytes_of (m ∷ ms) = m.byte ∷ bytes_of ms

-- What `interrupted` answers in the coming calls; past the end it is 0.
abbrev pub Polls : Type 0
Polls = List Bool

unfoldable pub poll : Polls → Bool × Polls
poll [] = (false, [])
poll (b ∷ p) = (b, p)

-- `struct csh_fields`, with the memory and the callback.
pub record Output : Type 0 where
  pub values : List Bytes
  pub memory : Memory
  pub polls : Polls

-- `csh_fields_append`: the copy, then the vector.
unfoldable pub append : Bytes → Output → Result × Output
append text out =
    let (copied, m1) = allocate out.memory in
    let (grown, m2) = allocate m1 in
    if copied
    then (if grown
        then (ok, record out { values = out.values ++ (text ∷ []); memory = m2 })
        else (no_memory, record out { memory = m2 }))
    else (no_memory, record out { memory = m1 })

unfoldable pub is_quoted : Quoting → Bool
is_quoted unquoted = false
is_quoted _ = true

unfoldable pub is_argument : Context → Bool
is_argument argument = true
is_argument _ = false
