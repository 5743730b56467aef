-- ===== src/Fields/Split/Total.antt =====
-- `csh_expand_fields` comes to an end: each round of its loops has fewer bytes and spans left.
use cshell.Prelude.{
  ℕ, zero, suc, ◌+◌, ◌*◌, ◌≤◌, ◌<◌, ◌≡◌, refl, Bool, true, false, not, ◌&&◌, ◌||◌, Option, none,
  some, List, [], ◌∷◌, ◌++◌, arith, ◌==◌, if◌then◌else◌, Bool-cases, inl, inr,
}
use cshell.Prelude.Bytes.{Bytes}
use cshell.Prelude.Lists.{length, take, drop}
use cshell.Prelude.Memory.{Memory, allocate}
use cshell.Character.{character_length}
use cshell.Fields.{
  Context, argument, assignment, pattern_word, redirection, heredoc, Result, ok, no_memory, limit,
  io, interrupted, Span, Mark, bytes_of, Polls, poll, Output, append, is_argument,
}
use cshell.Fields.Pattern.{Made, make_pattern}
use cshell.Fields.Pattern.Bounds.{Within, make_pattern-Within}
use cshell.Fields.Split.{
  Setting, Cursor, settle, current, delimiter, emit_pattern, emit, check_spans, marks, amount, Rest,
  and_then, split_field, finish, delimited, field_round, field_loop, finish_field, fields_loop,
  expand_fields,
}
use cshell.Fields.Split.Left.{
  left, Behind, Stands, left-amount, left-settle, delimiter_le, white_loop-Behind, settle-Stands,
  left-character,
}

-- A result that is there.
abbrev Given : Option (Result × Output) → Type 0
Given none = ⊥
Given (some r) = Unit

Given-if :
    (b : Bool) (x y : Option (Result × Output)) → Given x → Given y → Given (if b then x else y)
Given-if true x y h k = h
Given-if false x y h k = k

emit_pattern-Given :
    (set : Setting) (context : Context) (raw : List Mark) (out : Output)
    → Given (emit_pattern set context raw out)
unfolding emit_pattern
emit_pattern-Given set context raw out =
    by_made (make_pattern set.lib (is_argument context) raw out.polls)
      (make_pattern-Within set.lib (is_argument context) raw out.polls)
  where
    by_made :
        (made : Made)
        → Within (2 * length raw) made
        → Given (elim made as (λ z. Option (Result × Output)) [
          | none ↦ none
          | some (none, p) ↦ some (interrupted, record out { polls = p })
          | some (some pattern, p) ↦
              let out' : Output = record out { polls = p } in
              if is_argument context
              then some (set.pathname_expand (bytes_of raw) pattern out')
              else some (append pattern out')
        ])
    by_made none w = w
    by_made (some (none, p)) w = tt
    by_made (some (some pattern, p)) w = Given-if (is_argument context) _ _ tt tt

emit-Given :
    (set : Setting) (context : Context) (raw : List Mark) (out : Output)
    → Given (emit set context raw out)
unfolding emit
emit-Given set argument raw out =
    Given-if set.noglob _ _ tt (emit_pattern-Given set argument raw out)
emit-Given set assignment raw out = tt
emit-Given set pattern_word raw out = emit_pattern-Given set pattern_word raw out
emit-Given set redirection raw out = tt
emit-Given set heredoc raw out = tt

and_then-Given :
    (rest : Output → Option (Result × Output)) (r : Option (Result × Output))
    → ((out : Output) → Given (rest out))
    → Given r
    → Given (and_then rest r)
unfolding and_then
and_then-Given rest none h g = g
and_then-Given rest (some (ok, out)) h g = h out
and_then-Given rest (some (Result.invalid, out)) h g = tt
and_then-Given rest (some (no_memory, out)) h g = tt
and_then-Given rest (some (limit, out)) h g = tt
and_then-Given rest (some (io, out)) h g = tt
and_then-Given rest (some (interrupted, out)) h g = tt

module _ (set : Setting) (context : Context) (rest : Rest) (bound : ℕ)
    (goes : (c : Cursor) (raw : List Mark) (keep : Bool) (out : Output)
      → left c.spans c.offset < bound
      → Given (rest c raw keep out)) where
  delimited-Given :
      (raw : List Mark) (keep : Bool) (out : Output) (n : ℕ) (c : Cursor)
      (r : Option (Option (ℕ × Cursor) × Polls))
      → n == 0 ≡ false
      → left c.spans c.offset ≤ bound
      → Behind n c r
      → Given (delimited set context rest raw keep out r)
  unfolding delimited
  delimited-Given raw keep out n c none z h b = b
  delimited-Given raw keep out n c (some (none, p)) z h b = tt
  delimited-Given raw keep out n c (some (some (k, d), p)) z h b =
      let next : Cursor = record d { offset = d.offset + k } in
      let out' : Output = record out { polls = p } in
      let less : left next.spans next.offset < bound = ground (arith, z, h, b) in
      elim (Bool-cases (not (length raw == 0) || keep || not (k == 0))) [
        | inl e ↦
            rw (e, delimited)
              (and_then-Given (rest next [] false) (emit set context raw out')
                (λ done. goes next [] false done less) (emit-Given set context raw out'))
        | inr e ↦ rw (e, delimited) (goes next [] false out' less)
      ]

  -- A round hands on less than it has, which is at most `bound`.
  field_round-Given :
      (ss : List Span) (o : ℕ) (raw : List Mark) (keep : Bool) (out : Output)
      → Stands ss o
      → left ss o ≤ bound
      → Given (field_round set context rest ss o raw keep out)
  unfolding field_round
  field_round-Given [] o raw keep out s h =
      Given-if (not (length raw == 0) || keep) _ _ (emit-Given set context raw out) tt
  field_round-Given (s ∷ ss) o raw keep out stands h =
      let at : Cursor = record { spans = s ∷ ss; offset = o } in
      let p = (poll out.polls).1 in
      let out' : Output = record out { polls = p } in
      let found = if is_argument context then delimiter set.lib set.ifs at else (0, false) in
      elim (Bool-cases (poll out.polls).0) [
        | inl stop ↦ rw (stop, field_round) tt
        | inr go ↦ elim (Bool-cases (length s.text == 0)) [
          | inl none_left ↦
              rw (go, none_left, field_round)
                (goes (record { spans = ss; offset = o }) raw true out'
                  (omega (arith, left-amount ss o, h)))
          | inr some_left ↦ elim (Bool-cases (found.0 == 0)) [
            | inl plain ↦
                rw (go, some_left, plain, field_round)
                  (goes _
                    (raw
                      ++ marks s (
                          take (character_length set.lib (drop o s.text) false true)
                            (drop o s.text)))
                    keep out'
                    (left-character set.lib s ss o bound (ground (arith, stands, some_left)) h))
            | inr at_one ↦
                rw (go, some_left, at_one, field_round)
                  (delimited-Given raw keep out' found.0 at _ at_one h (
                    white_loop-Behind set (suc (amount (s ∷ ss))) found.0 found.1 at p
                      (ground (arith, delimiter_le set.lib set.ifs at)) (omega arith)))
          ]
        ]
      ]

field_loop-Given :
    (set : Setting) (context : Context) (f : ℕ) (c : Cursor) (raw : List Mark) (keep : Bool)
    (out : Output)
    → left c.spans c.offset < f
    → Given (field_loop set context f c raw keep out)
unfolding field_loop current
field_loop-Given set context zero c raw keep out h = absurd (omega (arith, h))
field_loop-Given set context (suc f) c raw keep out h =
    field_round-Given set context (field_loop set context f) f (field_loop-Given set context f)
      (settle c.spans c.offset).spans (settle c.spans c.offset).offset raw keep out
      (settle-Stands c.spans c.offset) (omega (arith, h, left-settle c.spans c.offset))

split_field-Given :
    (set : Setting) (context : Context) (spans : List Span) (out : Output)
    → Given (split_field set context spans out)
unfolding split_field
split_field-Given set context spans out =
    let m = out.memory in
    let m1 = (allocate m).1 in
    let m2 = (allocate m1).1 in
    Given-if ((allocate m).0 && (allocate m1).0 && (allocate m2).0) _ _
      (field_loop-Given set context (suc (amount spans)) (record { spans = spans; offset = 0 }) []
        (not (is_argument context)) (record out { memory = (allocate m2).1 })
        (omega (arith, left-amount spans 0)))
      tt

finish_field-Given :
    (set : Setting) (context : Context) (spans : List Span) (out : Output)
    → Given (finish_field set context spans out)
unfolding finish_field
finish_field-Given set context spans out =
    and_then-Given (split_field set context spans) (some (check_spans spans out))
      (split_field-Given set context spans) tt

fields_loop-Given :
    (set : Setting) (context : Context) (fields : List (List Span)) (out : Output)
    → Given (fields_loop set context fields out)
unfolding fields_loop
fields_loop-Given set context [] out = tt
fields_loop-Given set context (f ∷ fs) out =
    let out' : Output = record out { polls = (poll out.polls).1 } in
    Given-if (poll out.polls).0 _ _ tt (
      and_then-Given (fields_loop set context fs) (finish_field set context f out')
        (fields_loop-Given set context fs) (finish_field-Given set context f out'))

-- The result is there, and comes with no field unless it is CSH_EXPAND_OK.
abbrev pub Expanded : Option (Result × List Bytes) → Type 0
Expanded none = ⊥
Expanded (some (ok, values)) = Unit
Expanded (some (e, values)) = values ≡ []

Expanded-if :
    (b : Bool) (values : List Bytes)
    → Expanded (if b then some (interrupted, []) else some (ok, values))
Expanded-if true values = refl
Expanded-if false values = tt

finish-Expanded : (r : Option (Result × Output)) → Given r → Expanded (finish r)
unfolding finish
finish-Expanded none g = g
finish-Expanded (some (ok, out)) g = Expanded-if (poll out.polls).0 out.values
finish-Expanded (some (Result.invalid, out)) g = refl
finish-Expanded (some (no_memory, out)) g = refl
finish-Expanded (some (limit, out)) g = refl
finish-Expanded (some (io, out)) g = refl
finish-Expanded (some (interrupted, out)) g = refl

-- `csh_expand_fields` comes to an end on every expansion, in every context and for every IFS,
-- whatever `mbrlen`, the allocations, the interruption callback and the pathname expansion (if it
-- ends) answer; with a result other than CSH_EXPAND_OK it gives no field.
pub expand_fields-Expanded :
    (set : Setting) (context : Context) (fields : List (List Span)) (m : Memory) (polls : Polls)
    → Expanded (expand_fields set context fields m polls)
unfolding expand_fields
expand_fields-Expanded set context fields m polls =
    finish-Expanded _
      (fields_loop-Given set context fields (record { values = []; memory = m; polls = polls }))
