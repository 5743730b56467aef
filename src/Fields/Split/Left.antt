-- ===== src/Fields/Split/Left.antt =====
-- What is left at a cursor, and that `current`, a delimiter and the white space make it less.
use cshell.Prelude.{
  ℕ, zero, suc, ◌+◌, ◌-◌, ◌≤◌, ◌<◌, ◌≡◌, Bool, true, false, not, ◌&&◌, ◌||◌, Option, none, some,
  List, [], ◌∷◌, arith, ltb, ◌==◌, if◌then◌else◌, Bool-cases, inl, inr,
}
use cshell.Prelude.Bytes.{Bytes}
use cshell.Prelude.Lists.{length, drop}
use cshell.Character.{Characters, character_length}
use cshell.Fields.{Span, Polls, poll, is_quoted}
use cshell.Fields.Pattern.Bounds.{character_length_pos}
use cshell.Fields.Split.{
  Setting, Cursor, settle, current, ifs_width, ifs_loop, delimiter, white_loop, amount,
}

-- The bytes and spans that are left at a cursor, and the bytes of its span.
abbrev pub left : List Span → ℕ → ℕ
left [] o = 0
left (s ∷ ss) o = suc (length s.text - o) + amount ss

abbrev pub room : List Span → ℕ → ℕ
room [] o = 0
room (s ∷ ss) o = length s.text - o

pub left-amount : (ss : List Span) (o : ℕ) → left ss o ≤ amount ss
left-amount [] o = omega arith
left-amount (s ∷ ss) o = omega arith

pub left-settle :
    (ss : List Span) (o : ℕ) → left (settle ss o).spans (settle ss o).offset ≤ left ss o
unfolding settle
left-settle [] o = omega arith
left-settle (s ∷ ss) o = ground (arith, left-settle ss 0, left-amount ss 0)

left-advance : (ss : List Span) (o n : ℕ) → n ≤ room ss o → left ss (o + n) + n ≤ left ss o
left-advance [] o n h = omega (arith, h)
left-advance (s ∷ ss) o n h = omega (arith, h)

ifs_loop_le :
    (lib : Characters) (f : ℕ) (ifs rest : Bytes) → (ifs_loop lib f ifs rest).0 ≤ length rest
unfolding ifs_loop
ifs_loop_le lib zero ifs rest = omega arith
ifs_loop_le lib (suc f) [] rest = omega arith
ifs_loop_le lib (suc f) (c ∷ cs) rest =
    ground (arith, ifs_loop_le lib f (drop (ifs_width lib (c ∷ cs)) (c ∷ cs)) rest)

length-drop_eq : (n : ℕ) (b : Bytes) → length (drop n b) ≡ length b - n
length-drop_eq zero b = omega arith
length-drop_eq (suc n) [] = omega arith
length-drop_eq (suc n) (x ∷ b) = omega (arith, length-drop_eq n b)

pub delimiter_le :
    (lib : Characters) (ifs : Bytes) (c : Cursor) → (delimiter lib ifs c).0 ≤ room c.spans c.offset
unfolding delimiter
delimiter_le lib ifs c = by_spans c.spans c.offset
  where
    by_spans :
        (ss : List Span) (o : ℕ)
        → (elim ss as (λ x. ℕ × Bool) [
          | [] ↦ (0, false)
          | s ∷ rest ↦
              if s.split && not (is_quoted s.quote) && not (o == length s.text)
              then ifs_loop lib (length ifs) ifs (drop o s.text)
              else (0, false)
        ]).0
          ≤ room ss o
    by_spans [] o = omega arith
    by_spans (s ∷ rest) o =
        ground (arith, ifs_loop_le lib (length ifs) ifs (drop o s.text), length-drop_eq o s.text)

-- The loop over white space ended: it was interrupted, or the cursor behind the delimiter has less
-- left than before, if there was one.
abbrev pub Behind : ℕ → Cursor → Option (Option (ℕ × Cursor) × Polls) → Type 0
Behind n c none = ⊥
Behind n c (some (none, p)) = Unit
Behind n c (some (some (n', c'), p)) =
    left c'.spans (c'.offset + n') + (if n == 0 then 0 else 1) ≤ left c.spans c.offset

Behind-less :
    (n : ℕ) (c : Cursor) (n' : ℕ) (c' : Cursor) (r : Option (Option (ℕ × Cursor) × Polls))
    → left c'.spans c'.offset < left c.spans c.offset
    → Behind n' c' r
    → Behind n c r
Behind-less n c n' c' none h b = b
Behind-less n c n' c' (some (none, p)) h b = tt
Behind-less n c n' c' (some (some (k, d), p)) h b = ground (arith, h, b)

pub white_loop-Behind :
    (set : Setting) (f n : ℕ) (white : Bool) (c : Cursor) (polls : Polls)
    → n ≤ room c.spans c.offset
    → left c.spans c.offset < f
    → Behind n c (white_loop set f n white c polls)
unfolding white_loop current
white_loop-Behind set zero n white c polls r h = absurd (omega (arith, h))
white_loop-Behind set (suc f) n white c polls r h =
    let next = current (record c { offset = c.offset + n }) in
    let found = delimiter set.lib set.ifs next in
    let fewer = left-settle c.spans (c.offset + n) in
    let moved = left-advance c.spans c.offset n r in
    elim (Bool-cases (not (n == 0) && white)) [
      | inr e ↦ rw (e, Behind) (ground (arith, moved))
      | inl e ↦ elim (Bool-cases (poll polls).0) [
        | inl stop ↦ rw (e, stop, Behind) tt
        | inr go ↦
            rw (e, go, Behind)
              (Behind-less n c found.0 next (white_loop set f found.0 found.1 next (poll polls).1)
                (ground (arith, fewer, moved, e))
                (white_loop-Behind set f found.0 found.1 next (poll polls).1
                  (delimiter_le set.lib set.ifs next) (ground (arith, fewer, moved, e, h))))
      ]
    ]

-- Where `current` comes to stand: inside a span, or at an empty one.
abbrev pub Stands : List Span → ℕ → Type 0
Stands [] o = Unit
Stands (s ∷ ss) o = (ltb o (length s.text) || length s.text == 0) ≡ true

pub settle-Stands : (ss : List Span) (o : ℕ) → Stands (settle ss o).spans (settle ss o).offset
unfolding settle
settle-Stands [] o = tt
settle-Stands (s ∷ ss) o =
    elim (Bool-cases (ltb o (length s.text) || (length s.text == 0 && s.keep_empty))) [
      | inl e ↦ rw (e, Stands) (ground (arith, e))
      | inr e ↦ rw (e, Stands) (settle-Stands ss 0)
    ]

width_pos : (lib : Characters) (b : Bytes) → 0 < length b → 0 < character_length lib b false true
width_pos lib [] h = absurd (omega (arith, h))
width_pos lib (c ∷ cs) h = character_length_pos lib c cs

-- Behind a character there is less left.
pub left-character :
    (lib : Characters) (s : Span) (ss : List Span) (o bound : ℕ)
    → ltb o (length s.text) ≡ true
    → left (s ∷ ss) o ≤ bound
    → left (s ∷ ss) (o + character_length lib (drop o s.text) false true) < bound
left-character lib s ss o bound inside h =
    let some_left : 0 < length (drop o s.text) = ground (arith, inside, length-drop_eq o s.text) in
    ground (arith, inside, h, width_pos lib (drop o s.text) some_left)
