-- ===== src/Fields/Pattern/Bounds.antt =====
-- `make_pattern` comes to an end, and its buffer is large enough.
use cshell.Prelude.{
  ℕ, zero, suc, ◌+◌, ◌*◌, ◌≤◌, ◌<◌, ◌≡◌, refl, ap, Bool, true, false, not, ◌&&◌, ◌||◌, Option, none,
  some, List, [], ◌∷◌, arith, ltb, ◌==◌, if◌then◌else◌,
}
use cshell.Prelude.Bytes.{Bytes}
use cshell.Prelude.Lists.{length, take, drop, length-append, length-take-drop, length-drop}
use cshell.Character.{Characters, character_length}
use cshell.Fields.{Mark, bytes_of, Polls, poll}
use cshell.Fields.Pattern.{
  Bracket, outside, member, in_list, entered, Found, found, stopped, closes, sub_loop, opens_class,
  bracket_subexpression, is_protected, next_bracket, Made, put, make_loop, make_pattern,
}

length-bytes_of : (ms : List Mark) → length (bytes_of ms) ≡ length ms
length-bytes_of [] = refl
length-bytes_of (m ∷ ms) = ap suc (length-bytes_of ms)

pub character_length_pos :
    (lib : Characters) (c : ℕ) (cs : Bytes) → 0 < character_length lib (c ∷ cs) false true
unfolding character_length
character_length_pos lib c cs = ground arith

-- A drop of at least one entry.
drop_pos : (n : ℕ) (m : Mark) (ms : List Mark) → 0 < n → length (drop n (m ∷ ms)) ≤ length ms
drop_pos zero m ms h = absurd (omega (arith, h))
drop_pos (suc n) m ms h = length-drop n m ms

abbrev Answered : Option Found → Type 0
Answered none = ⊥
Answered (some r) = Unit

Answered-if :
    (b : Bool) (x y : Option Found) → Answered x → Answered y → Answered (if b then x else y)
Answered-if true x y h k = h
Answered-if false x y h k = k

sub_loop-Answered :
    (lib : Characters) (paths : Bool) (kind : ℕ) (at_first : Bool) (f : ℕ) (rest : List Mark)
    (i : ℕ) (quoted : Bool) (polls : Polls)
    → length rest < f
    → Answered (sub_loop lib paths kind at_first f rest i quoted polls)
unfolding sub_loop
sub_loop-Answered lib paths kind at_first zero rest i quoted polls h = absurd (omega (arith, h))
sub_loop-Answered lib paths kind at_first (suc f) [] i quoted polls h = tt
sub_loop-Answered lib paths kind at_first (suc f) (m ∷ ms) i quoted polls h =
    let width = character_length lib (bytes_of (m ∷ ms)) false true in
    Answered-if (poll polls).0 _ _ tt (
      Answered-if (paths && m.byte == b'/') _ _ tt (
        Answered-if (closes kind at_first (m ∷ ms)) _ _ tt (
          sub_loop-Answered lib paths kind false f (drop width (m ∷ ms)) (i + width)
            (quoted || m.quoted) (poll polls).1
            (omega
              (arith, h, drop_pos width m ms (character_length_pos lib m.byte (bytes_of ms)))))))

bracket_subexpression-Answered :
    (lib : Characters) (paths : Bool) (rest : List Mark) (polls : Polls)
    → Answered (bracket_subexpression lib paths rest polls)
unfolding bracket_subexpression
bracket_subexpression-Answered lib paths [] polls = tt
bracket_subexpression-Answered lib paths (m ∷ []) polls = tt
bracket_subexpression-Answered lib paths (m ∷ n ∷ ms) polls =
    Answered-if (opens_class n.byte) _ _
      (sub_loop-Answered lib paths n.byte true (suc (length (n ∷ ms))) (n ∷ ms) 1 false polls
        (omega arith))
      tt

-- The loop ended: it was interrupted, or what it wrote is no longer than `n`.
abbrev pub Within : ℕ → Made → Type 0
Within n none = ⊥
Within n (some (none, p)) = Unit
Within n (some (some b, p)) = length b ≤ n

put-Within : (b : Bytes) (r : Made) (k n : ℕ) → length b + k ≤ n → Within k r → Within n (put b r)
unfolding put
put-Within b none k n h w = w
put-Within b (some (none, p)) k n h w = tt
put-Within b (some (some rest, p)) k n h w = omega (arith, h, w, length-append b rest)

Within-cond :
    (n : ℕ) (b : Bool) (x y : Made)
    → Within n x
    → Within n y
    → Within n (elim b as (λ z. Made) [ true ↦ x | false ↦ y ])
Within-cond n true x y h k = h
Within-cond n false x y h k = k

Within-found :
    (n : ℕ) (r : Option Found) (rest : ℕ → Bool → Polls → Made)
    → Answered r
    → ((i : ℕ) (q : Bool) (p : Polls) → Within n (rest i q p))
    → Within n (elim r as (λ z. Made) [
      | none ↦ none
      | some (stopped p) ↦ some (none, p)
      | some (found i q p) ↦ rest i q p
    ])
Within-found n none rest a h = a
Within-found n (some (stopped p)) rest a h = tt
Within-found n (some (found i q p)) rest a h = h i q p

-- Bytes copied from what is left, and what is left behind them.
copied :
    (n : ℕ) (rest : List Mark)
    → length (take n (bytes_of rest)) + 2 * length (drop n rest) ≤ 2 * length rest
copied zero rest = omega arith
copied (suc n) [] = omega arith
copied (suc n) (m ∷ ms) = omega (arith, copied n ms)

length-written : (b : Bool) (c : ℕ) → length (if b then b'\\' ∷ c ∷ [] else c ∷ []) ≤ 2
length-written true c = omega arith
length-written false c = omega arith

make_loop-Within :
    (lib : Characters) (paths : Bool) (f : ℕ) (rest : List Mark) (pending : Bool) (b : Bracket)
    (polls : Polls)
    → length rest < f
    → Within (2 * length rest) (make_loop lib paths f rest pending b polls)
unfolding make_loop
make_loop-Within lib paths zero rest pending b polls h = absurd (omega (arith, h))
make_loop-Within lib paths (suc f) [] pending b polls h = omega arith
make_loop-Within lib paths (suc f) (m ∷ ms) pending b polls h =
    let width = character_length lib (bytes_of (m ∷ ms)) false true in
    let (stop, p) = poll polls in
    let here = if paths && m.byte == b'/' then outside else b in
    let bound = 2 * length (m ∷ ms) in
    Within-cond bound stop _ _ tt (
      Within-cond bound (ltb 1 width) _ _
        (put-Within (take width (bytes_of (m ∷ ms))) _ (2 * length (drop width (m ∷ ms))) bound
          (copied width (m ∷ ms))
          (make_loop-Within lib paths f (drop width (m ∷ ms)) false (entered b) p (
            omega (arith, h, drop_pos width m ms (character_length_pos lib m.byte (bytes_of ms))))))
        (Within-cond bound pending _ _
          (put-Within (m.byte ∷ []) _ (2 * length ms) bound (omega arith)
            (make_loop-Within lib paths f ms false (entered here) p (omega (arith, h))))
          (Within-found bound _ _
            (Answered-if (in_list here && m.byte == b'[' && not m.quoted) _ _
              (bracket_subexpression-Answered lib paths (m ∷ ms) p) tt)
            (λ n quoted p'.
              Within-cond bound (not (n == 0) && not quoted) _ _
                (put-Within (take (suc n) (bytes_of (m ∷ ms))) _ (2 * length (drop n ms)) bound
                  (copied (suc n) (m ∷ ms))
                  (make_loop-Within lib paths f (drop n ms) false member p'
                    (omega (arith, h, length-take-drop n ms))))
                (let force = not (n == 0) && quoted in
                  let escapes = not (is_protected force m) && m.byte == b'\\' in
                  put-Within (if is_protected force m then b'\\' ∷ m.byte ∷ [] else m.byte ∷ []) _
                    (2 * length ms) bound
                    (omega (arith, length-written (is_protected force m) m.byte))
                    (make_loop-Within lib paths f ms escapes
                      (if escapes then here else next_bracket force m here) p'
                      (omega (arith, h))))))))

-- `make_pattern` comes to an end on every field, whatever `mbrlen` and the interruption callback
-- answer, and writes at most two bytes for each byte of the field: with its NUL the pattern fits in
-- the buffer that `finish_field` allocates.
pub make_pattern-Within :
    (lib : Characters) (paths : Bool) (raw : List Mark) (polls : Polls)
    → Within (2 * length raw) (make_pattern lib paths raw polls)
unfolding make_pattern
make_pattern-Within lib paths raw polls =
    make_loop-Within lib paths (suc (length raw)) raw false outside polls (omega arith)
