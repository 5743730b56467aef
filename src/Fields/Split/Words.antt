-- ===== src/Fields/Split/Words.antt =====
-- Splitting at white space: an independent description, the words of a text.
pub mod Loop
use cshell.Prelude.{
  ℕ, zero, suc, ◌+◌, ◌-◌, ◌≤◌, ◌<◌, ◌≡◌, refl, ap, sym, ◌∙◌, subst, Bool, true, false, not, ◌&&◌,
  ◌||◌, Option, none, some, List, [], ◌∷◌, ◌++◌, arith, ltb, leb, ◌==◌, if◌then◌else◌, Bool-cases,
  inl, inr,
}
use cshell.Prelude.Bytes.{Bytes, bytes_eq}
use cshell.Prelude.Lists.{length, take, drop}
use cshell.Prelude.Memory.{allocate}
use cshell.Character.{Characters, character_length}
use cshell.Fields.{
  Context, argument, unquoted, Result, ok, Span, Mark, bytes_of, poll, Output, append, is_quoted,
  is_argument,
}
use cshell.Fields.Split.{
  Setting, Cursor, settle, current, ifs_width, is_white, ifs_loop, delimiter, emit, is_literal,
  marks, white_loop, Rest, and_then, delimited, field_round, field_loop, amount, split_field,
  has_nul, is_valid, check_spans, finish_field, fields_loop, finish, expand_fields,
}

abbrev pub is_in : ℕ → Bytes → Bool
is_in c [] = false
is_in c (x ∷ xs) = c == x || is_in c xs

-- The words of a text, which bytes of `ifs` separate; `cur` is the word that is being read.
abbrev pub words_from : Bytes → Bytes → Bytes → List Bytes
words_from ifs cur [] = if length cur == 0 then [] else cur ∷ []
words_from ifs cur (c ∷ cs) =
    if is_in c ifs
    then (if length cur == 0 then words_from ifs [] cs else cur ∷ words_from ifs [] cs)
    else words_from ifs (cur ++ (c ∷ [])) cs

abbrev pub AllWhite : Bytes → Type 0
AllWhite [] = Unit
AllWhite (c ∷ cs) = (is_white (c ∷ []) ≡ true) × AllWhite cs

-- The text behind its leading separators.
abbrev pub skip : Bytes → Bytes → Bytes
skip ifs [] = []
skip ifs (c ∷ cs) = if is_in c ifs then skip ifs cs else c ∷ cs

pub words_from-skip :
    (ifs rest : Bytes) → words_from ifs [] (skip ifs rest) ≡ words_from ifs [] rest
words_from-skip ifs [] = refl
words_from-skip ifs (c ∷ cs) = elim (Bool-cases (is_in c ifs)) [
  | inl e ↦ ground (arith, e, words_from-skip ifs cs)
  | inr e ↦ ground (arith, e)
]

pub length-skip : (ifs rest : Bytes) → length (skip ifs rest) ≤ length rest
length-skip ifs [] = omega arith
length-skip ifs (c ∷ cs) = ground (arith, length-skip ifs cs)

pub append_nil : (vs : List Bytes) → vs ++ [] ≡ vs
append_nil [] = refl
append_nil (v ∷ vs) = ap (◌∷◌ v) (append_nil vs)

pub append_one : (vs ws : List Bytes) (v : Bytes) → (vs ++ (v ∷ [])) ++ ws ≡ vs ++ (v ∷ ws)
append_one [] ws v = refl
append_one (u ∷ vs) ws v = ap (◌∷◌ u) (append_one vs ws v)

pub bytes_of-marks : (s : Span) (b : Bytes) → bytes_of (marks s b) ≡ b
unfolding marks
bytes_of-marks s [] = refl
bytes_of-marks s (c ∷ cs) = ap (◌∷◌ c) (bytes_of-marks s cs)

pub length-marks : (s : Span) (b : Bytes) → length (marks s b) ≡ length b
unfolding marks
length-marks s [] = refl
length-marks s (c ∷ cs) = ap suc (length-marks s cs)

pub marks-append : (s : Span) (a b : Bytes) → marks s a ++ marks s b ≡ marks s (a ++ b)
unfolding marks
marks-append s [] b = refl
marks-append s (c ∷ cs) b = ground (arith, marks-append s cs b)

pub ifs_loop-is_in :
    (lib : Characters) (f : ℕ) (ifs : Bytes) (c : ℕ) (cs : Bytes)
    → ((t : Bytes) → ifs_width lib t ≡ 1)
    → AllWhite ifs
    → length ifs ≤ f
    → ifs_loop lib f ifs (c ∷ cs) ≡ (if is_in c ifs then (1, true) else (0, false))
unfolding ifs_loop is_white bytes_eq
ifs_loop-is_in lib zero [] c cs one w h = refl
ifs_loop-is_in lib zero (x ∷ xs) c cs one w h = absurd (omega (arith, h))
ifs_loop-is_in lib (suc f) [] c cs one w h = refl
ifs_loop-is_in lib (suc f) (x ∷ xs) c cs one w h =
    rw (one (x ∷ xs)) (ground (arith, w.0, ifs_loop-is_in lib f xs c cs one w.1 (omega (arith, h))))

-- What is left of a text, at its end.
abbrev pub Suffix : Bytes → Bytes → Type 0
Suffix text rest = (drop (length text - length rest) text ≡ rest) × (length rest ≤ length text)

pub drop-suc : (n : ℕ) (b : Bytes) (c : ℕ) (cs : Bytes) → drop n b ≡ c ∷ cs → drop (suc n) b ≡ cs
drop-suc zero [] c cs h = cc
drop-suc zero (x ∷ b) c cs h = ground (arith, h)
drop-suc (suc n) [] c cs h = cc
drop-suc (suc n) (x ∷ b) c cs h = drop-suc n b c cs h

pub Suffix-tail : (text : Bytes) (c : ℕ) (cs : Bytes) → Suffix text (c ∷ cs) → Suffix text cs
Suffix-tail text c cs (d, h) =
    let before = length text - length (c ∷ cs) in
    let same : suc before ≡ length text - length cs = omega (arith, h) in
    (subst (λ n. drop n text ≡ cs) same (drop-suc before text c cs d), omega (arith, h))
