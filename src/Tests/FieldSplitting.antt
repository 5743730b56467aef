-- ===== src/Tests/FieldSplitting.antt =====
-- Runs of field splitting and of the encoding of patterns, and their theorems at concrete words.
use cshell.Prelude.{ℕ, ◌*◌, ◌≡◌, refl, true, false, some, List, [], ◌∷◌, arith}
use cshell.Prelude.Bytes.{Bytes, codes, bytes_eq}
use cshell.Prelude.Lists.{length}
use cshell.Prelude.Memory.{allocate}
use cshell.Character.{Characters, Count, character_length}
use cshell.Fields.{
  argument, unquoted, single, parameter, literal_text, ok, Span, Mark, poll, append, is_quoted,
  is_argument,
}
use cshell.Fields.Pattern.{make_pattern}
use cshell.Fields.Pattern.Bounds.{Within, make_pattern-Within}
use cshell.Fields.Pattern.Quoted.{literal_of, make_pattern-quoted}
use cshell.Fields.Split.{
  Setting, expand_fields, finish, fields_loop, finish_field, split_field, field_loop, field_round,
  current, settle, delimiter, ifs_loop, ifs_width, is_white, white_loop, delimited, and_then, emit,
  check_spans, is_valid, has_nul, marks, is_literal,
}
use cshell.Fields.Split.Words.{words_from, AllWhite}
use cshell.Fields.Split.Words.Loop.{expand_fields-words}
use cshell.Fields.Split.Total.{Expanded, expand_fields-Expanded}

abbrev one_byte : Characters
one_byte = record { mbrlen = λ lexical text. Count.invalid; btowc = λ c. true }

one_byte_length : (c : ℕ) (cs : Bytes) → character_length one_byte (c ∷ cs) false true ≡ 1
unfolding character_length
one_byte_length c cs = ground arith

-- IFS is a space and a colon, and no name matches a pattern.
abbrev setting : Setting
setting = record {
  lib = one_byte;
  pathname_expand = λ raw pattern out. append raw out;
  ifs = codes " :";
  noglob = true;
}

-- The word `$x'*'`, where x is `a : b::`.
abbrev word : List Span
word =
    record {
      text = codes "a : b::";
      quote = unquoted;
      origin = parameter;
      split = true;
      keep_empty = false;
    }
    ∷ record {
      text = codes "*";
      quote = single;
      origin = literal_text;
      split = false;
      keep_empty = false;
    }
    ∷ []

expand_word :
    expand_fields setting argument (word ∷ []) [] []
    ≡ some (ok, codes "a" ∷ codes "b" ∷ [] ∷ codes "*" ∷ [])
unfolding expand_fields finish fields_loop finish_field split_field field_loop field_round current
    settle delimiter ifs_loop ifs_width is_white white_loop delimited and_then emit check_spans
    is_valid has_nul marks is_literal poll append is_quoted is_argument allocate bytes_eq
    character_length
expand_word = refl

expand_fields-Expanded_example : Expanded (expand_fields setting argument (word ∷ []) [] [])
expand_fields-Expanded_example = expand_fields-Expanded setting argument (word ∷ []) [] []

-- The unquoted span ` ls  -l `, with IFS of a space and a newline.
abbrev blanks : Setting
blanks = record setting { ifs = codes " \n" }

abbrev spaced : Span
spaced = record {
  text = codes " ls  -l ";
  quote = unquoted;
  origin = parameter;
  split = true;
  keep_empty = false;
}

one_byte_width : (t : Bytes) → ifs_width one_byte t ≡ 1
unfolding ifs_width
one_byte_width t = refl

spaced_words : words_from blanks.ifs [] spaced.text ≡ codes "ls" ∷ codes "-l" ∷ []
spaced_words = refl

blanks-AllWhite : AllWhite blanks.ifs
unfolding is_white
blanks-AllWhite = (refl, (refl, tt))

spaced_clean : has_nul spaced.text ≡ false
unfolding has_nul
spaced_clean = refl

expand_fields-words_example :
    expand_fields blanks argument ((spaced ∷ []) ∷ []) [] []
    ≡ some (ok, words_from blanks.ifs [] spaced.text)
expand_fields-words_example =
    expand_fields-words blanks spaced one_byte_width one_byte_length blanks-AllWhite refl refl refl
      refl spaced_clean

abbrev quoted_star : List Mark
quoted_star =
    record { byte = b'*'; quoted = true; literal = true }
    ∷ record { byte = b'\\'; quoted = true; literal = true }
    ∷ record { byte = b'a'; quoted = true; literal = true }
    ∷ []

make_pattern-Within_example :
    Within (2 * length quoted_star) (make_pattern one_byte true quoted_star [])
make_pattern-Within_example = make_pattern-Within one_byte true quoted_star []

make_pattern-quoted_example :
    (pattern : Bytes) × (make_pattern one_byte true quoted_star [] ≡ some (some pattern, []))
    × (literal_of pattern ≡ some (codes "*\\a"))
make_pattern-quoted_example =
    make_pattern-quoted one_byte true quoted_star one_byte_length (refl, (refl, (refl, tt)))
