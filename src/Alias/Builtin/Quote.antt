-- ===== src/Alias/Builtin/Quote.antt =====
-- What `alias` prints is shell input that stands for the aliases: a reader of quoted words, written
-- from the shell's quoting rules and not from the code, gives the names and values back.
use mathlib.Core.List.{append_assoc, append-nil}
use cshell.Prelude.{
  ℕ, true, Option, none, some, List, [], ◌∷◌, ◌++◌, ◌≡◌, refl, ap, ==_iff, Bool-cases, inl, inr,
  ◌∙◌, arith, ◌==◌, if◌then◌else◌,
}
use cshell.Prelude.Bytes.{Bytes}
use cshell.Prelude.Stream.{ready, write-ready}
use cshell.Alias.{Aliases, alias_byte, alias_bytes, valid_name}
use cshell.Alias.Order.{NamesValid}
use cshell.Alias.Builtin.{quoted_byte, print_alias, print_all, and_write, write_quoted}

abbrev quoted : Bytes → Bytes
quoted [] = []
quoted (c ∷ cs) = quoted_byte c ++ quoted cs

-- The line that `print_alias` writes, newline included, before more text.
abbrev line : Bytes → Bytes → Bytes → Bytes
line name value rest = name ++ (b'=' ∷ b'\'' ∷ (quoted value ++ (b'\'' ∷ b'\n' ∷ rest)))

abbrev pub listing : Aliases → Bytes
listing [] = []
listing ((k, v) ∷ t) = line k v (listing t)

-- The operand that defines an alias: `name=value`.
abbrev pub definitions : Aliases → List Bytes
definitions [] = []
definitions ((k, v) ∷ t) = (k ++ (b'=' ∷ v)) ∷ definitions t

-- Where a reader of words stands: outside quotes, inside single quotes, behind a backslash.
pub data Mode : Type 0 where
  plain single escaped : Mode

-- Words, one to a line, with the quotes taken off; `word` is the word read so far.
-- An open quote at the end is an error.
unfoldable pub read_words : Mode → Bytes → Bytes → Option (List Bytes)
read_words plain word [] = some []
read_words single word [] = none
read_words escaped word [] = none
read_words single word (c ∷ cs) =
    if c == b'\'' then read_words plain word cs else read_words single (word ++ (c ∷ [])) cs
read_words escaped word (c ∷ cs) = read_words plain (word ++ (c ∷ [])) cs
read_words plain word (c ∷ cs) =
    if c == b'\''
    then read_words single word cs
    else if c == b'\\'
    then read_words escaped word cs
    else if c == b'\n'
    then (elim (read_words plain [] cs) [ none ↦ none | some ws ↦ some (word ∷ ws) ])
    else read_words plain (word ++ (c ∷ [])) cs

write_quoted-ready : (v t : Bytes) → write_quoted v (true, ready t) ≡ (true, ready (t ++ quoted v))
unfolding write_quoted and_write
write_quoted-ready [] t = rw append-nil
write_quoted-ready (c ∷ cs) t =
    rw write-ready (write_quoted-ready cs (t ++ quoted_byte c) ∙ rw append_assoc)

print_alias-ready : (k v t : Bytes) → print_alias k v (ready t) ≡ (true, ready (t ++ line k v []))
unfolding print_alias and_write
print_alias-ready k v t = rw (write-ready, write_quoted-ready v, write-ready) (simp append_assoc)

line-append : (k v rest : Bytes) → line k v [] ++ rest ≡ line k v rest
line-append k v rest = simp append_assoc

pub print_all-ready :
    (s : Aliases) (t : Bytes) → print_all s (ready t) ≡ (true, ready (t ++ listing s))
unfolding print_all
print_all-ready [] t = rw append-nil
print_all-ready ((k, v) ∷ s) t = ground (
  arith,
  print_alias-ready k v t,
  print_all-ready s (t ++ line k v []),
  append_assoc t (line k v []) (listing s),
  line-append k v (listing s),
)

read_words-quoted_byte :
    (c : ℕ) (word rest : Bytes)
    → read_words single word (quoted_byte c ++ rest) ≡ read_words single (word ++ (c ∷ [])) rest
unfolding read_words quoted_byte
read_words-quoted_byte c word rest = elim (Bool-cases (c == b'\'')) [
  | inl e ↦ rw ((==_iff c b'\'').0 e)
  | inr e ↦ rw (e, read_words) (rw e)
]

read_words-quoted :
    (v word rest : Bytes)
    → read_words single word (quoted v ++ rest) ≡ read_words single (word ++ v) rest
read_words-quoted [] word rest = rw append-nil
read_words-quoted (c ∷ cs) word rest =
    ap (read_words single word) (append_assoc (quoted_byte c) (quoted cs) rest)
    ∙ read_words-quoted_byte c word (quoted cs ++ rest)
    ∙ read_words-quoted cs (word ++ (c ∷ [])) rest
    ∙ rw append_assoc

-- An alias name has no byte that the reader treats specially.
alias_byte-plain :
    (c : ℕ) (word rest : Bytes)
    → alias_byte c ≡ true
    → read_words plain word (c ∷ rest) ≡ read_words plain (word ++ (c ∷ [])) rest
unfolding read_words alias_byte
alias_byte-plain c word rest h = ground arith

read_words-alias_bytes :
    (k word rest : Bytes)
    → alias_bytes k ≡ true
    → read_words plain word (k ++ rest) ≡ read_words plain (word ++ k) rest
unfolding alias_bytes
read_words-alias_bytes [] word rest h = rw append-nil
read_words-alias_bytes (c ∷ cs) word rest h =
    alias_byte-plain c word (cs ++ rest) (ground arith)
    ∙ read_words-alias_bytes cs (word ++ (c ∷ [])) rest (ground arith)
    ∙ rw append_assoc

pub valid_name-alias_bytes : (k : Bytes) → valid_name k ≡ true → alias_bytes k ≡ true
unfolding valid_name
valid_name-alias_bytes [] h = cc
valid_name-alias_bytes (c ∷ cs) h = h

-- One printed line is one word, `name=value`.
read_words-line :
    (k v rest : Bytes) {ws : List Bytes}
    → valid_name k ≡ true
    → read_words plain [] rest ≡ some ws
    → read_words plain [] (line k v rest) ≡ some ((k ++ (b'=' ∷ v)) ∷ ws)
unfolding read_words
read_words-line k v rest h e =
    read_words-alias_bytes k [] _ (valid_name-alias_bytes k h)
    ∙ read_words-quoted v (k ++ (b'=' ∷ [])) (b'\'' ∷ b'\n' ∷ rest)
    ∙ rw e (rw append_assoc)

pub read_words-listing :
    (t : Aliases) → NamesValid t → read_words plain [] (listing t) ≡ some (definitions t)
unfolding read_words
read_words-listing [] n = refl
read_words-listing ((k, v) ∷ t) n = read_words-line k v (listing t) n.0 (read_words-listing t n.1)
