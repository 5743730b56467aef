-- ===== src/Alias/Builtin.antt =====
-- The builtins `alias` and `unalias` of src/alias.c. `argv` is a list, its first entry the name of
-- the utility. Writes to `out` may fail; what goes to `err` is only collected, as the code ignores
-- the outcome of `fprintf` there.
pub mod Quote
pub mod Laws
use cshell.Prelude.{
  ℕ, suc, Bool, true, false, not, ◌&&◌, ◌||◌, Option, none, some, List, [], ◌∷◌, ◌++◌, ◌==◌,
  if◌then◌else◌,
}
use cshell.Prelude.Bytes.{Bytes, bytes_eq, codes}
use cshell.Prelude.Memory.{Memory}
use cshell.Prelude.Stream.{Stream, write}
use cshell.Alias.{
  Aliases, AliasError, Outcome, ok, err, message, valid_name, get, set_alias, unset_alias,
}

pub record Session : Type 0 where
  pub aliases : Aliases
  pub out : Stream
  pub err_text : Bytes
  pub memory : Memory

-- `diagnostic`, less the status that it hands back.
unfoldable pub complain : Session → Bytes → Option Bytes → Bytes → Session
complain s utility operand text = record s {
  err_text =
      s.err_text
      ++ utility
      ++ codes ": "
      ++ (elim operand [ none ↦ [] | some o ↦ o ++ codes ": " ])
      ++ text
      ++ codes "\n";
}

-- One byte of a value between the single quotes.
unfoldable pub quoted_byte : ℕ → Bytes
quoted_byte c = if c == b'\'' then b'\'' ∷ b'\\' ∷ b'\'' ∷ b'\'' ∷ [] else c ∷ []

-- A write after another: nothing more is written once one has failed.
and_write : Bool × Stream → Bytes → Bool × Stream
and_write (went, s) b = if went then write b s else (false, s)

write_quoted : Bytes → Bool × Stream → Bool × Stream
write_quoted [] r = r
write_quoted (c ∷ cs) r = write_quoted cs (and_write r (quoted_byte c))

-- `print_alias`: `name='value'` and a newline, false once a write fails.
unfoldable pub print_alias : Bytes → Bytes → Stream → Bool × Stream
unfolding and_write write_quoted
print_alias name value s =
    and_write (write_quoted value (write (name ++ codes "='") s)) (codes "'\n")

-- The loop of `alias` with no operand, over the whole table.
unfoldable pub print_all : Aliases → Stream → Bool × Stream
print_all [] s = (true, s)
print_all ((k, v) ∷ t) s =
    let (went, s') = print_alias k v s in elim went [ true ↦ print_all t s' | false ↦ (false, s') ]

-- `strchr(text, '=')`: what stands before the first equals sign, and what behind it.
unfoldable pub split_equals : Bytes → Option (Bytes × Bytes)
split_equals [] = none
split_equals (c ∷ cs) =
    if c == b'='
    then some ([], cs)
    else elim (split_equals cs) [ none ↦ none | some (a, b) ↦ some (c ∷ a, b) ]

-- Where one operand leaves the loop: on to the next with this status, or out with status 1.
pub data Progress : Type 0 where
  next : ℕ → Bool → Session → Progress
  stop : Session → Progress

-- The loop goes on, or the function returns 1.
unfoldable pub after : Progress → (ℕ → Bool → Session → ℕ × Session) → ℕ × Session
after (next status printed s) loop = loop status printed s
after (stop s) loop = (1, s)

cannot_write : Bytes → Session → Session
unfolding complain
cannot_write utility s = complain s utility none (codes "cannot write output")

define : Bytes → Bytes → Bytes → ℕ → Bool → Session → Progress
unfolding complain message
define operand name value status printed s =
    let (r, t, m) = set_alias name value s.aliases s.memory in
    let s' = record s { aliases = t; memory = m } in
    elim r [
      | ok ↦ next status printed s'
      | err e ↦ next 1 printed (complain s' (codes "alias") (some operand) (message e))
    ]

show : Bytes → ℕ → Bool → Session → Progress
unfolding complain cannot_write
show operand status printed s = elim (get s.aliases operand) [
  | none ↦ next 1 printed (complain s (codes "alias") (some operand) (codes "not found"))
  | some value ↦
      let (went, o) = print_alias operand value s.out in
      let s' = record s { out = o } in
      if went then next status true s' else stop (cannot_write (codes "alias") s')
]

unfoldable pub alias_operand : Bytes → ℕ → Bool → Session → Progress
unfolding complain define show
alias_operand operand status printed s = elim (split_equals operand) [
  | some (name, value) ↦ define operand name value status printed s
  | none ↦
      if not (valid_name operand)
      then next 1 printed (complain s (codes "alias") (some operand) (codes "invalid alias name"))
      else show operand status printed s
]

-- `fflush` is one more answer of the stream.
flush : ℕ → Bool → Session → ℕ × Session
unfolding cannot_write
flush status printed s =
    let (went, o) = write [] s.out in
    let s' = record s { out = o } in
    if printed
    then (if went then (status, s') else (1, cannot_write (codes "alias") s'))
    else (status, s)

unfoldable pub alias_operands : List Bytes → ℕ → Bool → Session → ℕ × Session
unfolding flush after
alias_operands [] status printed s = flush status printed s
alias_operands (a ∷ rest) status printed s =
    after (alias_operand a status printed s) (alias_operands rest)

alias_list : Session → ℕ × Session
unfolding cannot_write
alias_list s =
    let (went, o) = print_all s.aliases s.out in
    let s' = record s { out = o } in
    if went
    then alias_operands [] 0 (elim s.aliases [ [] ↦ false | _ ↦ true ]) s'
    else (1, cannot_write (codes "alias") s')

-- `-x` with anything behind the dash.
unfoldable pub is_option : Bytes → Bool
is_option (c ∷ d ∷ rest) = c == b'-'
is_option _ = false

alias_from : List Bytes → Session → ℕ × Session
unfolding alias_list
alias_from [] s = alias_list s
alias_from (a ∷ rest) s = alias_operands (a ∷ rest) 0 false s

-- `csh_builtin_alias`.
unfoldable pub builtin_alias : List Bytes → Session → ℕ × Session
unfolding alias_from complain is_option
builtin_alias [] s = (2, complain s (codes "alias") none (codes "invalid handler arguments"))
builtin_alias (utility ∷ []) s = alias_from [] s
builtin_alias (utility ∷ a ∷ rest) s =
    if bytes_eq a (codes "--")
    then alias_from rest s
    else if is_option a
    then (2, complain s (codes "alias") (some a) (codes "invalid option"))
    else alias_from (a ∷ rest) s

-- The operand loop of `unalias`.
unfoldable pub unalias_operand : Bytes → ℕ → Session → ℕ × Session
unfolding complain
unalias_operand a status s =
    if not (valid_name a)
    then (1, complain s (codes "unalias") (some a) (codes "invalid alias name"))
    else elim (get s.aliases a) [
      | none ↦ (1, complain s (codes "unalias") (some a) (codes "not found"))
      | some v ↦ (status, record s { aliases = (unset_alias a s.aliases).1 })
    ]

unfoldable pub unalias_operands : List Bytes → ℕ → Session → ℕ × Session
unalias_operands [] status s = (status, s)
unalias_operands (a ∷ rest) status s =
    let (status', s') = unalias_operand a status s in unalias_operands rest status' s'

-- What stands behind the dash.
option_letters : Bytes → Bytes
option_letters [] = []
option_letters (c ∷ letters) = letters

all_a : Bytes → Bool
all_a [] = true
all_a (c ∷ cs) = c == b'a' && all_a cs

-- The option loop: whether `-a` was seen and the operands left, or the option that is refused.
pub data Options : Type 0 where
  operands : Bool → List Bytes → Options
  refused : Bytes → Options

unfoldable pub unalias_options : Bool → List Bytes → Options
unfolding all_a option_letters is_option
unalias_options all [] = operands all []
unalias_options all (a ∷ rest) =
    let later = unalias_options true rest in
    if is_option a
    then (if bytes_eq a (codes "--")
        then operands all rest
        else if all_a (option_letters a)
        then later
        else refused a)
    else operands all (a ∷ rest)

unalias_named : List Bytes → Session → ℕ × Session
unfolding complain
unalias_named [] s = (2, complain s (codes "unalias") none (codes "expected an alias name"))
unalias_named (a ∷ rest) s = unalias_operands (a ∷ rest) 0 s

-- `csh_aliases_clear`, when nothing follows `-a`.
unalias_all : List Bytes → Session → ℕ × Session
unfolding complain
unalias_all [] s = (0, record s { aliases = [] })
unalias_all (a ∷ rest) s =
    (2, complain s (codes "unalias") none (codes "-a does not accept operands"))

unalias_run : Options → Session → ℕ × Session
unfolding complain unalias_named unalias_all
unalias_run (refused a) s = (2, complain s (codes "unalias") (some a) (codes "invalid option"))
unalias_run (operands true rest) s = unalias_all rest s
unalias_run (operands false rest) s = unalias_named rest s

-- `csh_builtin_unalias`.
unfoldable pub builtin_unalias : List Bytes → Session → ℕ × Session
unfolding complain unalias_run
builtin_unalias [] s = (2, complain s (codes "unalias") none (codes "invalid handler arguments"))
builtin_unalias (utility ∷ args) s = unalias_run (unalias_options false args) s
