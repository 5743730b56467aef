-- ===== src/Alias/Builtin/Laws.antt =====
-- The builtins `alias` and `unalias` as a whole: the table's invariant, and a listing that can be
-- read back.
use mathlib.Core.List.{append-nil, append_assoc}
use mathlib.Core.Path.{subst}
use cshell.Prelude.{
  ℕ, Bool, true, false, Option, none, some, List, [], ◌∷◌, ◌++◌, ◌≡◌, refl, sym, ◌∙◌, arith, ◌==◌,
}
use cshell.Prelude.Bytes.{Bytes, codes, bytes_eq}
use cshell.Prelude.Stream.{ready, write}
use cshell.Alias.{Aliases, alias_byte, alias_bytes, valid_name}
use cshell.Alias.Order.{IsTable, IsSorted, NamesValid, set_alias-IsTable, unset_alias-IsTable}
use cshell.Alias.Clone.{Below, Split, Split-nil, Split-append, set_alias-Below}
use cshell.Alias.Builtin.{
  Session, Progress, next, stop, split_equals, alias_operand, alias_operands, alias_from,
  alias_list, builtin_alias, after, unalias_run, unalias_operand, unalias_operands, unalias_options,
  builtin_unalias, print_all, define, show, flush, Options, operands, refused,
}
use cshell.Alias.Builtin.Quote.{
  listing, definitions, read_words, plain, print_all-ready, read_words-listing,
  valid_name-alias_bytes,
}

abbrev Holds : Progress → Type 0
Holds (next status printed s) = IsTable s.aliases
Holds (stop s) = IsTable s.aliases

define-Holds :
    (a k v : Bytes) (status : ℕ) (printed : Bool) (s : Session)
    → IsTable s.aliases
    → Holds (define a k v status printed s)
unfolding define
define-Holds a k v status printed s h = ground (arith, set_alias-IsTable k v s.aliases s.memory h)

show-Holds :
    (a : Bytes) (status : ℕ) (printed : Bool) (s : Session)
    → IsTable s.aliases
    → Holds (show a status printed s)
unfolding show
show-Holds a status printed s h = ground arith

alias_operand-Holds :
    (a : Bytes) (status : ℕ) (printed : Bool) (s : Session)
    → IsTable s.aliases
    → Holds (alias_operand a status printed s)
unfolding alias_operand
alias_operand-Holds a status printed s h = go (split_equals a) refl
  where
    go :
        (e : Option (Bytes × Bytes)) → split_equals a ≡ e → Holds (alias_operand a status printed s)
    go none e = rw (e, alias_operand) (ground (arith, show-Holds a status printed s h))
    go (some (k, v)) e = rw (e, alias_operand) (define-Holds a k v status printed s h)

after-IsTable :
    (p : Progress) (loop : ℕ → Bool → Session → ℕ × Session)
    → Holds p
    → ((status : ℕ) (printed : Bool) (s : Session)
        → IsTable s.aliases
        → IsTable (loop status printed s).1.aliases)
    → IsTable (after p loop).1.aliases
unfolding after
after-IsTable (next status printed s) loop h k = k status printed s h
after-IsTable (stop s) loop h k = h

alias_operands-IsTable :
    (as' : List Bytes) (status : ℕ) (printed : Bool) (s : Session)
    → IsTable s.aliases
    → IsTable (alias_operands as' status printed s).1.aliases
unfolding alias_operands
alias_operands-IsTable [] status printed s h = ground arith
alias_operands-IsTable (a ∷ rest) status printed s h =
    after-IsTable _ (alias_operands rest) (alias_operand-Holds a status printed s h)
      (alias_operands-IsTable rest)

alias_from-IsTable :
    (as' : List Bytes) (s : Session) → IsTable s.aliases → IsTable (alias_from as' s).1.aliases
unfolding alias_from
alias_from-IsTable [] s h = unfold alias_list alias_operands in ground arith
alias_from-IsTable (a ∷ rest) s h = alias_operands-IsTable (a ∷ rest) 0 false s h

-- Whatever its operands, its output and the memory, `alias` keeps the table sorted, without
-- duplicates and with valid names.
pub builtin_alias-IsTable :
    (argv : List Bytes) (s : Session) → IsTable s.aliases → IsTable (builtin_alias argv s).1.aliases
unfolding builtin_alias
builtin_alias-IsTable [] s h = h
builtin_alias-IsTable (u ∷ []) s h = alias_from-IsTable [] s h
builtin_alias-IsTable (u ∷ a ∷ rest) s h =
    ground (arith, alias_from-IsTable rest s h, alias_from-IsTable (a ∷ rest) s h)

unalias_operands-IsTable :
    (as' : List Bytes) (status : ℕ) (s : Session)
    → IsTable s.aliases
    → IsTable (unalias_operands as' status s).1.aliases
unfolding unalias_operands unalias_operand
unalias_operands-IsTable [] status s h = h
unalias_operands-IsTable (a ∷ rest) status s h =
    unalias_operands-IsTable rest _ _ (ground (arith, unset_alias-IsTable a s.aliases h))

unalias_run-IsTable :
    (o : Options) (s : Session) → IsTable s.aliases → IsTable (unalias_run o s).1.aliases
unfolding unalias_run
unalias_run-IsTable (refused a) s h = h
unalias_run-IsTable (operands true []) s h = record { sorted = tt; names = tt }
unalias_run-IsTable (operands true (a ∷ rest)) s h = h
unalias_run-IsTable (operands false []) s h = h
unalias_run-IsTable (operands false (a ∷ rest)) s h = unalias_operands-IsTable (a ∷ rest) 0 s h

-- Whatever its operands, `unalias` keeps the table sorted, without duplicates and with valid names.
pub builtin_unalias-IsTable :
    (argv : List Bytes) (s : Session)
    → IsTable s.aliases
    → IsTable (builtin_unalias argv s).1.aliases
unfolding builtin_unalias
builtin_unalias-IsTable [] s h = h
builtin_unalias-IsTable (u ∷ args) s h = unalias_run-IsTable (unalias_options false args) s h

alias_byte-ne-equals : (c : ℕ) → alias_byte c ≡ true → (c == b'=') ≡ false
unfolding alias_byte
alias_byte-ne-equals c h = ground arith

-- `strchr` finds the equals sign that follows a valid name, not one of the value.
split_equals-definition :
    (k v : Bytes) → alias_bytes k ≡ true → split_equals (k ++ (b'=' ∷ v)) ≡ some (k, v)
unfolding split_equals alias_bytes
split_equals-definition [] v h = refl
split_equals-definition (c ∷ cs) v h =
    ground (arith, split_equals-definition cs v, alias_byte-ne-equals c)

alias_operand-definition :
    (k v : Bytes) (status : ℕ) (printed : Bool) (s : Session)
    → valid_name k ≡ true
    → Below s.aliases k
    → s.memory ≡ []
    → alias_operand (k ++ (b'=' ∷ v)) status printed s
      ≡ next status printed (record s { aliases = s.aliases ++ ((k, v) ∷ []) })
unfolding alias_operand define
alias_operand-definition k v status printed s h b m =
    rw (split_equals-definition k v (valid_name-alias_bytes k h), alias_operand)
      (ground (arith, set_alias-Below k v s.aliases h b))

alias_operands-definitions :
    (t : Aliases) (s : Session)
    → IsSorted t
    → NamesValid t
    → Split s.aliases t
    → s.memory ≡ []
    → alias_operands (definitions t) 0 false s ≡ (0, record s { aliases = s.aliases ++ t })
unfolding alias_operands after
alias_operands-definitions [] s h n p m = rw append-nil (unfold flush in refl)
alias_operands-definitions ((k, v) ∷ t) s h n p m =
    let s' = record s { aliases = s.aliases ++ ((k, v) ∷ []) } in
    rw (alias_operand-definition k v 0 false s n.0 p.0 m, after)
      (alias_operands-definitions t s' h.1 n.1 (Split-append s.aliases k v t h.0 p.1) m
        ∙ rw append_assoc)

-- With a well-formed table and an output that takes all, `alias` with no operand writes one line for each alias, in the order of the table, returns 0 and
-- changes no alias; and what it writes, read by the shell's quoting rules, is one `name=value` word
-- for each alias.
pub builtin_alias-listing :
    (u : Bytes) (s : Session)
    → IsTable s.aliases
    → s.out ≡ ready []
    → (builtin_alias (u ∷ []) s ≡ (0, record s { out = ready (listing s.aliases) }))
      × (read_words plain [] (listing s.aliases) ≡ some (definitions s.aliases))
unfolding builtin_alias alias_from alias_list alias_operands flush write
builtin_alias-listing u s h o = (
  ground (arith, print_all-ready s.aliases [], append-nil (listing s.aliases)),
  read_words-listing s.aliases h.names,
)

-- The definitions `name=value` of a well-formed table, given to `alias` behind `--` in a shell with no
-- alias and memory enough, define the same table; the status is 0 and nothing is printed.
pub builtin_alias_reload :
    (u : Bytes) (t : Aliases) (s : Session)
    → IsTable t
    → s.aliases ≡ []
    → s.memory ≡ []
    → builtin_alias (u ∷ codes "--" ∷ definitions t) s ≡ (0, record s { aliases = t })
unfolding builtin_alias alias_from alias_list alias_operands flush bytes_eq print_all
builtin_alias_reload u [] s h e m = ground arith
builtin_alias_reload u ((k, v) ∷ t) s h e m =
    let p = subst (λ x. Split x ((k, v) ∷ t)) (sym e) (Split-nil ((k, v) ∷ t)) in
    alias_operands-definitions ((k, v) ∷ t) s h.sorted h.names p m ∙ rw e
