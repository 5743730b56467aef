-- ===== src/Arith/Lexer/Progress.antt =====
-- Every token but the end takes at least one byte of the text.
use cshell.Prelude.{
  ℕ, ◌+◌, ◌≤◌, ◌<◌, Bool, true, false, ◌||◌, some, List, [], ◌∷◌, ◌≡◌, arith, if◌then◌else◌,
  Bool-cases, Option-cases, inl, inr,
}
use cshell.Prelude.Bytes.{Bytes}
use cshell.Prelude.Lists.{length}
use cshell.Arith.{Parser, Token, end_token}
use cshell.Arith.Lexer.{
  name_start, digit, operators, skip_spaces, take_word, strip_prefix, find_operator, scan_token,
  next_token,
}

length-skip_spaces : (t : Bytes) → length (skip_spaces t) ≤ length t
unfolding skip_spaces
length-skip_spaces [] = omega arith
length-skip_spaces (c ∷ cs) = ground (arith, length-skip_spaces cs)

length-take_word : (t : Bytes) → length (take_word t).1 ≤ length t
unfolding take_word
length-take_word [] = omega arith
length-take_word (c ∷ cs) = ground (arith, length-take_word cs)

length-take_word_cons :
    (c : ℕ) (cs : Bytes)
    → (name_start c || digit c) ≡ true
    → length (take_word (c ∷ cs)).1 ≤ length cs
unfolding take_word
length-take_word_cons c cs h = ground (arith, length-take_word cs, h)

length-strip_prefix :
    (op text rest : Bytes)
    → strip_prefix op text ≡ some rest
    → length rest + length op ≡ length text
unfolding strip_prefix
length-strip_prefix [] text rest h = ground arith
length-strip_prefix (p ∷ ps) [] rest h = cc
length-strip_prefix (p ∷ ps) (c ∷ cs) rest h = ground (arith, length-strip_prefix ps cs rest)

-- Every operator of the table has a byte.
abbrev Nonempty : List (Bytes × Token) → Type 0
Nonempty [] = Unit
Nonempty ((op, t) ∷ ops) = (0 < length op) × Nonempty ops

operators-Nonempty : Nonempty operators
unfolding operators
operators-Nonempty = omega arith

length-find_operator :
    (ops : List (Bytes × Token)) (text op rest : Bytes) (t : Token)
    → Nonempty ops
    → find_operator ops text ≡ some (op, t, rest)
    → length rest < length text
unfolding find_operator
length-find_operator [] text op rest t n h = cc
length-find_operator ((o, u) ∷ ops) text op rest t n h = elim (Option-cases (strip_prefix o text)) [
  | inl e ↦ ground (arith, e, length-find_operator ops text op rest t n.1)
  | inr (r, e) ↦ ground (arith, e, length-strip_prefix o text r e, n.0)
]

-- What follows a token that begins with `c` is no longer than what follows `c`.
length-scan_token : (c : ℕ) (cs : Bytes) → length (scan_token (c ∷ cs)).2 ≤ length cs
unfolding scan_token
length-scan_token c cs = elim (Bool-cases (name_start c || digit c)) [
  | inl w ↦ ground (arith, w, length-take_word_cons c cs w)
  | inr w ↦ elim (Option-cases (find_operator operators (c ∷ cs))) [
    | inl e ↦ ground (arith, w, e)
    | inr ((op, t, rest), e) ↦
        ground (arith, w, e, length-find_operator operators (c ∷ cs) op rest t operators-Nonempty e)
  ]
]

abbrev pub at_end : Token → Bool
at_end end_token = true
at_end _ = false

-- The work that is left: the bytes not yet read, and the token that is.
abbrev pub pending : Token → Bytes → ℕ
pending t rest = length rest + (if at_end t then 0 else 1)

abbrev pub measure : Parser → ℕ
measure p = pending p.token p.next

pending-le : (t : Token) (rest : Bytes) → pending t rest ≤ length rest + 1
pending-le t rest = ground arith

pending-scan_token : (text : Bytes) → pending (scan_token text).0 (scan_token text).2 ≤ length text
unfolding scan_token
pending-scan_token [] = omega arith
pending-scan_token (c ∷ cs) =
    let t = (scan_token (c ∷ cs)).0 in
    let r = (scan_token (c ∷ cs)).2 in omega (arith, length-scan_token c cs, pending-le t r)

pub measure-next_token-le : (p : Parser) → measure (next_token p) ≤ length p.next
unfolding next_token
measure-next_token-le p =
    omega (arith, pending-scan_token (skip_spaces p.next), length-skip_spaces p.next)

pub measure-next_token : (p : Parser) → at_end p.token ≡ false → measure (next_token p) < measure p
measure-next_token p h = rw h (omega (arith, measure-next_token-le p))
