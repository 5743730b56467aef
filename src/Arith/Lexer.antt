-- ===== src/Arith/Lexer.antt =====
-- `next_token`.
pub mod Progress
use cshell.Prelude.{
  ℕ, Bool, true, false, ◌||◌, Option, none, some, List, [], ◌∷◌, ◌==◌, within, if◌then◌else◌,
}
use cshell.Prelude.Bytes.{Bytes, codes}
use cshell.Arith.{
  Parser, Token, end_token, bad, number, name, lparen, rparen, comma, assign, mul_assign,
  div_assign, mod_assign, add_assign, sub_assign, shl_assign, shr_assign, and_assign, xor_assign,
  or_assign, question, colon, logical_or, logical_and, bit_or, bit_xor, bit_and, eq, ne, lt, le, gt,
  ge, shl, shr, add, sub, mul, div, mod_token, not_token, inv,
}

unfoldable pub name_start : ℕ → Bool
name_start c = within b'a' b'z' c || within b'A' b'Z' c || c == b'_'

unfoldable pub digit : ℕ → Bool
digit c = within b'0' b'9' c

-- Blank, tab, newline, carriage return, vertical tab, form feed.
unfoldable pub space : ℕ → Bool
space c = c == 32 || c == 9 || c == 10 || c == 13 || c == 11 || c == 12

-- The table, in the order in which it is tried.
unfoldable pub operators : List (Bytes × Token)
operators =
    (codes "<<=", shl_assign)
    ∷ (codes ">>=", shr_assign)
    ∷ (codes "*=", mul_assign)
    ∷ (codes "/=", div_assign)
    ∷ (codes "%=", mod_assign)
    ∷ (codes "+=", add_assign)
    ∷ (codes "-=", sub_assign)
    ∷ (codes "&=", and_assign)
    ∷ (codes "^=", xor_assign)
    ∷ (codes "|=", or_assign)
    ∷ (codes "||", logical_or)
    ∷ (codes "&&", logical_and)
    ∷ (codes "==", eq)
    ∷ (codes "!=", ne)
    ∷ (codes "<=", le)
    ∷ (codes ">=", ge)
    ∷ (codes "<<", shl)
    ∷ (codes ">>", shr)
    ∷ (codes "++", bad)
    ∷ (codes "--", bad)
    ∷ (codes "(", lparen)
    ∷ (codes ")", rparen)
    ∷ (codes ",", comma)
    ∷ (codes "=", assign)
    ∷ (codes "?", question)
    ∷ (codes ":", colon)
    ∷ (codes "|", bit_or)
    ∷ (codes "^", bit_xor)
    ∷ (codes "&", bit_and)
    ∷ (codes "<", lt)
    ∷ (codes ">", gt)
    ∷ (codes "+", add)
    ∷ (codes "-", sub)
    ∷ (codes "*", mul)
    ∷ (codes "/", div)
    ∷ (codes "%", mod_token)
    ∷ (codes "!", not_token)
    ∷ (codes "~", inv)
    ∷ []

unfoldable pub skip_spaces : Bytes → Bytes
skip_spaces [] = []
skip_spaces (c ∷ cs) = let rest = skip_spaces cs in if space c then rest else c ∷ cs

-- A name or number: its bytes and what follows them.
unfoldable pub take_word : Bytes → Bytes × Bytes
take_word [] = ([], [])
take_word (c ∷ cs) =
    let (word, rest) = take_word cs in
    if name_start c || digit c then (c ∷ word, rest) else ([], c ∷ cs)

-- What follows the prefix, if the text begins with it.
unfoldable pub strip_prefix : Bytes → Bytes → Option Bytes
strip_prefix [] text = some text
strip_prefix (p ∷ ps) [] = none
strip_prefix (p ∷ ps) (c ∷ cs) = let rest = strip_prefix ps cs in if p == c then rest else none

-- The first operator of the table that the text begins with.
unfoldable pub find_operator : List (Bytes × Token) → Bytes → Option (Bytes × Token × Bytes)
find_operator [] text = none
find_operator ((op, t) ∷ ops) text = elim (strip_prefix op text) [
  | some rest ↦ some (op, t, rest)
  | none ↦ find_operator ops text
]

-- A token: its kind, its bytes, and the text behind it.
unfoldable pub scan_token : Bytes → Token × Bytes × Bytes
scan_token [] = (end_token, [], [])
scan_token (c ∷ cs) =
    if name_start c || digit c
    then (let (word, rest) = take_word (c ∷ cs) in (if digit c then number else name, word, rest))
    else elim (find_operator operators (c ∷ cs)) [
      | some (op, t, rest) ↦ (t, op, rest)
      | none ↦ (bad, c ∷ [], cs)
    ]

-- `next_token`.
unfoldable pub next_token : Parser → Parser
next_token p =
    let (t, word, rest) = scan_token (skip_spaces p.next) in
    record p { token = t; text = word; next = rest }
