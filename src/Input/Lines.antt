-- ===== src/Input/Lines.antt =====
-- A string is read line by line.
pub mod Round
use cshell.Prelude.{
  ℕ, zero, suc, ◌+◌, ◌-◌, ◌*◌, ◌/◌, ◌^◌, ◌≤◌, ◌<◌, ◌≡◌, refl, ap, sym, subst, ◌∙◌, Bool, true,
  false, ◌&&◌, ◌||◌, Option, none, some, [], ◌∷◌, ◌++◌, arith, ltb, leb, ◌==◌, if◌then◌else◌,
  Bool-cases, inl, inr,
}
use cshell.Prelude.Bytes.{Bytes}
use cshell.Prelude.Lists.{length}
use cshell.Prelude.Memory.{allocate}
use cshell.Input.{
  size_max, Position, cannot_grow, overflow, string, Input, Read, line, eof, interrupted, error,
  grown, reserve, got, finished, next_byte, read_failure, advance, at_limit, retry, finish,
  behind_byte, behind_reserve,
}

-- The first line of a text, with its newline if it has one, and the text behind it.
abbrev pub first_line : Bytes → Bytes
first_line [] = []
first_line (c ∷ cs) = if c == b'\n' then c ∷ [] else c ∷ first_line cs

abbrev pub behind_line : Bytes → Bytes
behind_line [] = []
behind_line (c ∷ cs) = if c == b'\n' then cs else behind_line cs

abbrev pub advanced : Bytes → Position → Position
advanced [] p = p
advanced (c ∷ cs) p = advanced cs (advance c p)

-- `n` more bytes keep the position below its limits.
abbrev pub HasRoom : ℕ → Position → Type 0
HasRoom n p = (p.offset + n < size_max) × (p.line + n < size_max) × (p.column + n < size_max)

pub HasRoom-advance :
    (n c : ℕ) (p : Position) → 0 < p.column → HasRoom (suc n) p → HasRoom n (advance c p)
unfolding advance
HasRoom-advance n c p pos (a, b, d) = ground (arith, a, b, d, pos)

pub advance-column : (c : ℕ) (p : Position) → 0 < (advance c p).column
unfolding advance
advance-column c p = ground arith

abbrev IsThere : Option ℕ → Type 0
IsThere none = ⊥
IsThere (some n) = Unit

abbrev doubled : ℕ → ℕ → ℕ
doubled zero n = n
doubled (suc f) n = doubled f (n * 2)

grown-IsThere :
    (f capacity needed : ℕ) → needed ≤ doubled f capacity → IsThere (grown (suc f) capacity needed)
unfolding grown
grown-IsThere zero capacity needed h = ground (arith, h)
grown-IsThere (suc f) capacity needed h = elim (Bool-cases (ltb capacity needed)) [
  | inr e ↦ rw (e, grown) tt
  | inl e ↦ elim (Bool-cases (ltb (size_max / 2) capacity)) [
    | inl k ↦ rw (e, k, grown) tt
    | inr k ↦ rw (e, k, grown) (grown-IsThere f (capacity * 2) needed h)
  ]
]

-- The reservation of a line that is not too long succeeds, and changes the capacity alone.
abbrev pub Reserved : Input → Option (Bool × Input) → Type 0
Reserved i none = ⊥
Reserved i (some (room, i')) =
    (room ≡ true)
    × (i'.source ≡ i.source)
    × (i'.position ≡ i.position)
    × (i'.ended ≡ i.ended)
    × (i'.failure ≡ i.failure)
    × (i'.retries ≡ i.retries)
    × (i'.memory ≡ [])

pub reserve-Reserved :
    (needed : ℕ) (i : Input) → needed ≤ 2 ^ 63 → i.memory ≡ [] → Reserved i (reserve needed i)
unfolding reserve allocate
reserve-Reserved needed i h m = elim (Bool-cases (leb needed i.capacity)) [
  | inl e ↦ rw (e, Reserved) (refl, refl, refl, refl, refl, refl, m)
  | inr e ↦
      let start = if i.capacity == 0 then 128 else i.capacity in
      let enough : needed ≤ doubled 63 start = ground (arith, h) in
      rw (e, Reserved) (by_growth (grown 64 start needed) (grown-IsThere 63 start needed enough))
]
  where
    by_growth :
        (r : Option ℕ)
        → IsThere r
        → Reserved i (elim r as (λ z. Option (Bool × Input)) [
          | none ↦ none
          | some n ↦ some (
              if (allocate i.memory).0
              then (true, record i { capacity = n; memory = (allocate i.memory).1 })
              else (false, record i { memory = (allocate i.memory).1 }))
        ])
    by_growth none t = t
    by_growth (some n) t = rw (m, allocate, Reserved) (refl, refl, refl, refl, refl, refl, refl)

-- What a read of the text `t` from position `p` is to give, with `taken` read so far; a line is never empty.
abbrev pub FirstLine : Bytes → Position → Bytes → Position → Option (Read × Input) → Type 0
FirstLine taken start t p none = ⊥
FirstLine taken start t p (some (line l s e, i)) =
    (l ≡ taken ++ first_line t)
    × (s ≡ start)
    × (e ≡ advanced (first_line t) p)
    × (i.position ≡ e)
    × (i.source ≡ string (behind_line t))
    × ((length l == 0) ≡ false)
FirstLine taken start t p (some (eof, i)) =
    (taken ≡ []) × (t ≡ []) × (i.position ≡ p) × (i.ended ≡ true)
FirstLine taken start t p (some (interrupted q, i)) = ⊥
FirstLine taken start t p (some (error f, i)) = ⊥

-- A source that is a string, with memory, below the limits.
pub record IsReading (t : Bytes) (p : Position) (i : Input) : Type 0 where
  pub source : i.source ≡ string t
  pub at : i.position ≡ p
  pub plenty : i.memory ≡ []
  pub no_retry : i.retries ≡ []
