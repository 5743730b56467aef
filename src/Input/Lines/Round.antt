-- ===== src/Input/Lines/Round.antt =====
-- One round of the loop on a string.
use cshell.Prelude.{
  ℕ, ◌-◌, ◌≡◌, refl, ap, sym, subst, ◌∙◌, Bool, true, false, ◌&&◌, ◌||◌, Option, none, some, [],
  ◌∷◌, ◌++◌, arith, ltb, ◌==◌, if◌then◌else◌, Bool-cases, inl, inr,
}
use cshell.Prelude.Bytes.{Bytes}
use cshell.Prelude.Lists.{length}
use cshell.Input.{
  size_max, Position, cannot_grow, overflow, string, Input, Read, line, eof, interrupted, error,
  got, finished, next_byte, read_failure, advance, at_limit, retry, finish, behind_byte,
  behind_reserve,
}
use cshell.Input.Lines.{first_line, behind_line, advanced, FirstLine, IsReading}

append_nil : (b : Bytes) → b ++ [] ≡ b
append_nil [] = refl
append_nil (c ∷ cs) = ap (◌∷◌ c) (append_nil cs)

append_one : (b cs : Bytes) (c : ℕ) → (b ++ (c ∷ [])) ++ cs ≡ b ++ (c ∷ cs)
append_one [] cs c = refl
append_one (x ∷ b) cs c = ap (◌∷◌ x) (append_one b cs c)

cons_not_empty : (c : ℕ) (cs : Bytes) → (length (c ∷ cs) == 0) ≡ false
cons_not_empty c cs = ground arith

snoc_not_empty : (b : Bytes) (c : ℕ) → (length (b ++ (c ∷ [])) == 0) ≡ false
snoc_not_empty [] c = cons_not_empty c []
snoc_not_empty (x ∷ b) c = cons_not_empty x (b ++ (c ∷ []))

finish-FirstLine :
    (taken : Bytes) (start p : Position) (i : Input)
    → IsReading [] p i
    → FirstLine taken start [] p (some (finish taken start i))
unfolding finish
finish-FirstLine [] start p i r = (refl, refl, r.at, refl)
finish-FirstLine (c ∷ cs) start p i r =
    rw (cons_not_empty c cs, FirstLine)
      (sym (append_nil (c ∷ cs)), refl, r.at, refl, r.source, cons_not_empty c cs)

retry_none : (i : Input) → i.retries ≡ [] → retry i ≡ (false, i)
unfolding retry
retry_none i h =
    ap
      (λ l. elim l as (λ _. Bool × Input) [
        | [] ↦ (false, i)
        | r ∷ rs ↦ (r, record i { retries = rs })
      ])
      h

first_line-newline : (c : ℕ) (cs : Bytes) → (c == b'\n') ≡ true → first_line (c ∷ cs) ≡ c ∷ []
first_line-newline c cs e = rw (e) refl

first_line-other :
    (c : ℕ) (cs : Bytes) → (c == b'\n') ≡ false → first_line (c ∷ cs) ≡ c ∷ first_line cs
first_line-other c cs e = rw (e) refl

behind_line-newline : (c : ℕ) (cs : Bytes) → (c == b'\n') ≡ true → behind_line (c ∷ cs) ≡ cs
behind_line-newline c cs e = rw (e) refl

behind_line-other :
    (c : ℕ) (cs : Bytes) → (c == b'\n') ≡ false → behind_line (c ∷ cs) ≡ behind_line cs
behind_line-other c cs e = rw (e) refl

snoc_nonempty : (b : Bytes) (c : ℕ) → b ++ (c ∷ []) ≡ [] → ⊥
snoc_nonempty [] c h = grind arith
snoc_nonempty (x ∷ b) c h = grind arith

-- What holds behind a byte of the line holds of the line.
FirstLine-extend :
    (taken : Bytes) (start : Position) (c : ℕ) (cs : Bytes) (p : Position)
    (r : Option (Read × Input))
    → (c == b'\n') ≡ false
    → FirstLine (taken ++ (c ∷ [])) start cs (advance c p) r
    → FirstLine taken start (c ∷ cs) p r
FirstLine-extend taken start c cs p none n h = h
FirstLine-extend taken start c cs p (some (line l s e, i)) n (a, b, d, f, g, u) = (
  a ∙ append_one taken (first_line cs) c ∙ ap (λ z. taken ++ z) (sym (first_line-other c cs n)),
  b,
  d ∙ ap (λ z. advanced z p) (sym (first_line-other c cs n)),
  f,
  g ∙ ap (λ z. string z) (sym (behind_line-other c cs n)),
  u,
)
FirstLine-extend taken start c cs p (some (eof, i)) n (a, h, g, k) =
    elim (snoc_nonempty taken c a) [ ]
FirstLine-extend taken start c cs p (some (interrupted q, i)) n h = h
FirstLine-extend taken start c cs p (some (error f, i)) n h = h

module _ (again : Bytes → Input → Option (Read × Input)) (start p : Position) where
  finished_nil :
      (i : Input)
      → i.retries ≡ []
      → behind_byte again [] start finished i ≡ some (finish [] start i)
  unfolding behind_byte
  finished_nil i h =
      ap
        (λ r. elim r.0 as (λ _. Option (Read × Input)) [
          | true ↦ again [] r.1
          | false ↦ some (finish [] start r.1)
        ])
        (retry_none i h)

  finished_cons :
      (c : ℕ) (cs : Bytes) (i : Input)
      → behind_byte again (c ∷ cs) start finished i ≡ some (finish (c ∷ cs) start i)
  unfolding behind_byte
  finished_cons c cs i =
      ap
        (λ b. elim (b && (retry i).0) as (λ _. Option (Read × Input)) [
          | true ↦ again (c ∷ cs) (retry i).1
          | false ↦ some (finish (c ∷ cs) start (if b then (retry i).1 else i))
        ])
        (cons_not_empty c cs)

  finished-FirstLine :
      (taken : Bytes) (i : Input)
      → IsReading [] p i
      → FirstLine taken start [] p (behind_byte again taken start finished i)
  finished-FirstLine [] i r =
      subst (λ x. FirstLine [] start [] p x) (sym (finished_nil i r.no_retry))
        (finish-FirstLine [] start p i r)
  finished-FirstLine (c ∷ cs) i r =
      subst (λ x. FirstLine (c ∷ cs) start [] p x) (sym (finished_cons c cs i))
        (finish-FirstLine (c ∷ cs) start p i r)

  got_other :
      (taken : Bytes) (c : ℕ) (i : Input)
      → (c == b'\n') ≡ false
      → behind_byte again taken start (got c) i
        ≡ again (taken ++ (c ∷ [])) (record i { position = advance c i.position })
  unfolding behind_byte
  got_other taken c i e =
      ap
        (λ b. elim b as (λ _. Option (Read × Input)) [
          | true ↦ some (
            line (taken ++ (c ∷ [])) start (advance c i.position),
            record i { position = advance c i.position },
          )
          | false ↦ again (taken ++ (c ∷ [])) (record i { position = advance c i.position })
        ])
        e

  got-FirstLine :
      (taken : Bytes) (c : ℕ) (cs : Bytes) (i : Input)
      → IsReading cs p i
      → ((j : Input)
          → IsReading cs (advance c p) j
          → FirstLine (taken ++ (c ∷ [])) start cs (advance c p) (again (taken ++ (c ∷ [])) j))
      → FirstLine taken start (c ∷ cs) p (behind_byte again taken start (got c) i)
  unfolding behind_byte
  got-FirstLine taken c cs i r h = elim (Bool-cases (c == b'\n')) [
    | inl e ↦
        rw (e, FirstLine)
          (
            ap (λ z. taken ++ z) (sym (first_line-newline c cs e)),
            refl,
            ap (advance c) r.at ∙ ap (λ z. advanced z p) (sym (first_line-newline c cs e)),
            refl,
            r.source ∙ ap (λ z. string z) (sym (behind_line-newline c cs e)),
            snoc_not_empty taken c,
          )
    | inr e ↦
        subst (λ x. FirstLine taken start (c ∷ cs) p x) (sym (got_other taken c i e))
          (FirstLine-extend taken start c cs p
            (again (taken ++ (c ∷ [])) (record i { position = advance c i.position })) e
            (h (record i { position = advance c i.position })
              (record {
                source = r.source;
                at = ap (advance c) r.at;
                plenty = r.plenty;
                no_retry = r.no_retry;
              })))
  ]

  pub byte-FirstLine :
      (taken t : Bytes) (i : Input)
      → IsReading t p i
      → ((c : ℕ) (cs : Bytes) (j : Input)
          → t ≡ c ∷ cs
          → IsReading cs (advance c p) j
          → FirstLine (taken ++ (c ∷ [])) start cs (advance c p) (again (taken ++ (c ∷ [])) j))
      → FirstLine taken start t p (
          behind_byte again taken start
            (next_byte (string t)).0
            (record i { source = (next_byte (string t)).1 }))
  unfolding next_byte
  byte-FirstLine taken [] i r h =
      finished-FirstLine taken (record i { source = string [] })
        (record { source = refl; at = r.at; plenty = r.plenty; no_retry = r.no_retry })
  byte-FirstLine taken (c ∷ cs) i r h =
      got-FirstLine taken c cs (record i { source = string cs })
        (record { source = refl; at = r.at; plenty = r.plenty; no_retry = r.no_retry })
        (λ j q. h c cs j refl q)

  -- With room and below the limits a byte is read.
  pub reserved_byte :
      (taken t : Bytes) (i i' : Input)
      → ltb (size_max - 2) (length taken) ≡ false
      → at_limit i'.position ≡ false
      → i'.source ≡ string t
      → behind_reserve again taken start i (some (true, i'))
        ≡ behind_byte again taken start
            (next_byte (string t)).0
            (record i' { source = (next_byte (string t)).1 })
  unfolding behind_reserve
  reserved_byte taken t i i' short below text =
      ap
        (λ b. elim (b || false) as (λ _. Option (Read × Input)) [
          | true ↦ some (read_failure cannot_grow (if b then i else i'))
          | false ↦ elim (at_limit i'.position) as (λ _. Option (Read × Input)) [
            | true ↦ some (read_failure overflow i')
            | false ↦
                behind_byte again taken start (next_byte i'.source).0
                  (record i' { source = (next_byte i'.source).1 })
          ]
        ])
        short
      ∙ ap
          (λ b. elim b as (λ _. Option (Read × Input)) [
            | true ↦ some (read_failure overflow i')
            | false ↦
                behind_byte again taken start (next_byte i'.source).0
                  (record i' { source = (next_byte i'.source).1 })
          ])
          below
      ∙ ap
          (λ z.
            behind_byte again taken start (next_byte z).0 (record i' { source = (next_byte z).1 }))
          text
