-- ===== src/State/Functions/Counts.antt =====
-- Reference counts: a payload is counted once for each entry of a table that holds it, and is
-- destroyed only when nothing holds it any more.
use cshell.Prelude.{
  ℕ, ◌+◌, ◌-◌, ◌<◌, none, some, [], ◌∷◌, ◌≡◌, refl, arith, ◌==◌, ◌⊎◌, Bool-cases, if◌then◌else◌,
  Option-cases, inl, inr,
}
use cshell.Prelude.Bytes.{Bytes}
use cshell.Prelude.Memory.{Memory}
use cshell.Prelude.Table.{Table, find, remove, put_last}
use cshell.State.{State}
use cshell.State.Functions.{Payloads, retain, release, set_function, remove_function}

-- How many entries of the table hold the payload.
abbrev pub held : ℕ → Table ℕ → ℕ
held q [] = 0
held q ((k, p) ∷ t) = (if p == q then 1 else 0) + held q t

-- The entries of this table and `outside` others are all that refer to the payloads.
pub record IsCounted (outside : ℕ → ℕ) (t : Table ℕ) (h : Payloads) : Type 0 where
  pub counts : (q : ℕ) → h.references q ≡ held q t + outside q

held-remove :
    (k : Bytes) (p q : ℕ) (t : Table ℕ)
    → find k t ≡ some p
    → held q t ≡ (if p == q then 1 else 0) + held q (remove k t)
unfolding find remove
held-remove k p q [] h = cc
held-remove k p q ((j, r) ∷ t) h = ground (arith, held-remove k p q t)

held-put_last_old :
    (k : Bytes) (old p q : ℕ) (t : Table ℕ)
    → find k t ≡ some old
    → (if old == q then 1 else 0) + held q (put_last k p t) ≡ (if p == q then 1 else 0) + held q t
unfolding find put_last
held-put_last_old k old p q [] h = cc
held-put_last_old k old p q ((j, r) ∷ t) h = ground (arith, held-put_last_old k old p q t)

held-put_last_new :
    (k : Bytes) (p q : ℕ) (t : Table ℕ)
    → find k t ≡ none
    → held q (put_last k p t) ≡ (if p == q then 1 else 0) + held q t
unfolding find put_last
held-put_last_new k p q [] h = ground arith
held-put_last_new k p q ((j, r) ∷ t) h = ground (arith, held-put_last_new k p q t)

-- What `retain` and `release` do to each count.
references-retain :
    (p q : ℕ) (h : Payloads)
    → (retain p h).references q ≡ (if p == q then 1 else 0) + h.references q
unfolding retain
references-retain p q h = ground arith

references-release :
    (p q : ℕ) (h : Payloads)
    → 0 < h.references p
    → (if p == q then 1 else 0) + (release p h).references q ≡ h.references q
unfolding release
references-release p q h n = ground arith

held_pos : (k : Bytes) (p : ℕ) (t : Table ℕ) → find k t ≡ some p → 0 < held p t
unfolding find
held_pos k p [] h = cc
held_pos k p ((j, r) ∷ t) h = ground (arith, held_pos k p t)

-- What a change of the table may destroy: nothing, or one payload that no table holds any more.
abbrev pub SafeDestroy : (ℕ → ℕ) → Table ℕ → Payloads → Payloads → Type 0
SafeDestroy outside t h h' =
    (h'.destroyed ≡ h.destroyed)
    ⊎ ((p : ℕ) × (h'.destroyed ≡ p ∷ h.destroyed) × (held p t + outside p ≡ 0))

release-destroyed :
    (p : ℕ) (h : Payloads)
    → ((release p h).destroyed ≡ h.destroyed)
      ⊎ (((release p h).destroyed ≡ p ∷ h.destroyed) × ((release p h).references p ≡ 0))
unfolding release
release-destroyed p h = elim (Bool-cases ((h.references p - 1) == 0)) [
  | inl e ↦ inr (rw e, ground arith)
  | inr e ↦ inl (rw e)
]

destroyed-retain : (p : ℕ) (h : Payloads) → (retain p h).destroyed ≡ h.destroyed
unfolding retain
destroyed-retain p h = refl

-- A release of a counted payload, given the table and the counts that it leaves.
release-SafeDestroy :
    (outside : ℕ → ℕ) (t : Table ℕ) (p : ℕ) (h : Payloads)
    → IsCounted outside t (release p h)
    → SafeDestroy outside t h (release p h)
release-SafeDestroy outside t p h c = elim (release-destroyed p h) [
  | inl e ↦ inl e
  | inr (e, z) ↦ inr (p, e, omega (arith, c.counts p))
]

module _ (outside : ℕ → ℕ) where
  remove-IsCounted :
      (k : Bytes) (p : ℕ) (t : Table ℕ) (h : Payloads)
      → find k t ≡ some p
      → IsCounted outside t h
      → IsCounted outside (remove k t) (release p h)
  remove-IsCounted k p t h e c = record {
    counts = λ q. omega (
      arith,
      references-release p q h (omega (arith, c.counts p, held_pos k p t e)),
      held-remove k p q t e,
      c.counts q,
    );
  }

  replace-IsCounted :
      (k : Bytes) (old p : ℕ) (t : Table ℕ) (h : Payloads)
      → find k t ≡ some old
      → IsCounted outside t h
      → IsCounted outside (put_last k p t) (release old (retain p h))
  replace-IsCounted k old p t h e c = record {
    counts = λ q.
        let live : 0 < (retain p h).references old =
          omega (arith, c.counts old, held_pos k old t e, references-retain p old h) in
        omega (
          arith,
          references-release old q (retain p h) live,
          references-retain p q h,
          held-put_last_old k old p q t e,
          c.counts q,
        );
  }

  extend-IsCounted :
      (k : Bytes) (p : ℕ) (t : Table ℕ) (h : Payloads)
      → find k t ≡ none
      → IsCounted outside t h
      → IsCounted outside (put_last k p t) (retain p h)
  extend-IsCounted k p t h e c = record {
    counts = λ q. omega (arith, references-retain p q h, held-put_last_new k p q t e, c.counts q);
  }

  -- Setting a function, new or in place of an old one, keeps the counts exact, and a payload that it
  -- destroys is one that nothing holds any more.
  pub set_function-IsCounted :
      (k : Bytes) (p : ℕ) (s : State) (h : Payloads) (m : Memory)
      → IsCounted outside s.functions h
      → IsCounted outside (set_function k p s h m).1.functions (set_function k p s h m).2
        × SafeDestroy outside (set_function k p s h m).1.functions h (set_function k p s h m).2
  unfolding set_function
  set_function-IsCounted k p s h m c = elim (Option-cases (find k s.functions)) [
    | inl e ↦ ground (arith, e, extend-IsCounted k p s.functions h e c, destroyed-retain p h)
    | inr (old, e) ↦
        let kept = replace-IsCounted k old p s.functions h e c in
        ground (
          arith,
          e,
          kept,
          destroyed-retain p h,
          release-SafeDestroy outside (put_last k p s.functions) old (retain p h) kept,
        )
  ]

  -- Removing a function keeps the counts exact, and a payload that it destroys is one that nothing
  -- holds any more.
  pub remove_function-IsCounted :
      (k : Bytes) (s : State) (h : Payloads)
      → IsCounted outside s.functions h
      → IsCounted outside (remove_function k s h).1.functions (remove_function k s h).2
        × SafeDestroy outside (remove_function k s h).1.functions h (remove_function k s h).2
  unfolding remove_function
  remove_function-IsCounted k s h c = elim (Option-cases (find k s.functions)) [
    | inl e ↦ ground (arith, e)
    | inr (p, e) ↦
        let kept = remove-IsCounted k p s.functions h e c in
        ground (arith, e, kept, release-SafeDestroy outside (remove k s.functions) p h kept)
  ]
