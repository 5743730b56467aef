-- ===== src/Prelude/Table.antt =====
-- A singly linked list of named entries, as the variable, function, hash and alias lists are.
use cshell.Prelude.{◌≡◌, refl, Option, none, some, false, List, [], ◌∷◌, ◌++◌, arith, if◌then◌else◌}
use cshell.Prelude.Bytes.{Bytes, bytes_eq, bytes_eq_iff}

abbrev pub Table {ℓ} : Type ℓ → Type ℓ
Table V = List (Bytes × V)

module _ {ℓ} {V : Type ℓ} where
  -- The payload of the first entry with the name.
  unfoldable pub find : Bytes → Table V → Option V
  find k [] = none
  find k ((j, v) ∷ t) = if bytes_eq j k then some v else find k t

  -- Overwrites the payload of the first entry with the name; no entry, no change.
  unfoldable pub assign : Bytes → V → Table V → Table V
  assign k v [] = []
  assign k v ((j, w) ∷ t) = if bytes_eq j k then (j, v) ∷ t else (j, w) ∷ assign k v t

  -- Unlinks the first entry with the name.
  unfoldable pub remove : Bytes → Table V → Table V
  remove k [] = []
  remove k ((j, w) ∷ t) = if bytes_eq j k then t else (j, w) ∷ remove k t

  -- Overwrites the entry with the name where it stands, or links a new one at the end.
  unfoldable pub put_last : Bytes → V → Table V → Table V
  put_last k v [] = (k, v) ∷ []
  put_last k v ((j, w) ∷ t) = if bytes_eq j k then (j, v) ∷ t else (j, w) ∷ put_last k v t

  -- No two entries have one name.
  abbrev pub NamesUnique : Table V → Type ℓ
  NamesUnique [] = Unit
  NamesUnique ((k, v) ∷ t) = (find k t ≡ none) × NamesUnique t

  pub find-nil : (k : Bytes) → find k [] ≡ none
  unfolding find
  find-nil k = refl

  pub find-cons :
      (k j : Bytes) (v : V) (t : Table V)
      → find j ((k, v) ∷ t) ≡ (if bytes_eq k j then some v else find j t)
  unfolding find
  find-cons k j v t = refl

  -- The name of an entry that is there is found with the new payload; nothing else changes.
  pub find-assign :
      (k j : Bytes) (v : V) (t : Table V)
      → find j (assign k v t)
        ≡ (if bytes_eq k j then (elim (find k t) [ none ↦ none | some w ↦ some v ]) else find j t)
  unfolding find assign
  find-assign k j v [] = ground arith
  find-assign k j v ((i, u) ∷ t) =
      ground (arith, bytes_eq_iff i k, bytes_eq_iff i j, bytes_eq_iff k j, find-assign k j v t)

  pub assign-absent : (k : Bytes) (v : V) (t : Table V) → find k t ≡ none → assign k v t ≡ t
  unfolding find assign
  assign-absent k v [] h = refl
  assign-absent k v ((i, w) ∷ t) h = ground (arith, assign-absent k v t)

  pub find-put_last :
      (k j : Bytes) (v : V) (t : Table V)
      → find j (put_last k v t) ≡ (if bytes_eq k j then some v else find j t)
  unfolding find put_last
  find-put_last k j v [] = refl
  find-put_last k j v ((i, w) ∷ t) =
      ground (arith, bytes_eq_iff i k, bytes_eq_iff i j, bytes_eq_iff k j, find-put_last k j v t)

  pub find-remove :
      (k j : Bytes) (t : Table V)
      → NamesUnique t
      → find j (remove k t) ≡ (if bytes_eq k j then none else find j t)
  unfolding find remove
  find-remove k j [] u = ground arith
  find-remove k j ((i, w) ∷ t) u =
      ground (arith, bytes_eq_iff i k, bytes_eq_iff i j, bytes_eq_iff k j, find-remove k j t u.1)

  pub find-remove_ne :
      (k j : Bytes) (t : Table V) → bytes_eq k j ≡ false → find j (remove k t) ≡ find j t
  unfolding find remove
  find-remove_ne k j [] h = refl
  find-remove_ne k j ((i, w) ∷ t) h =
      ground (arith, bytes_eq_iff i k, bytes_eq_iff i j, bytes_eq_iff k j, find-remove_ne k j t h)

  pub remove-absent : (k : Bytes) (t : Table V) → find k t ≡ none → remove k t ≡ t
  unfolding find remove
  remove-absent k [] h = refl
  remove-absent k ((i, w) ∷ t) h = ground (arith, remove-absent k t)

  find-remove-none : (k j : Bytes) (t : Table V) → find j t ≡ none → find j (remove k t) ≡ none
  unfolding find remove
  find-remove-none k j [] h = refl
  find-remove-none k j ((i, w) ∷ t) h = ground (arith, find-remove-none k j t)

  find-assign-none :
      (k j : Bytes) (v : V) (t : Table V) → find j t ≡ none → find j (assign k v t) ≡ none
  unfolding find assign
  find-assign-none k j v [] h = refl
  find-assign-none k j v ((i, w) ∷ t) h = ground (arith, find-assign-none k j v t)

  pub remove-NamesUnique : (k : Bytes) (t : Table V) → NamesUnique t → NamesUnique (remove k t)
  unfolding find remove
  remove-NamesUnique k [] u = tt
  remove-NamesUnique k ((i, w) ∷ t) u =
      ground (arith, find-remove-none k i t, remove-NamesUnique k t u.1)

  pub assign-NamesUnique :
      (k : Bytes) (v : V) (t : Table V) → NamesUnique t → NamesUnique (assign k v t)
  unfolding find assign
  assign-NamesUnique k v [] u = tt
  assign-NamesUnique k v ((i, w) ∷ t) u =
      ground (arith, find-assign-none k i v t, assign-NamesUnique k v t u.1)

  pub put_last-NamesUnique :
      (k : Bytes) (v : V) (t : Table V) → NamesUnique t → NamesUnique (put_last k v t)
  unfolding put_last
  put_last-NamesUnique k v [] u = (unfold find in refl, tt)
  put_last-NamesUnique k v ((i, w) ∷ t) u = ground (
    arith,
    find-put_last k i v t,
    bytes_eq_iff i k,
    bytes_eq_iff k i,
    put_last-NamesUnique k v t u.1,
  )

  -- A new name goes to the end.
  pub put_last-absent :
      (k : Bytes) (v : V) (t : Table V) → find k t ≡ none → put_last k v t ≡ t ++ ((k, v) ∷ [])
  unfolding find put_last
  put_last-absent k v [] h = refl
  put_last-absent k v ((i, w) ∷ t) h = ground (arith, put_last-absent k v t)
