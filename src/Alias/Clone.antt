-- ===== src/Alias/Clone.antt =====
-- `csh_aliases_clone` rebuilds the table through `set_alias`, entry by entry.
use mathlib.Core.List.{append-nil, append_assoc}
use cshell.Prelude.{true, Option, none, some, [], ◌∷◌, ◌++◌, ◌≡◌, refl, ◌∙◌, subst, arith}
use cshell.Prelude.Bytes.{Bytes, bytes_lt, bytes_lt-ne}
use cshell.Prelude.Memory.{Memory, allocate, allocations}
use cshell.Prelude.Table.{find}
use cshell.Alias.{
  Aliases, Outcome, ok, err, valid_name, insert_sorted, set_alias, clone_onto, clone,
}
use cshell.Alias.Order.{Above, IsSorted, NamesValid, IsTable}

-- Every name of the list comes before `k`.
abbrev pub Below : Aliases → Bytes → Type 0
Below [] k = Unit
Below ((j, v) ∷ t) k = (bytes_lt j k ≡ true) × Below t k

find-Below : (k : Bytes) (t : Aliases) → Below t k → find k t ≡ none
unfolding find
find-Below k [] b = refl
find-Below k ((i, v) ∷ t) b = ground (arith, bytes_lt-ne i k b.0, find-Below k t b.1)

insert_sorted-Below :
    (k v : Bytes) (t : Aliases) → Below t k → insert_sorted k v t ≡ t ++ ((k, v) ∷ [])
unfolding insert_sorted
insert_sorted-Below k v [] b = refl
insert_sorted-Below k v ((i, w) ∷ t) b = rw (b.0, insert_sorted-Below k v t b.1)

pub set_alias-Below :
    (k v : Bytes) (t : Aliases)
    → valid_name k ≡ true
    → Below t k
    → set_alias k v t [] ≡ (ok, t ++ ((k, v) ∷ []), [])
unfolding set_alias allocate allocations
set_alias-Below k v t h b = ground (arith, find-Below k t b, insert_sorted-Below k v t b)

-- Each name of the copy comes before each name that is still to be copied.
abbrev pub Split : Aliases → Aliases → Type 0
Split copy [] = Unit
Split copy ((k, v) ∷ t) = Below copy k × Split copy t

Below-append :
    (t : Aliases) (j w k : Bytes) → Below t k → bytes_lt j k ≡ true → Below (t ++ ((j, w) ∷ [])) k
Below-append [] j w k b h = (h, tt)
Below-append ((i, u) ∷ t) j w k b h = (b.0, Below-append t j w k b.1 h)

pub Split-append :
    (copy : Aliases) (k v : Bytes) (t : Aliases)
    → Above k t
    → Split copy t
    → Split (copy ++ ((k, v) ∷ [])) t
Split-append copy k v [] a s = tt
Split-append copy k v ((i, w) ∷ t) a s =
    (Below-append copy k v i s.0 a.0, Split-append copy k v t a.1 s.1)

pub clone_onto-append :
    (copy t : Aliases)
    → IsSorted t
    → NamesValid t
    → Split copy t
    → clone_onto copy t [] ≡ (some (copy ++ t), [])
unfolding clone_onto
clone_onto-append copy [] s n p = rw append-nil
clone_onto-append copy ((k, v) ∷ t) s n p = ground (
  arith,
  set_alias-Below k v copy n.0 p.0,
  append_assoc copy ((k, v) ∷ []) t,
  clone_onto-append (copy ++ ((k, v) ∷ [])) t s.1 n.1 (Split-append copy k v t s.0 p.1),
)

pub Split-nil : (t : Aliases) → Split [] t
Split-nil [] = tt
Split-nil ((k, v) ∷ t) = (tt, Split-nil t)

-- With memory enough, the clone of a table is that table, entry for entry.
pub clone-eq : (t : Aliases) → IsTable t → clone t [] ≡ (some t, [])
unfolding clone allocate
clone-eq t h = clone_onto-append [] t h.sorted h.names (Split-nil t)

-- With any memory: a clone that is made is the table.
set_alias-appended :
    (k v : Bytes) (t : Aliases) (m : Memory)
    → valid_name k ≡ true
    → Below t k
    → (set_alias k v t m).0 ≡ ok
    → (set_alias k v t m).1 ≡ t ++ ((k, v) ∷ [])
unfolding set_alias
set_alias-appended k v t m h b e =
    ground (arith, find-Below k t b, insert_sorted-Below k v t b, e, h)

clone_onto-made :
    (copy t r : Aliases) (m : Memory)
    → IsSorted t
    → NamesValid t
    → Split copy t
    → (clone_onto copy t m).0 ≡ some r
    → r ≡ copy ++ t
unfolding clone_onto
clone_onto-made copy [] r m s n p e = ground (arith, e, append-nil copy)
clone_onto-made copy ((k, v) ∷ t) r m s n p e =
    let g = copy ++ ((k, v) ∷ []) in
    let x = set_alias k v copy m in
    next x.0 x.1 x.2 (set_alias-appended k v copy m n.0 p.0)
      (λ left. clone_onto-made g t r left s.1 n.1 (Split-append copy k v t s.0 p.1)) e
  where
    next :
        (o : Outcome) (grown : Aliases) (left : Memory)
        → (o ≡ ok → grown ≡ copy ++ ((k, v) ∷ []))
        → ((l : Memory)
            → (clone_onto (copy ++ ((k, v) ∷ [])) t l).0 ≡ some r
            → r ≡ (copy ++ ((k, v) ∷ [])) ++ t)
        → (elim o as (λ _. Option Aliases × Memory) [
          | ok ↦ clone_onto grown t left
          | err f ↦ (none, left)
        ]).0
          ≡ some r
        → r ≡ copy ++ ((k, v) ∷ t)
    next ok grown left h ih q =
        ih left (subst (λ z. (clone_onto z t left).0 ≡ some r) (h refl) q)
        ∙ append_assoc copy ((k, v) ∷ []) t
    next (err f) grown left h ih q = absurd (ground (arith, q))

pub clone-made : (t r : Aliases) (m : Memory) → IsTable t → (clone t m).0 ≡ some r → r ≡ t
unfolding clone
clone-made t r m h e =
    clone_onto-made [] t r (allocate m).1 h.sorted h.names (Split-nil t) (ground (arith, e))
