-- ===== src/Alias/Order.antt =====
-- The alias list stays in strict `strcmp` order, so each name stands in it once; lookups after
-- `set_alias` and `csh_aliases_unset`.
use cshell.Prelude.{true, none, some, [], ◌∷◌, ◌≡◌, refl, arith, if◌then◌else◌}
use cshell.Prelude.Bytes.{
  Bytes, bytes_eq, bytes_lt, bytes_eq_iff, bytes_lt_trans, bytes_lt-ne, bytes_lt_total,
  bytes_eq_sym,
}
use cshell.Prelude.Memory.{Memory}
use cshell.Prelude.Table.{find, assign, remove, NamesUnique, find-assign}
use cshell.Alias.{Aliases, ok, err, valid_name, get, insert_sorted, set_alias, unset_alias}

-- Every name of the list comes after `k`.
abbrev pub Above : Bytes → Aliases → Type 0
Above k [] = Unit
Above k ((j, v) ∷ t) = (bytes_lt k j ≡ true) × Above k t

abbrev pub IsSorted : Aliases → Type 0
IsSorted [] = Unit
IsSorted ((k, v) ∷ t) = Above k t × IsSorted t

-- Every name is one that `valid_name` takes.
abbrev pub NamesValid : Aliases → Type 0
NamesValid [] = Unit
NamesValid ((k, v) ∷ t) = (valid_name k ≡ true) × NamesValid t

-- The table's invariant.
pub record IsTable (t : Aliases) : Type 0 where
  pub sorted : IsSorted t
  pub names : NamesValid t

Above-trans : (j k : Bytes) (t : Aliases) → bytes_lt j k ≡ true → Above k t → Above j t
Above-trans j k [] h a = tt
Above-trans j k ((i, v) ∷ t) h a = (bytes_lt_trans j k i h a.0, Above-trans j k t h a.1)

Above-find : (k : Bytes) (t : Aliases) → Above k t → find k t ≡ none
unfolding find
Above-find k [] a = refl
Above-find k ((i, v) ∷ t) a =
    ground (arith, bytes_lt-ne k i a.0, bytes_eq_sym k i, Above-find k t a.1)

pub IsSorted-NamesUnique : (t : Aliases) → IsSorted t → NamesUnique t
IsSorted-NamesUnique [] s = tt
IsSorted-NamesUnique ((k, v) ∷ t) s = (Above-find k t s.0, IsSorted-NamesUnique t s.1)

Above-insert_sorted :
    (j k v : Bytes) (t : Aliases) → bytes_lt j k ≡ true → Above j t → Above j (insert_sorted k v t)
unfolding insert_sorted
Above-insert_sorted j k v [] h a = (h, tt)
Above-insert_sorted j k v ((i, w) ∷ t) h a = ground (arith, Above-insert_sorted j k v t h a.1)

Above-assign : (j k v : Bytes) (t : Aliases) → Above j t → Above j (assign k v t)
unfolding assign
Above-assign j k v [] a = tt
Above-assign j k v ((i, w) ∷ t) a = ground (arith, Above-assign j k v t a.1)

Above-remove : (j k : Bytes) (t : Aliases) → Above j t → Above j (remove k t)
unfolding remove
Above-remove j k [] a = tt
Above-remove j k ((i, w) ∷ t) a = ground (arith, Above-remove j k t a.1)

insert_sorted-IsSorted :
    (k v : Bytes) (t : Aliases) → find k t ≡ none → IsSorted t → IsSorted (insert_sorted k v t)
unfolding insert_sorted find
insert_sorted-IsSorted k v [] h s = (tt, tt)
insert_sorted-IsSorted k v ((i, w) ∷ t) h s = ground (
  arith,
  Above-insert_sorted i k v t,
  insert_sorted-IsSorted k v t,
  bytes_lt_total i k,
  Above-trans k i t,
)

assign-IsSorted : (k v : Bytes) (t : Aliases) → IsSorted t → IsSorted (assign k v t)
unfolding assign
assign-IsSorted k v [] s = tt
assign-IsSorted k v ((i, w) ∷ t) s = ground (arith, Above-assign i k v t, assign-IsSorted k v t)

remove-IsSorted : (k : Bytes) (t : Aliases) → IsSorted t → IsSorted (remove k t)
unfolding remove
remove-IsSorted k [] s = tt
remove-IsSorted k ((i, w) ∷ t) s = ground (arith, Above-remove i k t, remove-IsSorted k t)

insert_sorted-NamesValid :
    (k v : Bytes) (t : Aliases)
    → valid_name k ≡ true
    → NamesValid t
    → NamesValid (insert_sorted k v t)
unfolding insert_sorted
insert_sorted-NamesValid k v [] h s = (h, tt)
insert_sorted-NamesValid k v ((i, w) ∷ t) h s = ground (arith, insert_sorted-NamesValid k v t)

assign-NamesValid : (k v : Bytes) (t : Aliases) → NamesValid t → NamesValid (assign k v t)
unfolding assign
assign-NamesValid k v [] s = tt
assign-NamesValid k v ((i, w) ∷ t) s = ground (arith, assign-NamesValid k v t)

remove-NamesValid : (k : Bytes) (t : Aliases) → NamesValid t → NamesValid (remove k t)
unfolding remove
remove-NamesValid k [] s = tt
remove-NamesValid k ((i, w) ∷ t) s = ground (arith, remove-NamesValid k t)

find-insert_sorted :
    (k j v : Bytes) (t : Aliases)
    → find k t ≡ none
    → find j (insert_sorted k v t) ≡ (if bytes_eq k j then some v else find j t)
unfolding find insert_sorted
find-insert_sorted k j v [] h = refl
find-insert_sorted k j v ((i, w) ∷ t) h =
    ground (arith, bytes_eq_iff i k, bytes_eq_iff i j, bytes_eq_iff k j, find-insert_sorted k j v t)

-- `set_alias` keeps the list sorted, each name at most once, and its names valid, on every branch.
pub set_alias-IsTable :
    (k v : Bytes) (t : Aliases) (m : Memory) → IsTable t → IsTable (set_alias k v t m).1
unfolding set_alias
set_alias-IsTable k v t m h = ground (
  arith,
  insert_sorted-IsSorted k v t,
  assign-IsSorted k v t,
  insert_sorted-NamesValid k v t,
  assign-NamesValid k v t,
)

-- `csh_aliases_unset` keeps a well-formed table well formed.
pub unset_alias-IsTable : (k : Bytes) (t : Aliases) → IsTable t → IsTable (unset_alias k t).1
unfolding unset_alias
unset_alias-IsTable k t h = ground (arith, remove-IsSorted k t, remove-NamesValid k t)

-- What a lookup finds after `set_alias`: the new value under the name if the call succeeded, and
-- the old table's answer under every other name, and under every name if the call failed.
pub get-set_alias :
    (k j v : Bytes) (t : Aliases) (m : Memory)
    → get (set_alias k v t m).1 j ≡ (elim (set_alias k v t m).0 [
      | ok ↦ if bytes_eq k j then some v else get t j
      | err e ↦ get t j
    ])
unfolding set_alias get
get-set_alias k j v t m =
    ground (arith, bytes_eq_iff k j, find-insert_sorted k j v t, find-assign k j v t)
