-- ===== src/State/Locale.antt =====
-- The process locale follows the locale variables of the active state.
pub mod Fresh
use cshell.Prelude.{Bool, true, false, ◌||◌, Option, none, some, List, [], ◌∷◌, if◌then◌else◌}
use cshell.Prelude.Bytes.{Bytes, bytes_eq, codes}
use cshell.Prelude.Table.{Table, find}
use cshell.State.{
  State, Variable, Libc, Category, ctype, collate, messages, monetary, numeric, time,
}

-- `locale_categories`: the variable of each category.
unfoldable pub category_name : Category → Bytes
category_name ctype = codes "LC_CTYPE"
category_name collate = codes "LC_COLLATE"
category_name messages = codes "LC_MESSAGES"
category_name monetary = codes "LC_MONETARY"
category_name numeric = codes "LC_NUMERIC"
category_name time = codes "LC_TIME"

abbrev pub categories : List Category
categories = ctype ∷ collate ∷ messages ∷ monetary ∷ numeric ∷ time ∷ []

any_category : List Category → Bytes → Bool
any_category [] name = false
any_category (c ∷ cs) name = bytes_eq name (category_name c) || any_category cs name

-- `locale_variable`.
unfoldable pub locale_variable : Bytes → Bool
unfolding any_category category_name
locale_variable name =
    bytes_eq name (codes "LANG") || bytes_eq name (codes "LC_ALL") || any_category categories name

-- `v && v->value && *v->value ? v->value : NULL`.
unfoldable pub non_empty : Option Variable → Option Bytes
non_empty none = none
non_empty (some v) = elim v.value [ none ↦ none | some [] ↦ none | some (c ∷ cs) ↦ some (c ∷ cs) ]

-- `locale_value`.
unfoldable pub locale_value : Table Variable → Bytes → Option Bytes
locale_value vars name = non_empty (find name vars)

unfoldable pub or_else : Option Bytes → Bytes → Bytes
or_else none d = d
or_else (some b) d = b

-- The name that the loop takes for a category.
unfoldable pub selected : Table Variable → Category → Bytes
unfolding or_else category_name
selected vars c = or_else (locale_value vars (codes "LC_ALL")) (
    or_else (locale_value vars (category_name c))
      (or_else (locale_value vars (codes "LANG")) (codes "C")))

-- `setlocale` for one category.
unfoldable pub set_category : Category → Bytes → (Category → Bytes) → Category → Bytes
set_category c name l d = if bytes_eq (category_name c) (category_name d) then name else l d

-- `setlocale(LC_ALL, "C")`.
abbrev pub c_locale : Category → Bytes
c_locale d = codes "C"

module _ (libc : Libc) where
  -- The loop over the categories: one that the library does not take ends it in the C locale.
  unfoldable pub refresh_loop :
      List Category → Table Variable → (Category → Bytes) → Category → Bytes
  unfolding set_category
  refresh_loop [] vars l = l
  refresh_loop (c ∷ cs) vars l =
      let name = selected vars c in
      let rest = refresh_loop cs vars (set_category c name l) in
      if libc.accepts c name then rest else c_locale

  -- `csh_state_refresh_locale`.
  unfoldable pub refresh_locale : State → State
  unfolding refresh_loop
  refresh_locale s =
      if s.manages_locale
      then record s { locale = refresh_loop categories s.variables s.locale }
      else s

  -- `csh_state_manage_locale`.
  unfoldable pub manage_locale : State → State
  manage_locale s = refresh_locale (record s { manages_locale = true })
