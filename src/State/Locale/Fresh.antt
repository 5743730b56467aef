-- ===== src/State/Locale/Fresh.antt =====
-- The locale of the process is the one that the variables of the managing state select.
use cshell.Prelude.{
  Bool, true, false, ◌&&◌, ◌≡◌, refl, sym, ◌∙◌, ap, arith, if◌then◌else◌, Bool-cases, inl, inr,
}
use cshell.Prelude.Bytes.{Bytes, bytes_eq, bytes_eq→eq, codes}
use cshell.Prelude.Table.{Table}
use cshell.State.{
  State, Variable, Libc, Category, ctype, collate, messages, monetary, numeric, time,
}
use cshell.State.Locale.{
  category_name, categories, any_category, locale_variable, locale_value, selected, set_category,
  refresh_loop, refresh_locale,
}

module _ (libc : Libc) where
  -- The library takes the selected name of every category.
  abbrev pub all_accepted : Table Variable → Bool
  all_accepted vars =
      libc.accepts ctype (selected vars ctype)
      && libc.accepts collate (selected vars collate)
      && libc.accepts messages (selected vars messages)
      && libc.accepts monetary (selected vars monetary)
      && libc.accepts numeric (selected vars numeric)
      && libc.accepts time (selected vars time)

  -- The locale that variables stand for: the selected names if the library takes all of them, and
  -- C throughout if not.
  abbrev pub wanted : Table Variable → Category → Bytes
  wanted vars c = if all_accepted vars then selected vars c else codes "C"

  pub refresh_loop-wanted :
      (vars : Table Variable) (l : Category → Bytes) (c : Category)
      → refresh_loop libc categories vars l c ≡ wanted vars c
  unfolding refresh_loop set_category category_name bytes_eq
  refresh_loop-wanted vars l ctype = ground arith
  refresh_loop-wanted vars l collate = ground arith
  refresh_loop-wanted vars l messages = ground arith
  refresh_loop-wanted vars l monetary = ground arith
  refresh_loop-wanted vars l numeric = ground arith
  refresh_loop-wanted vars l time = ground arith

  -- A state that manages the locale has set what its variables stand for.
  pub record IsFresh (s : State) : Type 0 where
    pub fresh : s.manages_locale ≡ true → (c : Category) → s.locale c ≡ wanted s.variables c

  -- `csh_state_refresh_locale` makes the locale fresh, whatever it was.
  pub refresh_locale-IsFresh : (s : State) → IsFresh (refresh_locale libc s)
  unfolding refresh_locale
  refresh_locale-IsFresh s = elim (Bool-cases s.manages_locale) [
    | inl e ↦ rw e (record { fresh = λ _ c. refresh_loop-wanted s.variables s.locale c })
    | inr e ↦ rw e (record { fresh = λ h c. cc })
  ]

  -- Nothing but the eight locale variables counts.
  wanted-same :
      (vars vars' : Table Variable)
      → ((c : Category) → selected vars' c ≡ selected vars c)
      → (c : Category) → wanted vars' c ≡ wanted vars c
  wanted-same vars vars' h c =
      rw (h ctype, h collate, h messages, h monetary, h numeric, h time) (rw (h c))

pub selected-same :
    (vars vars' : Table Variable)
    → ((j : Bytes) → locale_variable j ≡ true → locale_value vars' j ≡ locale_value vars j)
    → (c : Category) → selected vars' c ≡ selected vars c
unfolding selected category_name locale_variable any_category bytes_eq
selected-same vars vars' h ctype =
    rw (h (codes "LC_ALL") refl, h (codes "LC_CTYPE") refl, h (codes "LANG") refl)
selected-same vars vars' h collate =
    rw (h (codes "LC_ALL") refl, h (codes "LC_COLLATE") refl, h (codes "LANG") refl)
selected-same vars vars' h messages =
    rw (h (codes "LC_ALL") refl, h (codes "LC_MESSAGES") refl, h (codes "LANG") refl)
selected-same vars vars' h monetary =
    rw (h (codes "LC_ALL") refl, h (codes "LC_MONETARY") refl, h (codes "LANG") refl)
selected-same vars vars' h numeric =
    rw (h (codes "LC_ALL") refl, h (codes "LC_NUMERIC") refl, h (codes "LANG") refl)
selected-same vars vars' h time =
    rw (h (codes "LC_ALL") refl, h (codes "LC_TIME") refl, h (codes "LANG") refl)

-- A variable of another name is not one of the eight.
pub locale_variable-ne :
    (k j : Bytes) → locale_variable k ≡ false → locale_variable j ≡ true → bytes_eq k j ≡ false
locale_variable-ne k j h l = elim (Bool-cases (bytes_eq k j)) [
  | inl e ↦ absurd (cc (ap locale_variable (bytes_eq→eq k j e)))
  | inr n ↦ n
]

-- With the values of the eight variables, the flag and the locale unchanged, a fresh state stays so.
pub IsFresh-same :
    (libc : Libc) {s t : State}
    → t.manages_locale ≡ s.manages_locale
    → t.locale ≡ s.locale
    → ((j : Bytes)
        → locale_variable j ≡ true
        → locale_value t.variables j ≡ locale_value s.variables j)
    → IsFresh libc s
    → IsFresh libc t
IsFresh-same libc {s} {t} m l h f = record {
  fresh = λ e c.
      ap (λ x. x c) l
      ∙ f.fresh (sym m ∙ e) c
      ∙ sym (wanted-same libc s.variables t.variables (selected-same s.variables t.variables h) c);
}
