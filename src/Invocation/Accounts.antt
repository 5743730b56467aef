-- ===== src/Invocation/Accounts.antt =====
-- The option loop never leaves `argv`.
use cshell.Prelude.{
  ℕ, zero, suc, ◌+◌, ◌<◌, ◌≤◌, Bool, false, ◌&&◌, ◌||◌, Option, none, some, List, [], ◌∷◌, ◌≡◌,
  refl, arith, Bool-cases, Option-cases, inl, inr,
}
use cshell.Prelude.Bytes.{Bytes, bytes_eq, codes}
use cshell.Prelude.Lists.{length}
use cshell.Invocation.{
  Settings, no_settings, Parsed, fault, parsed, option_name, by_name, named, one_letter, letters,
  option_word, check_word, options_loop, options,
}

-- At a word of `n` arguments in all: an error names one of them, and if there is none the index and
-- the arguments behind it still add up.
abbrev WordFits : ℕ → ℕ → Parsed → Type 0
WordFits n m (fault t k) = k < n
WordFits n m (parsed c rest k) = (suc k + length rest ≡ n) × (length rest ≤ m)

by_name-WordFits :
    (n : ℕ) (enable : Bool) (name : Bytes) (c : Settings) (rest : List Bytes) (i : ℕ)
    → suc i + length rest ≡ n
    → WordFits n (length rest) (by_name enable name c rest i)
unfolding by_name
by_name-WordFits n enable name c rest i h = elim (Option-cases (option_name name)) [
  | inl e ↦ ground (arith, e, h)
  | inr (o, e) ↦ ground (arith, e, h)
]

WordFits-le : (n m k : ℕ) (r : Parsed) → m ≤ k → WordFits n m r → WordFits n k r
WordFits-le n m k (fault t j) le h = h
WordFits-le n m k (parsed c rest j) le h = (h.0, omega (arith, h, le))

named-WordFits :
    (n : ℕ) (enable : Bool) (word : Bytes) (c : Settings) (rest : List Bytes) (i : ℕ)
    → suc i + length rest ≡ n
    → WordFits n (length rest) (named enable word c rest i)
unfolding named
named-WordFits n enable [] c [] i h = omega (arith, h)
named-WordFits n enable [] c (a ∷ rest) i h =
    WordFits-le n (length rest) (suc (length rest)) (by_name enable a c rest (suc i)) (omega arith)
      (by_name-WordFits n enable a c rest (suc i) (omega (arith, h)))
named-WordFits n enable (x ∷ xs) c rest i h = by_name-WordFits n enable (x ∷ xs) c rest i h

letters-WordFits :
    (n : ℕ) (enable : Bool) (word : Bytes) (c : Settings) (rest : List Bytes) (i : ℕ)
    → suc i + length rest ≡ n
    → WordFits n (length rest) (letters enable word c rest i)
unfolding letters
letters-WordFits n enable [] c rest i h = omega (arith, h)
letters-WordFits n enable (x ∷ xs) c rest i h = elim (Option-cases (one_letter enable x c)) [
  | inl e ↦ ground (arith, e, h, named-WordFits n enable xs c rest i h)
  | inr (d, e) ↦
      ground (
        arith,
        e,
        h,
        named-WordFits n enable xs c rest i h,
        letters-WordFits n enable xs d rest i h,
      )
]

-- The loop answers. An error names one of the `n` arguments; if there is none, the operand's index
-- and the operands add up to `n`, and `-c` and `-s` are not both set.
abbrev pub Accounts : ℕ → Option Parsed → Type 0
Accounts n none = ⊥
Accounts n (some (fault t k)) = k < n
Accounts n (some (parsed c rest k)) =
    (k + length rest ≡ n) × ((c.command_string && c.standard_input) ≡ false)

-- What the loop makes of a word.
abbrev after_word : Parsed → (Settings → List Bytes → ℕ → Option Parsed) → Option Parsed
after_word r loop = elim r [ fault m k ↦ some (fault m k) | parsed c rest k ↦ loop c rest (suc k) ]

after_word-Accounts :
    (n m : ℕ) (r : Parsed) (loop : Settings → List Bytes → ℕ → Option Parsed)
    → WordFits n m r
    → ((c : Settings) (rest : List Bytes) (k : ℕ)
        → k + length rest ≡ n
        → length rest ≤ m
        → (c.command_string && c.standard_input) ≡ false
        → Accounts n (loop c rest k))
    → Accounts n (after_word (check_word r) loop)
unfolding check_word
after_word-Accounts n m (fault t k) loop h g = h
after_word-Accounts n m (parsed c rest k) loop h g =
    elim (Bool-cases (c.command_string && c.standard_input)) [
      | inl e ↦ rw (e, Accounts) (omega (arith, h))
      | inr e ↦ rw (e, Accounts) (g c rest (suc k) h.0 h.1 e)
    ]

options_loop-Accounts :
    (n f : ℕ) (c : Settings) (args : List Bytes) (i : ℕ)
    → length args < f
    → i + length args ≡ n
    → (c.command_string && c.standard_input) ≡ false
    → Accounts n (options_loop f c args i)
unfolding options_loop
options_loop-Accounts n zero c args i h e b = absurd (omega (arith, h))
options_loop-Accounts n (suc f) c [] i h e b = (e, b)
options_loop-Accounts n (suc f) c (a ∷ rest) i h e b =
    elim (Bool-cases (bytes_eq a (codes "--") || bytes_eq a (codes "-"))) [
      | inl d ↦ rw (d, Accounts) (omega (arith, e), b)
      | inr d ↦ elim (Option-cases (option_word a)) [
        | inl w ↦ rw (d, w, Accounts) (e, b)
        | inr ((enable, word), w) ↦
            rw (d, w, Accounts)
              (after_word-Accounts n (length rest) (letters enable word c rest i)
                (λ c' rest' k. options_loop f c' rest' k)
                (letters-WordFits n enable word c rest i (omega (arith, e)))
                λ c' rest' k e' le b'.
                  options_loop-Accounts n f c' rest' k (omega (arith, le, h)) e' b')
      ]
    ]

-- The option loop of `csh_invocation_parse` ends on every `argv`. An error names one of its
-- entries; without one, the operand's index and the operands behind it add up to `argc`, so that the
-- loop has not run past the end, and `-c` and `-s` are not both set.
pub options-Accounts : (args : List Bytes) → Accounts (suc (length args)) (options args)
unfolding options
options-Accounts args =
    options_loop-Accounts (suc (length args)) (suc (length args)) no_settings args 1 (omega arith)
      (omega arith) refl
