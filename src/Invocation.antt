-- ===== src/Invocation.antt =====
-- The command line: the options and operands of src/invocation.c, with the option table of
-- include/cshell/options.h. Opening the input that is selected is not modelled.
pub mod Accounts
use cshell.Prelude.{
  ℕ, zero, suc, ◌+◌, Bool, true, false, not, ◌&&◌, ◌||◌, Option, none, some, List, [], ◌∷◌, ◌==◌,
  if◌then◌else◌,
}
use cshell.Prelude.Bytes.{Bytes, bytes_eq, codes}
use cshell.Prelude.Lists.{length}
use cshell.State.{
  ShellOption, InputMode, mode_stdin, mode_string, mode_file, interactive, allexport, errexit,
  noglob, noexec, nounset, verbose, xtrace, noclobber, pipefail, monitor, notify, hashall,
  ignoreeof, nolog,
}

-- CSH_OPTION_LIST; a letter that is 0 is none.
unfoldable pub option_list : List (ShellOption × Bytes × ℕ)
option_list =
    (allexport, codes "allexport", b'a')
    ∷ (notify, codes "notify", b'b')
    ∷ (noclobber, codes "noclobber", b'C')
    ∷ (errexit, codes "errexit", b'e')
    ∷ (noglob, codes "noglob", b'f')
    ∷ (hashall, codes "hashall", b'h')
    ∷ (monitor, codes "monitor", b'm')
    ∷ (noexec, codes "noexec", b'n')
    ∷ (nounset, codes "nounset", b'u')
    ∷ (verbose, codes "verbose", b'v')
    ∷ (xtrace, codes "xtrace", b'x')
    ∷ (pipefail, codes "pipefail", 0)
    ∷ (ignoreeof, codes "ignoreeof", 0)
    ∷ (nolog, codes "nolog", 0)
    ∷ []

unfoldable pub letter_in : ℕ → List (ShellOption × Bytes × ℕ) → Option ShellOption
letter_in c [] = none
letter_in c ((o, name, letter) ∷ rest) =
    if not (letter == 0) && c == letter then some o else letter_in c rest

unfoldable pub name_in : Bytes → List (ShellOption × Bytes × ℕ) → Option ShellOption
name_in n [] = none
name_in n ((o, name, letter) ∷ rest) = if bytes_eq n name then some o else name_in n rest

-- `csh_option_letter` and `csh_option_name`; `none` is 0.
unfoldable pub option_letter : ℕ → Option ShellOption
option_letter c = letter_in c option_list

unfoldable pub option_name : Bytes → Option ShellOption
option_name n = name_in n option_list

-- The settings that the option loop gathers.
pub record Settings : Type 0 where
  pub option_mask : List ShellOption
  pub enabled : List ShellOption
  pub command_string : Bool
  pub standard_input : Bool
  pub force_interactive : Bool

abbrev pub no_settings : Settings
no_settings = record {
  option_mask = [];
  enabled = [];
  command_string = false;
  standard_input = false;
  force_interactive = false;
}

unfoldable pub position : ShellOption → ℕ
position interactive = 0
position allexport = 1
position errexit = 2
position noglob = 3
position noexec = 4
position nounset = 5
position verbose = 6
position xtrace = 7
position noclobber = 8
position pipefail = 9
position monitor = 10
position notify = 11
position hashall = 12
position ignoreeof = 13
position nolog = 14

unfoldable pub same_option : ShellOption → ShellOption → Bool
same_option a b = position a == position b

-- A set of bits is a list; `&= ~bit` takes every copy out.
unfoldable pub without : ShellOption → List ShellOption → List ShellOption
without o [] = []
without o (p ∷ ps) = let rest = without o ps in if same_option o p then rest else p ∷ rest

unfoldable pub choose : Bool → ShellOption → Settings → Settings
choose enable o c = record c {
  option_mask = o ∷ c.option_mask;
  enabled = if enable then o ∷ c.enabled else without o c.enabled;
}

-- What a part of the loop leaves: an error at an argument, or the settings, the arguments behind
-- the present one, and the present one's index.
pub data Parsed : Type 0 where
  fault : Bytes → ℕ → Parsed
  parsed : Settings → List Bytes → ℕ → Parsed

abbrev pub unsupported : ℕ → Parsed
unsupported i = fault (codes "unsupported shell option") i

unfoldable pub by_name : Bool → Bytes → Settings → List Bytes → ℕ → Parsed
by_name enable name c rest i = elim (option_name name) [
  | none ↦ unsupported i
  | some o ↦ parsed (choose enable o c) rest i
]

-- `o`: the name is the rest of the word, or the next argument.
unfoldable pub named : Bool → Bytes → Settings → List Bytes → ℕ → Parsed
named enable [] c [] i = fault (codes "-o requires an option name") i
named enable [] c (a ∷ rest) i = by_name enable a c rest (suc i)
named enable (x ∷ xs) c rest i = by_name enable (x ∷ xs) c rest i

-- The letters that are no shell options.
unfoldable pub invocation_letter : ℕ → Settings → Option Settings
invocation_letter x c =
    if x == b'c'
    then some (record c { command_string = true })
    else if x == b's'
    then some (record c { standard_input = true })
    else if x == b'i'
    then some (record c { force_interactive = true })
    else none

-- What a letter but `o` makes of the settings.
unfoldable pub one_letter : Bool → ℕ → Settings → Option Settings
one_letter enable x c = elim (option_letter x) [
  | some o ↦ some (choose enable o c)
  | none ↦ if enable then invocation_letter x c else none
]

-- The loop over the letters of one word.
unfoldable pub letters : Bool → Bytes → Settings → List Bytes → ℕ → Parsed
letters enable [] c rest i = parsed c rest i
letters enable (x ∷ xs) c rest i =
    if x == b'o' then named enable xs c rest i else elim (one_letter enable x c) [
      | none ↦ unsupported i
      | some c' ↦ letters enable xs c' rest i
    ]

-- A word of options: its sign, and its letters.
unfoldable pub option_word : Bytes → Option (Bool × Bytes)
option_word (s ∷ x ∷ xs) =
    if s == b'-' then some (true, x ∷ xs) else if s == b'+' then some (false, x ∷ xs) else none
option_word _ = none

-- Behind a word: `-c` and `-s` together are refused.
unfoldable pub check_word : Parsed → Parsed
check_word (fault m i) = fault m i
check_word (parsed c rest i) =
    if c.command_string && c.standard_input
    then fault (codes "-c and -s cannot be combined") i
    else parsed c rest i

-- The loop over the words, on fuel.
unfoldable pub options_loop : ℕ → Settings → List Bytes → ℕ → Option Parsed
options_loop zero c args i = none
options_loop (suc f) c [] i = some (parsed c [] i)
options_loop (suc f) c (a ∷ rest) i =
    if bytes_eq a (codes "--") || bytes_eq a (codes "-")
    then some (parsed c rest (suc i))
    else elim (option_word a) [
      | none ↦ some (parsed c (a ∷ rest) i)
      | some (enable, word) ↦ elim (check_word (letters enable word c rest i)) [
        | fault m k ↦ some (fault m k)
        | parsed c' rest' k ↦ options_loop f c' rest' (suc k)
      ]
    ]

-- The options of `argv`, whose first entry is the name of the shell.
unfoldable pub options : List Bytes → Option Parsed
options args = options_loop (suc (length args)) no_settings args 1

-- The source of the commands, `$0`, and the positional parameters.
pub record Selection : Type 0 where
  pub input_mode : InputMode
  pub source : Option Bytes
  pub arg0 : Bytes
  pub arguments : List Bytes

-- `none`: `-c` has no command string.
unfoldable pub select : Bytes → Settings → List Bytes → Option Selection
select argv0 c [] =
    if c.command_string
    then none
    else some (record { input_mode = mode_stdin; source = none; arg0 = argv0; arguments = [] })
select argv0 c (a ∷ rest) =
    if c.command_string
    then some (elim rest [
      | [] ↦ record { input_mode = mode_string; source = some a; arg0 = argv0; arguments = [] }
      | b ∷ more ↦ record { input_mode = mode_string; source = some a; arg0 = b; arguments = more }
    ])
    else if c.standard_input
    then some
        (record { input_mode = mode_stdin; source = none; arg0 = argv0; arguments = a ∷ rest })
    else some (record { input_mode = mode_file; source = some a; arg0 = a; arguments = rest })
