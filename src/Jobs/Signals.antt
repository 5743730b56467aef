-- ===== src/Jobs/Signals.antt =====
-- The names of signals: `csh_jobs_signal_number` and `csh_jobs_signal_name`.
use cshell.Prelude.{
  ℕ, ◌+◌, ◌-◌, ◌^◌, Bool, true, false, ◌&&◌, Option, none, some, List, [], ◌∷◌, leb, ◌==◌, within,
  if◌then◌else◌,
}
use cshell.Prelude.Bytes.{Bytes, codes}
use cshell.Prelude.Int.{pos, negsuc}
use cshell.Jobs.Current.{number}

-- What `signal.h` gives: the value of each SIG constant by its name, those that may be missing,
-- whether `sigaddset` takes a number, and the text of `strsignal`.
pub record Host : Type 0 where
  pub sig : Bytes → ℕ
  pub defines : Bytes → Bool
  pub supports : ℕ → Bool
  pub strsignal : ℕ → Bytes

unfoldable pub common_names : List Bytes
common_names =
    codes "HUP"
    ∷ codes "INT"
    ∷ codes "QUIT"
    ∷ codes "ILL"
    ∷ codes "ABRT"
    ∷ codes "FPE"
    ∷ codes "KILL"
    ∷ codes "SEGV"
    ∷ codes "SYS"
    ∷ codes "PIPE"
    ∷ codes "ALRM"
    ∷ codes "TERM"
    ∷ codes "USR1"
    ∷ codes "USR2"
    ∷ codes "CHLD"
    ∷ codes "CONT"
    ∷ codes "STOP"
    ∷ codes "TSTP"
    ∷ codes "TTIN"
    ∷ codes "TTOU"
    ∷ codes "BUS"
    ∷ codes "TRAP"
    ∷ codes "URG"
    ∷ codes "XCPU"
    ∷ codes "XFSZ"
    ∷ codes "VTALRM"
    ∷ codes "PROF"
    ∷ []

unfoldable pub with_optional : Host → List Bytes → List Bytes
with_optional host [] =
    let poll = if host.defines (codes "POLL") then codes "POLL" ∷ [] else [] in
    if host.defines (codes "WINCH") then codes "WINCH" ∷ poll else poll
with_optional host (n ∷ ns) = n ∷ with_optional host ns

-- `signal_names`, less the values, which are the host's.
unfoldable pub signal_names : Host → List Bytes
signal_names host = with_optional host common_names

unfoldable pub to_lower : ℕ → ℕ
to_lower c = if within b'A' b'Z' c then c + 32 else c

-- `strcasecmp(a, b) == 0`.
unfoldable pub same_letters : Bytes → Bytes → Bool
same_letters [] [] = true
same_letters (x ∷ xs) (y ∷ ys) = to_lower x == to_lower y && same_letters xs ys
same_letters _ _ = false

unfoldable pub search_name : Host → Bytes → List Bytes → Option ℕ
search_name host text [] = none
search_name host text (n ∷ ns) =
    if same_letters text n then some (host.sig n) else search_name host text ns

abbrev pub int_max : ℕ
int_max = 2 ^ 31 - 1

-- `csh_jobs_signal_number`; none is -1.
unfoldable pub signal_number : Host → Bytes → Option ℕ
signal_number host text = elim (number text) [
  | none ↦ search_name host text (signal_names host)
  | some (negsuc n) ↦ none
  | some (pos n) ↦
      if n == 0 then some 0 else if leb n int_max && host.supports n then some n else none
]

unfoldable pub search_value : Host → ℕ → List Bytes → Option Bytes
search_value host v [] = none
search_value host v (n ∷ ns) = if host.sig n == v then some n else search_value host v ns

-- `csh_jobs_signal_name`.
unfoldable pub signal_name : Host → ℕ → Option Bytes
signal_name host v = search_value host v (signal_names host)
