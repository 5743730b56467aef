-- ===== src/Jobs/Current.antt =====
-- Which job an operand names: `promote_job`, `current_job`, `marker`, `number` and `find_job`.
pub mod Ranked
use cshell.Prelude.{
  ℕ, zero, suc, ◌+◌, ◌-◌, ◌*◌, Bool, true, false, not, ◌&&◌, ◌||◌, Option, none, some, List, [],
  ◌∷◌, leb, ◌==◌, within, if◌then◌else◌,
}
use cshell.Prelude.Bytes.{Bytes, bytes_eq, codes}
use cshell.Prelude.Int.{ℤ, pos, negsuc, neg_ℤ, leb_ℤ, eq_ℤ}
use cshell.Arith.{long_max, long_min}
use cshell.Jobs.{Process, Job, Jobs, complete, job_stopped, unlink, lookup}

-- `promote_job`.
unfoldable pub promote : ℕ → Jobs → Jobs
promote i jobs = elim (lookup i jobs.head) [
  | none ↦ jobs
  | some j ↦ record jobs { head = j ∷ unlink i jobs.head }
]

unfoldable pub same_flag : Bool → Bool → Bool
same_flag true b = b
same_flag false b = not b

-- Not passed over by the scan of this class.
unfoldable pub eligible : Bool → Job → Bool
eligible want_stopped j = j.background && not (complete j) && same_flag (job_stopped j) want_stopped

-- The scan of one class: the job where `previous` reaches 0, or what is left of it.
unfoldable pub scan_class : Bool → ℕ → List Job → Option Job × ℕ
scan_class want_stopped previous [] = (none, previous)
scan_class want_stopped previous (j ∷ js) = elim (eligible want_stopped j) [
  | false ↦ scan_class want_stopped previous js
  | true ↦ elim previous [ zero ↦ (some j, 0) | suc k ↦ scan_class want_stopped k js ]
]

-- `current_job`: the stopped jobs first.
unfoldable pub current_job : ℕ → Jobs → Option Job
current_job previous jobs =
    let (found, left) = scan_class true previous jobs.head in
    elim found [ some j ↦ some j | none ↦ (scan_class false left jobs.head).0 ]

unfoldable pub is_job : ℕ → Option Job → Bool
is_job i none = false
is_job i (some j) = j.id == i

-- `marker`.
unfoldable pub marker : ℕ → Jobs → ℕ
marker i jobs =
    if is_job i (current_job 0 jobs)
    then b'+'
    else if is_job i (current_job 1 jobs)
    then b'-'
    else b' '

-- The number that digits spell behind `n`, if there is nothing else.
unfoldable pub digits_value : ℕ → Bytes → Option ℕ
digits_value n [] = some n
digits_value n (c ∷ cs) = if within b'0' b'9' c then digits_value (n * 10 + (c - b'0')) cs else none

unfoldable pub in_long : ℤ → Option ℤ
in_long z = if leb_ℤ long_min z && leb_ℤ z (pos long_max) then some z else none

-- `number`: a sign, then digits to the end; `strtol` refuses what no `long` holds.
unfoldable pub signed_digits : Bool → Bytes → Option ℤ
signed_digits negative [] = none
signed_digits negative (c ∷ cs) = elim (digits_value 0 (c ∷ cs)) [
  | none ↦ none
  | some n ↦ in_long (if negative then neg_ℤ (pos n) else pos n)
]

unfoldable pub number : Bytes → Option ℤ
number [] = none
number (c ∷ cs) =
    if c == b'-'
    then signed_digits true cs
    else if c == b'+'
    then signed_digits false cs
    else signed_digits false (c ∷ cs)

-- `number` and `value > 0`.
unfoldable pub positive : Bytes → Option ℕ
positive text = elim (number text) [ some (pos (suc n)) ↦ some (suc n) | _ ↦ none ]

-- `strncmp(text, prefix, strlen(prefix)) == 0` and `strstr(text, part) != NULL`.
unfoldable pub is_prefix : Bytes → Bytes → Bool
is_prefix [] text = true
is_prefix (c ∷ cs) [] = false
is_prefix (c ∷ cs) (d ∷ ds) = c == d && is_prefix cs ds

unfoldable pub contains : Bytes → Bytes → Bool
contains part [] = is_prefix part []
contains part (c ∷ cs) = is_prefix part (c ∷ cs) || contains part cs

-- The pid of the last process.
unfoldable pub last_pid : List Process → ℕ
last_pid [] = 0
last_pid (p ∷ []) = p.pid
last_pid (p ∷ q ∷ ps) = last_pid (q ∷ ps)

unfoldable pub by_pid : ℕ → List Job → Option Job
by_pid n [] = none
by_pid n (j ∷ js) = if last_pid j.processes == n then some j else by_pid n js

unfoldable pub by_id : Bool → ℕ → List Job → Option Job
by_id pid_ok n [] = none
by_id pid_ok n (j ∷ js) =
    if j.id == n && (pid_ok || not (complete j) || not j.reported)
    then some j
    else by_id pid_ok n js

unfoldable pub matches : Bytes → Job → Bool
matches [] j = true
matches (c ∷ cs) j = if c == b'?' then contains cs j.text else is_prefix (c ∷ cs) j.text

-- The only job that is not complete and matches; a second one makes the operand ambiguous.
unfoldable pub by_text : Bytes → Option Job → List Job → Option Job
by_text operand match [] = match
by_text operand match (j ∷ js) = elim (matches operand j && not (complete j)) [
  | false ↦ by_text operand match js
  | true ↦ elim match [ some k ↦ none | none ↦ by_text operand (some j) js ]
]

unfoldable pub starts_with_digit : Bytes → Bool
starts_with_digit [] = false
starts_with_digit (c ∷ cs) = within b'0' b'9' c

-- Behind the percent sign.
unfoldable pub by_percent : Bool → Bytes → Jobs → Option Job
by_percent pid_ok operand jobs =
    if starts_with_digit operand
    then (elim (positive operand) [ none ↦ none | some n ↦ by_id pid_ok n jobs.head ])
    else by_text operand none jobs.head

unfoldable pub is_current : Bytes → Bool
is_current operand =
    bytes_eq operand (codes "%") || bytes_eq operand (codes "%%") || bytes_eq operand (codes "%+")

unfoldable pub by_operand : Bool → Bytes → Jobs → Option Job
by_operand pid_ok [] jobs = none
by_operand pid_ok (c ∷ cs) jobs =
    if c == b'%'
    then by_percent pid_ok cs jobs
    else if pid_ok
    then (elim (positive (c ∷ cs)) [ none ↦ none | some n ↦ by_pid n jobs.head ])
    else none

-- `find_job`; no operand is NULL.
unfoldable pub find_job : Option Bytes → Bool → Jobs → Option Job
find_job none pid_ok jobs = current_job 0 jobs
find_job (some operand) pid_ok jobs =
    if is_current operand
    then current_job 0 jobs
    else if bytes_eq operand (codes "%-")
    then current_job 1 jobs
    else by_operand pid_ok operand jobs
