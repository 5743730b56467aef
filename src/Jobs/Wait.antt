-- ===== src/Jobs/Wait.antt =====
-- Waiting: `wait_job`, the end of `csh_jobs_foreground`, and the builtin `wait`. Each round of the
-- loop of `wait_job` polls once; a list gives what each round meets, and when it is used up the shell
-- is still asleep.
use cshell.Prelude.{
  ℕ, ◌+◌, Bool, true, false, not, ◌&&◌, ◌||◌, Option, none, some, List, [], ◌∷◌, ◌==◌,
  if◌then◌else◌,
}
use cshell.Prelude.Bytes.{Bytes}
use cshell.Prelude.Stream.{Stream}
use cshell.Jobs.{Job, Jobs, complete, job_stopped, job_status, lookup, remove}
use cshell.Jobs.Poll.{Answers, poll}
use cshell.Jobs.Current.{promote, find_job}
use cshell.Jobs.Signals.{Host}
use cshell.Jobs.Report.{notify}

-- What one round meets: the reports, whether CSH_OPT_NOTIFY is set, and the pending hangup, trap and
-- interrupt (0 for none).
pub record Moment : Type 0 where
  pub answers : Answers
  pub notifies : Bool
  pub hung_up : ℕ
  pub trap : ℕ
  pub interrupted : ℕ

-- How the wait ends: -1, 128 plus a signal, or with the job complete or stopped.
pub data Ending : Type 0 where
  failed : Ending
  settled : Job → Ending
  signalled : ℕ → Ending

unfoldable pub settles : Job → Bool
settles j = complete j || (j.grouped && job_stopped j)

-- The tests of a round behind its poll; none goes to sleep.
unfoldable pub decide : Bool → Moment → Option Job → Option Ending
decide interruptible now found =
    if not (now.hung_up == 0)
    then some (signalled (128 + now.hung_up))
    else if interruptible && not (now.trap == 0)
    then some (signalled (128 + now.trap))
    else if interruptible && not (now.interrupted == 0)
    then some (signalled (128 + now.interrupted))
    else (elim found [ none ↦ none | some j ↦ if settles j then some (settled j) else none ])

-- The jobs, and standard error, to which notifications go.
pub record Desk : Type 0 where
  pub jobs : Jobs
  pub err : Stream

unfoldable pub notice : Host → Moment → Desk → Desk
notice host now d =
    let (jobs, err) = notify host d.jobs d.err in
    if now.notifies then record { jobs = jobs; err = err } else d

-- `wait_job`, on the job with this id: the ending, the jobs, and the rounds that are left.
unfoldable pub wait_job :
    Host → Bool → ℕ → List Moment → Desk → Option (Ending × Desk × List Moment)
wait_job host interruptible i [] d = none
wait_job host interruptible i (now ∷ later) d =
    let (went, jobs) = poll now.answers d.jobs in
    let d' = notice host now (record d { jobs = jobs }) in
    elim went [
      | false ↦ some (failed, record d { jobs = jobs }, later)
      | true ↦ elim (decide interruptible now (lookup i d'.jobs.head)) [
        | some e ↦ some (e, d', later)
        | none ↦ wait_job host interruptible i later d'
      ]
    ]

unfoldable pub change : ℕ → (Job → Job) → List Job → List Job
change i f [] = []
change i f (j ∷ js) = if j.id == i then f j ∷ js else j ∷ change i f js

abbrev pub put_behind : Job → Job
put_behind j = record j { background = true; changed = true }

-- `csh_jobs_foreground` behind a wait that did not fail: the status, whether the job is suspended,
-- and the jobs.
unfoldable pub settle : ℕ → Job → Jobs → ℕ × Bool × Jobs
settle rc j jobs =
    let status = if rc == 0 then job_status j else rc in
    if complete j then (status, false, remove j.id jobs) else (
      status,
      job_stopped j,
      promote j.id (record jobs { head = change j.id put_behind jobs.head }),
    )

-- How the builtin `wait` leaves: with a status, or with -1 of `wait_job`.
pub data Waited : Type 0 where
  status : ℕ → Waited
  cannot_wait : Waited

unfoldable pub forget_complete : Job → Desk → Desk
forget_complete j d = record d { jobs = if complete j then remove j.id d.jobs else d.jobs }

-- `wait` with no operand: each job in turn, until one wait ends with a signal or fails.
unfoldable pub wait_each :
    Host → List Job → List Moment → Desk → Option (Waited × Desk × List Moment)
wait_each host [] moments d = some (status 0, d, moments)
wait_each host (j ∷ js) moments d = elim (wait_job host true j.id moments d) [
  | none ↦ none
  | some (failed, d', later) ↦ some (cannot_wait, d', later)
  | some (signalled n, d', later) ↦ some (status n, d', later)
  | some (settled k, d', later) ↦ wait_each host js later (forget_complete k d')
]

-- `wait` with operands; the status so far is that of the last.
unfoldable pub wait_operands :
    Host → List Bytes → ℕ → List Moment → Desk → Option (Waited × Desk × List Moment)
wait_operands host [] rc moments d = some (status rc, d, moments)
wait_operands host (a ∷ as') rc moments d = elim (find_job (some a) true d.jobs) [
  | none ↦ wait_operands host as' 127 moments d
  | some j ↦ elim (wait_job host true j.id moments d) [
    | none ↦ none
    | some (failed, d', later) ↦ some (cannot_wait, d', later)
    | some (signalled n, d', later) ↦ some (status n, d', later)
    | some (settled k, d', later) ↦
        wait_operands host as' (job_status k) later (forget_complete k d')
  ]
]

-- The builtin `wait` behind its own poll and an operand `--`.
unfoldable pub builtin_wait :
    Host → List Bytes → List Moment → Desk → Option (Waited × Desk × List Moment)
builtin_wait host [] moments d = wait_each host d.jobs.head moments d
builtin_wait host (a ∷ as') moments d = wait_operands host (a ∷ as') 0 moments d
