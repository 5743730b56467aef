-- ===== src/Jobs.antt =====
-- src/jobs.c: the jobs of a shell, as their manager keeps them. A job is known by its id, which
-- stands for the pointer to it; a process that was not started has pid 0. The terminal, the process
-- groups and the dispositions of the manager's own signals are not modelled.
pub mod Poll
pub mod Current
pub mod Signals
pub mod Report
pub mod Wait
pub mod Retention
pub mod Adding
pub mod Status
pub mod Steps
use cshell.Prelude.{
  ℕ, zero, suc, ◌+◌, ◌-◌, ◌^◌, Bool, true, false, not, ◌&&◌, ◌||◌, Option, none, some, List, [],
  ◌∷◌, leb, ltb, ◌==◌, if◌then◌else◌,
}
use cshell.Prelude.Bytes.{Bytes}
use cshell.Prelude.Lists.{length}
use cshell.Prelude.Memory.{Memory, allocate}
use cshell.State.{ShellOption, monitor, pipefail}

-- A status of `waitpid`, as the macros of `sys/wait.h` take it apart.
pub data WaitStatus : Type 0 where
  exited signaled stopped_by : ℕ → WaitStatus

-- `struct csh_job_process`.
pub record Process : Type 0 where
  pub pid : ℕ
  pub status : WaitStatus
  pub done : Bool
  pub stopped : Bool

-- `struct csh_job`, less its terminal modes.
pub record Job : Type 0 where
  pub id : ℕ
  pub pgid : ℕ
  pub processes : List Process
  pub text : Bytes
  pub grouped : Bool
  pub background : Bool
  pub changed : Bool
  pub reported : Bool
  pub negated : Bool
  pub fails_as_pipe : Bool

-- `struct csh_jobs`: `has_tty` is `tty >= 0`.
pub record Jobs : Type 0 where
  pub head : List Job
  pub next_id : ℕ
  pub retained : ℕ
  pub retention_limit : ℕ
  pub has_tty : Bool
  pub is_interactive : Bool

-- A process that has started and not ended.
unfoldable pub live : Process → Bool
live p = not (p.pid == 0) && not p.done

-- `complete`.
unfoldable pub all_done : List Process → Bool
all_done [] = true
all_done (p ∷ ps) = if live p then false else all_done ps

abbrev pub complete : Job → Bool
complete j = all_done j.processes

-- `stopped`: some process is live, and all that are have stopped.
unfoldable pub stopped_loop : Bool → List Process → Bool
stopped_loop any [] = any
stopped_loop any (p ∷ ps) = elim (live p) [
  | false ↦ stopped_loop any ps
  | true ↦ elim p.stopped [ false ↦ false | true ↦ stopped_loop true ps ]
]

abbrev pub job_stopped : Job → Bool
job_stopped j = stopped_loop false j.processes

-- WSTOPSIG, which has a meaning only for a stop.
unfoldable pub stop_signal : WaitStatus → ℕ
stop_signal (stopped_by n) = n
stop_signal _ = 0

-- The first process that is marked as stopped.
unfoldable pub first_stop : List Process → Option WaitStatus
first_stop [] = none
first_stop (p ∷ ps) = if p.stopped then some p.status else first_stop ps

unfoldable pub last_status : List Process → WaitStatus
last_status [] = exited 0
last_status (p ∷ []) = p.status
last_status (p ∷ q ∷ ps) = last_status (q ∷ ps)

unfoldable pub failing : WaitStatus → Bool
failing (exited n) = not (n == 0)
failing _ = true

-- The loop from the last process to the first, for one that failed.
unfoldable pub last_failure : List Process → Option WaitStatus
last_failure [] = none
last_failure (p ∷ ps) = elim (last_failure ps) [
  | some s ↦ some s
  | none ↦ if failing p.status then some p.status else none
]

unfoldable pub status_number : WaitStatus → ℕ
status_number (exited n) = n
status_number (signaled n) = 128 + n
status_number (stopped_by n) = 1

-- The process that decides: the last, or under pipefail the last that failed, if one did.
unfoldable pub chosen_status : Job → WaitStatus
chosen_status j =
    if j.fails_as_pipe
    then (elim (last_failure j.processes) [ some s ↦ s | none ↦ last_status j.processes ])
    else last_status j.processes

-- The status of a pipeline that is not stopped.
unfoldable pub ended_status : Job → ℕ
ended_status j =
    let n = status_number (chosen_status j) in if j.negated then (if n == 0 then 1 else 0) else n

-- `job_status`.
unfoldable pub job_status : Job → ℕ
job_status j =
    if job_stopped j
    then (elim (first_stop j.processes) [ some s ↦ 128 + stop_signal s | none ↦ ended_status j ])
    else ended_status j

-- Unlinks the job with this id.
unfoldable pub unlink : ℕ → List Job → List Job
unlink i [] = []
unlink i (j ∷ js) = if j.id == i then js else j ∷ unlink i js

unfoldable pub lookup : ℕ → List Job → Option Job
lookup i [] = none
lookup i (j ∷ js) = if j.id == i then some j else lookup i js

-- `csh_jobs_remove`.
unfoldable pub remove : ℕ → Jobs → Jobs
remove i jobs = elim (lookup i jobs.head) [
  | none ↦ jobs
  | some j ↦ record jobs { head = unlink i jobs.head; retained = jobs.retained - 1 }
]

-- The scan of the eviction: how many jobs are complete, and the last of them in the list.
unfoldable pub completed : List Job → ℕ
completed [] = 0
completed (j ∷ js) = (if complete j then 1 else 0) + completed js

unfoldable pub oldest : List Job → Option Job
oldest [] = none
oldest (j ∷ js) = elim (oldest js) [ some o ↦ some o | none ↦ if complete j then some j else none ]

-- The eviction loop, on fuel; with no complete job to remove it goes round unchanged.
unfoldable pub evict : ℕ → Jobs → Option Jobs
evict zero jobs = none
evict (suc f) jobs = elim (leb jobs.retention_limit jobs.retained) [
  | false ↦ some jobs
  | true ↦ elim (ltb (completed jobs.head) jobs.retention_limit) [
    | true ↦ some jobs
    | false ↦ elim (oldest jobs.head) [ none ↦ evict f jobs | some o ↦ evict f (remove o.id jobs) ]
  ]
]

-- `csh_jobs_monitor`, given the options of the shell's state.
abbrev pub monitored : Jobs → (ShellOption → Bool) → Bool
monitored jobs options = jobs.has_tty && options monitor

abbrev pub uint_max : ℕ
uint_max = 2 ^ 32 - 1

abbrev pub fresh_process : Process
fresh_process = record { pid = 0; status = exited 0; done = false; stopped = false }

unfoldable pub fresh_processes : ℕ → List Process
fresh_processes zero = []
fresh_processes (suc n) = fresh_process ∷ fresh_processes n

-- Behind the eviction: the record, then its processes and its text, of which neither test stops
-- the other allocation.
unfoldable pub link_new :
    (ShellOption → Bool) → ℕ → Bytes → Bool → Bool → Jobs → Memory → Option ℕ × Jobs × Memory
link_new options count text asynchronous negated jobs m =
    let (made, m1) = allocate m in
    let (with_processes, m2) = allocate m1 in
    let (with_text, m3) = allocate m2 in
    let job : Job = record {
      id = jobs.next_id;
      pgid = 0;
      processes = fresh_processes count;
      text = text;
      grouped = monitored jobs options;
      background = asynchronous;
      changed = false;
      reported = false;
      negated = negated;
      fails_as_pipe = options pipefail;
    } in
    if not made
    then (none, jobs, m1)
    else if with_processes && with_text
    then (
      some jobs.next_id,
      record jobs {
        head = job ∷ jobs.head;
        next_id = suc jobs.next_id;
        retained = suc jobs.retained;
      },
      m3,
    )
    else (none, jobs, m3)

-- `csh_jobs_add`: the id of the new job, or none for NULL. The outer option is the fuel.
unfoldable pub add :
    (ShellOption → Bool)
    → ℕ
    → Bytes
    → Bool
    → Bool
    → Jobs
    → Memory
    → Option (Option ℕ × Jobs × Memory)
add options count text asynchronous negated jobs m =
    let room : Option Jobs =
      if asynchronous then evict (suc (length jobs.head)) jobs else some jobs in
    if count == 0 || jobs.next_id == uint_max then some (none, jobs, m) else (elim room [
      | none ↦ none
      | some jobs' ↦ some (link_new options count text asynchronous negated jobs' m)
    ])
