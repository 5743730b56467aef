-- ===== src/Jobs/Steps.antt =====
-- The runs of a job list: what the manager and the executor do with it, one step after another.
pub mod Managed
pub mod Fit
pub mod Sound
use cshell.Prelude.{ℕ, zero, suc, ◌<◌, ◌≡◌, Bool, Option, some, List, [], ◌∷◌, ◌==◌, if◌then◌else◌}
use cshell.Prelude.Bytes.{Bytes}
use cshell.Prelude.Memory.{Memory}
use cshell.Prelude.Stream.{Stream}
use cshell.State.{ShellOption}
use cshell.Jobs.{Process, Job, Jobs, remove, add}
use cshell.Jobs.Poll.{Answers, poll}
use cshell.Jobs.Current.{promote}
use cshell.Jobs.Signals.{Host}
use cshell.Jobs.Report.{notify}
use cshell.Jobs.Wait.{change, settle}

-- The executor's process with index `k` of a job has started as `pid`.
unfoldable pub set_pid : ℕ → ℕ → List Process → List Process
set_pid k pid [] = []
set_pid zero pid (p ∷ ps) = record p { pid = pid } ∷ ps
set_pid (suc k) pid (p ∷ ps) = p ∷ set_pid k pid ps

unfoldable pub launch : ℕ → ℕ → Job → Job
launch k pid j = record j {
  processes = set_pid k pid j.processes;
  pgid = if j.pgid == 0 then pid else j.pgid;
}

-- `csh_jobs_create` leaves no job, id 1 to come; `limit` is the limit of child processes that the
-- host gives, 0 if it gives none.
abbrev pub created : ℕ → Bool → Bool → Jobs
created limit has_tty is_interactive = record {
  head = [];
  next_id = 1;
  retained = 0;
  retention_limit = if limit == 0 then 256 else limit;
  has_tty = has_tty;
  is_interactive = is_interactive;
}

pub data Step (host : Host) (options : ShellOption → Bool) : Jobs → Jobs → Type 0 where
  added :
      (count : ℕ) (text : Bytes) (asynchronous negated : Bool) (before after : Jobs) (m m' : Memory)
      (made : Option ℕ)
      → add options count text asynchronous negated before m ≡ some (made, after, m')
      → Step host options before after
  launched :
      (i k pid : ℕ) (before : Jobs)
      → Step host options before (record before { head = change i (launch k pid) before.head })
  polled : (a : Answers) (before : Jobs) → Step host options before (poll a before).1
  notified : (s : Stream) (before : Jobs) → Step host options before (notify host before s).0
  promoted : (i : ℕ) (before : Jobs) → Step host options before (promote i before)
  settled : (rc : ℕ) (j : Job) (before : Jobs) → Step host options before (settle rc j before).2
  removed : (i : ℕ) (before : Jobs) → Step host options before (remove i before)

pub data Reach (host : Host) (options : ShellOption → Bool) : Jobs → Jobs → Type 0 where
  here : (jobs : Jobs) → Reach host options jobs jobs
  more :
      (first before after : Jobs)
      → Reach host options first before
      → Step host options before after
      → Reach host options first after
