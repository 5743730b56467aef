-- ===== src/Jobs/Poll.antt =====
-- `csh_jobs_poll`. What `waitpid` reports of a process, until it has no more, is an argument.
use cshell.Prelude.{ℕ, Bool, true, false, not, ◌&&◌, ◌||◌, List, [], ◌∷◌, if◌then◌else◌}
use cshell.Jobs.{WaitStatus, stopped_by, Process, Job, Jobs, live, complete, job_stopped}

-- WIFCONTINUED, or another status.
pub data Event : Type 0 where
  continued : Event
  became : WaitStatus → Event

-- The reports on each pid, in order, and whether the call then fails with another error than EINTR.
pub record Answers : Type 0 where
  pub events : ℕ → List Event
  pub fails : ℕ → Bool

unfoldable pub is_stop : WaitStatus → Bool
is_stop (stopped_by n) = true
is_stop _ = false

-- One report other than a continuation.
unfoldable pub became_status : WaitStatus → Process → Process
became_status s p = record p { status = s; stopped = is_stop s; done = not (is_stop s) }

-- The reports on one process; none is read behind its end.
unfoldable pub collect : List Event → Process → Process
collect [] p = p
collect (continued ∷ es) p = collect es (record p { stopped = false })
collect (became s ∷ es) p = elim (is_stop s) [
  | false ↦ became_status s p
  | true ↦ collect es (became_status s p)
]

-- The loop over the processes of a job: false if it returns -1.
unfoldable pub poll_processes : Answers → List Process → Bool × List Process
poll_processes a [] = (true, [])
poll_processes a (p ∷ ps) =
    let q = if live p then collect (a.events p.pid) p else p in
    let (went, qs) = poll_processes a ps in
    if live p && a.fails p.pid && not q.done then (false, q ∷ ps) else (went, q ∷ qs)

-- A job behind that loop.
unfoldable pub differs : Bool → Bool → Bool
differs true b = not b
differs false b = b

unfoldable pub poll_job : Answers → Job → Bool × Job
poll_job a j =
    let (went, ps) = poll_processes a j.processes in
    let j' = record j { processes = ps } in
    let moved = differs (complete j) (complete j') || differs (job_stopped j) (job_stopped j') in
    if went then (true, record j' { changed = if moved then true else j.changed }) else (false, j')

unfoldable pub poll_jobs : Answers → List Job → Bool × List Job
poll_jobs a [] = (true, [])
poll_jobs a (j ∷ js) =
    let (went, j') = poll_job a j in
    let (rest_went, js') = poll_jobs a js in
    if went then (rest_went, j' ∷ js') else (false, j' ∷ js)

-- `csh_jobs_poll`: false for -1.
unfoldable pub poll : Answers → Jobs → Bool × Jobs
poll a jobs = let (went, js) = poll_jobs a jobs.head in (went, record jobs { head = js })
