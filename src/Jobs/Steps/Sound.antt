-- ===== src/Jobs/Steps/Sound.antt =====
-- The invariant of the job list, over every run of it.
use cshell.Prelude.{
  ℕ, ◌+◌, ◌<◌, ◌≡◌, refl, subst, Bool, true, false, some, List, arith, if◌then◌else◌, Bool-cases,
  inl, inr,
}
use cshell.Prelude.Stream.{Stream}
use cshell.State.{ShellOption}
use cshell.Jobs.{Job, Jobs, complete, remove, lookup}
use cshell.Jobs.Poll.{Answers, poll, poll_jobs}
use cshell.Jobs.Current.{promote}
use cshell.Jobs.Signals.{Host}
use cshell.Jobs.Report.{notify, notify_loop}
use cshell.Jobs.Wait.{change, settle, put_behind}
use cshell.Jobs.Retention.{IsManaged, remove-IsManaged}
use cshell.Jobs.Status.{AllConsistent}
use cshell.Jobs.Adding.{Adds, add-Adds}
use cshell.Jobs.Steps.Managed.{
  ids, IsManaged-ids, ids-change, ids-poll, ids-notify, promote-IsManaged,
}
use cshell.Jobs.Status.{job_status-stopped}
use cshell.Jobs.{job_stopped, job_status, first_stop, stopped_by, lookup}
use cshell.Jobs.Steps.Fit.{
  lookup-AllConsistent, JobsConsistent, set_pid-AllConsistent, change-JobsConsistent,
  poll-JobsConsistent, notify-JobsConsistent, IsFit, remove-IsFit, promote-IsFit, Adds-IsManaged,
  AddsFit, add-AddsFit,
}
use cshell.Jobs.Steps.{
  added, launched, polled, notified, promoted, settled, removed, here, more, Step, Reach, launch,
  created,
}

-- The list is managed, its processes are consistent, and the limit is at least 1.
pub record IsSound (jobs : Jobs) : Type 0 where
  pub managed : IsManaged jobs
  pub consistent : JobsConsistent jobs.head
  pub limited : 0 < jobs.retention_limit

fit : (jobs : Jobs) → IsSound jobs → IsFit jobs
fit jobs s = record { consistent = s.consistent; limited = s.limited }

sound : (jobs : Jobs) → IsManaged jobs → IsFit jobs → IsSound jobs
sound jobs m f = record { managed = m; consistent = f.consistent; limited = f.limited }

-- Other jobs of the same ids.
relist-IsSound :
    (jobs : Jobs) (ks : List Job)
    → ids ks ≡ ids jobs.head
    → JobsConsistent ks
    → IsSound jobs
    → IsSound (record jobs { head = ks })
relist-IsSound jobs ks e c s = record {
  managed = IsManaged-ids jobs ks e s.managed;
  consistent = c;
  limited = s.limited;
}

launch-AllConsistent :
    (k pid : ℕ) (j : Job) → AllConsistent j.processes → AllConsistent (launch k pid j).processes
unfolding launch
launch-AllConsistent k pid j c = set_pid-AllConsistent k pid j.processes c

launch-id : (k pid : ℕ) (j : Job) → (launch k pid j).id ≡ j.id
unfolding launch
launch-id k pid j = refl

IsSound-if :
    (b : Bool) (x y : Jobs × Stream) → IsSound x.0 → IsSound y.0 → IsSound (if b then x else y).0
IsSound-if true x y h k = h
IsSound-if false x y h k = k

notify-IsSound :
    (host : Host) (jobs : Jobs) (s : Stream) → IsSound jobs → IsSound (notify host jobs s).0
unfolding notify
notify-IsSound host jobs s i =
    let shown_jobs = notify_loop host jobs jobs.head s in
    IsSound-if jobs.is_interactive (record jobs { head = shown_jobs.0 }, shown_jobs.1) (jobs, s)
      (relist-IsSound jobs shown_jobs.0 (ids-notify host jobs jobs.head s)
        (notify-JobsConsistent host jobs jobs.head s i.consistent) i)
      i

poll-IsSound : (a : Answers) (jobs : Jobs) → IsSound jobs → IsSound (poll a jobs).1
unfolding poll
poll-IsSound a jobs s =
    relist-IsSound jobs (poll_jobs a jobs.head).1 (ids-poll a jobs.head)
      (poll-JobsConsistent a jobs.head s.consistent) s

settle-IsSound : (rc : ℕ) (j : Job) (jobs : Jobs) → IsSound jobs → IsSound (settle rc j jobs).2
unfolding settle
settle-IsSound rc j jobs s = elim (Bool-cases (complete j)) [
  | inl e ↦
      rw (e, settle)
        (sound (remove j.id jobs) (remove-IsManaged j.id jobs s.managed)
          (remove-IsFit j.id jobs (fit jobs s)))
  | inr e ↦
      let behind = change j.id put_behind jobs.head in
      let jobs' : Jobs = record jobs { head = behind } in
      rw (e, settle)
        (sound (promote j.id jobs')
          (promote-IsManaged j.id jobs' (
            IsManaged-ids jobs behind (ids-change put_behind (λ k. refl) j.id jobs.head) s.managed))
          (promote-IsFit j.id jobs' (record {
            consistent = change-JobsConsistent put_behind (λ k c. c) j.id jobs.head s.consistent;
            limited = s.limited;
          })))
]

Step-IsSound :
    (host : Host) (options : ShellOption → Bool) (before after : Jobs)
    → Step host options before after
    → IsSound before
    → IsSound after
Step-IsSound host options _ _ (added count text asynchronous negated before after m m' made h) s =
    sound after
      (Adds-IsManaged asynchronous before after made m' (
        subst (Adds asynchronous before) h
          (add-Adds options count text asynchronous negated before m s.managed s.limited)))
      (subst AddsFit h
        (add-AddsFit options count text asynchronous negated before m (fit before s)))
Step-IsSound host options _ _ (launched i k pid before) s =
    relist-IsSound before (change i (launch k pid) before.head)
      (ids-change (launch k pid) (launch-id k pid) i before.head)
      (change-JobsConsistent (launch k pid) (launch-AllConsistent k pid) i before.head s.consistent)
      s
Step-IsSound host options _ _ (polled a before) s = poll-IsSound a before s
Step-IsSound host options _ _ (notified out before) s = notify-IsSound host before out s
Step-IsSound host options _ _ (promoted i before) s =
    sound (promote i before) (promote-IsManaged i before s.managed)
      (promote-IsFit i before (fit before s))
Step-IsSound host options _ _ (settled rc j before) s = settle-IsSound rc j before s
Step-IsSound host options _ _ (removed i before) s =
    sound (remove i before) (remove-IsManaged i before s.managed)
      (remove-IsFit i before (fit before s))

limit_pos : (limit : ℕ) → 0 < (created limit false false).retention_limit
limit_pos limit = ground arith

-- Every job list that the manager and the executor reach from a new one, has unique ids below the next, a limit of at least 1, counts its jobs, and has consistent processes: whatever is
-- added, started, polled, shown, promoted, settled or removed, and whatever fails on the way.
pub Reach-IsSound :
    (host : Host) (options : ShellOption → Bool) (limit : ℕ) (has_tty is_interactive : Bool)
    (jobs : Jobs)
    → Reach host options (created limit has_tty is_interactive) jobs
    → IsSound jobs
Reach-IsSound host options limit has_tty is_interactive jobs r =
    from_start (created limit has_tty is_interactive) jobs r start
  where
    start : IsSound (created limit has_tty is_interactive)
    start = record {
      managed = record { unique = tt; below = tt; counted = refl };
      consistent = tt;
      limited = limit_pos limit;
    }

    from_start :
        (first later : Jobs) → Reach host options first later → IsSound first → IsSound later
    from_start _ _ (here js) s = s
    from_start _ _ (more first before after way step) s =
        Step-IsSound host options before after step (from_start first before way s)

-- A job that is stopped, in a list that is reached from a new one, has as its status 128 and the
-- signal that stopped one of its processes, whether the pipeline is negated or under pipefail.
pub Reach-stopped_status :
    (host : Host) (options : ShellOption → Bool) (limit : ℕ) (has_tty is_interactive : Bool)
    (jobs : Jobs) (i : ℕ) (j : Job)
    → Reach host options (created limit has_tty is_interactive) jobs
    → lookup i jobs.head ≡ some j
    → job_stopped j ≡ true
    → (n : ℕ) × (job_status j ≡ 128 + n) × (first_stop j.processes ≡ some (stopped_by n))
Reach-stopped_status host options limit has_tty is_interactive jobs i j r found h =
    job_status-stopped j
      (lookup-AllConsistent i jobs.head j
        (Reach-IsSound host options limit has_tty is_interactive jobs r).consistent found)
      h
