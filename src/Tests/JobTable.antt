-- ===== src/Tests/JobTable.antt =====
-- Runs of the job list and its scans, and their theorems at concrete jobs.
use cshell.Prelude.{
  ℕ, ◌+◌, ◌≡◌, refl, Bool, true, false, not, none, some, List, [], ◌∷◌, arith, ◌==◌, if◌then◌else◌,
}
use cshell.Prelude.Bytes.{codes}
use cshell.Prelude.Lists.{get_elem?}
use cshell.Prelude.Memory.{allocate}
use cshell.State.{ShellOption}
use cshell.Jobs.{
  WaitStatus, exited, signaled, stopped_by, Process, Job, Jobs, add, evict, link_new, all_done,
  live, completed, fresh_process, fresh_processes, job_status, job_stopped, stopped_loop,
  ended_status, first_stop, lookup, failing, last_status, last_failure, chosen_status,
  status_number, stop_signal,
}
use cshell.Jobs.Poll.{
  became, Answers, poll, poll_processes, poll_jobs, poll_job, collect, is_stop, became_status,
  differs,
}
use cshell.Jobs.Current.{current_job, scan_class, eligible, same_flag}
use cshell.Jobs.Current.Ranked.{ranked, current_job-ranked}
use cshell.Jobs.Signals.{Host}
use cshell.Jobs.Wait.{change}
use cshell.Jobs.Retention.{IsManaged}
use cshell.Jobs.Adding.{Adds, add-Adds}
use cshell.Jobs.Status.{succeeded, all_succeeded, ended_status-zero, poll_processes-final}
use cshell.Jobs.Steps.{Reach, here, more, added, launched, polled, created, launch, set_pid}
use cshell.Jobs.Steps.Sound.{IsSound, Reach-IsSound, Reach-stopped_status}

-- A process that runs, one that exited with 3, and one that SIGTSTP stopped.
abbrev running : Process
running = record { pid = 11; status = exited 0; done = false; stopped = false }

abbrev failed : Process
failed = record { pid = 12; status = exited 3; done = true; stopped = false }

abbrev suspended : Process
suspended = record { pid = 13; status = stopped_by 20; done = false; stopped = true }

abbrev job : ℕ → Bool → List Process → Job
job i negated ps = record {
  id = i;
  pgid = 11;
  processes = ps;
  text = codes "a | b";
  grouped = true;
  background = true;
  changed = false;
  reported = false;
  negated = negated;
  fails_as_pipe = true;
}

-- A running job, a complete one and a stopped one, the last started in front.
abbrev three_jobs : Jobs
three_jobs = record {
  head = job 3 false (running ∷ []) ∷ job 2 false (failed ∷ []) ∷ job 1 false (suspended ∷ []) ∷ [];
  next_id = 4;
  retained = 3;
  retention_limit = 1;
  has_tty = true;
  is_interactive = true;
}

abbrev no_options : ShellOption → Bool
no_options o = false

three_jobs-IsManaged : IsManaged three_jobs
unfolding lookup
three_jobs-IsManaged = record { unique = ground arith; below = ground arith; counted = refl }

add-Adds_example : Adds true three_jobs (add no_options 2 (codes "c | d") true false three_jobs [])
add-Adds_example =
    add-Adds no_options 2 (codes "c | d") true false three_jobs [] three_jobs-IsManaged
      (omega arith)

-- The complete job makes room for the new one.
add_evicts :
    add no_options 1 (codes "c") true false three_jobs []
    ≡ some (
      some 4,
      record three_jobs {
        head =
            record {
              id = 4;
              pgid = 0;
              processes = fresh_process ∷ [];
              text = codes "c";
              grouped = false;
              background = true;
              changed = false;
              reported = false;
              negated = false;
              fails_as_pipe = false;
            }
            ∷ job 3 false (running ∷ [])
            ∷ job 1 false (suspended ∷ [])
            ∷ [];
        next_id = 5;
        retained = 3;
      },
      [],
    )
unfolding add evict link_new allocate all_done live completed fresh_processes cshell.Jobs.oldest
    cshell.Jobs.remove cshell.Jobs.unlink lookup
add_evicts = refl

-- The stopped job is the current one, the running one the previous.
current_job_stopped :
    (current_job 0 three_jobs ≡ some (job 1 false (suspended ∷ [])))
    × (current_job 1 three_jobs ≡ some (job 3 false (running ∷ [])))
    × (current_job 2 three_jobs ≡ none)
unfolding current_job scan_class eligible same_flag all_done live stopped_loop
current_job_stopped = (refl, refl, refl)

current_job-ranked_example : current_job 1 three_jobs ≡ get_elem? (ranked three_jobs) 1
current_job-ranked_example = current_job-ranked 1 three_jobs

ended_status-zero_example : (ended_status (job 2 true (failed ∷ running ∷ [])) == 0) ≡ (
    let good =
      (if (job 2 true (failed ∷ running ∷ [])).fails_as_pipe
        then all_succeeded (failed ∷ running ∷ [])
        else succeeded running.status) in
    if (job 2 true (failed ∷ running ∷ [])).negated then not good else good)
ended_status-zero_example =
    ended_status-zero (job 2 true (failed ∷ running ∷ [])) (failed ∷ []) running refl

-- Each process reports a stop by SIGTSTP.
abbrev stops : Answers
stops = record { events = λ p. became (stopped_by 20) ∷ []; fails = λ p. false }

poll_processes-final_example :
    get_elem? (poll_processes stops (running ∷ failed ∷ [])).1 1 ≡ some failed
poll_processes-final_example = poll_processes-final stops (running ∷ failed ∷ []) 1 failed refl refl

abbrev some_host : Host
some_host = record {
  sig = λ n. 20;
  defines = λ n. true;
  supports = λ n. true;
  strsignal = λ n. codes "Stopped";
}

-- A job is added to a new list, its process starts, and stops.
abbrev new_job : Job
new_job = record {
  id = 1;
  pgid = 0;
  processes = fresh_process ∷ [];
  text = codes "vi";
  grouped = false;
  background = false;
  changed = false;
  reported = false;
  negated = true;
  fails_as_pipe = false;
}

abbrev with_new_job : Jobs
with_new_job = record (created 0 true true) { head = new_job ∷ []; next_id = 2; retained = 1 }

abbrev started : Jobs
started = record with_new_job { head = change 1 (launch 0 100) with_new_job.head }

new_job_added :
    add no_options 1 (codes "vi") false true (created 0 true true) []
    ≡ some (some 1, with_new_job, [])
unfolding add link_new allocate fresh_processes
new_job_added = refl

run : Reach some_host no_options (created 0 true true) (poll stops started).1
run =
    more _ started _
      (more _ with_new_job _
        (more _ (created 0 true true) _ (here (created 0 true true)) (
          added 1 (codes "vi") false true (created 0 true true) with_new_job [] [] (some 1)
            new_job_added))
        (launched 1 0 100 with_new_job))
      (polled stops started)

Reach-IsSound_example : IsSound (poll stops started).1
Reach-IsSound_example = Reach-IsSound some_host no_options 0 true true (poll stops started).1 run

abbrev stopped_job : Job
stopped_job = record new_job {
  pgid = 100;
  processes = record { pid = 100; status = stopped_by 20; done = false; stopped = true } ∷ [];
  changed = true;
}

stopped_job_found : lookup 1 (poll stops started).1.head ≡ some stopped_job
unfolding poll poll_jobs poll_job poll_processes collect is_stop became_status differs live all_done
    stopped_loop lookup change launch set_pid
stopped_job_found = refl

stopped_job_stopped : job_stopped stopped_job ≡ true
unfolding stopped_loop live
stopped_job_stopped = refl

Reach-stopped_status_example :
    (n : ℕ) × (job_status stopped_job ≡ 128 + n)
    × (first_stop stopped_job.processes ≡ some (stopped_by n))
Reach-stopped_status_example =
    Reach-stopped_status some_host no_options 0 true true (poll stops started).1 1 stopped_job run
      stopped_job_found stopped_job_stopped
