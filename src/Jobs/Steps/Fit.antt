-- ===== src/Jobs/Steps/Fit.antt =====
-- What the steps keep of the processes, and the limit.
use cshell.Prelude.{
  ℕ, zero, suc, ◌<◌, ◌≡◌, refl, subst, Bool, true, false, ◌&&◌, ◌||◌, Option, leb, ltb, none, some,
  List, [], ◌∷◌, arith, ◌==◌, if◌then◌else◌, Bool-cases, Option-cases, inl, inr,
}
use cshell.Prelude.Lists.{length}
use cshell.Prelude.Bytes.{Bytes}
use cshell.Prelude.Memory.{Memory, allocate}
use cshell.Prelude.Stream.{Stream}
use cshell.State.{ShellOption}
use cshell.Jobs.{
  Process, Job, Jobs, uint_max, completed, oldest, evict, link_new, remove, add, unlink, lookup,
  fresh_processes,
}
use cshell.Jobs.Poll.{Answers, poll_jobs, poll_job, poll_processes}
use cshell.Jobs.Current.{promote}
use cshell.Jobs.Signals.{Host}
use cshell.Jobs.Report.{print_job, short, notify_loop, shown}
use cshell.Jobs.Wait.{change}
use cshell.Jobs.Retention.{IsManaged}
use cshell.Jobs.Status.{AllConsistent, poll_processes-AllConsistent}
use cshell.Jobs.Adding.{Adds}
use cshell.Jobs.Steps.{set_pid}

-- Every job's processes are consistent.
abbrev pub JobsConsistent : List Job → Type 0
JobsConsistent [] = Unit
JobsConsistent (j ∷ js) = AllConsistent j.processes × JobsConsistent js

JobsConsistent-if :
    (b : Bool) (js ks : List Job)
    → JobsConsistent js
    → JobsConsistent ks
    → JobsConsistent (if b then js else ks)
JobsConsistent-if true js ks h k = h
JobsConsistent-if false js ks h k = k

unlink-JobsConsistent : (i : ℕ) (js : List Job) → JobsConsistent js → JobsConsistent (unlink i js)
unfolding unlink
unlink-JobsConsistent i [] c = c
unlink-JobsConsistent i (j ∷ js) c =
    JobsConsistent-if (j.id == i) js (j ∷ unlink i js) c.1 (c.0, unlink-JobsConsistent i js c.1)

pub lookup-AllConsistent :
    (i : ℕ) (js : List Job) (j : Job)
    → JobsConsistent js
    → lookup i js ≡ some j
    → AllConsistent j.processes
unfolding lookup
lookup-AllConsistent i [] j c h = cc
lookup-AllConsistent i (k ∷ js) j c h = elim (Bool-cases (k.id == i)) [
  | inl e ↦
      let same : k ≡ j = ground (arith, h, e) in subst (λ x. AllConsistent x.processes) same c.0
  | inr e ↦ lookup-AllConsistent i js j c.1 (ground (arith, h, e))
]

module _ (f : Job → Job)
    (kept : (j : Job) → AllConsistent j.processes → AllConsistent (f j).processes) where
  pub change-JobsConsistent :
      (i : ℕ) (js : List Job) → JobsConsistent js → JobsConsistent (change i f js)
  unfolding change
  change-JobsConsistent i [] c = c
  change-JobsConsistent i (j ∷ js) c =
      JobsConsistent-if (j.id == i) (f j ∷ js) (j ∷ change i f js) (kept j c.0, c.1)
        (c.0, change-JobsConsistent i js c.1)

pub set_pid-AllConsistent :
    (k pid : ℕ) (ps : List Process) → AllConsistent ps → AllConsistent (set_pid k pid ps)
unfolding set_pid
set_pid-AllConsistent k pid [] c = c
set_pid-AllConsistent zero pid (p ∷ ps) c = c
set_pid-AllConsistent (suc k) pid (p ∷ ps) c = (c.0, set_pid-AllConsistent k pid ps c.1)

fresh-AllConsistent : (n : ℕ) → AllConsistent (fresh_processes n)
unfolding fresh_processes
fresh-AllConsistent zero = tt
fresh-AllConsistent (suc n) = (inl refl, fresh-AllConsistent n)

poll_job-AllConsistent :
    (a : Answers) (j : Job) → AllConsistent j.processes → AllConsistent (poll_job a j).1.processes
unfolding poll_job
poll_job-AllConsistent a j c = elim (Bool-cases (poll_processes a j.processes).0) [
  | inl e ↦ rw e (poll_processes-AllConsistent a j.processes c)
  | inr e ↦ rw e (poll_processes-AllConsistent a j.processes c)
]

pub poll-JobsConsistent :
    (a : Answers) (js : List Job) → JobsConsistent js → JobsConsistent (poll_jobs a js).1
unfolding poll_jobs
poll-JobsConsistent a [] c = c
poll-JobsConsistent a (j ∷ js) c = elim (Bool-cases (poll_job a j).0) [
  | inl e ↦ rw e (poll_job-AllConsistent a j c.0, poll-JobsConsistent a js c.1)
  | inr e ↦ rw e (poll_job-AllConsistent a j c.0, c.1)
]

AllConsistent-if :
    (b : Bool) (j k : Job)
    → AllConsistent j.processes
    → AllConsistent k.processes
    → AllConsistent (if b then j else k).processes
AllConsistent-if true j k h e = h
AllConsistent-if false j k h e = e

pub notify-JobsConsistent :
    (host : Host) (jobs : Jobs) (js : List Job) (s : Stream)
    → JobsConsistent js
    → JobsConsistent (notify_loop host jobs js s).0
unfolding notify_loop shown
notify-JobsConsistent host jobs [] s c = c
notify-JobsConsistent host jobs (j ∷ js) s c =
    let (went, printed) = print_job host jobs j short s in
    let due = j.background && j.changed in
    (
      AllConsistent-if (due && went) (shown j) j c.0 c.0,
      notify-JobsConsistent host jobs js (if due then printed else s) c.1,
    )

-- What the steps keep beside the ids.
pub record IsFit (jobs : Jobs) : Type 0 where
  pub consistent : JobsConsistent jobs.head
  pub limited : 0 < jobs.retention_limit

pub remove-IsFit : (i : ℕ) (jobs : Jobs) → IsFit jobs → IsFit (remove i jobs)
unfolding remove
remove-IsFit i jobs f = elim (Option-cases (lookup i jobs.head)) [
  | inl e ↦ rw (e, remove) f
  | inr (j, e) ↦
      rw (e, remove)
        (record {
          consistent = unlink-JobsConsistent i jobs.head f.consistent;
          limited = f.limited;
        })
]

pub promote-IsFit : (i : ℕ) (jobs : Jobs) → IsFit jobs → IsFit (promote i jobs)
unfolding promote
promote-IsFit i jobs f = elim (Option-cases (lookup i jobs.head)) [
  | inl e ↦ rw (e, promote) f
  | inr (j, e) ↦
      rw (e, promote)
        (record {
          consistent = (
            lookup-AllConsistent i jobs.head j f.consistent e,
            unlink-JobsConsistent i jobs.head f.consistent,
          );
          limited = f.limited;
        })
]

evict-IsFit : (f : ℕ) (jobs after : Jobs) → IsFit jobs → evict f jobs ≡ some after → IsFit after
unfolding evict
evict-IsFit zero jobs after fit h = cc
evict-IsFit (suc f) jobs after fit h = elim (Bool-cases (leb jobs.retention_limit jobs.retained)) [
  | inr few ↦ let same : jobs ≡ after = ground (arith, h, few) in subst IsFit same fit
  | inl many ↦ elim (Bool-cases (ltb (completed jobs.head) jobs.retention_limit)) [
    | inl free ↦ let same : jobs ≡ after = ground (arith, h, many, free) in subst IsFit same fit
    | inr full ↦ elim (Option-cases (oldest jobs.head)) [
      | inl e ↦ evict-IsFit f jobs after fit (ground (arith, h, many, full, e))
      | inr (o, e) ↦
          evict-IsFit f (remove o.id jobs) after (remove-IsFit o.id jobs fit)
            (ground (arith, h, many, full, e))
    ]
  ]
]

link_new-IsFit :
    (options : ShellOption → Bool) (count : ℕ) (text : Bytes) (asynchronous negated : Bool)
    (jobs : Jobs) (m : Memory)
    → IsFit jobs
    → IsFit (link_new options count text asynchronous negated jobs m).1
unfolding link_new
link_new-IsFit options count text asynchronous negated jobs m f = elim (Bool-cases (allocate m).0) [
  | inr e ↦ rw (e, link_new) f
  | inl e ↦
      elim (Bool-cases ((allocate (allocate m).1).0 && (allocate (allocate (allocate m).1).1).0)) [
        | inr g ↦ rw (e, g, link_new) f
        | inl g ↦
            rw (e, g, link_new)
              (record {
                consistent = (fresh-AllConsistent count, f.consistent);
                limited = f.limited;
              })
      ]
]

abbrev pub AddsFit : Option (Option ℕ × Jobs × Memory) → Type 0
AddsFit none = Unit
AddsFit (some (made, after, m)) = IsFit after

pub add-AddsFit :
    (options : ShellOption → Bool) (count : ℕ) (text : Bytes) (asynchronous negated : Bool)
    (jobs : Jobs) (m : Memory)
    → IsFit jobs
    → AddsFit (add options count text asynchronous negated jobs m)
unfolding add
add-AddsFit options count text asynchronous negated jobs m f =
    elim (Bool-cases (count == 0 || jobs.next_id == uint_max)) [
      | inl e ↦ rw (e, AddsFit) f
      | inr e ↦
          rw (e, AddsFit)
            (elim (Bool-cases asynchronous) [
              | inr a ↦
                  rw (a, AddsFit) (link_new-IsFit options count text asynchronous negated jobs m f)
              | inl a ↦ elim (Option-cases (evict (suc (length jobs.head)) jobs)) [
                | inl none_left ↦ rw (a, none_left, AddsFit) tt
                | inr (room, h) ↦
                    rw (a, h, AddsFit)
                      (link_new-IsFit options count text asynchronous negated room m
                        (evict-IsFit (suc (length jobs.head)) jobs room f h))
              ]
            ])
    ]

pub Adds-IsManaged :
    (asynchronous : Bool) (before after : Jobs) (made : Option ℕ) (m : Memory)
    → Adds asynchronous before (some (made, after, m))
    → IsManaged after
Adds-IsManaged asynchronous before after none m a = a.0
Adds-IsManaged asynchronous before after (some i) m a = a.0
