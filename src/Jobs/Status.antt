-- ===== src/Jobs/Status.antt =====
-- The status of a pipeline, and that the status of a process that ended is final.
use cshell.Prelude.{
  ℕ, zero, suc, ◌+◌, ◌≡◌, ◌⊎◌, refl, ap, ◌∙◌, ◌++◌, Bool, true, false, not, ◌&&◌, none, some, List,
  [], ◌∷◌, arith, ◌==◌, if◌then◌else◌, Bool-cases, Option-cases, inl, inr,
}
use cshell.Prelude.Lists.{get_elem?}
use cshell.Jobs.{
  WaitStatus, exited, signaled, stopped_by, Process, Job, live, stopped_loop, job_stopped,
  first_stop, stop_signal, last_failure, last_status, failing, status_number, chosen_status,
  ended_status, job_status,
}
use cshell.Jobs.Poll.{
  Event, continued, became, Answers, is_stop, became_status, collect, poll_processes,
}

-- No process of the pipeline failed, as the code tests for it.
abbrev none_failing : List Process → Bool
none_failing [] = true
none_failing (p ∷ ps) = not (failing p.status) && none_failing ps

last_failure-failing :
    (ps : List Process) (s : WaitStatus) → last_failure ps ≡ some s → failing s ≡ true
unfolding last_failure
last_failure-failing [] s h = cc
last_failure-failing (p ∷ ps) s h = elim (Option-cases (last_failure ps)) [
  | inl e ↦ ground (arith, e)
  | inr (t, e) ↦ ground (arith, e, last_failure-failing ps t e)
]

none_failing-failure :
    (ps : List Process) (s : WaitStatus) → last_failure ps ≡ some s → none_failing ps ≡ false
unfolding last_failure
none_failing-failure [] s h = cc
none_failing-failure (p ∷ ps) s h = elim (Option-cases (last_failure ps)) [
  | inl e ↦ ground (arith, h, e)
  | inr (t, e) ↦ ground (arith, e, none_failing-failure ps t e)
]

last_failure-none :
    (ps : List Process)
    → last_failure ps ≡ none
    → (none_failing ps ≡ true) × (failing (last_status ps) ≡ false)
unfolding last_failure last_status failing
last_failure-none [] h = (refl, refl)
last_failure-none (p ∷ []) h = unfold failing in ground arith
last_failure-none (p ∷ q ∷ ps) h = elim (Option-cases (last_failure (q ∷ ps))) [
  | inl e ↦ ground (arith, e, last_failure-none (q ∷ ps) e)
  | inr (t, e) ↦ absurd (ground (arith, e))
]

status_number-failing : (s : WaitStatus) → (status_number s == 0) ≡ not (failing s)
unfolding status_number failing
status_number-failing (exited n) = ground arith
status_number-failing (signaled n) = ground arith
status_number-failing (stopped_by n) = ground arith

chosen_status-failing :
    (j : Job)
    → failing (chosen_status j) ≡ (
        if j.fails_as_pipe
        then not (none_failing j.processes)
        else failing (last_status j.processes))
unfolding chosen_status
chosen_status-failing j = elim (Option-cases (last_failure j.processes)) [
  | inl e ↦ ground (arith, e, last_failure-none j.processes e)
  | inr (s, e) ↦
      ground (arith, e, last_failure-failing j.processes s e, none_failing-failure j.processes s e)
]

-- A process succeeded: it exited with 0, and was not ended by a signal.
abbrev pub succeeded : WaitStatus → Bool
succeeded (exited n) = n == 0
succeeded (signaled n) = false
succeeded (stopped_by n) = false

-- Every process of the pipeline succeeded.
abbrev pub all_succeeded : List Process → Bool
all_succeeded [] = true
all_succeeded (p ∷ ps) = succeeded p.status && all_succeeded ps

failing-succeeded : (s : WaitStatus) → failing s ≡ not (succeeded s)
unfolding failing
failing-succeeded (exited n) = refl
failing-succeeded (signaled n) = refl
failing-succeeded (stopped_by n) = refl

none_failing-all_succeeded : (ps : List Process) → none_failing ps ≡ all_succeeded ps
none_failing-all_succeeded [] = refl
none_failing-all_succeeded (p ∷ ps) =
    ground (arith, failing-succeeded p.status, none_failing-all_succeeded ps)

last_status-append : (ps : List Process) (p : Process) → last_status (ps ++ (p ∷ [])) ≡ p.status
unfolding last_status
last_status-append [] p = refl
last_status-append (q ∷ []) p = refl
last_status-append (q ∷ r ∷ ps) p = last_status-append (r ∷ ps) p

-- The status of a pipeline that ended, whose last process is `p`, is 0 exactly when it succeeded,
-- by its last process or under pipefail by all of them, and when it did not if it is negated with
-- `!`.
pub ended_status-zero :
    (j : Job) (before : List Process) (p : Process)
    → j.processes ≡ before ++ (p ∷ [])
    → (ended_status j == 0) ≡ (
        let good = (if j.fails_as_pipe then all_succeeded j.processes else succeeded p.status) in
        if j.negated then not good else good)
unfolding ended_status
ended_status-zero j before p h =
    let final : last_status j.processes ≡ p.status =
      ap (λ ps. last_status ps) h ∙ last_status-append before p in
    ground (
      arith,
      chosen_status-failing j,
      status_number-failing (chosen_status j),
      none_failing-all_succeeded j.processes,
      failing-succeeded (last_status j.processes),
      final,
      ap (λ s. succeeded s) final,
    )

-- A process that is marked as stopped has the status of a stop, and has not ended.
abbrev pub IsConsistent : Process → Type 0
IsConsistent p = (p.stopped ≡ false) ⊎ ((n : ℕ) × (p.status ≡ stopped_by n) × (p.done ≡ false))

abbrev pub AllConsistent : List Process → Type 0
AllConsistent [] = Unit
AllConsistent (p ∷ ps) = IsConsistent p × AllConsistent ps

became_status-IsConsistent : (s : WaitStatus) (p : Process) → IsConsistent (became_status s p)
unfolding became_status is_stop
became_status-IsConsistent (exited n) p = inl refl
became_status-IsConsistent (signaled n) p = inl refl
became_status-IsConsistent (stopped_by n) p = inr (n, refl, refl)

collect-IsConsistent :
    (es : List Event) (p : Process) → IsConsistent p → IsConsistent (collect es p)
unfolding collect is_stop became_status
collect-IsConsistent [] p c = c
collect-IsConsistent (continued ∷ es) p c =
    collect-IsConsistent es (record p { stopped = false }) (inl refl)
collect-IsConsistent (became (exited n) ∷ es) p c = became_status-IsConsistent (exited n) p
collect-IsConsistent (became (signaled n) ∷ es) p c = became_status-IsConsistent (signaled n) p
collect-IsConsistent (became (stopped_by n) ∷ es) p c =
    collect-IsConsistent es (became_status (stopped_by n) p)
      (became_status-IsConsistent (stopped_by n) p)

IsConsistent-if :
    (b : Bool) (p q : Process) → IsConsistent p → IsConsistent q → IsConsistent (if b then p else q)
IsConsistent-if true p q h k = h
IsConsistent-if false p q h k = k

AllConsistent-if :
    (b : Bool) (x y : Bool × List Process)
    → AllConsistent x.1
    → AllConsistent y.1
    → AllConsistent (if b then x else y).1
AllConsistent-if true x y h k = h
AllConsistent-if false x y h k = k

pub poll_processes-AllConsistent :
    (a : Answers) (ps : List Process) → AllConsistent ps → AllConsistent (poll_processes a ps).1
unfolding poll_processes
poll_processes-AllConsistent a [] c = tt
poll_processes-AllConsistent a (p ∷ ps) c =
    let q = if live p then collect (a.events p.pid) p else p in
    let now : IsConsistent q =
      IsConsistent-if (live p) (collect (a.events p.pid) p) p
        (collect-IsConsistent (a.events p.pid) p c.0) c.0 in
    AllConsistent-if (live p && a.fails p.pid && not q.done) _ _ (now, c.1)
      (now, poll_processes-AllConsistent a ps c.1)

-- A poll changes nothing of a process that has ended: its status is final.
pub poll_processes-final :
    (a : Answers) (ps : List Process) (i : ℕ) (p : Process)
    → get_elem? ps i ≡ some p
    → p.done ≡ true
    → get_elem? (poll_processes a ps).1 i ≡ some p
unfolding poll_processes live
poll_processes-final a [] i p h d = cc
poll_processes-final a (q ∷ ps) zero p h d = ground arith
poll_processes-final a (q ∷ ps) (suc i) p h d = ground (arith, poll_processes-final a ps i p h d)

first_stop-stopped_loop :
    (any : Bool) (ps : List Process)
    → AllConsistent ps
    → stopped_loop any ps ≡ true
    → (any ≡ true) ⊎ ((n : ℕ) × (first_stop ps ≡ some (stopped_by n)))
unfolding stopped_loop first_stop
first_stop-stopped_loop any [] c h = inl h
first_stop-stopped_loop any (p ∷ ps) c h = elim (Bool-cases p.stopped) [
  | inl t ↦ elim c.0 [
    | inl f ↦ absurd (ground (arith, t, f))
    | inr (n, e, d) ↦ inr (n, ground (arith, t, e))
  ]
  | inr f ↦ rw f (first_stop-stopped_loop any ps c.1 (ground (arith, h, f)))
]

-- The status of a stopped pipeline whose processes are consistent is 128 and the signal of the stop
-- of one of its processes, negated or not.
pub job_status-stopped :
    (j : Job)
    → AllConsistent j.processes
    → job_stopped j ≡ true
    → (n : ℕ) × (job_status j ≡ 128 + n) × (first_stop j.processes ≡ some (stopped_by n))
unfolding job_status stop_signal
job_status-stopped j c h = elim (first_stop-stopped_loop false j.processes c h) [
  | inl e ↦ absurd (ground (arith, e))
  | inr (n, e) ↦ (n, ground (arith, h, e), e)
]
