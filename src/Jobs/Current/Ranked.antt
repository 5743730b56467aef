-- ===== src/Jobs/Current/Ranked.antt =====
-- `current_job` against an independent description: a ranking of the jobs.
use cshell.Prelude.{
  ℕ, zero, suc, ltb, ◌≡◌, refl, ◌∙◌, ap, Bool, true, false, not, ◌&&◌, ◌||◌, none, some, List, [],
  ◌∷◌, ◌++◌, arith, if◌then◌else◌, Bool-cases, inl, inr,
}
use cshell.Prelude.Lists.{get_elem?}
use cshell.Jobs.{Process, Job, Jobs, live, all_done, stopped_loop}
use cshell.Jobs.Current.{same_flag, eligible, scan_class, current_job}

abbrev pub keep : (Job → Bool) → List Job → List Job
keep p [] = []
keep p (j ∷ js) = if p j then j ∷ keep p js else keep p js

-- The processes that have started and not ended.
abbrev pub lives : List Process → List Process
lives [] = []
lives (p ∷ ps) = if ltb 0 p.pid && not p.done then p ∷ lives ps else lives ps

abbrev pub some_one : List Process → Bool
some_one [] = false
some_one (p ∷ ps) = true

abbrev pub all_stopped : List Process → Bool
all_stopped [] = true
all_stopped (p ∷ ps) = p.stopped && all_stopped ps

-- A background job with a process that is live, all of which have stopped, and one with a process
-- that has not.
abbrev pub is_stopped : Job → Bool
is_stopped j = j.background && some_one (lives j.processes) && all_stopped (lives j.processes)

abbrev pub is_running : Job → Bool
is_running j = j.background && some_one (lives j.processes) && not (all_stopped (lives j.processes))

-- The background jobs that are not complete: the stopped ones and then the others, each class with
-- the job that was launched, resumed or stopped last in front.
abbrev pub ranked : Jobs → List Job
ranked jobs = keep is_stopped jobs.head ++ keep is_running jobs.head

all_done-lives : (ps : List Process) → all_done ps ≡ not (some_one (lives ps))
unfolding all_done live
all_done-lives [] = refl
all_done-lives (p ∷ ps) = ground (arith, all_done-lives ps)

stopped_loop-lives :
    (any : Bool) (ps : List Process)
    → stopped_loop any ps ≡ (all_stopped (lives ps) && (any || some_one (lives ps)))
unfolding stopped_loop live
stopped_loop-lives any [] = ground arith
stopped_loop-lives any (p ∷ ps) =
    ground (arith, stopped_loop-lives any ps, stopped_loop-lives true ps)

eligible-stopped : (j : Job) → eligible true j ≡ is_stopped j
unfolding eligible same_flag
eligible-stopped j =
    ground (arith, all_done-lives j.processes, stopped_loop-lives false j.processes)

eligible-running : (j : Job) → eligible false j ≡ is_running j
unfolding eligible same_flag
eligible-running j =
    ground (arith, all_done-lives j.processes, stopped_loop-lives false j.processes)

keep-same : (p q : Job → Bool) (js : List Job) → ((j : Job) → p j ≡ q j) → keep p js ≡ keep q js
keep-same p q [] h = refl
keep-same p q (j ∷ js) h = rw (h j, keep-same p q js h) refl

scan_class-keep :
    (want : Bool) (k : ℕ) (js : List Job)
    → (scan_class want k js).0 ≡ get_elem? (keep (eligible want) js) k
unfolding scan_class
scan_class-keep want k [] = refl
scan_class-keep want zero (j ∷ js) = elim (Bool-cases (eligible want j)) [
  | inl e ↦ ground (arith, e)
  | inr e ↦ ground (arith, e, scan_class-keep want zero js)
]
scan_class-keep want (suc k) (j ∷ js) = elim (Bool-cases (eligible want j)) [
  | inl e ↦ ground (arith, e, scan_class-keep want k js)
  | inr e ↦ ground (arith, e, scan_class-keep want (suc k) js)
]

-- The second scan goes on where the first left off.
get_elem?-append :
    (want : Bool) (k : ℕ) (js ys : List Job)
    → get_elem? (keep (eligible want) js ++ ys) k ≡ (elim (scan_class want k js).0 [
      | some j ↦ some j
      | none ↦ get_elem? ys (scan_class want k js).1
    ])
unfolding scan_class
get_elem?-append want k [] ys = refl
get_elem?-append want zero (j ∷ js) ys = elim (Bool-cases (eligible want j)) [
  | inl e ↦ ground (arith, e)
  | inr e ↦ ground (arith, e, get_elem?-append want zero js ys)
]
get_elem?-append want (suc k) (j ∷ js) ys = elim (Bool-cases (eligible want j)) [
  | inl e ↦ ground (arith, e, get_elem?-append want k js ys)
  | inr e ↦ ground (arith, e, get_elem?-append want (suc k) js ys)
]

current_job-classes :
    (k : ℕ) (jobs : Jobs)
    → current_job k jobs
      ≡ get_elem? (keep (eligible true) jobs.head ++ keep (eligible false) jobs.head) k
unfolding current_job
current_job-classes k jobs = ground (
  arith,
  get_elem?-append true k jobs.head (keep (eligible false) jobs.head),
  scan_class-keep false (scan_class true k jobs.head).1 jobs.head,
)

-- `current_job` is a look into the ranking: 0 is the current job, 1 the previous one.
pub current_job-ranked : (k : ℕ) (jobs : Jobs) → current_job k jobs ≡ get_elem? (ranked jobs) k
current_job-ranked k jobs =
    current_job-classes k jobs
    ∙ ap (λ l. get_elem? (l ++ keep (eligible false) jobs.head) k)
        (keep-same (eligible true) is_stopped jobs.head eligible-stopped)
    ∙ ap (λ l. get_elem? (keep is_stopped jobs.head ++ l) k)
        (keep-same (eligible false) is_running jobs.head eligible-running)
