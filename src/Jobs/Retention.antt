-- ===== src/Jobs/Retention.antt =====
-- The manager's list: its invariant, and what the eviction keeps.
use cshell.Prelude.{
  ℕ, zero, suc, ◌≤◌, ◌<◌, ◌≡◌, refl, ◌∙◌, true, Option, none, some, List, [], ◌∷◌, arith, leb, ltb,
  ◌==◌, if◌then◌else◌, Bool-cases, Option-cases, inl, inr,
}
use cshell.Prelude.Lists.{length}
use cshell.Jobs.{Job, Jobs, complete, unlink, lookup, remove, completed, oldest, evict}

-- No two jobs have one id, and every id is below the next.
abbrev pub IdsUnique : List Job → Type 0
IdsUnique [] = Unit
IdsUnique (j ∷ js) = (lookup j.id js ≡ none) × IdsUnique js

abbrev pub IdsBelow : ℕ → List Job → Type 0
IdsBelow n [] = Unit
IdsBelow n (j ∷ js) = (j.id < n) × IdsBelow n js

pub record IsManaged (jobs : Jobs) : Type 0 where
  pub unique : IdsUnique jobs.head
  pub below : IdsBelow jobs.next_id jobs.head
  pub counted : jobs.retained ≡ length jobs.head

pub lookup-unlink :
    (i k : ℕ) (js : List Job)
    → IdsUnique js
    → lookup k (unlink i js) ≡ (if i == k then none else lookup k js)
unfolding lookup unlink
lookup-unlink i k [] u = ground arith
lookup-unlink i k (j ∷ js) u = ground (arith, lookup-unlink i k js u.1)

unlink-IdsUnique : (i : ℕ) (js : List Job) → IdsUnique js → IdsUnique (unlink i js)
unfolding unlink
unlink-IdsUnique i [] u = tt
unlink-IdsUnique i (j ∷ js) u =
    ground (arith, lookup-unlink i j.id js u.1, unlink-IdsUnique i js u.1)

unlink-IdsBelow : (i n : ℕ) (js : List Job) → IdsBelow n js → IdsBelow n (unlink i js)
unfolding unlink
unlink-IdsBelow i n [] b = tt
unlink-IdsBelow i n (j ∷ js) b = ground (arith, unlink-IdsBelow i n js b.1)

pub length-unlink :
    (i : ℕ) (js : List Job) (j : Job)
    → lookup i js ≡ some j
    → suc (length (unlink i js)) ≡ length js
unfolding lookup unlink
length-unlink i [] j h = cc
length-unlink i (k ∷ js) j h = ground (arith, length-unlink i js j)

pub remove-IsManaged : (i : ℕ) (jobs : Jobs) → IsManaged jobs → IsManaged (remove i jobs)
unfolding remove
remove-IsManaged i jobs m = elim (Option-cases (lookup i jobs.head)) [
  | inl e ↦ ground (arith, e)
  | inr (j, e) ↦ ground (
    arith,
    e,
    unlink-IdsUnique i jobs.head m.unique,
    unlink-IdsBelow i jobs.next_id jobs.head m.below,
    length-unlink i jobs.head j e,
  )
]

-- The job that the scan finds is in the list, and complete.
oldest-complete :
    (js : List Job) (o : Job)
    → IdsUnique js
    → oldest js ≡ some o
    → (lookup o.id js ≡ some o) × (complete o ≡ true)
unfolding oldest lookup
oldest-complete [] o u h = cc
oldest-complete (j ∷ js) o u h = elim (Option-cases (oldest js)) [
  | inl e ↦ ground (arith, e)
  | inr (p, e) ↦ ground (arith, e, oldest-complete js p u.1 e)
]

oldest-none : (js : List Job) → oldest js ≡ none → completed js ≡ 0
unfolding oldest completed
oldest-none [] h = refl
oldest-none (j ∷ js) h = elim (Option-cases (oldest js)) [
  | inl e ↦ ground (arith, e, oldest-none js e)
  | inr (p, e) ↦ absurd (ground (arith, e))
]

completed-le-length : (js : List Job) → completed js ≤ length js
unfolding completed
completed-le-length [] = omega arith
completed-le-length (j ∷ js) = ground (arith, completed-le-length js)

-- The job with an id, if it is there and not complete.
abbrev pub find_live : ℕ → List Job → Option Job
find_live k js = elim (lookup k js) [ none ↦ none | some j ↦ if complete j then none else some j ]

find_live-remove :
    (k : ℕ) (o : Job) (jobs : Jobs)
    → IsManaged jobs
    → lookup o.id jobs.head ≡ some o
    → complete o ≡ true
    → find_live k (remove o.id jobs).head ≡ find_live k jobs.head
unfolding remove
find_live-remove k o jobs m h c = elim (Bool-cases (o.id == k)) [
  | inl e ↦ ground (arith, lookup-unlink o.id k jobs.head m.unique, h, c, e)
  | inr e ↦ ground (arith, lookup-unlink o.id k jobs.head m.unique, h, e)
]

-- What an eviction is to leave: a managed list with room for one more complete job, and every job
-- that is not complete.
pub record IsEvicted (before after : Jobs) : Type 0 where
  pub managed : IsManaged after
  pub same_next : after.next_id ≡ before.next_id
  pub same_limit : after.retention_limit ≡ before.retention_limit
  pub room : completed after.head < after.retention_limit
  pub live_kept : (k : ℕ) → find_live k after.head ≡ find_live k before.head

abbrev pub Evicts : Jobs → Option Jobs → Type 0
Evicts before none = ⊥
Evicts before (some after) = IsEvicted before after

stays :
    (jobs : Jobs)
    → IsManaged jobs
    → completed jobs.head < jobs.retention_limit
    → IsEvicted jobs jobs
stays jobs m h = record {
  managed = m;
  same_next = refl;
  same_limit = refl;
  room = h;
  live_kept = λ k. refl;
}

remove-fields :
    (i : ℕ) (jobs : Jobs)
    → ((remove i jobs).next_id ≡ jobs.next_id)
      × ((remove i jobs).retention_limit ≡ jobs.retention_limit)
unfolding remove
remove-fields i jobs = elim (Option-cases (lookup i jobs.head)) [
  | inl e ↦ ground (arith, e)
  | inr (j, e) ↦ ground (arith, e)
]

length-remove :
    (o : Job) (jobs : Jobs)
    → lookup o.id jobs.head ≡ some o
    → suc (length (remove o.id jobs).head) ≡ length jobs.head
unfolding remove
length-remove o jobs h = ground (arith, h, length-unlink o.id jobs.head o h)

Evicts-from :
    (before jobs : Jobs) (r : Option Jobs)
    → jobs.next_id ≡ before.next_id
    → jobs.retention_limit ≡ before.retention_limit
    → ((k : ℕ) → find_live k jobs.head ≡ find_live k before.head)
    → Evicts jobs r
    → Evicts before r
Evicts-from before jobs none n l k e = e
Evicts-from before jobs (some after) n l k e = record {
  managed = e.managed;
  same_next = e.same_next ∙ n;
  same_limit = e.same_limit ∙ l;
  room = e.room;
  live_kept = λ i. e.live_kept i ∙ k i;
}

-- The eviction loop ends when it has fuel for every job, and leaves room for a complete job without
-- taking one that is not complete.
pub evict-Evicts :
    (f : ℕ) (jobs : Jobs)
    → IsManaged jobs
    → 0 < jobs.retention_limit
    → length jobs.head < f
    → Evicts jobs (evict f jobs)
unfolding evict
evict-Evicts zero jobs m pos h = absurd (omega (arith, h))
evict-Evicts (suc f) jobs m pos h = elim (Bool-cases (leb jobs.retention_limit jobs.retained)) [
  | inr few ↦
      rw (few, Evicts)
        (stays jobs m (ground (arith, few, m.counted, completed-le-length jobs.head)))
  | inl many ↦ elim (Bool-cases (ltb (completed jobs.head) jobs.retention_limit)) [
    | inl free ↦ rw (many, free, Evicts) (stays jobs m (ground (arith, free)))
    | inr full ↦ elim (Option-cases (oldest jobs.head)) [
      | inl e ↦ absurd (ground (arith, oldest-none jobs.head e, full, pos))
      | inr (o, e) ↦
          let (found, done) = oldest-complete jobs.head o m.unique e in
          let kept = remove-fields o.id jobs in
          rw (many, full, e, Evicts)
            (Evicts-from jobs (remove o.id jobs) (evict f (remove o.id jobs)) kept.0 kept.1
              (λ k. find_live-remove k o jobs m found done)
              (evict-Evicts f (remove o.id jobs) (remove-IsManaged o.id jobs m)
                (omega (arith, kept.1, pos)) (omega (arith, length-remove o jobs found, h))))
    ]
  ]
]
