-- ===== src/Jobs/Adding.antt =====
-- `csh_jobs_add`, on every branch.
use cshell.Prelude.{
  ℕ, zero, suc, ◌≤◌, ◌<◌, ◌≡◌, refl, Bool, true, false, not, ◌&&◌, ◌||◌, Option, none, some, List,
  [], ◌∷◌, arith, leb, ◌==◌, if◌then◌else◌, Bool-cases, inl, inr,
}
use cshell.Prelude.Bytes.{Bytes}
use cshell.Prelude.Lists.{length}
use cshell.Prelude.Memory.{Memory, allocate}
use cshell.State.{ShellOption}
use cshell.Jobs.{
  Job, Jobs, all_done, live, lookup, completed, evict, fresh_processes, link_new, add, uint_max,
}
use cshell.Jobs.Retention.{IsManaged, IdsBelow, find_live, IsEvicted, Evicts, evict-Evicts}

all_done-fresh : (n : ℕ) → all_done (fresh_processes n) ≡ true
unfolding all_done fresh_processes live
all_done-fresh zero = refl
all_done-fresh (suc n) = all_done-fresh n

lookup-IdsBelow : (n k : ℕ) (js : List Job) → IdsBelow n js → n ≤ k → lookup k js ≡ none
unfolding lookup
lookup-IdsBelow n k [] b h = refl
lookup-IdsBelow n k (j ∷ js) b h = ground (arith, lookup-IdsBelow n k js b.1 h)

IdsBelow-suc : (n : ℕ) (js : List Job) → IdsBelow n js → IdsBelow (suc n) js
IdsBelow-suc n [] b = tt
IdsBelow-suc n (j ∷ js) b = (omega (arith, b.0), IdsBelow-suc n js b.1)

-- The jobs that are not complete are those of before.
abbrev pub SameLive : Jobs → Jobs → Type 0
SameLive before after = (k : ℕ) → find_live k after.head ≡ find_live k before.head

-- A new job has an id that no job had; and if it is asynchronous there are, with it, no more complete
-- jobs than the limit (a job that has no process yet is complete).
abbrev pub Adds : Bool → Jobs → Option (Option ℕ × Jobs × Memory) → Type 0
Adds asynchronous before none = ⊥
Adds asynchronous before (some (none, after, m)) = IsManaged after × SameLive before after
Adds asynchronous before (some (some i, after, m)) =
    IsManaged after
    × SameLive before after
    × (i ≡ before.next_id)
    × (lookup i before.head ≡ none)
    × ((not asynchronous || leb (completed after.head) before.retention_limit) ≡ true)

-- The list that the record is linked into.
record IsRoom (asynchronous : Bool) (before jobs : Jobs) : Type 0 where
  managed : IsManaged jobs
  same_next : jobs.next_id ≡ before.next_id
  live_kept : SameLive before jobs
  room : (not asynchronous || leb (suc (completed jobs.head)) before.retention_limit) ≡ true

link_new-Adds :
    (options : ShellOption → Bool) (count : ℕ) (text : Bytes) (asynchronous negated : Bool)
    (before jobs : Jobs) (m : Memory)
    → IsManaged before
    → IsRoom asynchronous before jobs
    → Adds asynchronous before (some (link_new options count text asynchronous negated jobs m))
unfolding link_new lookup completed
link_new-Adds options count text asynchronous negated before jobs m b r =
    elim (Bool-cases (allocate m).0) [
      | inr e ↦ rw (e, Adds) (r.managed, r.live_kept)
      | inl e ↦
          elim (Bool-cases
            ((allocate (allocate m).1).0 && (allocate (allocate (allocate m).1).1).0)) [
              | inr g ↦ rw (e, g, Adds) (r.managed, r.live_kept)
              | inl g ↦
                  let fresh =
                    lookup-IdsBelow jobs.next_id jobs.next_id jobs.head r.managed.below
                      (omega arith) in
                  rw (e, g, Adds)
                    (
                      record {
                        unique = (fresh, r.managed.unique);
                        below = (omega arith, IdsBelow-suc jobs.next_id jobs.head r.managed.below);
                        counted = omega (arith, r.managed.counted);
                      },
                      λ k. ground (arith, r.live_kept k, all_done-fresh count, fresh),
                      r.same_next,
                      rw r.same_next (
                          lookup-IdsBelow before.next_id before.next_id before.head b.below
                            (omega arith)),
                      ground (arith, r.room, all_done-fresh count),
                    )
            ]
    ]

evicted-IsRoom : (before jobs : Jobs) → IsEvicted before jobs → IsRoom true before jobs
evicted-IsRoom before jobs e = record {
  managed = e.managed;
  same_next = e.same_next;
  live_kept = e.live_kept;
  room = ground (arith, e.room, e.same_limit);
}

-- `csh_jobs_add` on a managed list with a limit of at least 1: its eviction loop ends, the list stays
-- managed and keeps every job that is not complete, whether a job is added or not; a new one has an
-- id that no job had, and if it is asynchronous at most the limit of complete jobs is left.
pub add-Adds :
    (options : ShellOption → Bool) (count : ℕ) (text : Bytes) (asynchronous negated : Bool)
    (jobs : Jobs) (m : Memory)
    → IsManaged jobs
    → 0 < jobs.retention_limit
    → Adds asynchronous jobs (add options count text asynchronous negated jobs m)
unfolding add
add-Adds options count text asynchronous negated jobs m i pos =
    elim (Bool-cases (count == 0 || jobs.next_id == uint_max)) [
      | inl e ↦ rw (e, Adds) (i, λ k. refl)
      | inr e ↦ rw (e, Adds) (by_kind asynchronous)
    ]
  where
    by_kind :
        (kind : Bool)
        → Adds kind jobs (elim (if kind then evict (suc (length jobs.head)) jobs else some jobs) [
          | none ↦ none
          | some jobs' ↦ some (link_new options count text kind negated jobs' m)
        ])
    by_kind false =
        link_new-Adds options count text false negated jobs jobs m i
          (record { managed = i; same_next = refl; live_kept = λ k. refl; room = refl })
    by_kind true =
        from_evicted (evict (suc (length jobs.head)) jobs)
          (evict-Evicts (suc (length jobs.head)) jobs i pos (omega arith))
      where
        from_evicted :
            (r : Option Jobs)
            → Evicts jobs r
            → Adds true jobs (elim r [
              | none ↦ none
              | some jobs' ↦ some (link_new options count text true negated jobs' m)
            ])
        from_evicted none e = absurd e
        from_evicted (some jobs') e =
            link_new-Adds options count text true negated jobs jobs' m i
              (evicted-IsRoom jobs jobs' e)
