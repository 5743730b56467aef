-- ===== src/Jobs/Steps/Managed.antt =====
-- The steps that change jobs or their order keep the list managed.
use cshell.Prelude.{
  ℕ, suc, ◌<◌, ◌≡◌, refl, ap, ◌&&◌, none, some, List, [], ◌∷◌, arith, if◌then◌else◌, Option-cases,
  inl, inr,
}
use cshell.Prelude.Lists.{length}
use cshell.Prelude.Stream.{Stream}
use cshell.Jobs.{Job, Jobs, unlink, lookup}
use cshell.Jobs.Poll.{Answers, poll_jobs, poll_job}
use cshell.Jobs.Current.{promote}
use cshell.Jobs.Signals.{Host}
use cshell.Jobs.Report.{print_job, short, notify_loop, shown}
use cshell.Jobs.Wait.{change}
use cshell.Jobs.Retention.{IdsUnique, IdsBelow, IsManaged, length-unlink, lookup-unlink}

abbrev pub ids : List Job → List ℕ
ids [] = []
ids (j ∷ js) = j.id ∷ ids js

lookup-ids : (i : ℕ) (js ks : List Job) → ids ks ≡ ids js → lookup i js ≡ none → lookup i ks ≡ none
unfolding lookup
lookup-ids i [] [] e h = refl
lookup-ids i [] (k ∷ ks) e h = cc
lookup-ids i (j ∷ js) [] e h = refl
lookup-ids i (j ∷ js) (k ∷ ks) e h = ground (arith, e, h, lookup-ids i js ks)

IdsUnique-ids : (js ks : List Job) → ids ks ≡ ids js → IdsUnique js → IdsUnique ks
IdsUnique-ids js [] e u = tt
IdsUnique-ids [] (k ∷ ks) e u = cc
IdsUnique-ids (j ∷ js) (k ∷ ks) e u =
    (ground (arith, e, u, lookup-ids j.id js ks), IdsUnique-ids js ks (ground (arith, e)) u.1)

IdsBelow-ids : (n : ℕ) (js ks : List Job) → ids ks ≡ ids js → IdsBelow n js → IdsBelow n ks
IdsBelow-ids n js [] e b = tt
IdsBelow-ids n [] (k ∷ ks) e b = cc
IdsBelow-ids n (j ∷ js) (k ∷ ks) e b =
    (ground (arith, e, b.0), IdsBelow-ids n js ks (ground (arith, e)) b.1)

length-ids : (js ks : List Job) → ids ks ≡ ids js → length ks ≡ length js
length-ids [] [] e = refl
length-ids [] (k ∷ ks) e = cc
length-ids (j ∷ js) [] e = cc
length-ids (j ∷ js) (k ∷ ks) e = ap suc (length-ids js ks (ground (arith, e)))

-- The list with other jobs in it of the same ids.
pub IsManaged-ids :
    (jobs : Jobs) (ks : List Job)
    → ids ks ≡ ids jobs.head
    → IsManaged jobs
    → IsManaged (record jobs { head = ks })
IsManaged-ids jobs ks e m = record {
  unique = IdsUnique-ids jobs.head ks e m.unique;
  below = IdsBelow-ids jobs.next_id jobs.head ks e m.below;
  counted = ground (arith, m.counted, length-ids jobs.head ks e);
}

pub ids-poll : (a : Answers) (js : List Job) → ids (poll_jobs a js).1 ≡ ids js
unfolding poll_jobs poll_job
ids-poll a [] = refl
ids-poll a (j ∷ js) = ground (arith, ids-poll a js)

pub ids-notify :
    (host : Host) (jobs : Jobs) (js : List Job) (s : Stream)
    → ids (notify_loop host jobs js s).0 ≡ ids js
unfolding notify_loop shown
ids-notify host jobs [] s = refl
ids-notify host jobs (j ∷ js) s =
    let (went, printed) = print_job host jobs j short s in
    ground (arith, ids-notify host jobs js (if j.background && j.changed then printed else s))

module _ (f : Job → Job) (same : (j : Job) → (f j).id ≡ j.id) where
  pub ids-change : (i : ℕ) (js : List Job) → ids (change i f js) ≡ ids js
  unfolding change
  ids-change i [] = refl
  ids-change i (j ∷ js) = ground (arith, ids-change i js, same j)

lookup-IdsBelow :
    (i n : ℕ) (js : List Job) (j : Job)
    → lookup i js ≡ some j
    → IdsBelow n js
    → (j.id ≡ i) × (i < n)
unfolding lookup
lookup-IdsBelow i n [] j h b = cc
lookup-IdsBelow i n (k ∷ js) j h b = ground (arith, h, b.0, lookup-IdsBelow i n js j)

unlink-kept :
    (i n : ℕ) (js : List Job)
    → IdsUnique js
    → IdsBelow n js
    → IdsUnique (unlink i js) × IdsBelow n (unlink i js)
unfolding unlink
unlink-kept i n [] u b = (tt, tt)
unlink-kept i n (j ∷ js) u b =
    ground (arith, u, b, lookup-unlink i j.id js u.1, unlink-kept i n js u.1 b.1)

pub promote-IsManaged : (i : ℕ) (jobs : Jobs) → IsManaged jobs → IsManaged (promote i jobs)
unfolding promote
promote-IsManaged i jobs m = elim (Option-cases (lookup i jobs.head)) [
  | inl e ↦ ground (arith, e, m)
  | inr (j, e) ↦
      let (same, below) = lookup-IdsBelow i jobs.next_id jobs.head j e m.below in
      let kept = unlink-kept i jobs.next_id jobs.head m.unique m.below in
      rw (e, promote)
        (record {
          unique = (ground (arith, same, lookup-unlink i i jobs.head m.unique), kept.0);
          below = (ground (arith, same, below), kept.1);
          counted = ground (arith, m.counted, length-unlink i jobs.head j e);
        })
]
