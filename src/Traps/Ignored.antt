-- ===== src/Traps/Ignored.antt =====
-- The signals that are ignored when a shell that is not interactive starts.
use cshell.Prelude.{
  ℕ, zero, suc, ◌-◌, ◌≡◌, ◌⊎◌, ◌∙◌, subst, sym, ap, Bool, true, false, Option, arith, ◌==◌,
  if◌then◌else◌, Bool-cases, inl, inr,
}
use cshell.Prelude.Bytes.{Bytes}
use cshell.Traps.{
  Handler, ignore, ignore_child, Kernel, World, set_at, same_handler, clear, preserve_child_ignore,
  trap_limit, arrive,
}
use cshell.Traps.Process.{fork_one, fork_loop, after_fork, forked_entry}
use cshell.Traps.Builtin.{Session, complain, switch_off, drop_action, reset, set_action, install}
use cshell.Traps.Builtin.Keeps.{install-by}

-- SIG_IGN, or for SIGCHLD the handler that does nothing.
abbrev pub IsIgnoring : Kernel → ℕ → Handler → Type 0
IsIgnoring kernel k h = (h ≡ ignore) ⊎ ((k ≡ kernel.sigchld) × (h ≡ ignore_child))

-- Each signal that `base` names is ignored, not trapped and not pending; the table names the same.
pub record IsUntouched (kernel : Kernel) (base : ℕ → Bool) (w : World) : Type 0 where
  pub same : (k : ℕ) → w.table.entry_ignored k ≡ base k
  pub not_trapped : (k : ℕ) → base k ≡ true → (w.table.entries k).installed ≡ false
  pub not_pending : (k : ℕ) → base k ≡ true → w.pending k ≡ false
  pub ignoring : (k : ℕ) → base k ≡ true → IsIgnoring kernel k (w.disposition k)

module _ (kernel : Kernel) (base : ℕ → Bool) where
  pub arrive-IsUntouched :
      (number : ℕ) (w : World)
      → IsUntouched kernel base w
      → IsUntouched kernel base (arrive number w)
  unfolding arrive same_handler
  arrive-IsUntouched number w u = record {
    same = λ k. ground (arith, u.same k);
    not_trapped = λ k b. ground (arith, u.not_trapped k b);
    not_pending = λ k b. ground (arith, u.not_pending k b, u.ignoring k b);
    ignoring = λ k b. ground (arith, u.ignoring k b);
  }

  pub clear-IsUntouched :
      (i : ℕ) (w : World) → IsUntouched kernel base w → IsUntouched kernel base (clear i w)
  clear-IsUntouched i w u = record {
    same = u.same;
    not_trapped = u.not_trapped;
    not_pending = λ k b. ground (arith, u.not_pending k b);
    ignoring = u.ignoring;
  }

  preserve-IsUntouched :
      (w : World)
      → IsUntouched kernel base w
      → IsUntouched kernel base (preserve_child_ignore kernel w)
  unfolding preserve_child_ignore
  preserve-IsUntouched w u = record {
    same = λ k. ground (arith, u.same k);
    not_trapped = λ k b. ground (arith, u.not_trapped k b);
    not_pending = λ k b. ground (arith, u.not_pending k b);
    ignoring = λ k b. ground (arith, u.ignoring k b);
  }

  fork_one-IsUntouched :
      (asynchronous preserve_listing : Bool) (i : ℕ) (w : World)
      → IsUntouched kernel base w
      → IsUntouched kernel base (fork_one kernel asynchronous preserve_listing i w)
  unfolding fork_one forked_entry
  fork_one-IsUntouched asynchronous preserve_listing i w u = record {
    same = λ k. ground (arith, u.same k);
    not_trapped = λ k b. ground (arith, u.not_trapped k b);
    not_pending = λ k b. ground (arith, u.not_pending k b);
    ignoring = λ k b. ground (arith, u.ignoring k b, u.not_trapped k b);
  }

  switch_off-IsUntouched :
      (number : ℕ) (h : Handler) (w : World)
      → w.table.entry_ignored number ≡ false
      → IsUntouched kernel base w
      → IsUntouched kernel base
          (switch_off number (record w { disposition = set_at number h w.disposition }))
  unfolding switch_off
  switch_off-IsUntouched number h w free u = record {
    same = u.same;
    not_trapped = λ k b. ground (arith, u.not_trapped k b);
    not_pending = u.not_pending;
    ignoring = λ k b. ground (arith, u.ignoring k b, u.same k, free);
  }

  set_action-IsUntouched :
      (number : ℕ) (action : Bytes) (s : Session)
      → s.world.table.entry_ignored number ≡ false
      → IsUntouched kernel base s.world
      → IsUntouched kernel base (set_action kernel number action s).1.world
  unfolding set_action complain
  set_action-IsUntouched number action s free u = elim (Bool-cases (kernel.sets number)) [
    | inr e ↦ rw (e, set_action) u
    | inl e ↦
        rw (e, set_action)
          (record {
            same = u.same;
            not_trapped = λ k b. ground (arith, u.not_trapped k b, u.same k, free);
            not_pending = λ k b. ground (arith, u.not_pending k b);
            ignoring = λ k b. ground (arith, u.ignoring k b, u.same k, free);
          })
  ]

  drop_action-IsUntouched :
      (number : ℕ) (w : World)
      → IsUntouched kernel base w
      → IsUntouched kernel base (drop_action number w)
  unfolding drop_action
  drop_action-IsUntouched number w u = record {
    same = u.same;
    not_trapped = λ k b. ground (arith, u.not_trapped k b);
    not_pending = λ k b. ground (arith, u.not_pending k b);
    ignoring = u.ignoring;
  }

  if-IsUntouched :
      (b : Bool) (v w : World)
      → IsUntouched kernel base v
      → IsUntouched kernel base w
      → IsUntouched kernel base (if b then v else w)
  if-IsUntouched true v w h k = h
  if-IsUntouched false v w h k = k

  let_go-IsUntouched :
      (number : ℕ) (v : World)
      → IsUntouched kernel base v
      → IsUntouched kernel base (
          drop_action number
            (if number == kernel.sigchld then preserve_child_ignore kernel v else v))
  let_go-IsUntouched number v u =
      drop_action-IsUntouched number _
        (if-IsUntouched (number == kernel.sigchld) _ v (preserve-IsUntouched v u) u)

  stays_off-IsUntouched :
      (number : ℕ) (w : World)
      → IsUntouched kernel base w
      → IsUntouched kernel base (switch_off number w)
  unfolding switch_off
  stays_off-IsUntouched number w u = record {
    same = u.same;
    not_trapped = λ k b. ground (arith, u.not_trapped k b);
    not_pending = u.not_pending;
    ignoring = u.ignoring;
  }

  reset-IsUntouched :
      (number : ℕ) (s : Session)
      → s.world.table.entry_ignored number ≡ false
      → IsUntouched kernel base s.world
      → IsUntouched kernel base (reset kernel number s).1.world
  unfolding reset complain
  reset-IsUntouched number s free u =
      let e = s.world.table.entries number in
      elim (Bool-cases e.installed) [
        | inr off ↦
            rw (off, reset)
              (let_go-IsUntouched number (switch_off number s.world)
                (stays_off-IsUntouched number s.world u))
        | inl on ↦ elim (Bool-cases (kernel.sets number)) [
          | inr stuck ↦ rw (on, stuck, reset) u
          | inl sets ↦
              rw (on, sets, reset)
                (let_go-IsUntouched number _
                  (switch_off-IsUntouched number e.previous s.world free u))
        ]
      ]

  pub install-IsUntouched :
      (number : ℕ) (action : Option Bytes) (s : Session)
      → IsUntouched kernel base s.world
      → IsUntouched kernel base (install kernel number action s).1.world
  install-IsUntouched number action s u =
      install-by (IsUntouched kernel base) kernel number action s u
        (record {
          same = u.same;
          not_trapped = u.not_trapped;
          not_pending = u.not_pending;
          ignoring = u.ignoring;
        })
        (λ free t e.
          reset-IsUntouched number t (ap (λ w. w.table.entry_ignored number) e ∙ free)
            (subst (IsUntouched kernel base) (sym e) u))
        (λ free a t e.
          set_action-IsUntouched number a t (ap (λ w. w.table.entry_ignored number) e ∙ free)
            (subst (IsUntouched kernel base) (sym e) u))

  fork_loop-IsUntouched :
      (asynchronous preserve_listing : Bool) (n i : ℕ) (w : World)
      → IsUntouched kernel base w
      → IsUntouched kernel base (fork_loop kernel asynchronous preserve_listing n i w)
  unfolding fork_loop
  fork_loop-IsUntouched asynchronous preserve_listing zero i w u = u
  fork_loop-IsUntouched asynchronous preserve_listing (suc n) i w u =
      fork_loop-IsUntouched asynchronous preserve_listing n (suc i)
        (fork_one kernel asynchronous preserve_listing i w)
        (fork_one-IsUntouched asynchronous preserve_listing i w u)

  pub after_fork-IsUntouched :
      (asynchronous preserve_listing : Bool) (w : World)
      → IsUntouched kernel base w
      → IsUntouched kernel base (after_fork kernel asynchronous preserve_listing w)
  unfolding after_fork
  after_fork-IsUntouched asynchronous preserve_listing w u = preserve-IsUntouched _ (
      fork_loop-IsUntouched asynchronous preserve_listing (trap_limit - 1) 1 _ (record {
        same = λ k. ground (arith, u.same k);
        not_trapped = λ k b. ground (arith, u.not_trapped k b);
        not_pending = u.not_pending;
        ignoring = u.ignoring;
      }))
