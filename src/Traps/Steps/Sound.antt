-- ===== src/Traps/Steps/Sound.antt =====
-- What every run of a trap table keeps.
use cshell.Prelude.{
  ℕ, zero, suc, ◌-◌, ◌≡◌, subst, sym, ap, Bool, arith, Bool-cases, Option-cases, inl, inr,
}
use cshell.Prelude.Memory.{Memory, allocate}
use cshell.Jobs.Signals.{Host}
use cshell.Traps.{Kernel, World, clear, trap_limit, arrive, take_loop, take}
use cshell.Traps.Builtin.Keeps.{builtin_trap-keeps}
use cshell.Traps.Coherent.{IsKernel, IsCoherent, after_fork-IsCoherent, install-IsCoherent}
use cshell.Traps.Exec.{exec_signals-recover}
use cshell.Traps.Ignored.{
  IsIgnoring, IsUntouched, arrive-IsUntouched, clear-IsUntouched, install-IsUntouched,
  after_fork-IsUntouched,
}
use cshell.Traps.Steps.{Step, arrived, taken, trapped, forked, exec_failed, Reach, here, more}

-- A call of `csh_traps_take` clears signals.
take_loop-keeps :
    (P : World → Type 0)
    → ((i : ℕ) (w : World) → P w → P (clear i w))
    → (n i : ℕ) (m : Memory) (w : World) → P w
    → P (take_loop n i m w).1
unfolding take_loop
take_loop-keeps P clears zero i m w p = p
take_loop-keeps P clears (suc n) i m w p = elim (Bool-cases (w.pending i)) [
  | inr off ↦
      let same : take_loop n (suc i) m w ≡ take_loop (suc n) i m w = ground (arith, off) in
      subst (λ r. P r.1) same (take_loop-keeps P clears n (suc i) m w p)
  | inl on ↦ elim (Option-cases (w.table.entries i).action) [
    | inl bare ↦
        let same : take_loop n (suc i) m (clear i w) ≡ take_loop (suc n) i m w =
          ground (arith, on, bare) in
        subst (λ r. P r.1) same (take_loop-keeps P clears n (suc i) m (clear i w) (clears i w p))
    | inr (a, has) ↦ elim (Bool-cases (allocate m).0) [
      | inl got ↦
          let same : clear i w ≡ (take_loop (suc n) i m w).1 = ground (arith, on, has, got) in
          subst P same (clears i w p)
      | inr lost ↦
          let same : w ≡ (take_loop (suc n) i m w).1 = ground (arith, on, has, lost) in
          subst P same p
    ]
  ]
]

-- A table that agrees with the handlers, and leaves alone the signals of `base`.
pub record IsSound (kernel : Kernel) (base : ℕ → Bool) (w : World) : Type 0 where
  pub coherent : IsCoherent kernel w
  pub untouched : IsUntouched kernel base w

module _ (host : Host) (kernel : Kernel) (laws : IsKernel kernel) (base : ℕ → Bool) where
  clear-IsSound : (i : ℕ) (w : World) → IsSound kernel base w → IsSound kernel base (clear i w)
  clear-IsSound i w s = record {
    coherent = record {
      handled = s.coherent.handled;
      settable = s.coherent.settable;
      child_set = s.coherent.child_set;
      child_kept = s.coherent.child_kept;
    };
    untouched = clear-IsUntouched kernel base i w s.untouched;
  }

  arrive-IsCoherent :
      (number : ℕ) (w : World) → IsCoherent kernel w → IsCoherent kernel (arrive number w)
  unfolding arrive
  arrive-IsCoherent number w c = record {
    handled = λ k h. ground (arith, c.handled k, h);
    settable = λ k h. ground (arith, c.settable k, h);
    child_set = λ h k. ground (arith, c.child_set, h, k);
    child_kept = λ h k. ground (arith, c.child_kept, h, k);
  }

  -- Another world of the same table, pending signals and handlers.
  same-IsSound :
      (w w' : World)
      → ((k : ℕ) → w'.disposition k ≡ w.disposition k)
      → w'.table ≡ w.table
      → w'.pending ≡ w.pending
      → IsSound kernel base w
      → IsSound kernel base w'
  same-IsSound w w' h t p s =
      let c = s.coherent in
      let u = s.untouched in
      record {
        coherent = record {
          handled = λ k on. ground (arith, t, h k, c.handled k, on);
          settable = λ k on. ground (arith, t, c.settable k, on);
          child_set = λ kept off. ground (arith, t, h kernel.sigchld, c.child_set, kept, off);
          child_kept = λ kept on. ground (arith, t, c.child_kept, kept, on);
        };
        untouched = record {
          same = λ k. ground (arith, t, u.same k);
          not_trapped = λ k b. ground (arith, t, u.not_trapped k b);
          not_pending = λ k b. ground (arith, ap (λ f. f k) p, u.not_pending k b);
          ignoring = λ k b. subst (IsIgnoring kernel k) (sym (h k)) (u.ignoring k b);
        };
      }

  Step-IsSound :
      (before after : World)
      → Step host kernel before after
      → IsSound kernel base before
      → IsSound kernel base after
  unfolding take
  Step-IsSound _ _ (arrived number w) s = record {
    coherent = arrive-IsCoherent number w s.coherent;
    untouched = arrive-IsUntouched kernel base number w s.untouched;
  }
  Step-IsSound _ _ (taken m w) s =
      take_loop-keeps (IsSound kernel base) clear-IsSound (trap_limit - 1) 1 m w s
  Step-IsSound _ _ (trapped operands s) i =
      builtin_trap-keeps (IsSound kernel base) host kernel
        (λ number action t p. record {
          coherent = install-IsCoherent kernel laws number action t p.coherent;
          untouched = install-IsUntouched kernel base number action t p.untouched;
        })
        operands s i
  Step-IsSound _ _ (forked asynchronous preserve_listing w) s = record {
    coherent = after_fork-IsCoherent kernel laws asynchronous preserve_listing w s.coherent;
    untouched = after_fork-IsUntouched kernel base asynchronous preserve_listing w s.untouched;
  }
  Step-IsSound _ _ (exec_failed w) s =
      let back = exec_signals-recover kernel w 0 s.coherent in
      same-IsSound w _ (λ k. (exec_signals-recover kernel w k s.coherent).0) back.1 back.2 s

  pub runs-IsSound :
      (first later : World)
      → Reach host kernel first later
      → IsSound kernel base first
      → IsSound kernel base later
  runs-IsSound _ _ (here w) s = s
  runs-IsSound _ _ (more first before after way step) s =
      Step-IsSound before after step (runs-IsSound first before way s)
