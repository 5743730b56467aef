-- ===== src/Traps/Coherent.antt =====
-- The handlers of a shell process agree with its trap table.
use cshell.Prelude.{
  ℕ, zero, suc, ◌-◌, ◌≡◌, ◌⊎◌, subst, sym, Bool, true, false, Option, none, arith, ◌==◌,
  if◌then◌else◌, Bool-cases, inl, inr,
}
use cshell.Prelude.Bytes.{Bytes}
use cshell.Traps.{
  Handler, ignore, ignore_child, Kernel, World, set_at, same_handler, preserve_child_ignore,
  trap_limit,
}
use cshell.Traps.Process.{
  is_keyboard, forked_previous, forked_handler, forked_entry, fork_one, fork_loop, after_fork,
  exec_handler,
}
use cshell.Traps.Builtin.Keeps.{install-by}
use cshell.Traps.Builtin.{
  switch_off, drop_action, Session, complain, reset, handler_for, is_empty, set_action, install,
}

-- SIGCHLD is neither SIGINT nor SIGQUIT, and can be asked for and set.
pub record IsKernel (kernel : Kernel) : Type 0 where
  pub child_apart : is_keyboard kernel kernel.sigchld ≡ false
  pub asks_child : kernel.asks kernel.sigchld ≡ true
  pub sets_child : kernel.sets kernel.sigchld ≡ true

abbrev pub IsChildIgnore : Handler → Type 0
IsChildIgnore h = (h ≡ ignore) ⊎ (h ≡ ignore_child)

-- An installed entry has its handler set, and an ignore of SIGCHLD that is kept for `exec` stands
-- behind an entry or as the handler that does nothing.
pub record IsCoherent (kernel : Kernel) (w : World) : Type 0 where
  pub handled :
      (k : ℕ)
      → (w.table.entries k).installed ≡ true
      → w.disposition k ≡ exec_handler kernel true k (w.table.entries k)
  pub settable : (k : ℕ) → (w.table.entries k).installed ≡ true → kernel.sets k ≡ true
  pub child_set :
      w.table.child_ignored ≡ true
      → (w.table.entries kernel.sigchld).installed ≡ false
      → w.disposition kernel.sigchld ≡ ignore_child
  pub child_kept :
      w.table.child_ignored ≡ true
      → (w.table.entries kernel.sigchld).installed ≡ true
      → IsChildIgnore (w.table.entries kernel.sigchld).previous

-- The same, but for an ignore of SIGCHLD that is set again.
record IsLoose (kernel : Kernel) (w : World) : Type 0 where
  handled :
      (k : ℕ)
      → (w.table.entries k).installed ≡ true
      → w.disposition k ≡ exec_handler kernel true k (w.table.entries k)
  settable : (k : ℕ) → (w.table.entries k).installed ≡ true → kernel.sets k ≡ true
  child_loose :
      w.table.child_ignored ≡ true
      → (w.table.entries kernel.sigchld).installed ≡ false
      → IsChildIgnore (w.disposition kernel.sigchld)
  child_kept :
      w.table.child_ignored ≡ true
      → (w.table.entries kernel.sigchld).installed ≡ true
      → IsChildIgnore (w.table.entries kernel.sigchld).previous

loose : (kernel : Kernel) (w : World) → IsCoherent kernel w → IsLoose kernel w
loose kernel w c = record {
  handled = c.handled;
  settable = c.settable;
  child_loose = λ kept off. inr (c.child_set kept off);
  child_kept = c.child_kept;
}

module _ (kernel : Kernel) (laws : IsKernel kernel) where
  preserve-IsCoherent :
      (w : World) → IsLoose kernel w → IsCoherent kernel (preserve_child_ignore kernel w)
  unfolding preserve_child_ignore same_handler exec_handler
  preserve-IsCoherent w c = elim (Bool-cases (same_handler (w.disposition kernel.sigchld) ignore)) [
    | inr e ↦
        rw (e, laws.asks_child, preserve_child_ignore)
          (record {
            handled = c.handled;
            settable = c.settable;
            child_set = λ kept off. ground (arith, c.child_loose kept off, e);
            child_kept = c.child_kept;
          })
    | inl e ↦
        let bare : (w.table.entries kernel.sigchld).installed ≡ false =
          ground (arith, c.handled kernel.sigchld, e) in
        rw (e, laws.asks_child, laws.sets_child, preserve_child_ignore)
          (record {
            handled = λ k h. ground (arith, c.handled k, h, bare);
            settable = c.settable;
            child_set = λ h off. ground arith;
            child_kept = λ h on. absurd (ground (arith, on, bare));
          })
  ]

  fork_one-IsCoherent :
      (asynchronous preserve_listing : Bool) (i : ℕ) (w : World)
      → IsCoherent kernel w
      → IsCoherent kernel (fork_one kernel asynchronous preserve_listing i w)
  unfolding fork_one forked_previous forked_handler forked_entry exec_handler
  fork_one-IsCoherent asynchronous preserve_listing i w c =
      elim (Bool-cases (w.table.entries i).installed) [
        | inr off ↦
            rw (off, fork_one)
              (record {
                handled = c.handled;
                settable = c.settable;
                child_set = c.child_set;
                child_kept = c.child_kept;
              })
        | inl on ↦
            rw (on, fork_one)
              (record {
                handled = λ k h.
                    ground
                      (arith, c.handled k, c.handled i on, c.settable i on, h, laws.child_apart);
                settable = λ k h. ground (arith, c.settable k, c.settable i on, h);
                child_set = λ h off. ground (arith, c.child_set, c.settable i on, h, off);
                child_kept = λ h e. ground (arith, c.child_kept, c.settable i on, h, e);
              })
      ]

  fork_loop-IsCoherent :
      (asynchronous preserve_listing : Bool) (n i : ℕ) (w : World)
      → IsCoherent kernel w
      → IsCoherent kernel (fork_loop kernel asynchronous preserve_listing n i w)
  unfolding fork_loop
  fork_loop-IsCoherent asynchronous preserve_listing zero i w c = c
  fork_loop-IsCoherent asynchronous preserve_listing (suc n) i w c =
      fork_loop-IsCoherent asynchronous preserve_listing n (suc i)
        (fork_one kernel asynchronous preserve_listing i w)
        (fork_one-IsCoherent asynchronous preserve_listing i w c)

  pub after_fork-IsCoherent :
      (asynchronous preserve_listing : Bool) (w : World)
      → IsCoherent kernel w
      → IsCoherent kernel (after_fork kernel asynchronous preserve_listing w)
  unfolding after_fork
  after_fork-IsCoherent asynchronous preserve_listing w c = preserve-IsCoherent _ (
      loose kernel _ (
        fork_loop-IsCoherent asynchronous preserve_listing (trap_limit - 1) 1 _
          (started preserve_listing)))
    where
      started :
          (kept : Bool)
          → IsCoherent kernel (record w {
            active = true;
            table =
                if kept
                then record w.table { exit_inherited = true }
                else record w.table { exit_action = none };
          })
      started true = record {
        handled = c.handled;
        settable = c.settable;
        child_set = c.child_set;
        child_kept = c.child_kept;
      }
      started false = record {
        handled = c.handled;
        settable = c.settable;
        child_set = c.child_set;
        child_kept = c.child_kept;
      }

  set_action-IsCoherent :
      (number : ℕ) (action : Bytes) (s : Session)
      → IsCoherent kernel s.world
      → IsCoherent kernel (set_action kernel number action s).1.world
  unfolding set_action complain handler_for is_empty exec_handler
  set_action-IsCoherent number action s c = elim (Bool-cases (kernel.sets number)) [
    | inr e ↦ rw (e, set_action) c
    | inl e ↦
        rw (e, set_action)
          (record {
            handled = λ k h. ground (arith, c.handled k, h);
            settable = λ k h. ground (arith, c.settable k, e, h);
            child_set = λ h off. ground (arith, c.child_set, h, off);
            child_kept = λ h on. ground (arith, c.child_set, c.child_kept, h, on);
          })
  ]

  drop_action-IsCoherent :
      (number : ℕ) (w : World) → IsCoherent kernel w → IsCoherent kernel (drop_action number w)
  unfolding drop_action exec_handler
  drop_action-IsCoherent number w c = record {
    handled = λ k on. ground (arith, c.handled k, on);
    settable = λ k on. ground (arith, c.settable k, on);
    child_set = λ kept off. ground (arith, c.child_set, kept, off);
    child_kept = λ kept on. ground (arith, c.child_kept, kept, on);
  }

  -- An entry that is off, with the handler `h` in its place.
  abbrev off_to : ℕ → Handler → World → World
  off_to number h w = switch_off number (record w { disposition = set_at number h w.disposition })

  switch_off-IsLoose :
      (number : ℕ) (h : Handler) (w : World)
      → IsCoherent kernel w
      → (number ≡ kernel.sigchld → w.table.child_ignored ≡ true → IsChildIgnore h)
      → IsLoose kernel (off_to number h w)
  unfolding switch_off exec_handler
  switch_off-IsLoose number h w c safe = record {
    handled = λ k on. ground (arith, c.handled k, on);
    settable = λ k on. ground (arith, c.settable k, on);
    child_loose = λ kept off. ground (arith, c.child_set, safe, kept, off);
    child_kept = λ kept on. ground (arith, c.child_kept, kept, on);
  }

  -- An entry that was off already.
  stays_off-IsLoose :
      (number : ℕ) (w : World)
      → IsCoherent kernel w
      → (w.table.entries number).installed ≡ false
      → IsLoose kernel (switch_off number w)
  unfolding switch_off exec_handler
  stays_off-IsLoose number w c out = record {
    handled = λ k on. ground (arith, c.handled k, on);
    settable = λ k on. ground (arith, c.settable k, on);
    child_loose = λ kept off. ground (arith, c.child_set, out, kept, off);
    child_kept = λ kept on. ground (arith, c.child_kept, kept, on);
  }

  unless_child-IsCoherent :
      (number : ℕ) (v : World)
      → IsLoose kernel v
      → (number == kernel.sigchld ≡ false
          → v.table.child_ignored ≡ true
          → (v.table.entries kernel.sigchld).installed ≡ false
          → v.disposition kernel.sigchld ≡ ignore_child)
      → IsCoherent kernel (if number == kernel.sigchld then preserve_child_ignore kernel v else v)
  unless_child-IsCoherent number v l apart = elim (Bool-cases (number == kernel.sigchld)) [
    | inl e ↦ rw e (preserve-IsCoherent v l)
    | inr e ↦ rw e (record {
      handled = l.handled;
      settable = l.settable;
      child_set = apart e;
      child_kept = l.child_kept;
    })
  ]

  reset-IsCoherent :
      (number : ℕ) (s : Session)
      → IsCoherent kernel s.world
      → IsCoherent kernel (reset kernel number s).1.world
  unfolding reset complain
  reset-IsCoherent number s c =
      let e = s.world.table.entries number in
      elim (Bool-cases e.installed) [
        | inr off ↦
            rw (off, reset)
              (drop_action-IsCoherent number _ (
                unless_child-IsCoherent number (switch_off number s.world)
                  (stays_off-IsLoose number s.world c off)
                  (λ apart kept bare.
                    unfold switch_off in ground (arith, c.child_set, apart, kept, bare))))
        | inl on ↦
            rw (on, c.settable number on, reset)
              (drop_action-IsCoherent number _ (
                unless_child-IsCoherent number (off_to number e.previous s.world)
                  (switch_off-IsLoose number e.previous s.world c
                    (λ same kept. ground (arith, same, c.child_kept kept, on)))
                  (λ apart kept bare.
                    unfold switch_off in ground (arith, c.child_set, apart, kept, bare))))
      ]

  pub install-IsCoherent :
      (number : ℕ) (action : Option Bytes) (s : Session)
      → IsCoherent kernel s.world
      → IsCoherent kernel (install kernel number action s).1.world
  install-IsCoherent number action s c =
      install-by (IsCoherent kernel) kernel number action s c
        (record {
          handled = c.handled;
          settable = c.settable;
          child_set = c.child_set;
          child_kept = c.child_kept;
        })
        (λ i t e. reset-IsCoherent number t (subst (IsCoherent kernel) (sym e) c))
        (λ i a t e. set_action-IsCoherent number a t (subst (IsCoherent kernel) (sym e) c))
