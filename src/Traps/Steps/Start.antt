-- ===== src/Traps/Steps/Start.antt =====
-- Every run of a trap table, from `csh_traps_create` on.
use cshell.Prelude.{
  ℕ, zero, suc, ◌+◌, ◌<◌, ◌≡◌, refl, subst, sym, Bool, true, false, ◌&&◌, ◌||◌, arith, ltb, leb,
  ◌==◌, inl,
}
use cshell.Prelude.Memory.{Memory}
use cshell.Jobs.Signals.{Host}
use cshell.Traps.{
  ignore, Kernel, World, no_traps, same_handler, trap_limit, create_one, create_loop, create,
}
use cshell.Traps.Process.{exec_signals}
use cshell.Traps.Coherent.{IsKernel}
use cshell.Traps.Exec.{exec_signals-recover}
use cshell.Traps.Ignored.{IsIgnoring}
use cshell.Traps.Steps.{Reach}
use cshell.Traps.Steps.Sound.{IsSound, runs-IsSound}

-- A table that `csh_traps_create` fills: no entry is installed, and the signals that it names as
-- ignored on entry are ignored and not pending.
record IsNew (kernel : Kernel) (w : World) : Type 0 where
  bare : (k : ℕ) → (w.table.entries k).installed ≡ false
  not_kept : w.table.child_ignored ≡ false
  named :
      (k : ℕ) → w.table.entry_ignored k ≡ true → (w.disposition k ≡ ignore) × (w.pending k ≡ false)

create_one-IsNew :
    (kernel : Kernel) (interactive : Bool) (i : ℕ) (w : World)
    → IsNew kernel w
    → IsNew kernel (create_one kernel interactive i w)
unfolding create_one same_handler
create_one-IsNew kernel interactive i w n = record {
  bare = λ k. ground (arith, n.bare k);
  not_kept = ground (arith, n.not_kept);
  named = λ k h. ground (arith, n.named k, h);
}

create_loop-IsNew :
    (kernel : Kernel) (interactive : Bool) (n i : ℕ) (w : World)
    → IsNew kernel w
    → IsNew kernel (create_loop kernel interactive n i w)
unfolding create_loop
create_loop-IsNew kernel interactive zero i w h = h
create_loop-IsNew kernel interactive (suc n) i w h =
    create_loop-IsNew kernel interactive n (suc i) (create_one kernel interactive i w)
      (create_one-IsNew kernel interactive i w h)

-- The loop names each signal that it meets as ignored, in a shell that is not interactive.
create_one-names :
    (kernel : Kernel) (i k : ℕ) (w : World)
    → ((create_one kernel false i w).disposition k ≡ w.disposition k)
      × ((create_one kernel false i w).table.entry_ignored k ≡ (
          w.table.entry_ignored k
          || (k == i && ltb 0 k && kernel.asks k && same_handler (w.disposition k) ignore)))
unfolding create_one
create_one-names kernel i k w = ground arith

create_loop-names :
    (kernel : Kernel) (n i k : ℕ) (w : World)
    → (create_loop kernel false n i w).table.entry_ignored k ≡ (
        w.table.entry_ignored k
        || (leb i k
            && ltb k (i + n)
            && ltb 0 k
            && kernel.asks k
            && same_handler (w.disposition k) ignore))
unfolding create_loop
create_loop-names kernel zero i k w = ground arith
create_loop-names kernel (suc n) i k w = ground (
  arith,
  create_one-names kernel i k w,
  create_loop-names kernel n (suc i) k (create_one kernel false i w),
)

started-IsNew :
    (kernel : Kernel) (interactive : Bool) (w : World)
    → IsNew kernel
        (record (create_loop kernel interactive trap_limit 0 (record w { table = no_traps })) {
          active = true;
        })
started-IsNew kernel interactive w =
    let start : World = record w { table = no_traps } in
    let n =
      create_loop-IsNew kernel interactive trap_limit 0 start
        (record { bare = λ k. refl; not_kept = refl; named = λ k h. absurd (ground (arith, h)) }) in
    record { bare = n.bare; not_kept = n.not_kept; named = n.named }

-- The world that a successful `create` leaves.
unfoldable started : Kernel → Bool → World → World
started kernel interactive w =
    record (create_loop kernel interactive trap_limit 0 (record w { table = no_traps })) {
      active = true;
    }

create-started :
    (kernel : Kernel) (interactive : Bool) (m m' : Memory) (w w' : World)
    → create kernel interactive m w ≡ (true, w', m')
    → w' ≡ started kernel interactive w
unfolding create started
create-started kernel interactive m m' w w' h = ground (arith, h)

new-IsSound :
    (kernel : Kernel) (w : World) → IsNew kernel w → IsSound kernel w.table.entry_ignored w
new-IsSound kernel w n = record {
  coherent = record {
    handled = λ k on. absurd (ground (arith, n.bare k, on));
    settable = λ k on. absurd (ground (arith, n.bare k, on));
    child_set = λ kept off. absurd (ground (arith, n.not_kept, kept));
    child_kept = λ kept on. absurd (ground (arith, n.not_kept, kept));
  };
  untouched = record {
    same = λ k. refl;
    not_trapped = λ k b. n.bare k;
    not_pending = λ k b. (n.named k b).1;
    ignoring = λ k b. inl (n.named k b).0;
  };
}

started_runs-IsSound :
    (host : Host) (kernel : Kernel) (interactive : Bool) (m m' : Memory) (start first later : World)
    → IsKernel kernel
    → create kernel interactive m start ≡ (true, first, m')
    → Reach host kernel first later
    → IsSound kernel first.table.entry_ignored later
unfolding started
started_runs-IsSound host kernel interactive m m' start first later laws made way =
    runs-IsSound host kernel laws first.table.entry_ignored first later way (
      new-IsSound kernel first (
        subst (IsNew kernel) (sym (create-started kernel interactive m m' start first made))
          (started-IsNew kernel interactive start)))

-- A signal from 1 to 127 that is ignored when the table of a shell that is not interactive is created
-- stays so, whatever signals arrive, whatever `trap` is told, whatever is taken, in each child that
-- is forked and past an `exec` that fails: it is ignored (SIGCHLD perhaps by a handler that does
-- nothing), not trapped and not pending.
pub entry_ignored-kept :
    (host : Host) (kernel : Kernel) (m m' : Memory) (start first later : World) (k : ℕ)
    → IsKernel kernel
    → create kernel false m start ≡ (true, first, m')
    → Reach host kernel first later
    → 0 < k
    → k < trap_limit
    → kernel.asks k ≡ true
    → start.disposition k ≡ ignore
    → IsIgnoring kernel k (later.disposition k)
      × ((later.table.entries k).installed ≡ false)
      × (later.pending k ≡ false)
unfolding started same_handler
entry_ignored-kept host kernel m m' start first later k laws made way low high asks ignored =
    let s = started_runs-IsSound host kernel false m m' start first later laws made way in
    let named : first.table.entry_ignored k ≡ true = ground (
      arith,
      create-started kernel false m m' start first made,
      create_loop-names kernel trap_limit 0 k (record start { table = no_traps }),
      low,
      high,
      asks,
      ignored,
    ) in
    (s.untouched.ignoring k named, s.untouched.not_trapped k named, s.untouched.not_pending k named)

-- In every run of a shell's table, `csh_traps_exec_signals` before an `exec` and again when that has
-- failed leaves each signal with the handler that it had, the table and the pending signals the same.
pub Reach-recover :
    (host : Host) (kernel : Kernel) (interactive : Bool) (m m' : Memory) (start first later : World)
    (k : ℕ)
    → IsKernel kernel
    → create kernel interactive m start ≡ (true, first, m')
    → Reach host kernel first later
    → let back = exec_signals kernel true (exec_signals kernel false later) in
      (back.disposition k ≡ later.disposition k)
      × (back.table ≡ later.table)
      × (back.pending ≡ later.pending)
Reach-recover host kernel interactive m m' start first later k laws made way =
    exec_signals-recover kernel later k
      (started_runs-IsSound host kernel interactive m m' start first later laws made way).coherent
