-- ===== src/Traps/Exec.antt =====
-- `csh_traps_exec_signals` before an `exec`, and back in the shell if that fails.
use cshell.Prelude.{
  ℕ, zero, suc, ◌+◌, ◌-◌, ◌≡◌, refl, ◌∙◌, Bool, true, false, not, ◌&&◌, arith, ltb, leb, ◌==◌,
  if◌then◌else◌, Bool-cases, inl, inr,
}
use cshell.Traps.{Handler, ignore, ignore_child, Kernel, Traps, World, same_handler, trap_limit}
use cshell.Traps.Process.{is_keyboard, exec_handler, exec_one, exec_loop, exec_signals}
use cshell.Traps.Coherent.{IsCoherent}

-- The handler of signal `k` behind the round for it, where it was `h`.
unfoldable exec_at : Kernel → Bool → Traps → ℕ → Handler → Handler
exec_at kernel recover t k h =
    let e = t.entries k in
    if not e.installed
    then (if k == kernel.sigchld && t.child_ignored && kernel.sets k
        then (if recover then ignore_child else ignore)
        else h)
    else if not recover && is_keyboard kernel k && kernel.asks k && same_handler h ignore
    then h
    else if kernel.sets k
    then exec_handler kernel recover k e
    else h

-- A round changes one handler, and nothing else.
record Hands (kernel : Kernel) (recover : Bool) (n i : ℕ) (w w' : World) : Type 0 where
  handlers :
      (k : ℕ)
      → w'.disposition k ≡ (
          if leb i k && ltb k (i + n)
          then exec_at kernel recover w.table k (w.disposition k)
          else w.disposition k)
  same_table : w'.table ≡ w.table
  same_pending : w'.pending ≡ w.pending

exec_one-Hands :
    (kernel : Kernel) (recover : Bool) (i : ℕ) (w : World)
    → Hands kernel recover 1 i w (exec_one kernel recover i w)
unfolding exec_one exec_at
exec_one-Hands kernel recover i w = record {
  handlers = λ k. ground arith;
  same_table = ground arith;
  same_pending = ground arith;
}

exec_loop-Hands :
    (kernel : Kernel) (recover : Bool) (n i : ℕ) (w : World)
    → Hands kernel recover n i w (exec_loop kernel recover n i w)
unfolding exec_loop
exec_loop-Hands kernel recover zero i w = record {
  handlers = λ k. ground arith;
  same_table = refl;
  same_pending = refl;
}
exec_loop-Hands kernel recover (suc n) i w =
    let one = exec_one-Hands kernel recover i w in
    let rest = exec_loop-Hands kernel recover n (suc i) (exec_one kernel recover i w) in
    record {
      handlers = λ k. ground (arith, rest.handlers k, one.handlers k, one.same_table);
      same_table = rest.same_table ∙ one.same_table;
      same_pending = rest.same_pending ∙ one.same_pending;
    }

exec_at-recover :
    (kernel : Kernel) (w : World) (k : ℕ)
    → IsCoherent kernel w
    → exec_at kernel true w.table k (exec_at kernel false w.table k (w.disposition k))
      ≡ w.disposition k
unfolding exec_at exec_handler same_handler
exec_at-recover kernel w k c = elim (Bool-cases (w.table.entries k).installed) [
  | inl on ↦ ground (arith, on, c.handled k on, c.settable k on)
  | inr off ↦ ground (arith, off, c.child_set)
]

-- What `exec` undoes comes back: on a coherent table.
pub exec_signals-recover :
    (kernel : Kernel) (w : World) (k : ℕ)
    → IsCoherent kernel w
    → let w' = exec_signals kernel true (exec_signals kernel false w) in
      (w'.disposition k ≡ w.disposition k) × (w'.table ≡ w.table) × (w'.pending ≡ w.pending)
unfolding exec_signals
exec_signals-recover kernel w k c =
    let out = exec_loop-Hands kernel false (trap_limit - 1) 1 w in
    let back = exec_loop-Hands kernel true (trap_limit - 1) 1 (exec_signals kernel false w) in
    (
      ground (arith, back.handlers k, out.handlers k, out.same_table, exec_at-recover kernel w k c),
      back.same_table ∙ out.same_table,
      back.same_pending ∙ out.same_pending,
    )
