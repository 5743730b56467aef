-- ===== src/Tests/TrapTable.antt =====
-- Runs of the trap table, and its theorems at concrete signals.
use cshell.Prelude.{
  ◌≡◌, refl, true, false, not, ◌&&◌, ◌||◌, none, some, [], ◌∷◌, arith, ◌==◌, leb, if◌then◌else◌,
}
use cshell.Prelude.Bytes.{Bytes, codes}
use cshell.Prelude.Int.{pos}
use cshell.Prelude.Memory.{allocate}
use cshell.Prelude.Stream.{ready}
use cshell.Jobs.Signals.{Host}
use cshell.Traps.{
  by_default, ignore, record_signal, Kernel, Entry, World, no_entry, no_traps, create, take,
  take_loop, took, set_at, trap_limit, arrive,
}
use cshell.Traps.Process.{after_fork, exec_signals}
use cshell.Traps.Builtin.{Session, builtin_trap}
use cshell.Traps.Drain.{drain, IsDrained, drain-due}
use cshell.Traps.Coherent.{IsKernel}
use cshell.Traps.Ignored.{IsIgnoring}
use cshell.Traps.Steps.{Reach, here, more, arrived, trapped, forked}
use cshell.Traps.Steps.Start.{entry_ignored-kept, Reach-recover}

-- The numbers of Linux; `strtol` is asked for 1 alone.
abbrev linux : Kernel
linux = record {
  sigint = 2;
  sigquit = 3;
  sigchld = 17;
  sigkill = 9;
  sigstop = 19;
  asks = λ i. leb 1 i && leb i 64;
  sets = λ i. leb 1 i && leb i 64 && not (i == 9 || i == 19);
  strtol = λ t. elim t [ [] ↦ none | c ∷ cs ↦ if c == b'1' then some (pos 1) else none ];
}

linux-IsKernel : IsKernel linux
linux-IsKernel = record { child_apart = refl; asks_child = refl; sets_child = refl }

abbrev some_host : Host
some_host = record {
  sig = λ n. 15;
  defines = λ n. true;
  supports = λ n. leb n 64;
  strsignal = λ n. codes "Terminated";
}

abbrev trapped_entry : Bytes → Entry
trapped_entry a = record {
  action = some a;
  previous = by_default;
  installed = true;
  ignored = false;
}

-- INT and TERM have actions, and are pending; so is USR1, without an action.
abbrev busy : World
busy = record {
  table = record no_traps {
    entries =
        set_at 15 (trapped_entry (codes "bye"))
          (set_at 2 (trapped_entry (codes "hi")) (λ i. no_entry));
  };
  active = true;
  pending = λ i. i == 2 || i == 10 || i == 15;
  disposition = set_at 15 record_signal (set_at 2 record_signal (λ i. by_default));
}

drain-due_example : IsDrained busy (drain trap_limit busy)
drain-due_example = drain-due busy

take_first : (take [] busy).0 ≡ took 2 (codes "hi")
unfolding take take_loop allocate
take_first = refl

-- A shell that is started by `nohup`.
abbrev nohup : World
nohup = record {
  table = no_traps;
  active = false;
  pending = λ i. false;
  disposition = λ i. if i == 1 then ignore else by_default;
}

abbrev first : World
first = (create linux false [] nohup).1

first_created : create linux false [] nohup ≡ (true, first, [])
unfolding create allocate
first_created = refl

-- The shell is told `trap x 1`, receives SIGHUP and forks.
abbrev session : Session
session = record { world = first; out = ready []; err_text = []; memory = [] }

abbrev told : World
told = (builtin_trap some_host linux (codes "x" ∷ codes "1" ∷ []) session).1.world

run : Reach some_host linux first (after_fork linux false false (arrive 1 told))
run =
    more first (arrive 1 told) _
      (more first told _
        (more first first _ (here first) (trapped (codes "x" ∷ codes "1" ∷ []) session))
        (arrived 1 told))
      (forked false false (arrive 1 told))

entry_ignored-kept_example :
    IsIgnoring linux 1 ((after_fork linux false false (arrive 1 told)).disposition 1)
    × (((after_fork linux false false (arrive 1 told)).table.entries 1).installed ≡ false)
    × ((after_fork linux false false (arrive 1 told)).pending 1 ≡ false)
entry_ignored-kept_example =
    entry_ignored-kept some_host linux [] [] nohup first
      (after_fork linux false false (arrive 1 told)) 1 linux-IsKernel first_created run
      (omega arith) (omega arith) refl refl

Reach-recover_example :
    let later = after_fork linux false false (arrive 1 told) in
    let back = exec_signals linux true (exec_signals linux false later) in
    (back.disposition 1 ≡ later.disposition 1)
    × (back.table ≡ later.table)
    × (back.pending ≡ later.pending)
Reach-recover_example =
    Reach-recover some_host linux false [] [] nohup first
      (after_fork linux false false (arrive 1 told)) 1 linux-IsKernel first_created run
