-- ===== src/Traps/Steps.antt =====
-- The runs of a trap table: what happens to it and the signals, one step after another.
pub mod Sound
pub mod Start
use cshell.Prelude.{ℕ, Bool, true, false, Option, none, some, List, ◌≡◌}
use cshell.Prelude.Bytes.{Bytes}
use cshell.Prelude.Memory.{Memory}
use cshell.Jobs.Signals.{Host}
use cshell.Traps.{Kernel, World, arrive, take}
use cshell.Traps.Process.{after_fork, exec_signals}
use cshell.Traps.Builtin.{Session, builtin_trap}

pub data Step (host : Host) (kernel : Kernel) : World → World → Type 0 where
  arrived : (number : ℕ) (w : World) → Step host kernel w (arrive number w)
  taken : (m : Memory) (w : World) → Step host kernel w (take m w).1
  trapped :
      (operands : List Bytes) (s : Session)
      → Step host kernel s.world (builtin_trap host kernel operands s).1.world
  forked :
      (asynchronous preserve_listing : Bool) (w : World)
      → Step host kernel w (after_fork kernel asynchronous preserve_listing w)
  exec_failed :
      (w : World) → Step host kernel w (exec_signals kernel true (exec_signals kernel false w))

pub data Reach (host : Host) (kernel : Kernel) : World → World → Type 0 where
  here : (w : World) → Reach host kernel w w
  more :
      (first before after : World)
      → Reach host kernel first before
      → Step host kernel before after
      → Reach host kernel first after
