-- ===== src/Traps/Process.antt =====
-- The trap table across `fork` and `exec`: `csh_traps_after_fork` and `csh_traps_exec_signals`.
use cshell.Prelude.{
  ℕ, zero, suc, ◌-◌, Bool, true, false, not, ◌&&◌, ◌||◌, none, ◌==◌, if◌then◌else◌,
}
use cshell.Traps.{
  Handler, by_default, ignore, record_signal, ignore_child, Kernel, Entry, Traps, World,
  same_handler, sigaction, clear, with_entry, preserve_child_ignore, trap_limit,
}

abbrev pub is_keyboard : Kernel → ℕ → Bool
is_keyboard kernel i = i == kernel.sigint || i == kernel.sigquit

-- What an ignored action is reset to, in the child.
unfoldable pub forked_previous : Kernel → Bool → ℕ → Traps → Handler
forked_previous kernel asynchronous i t =
    let ignored = t.original_ignored i || (asynchronous && is_keyboard kernel i) in
    if ignored then ignore else if i == kernel.sigchld then (t.entries i).previous else by_default

-- The handler of an installed entry in the child.
unfoldable pub forked_handler : Kernel → Bool → ℕ → Entry → Handler
forked_handler kernel asynchronous i e =
    if asynchronous && is_keyboard kernel i
    then ignore
    else if e.ignored
    then (if i == kernel.sigchld then ignore_child else ignore)
    else by_default

unfoldable pub forked_entry : Kernel → Bool → Bool → ℕ → Traps → Entry
forked_entry kernel asynchronous preserve_listing i t =
    let e = t.entries i in
    if e.ignored
    then record e { previous = forked_previous kernel asynchronous i t }
    else record e { action = if preserve_listing then e.action else none; installed = false }

-- One round of the loop of `csh_traps_after_fork`.
unfoldable pub fork_one : Kernel → Bool → Bool → ℕ → World → World
fork_one kernel asynchronous preserve_listing i w =
    let t = w.table in
    let e = t.entries i in
    let reset = not e.ignored && i == kernel.sigchld in
    let w' = (sigaction kernel i (forked_handler kernel asynchronous i e) (clear i w)).1 in
    if e.installed
    then record w' {
      table = record (with_entry i (forked_entry kernel asynchronous preserve_listing i t) t) {
        child_ignored = if reset then false else t.child_ignored;
      };
    }
    else clear i w

unfoldable pub fork_loop : Kernel → Bool → Bool → ℕ → ℕ → World → World
fork_loop kernel asynchronous preserve_listing zero i w = w
fork_loop kernel asynchronous preserve_listing (suc n) i w =
    fork_loop kernel asynchronous preserve_listing n (suc i)
      (fork_one kernel asynchronous preserve_listing i w)

-- `csh_traps_after_fork`.
unfoldable pub after_fork : Kernel → Bool → Bool → World → World
after_fork kernel asynchronous preserve_listing w =
    let t = w.table in
    let start : World = record w {
      active = true;
      table =
          if preserve_listing
          then record t { exit_inherited = true }
          else record t { exit_action = none };
    } in
    preserve_child_ignore kernel
      (fork_loop kernel asynchronous preserve_listing (trap_limit - 1) 1 start)

-- The handler of an installed entry, in the program that is called or back in the shell.
unfoldable pub exec_handler : Kernel → Bool → ℕ → Entry → Handler
exec_handler kernel recover i e =
    if e.ignored
    then (if recover && i == kernel.sigchld then ignore_child else ignore)
    else (if recover then record_signal else by_default)

-- One round of the loop of `csh_traps_exec_signals`.
unfoldable pub exec_one : Kernel → Bool → ℕ → World → World
exec_one kernel recover i w =
    let e = w.table.entries i in
    if not e.installed
    then (if i == kernel.sigchld && w.table.child_ignored
        then (sigaction kernel i (if recover then ignore_child else ignore) w).1
        else w)
    else if not recover
        && is_keyboard kernel i
        && kernel.asks i
        && same_handler (w.disposition i) ignore
    then w
    else (sigaction kernel i (exec_handler kernel recover i e) w).1

unfoldable pub exec_loop : Kernel → Bool → ℕ → ℕ → World → World
exec_loop kernel recover zero i w = w
exec_loop kernel recover (suc n) i w =
    exec_loop kernel recover n (suc i) (exec_one kernel recover i w)

-- `csh_traps_exec_signals`.
unfoldable pub exec_signals : Kernel → Bool → World → World
exec_signals kernel recover w = exec_loop kernel recover (trap_limit - 1) 1 w
