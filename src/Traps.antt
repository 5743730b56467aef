-- ===== src/Traps.antt =====
-- src/traps.c: the trap table of a shell process, with the signals that the process has pending and
-- the handlers it has set. The masks and flags of a disposition are not modelled.
pub mod Process
pub mod Builtin
pub mod Drain
pub mod Coherent
pub mod Exec
pub mod Ignored
pub mod Steps
use cshell.Prelude.{
  ℕ, zero, suc, Bool, true, false, not, ◌&&◌, ◌||◌, ◌-◌, Option, none, some, ltb, leb, ◌==◌,
  if◌then◌else◌,
}
use cshell.Prelude.Bytes.{Bytes}
use cshell.Prelude.Int.{ℤ}
use cshell.Prelude.Memory.{Memory, allocate}

-- `sa_handler`: SIG_DFL, SIG_IGN, the two handlers of the file, or one of another file.
pub data Handler : Type 0 where
  by_default ignore record_signal ignore_child : Handler
  other : ℕ → Handler

-- What the system gives: the numbers of the signals that the file names, whether `sigaction` answers
-- for a number, whether it sets one, and `strtol` in base 10, where it reads all of a text that is
-- not empty and does not overflow.
pub record Kernel : Type 0 where
  pub sigint : ℕ
  pub sigquit : ℕ
  pub sigchld : ℕ
  pub sigkill : ℕ
  pub sigstop : ℕ
  pub asks : ℕ → Bool
  pub sets : ℕ → Bool
  pub strtol : Bytes → Option ℤ

-- TRAP_LIMIT.
abbrev pub trap_limit : ℕ
trap_limit = 128

-- `struct trap_entry`.
pub record Entry : Type 0 where
  pub action : Option Bytes
  pub previous : Handler
  pub installed : Bool
  pub ignored : Bool

-- `struct csh_traps`.
pub record Traps : Type 0 where
  pub entries : ℕ → Entry
  pub exit_action : Option Bytes
  pub exit_inherited : Bool
  pub child_ignored : Bool
  pub entry_ignored : ℕ → Bool
  pub original_ignored : ℕ → Bool

-- The table, `active != NULL`, `pending`, and what `sigaction` tells of each signal.
pub record World : Type 0 where
  pub table : Traps
  pub active : Bool
  pub pending : ℕ → Bool
  pub disposition : ℕ → Handler

module _ {ℓ} {A : Type ℓ} where
  abbrev pub set_at : ℕ → A → (ℕ → A) → ℕ → A
  set_at i a f k = if k == i then a else f k

unfoldable pub same_handler : Handler → Handler → Bool
same_handler by_default by_default = true
same_handler ignore ignore = true
same_handler record_signal record_signal = true
same_handler ignore_child ignore_child = true
same_handler (other m) (other n) = m == n
same_handler _ _ = false

-- `sigaction(i, &disposition, NULL) == 0`.
abbrev pub sigaction : Kernel → ℕ → Handler → World → Bool × World
sigaction kernel i h w =
    if kernel.sets i
    then (true, record w { disposition = set_at i h w.disposition })
    else (false, w)

abbrev pub clear : ℕ → World → World
clear i w = record w { pending = set_at i false w.pending }

abbrev pub with_entry : ℕ → Entry → Traps → Traps
with_entry i e t = record t { entries = set_at i e t.entries }

-- A signal comes, and the handler that is set runs.
unfoldable pub arrive : ℕ → World → World
arrive number w =
    if same_handler (w.disposition number) record_signal && ltb 0 number && ltb number trap_limit
    then record w { pending = set_at number true w.pending }
    else w

-- `preserve_child_ignore`.
unfoldable pub preserve_child_ignore : Kernel → World → World
preserve_child_ignore kernel w =
    if kernel.asks kernel.sigchld && same_handler (w.disposition kernel.sigchld) ignore
    then (sigaction kernel kernel.sigchld ignore_child
        (record w { table = record w.table { child_ignored = true } })).1
    else w

abbrev pub no_entry : Entry
no_entry = record { action = none; previous = by_default; installed = false; ignored = false }

-- What `calloc` leaves.
abbrev pub no_traps : Traps
no_traps = record {
  entries = λ i. no_entry;
  exit_action = none;
  exit_inherited = false;
  child_ignored = false;
  entry_ignored = λ i. false;
  original_ignored = λ i. false;
}

-- One round of the loop of `csh_traps_create`.
unfoldable pub create_one : Kernel → Bool → ℕ → World → World
create_one kernel interactive i w =
    let w' = clear i w in
    let t = w'.table in
    if ltb 0 i && kernel.asks i && same_handler (w.disposition i) ignore
    then record w' {
      table = record t {
        original_ignored = set_at i true t.original_ignored;
        entry_ignored = if interactive then t.entry_ignored else set_at i true t.entry_ignored;
      };
    }
    else w'

unfoldable pub create_loop : Kernel → Bool → ℕ → ℕ → World → World
create_loop kernel interactive zero i w = w
create_loop kernel interactive (suc n) i w =
    create_loop kernel interactive n (suc i) (create_one kernel interactive i w)

-- `csh_traps_create`; the table that `w` has is not the active one.
unfoldable pub create : Kernel → Bool → Memory → World → Bool × World × Memory
create kernel interactive m w =
    let (got, m') = allocate m in
    let fresh : World = record w { table = no_traps } in
    if w.active
    then (false, w, m)
    else if got
    then (true, record (create_loop kernel interactive trap_limit 0 fresh) { active = true }, m')
    else (false, w, m')

-- One round of the loop of `csh_traps_destroy`.
unfoldable pub destroy_one : Kernel → ℕ → World → World
destroy_one kernel i w =
    let e = w.table.entries i in
    clear i (if e.installed then (sigaction kernel i e.previous w).1 else w)

unfoldable pub destroy_loop : Kernel → ℕ → ℕ → World → World
destroy_loop kernel zero i w = w
destroy_loop kernel (suc n) i w = destroy_loop kernel n (suc i) (destroy_one kernel i w)

-- `csh_traps_destroy` of the active table; its memory is not modelled.
unfoldable pub destroy : Kernel → World → World
destroy kernel w = record (destroy_loop kernel (trap_limit - 1) 1 w) { active = false }

-- The loop of `csh_traps_first_pending`, 0 for none.
unfoldable pub first_loop : ℕ → ℕ → World → ℕ
first_loop zero i w = 0
first_loop (suc n) i w = if w.pending i then i else first_loop n (suc i) w

-- `csh_traps_first_pending`.
unfoldable pub first_pending : World → ℕ
first_pending w = if w.active then first_loop (trap_limit - 1) 1 w else 0

-- `csh_traps_take`: a signal and its action, no signal (0), or no memory (-1).
pub data Taken : Type 0 where
  took : ℕ → Bytes → Taken
  nothing no_memory : Taken

unfoldable pub take_loop : ℕ → ℕ → Memory → World → Taken × World × Memory
take_loop zero i m w = (nothing, w, m)
take_loop (suc n) i m w = elim (w.pending i) [
  | false ↦ take_loop n (suc i) m w
  | true ↦ elim (w.table.entries i).action [
    | none ↦ take_loop n (suc i) m (clear i w)
    | some a ↦
        let (got, m') = allocate m in if got then (took i a, clear i w, m') else (no_memory, w, m')
  ]
]

unfoldable pub take : Memory → World → Taken × World × Memory
take m w = take_loop (trap_limit - 1) 1 m w

-- `csh_traps_exit_action`: the copy, if there is an action of this shell's own and memory for it.
unfoldable pub exit_action_of : Memory → Traps → Option Bytes × Memory
exit_action_of m t = elim t.exit_action [
  | none ↦ (none, m)
  | some a ↦
      let (got, m') = allocate m in
      if t.exit_inherited then (none, m) else if got then (some a, m') else (none, m')
]

-- `csh_traps_add_caught`: whether it adds the signal.
abbrev pub adds_caught : Traps → ℕ → Bool
adds_caught t i =
    leb 1 i && ltb i trap_limit && (t.entries i).installed && not (t.entries i).ignored
