-- ===== src/Traps/Builtin.antt =====
-- The builtin `trap`: `condition`, `quote_action`, `list_one`, `install` and `csh_traps_builtin`.
pub mod Keeps
use cshell.Prelude.{
  ℕ, zero, suc, ◌-◌, Bool, true, false, not, ◌&&◌, ◌||◌, Option, none, some, List, [], ◌∷◌, ◌++◌,
  ltb, leb, ◌==◌, within, if◌then◌else◌,
}
use cshell.Prelude.Bytes.{Bytes, bytes_eq, codes}
use cshell.Prelude.Int.{ℤ, pos, negsuc}
use cshell.Prelude.Memory.{Memory, allocate}
use cshell.Prelude.Stream.{Stream, write}
use cshell.Jobs.Signals.{Host, signal_number, signal_name}
use cshell.Jobs.Report.{decimal}
use cshell.Traps.{
  Handler, by_default, ignore, record_signal, ignore_child, Kernel, Entry, Traps, World, set_at,
  sigaction, clear, with_entry, preserve_child_ignore, trap_limit,
}

-- What the builtin works on: the table and the signals, standard output, standard error, memory.
pub record Session : Type 0 where
  pub world : World
  pub out : Stream
  pub err_text : Bytes
  pub memory : Memory

-- `diagnostic`.
unfoldable pub complain : Bytes → Option Bytes → Session → Session
complain message operand s = record s {
  err_text =
      s.err_text
      ++ (codes "cshell: trap: "
          ++ (message ++ ((elim operand [ none ↦ [] | some o ↦ codes ": " ++ o ]) ++ codes "\n")));
}

-- The text behind SIG, if it begins with that.
unfoldable pub without_sig : Bytes → Bytes
without_sig (a ∷ b ∷ c ∷ rest) =
    if a == b'S' && b == b'I' && c == b'G' then rest else a ∷ b ∷ c ∷ rest
without_sig text = text

-- `condition`; none is -1.
unfoldable pub condition : Host → Kernel → Bytes → Option ℕ
condition host kernel text =
    let name = without_sig text in
    if bytes_eq text (codes "EXIT") || bytes_eq text (codes "0")
    then some 0
    else (elim (kernel.strtol name) [
      | some (negsuc n) ↦ none
      | some (pos n) ↦ if ltb 0 n && ltb n trap_limit && host.supports n then some n else none
      | none ↦ elim (signal_number host name) [
        | none ↦ none
        | some n ↦ if ltb 0 n && ltb n trap_limit then some n else none
      ]
    ])

-- A write behind others: nothing more is written once one has failed.
abbrev pub and_write : Bytes → Bool × Stream → Bool × Stream
and_write b (went, s) = if went then write b s else (false, s)

unfoldable pub quote_bytes : Bytes → Bool × Stream → Bool × Stream
quote_bytes [] r = r
quote_bytes (c ∷ cs) r =
    quote_bytes cs (and_write (if c == b'\'' then b'\'' ∷ b'\\' ∷ b'\'' ∷ b'\'' ∷ [] else c ∷ []) r)

-- `quote_action`, behind the writes before it.
unfoldable pub quote_action : Bytes → Bool × Stream → Bool × Stream
quote_action action r = and_write (codes "'") (quote_bytes action (and_write (codes "'") r))

-- The action that the listing shows; an ignored entry shows as empty.
unfoldable pub listed_action : Traps → ℕ → Option Bytes
listed_action t number = if number == 0 then t.exit_action else (elim (t.entries number).action [
  | some a ↦ some a
  | none ↦ if t.entry_ignored number then some [] else none
])

unfoldable pub condition_name : Host → ℕ → Bytes
condition_name host number =
    if number == 0
    then codes "EXIT"
    else (elim (signal_name host number) [ some name ↦ name | none ↦ decimal number ])

-- `list_one`: whether it returns 0, and the session.
unfoldable pub list_one : Host → ℕ → Bool → Session → Bool × Session
list_one host number defaults s =
    let shown : Option Bytes = elim (listed_action s.world.table number) [
      | some a ↦ some a
      | none ↦ if defaults then some (codes "-") else none
    ] in
    elim shown [
      | none ↦ (true, s)
      | some action ↦
          let (went, o) =
            and_write (codes " " ++ (condition_name host number ++ codes "\n"))
              (quote_action action (write (codes "trap -- ") s.out)) in
          let s' = record s { out = o } in
          if went then (true, s') else (false, complain (codes "cannot write output") none s')
    ]

-- The entry is off.
unfoldable pub switch_off : ℕ → World → World
switch_off number w =
    let off : Entry = record (w.table.entries number) { installed = false; ignored = false } in
    record w { table = with_entry number off w.table }

-- The entry has no action, and its signal is not pending.
unfoldable pub drop_action : ℕ → World → World
drop_action number w =
    let gone : Entry = record (w.table.entries number) { action = none } in
    record w { table = with_entry number gone w.table; pending = set_at number false w.pending }

-- The reset of a signal to what it was before.
unfoldable pub reset : Kernel → ℕ → Session → Bool × Session
reset kernel number s =
    let w = s.world in
    let e = w.table.entries number in
    let (went, w1) = if e.installed then sigaction kernel number e.previous w else (true, w) in
    let w2 = switch_off number w1 in
    let w3 = if number == kernel.sigchld then preserve_child_ignore kernel w2 else w2 in
    if went
    then (true, record s { world = drop_action number w3 })
    else (false, complain (codes "cannot reset signal") none s)

-- The handler for an action.
unfoldable pub handler_for : Kernel → ℕ → Bytes → Handler
handler_for kernel number (c ∷ cs) = record_signal
handler_for kernel number [] = if number == kernel.sigchld then ignore_child else ignore

unfoldable pub is_empty : Bytes → Bool
is_empty [] = true
is_empty (c ∷ cs) = false

-- A new action of a signal.
unfoldable pub set_action : Kernel → ℕ → Bytes → Session → Bool × Session
set_action kernel number action s =
    let w = s.world in
    let e = w.table.entries number in
    let (went, w1) = sigaction kernel number (handler_for kernel number action) w in
    let on : Entry = record {
      action = some action;
      previous = if e.installed then e.previous else w.disposition number;
      installed = true;
      ignored = is_empty action;
    } in
    let w2 : World = record w1 { table = with_entry number on w1.table } in
    if went
    then (true, record s { world = clear number w2 })
    else (false, complain (codes "cannot install signal") none s)

-- `install`: none resets; the result is whether it returns 0.
unfoldable pub install : Kernel → ℕ → Option Bytes → Session → Bool × Session
install kernel number action s =
    let (got, m) : Bool × Memory = elim action [
      | none ↦ (true, s.memory)
      | some a ↦ allocate s.memory
    ] in
    let s' = record s { memory = m } in
    let w = s.world in
    let exit : World = record w {
      table = record w.table { exit_action = action; exit_inherited = false };
    } in
    if not got
    then (false, complain (codes "cannot allocate action") none s')
    else if number == 0
    then (true, record s' { world = exit })
    else if w.table.entry_ignored number
    then (true, s')
    else (elim action [ none ↦ reset kernel number s' | some a ↦ set_action kernel number a s' ])

unfoldable pub install_one : Host → Kernel → Option Bytes → Bytes → Session → Bool × Session
install_one host kernel action a s = elim (condition host kernel a) [
  | none ↦ (false, complain (codes "invalid condition") (some a) s)
  | some number ↦ install kernel number action s
]

-- Each condition of the operands; an action of none resets.
unfoldable pub install_each :
    Host → Kernel → Option Bytes → List Bytes → Bool → Session → Bool × Session
install_each host kernel action [] went s = (went, s)
install_each host kernel action (a ∷ as') went s =
    let (done, s') = install_one host kernel action a s in
    install_each host kernel action as' (went && done) s'

unfoldable pub list_operand : Host → Kernel → Bytes → Session → Bool × Session
list_operand host kernel a s = elim (condition host kernel a) [
  | none ↦ (false, complain (codes "invalid condition") (some a) s)
  | some number ↦ list_one host number true s
]

-- The list of the conditions that are operands.
unfoldable pub list_each : Host → Kernel → List Bytes → Bool → Session → Bool × Session
list_each host kernel [] went s = (went, s)
list_each host kernel (a ∷ as') went s =
    let (done, s') = list_operand host kernel a s in list_each host kernel as' (went && done) s'

-- The list of every condition.
unfoldable pub list_all : Host → Kernel → Bool → ℕ → ℕ → Bool → Session → Bool × Session
list_all host kernel defaults zero i went s = (went, s)
list_all host kernel defaults (suc n) i went s =
    let hidden = i == kernel.sigkill || i == kernel.sigstop || (ltb 0 i && not (kernel.asks i)) in
    let (done, s') = list_one host i defaults s in
    list_all host kernel defaults n (suc i) (if hidden then went else went && done)
      (if hidden then s else s')

unfoldable pub all_digits : Bytes → Bool
all_digits [] = true
all_digits (c ∷ cs) = within b'0' b'9' c && all_digits cs

-- The operands behind the options: the first is an action, or a condition to reset.
unfoldable pub set_traps : Host → Kernel → List Bytes → Session → Bool × Session
set_traps host kernel [] s = list_all host kernel false trap_limit 0 true s
set_traps host kernel (a ∷ as') s =
    let resets = not (is_empty a) && all_digits a in
    let operands = if resets then a ∷ as' else as' in
    let action = if resets || bytes_eq a (codes "-") then none else some a in
    elim operands [
      | [] ↦ (false, complain (codes "missing condition") none s)
      | o ∷ os ↦ install_each host kernel action (o ∷ os) true s
    ]

-- The operands of `trap -p`.
unfoldable pub list_traps : Host → Kernel → List Bytes → Session → Bool × Session
list_traps host kernel operands s =
    let rest : List Bytes = elim operands [
      | [] ↦ []
      | a ∷ as' ↦ if bytes_eq a (codes "--") then as' else a ∷ as'
    ] in
    elim rest [
      | [] ↦ list_all host kernel true trap_limit 0 true s
      | o ∷ os ↦ list_each host kernel (o ∷ os) true s
    ]

unfoldable pub is_option : Bytes → Bool
is_option [] = false
is_option (c ∷ cs) = c == b'-' && not (bytes_eq (c ∷ cs) (codes "-"))

-- `csh_traps_builtin`, on its operands: whether it returns 0, and the session.
unfoldable pub builtin_trap : Host → Kernel → List Bytes → Session → Bool × Session
builtin_trap host kernel [] s = set_traps host kernel [] s
builtin_trap host kernel (a ∷ as') s =
    if bytes_eq a (codes "-p")
    then list_traps host kernel as' s
    else if bytes_eq a (codes "--")
    then set_traps host kernel as' s
    else if is_option a
    then (false, complain (codes "invalid option") (some a) s)
    else set_traps host kernel (a ∷ as') s
