-- ===== src/State/Environment.antt =====
-- The environment in and out of the state.
pub mod RoundTrip
use cshell.Prelude.{
  ℕ, suc, ◌+◌, ◌-◌, ◌/◌, Bool, true, false, ◌&&◌, ◌||◌, Option, none, some, List, [], ◌∷◌, ◌++◌,
  ◌==◌, ltb, if◌then◌else◌,
}
use cshell.Prelude.Bytes.{Bytes}
use cshell.Prelude.Lists.{length}
use cshell.Prelude.Memory.{Memory, allocate, allocations}
use cshell.Prelude.Table.{Table}
use cshell.State.{
  State, StateResult, ok, invalid, nomem, Variable, Mask, Info, InputMode, mode_stdin, ShellOption,
  interactive, Libc, Category, valid_name,
}
use cshell.State.Variables.{set_variable, update_attributes}
use cshell.State.Parameters.{size_max, pointer_size, set_parameters}

-- `strchr(entry, '=')`: what stands before the first equals sign, and what behind it.
unfoldable pub split_entry : Bytes → Option (Bytes × Bytes)
split_entry [] = none
split_entry (c ∷ cs) =
    if c == b'='
    then some ([], cs)
    else elim (split_entry cs) [ none ↦ none | some (a, b) ↦ some (c ∷ a, b) ]

-- The entry's name and value, if it is one to import.
unfoldable pub importable : Bytes → Option (Bytes × Bytes)
importable entry = elim (split_entry entry) [
  | none ↦ none
  | some (name, value) ↦ if valid_name name then some (name, value) else none
]

abbrev pub export_mask : Mask
export_mask = record { export_bit = true; readonly_bit = false; other_bits = false }

abbrev pub empty_mask : Mask
empty_mask = record { export_bit = false; readonly_bit = false; other_bits = false }

abbrev blank_info : Info
blank_info = record {
  source_depth = 0;
  function_depth = 0;
  argument_count = 0;
  last_status = 0;
  shell_pid = 0;
  background_pid = 0;
  mode = mode_stdin;
  options = λ o. false;
  errexit_ignored = 0;
}

-- `(struct csh_state){0}`, in a process with this locale.
abbrev pub blank_state : (Category → Bytes) → State
blank_state l = record {
  manages_locale = false;
  aliases = none;
  hashes = [];
  getopts_offset = 0;
  functions = [];
  variables = [];
  arg0 = [];
  arguments = [];
  info = blank_info;
  locale = l;
}

is_interactive_bit : ShellOption → Bool
is_interactive_bit interactive = true
is_interactive_bit _ = false

module _ (libc : Libc) where
  -- One valid entry: a copy of the name, the assignment, the export.
  unfoldable pub import_one : Bytes → Bytes → State → Memory → StateResult × State × Memory
  import_one name value s m =
      let (copied, m1) = allocate m in
      let (set, s2, m2) = set_variable libc name value s m1 in
      if copied
      then (elim set [
        | ok ↦ update_attributes name export_mask empty_mask s2 m2
        | invalid ↦ (invalid, s2, m2)
        | nomem ↦ (nomem, s2, m2)
        | StateResult.readonly ↦ (StateResult.readonly, s2, m2)
      ])
      else (nomem, s, m1)

  -- `import_environment`.
  unfoldable pub import_environment : List Bytes → State → Memory → StateResult × State × Memory
  import_environment [] s m = (ok, s, m)
  import_environment (e ∷ rest) s m = elim (importable e) [
    | none ↦ import_environment rest s m
    | some (name, value) ↦
        let (r, s', m') = import_one name value s m in
        elim r [
          | ok ↦ import_environment rest s' m'
          | invalid ↦ (invalid, s', m')
          | nomem ↦ (nomem, s', m')
          | StateResult.readonly ↦ (StateResult.readonly, s', m')
        ]
  ]

-- The fields of `struct csh_invocation` that a state is made from.
pub record Invocation : Type 0 where
  pub input_mode : InputMode
  pub is_interactive : Bool
  pub chosen : ShellOption → Bool
  pub arg0 : Bytes
  pub arguments : List Bytes

-- The last lines of `csh_state_create`; `pid` is what `getpid` returns.
abbrev created_info : Invocation → ℕ → Info → Info
created_info inv pid i = record i {
  shell_pid = pid;
  mode = inv.input_mode;
  options = λ o. inv.chosen o || (inv.is_interactive && is_interactive_bit o);
}

-- `csh_state_create`; the state is destroyed again where a step fails.
unfoldable pub create :
    Libc
    → Invocation
    → List Bytes
    → ℕ
    → (Category → Bytes)
    → Memory
    → StateResult × Option State × Memory
unfolding is_interactive_bit
create libc inv envp pid locale m =
    let (made, m1) = allocations 2 m in
    let (set, s2, m2) =
      set_parameters inv.arguments (record (blank_state locale) { arg0 = inv.arg0 }) m1 in
    let (imported, s3, m3) = import_environment libc envp s2 m2 in
    if made
    then (elim set [
      | ok ↦ (elim imported [
        | ok ↦ (ok, some (record s3 { info = created_info inv pid s3.info }), m3)
        | r ↦ (r, none, m3)
      ])
      | r ↦ (r, none, m2)
    ])
    else (nomem, none, m1)

-- `environment[i]` of an exported variable with a value.
unfoldable pub entry_of : Bytes → Variable → Option Bytes
entry_of name v = elim v.value [
  | none ↦ none
  | some value ↦ if v.exported then some (name ++ (b'=' ∷ value)) else none
]

-- The second loop of `csh_state_environment`: `none` when a length or an allocation is too large.
unfoldable pub environment_loop : Table Variable → Memory → Option (List Bytes) × Memory
unfolding entry_of
environment_loop [] m = (some [], m)
environment_loop ((k, v) ∷ t) m = elim (entry_of k v) [
  | none ↦ environment_loop t m
  | some entry ↦
      let (made, left) = allocate m in
      let (rest, left') = environment_loop t left in
      if ltb (size_max - 2) (length entry - 1)
      then (none, m)
      else if made
      then ((elim rest [ none ↦ none | some es ↦ some (entry ∷ es) ]), left')
      else (none, left)
]

-- The first loop counts the entries.
unfoldable pub exported_count : Table Variable → ℕ
unfolding entry_of
exported_count [] = 0
exported_count ((k, v) ∷ t) = (elim (entry_of k v) [ none ↦ 0 | some e ↦ 1 ]) + exported_count t

-- `csh_state_environment`.
unfoldable pub environment : State → Memory → StateResult × List Bytes × Memory
unfolding environment_loop exported_count
environment s m =
    let (made, left) = allocate m in
    let (entries, left') = environment_loop s.variables left in
    if ltb (size_max / pointer_size - 1) (exported_count s.variables)
    then (nomem, [], m)
    else if made
    then (elim entries [ none ↦ (nomem, [], left') | some es ↦ (ok, es, left') ])
    else (nomem, [], left)
