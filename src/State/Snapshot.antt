-- ===== src/State/Snapshot.antt =====
-- Clones and checkpoints of the whole state.
pub mod Identity
pub mod Scarce
use cshell.Prelude.{
  ℕ, zero, suc, Bool, true, false, Option, none, some, List, [], ◌∷◌, ◌++◌, if◌then◌else◌,
}
use cshell.Prelude.Bytes.{Bytes}
use cshell.Prelude.Lists.{take}
use cshell.Prelude.Memory.{Memory, allocate, allocations}
use cshell.Prelude.Table.{Table}
use cshell.Alias
use cshell.Alias.{Aliases}
use cshell.State.{State, StateResult, ok, nomem, Variable, Libc}
use cshell.State.Environment.{blank_state}
use cshell.State.Functions.{Payloads, release, set_function}
use cshell.State.Hashes.{hash_set}
use cshell.State.Locale.{refresh_locale}
use cshell.State.Parameters.{set_parameters}

-- What a copying step leaves: whether it went well, and the copy as far as it got.
abbrev pub Copy : Type 0
Copy = Bool × State × Payloads × Memory

-- The rest of the copying, unless a step has failed (`goto failure`).
infixl 5 ◌then_copy◌
unfoldable pub ◌then_copy◌ : Copy → (State → Payloads → Memory → Copy) → Copy
(true, s, h, m) then_copy f = f s h m
(false, s, h, m) then_copy f = (false, s, h, m)

unfoldable pub is_ok : StateResult → Bool
is_ok ok = true
is_ok _ = false

unfoldable pub copy_arg0 : Bytes → State → Payloads → Memory → Copy
copy_arg0 arg0 c h m = let (made, left) = allocate m in (made, record c { arg0 = arg0 }, h, left)

unfoldable pub copy_parameters : List Bytes → State → Payloads → Memory → Copy
copy_parameters args c h m = let (r, c', left) = set_parameters args c m in (is_ok r, c', h, left)

-- `new_variable`: a node, its name, and its value if there is one.
unfoldable pub variable_cost : Option Bytes → ℕ
variable_cost none = 2
variable_cost (some b) = 3

unfoldable pub copy_variable : Bytes → Variable → State → Payloads → Memory → Copy
copy_variable k v c h m =
    let (made, left) = allocations (variable_cost v.value) m in
    let node : Variable = record {
      value = v.value;
      exported = v.exported;
      protected = v.protected;
    } in
    (made, (if made then record c { variables = c.variables ++ ((k, node) ∷ []) } else c), h, left)

-- The loop over the variables, each new node behind the last.
unfoldable pub copy_variables : Table Variable → State → Payloads → Memory → Copy
copy_variables [] c h m = (true, c, h, m)
copy_variables ((k, v) ∷ t) c h m = copy_variable k v c h m then_copy copy_variables t

-- The loop over the functions, through `csh_state_set_function`.
unfoldable pub copy_functions : Table ℕ → State → Payloads → Memory → Copy
copy_functions [] c h m = (true, c, h, m)
copy_functions ((k, p) ∷ t) c h m =
    let (r, c', h', m') = set_function k p c h m in (is_ok r, c', h', m') then_copy copy_functions t

-- `csh_aliases_clone` of the table, which may not have been made yet.
unfoldable pub copy_aliases : Option Aliases → State → Payloads → Memory → Copy
copy_aliases none c h m = (true, c, h, m)
copy_aliases (some t) c h m =
    let (made, left) = Alias.clone t m in
    ((elim made [ none ↦ false | some t' ↦ true ]), record c { aliases = made }, h, left)

-- The loop over the hashed paths, through `csh_state_hash_set`.
unfoldable pub copy_hashes : Table Bytes → State → Payloads → Memory → Copy
copy_hashes [] c h m = (true, c, h, m)
copy_hashes ((k, p) ∷ t) c h m =
    let (r, c', m') = hash_set k p c m in (is_ok r, c', h, m') then_copy copy_hashes t

-- The three assignments after the loops.
unfoldable pub copy_rest : State → State → Payloads → Memory → Copy
copy_rest s c h m = (
  true,
  record c { manages_locale = s.manages_locale; getopts_offset = s.getopts_offset; info = s.info },
  h,
  m,
)

unfoldable pub copy_all : State → Payloads → Memory → Copy
copy_all s h m =
    copy_arg0 s.arg0 (blank_state s.locale) h m
    then_copy copy_parameters (take s.info.argument_count s.arguments)
    then_copy copy_variables s.variables
    then_copy copy_functions s.functions
    then_copy copy_aliases s.aliases
    then_copy copy_hashes s.hashes
    then_copy copy_rest s

-- `csh_state_destroy`, as far as others see it: each function is released once.
unfoldable pub release_all : Table ℕ → Payloads → Payloads
release_all [] h = h
release_all ((k, p) ∷ t) h = release_all t (release p h)

unfoldable pub finish_copy : Copy → StateResult × Option State × Payloads × Memory
finish_copy (true, c, h, m) = (ok, some c, h, m)
finish_copy (false, c, h, m) = (nomem, none, release_all c.functions h, m)

-- `csh_state_clone`.
unfoldable pub clone : State → Payloads → Memory → StateResult × Option State × Payloads × Memory
clone s h m =
    let (made, left) = allocate m in
    if made then finish_copy (copy_all s h left) else (nomem, none, h, left)

-- `csh_state_save`: the checkpoint holds a clone.
unfoldable pub save : State → Payloads → Memory → StateResult × Option State × Payloads × Memory
save s h m =
    let (made, left) = allocate m in if made then clone s h left else (nomem, none, h, left)

-- `csh_state_checkpoint_destroy`.
unfoldable pub checkpoint_destroy : State → Payloads → Payloads
checkpoint_destroy saved h = release_all saved.functions h

-- `csh_state_restore`: the states are swapped and the old one is destroyed with the checkpoint.
-- The locale is the process's, and not part of what is swapped.
unfoldable pub restore : Libc → State → State → Payloads → State × Payloads
restore libc s saved h =
    (refresh_locale libc (record saved { locale = s.locale }), checkpoint_destroy s h)
