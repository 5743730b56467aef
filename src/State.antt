-- ===== src/State.antt =====
-- src/state.c: the state of a shell. Strings are values here, since every string that the state
-- retains is a copy of its own; the pointers of the interface are live ones, so its tests for NULL
-- arguments are left out.
pub mod Locale
pub mod Variables
pub mod Saves
pub mod Parameters
pub mod Environment
pub mod Functions
pub mod Hashes
pub mod Snapshot
pub mod Mutations
pub mod Session
use cshell.Prelude.{
  ℕ, Bool, true, false, ◌&&◌, ◌||◌, Option, none, some, List, [], ◌∷◌, ◌==◌, within, if◌then◌else◌,
}
use cshell.Prelude.Bytes.{Bytes}
use cshell.Prelude.Table.{Table}
use cshell.Alias.{Aliases}

-- `enum csh_state_result`.
pub data StateResult : Type 0 where
  ok invalid nomem readonly : StateResult

-- `struct variable` less its name: the attribute bits are two fields, and a value that is NULL
-- is `none`.
pub record Variable : Type 0 where
  pub value : Option Bytes
  pub exported : Bool
  pub protected : Bool

-- A mask of attribute bits: CSH_VAR_EXPORT, CSH_VAR_READONLY, and whether any other bit is set.
pub record Mask : Type 0 where
  pub export_bit : Bool
  pub readonly_bit : Bool
  pub other_bits : Bool

-- `enum csh_shell_option`.
pub data ShellOption : Type 0 where
  interactive allexport errexit noglob noexec nounset verbose xtrace noclobber : ShellOption
  pipefail monitor notify hashall ignoreeof nolog : ShellOption

-- `enum csh_input_mode`.
pub data InputMode : Type 0 where
  mode_stdin mode_string mode_file : InputMode

-- The six categories that `locale_categories` lists.
pub data Category : Type 0 where
  ctype collate messages monetary numeric time : Category

-- `struct csh_state_info`.
pub record Info : Type 0 where
  pub source_depth : ℕ
  pub function_depth : ℕ
  pub argument_count : ℕ
  pub last_status : ℕ
  pub shell_pid : ℕ
  pub background_pid : ℕ
  pub mode : InputMode
  pub options : ShellOption → Bool
  pub errexit_ignored : ℕ

-- `struct csh_state`. A function is known by the number of its payload. `locale` is no field of the
-- struct but the locale of the C library, which the one active state drives.
pub record State : Type 0 where
  pub manages_locale : Bool
  pub aliases : Option Aliases
  pub hashes : Table Bytes
  pub getopts_offset : ℕ
  pub functions : Table ℕ
  pub variables : Table Variable
  pub arg0 : Bytes
  pub arguments : List Bytes
  pub info : Info
  pub locale : Category → Bytes

-- What the C library answers to `setlocale` for a category and a name. It always takes "C".
pub record Libc : Type 0 where
  pub accepts : Category → Bytes → Bool

unfoldable pub name_start : ℕ → Bool
name_start c = within b'a' b'z' c || within b'A' b'Z' c || c == b'_'

unfoldable pub name_byte : ℕ → Bool
unfolding name_start
name_byte c = name_start c || within b'0' b'9' c

unfoldable pub name_bytes : Bytes → Bool
name_bytes [] = true
name_bytes (c ∷ cs) = name_byte c && name_bytes cs

-- `valid_name`.
unfoldable pub valid_name : Bytes → Bool
unfolding name_start name_byte name_bytes
valid_name [] = false
valid_name (c ∷ cs) = name_start c && name_bytes cs
