-- ===== src/Tests.antt =====
-- Concrete data, runs of the model on it, and the theorems applied to it.
pub mod AliasTable
pub mod Shell
pub mod Arithmetic
pub mod CommandLine
pub mod JobTable
pub mod TrapTable
pub mod FieldSplitting
pub mod InputLines
use cshell.Prelude.{
  ℕ, Bool, true, false, ◌+◌, ◌==◌, Option, none, some, List, [], ◌∷◌, ◌≡◌, refl, arith,
  if◌then◌else◌,
}
use cshell.Prelude.Bytes.{Bytes, codes, bytes_eq, bytes_lt}
use cshell.Prelude.Table.{find}
use cshell.Prelude.Stream.{Stream, ready}
use cshell.Alias.{Aliases, alias_bytes, alias_byte}
use cshell.Alias.Builtin.{Session}
use cshell.Alias.Order.{IsTable}
use cshell.State.{name_start, name_byte, name_bytes, State, Libc, Info, mode_stdin, Category}
use cshell.State.Locale.{selected, category_name, locale_value, non_empty, or_else}
use cshell.State.Functions.{Payloads}
use cshell.State.Functions.Counts.{IsCounted}
use cshell.State.Locale.Fresh.{IsFresh, wanted}
use cshell.State.Variables.Tables.{IsState}

abbrev pub two_aliases : Aliases
two_aliases = (codes "g", codes "git") ∷ (codes "ll", codes "it's") ∷ []

pub two_aliases-IsTable : IsTable two_aliases
unfolding cshell.Alias.valid_name alias_bytes alias_byte find bytes_eq bytes_lt
two_aliases-IsTable = record { sorted = ground arith; names = ground arith }

abbrev pub session : Session
session = record { aliases = two_aliases; out = ready []; err_text = []; memory = [] }

-- A C library that takes every locale.
abbrev pub all_locales : Libc
all_locales = record { accepts = λ c n. true }

-- A readonly variable, an exported one, a function, two aliases, a hashed path, two parameters.
abbrev pub shell : State
shell = record {
  manages_locale = true;
  aliases = some two_aliases;
  hashes = (codes "ls", codes "/bin/ls") ∷ [];
  getopts_offset = 1;
  functions = (codes "f", 7) ∷ [];
  variables =
      (codes "N", record { value = some (codes "5"); exported = false; protected = true })
      ∷ (codes "HOME", record { value = some (codes "/h"); exported = true; protected = false })
      ∷ [];
  arg0 = codes "csh";
  arguments = codes "one" ∷ codes "two" ∷ [];
  info = record {
    source_depth = 0;
    function_depth = 0;
    argument_count = 2;
    last_status = 0;
    shell_pid = 42;
    background_pid = 0;
    mode = mode_stdin;
    options = λ o. false;
    errexit_ignored = 0;
  };
  locale = λ c. codes "C";
}

pub shell-IsState : IsState shell
unfolding cshell.State.valid_name name_start name_byte name_bytes find bytes_eq bytes_lt
shell-IsState = record {
  variables_unique = ground arith;
  variables_valid = ground arith;
  hashes_unique = ground arith;
  functions_unique = ground arith;
  functions_valid = ground arith;
  aliases_sorted = two_aliases-IsTable;
  arguments_counted = refl;
}

shell_locale : (c : Category) → codes "C" ≡ wanted all_locales shell.variables c
unfolding selected find bytes_eq category_name locale_value non_empty or_else
shell_locale Category.ctype = refl
shell_locale Category.collate = refl
shell_locale Category.messages = refl
shell_locale Category.monetary = refl
shell_locale Category.numeric = refl
shell_locale Category.time = refl

pub shell-IsFresh : IsFresh all_locales shell
shell-IsFresh = record { fresh = λ h c. shell_locale c }

-- The payload of the function, held by the table alone.
abbrev pub one_payload : Payloads
one_payload = record { references = λ q. if q == 7 then 1 else 0; destroyed = [] }

pub one_payload-IsCounted : IsCounted (λ q. 0) shell.functions one_payload
one_payload-IsCounted = record { counts = λ q. ground arith }
