-- ===== src/Tests/CommandLine.antt =====
-- Runs of the option loop, and its theorem at a concrete command line.
use cshell.Prelude.{List, [], ◌∷◌}
use cshell.Prelude.Bytes.{Bytes, codes}
use cshell.Invocation.{options}
use cshell.Invocation.Accounts.{Accounts, options-Accounts}

abbrev command_line : List Bytes
command_line = codes "-eo" ∷ codes "pipefail" ∷ codes "-c" ∷ codes "echo" ∷ codes "x" ∷ []

options-Accounts_example : Accounts 6 (options command_line)
options-Accounts_example = options-Accounts command_line
