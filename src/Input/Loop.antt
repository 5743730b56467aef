-- ===== src/Input/Loop.antt =====
-- The loop of `csh_input_read_line` on a string.
use cshell.Prelude.Bytes.{Bytes}
use cshell.Input.{Input}
