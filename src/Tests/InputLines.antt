-- ===== src/Tests/InputLines.antt =====
-- Runs of the line reader on strings, and its theorem at a concrete text.
use cshell.Prelude.{◌≡◌, refl, some}
use cshell.Prelude.Bytes.{Bytes, codes}
use cshell.Prelude.Memory.{allocate}
use cshell.Input.{
  Position, line, string, grown, reserve, next_byte, advance, at_limit, behind_byte, behind_reserve,
  read_loop, read_line, from_string,
}

abbrev text : Bytes
text = codes "ab\nc"

abbrev behind_two : Position
behind_two = record { offset = 3; line = 2; column = 1 }

read_line_two :
    read_line 5 (from_string text)
    ≡ some (
      line (codes "ab\n") (from_string text).position behind_two,
      record (from_string text) {
        source = string (codes "c");
        capacity = 128;
        position = behind_two;
      },
    )
unfolding read_line read_loop behind_reserve behind_byte reserve grown next_byte at_limit advance
    allocate
read_line_two = refl
