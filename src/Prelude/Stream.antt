-- ===== src/Prelude/Stream.antt =====
-- A stdio stream: the text that has gone out, and what the coming write calls answer.
-- Past the end of `answers` every write succeeds; a write that fails puts nothing out.
use cshell.Prelude.{Bool, true, List, [], ◌∷◌, ◌++◌, ◌≡◌, refl, if◌then◌else◌}
use cshell.Prelude.Bytes.{Bytes}

pub record Stream : Type 0 where
  pub text : Bytes
  pub answers : List Bool

unfoldable pub write : Bytes → Stream → Bool × Stream
write b s = elim s.answers [
  | [] ↦ (true, record s { text = s.text ++ b })
  | a ∷ as' ↦ (a, record { text = if a then s.text ++ b else s.text; answers = as' })
]

-- A stream that takes every write.
abbrev pub ready : Bytes → Stream
ready t = record { text = t; answers = [] }

pub write-ready : (b t : Bytes) → write b (ready t) ≡ (true, ready (t ++ b))
unfolding write
write-ready b t = refl
