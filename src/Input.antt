-- ===== src/Input.antt =====
-- src/input.c: reading one physical line at a time, from a string or a descriptor. The opening of the
-- sources and the reservation of descriptors are not modelled.
pub mod Lines
pub mod Loop
use cshell.Prelude.{
  ℕ, zero, suc, ◌+◌, ◌-◌, ◌*◌, ◌/◌, ◌^◌, Bool, true, false, not, ◌&&◌, ◌||◌, Option, none, some,
  List, [], ◌∷◌, ◌++◌, ltb, leb, ◌==◌, if◌then◌else◌,
}
use cshell.Prelude.Bytes.{Bytes}
use cshell.Prelude.Lists.{length}
use cshell.Prelude.Memory.{Memory, allocate}

abbrev pub size_max : ℕ
size_max = 2 ^ 64 - 1

-- `struct csh_position`.
pub record Position : Type 0 where
  pub offset : ℕ
  pub line : ℕ
  pub column : ℕ

abbrev pub origin : Position
origin = record { offset = 0; line = 1; column = 1 }

-- What one turn of the loop of `next_byte` meets: the wait hook's failure, or what `read` gives; an
-- error comes with whether it is EINTR.
pub data Arrival : Type 0 where
  byte : ℕ → Arrival
  at_end : Arrival
  hook_fails read_fails : Bool → Arrival

-- A string with what is left of it, or a descriptor, with whether a wait hook is set and what is to
-- come; behind that the end.
pub data Source : Type 0 where
  string : Bytes → Source
  descriptor : Bool → List Arrival → Source

-- The message of a failure, with its position.
pub data Message : Type 0 where
  cannot_grow overflow cannot_read : Message

pub record Failure : Type 0 where
  pub message : Message
  pub position : Position

-- `struct csh_input`, less its name and the hooks; the memory, and what the hook for the end answers.
pub record Input : Type 0 where
  pub source : Source
  pub capacity : ℕ
  pub position : Position
  pub ended : Bool
  pub failure : Option Failure
  pub retries : List Bool
  pub memory : Memory

-- `enum csh_input_result`, with the line, its start and its end, or the error.
pub data Read : Type 0 where
  line : Bytes → Position → Position → Read
  eof : Read
  interrupted : Position → Read
  error : Failure → Read

-- The doubling of the capacity, on fuel.
unfoldable pub grown : ℕ → ℕ → ℕ → Option ℕ
grown zero capacity needed = none
grown (suc f) capacity needed = elim (ltb capacity needed) [
  | false ↦ some capacity
  | true ↦ elim (ltb (size_max / 2) capacity) [
    | true ↦ some needed
    | false ↦ grown f (capacity * 2) needed
  ]
]

-- `reserve`: from 128, 64 doublings go past SIZE_MAX.
unfoldable pub reserve : ℕ → Input → Option (Bool × Input)
reserve needed i =
    let (got, m) = allocate i.memory in
    if leb needed i.capacity
    then some (true, i)
    else (elim (grown 64 (if i.capacity == 0 then 128 else i.capacity) needed) [
      | none ↦ none
      | some n ↦ some (
          if got
          then (true, record i { capacity = n; memory = m })
          else (false, record i { memory = m }))
    ])

-- `next_byte`: a byte, 0 or -1, the last with whether errno is EINTR.
pub data Next : Type 0 where
  got : ℕ → Next
  finished : Next
  failed : Bool → Next

unfoldable pub next_arrival : Bool → List Arrival → Next × List Arrival
next_arrival hooked [] = (finished, [])
next_arrival hooked (byte c ∷ as') = (got c, as')
next_arrival hooked (at_end ∷ as') = (finished, as')
next_arrival hooked (hook_fails e ∷ as') = elim hooked [
  | true ↦ (failed e, as')
  | false ↦ next_arrival hooked as'
]
next_arrival hooked (read_fails e ∷ as') = elim (e && not hooked) [
  | true ↦ next_arrival hooked as'
  | false ↦ (failed e, as')
]

unfoldable pub next_byte : Source → Next × Source
next_byte (string []) = (finished, string [])
next_byte (string (c ∷ cs)) = (got c, string cs)
next_byte (descriptor hooked as') =
    let (n, rest) = next_arrival hooked as' in (n, descriptor hooked rest)

-- `read_failure`.
unfoldable pub read_failure : Message → Input → Read × Input
read_failure m i =
    let f : Failure = record { message = m; position = i.position } in
    (error f, record i { failure = some f; capacity = 0 })

-- The position behind a byte.
unfoldable pub advance : ℕ → Position → Position
advance c p =
    if c == b'\n'
    then record { offset = suc p.offset; line = suc p.line; column = 1 }
    else record p { offset = suc p.offset; column = suc p.column }

unfoldable pub at_limit : Position → Bool
at_limit p = p.offset == size_max || p.line == size_max || p.column == size_max

-- The hook for the end: whether it asks for another read.
unfoldable pub retry : Input → Bool × Input
retry i = elim i.retries [ [] ↦ (false, i) | r ∷ rs ↦ (r, record i { retries = rs }) ]

-- Behind an interruption a partial line is lost, and its position ends it.
unfoldable pub interrupt : Bytes → Input → Read × Input
interrupt taken i =
    let next : Position = record i.position { line = suc i.position.line; column = 1 } in
    (interrupted i.position, if length taken == 0 then i else record i { position = next })

unfoldable pub finish : Bytes → Position → Input → Read × Input
finish taken start i =
    let i' = record i { ended = true } in
    if length taken == 0 then (eof, i') else (line taken start i.position, i')

-- Behind `next_byte`; `again` is the loop with another line that is read so far.
unfoldable pub behind_byte :
    (Bytes → Input → Option (Read × Input))
    → Bytes
    → Position
    → Next
    → Input
    → Option (Read × Input)
behind_byte again taken start (failed true) i = some (interrupt taken i)
behind_byte again taken start (failed false) i = some (read_failure cannot_read i)
behind_byte again taken start finished i =
    let (more, i') = retry i in
    elim (length taken == 0 && more) [
      | true ↦ again taken i'
      | false ↦ some (finish taken start (if length taken == 0 then i' else i))
    ]
behind_byte again taken start (got c) i =
    let i' : Input = record i { position = advance c i.position } in
    elim (c == b'\n') [
      | true ↦ some (line (taken ++ (c ∷ [])) start i'.position, i')
      | false ↦ again (taken ++ (c ∷ [])) i'
    ]

-- Behind `reserve`, which was given `i`.
unfoldable pub behind_reserve :
    (Bytes → Input → Option (Read × Input))
    → Bytes
    → Position
    → Input
    → Option (Bool × Input)
    → Option (Read × Input)
behind_reserve again taken start i none = none
behind_reserve again taken start i (some (room, i')) =
    let (n, source) = next_byte i'.source in
    let too_long = ltb (size_max - 2) (length taken) in
    elim (too_long || not room) [
      | true ↦ some (read_failure cannot_grow (if too_long then i else i'))
      | false ↦ elim (at_limit i'.position) [
        | true ↦ some (read_failure overflow i')
        | false ↦ behind_byte again taken start n (record i' { source = source })
      ]
    ]

-- The loop of `csh_input_read_line`, on fuel, with the line so far.
unfoldable pub read_loop : ℕ → Position → Bytes → Input → Option (Read × Input)
read_loop zero start taken i = none
read_loop (suc f) start taken i =
    behind_reserve (read_loop f start) taken start i (reserve (length taken + 2) i)

-- `csh_input_read_line`, on fuel for its loop.
unfoldable pub read_line : ℕ → Input → Option (Read × Input)
read_line fuel i = elim i.failure [
  | some f ↦ some (error f, i)
  | none ↦ if i.ended then some (eof, i) else read_loop fuel i.position [] i
]

-- `csh_input_from_string`, behind its allocations.
abbrev pub from_string : Bytes → Input
from_string text = record {
  source = string text;
  capacity = 0;
  position = origin;
  ended = false;
  failure = none;
  retries = [];
  memory = [];
}
