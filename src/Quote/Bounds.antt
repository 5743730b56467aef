-- ===== src/Quote/Bounds.antt =====
-- The decoder ends, inside the buffer that it allocates.
use cshell.Prelude.{
  ℕ, zero, suc, ◌+◌, ◌-◌, ◌*◌, ◌≤◌, ◌<◌, Bool, true, false, Option, none, some, [], ◌∷◌, ◌≡◌, refl,
  arith, ltb, ◌==◌, if◌then◌else◌, Option-cases, inl, inr,
}
use cshell.Prelude.Bytes.{Bytes}
use cshell.Prelude.Lists.{length, length-append, take, drop, length-take-drop}
use cshell.Prelude.Memory.{Memory, allocate}
use cshell.Character.{Characters, character_length}
use cshell.Quote.{
  digits, hexadecimal, octal, control, Escape, plainly, doubled, control_escape, hex_escape,
  octal_escape, simple_escape, escape, Step, emit, stop, refuse, finish, backslash, narrow, step,
  QuoteResult, ok, invalid, nomem, prepend, decode_loop, has_nul, decode,
}

-- What an escape writes before its byte and what it leaves have at most `n` bytes.
abbrev EscapeFits : ℕ → Escape → Type 0
EscapeFits n x = length x.before + length x.rest ≤ n

-- A round on `n` bytes goes on with fewer, and writes no more than it reads.
abbrev StepFits : ℕ → Step → Type 0
StepFits n refuse = Unit
StepFits n (stop out) = length out ≤ n
StepFits n (emit out rest) = (length out + length rest ≤ n) × (length rest < n)

length-digits :
    (digit : ℕ → Option ℕ) (base limit value : ℕ) (text : Bytes)
    → length (digits digit base limit value text).2 ≤ length text
unfolding digits
length-digits digit base zero value text = omega arith
length-digits digit base (suc limit) value [] = omega arith
length-digits digit base (suc limit) value (c ∷ cs) = elim (Option-cases (digit c)) [
  | inl e ↦ ground (arith, e)
  | inr (d, e) ↦ ground (arith, e, length-digits digit base limit (value * base + d) cs)
]

hex_escape-EscapeFits : (e : ℕ) (cs : Bytes) → EscapeFits (suc (length cs)) (hex_escape e cs)
unfolding hex_escape
hex_escape-EscapeFits e cs = ground (arith, length-digits hexadecimal 16 2 0 cs)

doubled-EscapeFits : (e v : ℕ) (cs : Bytes) → EscapeFits (suc (suc (length cs))) (doubled e v cs)
unfolding doubled
doubled-EscapeFits e v [] = omega arith
doubled-EscapeFits e v (d ∷ ds) = ground arith

control_escape-EscapeFits :
    (e : ℕ) (cs : Bytes) → EscapeFits (suc (length cs)) (control_escape e cs)
unfolding control_escape
control_escape-EscapeFits e [] = omega arith
control_escape-EscapeFits e (c ∷ cs) = elim (Option-cases (control c)) [
  | inl h ↦ ground (arith, h)
  | inr (v, h) ↦ ground (arith, h, doubled-EscapeFits e v cs)
]

octal_escape-EscapeFits : (e : ℕ) (cs : Bytes) → EscapeFits (suc (length cs)) (octal_escape e cs)
unfolding octal_escape
octal_escape-EscapeFits e cs = ground (arith, length-digits octal 8 2 (e - b'0') cs)

escape-EscapeFits : (e : ℕ) (cs : Bytes) → EscapeFits (suc (length cs)) (escape e cs)
unfolding escape
escape-EscapeFits e cs = elim (Option-cases (simple_escape e)) [
  | inl h ↦ ground (
    arith,
    h,
    hex_escape-EscapeFits e cs,
    control_escape-EscapeFits e cs,
    octal_escape-EscapeFits e cs,
  )
  | inr (c, h) ↦ ground (arith, h)
]

finish-StepFits :
    (lib : Characters) (n : ℕ) (x : Escape) → EscapeFits n x → StepFits (suc n) (finish lib x)
unfolding finish
finish-StepFits lib n x h = ground (arith, h, length-append x.before (x.byte ∷ []))

StepFits-if :
    (n : ℕ) (b : Bool) (x y : Step)
    → (b ≡ true → StepFits n x)
    → StepFits n y
    → StepFits n (if b then x else y)
StepFits-if n true x y h k = h refl
StepFits-if n false x y h k = k

wide-StepFits :
    (width c : ℕ) (cs : Bytes)
    → ltb 1 width ≡ true
    → StepFits (suc (length cs)) (emit (take width (c ∷ cs)) (drop width (c ∷ cs)))
wide-StepFits zero c cs h = cc
wide-StepFits (suc width) c cs h = omega (arith, length-take-drop width cs)

backslash-StepFits :
    (lib : Characters) (e : ℕ) (cs : Bytes) → StepFits (suc (suc (length cs))) (backslash lib e cs)
unfolding backslash
backslash-StepFits lib e cs =
    let width = character_length lib (e ∷ cs) true true in
    StepFits-if (suc (suc (length cs))) (ltb 1 width)
      (emit (b'\\' ∷ take width (e ∷ cs)) (drop width (e ∷ cs))) (finish lib (escape e cs))
      (λ h. omega (arith, length-take-drop width (e ∷ cs)))
      (finish-StepFits lib (suc (length cs)) (escape e cs) (escape-EscapeFits e cs))

narrow-StepFits :
    (lib : Characters) (c : ℕ) (cs : Bytes) → StepFits (suc (length cs)) (narrow lib c cs)
unfolding narrow
narrow-StepFits lib c [] = finish-StepFits lib 0 (plainly c []) (omega arith)
narrow-StepFits lib c (e ∷ cs) =
    StepFits-if (suc (suc (length cs))) (c == b'\\') (backslash lib e cs)
      (finish lib (plainly c (e ∷ cs))) (λ h. backslash-StepFits lib e cs)
      (finish-StepFits lib (suc (length cs)) (plainly c (e ∷ cs)) (omega arith))

step-StepFits : (lib : Characters) (c : ℕ) (cs : Bytes) → StepFits (suc (length cs)) (step lib c cs)
unfolding step
step-StepFits lib c cs =
    let width = character_length lib (c ∷ cs) true true in
    StepFits-if (suc (length cs)) (ltb 1 width) (emit (take width (c ∷ cs)) (drop width (c ∷ cs)))
      (narrow lib c cs) (wide-StepFits width c cs) (narrow-StepFits lib c cs)

-- The decoder answers, and a result has at most `n` bytes.
abbrev pub DecodesWithin : ℕ → Option QuoteResult → Type 0
DecodesWithin n none = ⊥
DecodesWithin n (some (ok out)) = length out ≤ n
DecodesWithin n (some r) = Unit

-- What the loop makes of a round.
abbrev after_step : Step → (Bytes → Option QuoteResult) → Option QuoteResult
after_step s loop = elim s [
  | refuse ↦ some invalid
  | stop out ↦ some (ok out)
  | emit out rest ↦ elim (loop rest) [ none ↦ none | some r ↦ some (prepend out r) ]
]

prepend-DecodesWithin :
    (n m : ℕ) (out : Bytes) (r : Option QuoteResult)
    → DecodesWithin m r
    → length out + m ≤ n
    → DecodesWithin n (elim r [ none ↦ none | some x ↦ some (prepend out x) ])
unfolding prepend
prepend-DecodesWithin n m out none h le = absurd h
prepend-DecodesWithin n m out (some (ok o)) h le = omega (arith, h, le, length-append out o)
prepend-DecodesWithin n m out (some invalid) h le = tt
prepend-DecodesWithin n m out (some nomem) h le = tt

after_step-DecodesWithin :
    (n : ℕ) (s : Step) (loop : Bytes → Option QuoteResult)
    → StepFits n s
    → ((rest : Bytes) → length rest < n → DecodesWithin (length rest) (loop rest))
    → DecodesWithin n (after_step s loop)
after_step-DecodesWithin n refuse loop h g = tt
after_step-DecodesWithin n (stop out) loop h g = h
after_step-DecodesWithin n (emit out rest) loop h g =
    prepend-DecodesWithin n (length rest) out (loop rest) (g rest h.1) h.0

decode_loop-DecodesWithin :
    (lib : Characters) (f : ℕ) (text : Bytes)
    → length text < f
    → DecodesWithin (length text) (decode_loop lib f text)
unfolding decode_loop
decode_loop-DecodesWithin lib zero text h = absurd (omega (arith, h))
decode_loop-DecodesWithin lib (suc f) [] h = omega arith
decode_loop-DecodesWithin lib (suc f) (c ∷ cs) h =
    after_step-DecodesWithin (suc (length cs)) (step lib c cs) (λ rest. decode_loop lib f rest)
      (step-StepFits lib c cs)
      λ rest less. decode_loop-DecodesWithin lib f rest (omega (arith, less, h))

DecodesWithin-if :
    (n : ℕ) (b : Bool) (x y : Option QuoteResult)
    → DecodesWithin n x
    → DecodesWithin n y
    → DecodesWithin n (if b then x else y)
DecodesWithin-if n true x y h k = h
DecodesWithin-if n false x y h k = k

-- `csh_quote_decode` answers for every region and every behaviour of the C library's `mbrlen` and
-- `btowc`, and a result fits the buffer that is allocated: it is no longer than the region.
pub decode-DecodesWithin :
    (lib : Characters) (text : Bytes) (m : Memory) → DecodesWithin (length text) (decode lib text m)
unfolding decode
decode-DecodesWithin lib text m =
    DecodesWithin-if (length text) (has_nul text) (some invalid) _ tt (
      DecodesWithin-if (length text) (allocate m).0 _ (some nomem)
        (decode_loop-DecodesWithin lib (suc (length text)) text (omega arith)) tt)
