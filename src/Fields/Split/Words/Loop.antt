-- ===== src/Fields/Split/Words/Loop.antt =====
-- `csh_expand_fields` at white space gives the words of a text.
use cshell.Prelude.{
  ℕ, zero, suc, ◌+◌, ◌-◌, ◌<◌, ◌≡◌, refl, ap, sym, ◌∙◌, true, false, some, List, [], ◌∷◌, ◌++◌,
  arith, ◌==◌, if◌then◌else◌, Bool-cases, inl, inr,
}
use cshell.Prelude.Bytes.{Bytes}
use cshell.Prelude.Lists.{length, drop}
use cshell.Prelude.Memory.{allocate}
use cshell.Character.{character_length}
use cshell.Fields.{argument, unquoted, ok, Span, Mark, poll, Output, append, is_quoted, is_argument}
use cshell.Fields.Split.{
  Setting, Cursor, settle, current, ifs_width, delimiter, emit, marks, white_loop, Rest, and_then,
  delimited, field_round, field_loop, amount, split_field, has_nul, is_valid, check_spans,
  finish_field, fields_loop, finish, expand_fields,
}
use cshell.Fields.Split.Words.{
  is_in, words_from, AllWhite, skip, Suffix, words_from-skip, length-skip, append_nil, append_one,
  bytes_of-marks, length-marks, marks-append, ifs_loop-is_in, Suffix-tail,
}

module _ (set : Setting) (s : Span) (one_wide : (t : Bytes) → ifs_width set.lib t ≡ 1)
    (one_byte : (c : ℕ) (cs : Bytes) → character_length set.lib (c ∷ cs) false true ≡ 1)
    (white : AllWhite set.ifs) (plain : set.noglob ≡ true) (splits : s.split ≡ true)
    (bare : s.quote ≡ unquoted) (dropped : s.keep_empty ≡ false) where
  -- The cursor at what is left, and where `current` takes it.
  unfoldable at_rest : Bytes → Cursor
  at_rest rest = record { spans = s ∷ []; offset = length s.text - length rest }

  unfoldable landing : Bytes → Cursor
  landing rest = current (at_rest rest)

  landing-more : (c : ℕ) (cs : Bytes) → Suffix s.text (c ∷ cs) → landing (c ∷ cs) ≡ at_rest (c ∷ cs)
  unfolding landing at_rest current settle
  landing-more c cs (d, h) = ground (arith, h)

  landing-end : landing [] ≡ record { spans = []; offset = 0 }
  unfolding landing at_rest current settle
  landing-end = ground (arith, dropped)

  delimiter-more :
      (c : ℕ) (cs : Bytes)
      → Suffix s.text (c ∷ cs)
      → delimiter set.lib set.ifs (at_rest (c ∷ cs))
        ≡ (if is_in c set.ifs then (1, true) else (0, false))
  unfolding delimiter at_rest is_quoted
  delimiter-more c cs (d, h) = ground (
    arith,
    d,
    h,
    splits,
    bare,
    ifs_loop-is_in set.lib (length set.ifs) set.ifs c cs one_wide white (omega arith),
  )

  Suffix-skip : (rest : Bytes) → Suffix s.text rest → Suffix s.text (skip set.ifs rest)
  Suffix-skip [] h = h
  Suffix-skip (c ∷ cs) h = elim (Bool-cases (is_in c set.ifs)) [
    | inl e ↦ rw e (Suffix-skip cs (Suffix-tail s.text c cs h))
    | inr e ↦ rw e h
  ]

  -- The cursor one byte on.
  current-next :
      (c : ℕ) (cs : Bytes)
      → Suffix s.text (c ∷ cs)
      → current (record { spans = s ∷ []; offset = (length s.text - length (c ∷ cs)) + 1 })
        ≡ landing cs
  unfolding landing at_rest
  current-next c cs (d, h) =
      let same : (length s.text - length (c ∷ cs)) + 1 ≡ length s.text - length cs =
        omega (arith, h) in
      ap (λ o. current (record { spans = s ∷ []; offset = o })) same

  landing-stays : (rest : Bytes) → Suffix s.text rest → current (landing rest) ≡ landing rest
  landing-stays [] h = unfold current settle in ap current landing-end ∙ sym landing-end
  landing-stays (c ∷ cs) h =
      let same = landing-more c cs h in ap current same ∙ (unfold landing in refl)

  white_loop-skip :
      (f : ℕ) (rest : Bytes)
      → Suffix s.text rest
      → length rest < f
      → white_loop set f
          (delimiter set.lib set.ifs (landing rest)).0
          (delimiter set.lib set.ifs (landing rest)).1
          (landing rest)
          []
        ≡ some (some (0, landing (skip set.ifs rest)), [])
  unfolding white_loop poll at_rest
  white_loop-skip zero rest h l = absurd (omega (arith, l))
  white_loop-skip (suc f) [] h l = rw landing-end (unfold delimiter in refl)
  white_loop-skip (suc f) (c ∷ cs) h l = elim (Bool-cases (is_in c set.ifs)) [
    | inr e ↦ ground (arith, landing-more c cs h, delimiter-more c cs h, e)
    | inl e ↦
        let next = white_loop-skip f cs (Suffix-tail s.text c cs h) (omega (arith, l)) in
        ground (arith, landing-more c cs h, delimiter-more c cs h, e, current-next c cs h, next)
  ]

  abbrev output : List Bytes → Output
  output vs = record { values = vs; memory = []; polls = [] }

  emit-word :
      (cur : Bytes) (vs : List Bytes)
      → emit set argument (marks s cur) (output vs) ≡ some (ok, output (vs ++ (cur ∷ [])))
  unfolding emit append allocate
  emit-word cur vs = ground (arith, plain, bytes_of-marks s cur)

  field_round-plain :
      (rest : Rest) (d : ℕ) (ds : Bytes) (raw : List Mark) (vs : List Bytes)
      → Suffix s.text (d ∷ ds)
      → is_in d set.ifs ≡ false
      → field_round set argument rest
          (s ∷ [])
          (length s.text - length (d ∷ ds))
          raw
          false
          (output vs)
        ≡ rest
            (record { spans = s ∷ []; offset = (length s.text - length (d ∷ ds)) + 1 })
            (raw ++ marks s (d ∷ []))
            false
            (output vs)
  unfolding field_round poll is_argument at_rest
  field_round-plain rest d ds raw vs (h, k) e =
      ground (arith, h, k, e, delimiter-more d ds (h, k), one_byte d ds)

  field_round-white :
      (rest : Rest) (d : ℕ) (ds : Bytes) (raw : List Mark) (vs : List Bytes)
      → Suffix s.text (d ∷ ds)
      → is_in d set.ifs ≡ true
      → field_round set argument rest
          (s ∷ [])
          (length s.text - length (d ∷ ds))
          raw
          false
          (output vs)
        ≡ delimited set argument rest raw false
            (output vs)
            (some (some (0, landing (skip set.ifs (d ∷ ds))), []))
  unfolding field_round poll is_argument at_rest
  field_round-white rest d ds raw vs (h, k) e = ground (
    arith,
    h,
    k,
    e,
    delimiter-more d ds (h, k),
    landing-more d ds (h, k),
    white_loop-skip (suc (suc (length s.text) + 0)) (d ∷ ds) (h, k) (omega (arith, k)),
  )

  delimited-word :
      (rest : Rest) (cur : Bytes) (vs : List Bytes) (next : Cursor)
      → delimited set argument rest (marks s cur) false (output vs) (some (some (0, next), [])) ≡ (
          if length cur == 0
          then rest (record next { offset = next.offset + 0 }) [] false (output vs)
          else rest (record next { offset = next.offset + 0 }) [] false (output (vs ++ (cur ∷ []))))
  unfolding delimited and_then
  delimited-word rest cur vs next = ground (arith, length-marks s cur, emit-word cur vs)

  field_round-end :
      (rest : Rest) (cur : Bytes) (vs : List Bytes)
      → field_round set argument rest [] 0 (marks s cur) false (output vs)
        ≡ some (ok, output (vs ++ (if length cur == 0 then [] else cur ∷ [])))
  unfolding field_round
  field_round-end rest cur vs = ground (arith, length-marks s cur, emit-word cur vs, append_nil vs)

  current-here :
      (rest : Bytes)
      → Suffix s.text rest
      → current (record (landing rest) { offset = (landing rest).offset + 0 }) ≡ landing rest
  current-here rest h =
      let same : (landing rest).offset + 0 ≡ (landing rest).offset = omega arith in
      ap (λ o. current (record (landing rest) { offset = o })) same ∙ landing-stays rest h

  field_loop-words :
      (f : ℕ) (rest cur : Bytes) (vs : List Bytes) (c : Cursor)
      → Suffix s.text rest
      → length rest < f
      → current c ≡ landing rest
      → field_loop set argument f c (marks s cur) false (output vs)
        ≡ some (ok, output (vs ++ words_from set.ifs cur rest))
  unfolding field_loop at_rest marks
  field_loop-words zero rest cur vs c h l at = absurd (omega (arith, l))
  field_loop-words (suc f) [] cur vs c h l at =
      rw (at, landing-end) (field_round-end (field_loop set argument f) cur vs)
  field_loop-words (suc f) (d ∷ ds) cur vs c h l at =
      let tail = Suffix-tail s.text d ds h in
      let behind = skip set.ifs (d ∷ ds) in
      let there = Suffix-skip (d ∷ ds) h in
      let next : Cursor = record (landing behind) { offset = (landing behind).offset + 0 } in
      let stands = current-here behind there in
      elim (Bool-cases (is_in d set.ifs)) [
        | inr e ↦
            let one_on : Cursor = record {
              spans = s ∷ [];
              offset = (length s.text - length (d ∷ ds)) + 1;
            } in
            rw (at, landing-more d ds h)
              (field_round-plain (field_loop set argument f) d ds (marks s cur) vs h e
                ∙ ap (λ raw. field_loop set argument f one_on raw false (output vs))
                    (marks-append s cur (d ∷ []))
                ∙ field_loop-words f ds (cur ++ (d ∷ [])) vs one_on tail (omega (arith, l))
                    (current-next d ds h)
                ∙ ground (arith, e))
        | inl e ↦
            let fewer : length behind < f = ground (arith, e, length-skip set.ifs ds, l) in
            let same : words_from set.ifs [] behind ≡ words_from set.ifs [] ds =
              ground (arith, e, words_from-skip set.ifs ds) in
            rw (at, landing-more d ds h)
              (field_round-white (field_loop set argument f) d ds (marks s cur) vs h e
                ∙ delimited-word (field_loop set argument f) cur vs (landing behind)
                ∙ elim (Bool-cases (length cur == 0)) [
                  | inl z ↦
                      ground
                        (arith, z, e, same, field_loop-words f behind [] vs next there fewer stands)
                  | inr n ↦ ground (
                    arith,
                    n,
                    e,
                    same,
                    append_one vs (words_from set.ifs [] ds) cur,
                    field_loop-words f behind [] (vs ++ (cur ∷ [])) next there fewer stands,
                  )
                ])
      ]

  start-landing : current (record { spans = s ∷ []; offset = 0 }) ≡ landing s.text
  unfolding landing at_rest
  start-landing =
      let same : 0 ≡ length s.text - length s.text = omega arith in
      ap (λ o. current (record { spans = s ∷ []; offset = o })) same

  split_field-words :
      split_field set argument (s ∷ []) (output [])
      ≡ some (ok, output (words_from set.ifs [] s.text))
  unfolding split_field allocate is_argument marks
  split_field-words =
      let whole : Suffix s.text s.text = (drop_none (length s.text) s.text, omega arith) in
      field_loop-words (suc (amount (s ∷ []))) s.text [] [] (record { spans = s ∷ []; offset = 0 })
        whole (omega arith) start-landing
    where
      drop_none : (n : ℕ) (b : Bytes) → drop (n - n) b ≡ b
      drop_none n b = let same : 0 ≡ n - n = omega arith in ap (λ k. drop k b) (sym same)

-- An unquoted span that may be split, alone in its field, under an IFS of white space alone, in a
-- locale of one-byte characters, with NOGLOB set and nothing failing, becomes the words of its text,
-- which the bytes of IFS separate.
pub expand_fields-words :
    (set : Setting) (s : Span)
    → ((t : Bytes) → ifs_width set.lib t ≡ 1)
    → ((c : ℕ) (cs : Bytes) → character_length set.lib (c ∷ cs) false true ≡ 1)
    → AllWhite set.ifs
    → set.noglob ≡ true
    → s.split ≡ true
    → s.quote ≡ unquoted
    → s.keep_empty ≡ false
    → has_nul s.text ≡ false
    → expand_fields set argument ((s ∷ []) ∷ []) [] [] ≡ some (ok, words_from set.ifs [] s.text)
unfolding expand_fields finish fields_loop finish_field and_then check_spans is_valid poll is_quoted
expand_fields-words set s one_wide one_byte white plain splits bare dropped clean = ground (
  arith,
  splits,
  bare,
  dropped,
  clean,
  split_field-words set s one_wide one_byte white plain splits bare dropped,
)
