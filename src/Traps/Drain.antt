-- ===== src/Traps/Drain.antt =====
-- `csh_traps_take`, called until it has no signal left, as the executor does between commands.
use cshell.Prelude.{
  ℕ, zero, suc, ◌+◌, ◌-◌, ◌≤◌, ◌<◌, ◌≡◌, refl, ◌∙◌, subst, sym, ap, true, false, Option, none, some,
  List, [], ◌∷◌, arith, ◌==◌, Bool-cases, Option-cases, inl, inr,
}
use cshell.Prelude.Bytes.{Bytes}
use cshell.Prelude.Lists.{length}
use cshell.Prelude.Memory.{Memory, allocate}
use cshell.Traps.{
  World, Taken, took, nothing, no_memory, clear, take_loop, take, first_loop, first_pending,
  trap_limit,
}

-- The signals from `i` on, `n` of them, that are pending and have an action, in their order.
unfoldable pub due : ℕ → ℕ → World → List (ℕ × Bytes)
due zero i w = []
due (suc n) i w = elim (w.pending i) [
  | false ↦ due n (suc i) w
  | true ↦ elim (w.table.entries i).action [
    | none ↦ due n (suc i) w
    | some a ↦ (i, a) ∷ due n (suc i) w
  ]
]

due-clear : (n i k : ℕ) (w : World) → k < i → due n i (clear k w) ≡ due n i w
unfolding due
due-clear zero i k w h = refl
due-clear (suc n) i k w h = ground (arith, h, due-clear n (suc i) k w)

-- The pending signals below `i` are the same, and all of the tables.
record Agree (i : ℕ) (w w' : World) : Type 0 where
  below : (k : ℕ) → k < i → w'.pending k ≡ w.pending k
  same_table : w'.table ≡ w.table
  same_active : w'.active ≡ w.active

-- What a call is to do with the signals from `i` on.
abbrev Takes : ℕ → ℕ → World → Taken × World × Memory → Type 0
Takes n i w (nothing, w', m) =
    Agree i w w' × (due n i w ≡ []) × ((k : ℕ) → i ≤ k → k < i + n → w'.pending k ≡ false)
Takes n i w (took k a, w', m) = Agree i w w' × (due n i w ≡ (k, a) ∷ due n i w')
Takes n i w (no_memory, w', m) = ⊥

Agree-trans : (i : ℕ) (w v w' : World) → Agree i w v → Agree (suc i) v w' → Agree i w w'
Agree-trans i w v w' s t = record {
  below = λ k h. t.below k (omega (arith, h)) ∙ s.below k h;
  same_table = t.same_table ∙ s.same_table;
  same_active = t.same_active ∙ s.same_active;
}

due-off : (n i : ℕ) (w : World) → w.pending i ≡ false → due (suc n) i w ≡ due n (suc i) w
unfolding due
due-off n i w h = ground (arith, h)

skipped :
    (n i : ℕ) (w v : World) (r : Taken × World × Memory)
    → Agree i w v
    → v.pending i ≡ false
    → due (suc n) i w ≡ due n (suc i) v
    → Takes n (suc i) v r
    → Takes (suc n) i w r
skipped n i w v (nothing, w', m) s off same (t, e, clean) = (
  Agree-trans i w v w' s t,
  same ∙ e,
  λ k low high. elim (Bool-cases (k == i)) [
    | inl at ↦ ground (arith, at, t.below i (omega arith), off)
    | inr past ↦ clean k (ground (arith, past, low)) (omega (arith, high))
  ],
)
skipped n i w v (took k a, w', m) s off same (t, e) = (
  Agree-trans i w v w' s t,
  ground (arith, same, e, due-off n i w' (t.below i (omega arith) ∙ off)),
)
skipped n i w v (no_memory, w', m) s off same t = t

Agree-clear : (i : ℕ) (w : World) → Agree i w (clear i w)
Agree-clear i w = record { below = λ k h. ground (arith, h); same_table = refl; same_active = refl }

Agree-refl : (i : ℕ) (w : World) → Agree i w w
Agree-refl i w = record { below = λ k h. refl; same_table = refl; same_active = refl }

take_loop-Takes : (n i : ℕ) (w : World) → Takes n i w (take_loop n i [] w)
unfolding take_loop due
take_loop-Takes zero i w = (Agree-refl i w, refl, λ k low high. absurd (omega (arith, low, high)))
take_loop-Takes (suc n) i w = elim (Bool-cases (w.pending i)) [
  | inr off ↦
      let same : take_loop n (suc i) [] w ≡ take_loop (suc n) i [] w = ground (arith, off) in
      subst (Takes (suc n) i w) same (
        skipped n i w w (take_loop n (suc i) [] w) (Agree-refl i w) off (due-off n i w off)
          (take_loop-Takes n (suc i) w))
  | inl on ↦ elim (Option-cases (w.table.entries i).action) [
    | inl bare ↦
        let same : take_loop n (suc i) [] (clear i w) ≡ take_loop (suc n) i [] w =
          ground (arith, on, bare) in
        subst (Takes (suc n) i w) same (
          skipped n i w (clear i w) (take_loop n (suc i) [] (clear i w)) (Agree-clear i w)
            (ground arith) (ground (arith, on, bare, due-clear n (suc i) i w (omega arith)))
            (take_loop-Takes n (suc i) (clear i w)))
    | inr (a, trapped) ↦
        let answer : Taken × World × Memory = (took i a, clear i w, []) in
        let same : answer ≡ take_loop (suc n) i [] w =
          unfold allocate in ground (arith, on, trapped) in
        subst (Takes (suc n) i w) same (
          Agree-clear i w,
          ground (
            arith,
            on,
            trapped,
            due-clear n (suc i) i w (omega arith),
            due-off n i (clear i w) (ground arith),
          ),
        )
  ]
]

-- `csh_traps_take` until it has nothing, on fuel, with memory for each action.
unfoldable pub drain : ℕ → World → Option (List (ℕ × Bytes) × World)
drain zero w = none
drain (suc f) w = elim (take [] w).0 [
  | nothing ↦ some ([], (take [] w).1)
  | no_memory ↦ none
  | took k a ↦ elim (drain f (take [] w).1) [
    | none ↦ none
    | some (later, w') ↦ some ((k, a) ∷ later, w')
  ]
]

-- What is left, and what was taken on the way, from `w`.
abbrev pub IsDrained : World → Option (List (ℕ × Bytes) × World) → Type 0
IsDrained w none = ⊥
IsDrained w (some (taken, w')) =
    (taken ≡ due (trap_limit - 1) 1 w) × (first_pending w' ≡ 0) × (w'.table ≡ w.table)

first_loop-off :
    (n i : ℕ) (w : World)
    → ((k : ℕ) → i ≤ k → k < i + n → w.pending k ≡ false)
    → first_loop n i w ≡ 0
unfolding first_loop
first_loop-off zero i w h = refl
first_loop-off (suc n) i w h = ground (
  arith,
  h i (omega arith) (omega arith),
  first_loop-off n (suc i) w (λ k low high. h k (omega (arith, low)) (omega (arith, high))),
)

length-due : (n i : ℕ) (w : World) → length (due n i w) ≤ n
unfolding due
length-due zero i w = omega arith
length-due (suc n) i w = ground (arith, length-due n (suc i) w)

drained :
    (w w' : World) (k : ℕ) (a : Bytes) (r : Option (List (ℕ × Bytes) × World))
    → w'.table ≡ w.table
    → due (trap_limit - 1) 1 w ≡ (k, a) ∷ due (trap_limit - 1) 1 w'
    → IsDrained w' r
    → IsDrained w (elim r [ none ↦ none | some (later, w'') ↦ some ((k, a) ∷ later, w'') ])
drained w w' k a none t e d = d
drained w w' k a (some (later, w'')) t e (same, off, table) =
    (ground (arith, e, same), off, table ∙ t)

-- One call, and what drains the rest.
drain_rest :
    (w : World) (rest : World → Option (List (ℕ × Bytes) × World)) (r : Taken × World × Memory)
    → Takes (trap_limit - 1) 1 w r
    → ((w' : World)
        → length (due (trap_limit - 1) 1 w') < length (due (trap_limit - 1) 1 w)
        → IsDrained w' (rest w'))
    → IsDrained w (elim r.0 [
      | nothing ↦ some ([], r.1)
      | no_memory ↦ none
      | took k a ↦ elim (rest r.1) [ none ↦ none | some (later, w') ↦ some ((k, a) ∷ later, w') ]
    ])
unfolding first_pending
drain_rest w rest (nothing, w', m) (s, e, clean) more =
    (sym e, ground (arith, first_loop-off (trap_limit - 1) 1 w' clean), s.same_table)
drain_rest w rest (no_memory, w', m) t more = t
drain_rest w rest (took k a, w', m) (s, e) more =
    drained w w' k a (rest w') s.same_table e (more w' (omega (arith, ap length e)))

drain_from : (f : ℕ) (w : World) → length (due (trap_limit - 1) 1 w) < f → IsDrained w (drain f w)
unfolding drain take
drain_from zero w h = absurd (omega (arith, h))
drain_from (suc f) w h =
    drain_rest w (drain f) (take_loop (trap_limit - 1) 1 [] w)
      (take_loop-Takes (trap_limit - 1) 1 w) (λ w' less. drain_from f w' (omega (arith, less, h)))

-- Between signals, calls of `csh_traps_take` with memory for the actions come to an end within 128
-- calls: they give each signal from 1 to 127 that is pending and has an action once, with its action,
-- in ascending order, then leave no signal pending, and the table as it was.
pub drain-due : (w : World) → IsDrained w (drain trap_limit w)
drain-due w = drain_from trap_limit w (omega (arith, length-due (trap_limit - 1) 1 w))
