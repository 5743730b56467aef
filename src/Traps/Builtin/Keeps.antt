-- ===== src/Traps/Builtin/Keeps.antt =====
-- What every operation of the builtin `trap` keeps of the table and the signals.
use cshell.Prelude.{
  ℕ, zero, suc, ◌≡◌, ◌∙◌, refl, subst, sym, Bool, true, false, not, ◌&&◌, ◌||◌, Option, none, some,
  List, [], ◌∷◌, ◌++◌, arith, ltb, ◌==◌, if◌then◌else◌, Bool-cases, Option-cases, inl, inr,
}
use cshell.Prelude.Bytes.{Bytes, bytes_eq, codes}
use cshell.Prelude.Memory.{allocate}
use cshell.Prelude.Stream.{write}
use cshell.Jobs.Signals.{Host}
use cshell.Traps.{Kernel, World, trap_limit}
use cshell.Traps.Builtin.{
  install_one, list_operand, and_write, condition_name, quote_action, Session, complain, condition,
  reset, set_action, install, install_each, list_one, list_each, list_all, set_traps, list_traps,
  builtin_trap, is_option,
}

-- The world with another action for EXIT.
abbrev pub with_exit : Option Bytes → World → World
with_exit action w = record w {
  table = record w.table { exit_action = action; exit_inherited = false };
}

-- A run of `install` leaves the world, sets the action for EXIT, or resets or sets a signal that was
-- not ignored on entry.
pub install-by :
    (P : World → Type 0) (kernel : Kernel) (number : ℕ) (action : Option Bytes) (s : Session)
    → P s.world
    → P (with_exit action s.world)
    → (s.world.table.entry_ignored number ≡ false
        → (t : Session) → t.world ≡ s.world
        → P (reset kernel number t).1.world)
    → (s.world.table.entry_ignored number ≡ false
        → (a : Bytes) (t : Session) → t.world ≡ s.world
        → P (set_action kernel number a t).1.world)
    → P (install kernel number action s).1.world
unfolding install complain
install-by P kernel number none s here exit resets sets = elim (Bool-cases (number == 0)) [
  | inl e ↦ rw e exit
  | inr e ↦ elim (Bool-cases (s.world.table.entry_ignored number)) [
    | inl i ↦ rw (e, i) here
    | inr i ↦ rw (e, i) (resets i (record s { memory = s.memory }) refl)
  ]
]
install-by P kernel number (some a) s here exit resets sets =
    elim (Bool-cases (allocate s.memory).0) [
      | inr e ↦ rw e here
      | inl g ↦ elim (Bool-cases (number == 0)) [
        | inl e ↦ rw (g, e) exit
        | inr e ↦ elim (Bool-cases (s.world.table.entry_ignored number)) [
          | inl i ↦ rw (g, e, i) here
          | inr i ↦ rw (g, e, i) (sets i a (record s { memory = (allocate s.memory).1 }) refl)
        ]
      ]
    ]

print_one-world :
    (host : Host) (number : ℕ) (s : Session) (shown : Option Bytes)
    → (elim shown as (λ x. Bool × Session) [
      | none ↦ (true, s)
      | some action ↦
          let (went, o) =
            and_write
              (codes " " ++ (condition_name host number ++ codes "\n"))
              (quote_action action (write (codes "trap -- ") s.out)) in
          let s' : Session = record s { out = o } in
          if went then (true, s') else (false, complain (codes "cannot write output") none s')
    ]).1.world
      ≡ s.world
unfolding complain
print_one-world host number s none = refl
print_one-world host number s (some action) = ground arith

list_one-world :
    (host : Host) (number : ℕ) (defaults : Bool) (s : Session)
    → (list_one host number defaults s).1.world ≡ s.world
unfolding list_one
list_one-world host number defaults s = print_one-world host number s _

list_operand-world :
    (host : Host) (kernel : Kernel) (a : Bytes) (s : Session)
    → (list_operand host kernel a s).1.world ≡ s.world
unfolding list_operand complain
list_operand-world host kernel a s = elim (Option-cases (condition host kernel a)) [
  | inl e ↦ rw (e, list_operand) refl
  | inr (number, e) ↦ rw (e, list_operand) (list_one-world host number true s)
]

list_each-world :
    (host : Host) (kernel : Kernel) (as' : List Bytes) (went : Bool) (s : Session)
    → (list_each host kernel as' went s).1.world ≡ s.world
unfolding list_each
list_each-world host kernel [] went s = refl
list_each-world host kernel (a ∷ as') went s =
    list_each-world host kernel as' _ (list_operand host kernel a s).1
    ∙ list_operand-world host kernel a s

list_all-world :
    (host : Host) (kernel : Kernel) (defaults : Bool) (n i : ℕ) (went : Bool) (s : Session)
    → (list_all host kernel defaults n i went s).1.world ≡ s.world
unfolding list_all
list_all-world host kernel defaults zero i went s = refl
list_all-world host kernel defaults (suc n) i went s =
    let hidden = i == kernel.sigkill || i == kernel.sigstop || (ltb 0 i && not (kernel.asks i)) in
    let shown = list_one host i defaults s in
    list_all-world host kernel defaults n (suc i) (if hidden then went else went && shown.0)
      (if hidden then s else shown.1)
    ∙ ground (arith, list_one-world host i defaults s)

module _ (P : World → Type 0) (host : Host) (kernel : Kernel)
    (installs : (number : ℕ) (action : Option Bytes) (s : Session)
      → P s.world
      → P (install kernel number action s).1.world) where
  install_one-keeps :
      (action : Option Bytes) (a : Bytes) (s : Session)
      → P s.world
      → P (install_one host kernel action a s).1.world
  unfolding install_one complain
  install_one-keeps action a s p = elim (Option-cases (condition host kernel a)) [
    | inl e ↦ rw (e, install_one) p
    | inr (number, e) ↦ rw (e, install_one) (installs number action s p)
  ]

  install_each-keeps :
      (action : Option Bytes) (as' : List Bytes) (went : Bool) (s : Session)
      → P s.world
      → P (install_each host kernel action as' went s).1.world
  unfolding install_each
  install_each-keeps action [] went s p = p
  install_each-keeps action (a ∷ as') went s p =
      install_each-keeps action as' _ (install_one host kernel action a s).1
        (install_one-keeps action a s p)

  conditions-keep :
      (operands : List Bytes) (action : Option Bytes) (s : Session)
      → P s.world
      → P
          (elim operands as (λ x. Bool × Session) [
            | [] ↦ (false, complain (codes "missing condition") none s)
            | o ∷ os ↦ install_each host kernel action (o ∷ os) true s
          ]).1.world
  unfolding complain
  conditions-keep [] action s p = p
  conditions-keep (o ∷ os) action s p = install_each-keeps action (o ∷ os) true s p

  set_traps-keeps :
      (operands : List Bytes) (s : Session)
      → P s.world
      → P (set_traps host kernel operands s).1.world
  unfolding set_traps
  set_traps-keeps [] s p = subst P (sym (list_all-world host kernel false trap_limit 0 true s)) p
  set_traps-keeps (a ∷ as') s p = conditions-keep _ _ s p

  listed-keeps :
      (rest : List Bytes) (s : Session)
      → P s.world
      → P
          (elim rest as (λ x. Bool × Session) [
            | [] ↦ list_all host kernel true trap_limit 0 true s
            | o ∷ os ↦ list_each host kernel (o ∷ os) true s
          ]).1.world
  listed-keeps [] s p = subst P (sym (list_all-world host kernel true trap_limit 0 true s)) p
  listed-keeps (o ∷ os) s p = subst P (sym (list_each-world host kernel (o ∷ os) true s)) p

  list_traps-keeps :
      (operands : List Bytes) (s : Session)
      → P s.world
      → P (list_traps host kernel operands s).1.world
  unfolding list_traps
  list_traps-keeps operands s p = listed-keeps _ s p

  pub builtin_trap-keeps :
      (operands : List Bytes) (s : Session)
      → P s.world
      → P (builtin_trap host kernel operands s).1.world
  unfolding builtin_trap complain
  builtin_trap-keeps [] s p = set_traps-keeps [] s p
  builtin_trap-keeps (a ∷ as') s p = elim (Bool-cases (bytes_eq a (codes "-p"))) [
    | inl e ↦ rw (e, builtin_trap) (list_traps-keeps as' s p)
    | inr e ↦ elim (Bool-cases (bytes_eq a (codes "--"))) [
      | inl d ↦ rw (e, d, builtin_trap) (set_traps-keeps as' s p)
      | inr d ↦ elim (Bool-cases (is_option a)) [
        | inl o ↦ rw (e, d, o, builtin_trap) p
        | inr o ↦ rw (e, d, o, builtin_trap) (set_traps-keeps (a ∷ as') s p)
      ]
    ]
  ]
