-- ===== src/Session/Locks/Progress.antt =====
-- The holder of a mutex, and the steps that the operations of ssh-transport/src/lib.rs can take.
use rust_core.Base.{ℕ, ◌≡◌, refl, ap, inl, inr, true, Bool-cases, List, [], ◌∷◌, ◌++◌, arith}
use rust_core.Session.Locks.{Action, Shared, CanAct, act, remaining, System, Turn, turn}
use rust_core.Session.Locks.Discipline.{holds, holders}

-- A thread that has a guard.
abbrev pub Holder : ℕ → List (List Action) → Type 0
Holder l ts =
    (before : List (List Action)) × (t : List Action) × (after : List (List Action)) × (ts
      ≡ before ++ (t ∷ after))
    × (holds l t ≡ true)

pub find-Holder : (l : ℕ) (ts : List (List Action)) → holders l ts ≡ 1 → Holder l ts
find-Holder l [] e = cc
find-Holder l (t ∷ ts) e = elim (Bool-cases (holds l t)) [
  | inl here ↦ ([], t, ts, refl, here)
  | inr elsewhere ↦
      let (before, u, after, same, has) = find-Holder l ts (ground arith) in
      (t ∷ before, u, after, ap (λ us. t ∷ us) same, has)
]

-- Some thread can take a step.
abbrev pub CanTurn : System → Type 0
CanTurn x = (y : System) × Turn x y

pub can_turn :
    (s : Shared) (ts before after : List (List Action)) (a : Action) (rest : List Action)
    → ts ≡ before ++ ((a ∷ rest) ∷ after)
    → CanAct a s
    → CanTurn (s, ts)
can_turn s ts before after a rest same can =
    rw same ((act a s, before ++ (remaining a rest s ∷ after)), turn before after a rest s can)
