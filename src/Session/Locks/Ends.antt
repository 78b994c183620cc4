-- ===== src/Session/Locks/Ends.antt =====
-- That operations of ssh-transport/src/lib.rs that run side by side all come to their end.
use rust_core.Base.{ℕ, suc, ◌+◌, ◌≤◌, ◌≡◌, ◌⊎◌, Bool-cases, inl, inr, List, [], ◌∷◌, ◌++◌, map}
use rust_core.Base.{All, length, arith}
use rust_core.Session.Locks.{Action, acquire, release, enter, call, take, Operation, Shared}
use rust_core.Session.Locks.{program, remaining, System, turn, Reaches, start, later}
use rust_core.Session.Locks.Discipline.{IsDisciplined, All-middle}
use rust_core.Session.Locks.Sound.{Reaches-IsSound}
use rust_core.Session.Locks.Progress.{CanTurn}
use rust_core.Session.Locks.Stalls.{no_deadlock}

-- The steps that some threads have left to do.
abbrev pub steps_left : List (List Action) → ℕ
steps_left [] = 0
steps_left (t ∷ ts) = length t + steps_left ts

-- The turns of a run.
abbrev pub turns : {ops : List Operation} {x : System} → Reaches ops x → ℕ
turns start = 0
turns (later r t) = suc (turns r)

steps_left-middle :
    (before after : List (List Action)) (t : List Action)
    → steps_left (before ++ (t ∷ after)) ≡ steps_left before + length t + steps_left after
steps_left-middle [] after t = omega arith
steps_left-middle (u ∷ before) after t = omega (arith, steps_left-middle before after t)

-- A test that fails leaves the release of its guard, which was to come in any case.
length-remaining :
    (a : Action) (rest : List Action) (s : Shared)
    → IsDisciplined (a ∷ rest)
    → length (remaining a rest s) ≤ length rest
unfolding remaining
length-remaining (enter l) [] s (((held, _), _)) = cc
length-remaining (enter l) (a ∷ rest) s d = elim (Bool-cases (s.full l)) [
  | inl there ↦ rw there (omega arith)
  | inr missing ↦ rw missing (omega arith)
]
length-remaining (acquire l) rest s d = omega arith
length-remaining (release l) rest s d = omega arith
length-remaining (call l) rest s d = omega arith
length-remaining (take l) rest s d = omega arith

turns_bounded :
    (ops : List Operation) {x : System} (r : Reaches ops x)
    → turns r + steps_left x.1 ≤ steps_left (map program ops)
turns_bounded ops start = omega arith
turns_bounded ops (later r (turn before after a rest s can)) =
    let sound = Reaches-IsSound ops r in
    let d = (All-middle IsDisciplined before after (a ∷ rest) sound.disciplined).1 in
    omega (
      arith,
      turns_bounded ops r,
      steps_left-middle before after (a ∷ rest),
      steps_left-middle before after (remaining a rest s),
      length-remaining a rest s d,
    )

-- Operations that run side by side on an open session and on any number of its channels and remote
-- files, in any order of their steps: a run has at most as many steps as their programs together, and
-- it can go on until all of them have ended, if each awaited call of the library returns in the end.
pub turns_lem :
    (ops : List Operation) {x : System} (r : Reaches ops x)
    → (turns r ≤ steps_left (map program ops)) × (All (λ t. t ≡ []) x.1 ⊎ CanTurn x)
turns_lem ops r = (omega (arith, turns_bounded ops r), no_deadlock ops r)
