-- ===== src/Examples/Locking.antt =====
-- The theorems about a session's mutexes (ssh-transport/src/lib.rs) on a schedule of three operations.
use rust_core.Base.{◌≡◌, ◌⊎◌, ◌≤◌, refl, List, [], ◌∷◌, All, map}
use rust_core.Session.Locks.{Operation, acquire, release, enter, call, take, called, gone, System}
use rust_core.Session.Locks.{act, remaining, turn, Reaches, start, later, program, handle_lock}
use rust_core.Session.Locks.{write_half_lock}
use rust_core.Session.Locks.Discipline.{IsOrderly}
use rust_core.Session.Locks.Sound.{Reaches-IsOrderly}
use rust_core.Session.Locks.Ends.{turns, steps_left, turns_lem}
use rust_core.Session.Locks.Progress.{CanTurn}
use rust_core.Session.Locks.Stalls.{CanGo, Awaits, stalled_lem}

abbrev ops : List Operation
ops = Operation.exec 1 ∷ Operation.disconnect ∷ Operation.write ∷ []

abbrev waiting_ops : List Operation
waiting_ops = Operation.exec 1 ∷ Operation.disconnect ∷ []

pub record Run (os : List Operation) : Type 0 where
  pub last : System
  pub reach : Reaches os last

-- `exec` has the connection when `disconnect` comes for it, and `write` comes too late for the shell.
unfoldable schedule : Run ops
unfolding program act remaining
schedule = record {
  last = _;
  reach =
      later
        (later
          (later
            (later
              (later
                (later
                  (later
                    (later (later start (turn [] _ (acquire handle_lock) _ _ refl))
                      (turn (_ ∷ []) _ (acquire write_half_lock) _ _ refl))
                    (turn (_ ∷ []) _ (take write_half_lock) _ _ tt))
                  (turn [] _ (enter handle_lock) _ _ tt))
                (turn (_ ∷ []) _ (release write_half_lock) _ _ tt))
              (turn (_ ∷ _ ∷ []) _ (acquire write_half_lock) _ _ refl))
            (turn (_ ∷ _ ∷ []) _ (enter write_half_lock) _ _ tt))
          (turn [] _ (call handle_lock) _ _ tt))
        (turn [] _ (release handle_lock) _ _ tt);
}

Reaches-IsOrderly_example : IsOrderly (called handle_lock ∷ gone write_half_lock ∷ [])
unfolding schedule act
Reaches-IsOrderly_example = Reaches-IsOrderly ops schedule.reach

-- `disconnect` has closed the shell and waits for the connection, through which `exec` awaits a reply.
unfoldable waiting : Run waiting_ops
unfolding program act remaining
waiting = record {
  last = _;
  reach =
      later
        (later
          (later
            (later (later start (turn [] _ (acquire handle_lock) _ _ refl))
              (turn [] _ (enter handle_lock) _ _ tt))
            (turn (_ ∷ []) _ (acquire write_half_lock) _ _ refl))
          (turn (_ ∷ []) _ (take write_half_lock) _ _ tt))
        (turn (_ ∷ []) _ (release write_half_lock) _ _ tt);
}

stalled_lem_example :
    CanGo waiting.last.0 waiting.last.1
    ⊎ All (λ t. (t ≡ []) ⊎ Awaits waiting.last.1 t) waiting.last.1
stalled_lem_example = stalled_lem waiting_ops waiting.reach

turns_lem_example :
    (turns waiting.reach ≤ steps_left (map program waiting_ops))
    × (All (λ t. t ≡ []) waiting.last.1 ⊎ CanTurn waiting.last)
turns_lem_example = turns_lem waiting_ops waiting.reach
