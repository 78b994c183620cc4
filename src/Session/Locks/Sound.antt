-- ===== src/Session/Locks/Sound.antt =====
-- That every step of the operations of a session (ssh-transport/src/lib.rs) keeps the order of its
-- mutexes' guards and fields.
use rust_core.Base.{ℕ, ◌+◌, ◌≤◌, ◌≡◌, refl, sym, ap, ◌∙◌, inl, inr, Bool, true, false, Bool-cases}
use rust_core.Base.{List, [], ◌∷◌, ◌++◌, map, All, ◌==◌, arith}
use rust_core.Session.Locks.{Action, acquire, release, enter, call, take, Operation, program}
use rust_core.Session.Locks.{Shared, CanAct, act, remaining, System, turn, open_session, Reaches}
use rust_core.Session.Locks.{start, later}
use rust_core.Session.Locks.Discipline.{holds, needs, IsDisciplined, program-IsProgram, bit}
use rust_core.Session.Locks.Discipline.{holders, has_gone, IsOrderly, IsSound, holders-middle}
use rust_core.Session.Locks.Discipline.{All-middle, All-insert, none_needs}

remaining-IsDisciplined :
    (a : Action) (rest : List Action) (s : Shared)
    → IsDisciplined (a ∷ rest)
    → IsDisciplined (remaining a rest s)
unfolding remaining
remaining-IsDisciplined (acquire l) rest s d = d.1
remaining-IsDisciplined (release l) rest s d = d.1
remaining-IsDisciplined (enter l) rest s d = elim (Bool-cases (s.full l)) [
  | inl there ↦ rw there d.1
  | inr missing ↦ rw missing ((refl, refl), tt)
]
remaining-IsDisciplined (call l) rest s d = d.1
remaining-IsDisciplined (take l) rest s d = d.1

-- The guards, with those of `k` other threads.
remaining-holds :
    (a : Action) (rest : List Action) (s : Shared) (l k : ℕ)
    → CanAct a s
    → IsDisciplined (a ∷ rest)
    → k + bit (holds l (a ∷ rest)) ≡ bit (s.held l)
    → k + bit (holds l (remaining a rest s)) ≡ bit ((act a s).held l)
unfolding remaining act
remaining-holds (acquire m) rest s l k free d e = ground (arith, d.0.0, free)
remaining-holds (release m) rest s l k free d e = ground (arith, d.0.0)
remaining-holds (enter m) rest s l k free d e = ground (arith, d.0.0, d.0.1 l)
remaining-holds (call m) rest s l k free d e = e
remaining-holds (take m) rest s l k free d e = e

remaining-needs :
    (a : Action) (rest : List Action) (s : Shared) (l : ℕ)
    → IsDisciplined (a ∷ rest)
    → (s.full l ≡ false → needs l (a ∷ rest) ≡ false)
    → (act a s).full l ≡ false
    → needs l (remaining a rest s) ≡ false
unfolding remaining act
remaining-needs (acquire m) rest s l d backed missing = ground (arith, d.0.1, backed missing)
remaining-needs (release m) rest s l d backed missing = ground (arith, d.0.1, backed missing)
remaining-needs (enter m) rest s l d backed missing = ground (arith, backed missing)
remaining-needs (call m) rest s l d backed missing = ground (arith, backed missing)
remaining-needs (take m) rest s l d backed missing = ground (arith, d.0.1, backed)

-- Another thread: it has no guard while this one takes the field.
others-needs :
    (a : Action) (rest : List Action) (s : Shared) (l : ℕ) (ts : List (List Action))
    → IsDisciplined (a ∷ rest)
    → All IsDisciplined ts
    → holders l ts + bit (holds l (a ∷ rest)) ≤ 1
    → (s.full l ≡ false → All (λ t. needs l t ≡ false) ts)
    → (act a s).full l ≡ false
    → All (λ t. needs l t ≡ false) ts
unfolding act
others-needs (acquire m) rest s l ts d ds one backed missing = backed missing
others-needs (release m) rest s l ts d ds one backed missing = backed missing
others-needs (enter m) rest s l ts d ds one backed missing = backed missing
others-needs (call m) rest s l ts d ds one backed missing = backed missing
others-needs (take m) rest s l ts d ds one backed missing = elim (Bool-cases (l == m)) [
  | inl same ↦ none_needs l ts ds (ground (arith, d.0.0))
  | inr apart ↦ backed (ground arith)
]

act-fresh :
    (a : Action) (s : Shared) (l : ℕ)
    → (s.full l ≡ true → has_gone l s.trace ≡ false)
    → (act a s).full l ≡ true
    → has_gone l (act a s).trace ≡ false
unfolding act
act-fresh (acquire m) s l fresh e = fresh e
act-fresh (release m) s l fresh e = fresh e
act-fresh (enter m) s l fresh e = fresh e
act-fresh (call m) s l fresh e = fresh e
act-fresh (take m) s l fresh e = ground (arith, fresh)

act-IsOrderly :
    (a : Action) (rest : List Action) (s : Shared)
    → ((l : ℕ) → s.full l ≡ false → needs l (a ∷ rest) ≡ false)
    → ((l : ℕ) → s.full l ≡ true → has_gone l s.trace ≡ false)
    → IsOrderly s.trace
    → IsOrderly (act a s).trace
unfolding act
act-IsOrderly (acquire m) rest s backed fresh o = o
act-IsOrderly (release m) rest s backed fresh o = o
act-IsOrderly (enter m) rest s backed fresh o = o
act-IsOrderly (call m) rest s backed fresh o = elim (Bool-cases (s.full m)) [
  | inl there ↦ (fresh m there, o)
  | inr missing ↦ absurd (ground (arith, backed m missing))
]
act-IsOrderly (take m) rest s backed fresh o = elim (Bool-cases (s.full m)) [
  | inl there ↦ rw there o
  | inr missing ↦ rw missing o
]

bit_le : (b : Bool) → bit b ≤ 1
bit_le true = omega arith
bit_le false = omega arith

turn-IsSound :
    (before after : List (List Action)) (a : Action) (rest : List Action) (s : Shared)
    → CanAct a s
    → IsSound s (before ++ ((a ∷ rest) ∷ after))
    → IsSound (act a s) (before ++ (remaining a rest s ∷ after))
turn-IsSound before after a rest s can sound =
    let (bd, d, cd) = All-middle IsDisciplined before after (a ∷ rest) sound.disciplined in
    let backed : (l : ℕ) → s.full l ≡ false → needs l (a ∷ rest) ≡ false =
      λ l e. (All-middle (λ t. needs l t ≡ false) before after (a ∷ rest) (sound.backed l e)).1 in
    let split : (l : ℕ)
        → holders l before + bit (holds l (a ∷ rest)) + holders l after ≡ bit (s.held l) =
      λ l. sym (holders-middle l before after (a ∷ rest)) ∙ sound.counted l in
    record {
      counted = λ l.
          holders-middle l before after (remaining a rest s)
          ∙ omega (
            arith,
            remaining-holds a rest s l (holders l before + holders l after) can d
                (omega (arith, split l)),
          );
      disciplined =
          All-insert IsDisciplined before after (remaining a rest s) bd
            (remaining-IsDisciplined a rest s d) cd;
      backed = λ l e.
          All-insert (λ t. needs l t ≡ false) before after (remaining a rest s)
            (others-needs a rest s l before d bd (omega (arith, split l, bit_le (s.held l)))
              (λ e'.
                (All-middle (λ t. needs l t ≡ false) before after (a ∷ rest) (sound.backed l e')).0)
              e)
            (remaining-needs a rest s l d (backed l) e)
            (others-needs a rest s l after d cd (omega (arith, split l, bit_le (s.held l)))
              (λ e'.
                (All-middle (λ t. needs l t ≡ false) before after (a ∷ rest) (sound.backed l e')).2)
              e);
      fresh = λ l. act-fresh a s l (sound.fresh l);
      orderly = act-IsOrderly a rest s backed sound.fresh sound.orderly;
    }

start-counted : (ops : List Operation) (l : ℕ) → holders l (map program ops) ≡ 0
start-counted [] l = refl
start-counted (o ∷ ops) l = omega (arith, ap bit ((program-IsProgram o).1 l), start-counted ops l)

start-IsDisciplined : (ops : List Operation) → All IsDisciplined (map program ops)
start-IsDisciplined [] = tt
start-IsDisciplined (o ∷ ops) = ((program-IsProgram o).0, start-IsDisciplined ops)

start-IsSound : (ops : List Operation) → IsSound open_session (map program ops)
start-IsSound ops = record {
  counted = start-counted ops;
  disciplined = start-IsDisciplined ops;
  backed = λ l e. cc;
  fresh = λ l e. refl;
  orderly = tt;
}

-- Every state that some operations can come to is sound.
pub Reaches-IsSound : (ops : List Operation) {x : System} → Reaches ops x → IsSound x.0 x.1
Reaches-IsSound ops start = start-IsSound ops
Reaches-IsSound ops (later r (turn before after a rest s can)) =
    turn-IsSound before after a rest s can (Reaches-IsSound ops r)

-- Operations that run side by side on an open session and on any number of its channels and remote
-- files, in any order of their steps: no call goes through the shell's write half, the connection,
-- a channel's write half or a file after a `disconnect` has taken it.
pub Reaches-IsOrderly : (ops : List Operation) {x : System} → Reaches ops x → IsOrderly x.0.trace
Reaches-IsOrderly ops r = (Reaches-IsSound ops r).orderly
