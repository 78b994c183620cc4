-- ===== src/Session/Locks/Stalls.antt =====
-- What an operation of ssh-transport/src/lib.rs that awaits a reply for a long time holds up.
use rust_core.Base.{◌≢◌, ℕ, ◌≡◌, ◌⊎◌, refl, sym, ap, ◌∙◌, inl, inr, Bool, true, false, Bool-cases}
use rust_core.Base.{List, [], ◌∷◌, ◌++◌, append_assoc, All, arith}
use native.Mathlib.Decide.{ℕ_discrete}
use rust_core.Session.Locks.{Action, acquire, release, enter, call, take, Operation, Shared}
use rust_core.Session.Locks.{CanAct, System, Reaches}
use rust_core.Session.Locks.Discipline.{holds, IsDisciplined, bit, IsSound, All-middle}
use rust_core.Session.Locks.Sound.{Reaches-IsSound}
use rust_core.Session.Locks.Progress.{find-Holder, CanTurn, can_turn}

abbrev pub is_call : Action → Bool
is_call (call l) = true
is_call _ = false

-- A thread that can take a step of its own: no reply of the library is needed.
abbrev pub CanGo : Shared → List (List Action) → Type 0
CanGo s ts =
    (before : List (List Action)) × (a : Action) × (rest : List Action) × (after : List
      (List Action))
    × (ts ≡ before ++ ((a ∷ rest) ∷ after))
    × (is_call a ≡ false)
    × CanAct a s

-- A thread that waits for a reply through a field, or for its mutex while another thread waits for
-- such a reply.
pub data Awaits (ts : List (List Action)) : List Action → Type 0 where
  reply : (l : ℕ) (rest : List Action) → Awaits ts (call l ∷ rest)
  guard :
      (l : ℕ) (rest : List Action) (before : List (List Action)) (calling : List Action)
      (after : List (List Action))
      → ts ≡ before ++ ((call l ∷ calling) ∷ after)
      → Awaits ts (acquire l ∷ rest)

module _ (s : Shared) (ts : List (List Action)) (sound : IsSound s ts) where
  -- The holder of a mutex awaits a reply through its field, unless some thread can go on.
  abbrev HeldUp : ℕ → Type 0
  HeldUp l =
      CanGo s ts
      ⊎ ((before : List (List Action)) × (calling : List Action) × (after : List (List Action))
          × (ts ≡ before ++ ((call l ∷ calling) ∷ after)))

  goes :
      (before : List (List Action)) (a : Action) (rest : List Action) (after : List (List Action))
      → ts ≡ before ++ ((a ∷ rest) ∷ after)
      → is_call a ≡ false
      → CanAct a s
      → CanGo s ts
  goes before a rest after same own can = (before, a, rest, after, same, own, can)

  -- The holder of mutex `l`, and what it waits for if it can lock the hops' list or it is free.
  holder-HeldUp :
      (l : ℕ) (before : List (List Action)) (u : List Action) (after : List (List Action))
      → ts ≡ before ++ (u ∷ after)
      → IsDisciplined u
      → holds l u ≡ true
      → (l ≢ 2 → CanGo s ts ⊎ (s.held 2 ≡ false))
      → HeldUp l
  holder-HeldUp l before [] after same d has hops = cc
  holder-HeldUp l before (acquire m ∷ rest) after same (((_, _, nested), _)) has hops =
      let (outer, inner) = nested l has in
      elim (hops outer) [
        | inl go ↦ inl go
        | inr free ↦ inl (goes before (acquire m) rest after same refl (rw inner free))
      ]
  holder-HeldUp l before (release m ∷ rest) after same d has hops =
      inl (goes before (release m) rest after same refl tt)
  holder-HeldUp l before (enter m ∷ rest) after same d has hops =
      inl (goes before (enter m) rest after same refl tt)
  holder-HeldUp l before (take m ∷ rest) after same d has hops =
      inl (goes before (take m) rest after same refl tt)
  holder-HeldUp l before (call m ∷ rest) after same (((_, _, alone), _)) has hops =
      elim (ℕ_discrete l m) [
        | yes here ↦ inr (before, rest, after, rw here same)
        | no apart ↦ absurd (cc (alone l apart))
      ]

  mutex-HeldUp : (l : ℕ) → s.held l ≡ true → (l ≢ 2 → CanGo s ts ⊎ (s.held 2 ≡ false)) → HeldUp l
  mutex-HeldUp l locked hops =
      let (before, u, after, same, has) = find-Holder l ts (sound.counted l ∙ ap bit locked) in
      let d = (All-middle IsDisciplined before after u (rw same at sound.disciplined)).1 in
      holder-HeldUp l before u after same d has hops

  -- Nobody calls through the hops' list, so its holder goes on.
  no_call :
      (before : List (List Action)) (calling : List Action) (after : List (List Action))
      → ts ≡ before ++ ((call 2 ∷ calling) ∷ after)
      → ⊥
  no_call before calling after same =
      let ((small, _, _), _) =
        (All-middle IsDisciplined before after (call 2 ∷ calling)
          (rw same at sound.disciplined)).1 in
      omega (arith, small)

  hops_free : CanGo s ts ⊎ (s.held 2 ≡ false)
  hops_free = elim (Bool-cases (s.held 2)) [
    | inr free ↦ inr free
    | inl locked ↦ elim (mutex-HeldUp 2 locked (λ own. absurd (own refl))) [
      | inl go ↦ inl go
      | inr (before, calling, after, same) ↦ absurd (no_call before calling after same)
    ]
  ]

  thread-Awaits :
      (before : List (List Action)) (t : List Action) (after : List (List Action))
      → ts ≡ before ++ (t ∷ after)
      → CanGo s ts ⊎ ((t ≡ []) ⊎ Awaits ts t)
  thread-Awaits before [] after same = inr (inl refl)
  thread-Awaits before (acquire m ∷ rest) after same = elim (Bool-cases (s.held m)) [
    | inl locked ↦ elim (mutex-HeldUp m locked (λ _. hops_free)) [
      | inl go ↦ inl go
      | inr (bs, calling, cs, at) ↦ inr (inr (guard m rest bs calling cs at))
    ]
    | inr free ↦ inl (goes before (acquire m) rest after same refl free)
  ]
  thread-Awaits before (release m ∷ rest) after same =
      inl (goes before (release m) rest after same refl tt)
  thread-Awaits before (enter m ∷ rest) after same =
      inl (goes before (enter m) rest after same refl tt)
  thread-Awaits before (call m ∷ rest) after same = inr (inr (reply m rest))
  thread-Awaits before (take m ∷ rest) after same =
      inl (goes before (take m) rest after same refl tt)

  threads_await :
      (before after : List (List Action))
      → ts ≡ before ++ after
      → CanGo s ts ⊎ All (λ t. (t ≡ []) ⊎ Awaits ts t) after
  threads_await before [] same = inr tt
  threads_await before (t ∷ after) same = elim (thread-Awaits before t after same) [
    | inl go ↦ inl go
    | inr waits ↦
        elim (threads_await (before ++ (t ∷ [])) after
          (same ∙ sym (append_assoc before (t ∷ []) after))) [
            | inl go ↦ inl go
            | inr others ↦ inr (waits, others)
          ]
  ]

-- In every state that operations running side by side on an open session and on any number of its
-- channels and remote files can come to, some operation can take a step that needs no reply of the
-- library, or each one has ended, awaits a reply through a field, or waits for the mutex of the very
-- field through which another one awaits a reply.
pub stalled_lem :
    (ops : List Operation) {x : System}
    → Reaches ops x
    → CanGo x.0 x.1 ⊎ All (λ t. (t ≡ []) ⊎ Awaits x.1 t) x.1
stalled_lem ops {x} r = threads_await x.0 x.1 (Reaches-IsSound ops r) [] x.1 refl

-- A thread that waits is, or names, one that a reply lets go on.
awaiting_turns :
    (s : Shared) (ts before after : List (List Action)) (t : List Action)
    → ts ≡ before ++ (t ∷ after)
    → Awaits ts t
    → CanTurn (s, ts)
awaiting_turns s ts before after _ same (reply l rest) =
    can_turn s ts before after (call l) rest same tt
awaiting_turns s ts before after _ same (guard l rest bs calling cs at) =
    can_turn s ts bs cs (call l) calling at tt

waiting_turns :
    (s : Shared) (ts before after : List (List Action))
    → ts ≡ before ++ after
    → All (λ t. (t ≡ []) ⊎ Awaits ts t) after
    → All (λ t. t ≡ []) after ⊎ CanTurn (s, ts)
waiting_turns s ts before [] same w = inl tt
waiting_turns s ts before (t ∷ after) same (inr waits, w) =
    inr (awaiting_turns s ts before after t same waits)
waiting_turns s ts before (t ∷ after) same (inl ended, w) =
    elim (waiting_turns s ts (before ++ (t ∷ [])) after
      (same ∙ sym (append_assoc before (t ∷ []) after)) w) [
        | inl all_ended ↦ inl (ended, all_ended)
        | inr can ↦ inr can
      ]

-- In every state that such operations can come to, either all of them have ended or one of them can
-- take its next step, if each awaited call of the library returns in the end: they do not wait for
-- each other's mutexes in a circle.
pub no_deadlock :
    (ops : List Operation) {x : System} → Reaches ops x → All (λ t. t ≡ []) x.1 ⊎ CanTurn x
no_deadlock ops {x} r = elim (stalled_lem ops r) [
  | inl (before, a, rest, after, same, _, can) ↦ inr (can_turn x.0 x.1 before after a rest same can)
  | inr waits ↦ waiting_turns x.0 x.1 [] x.1 refl waits
]
