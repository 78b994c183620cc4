-- ===== src/Session/Locks/Discipline.antt =====
-- What the operations of a session (ssh-transport/src/lib.rs) keep while they share its mutexes.
use rust_core.Base.{ℕ, zero, suc, ◌+◌, ◌≡◌, ◌≢◌, refl, inl, inr, Bool, true, false, Bool-cases}
use rust_core.Base.{List, [], ◌∷◌, ◌++◌, replicate, All, if◌then◌else◌, ◌==◌, arith}
use rust_core.Session.Locks.{Action, acquire, release, enter, call, take, Operation, guarded}
use rust_core.Session.Locks.{taking, disconnecting, read_half_of, write_half_of, file_of, program}
use rust_core.Session.Locks.{Event, called, gone, Shared}

-- A thread has the guard that it releases before it acquires it again.
abbrev pub holds : ℕ → List Action → Bool
holds l [] = false
holds l (acquire m ∷ rest) = if l == m then false else holds l rest
holds l (release m ∷ rest) = if l == m then true else holds l rest
holds l (enter m ∷ rest) = holds l rest
holds l (call m ∷ rest) = holds l rest
holds l (take m ∷ rest) = holds l rest

-- It is past the test of a field and has calls to make through it.
abbrev pub needs : ℕ → List Action → Bool
needs l [] = false
needs l (acquire m ∷ rest) = if l == m then false else needs l rest
needs l (release m ∷ rest) = if l == m then false else needs l rest
needs l (enter m ∷ rest) = if l == m then false else needs l rest
needs l (call m ∷ rest) = if l == m then true else needs l rest
needs l (take m ∷ rest) = needs l rest

-- Only the hops' list is locked under another guard, each mutex is released, an early return and a
-- call have one guard only, a field is called or taken under its guard, and no call goes through the
-- hops' list.
abbrev pub Allowed : Action → List Action → Type 0
Allowed (acquire l) rest =
    (holds l rest ≡ true)
    × (needs l rest ≡ false)
    × ((m : ℕ) → holds m (acquire l ∷ rest) ≡ true → (m ≢ 2) × (l ≡ 2))
Allowed (release l) rest = (holds l rest ≡ false) × (needs l rest ≡ false)
Allowed (enter l) rest = (holds l rest ≡ true) × ((m : ℕ) → m ≢ l → holds m rest ≡ false)
Allowed (call l) rest = (l ≢ 2) × (holds l rest ≡ true) × ((m : ℕ) → m ≢ l → holds m rest ≡ false)
Allowed (take l) rest = (holds l rest ≡ true) × (needs l rest ≡ false)

abbrev pub IsDisciplined : List Action → Type 0
IsDisciplined [] = Unit {0}
IsDisciplined (a ∷ rest) = Allowed a rest × IsDisciplined rest

-- The calls of an operation, and the release.
calls_lem :
    (l n : ℕ)
    → l ≢ 2
    → let rest = replicate n (call l) ++ (release l ∷ []) in
      IsDisciplined rest × (holds l rest ≡ true) × ((m : ℕ) → m ≢ l → holds m rest ≡ false)
calls_lem l zero own = (((refl, refl), tt), ground arith, λ m apart. ground arith)
calls_lem l (suc n) own =
    let (d, h, others) = calls_lem l n own in (((own, h, others), d), h, others)

-- An operation that begins without a guard and keeps the discipline.
abbrev pub IsProgram : List Action → Type 0
IsProgram t = IsDisciplined t × ((m : ℕ) → holds m t ≡ false)

guarded-IsProgram : (l n : ℕ) → l ≢ 2 → IsProgram (guarded l n)
guarded-IsProgram l n own =
    let (d, h, others) = calls_lem l n own in
    (
      ((h, ground arith, λ m e. ground (arith, others m)), ((h, others), d)),
      λ m. ground (arith, others m),
    )

taking-IsProgram : (l : ℕ) → l ≢ 2 → IsProgram (taking l)
taking-IsProgram l own = (
  (
    (ground arith, ground arith, λ m e. ground arith),
    ((ground arith, ground arith), ((refl, refl), tt)),
  ),
  λ m. ground arith,
)

disconnecting-IsProgram : IsProgram disconnecting
disconnecting-IsProgram = (
  (
    (refl, refl, λ m e. ground arith),
    (
      (refl, refl),
      (
        (refl, refl),
        (
          (refl, refl, λ m e. ground arith),
          (
            (refl, λ m apart. ground arith),
            (
              (refl, refl),
              (
                (refl, refl, λ m e. ground arith),
                ((refl, refl), ((refl, refl), ((refl, refl), tt))),
              ),
            ),
          ),
        ),
      ),
    ),
  ),
  λ m. ground arith,
)

pub program-IsProgram : (o : Operation) → IsProgram (program o)
unfolding program
program-IsProgram (Operation.exec calls) = guarded-IsProgram 1 calls (λ e. cc)
program-IsProgram (Operation.direct_tcpip_banner calls) = guarded-IsProgram 1 calls (λ e. cc)
program-IsProgram (Operation.open_direct_tcpip calls) = guarded-IsProgram 1 calls (λ e. cc)
program-IsProgram (Operation.sftp_open calls) = guarded-IsProgram 1 calls (λ e. cc)
program-IsProgram Operation.request_remote_forward = guarded-IsProgram 1 1 (λ e. cc)
program-IsProgram Operation.cancel_remote_forward = guarded-IsProgram 1 1 (λ e. cc)
program-IsProgram Operation.write = guarded-IsProgram 0 1 (λ e. cc)
program-IsProgram Operation.resize = guarded-IsProgram 0 1 (λ e. cc)
program-IsProgram Operation.disconnect = disconnecting-IsProgram
program-IsProgram (Operation.channel_read channel calls) =
    guarded-IsProgram (read_half_of channel) calls (λ e. omega (arith, e))
program-IsProgram (Operation.channel_write channel) =
    guarded-IsProgram (write_half_of channel) 1 (λ e. omega (arith, e))
program-IsProgram (Operation.channel_eof channel) =
    guarded-IsProgram (write_half_of channel) 1 (λ e. omega (arith, e))
program-IsProgram (Operation.channel_disconnect channel) =
    taking-IsProgram (write_half_of channel) (λ e. omega (arith, e))
program-IsProgram (Operation.file_read file) =
    guarded-IsProgram (file_of file) 1 (λ e. omega (arith, e))
program-IsProgram (Operation.file_write file) =
    guarded-IsProgram (file_of file) 1 (λ e. omega (arith, e))
program-IsProgram (Operation.file_disconnect file) =
    taking-IsProgram (file_of file) (λ e. omega (arith, e))

pub needs-holds : (l : ℕ) (t : List Action) → IsDisciplined t → needs l t ≡ true → holds l t ≡ true
needs-holds l [] d e = cc
needs-holds l (acquire m ∷ rest) d e = ground (arith, needs-holds l rest d.1)
needs-holds l (release m ∷ rest) d e = ground (arith, needs-holds l rest d.1)
needs-holds l (enter m ∷ rest) d e = ground (arith, needs-holds l rest d.1)
needs-holds l (call m ∷ rest) d e = ground (arith, d.0.1, needs-holds l rest d.1)
needs-holds l (take m ∷ rest) d e = needs-holds l rest d.1 e

abbrev pub bit : Bool → ℕ
bit true = 1
bit false = 0

-- How many threads have a guard.
abbrev pub holders : ℕ → List (List Action) → ℕ
holders l [] = 0
holders l (t ∷ ts) = bit (holds l t) + holders l ts

abbrev pub has_gone : ℕ → List Event → Bool
has_gone l [] = false
has_gone l (called m ∷ trace) = has_gone l trace
has_gone l (gone m ∷ trace) = if l == m then true else has_gone l trace

-- No call goes through a field after it was taken.
abbrev pub IsOrderly : List Event → Type 0
IsOrderly [] = Unit {0}
IsOrderly (called l ∷ trace) = (has_gone l trace ≡ false) × IsOrderly trace
IsOrderly (gone l ∷ trace) = IsOrderly trace

-- Whatever the scheduler does: a mutex is locked exactly if one thread has its guard, and no thread is
-- about to call through a field that is gone.
pub record IsSound (s : Shared) (ts : List (List Action)) : Type 0 where
  pub counted : (l : ℕ) → holders l ts ≡ bit (s.held l)
  pub disciplined : All IsDisciplined ts
  pub backed : (l : ℕ) → s.full l ≡ false → All (λ t. needs l t ≡ false) ts
  pub fresh : (l : ℕ) → s.full l ≡ true → has_gone l s.trace ≡ false
  pub orderly : IsOrderly s.trace

pub holders-middle :
    (l : ℕ) (before after : List (List Action)) (t : List Action)
    → holders l (before ++ (t ∷ after)) ≡ holders l before + bit (holds l t) + holders l after
holders-middle l [] after t = omega arith
holders-middle l (u ∷ before) after t = omega (arith, holders-middle l before after t)

pub All-middle {κ} :
    (P : List Action → Type κ) (before after : List (List Action)) (t : List Action)
    → All P (before ++ (t ∷ after))
    → All P before × P t × All P after
All-middle P [] after t (p, ps) = (tt, p, ps)
All-middle P (u ∷ before) after t (p, ps) =
    let (bs, q, cs) = All-middle P before after t ps in ((p, bs), q, cs)

pub All-insert {κ} :
    (P : List Action → Type κ) (before after : List (List Action)) (t : List Action)
    → All P before
    → P t
    → All P after
    → All P (before ++ (t ∷ after))
All-insert P [] after t bs p cs = (p, cs)
All-insert P (u ∷ before) after t (b, bs) p cs = (b, All-insert P before after t bs p cs)

-- Threads without a guard have nothing to call under it.
pub none_needs :
    (l : ℕ) (ts : List (List Action))
    → All IsDisciplined ts
    → holders l ts ≡ 0
    → All (λ t. needs l t ≡ false) ts
none_needs l [] d e = tt
none_needs l (t ∷ ts) d e = (
  elim (Bool-cases (needs l t)) [
    | inl needed ↦ absurd (ground (arith, needs-holds l t d.0 needed))
    | inr unneeded ↦ unneeded
  ],
  none_needs l ts d.1 (omega (arith, e)),
)
