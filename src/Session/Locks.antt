-- ===== src/Session/Locks.antt =====
-- The mutexes of `SshSpikeSession`, `SshSpikeChannel` and `SshSpikeRemoteFile` in
-- ssh-transport/src/lib.rs: what each operation locks, how long it keeps the guard, and any number of
-- operations that run side by side on a session and on any number of channels and files.
pub mod Discipline
pub mod Sound
pub mod Progress
pub mod Stalls
pub mod Ends
use rust_core.Base.{ℕ, zero, suc, ◌*◌, ◌+◌, ◌≡◌, Bool, true, false, List, [], ◌∷◌, ◌++◌, map}
use rust_core.Base.{replicate, if◌then◌else◌, ◌==◌}

-- `write_half`, `handle` and `parents`, by the order in which `disconnect` locks them.
abbrev pub write_half_lock : ℕ
write_half_lock = 0

abbrev pub handle_lock : ℕ
handle_lock = 1

abbrev pub parents_lock : ℕ
parents_lock = 2

-- The mutexes of a forwarded channel and of a remote file, by the number of the object.
abbrev pub read_half_of : ℕ → ℕ
read_half_of channel = 3 * channel + 3

abbrev pub write_half_of : ℕ → ℕ
write_half_of channel = 3 * channel + 4

abbrev pub file_of : ℕ → ℕ
file_of file = 3 * file + 5

-- What an operation does with the field behind a mutex. `enter` goes on if the field is there, and
-- otherwise drops the guard and returns; `call` awaits a call of the library through the field, and
-- `take` takes the field away. All but `acquire` need the guard.
pub data Action : Type 0 where
  acquire release enter call take : ℕ → Action

-- An operation of a session, or one of its channels or remote files, with the number of calls that it comes
-- to await: an error ends it early.
pub data Operation : Type 0 where
  exec direct_tcpip_banner open_direct_tcpip sftp_open : (calls : ℕ) → Operation
  request_remote_forward cancel_remote_forward write resize disconnect : Operation
  channel_read : (channel calls : ℕ) → Operation
  channel_write channel_eof channel_disconnect : (channel : ℕ) → Operation
  file_read file_write file_disconnect : (file : ℕ) → Operation

-- A guard that is kept to the end, over all calls.
abbrev pub guarded : ℕ → ℕ → List Action
guarded l calls = acquire l ∷ enter l ∷ (replicate calls (call l) ++ (release l ∷ []))

-- The guards of `disconnect` live until the end of their `if let`, and that of `parents` until the end
-- of its statement.
abbrev pub disconnecting : List Action
disconnecting =
    acquire write_half_lock
    ∷ take write_half_lock
    ∷ release write_half_lock
    ∷ acquire handle_lock
    ∷ enter handle_lock
    ∷ take handle_lock
    ∷ acquire parents_lock
    ∷ take parents_lock
    ∷ release parents_lock
    ∷ release handle_lock
    ∷ []

-- The `disconnect` of a channel or of a file.
abbrev pub taking : ℕ → List Action
taking l = acquire l ∷ take l ∷ release l ∷ []

-- The read half of a channel is never taken, so that its test always passes.
unfoldable pub program : Operation → List Action
program (exec calls) = guarded handle_lock calls
program (direct_tcpip_banner calls) = guarded handle_lock calls
program (open_direct_tcpip calls) = guarded handle_lock calls
program (sftp_open calls) = guarded handle_lock calls
program request_remote_forward = guarded handle_lock 1
program cancel_remote_forward = guarded handle_lock 1
program write = guarded write_half_lock 1
program resize = guarded write_half_lock 1
program disconnect = disconnecting
program (channel_read channel calls) = guarded (read_half_of channel) calls
program (channel_write channel) = guarded (write_half_of channel) 1
program (channel_eof channel) = guarded (write_half_of channel) 1
program (channel_disconnect channel) = taking (write_half_of channel)
program (file_read file) = guarded (file_of file) 1
program (file_write file) = guarded (file_of file) 1
program (file_disconnect file) = taking (file_of file)

-- What has happened to a field: a call through it, or that it was taken.
pub data Event : Type 0 where
  called gone : ℕ → Event

-- The mutexes: which are locked, which fields are there, and what has happened, the newest
-- first.
pub record Shared : Type 0 where
  pub held : ℕ → Bool
  pub full : ℕ → Bool
  pub trace : List Event

abbrev pub set : (ℕ → Bool) → ℕ → Bool → ℕ → Bool
set f l b m = if m == l then b else f m

-- A mutex is locked by one thread at a time; everything else goes ahead.
abbrev pub CanAct : Action → Shared → Type 0
CanAct (acquire l) s = s.held l ≡ false
CanAct _ s = Unit {0}

unfoldable pub act : Action → Shared → Shared
act (acquire l) s = record s { held = set s.held l true }
act (release l) s = record s { held = set s.held l false }
act (enter l) s = s
act (call l) s = record s { trace = called l ∷ s.trace }
act (take l) s = record s {
  full = set s.full l false;
  trace = if s.full l then gone l ∷ s.trace else s.trace;
}

-- What the thread has left to do.
unfoldable pub remaining : Action → List Action → Shared → List Action
remaining (enter l) rest s = if s.full l then rest else release l ∷ []
remaining _ rest s = rest

abbrev pub System : Type 0
System = Shared × List (List Action)

-- One thread takes its next step.
pub data Turn : System → System → Type 0 where
  turn :
      (before after : List (List Action)) (a : Action) (rest : List Action) (s : Shared)
      → CanAct a s
      → Turn (s, before ++ ((a ∷ rest) ∷ after)) (act a s, before ++ (remaining a rest s ∷ after))

abbrev pub open_session : Shared
open_session = record { held = λ _. false; full = λ _. true; trace = [] }

-- The states of some operations on an open session.
pub data Reaches (ops : List Operation) : System → Type 0 where
  start : Reaches ops (open_session, map program ops)
  later : {s t : System} → Reaches ops s → Turn s t → Reaches ops t
