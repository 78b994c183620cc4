-- ===== src/Entry.antt =====
-- How the app enters ssh-transport/src/lib.rs: `runtime().block_on` and the mutexes of the exported
-- operations, with what a panic does to a mutex. `enters` stands for tokio: whether `block_on` may be
-- called on a thread.
pub mod Clean
pub mod Worker
pub mod Pipes
use rust_core.Base.{ℕ, Bool, true, false, Option, none, some, List, [], Text, codes, if◌then◌else◌}
use rust_core.Russh.{Russh, RusshSftp, History, Call, Step, Stream, data_bytes, window_change, eof}
use rust_core.Outcome.{
  SshSpikeError, Outcome, ok, err, panic, blocked, M, raise, continue, perform, pure,
}
use rust_core.Connect.{
  Handshake, SshSpikeConnectParams, SshSpikeSession, channel_error, connect_inner,
}
use rust_core.Channel.{SshSpikeChannel, closing}
use rust_core.Channel
use rust_core.Session
use rust_core.Session.Locks.{write_half_lock, handle_lock, parents_lock, set}
use rust_core.Sftp

-- A thread of the app, or one on which the runtime polls a future, as in the app's callbacks.
pub data Caller : Type 0 where
  app worker : Caller

-- The mutexes of a session that are poisoned.
abbrev pub Poison : Type 0
Poison = ℕ → Bool

-- An operation that takes mutexes: its result, and the mutexes that are poisoned after it.
abbrev pub Guarded : Type 0 → Type 0
Guarded A = Poison → History → (Outcome SshSpikeError A × History) × Poison

abbrev pub is_panic : {A : Type 0} → Outcome SshSpikeError A → Bool
is_panic panic = true
is_panic _ = false

-- `lock().unwrap()`, and a body that keeps the guard to its end: a panic poisons the mutex.
abbrev pub lock : {A : Type 0} → ℕ → M SshSpikeError A → Guarded A
lock l body p h =
    let r = body h in if p l then ((panic, h), p) else (r, if is_panic r.0 then set p l true else p)

-- After a guarded part: the rest, which takes no mutex.
abbrev pub and_after : {A B : Type 0} → Guarded A → (A → M SshSpikeError B) → Guarded B
and_after g f p h = let (r, p') = g p h in ((continue f r.0 r.1), p')

module _ (enters : Caller → Bool) where
  -- `runtime().block_on`, around a body with mutexes and around one without.
  abbrev pub block_on : {A : Type 0} → Caller → Guarded A → Guarded A
  block_on caller g p h = if enters caller then g p h else ((panic, h), p)

  abbrev pub block_on_call : {A : Type 0} → Caller → M SshSpikeError A → M SshSpikeError A
  block_on_call caller m h = if enters caller then m h else (panic, h)

  module _ (L : Russh) where
    -- `SshSpikeSession::connect`
    unfoldable pub connect :
        Handshake → Caller → SshSpikeConnectParams → M SshSpikeError SshSpikeSession
    connect handshake caller p = block_on_call caller (connect_inner L handshake p)

    -- The operations on the connection, in the order of the source.
    unfoldable pub exec : Caller → SshSpikeSession → Text → Guarded Text
    exec caller s command = block_on caller (lock handle_lock (Session.exec L s command))

    -- The body of `write` and `resize`: under the guard, and before the runtime is entered, the shell
    -- is looked for.
    abbrev pub blocking_call : Caller → Text → Option ℕ → (ℕ → Call) → M SshSpikeError (Unit {0})
    blocking_call caller message none c = raise (SshSpikeError.channel message)
    blocking_call caller message (some wh) c =
        block_on_call caller (perform L.acknowledges (channel_error L) (c wh))

    unfoldable pub write : Caller → SshSpikeSession → List ℕ → Guarded (Unit {0})
    write caller s bytes =
        lock write_half_lock
          (blocking_call caller (codes "session closed") s.write_half (λ wh. data_bytes wh bytes))

    unfoldable pub resize : Caller → SshSpikeSession → ℕ → ℕ → Guarded (Unit {0})
    resize caller s cols rows = lock write_half_lock (
        blocking_call caller (codes "session closed") s.write_half
          (λ wh. window_change wh cols rows))

    unfoldable pub direct_tcpip_banner : Caller → SshSpikeSession → Text → ℕ → Guarded Text
    direct_tcpip_banner caller s host port =
        block_on caller (lock handle_lock (Session.direct_tcpip_banner L s host port))

    unfoldable pub open_direct_tcpip : Caller → SshSpikeSession → Text → ℕ → Guarded SshSpikeChannel
    open_direct_tcpip caller s host port =
        block_on caller (lock handle_lock (Session.open_direct_tcpip L s host port))

    unfoldable pub request_remote_forward : Caller → SshSpikeSession → Text → ℕ → Guarded ℕ
    request_remote_forward caller s host port =
        block_on caller (lock handle_lock (Session.request_remote_forward L s host port))

    unfoldable pub cancel_remote_forward : Caller → SshSpikeSession → Text → ℕ → Guarded (Unit {0})
    cancel_remote_forward caller s host port =
        block_on caller (lock handle_lock (Session.cancel_remote_forward L s host port))

    -- The guard of `sftp_open` is dropped before the file is read.
    unfoldable pub sftp_read : RusshSftp → Caller → SshSpikeSession → Text → Guarded (List ℕ)
    sftp_read F caller s path =
        block_on caller
          (and_after (lock handle_lock (Session.sftp_open L s)) (λ n. Sftp.read F n path))

    unfoldable pub sftp : Caller → SshSpikeSession → Guarded ℕ
    sftp caller s =
        block_on caller (and_after (lock handle_lock (Session.sftp_open L s)) (λ n. pure n))

-- What `disconnect` comes to: whether it panics, the session, the tasks it has spawned, and the
-- mutexes that are poisoned. It only spawns, so any thread may call it.
pub record Disconnected : Type 0 where
  pub result : Outcome SshSpikeError (Unit {0})
  pub session : SshSpikeSession
  pub tasks : List (List Step)
  pub poison : Poison

-- A mutex that is poisoned stops it where it locks it; the last one is locked under the guard of the
-- connection, which was taken by then.
unfoldable pub disconnect : SshSpikeSession → Poison → Disconnected
disconnect s p =
    if p write_half_lock
    then record { result = panic; session = s; tasks = []; poison = p }
    else if p handle_lock
    then record {
      result = panic;
      session = record s { write_half = none };
      tasks = closing s.write_half;
      poison = p;
    }
    else elim s.handle [
      | none ↦ record {
        result = ok tt;
        session = (Session.disconnect s).0;
        tasks = (Session.disconnect s).1;
        poison = p;
      }
      | some handle ↦
          if p parents_lock
          then record {
            result = panic;
            session = record s { write_half = none; handle = none };
            tasks = closing s.write_half;
            poison = set p handle_lock true;
          }
          else record {
            result = ok tt;
            session = (Session.disconnect s).0;
            tasks = (Session.disconnect s).1;
            poison = p;
          }
    ]
