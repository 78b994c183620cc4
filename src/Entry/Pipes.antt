-- ===== src/Entry/Pipes.antt =====
-- How the app enters `SshSpikeChannel` and `SshSpikeRemoteFile` of ssh-transport/src/lib.rs, and the sink
-- of its tests, which echoes on a thread of its own. `k` is the number of the object.
pub mod Threads
pub mod Echo
pub mod RoundTrip
use rust_core.Base.{ℕ, zero, suc, Bool, true, false, Option, none, some, List, [], ◌∷◌, Text}
use rust_core.Base.{if◌then◌else◌, codes}
use rust_core.Russh.{Russh, RusshSftp, History, Step, data_bytes, eof}
use rust_core.Outcome.{SshSpikeError, Outcome, ok, err, panic, blocked}
use rust_core.Outcome.Expect.{dropped}
use rust_core.Channel.{SshSpikeChannel}
use rust_core.Channel
use rust_core.Session.Locks.{read_half_of, write_half_of, file_of}
use rust_core.Sftp.{SshSpikeRemoteFile, read_chunk, write_chunk}
use rust_core.Sftp
use rust_core.Entry.{Caller, Poison, Guarded, lock, block_on, blocking_call}

-- A `disconnect`, which takes a field under its mutex and only spawns: whether it panics, the object
-- and the tasks.
abbrev pub taken :
    {A : Type 0}
    → ℕ
    → A
    → A × List (List Step)
    → Poison
    → Outcome SshSpikeError (Unit {0}) × (A × List (List Step))
taken l before after p = if p l then (panic, (before, [])) else (ok tt, after)

unfoldable pub disconnect :
    ℕ
    → SshSpikeChannel
    → Poison
    → Outcome SshSpikeError (Unit {0}) × (SshSpikeChannel × List (List Step))
disconnect k c = taken (write_half_of k) c (Channel.disconnect c)

unfoldable pub disconnect_file :
    ℕ
    → SshSpikeRemoteFile
    → Poison
    → Outcome SshSpikeError (Unit {0}) × (SshSpikeRemoteFile × List (List Step))
disconnect_file k f = taken (file_of k) f (Sftp.disconnect f)

-- What comes after `let _ =`: a panic and a wait go on, and the result is dropped.
abbrev pub goes_on : Guarded (Unit {0}) → Outcome SshSpikeError (Unit {0}) → Guarded (Unit {0})
goes_on next (ok u) p h = next p h
goes_on next (err e) p h = ((err e, h), p)
goes_on next panic p h = ((panic, h), p)
goes_on next blocked p h = ((blocked, h), p)

abbrev pub dropping : Guarded (Unit {0}) → Guarded (Unit {0}) → Guarded (Unit {0})
dropping g next p h = let ((r, h'), p') = g p h in goes_on next (dropped r) p' h'

module _ (enters : Caller → Bool) where
  -- Nothing under the mutex of the read half can panic, so that it is never poisoned by a read.
  unfoldable pub read :
      Caller → ℕ → SshSpikeChannel → Poison → Outcome SshSpikeError (List ℕ) × SshSpikeChannel
  read caller k c p =
      if enters caller
      then (if p (read_half_of k) then (panic, c) else Channel.read c)
      else (panic, c)

  unfoldable pub read_file : RusshSftp → Caller → ℕ → SshSpikeRemoteFile → ℕ → Guarded (List ℕ)
  read_file F caller k f max = block_on enters caller (lock (file_of k) (read_chunk F f max))

  unfoldable pub write_file :
      RusshSftp → Caller → ℕ → SshSpikeRemoteFile → List ℕ → Guarded (Unit {0})
  write_file F caller k f bytes = block_on enters caller (lock (file_of k) (write_chunk F f bytes))

  module _ (L : Russh) where
    unfoldable pub write : Caller → ℕ → SshSpikeChannel → List ℕ → Guarded (Unit {0})
    write caller k c bytes = lock (write_half_of k) (
        blocking_call enters L caller (codes "channel closed") c.write_half
          (λ wh. data_bytes wh bytes))

    unfoldable pub send_eof : Caller → ℕ → SshSpikeChannel → Guarded (Unit {0})
    send_eof caller k c =
        lock (write_half_of k)
          (blocking_call enters L caller (codes "channel closed") c.write_half eof)

    -- The `if let Ok(chunk)`, with its body.
    abbrev pub send_back :
        Caller → ℕ → SshSpikeChannel → Outcome SshSpikeError (List ℕ) → Guarded (Unit {0})
    send_back caller k c (ok []) p h = ((ok tt, h), p)
    send_back caller k c (ok (b ∷ bytes)) p h = write caller k c (b ∷ bytes) p h
    send_back caller k c (err e) p h = ((ok tt, h), p)
    send_back caller k c panic p h = ((panic, h), p)
    send_back caller k c blocked p h = ((blocked, h), p)

    -- The thread that `EchoForwardSink` starts for a connection: one read, its chunk sent back, and an
    -- EOF in any case.
    unfoldable pub echo : Caller → ℕ → SshSpikeChannel → Guarded (Unit {0})
    echo caller k c p h =
        let r = read caller k c p in
        dropping (send_back caller k r.1 r.0)
          (dropping (send_eof caller k r.1) (λ q g. ((ok tt, g), q))) p h

-- A round of the client: a chunk that is not empty is the echo.
abbrev pub after_read :
    (SshSpikeChannel → Option (List ℕ) × SshSpikeChannel)
    → Outcome SshSpikeError (List ℕ) × SshSpikeChannel
    → Option (List ℕ) × SshSpikeChannel
after_read next (ok [], c) = next c
after_read next (ok (b ∷ bytes), c) = (some (b ∷ bytes), c)
after_read next (err e, c) = (none, c)
after_read next (panic, c) = (none, c)
after_read next (blocked, c) = (none, c)

-- The loop in which the client waits for the echo, with its rounds before the deadline: `none` after
-- it, and if a read does not return a chunk.
unfoldable pub first_chunk : ℕ → SshSpikeChannel → Option (List ℕ) × SshSpikeChannel
first_chunk zero c = (none, c)
first_chunk (suc rounds) c = after_read (λ c'. first_chunk rounds c') (Channel.read c)
