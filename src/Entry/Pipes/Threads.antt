-- ===== src/Entry/Pipes/Threads.antt =====
-- A forwarded channel and a remote file of ssh-transport/src/lib.rs, as the app's own threads and its
-- callbacks on a thread of the runtime find them.
use rust_core.Base.{arith, ℕ, ◌≡◌, refl, Bool, true, false, none, some, List, []}
use rust_core.Russh.{Russh, RusshSftp, History}
use rust_core.Outcome.{SshSpikeError, M, ok, panic}
use rust_core.Outcome.Errors.{FailsAs, IsSftp}
use rust_core.Channel.{SshSpikeChannel}
use rust_core.Channel
use rust_core.Connect.{SshSpikeSession}
use rust_core.Session.Errors.{session_errors}
use rust_core.Session.Locks.{read_half_of, write_half_of, file_of, set}
use rust_core.Sftp.{SshSpikeRemoteFile, read_chunk, write_chunk}
use rust_core.Sftp
use rust_core.Sftp.Errors.{read_chunk-FailsAs, write_chunk-FailsAs}
use rust_core.Entry.{Caller, app, worker, Poison, lock, block_on}
use rust_core.Entry.Clean.{IsClean, Agrees, block_on-Agrees, lock-Agrees, half_call-Agrees}
use rust_core.Entry.Worker.{Panics}
use rust_core.Entry.Pipes

pub set-same : (p : Poison) (l : ℕ) (b : Bool) → set p l b l ≡ b
set-same p l b = ground arith

abbrev no_session : SshSpikeSession
no_session = record { write_half = none; handle = none; parents = [] }

module _ (enters : Caller → Bool) (L : Russh) (F : RusshSftp) where
  file_call-Agrees :
      {A : Type 0}
      → enters app ≡ true
      → (k : ℕ) (p : Poison) (body : M SshSpikeError A) → IsClean p
      → ((h : History) → FailsAs IsSftp (body h).0)
      → Agrees p (block_on enters app (lock (file_of k) body)) body
  file_call-Agrees on_app k p body clean sound =
      block_on-Agrees enters on_app p (lock (file_of k) body) body
        (lock-Agrees IsSftp p (file_of k) body clean sound)

  -- For an app's thread, on which `block_on` may be called, and with no poisoned mutex: the runtime and
  -- the mutexes change nothing. Every operation of channel `k` and of remote file `k` does what its
  -- body does, and leaves no mutex poisoned.
  pub threads_lem :
      enters app ≡ true
      → (k : ℕ) (c : SshSpikeChannel) (f : SshSpikeRemoteFile) (p : Poison) (bytes : List ℕ)
        (max : ℕ)
      → IsClean p
      → (Pipes.read enters app k c p ≡ Channel.read c)
        × Agrees p (Pipes.write enters L app k c bytes) (Channel.write L c bytes)
        × Agrees p (Pipes.send_eof enters L app k c) (Channel.send_eof L c)
        × (Pipes.disconnect k c p ≡ (ok tt, Channel.disconnect c))
        × Agrees p (Pipes.read_file enters F app k f max) (read_chunk F f max)
        × Agrees p (Pipes.write_file enters F app k f bytes) (write_chunk F f bytes)
        × (Pipes.disconnect_file k f p ≡ (ok tt, Sftp.disconnect f))
  unfolding Pipes.read Pipes.write Pipes.send_eof Pipes.disconnect Pipes.read_file Pipes.write_file
      Pipes.disconnect_file Channel.write Channel.send_eof
  threads_lem on_app k c f p bytes max clean =
      let errors = session_errors L no_session c [] bytes 0 0 in
      (
        rw (on_app, clean (read_half_of k)) refl,
        half_call-Agrees enters on_app L p (write_half_of k) _ c.write_half _ clean
            (λ h. (errors h).9),
        half_call-Agrees enters on_app L p (write_half_of k) _ c.write_half _ clean
            (λ h. (errors h).10),
        rw (clean (write_half_of k)) refl,
        file_call-Agrees on_app k p (read_chunk F f max) clean (read_chunk-FailsAs F f max),
        file_call-Agrees on_app k p (write_chunk F f bytes) clean (write_chunk-FailsAs F f bytes),
        rw (clean (file_of k)) refl,
      )

  -- On a thread of the runtime, on which `block_on` may not be called: a read of a channel and the read
  -- and the write of a remote file panic and poison nothing. A write and an EOF on a channel that is
  -- open, its mutex not poisoned, panic with the guard. From then on every write and EOF of that
  -- channel panics, on any thread, and so does its `disconnect`: the half stays and no task is spawned,
  -- so that the channel is never closed.
  pub worker_pipe_lem :
      enters worker ≡ false
      → (k wh : ℕ) (c : SshSpikeChannel) (f : SshSpikeRemoteFile) (p : Poison) (bytes : List ℕ)
        (max : ℕ)
      → c.write_half ≡ some wh
      → p (write_half_of k) ≡ false
      → let q = set p (write_half_of k) true in
        (Pipes.read enters worker k c p ≡ (panic, c))
        × Panics p (Pipes.read_file enters F worker k f max) p
        × Panics p (Pipes.write_file enters F worker k f bytes) p
        × Panics p (Pipes.write enters L worker k c bytes) q
        × Panics p (Pipes.send_eof enters L worker k c) q
        × ((caller : Caller) → Panics q (Pipes.write enters L caller k c bytes) q)
        × ((caller : Caller) → Panics q (Pipes.send_eof enters L caller k c) q)
        × (Pipes.disconnect k c q ≡ (panic, (c, [])))
  unfolding Pipes.read Pipes.write Pipes.send_eof Pipes.disconnect Pipes.read_file Pipes.write_file
  worker_pipe_lem off k wh c f p bytes max opened clean =
      let own = set-same p (write_half_of k) true in
      (
        rw off refl,
        λ h. rw off refl,
        λ h. rw off refl,
        λ h. rw (clean, opened) (rw off refl),
        λ h. rw (clean, opened) (rw off refl),
        λ caller h. rw own refl,
        λ caller h. rw own refl,
        rw own refl,
      )
