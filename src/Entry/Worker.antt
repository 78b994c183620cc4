-- ===== src/Entry/Worker.antt =====
-- What a callback of the app that calls back into ssh-transport/src/lib.rs on the runtime's own thread
-- does to a session.
use rust_core.Base.{ℕ, ◌≡◌, refl, Bool, true, false, some, List, [], Text}
use rust_core.Russh.{Russh, RusshSftp, History}
use rust_core.Outcome.{panic}
use rust_core.Connect.{Handshake, SshSpikeConnectParams, SshSpikeSession}
use rust_core.Session.Locks.{write_half_lock, set}
use rust_core.Entry.{Caller, app, worker, Poison, Guarded, Disconnected}
use rust_core.Entry

-- A panic before any call of the library, after which the mutexes `q` are poisoned.
abbrev pub Panics : {A : Type 0} → Poison → Guarded A → Poison → Type 0
Panics {A} p g q = (h : History) → g p h ≡ ((panic, h), q)

module _ (enters : Caller → Bool) (L : Russh) (F : RusshSftp) where
  -- On a thread of the runtime, on which `block_on` may not be called: the dial and the operations on
  -- the connection panic before they make a call or lock a mutex.
  pub worker_lem :
      enters worker ≡ false
      → (handshake : Handshake) (params : SshSpikeConnectParams) (s : SshSpikeSession) (p : Poison)
        (text : Text) (a : ℕ)
      → ((h : History) → Entry.connect enters L handshake worker params h ≡ (panic, h))
        × Panics p (Entry.exec enters L worker s text) p
        × Panics p (Entry.direct_tcpip_banner enters L worker s text a) p
        × Panics p (Entry.open_direct_tcpip enters L worker s text a) p
        × Panics p (Entry.request_remote_forward enters L worker s text a) p
        × Panics p (Entry.cancel_remote_forward enters L worker s text a) p
        × Panics p (Entry.sftp_read enters L F worker s text) p
        × Panics p (Entry.sftp enters L worker s) p
  unfolding Entry.connect Entry.exec Entry.direct_tcpip_banner Entry.open_direct_tcpip
      Entry.request_remote_forward Entry.cancel_remote_forward Entry.sftp_read Entry.sftp
  worker_lem off handshake params s p text a = (
    λ h. rw off refl,
    λ h. rw off refl,
    λ h. rw off refl,
    λ h. rw off refl,
    λ h. rw off refl,
    λ h. rw off refl,
    λ h. rw off refl,
    λ h. rw off refl,
  )

  -- A write or a resize on a thread of the runtime, on which `block_on` may not be called, while the
  -- shell is open and its mutex is not poisoned: it panics with the guard of the shell's mutex and
  -- makes no call. From then on every write and resize panics, on any thread, and so does
  -- `disconnect`: it takes nothing and spawns no task, so that no connection is told goodbye.
  pub worker_write_lem :
      enters worker ≡ false
      → (s : SshSpikeSession) (wh : ℕ) (p : Poison) (bytes : List ℕ) (cols rows : ℕ)
      → s.write_half ≡ some wh
      → p write_half_lock ≡ false
      → let q = set p write_half_lock true in
        Panics p (Entry.write enters L worker s bytes) q
        × Panics p (Entry.resize enters L worker s cols rows) q
        × ((caller : Caller) → Panics q (Entry.write enters L caller s bytes) q)
        × ((caller : Caller) → Panics q (Entry.resize enters L caller s cols rows) q)
        × (Entry.disconnect s q ≡ record { result = panic; session = s; tasks = []; poison = q })
  unfolding Entry.write Entry.resize Entry.disconnect
  worker_write_lem off s wh p bytes cols rows open_shell clean = (
    λ h. rw (clean, open_shell) (rw off refl),
    λ h. rw (clean, open_shell) (rw off refl),
    λ caller h. refl,
    λ caller h. refl,
    refl,
  )
