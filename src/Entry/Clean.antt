-- ===== src/Entry/Clean.antt =====
-- What the mutexes and the runtime of ssh-transport/src/lib.rs change in an operation of a session.
use rust_core.Base.{Bool-cases, inl, inr, if◌then◌else◌, ℕ, ◌≡◌, refl, Bool, true, false, Option}
use rust_core.Base.{none, some, List, Text}
use rust_core.Russh.{Russh, RusshSftp, History, Call, ended}
use rust_core.Outcome.{SshSpikeError, Outcome, ok, err, panic, blocked, M, ◌>>=◌}
use rust_core.Outcome.Errors.{FailsAs, IsChannel}
use rust_core.Connect.{Handshake, SshSpikeConnectParams, SshSpikeSession, connect_inner}
use rust_core.Channel.{with_write_half}
use rust_core.Session
use rust_core.Session.Errors.{session_errors, sftp_open-FailsAs}
use rust_core.Session.Locks.{write_half_lock, handle_lock, parents_lock}
use rust_core.Sftp
use rust_core.Entry.{Caller, app, worker, Poison, Guarded, is_panic, lock, and_after, block_on}
use rust_core.Entry.{block_on_call, blocking_call, Disconnected}
use rust_core.Entry

-- No mutex is poisoned.
abbrev pub IsClean : Poison → Type 0
IsClean p = (l : ℕ) → p l ≡ false

-- The operation does what its body does, and no mutex is poisoned by it.
abbrev pub Agrees : {A : Type 0} → Poison → Guarded A → M SshSpikeError A → Type 0
Agrees {A} p g m = (h : History) → g p h ≡ (m h, p)

never_panics :
    {A : Type 0} (P : SshSpikeError → Type 0) (r : Outcome SshSpikeError A)
    → FailsAs P r
    → is_panic r ≡ false
never_panics P (ok a) p = refl
never_panics P (err e) p = refl
never_panics P panic p = absurd p
never_panics P blocked p = refl

pub lock-Agrees :
    {A : Type 0} (P : SshSpikeError → Type 0) (p : Poison) (l : ℕ) (body : M SshSpikeError A)
    → IsClean p
    → ((h : History) → FailsAs P (body h).0)
    → Agrees p (lock l body) body
lock-Agrees P p l body clean sound h = rw (clean l, never_panics P (body h).0 (sound h)) refl

-- The operation panics and makes no call if the mutex `l` is poisoned, and does what its body does if it is
-- not; it poisons no mutex.
abbrev pub Honours : {A : Type 0} → Poison → ℕ → Guarded A → M SshSpikeError A → Type 0
Honours {A} p l g m = (h : History) → g p h ≡ (if p l then (panic, h) else m h, p)

lock-Honours :
    {A : Type 0} (P : SshSpikeError → Type 0) (p : Poison) (l : ℕ) (body : M SshSpikeError A)
    → ((h : History) → FailsAs P (body h).0)
    → Honours p l (lock l body) body
lock-Honours P p l body sound h = elim (Bool-cases (p l)) [
  | inl poisoned ↦ rw poisoned refl
  | inr clean ↦ rw (clean, never_panics P (body h).0 (sound h)) refl
]

-- The operation panics and makes no call on a thread on which `block_on` may not be called and if the mutex
-- is poisoned. Otherwise it does what its body does. It poisons no mutex.
abbrev pub Enters :
    {A : Type 0} → (Caller → Bool) → Caller → Poison → ℕ → Guarded A → M SshSpikeError A → Type 0
Enters {A} enters caller p l g m =
    (h : History)
    → g p h ≡ (if enters caller then (if p l then (panic, h) else m h) else (panic, h), p)

module _ (enters : Caller → Bool) (caller : Caller) where
  connection-Enters :
      {A : Type 0} (p : Poison) (body : M SshSpikeError A)
      → ((h : History) → FailsAs IsChannel (body h).0)
      → Enters enters caller p handle_lock (block_on enters caller (lock handle_lock body)) body
  connection-Enters p body sound h = elim (Bool-cases (enters caller)) [
    | inl on ↦ rw on (lock-Honours IsChannel p handle_lock body sound h)
    | inr off ↦ rw off refl
  ]

  over_sftp-Enters :
      {A : Type 0} (L : Russh) (p : Poison) (s : SshSpikeSession) (f : ℕ → M SshSpikeError A)
      → Enters enters caller p handle_lock
          (block_on enters caller (and_after (lock handle_lock (Session.sftp_open L s)) f))
          (Session.sftp_open L s >>= f)
  over_sftp-Enters L p s f h =
      let opened =
        lock-Honours IsChannel p handle_lock (Session.sftp_open L s) (sftp_open-FailsAs L s) h in
      elim (Bool-cases (enters caller)) [
        | inl on ↦ elim (Bool-cases (p handle_lock)) [
          | inl poisoned ↦ rw (on, poisoned) refl
          | inr clean ↦ rw (on, opened, clean) refl
        ]
        | inr off ↦ rw off refl
      ]

  connect-enters :
      (L : Russh) (handshake : Handshake) (params : SshSpikeConnectParams) (h : History)
      → Entry.connect enters L handshake caller params h
        ≡ (if enters caller then connect_inner L handshake params h else (panic, h))
  unfolding Entry.connect
  connect-enters L handshake params h = refl

module _ (enters : Caller → Bool) (on_app : enters app ≡ true) where
  pub block_on-Agrees :
      {A : Type 0} (p : Poison) (g : Guarded A) (m : M SshSpikeError A)
      → Agrees p g m
      → Agrees p (block_on enters app g) m
  block_on-Agrees p g m same h = rw on_app (same h)

  blocking_call-with_write_half :
      (L : Russh) (message : Text) (half : Option ℕ) (c : ℕ → Call) (h : History)
      → blocking_call enters L app message half c h ≡ with_write_half L message half c h
  blocking_call-with_write_half L message none c h = refl
  blocking_call-with_write_half L message (some wh) c h = rw on_app refl

  pub half_call-Agrees :
      (L : Russh) (p : Poison) (l : ℕ) (message : Text) (half : Option ℕ) (c : ℕ → Call)
      → IsClean p
      → ((h : History) → FailsAs IsChannel (with_write_half L message half c h).0)
      → Agrees p
          (lock l (blocking_call enters L app message half c))
          (with_write_half L message half c)
  half_call-Agrees L p l message half c clean sound h =
      rw (clean l, blocking_call-with_write_half L message half c h)
        (rw (never_panics IsChannel (with_write_half L message half c h).0 (sound h)) refl)

  disconnect-clean :
      (s : SshSpikeSession) (p : Poison)
      → IsClean p
      → Entry.disconnect s p ≡ record {
        result = ok tt;
        session = (Session.disconnect s).0;
        tasks = (Session.disconnect s).1;
        poison = p;
      }
  unfolding Entry.disconnect
  disconnect-clean s p clean = go s.handle refl
    where
      go :
          (o : Option ℕ)
          → s.handle ≡ o
          → Entry.disconnect s p ≡ record {
            result = ok tt;
            session = (Session.disconnect s).0;
            tasks = (Session.disconnect s).1;
            poison = p;
          }
      go none e = rw (clean write_half_lock, clean handle_lock) (simp e)
      go (some handle) e =
          rw (clean write_half_lock, clean handle_lock) (simp (e, clean parents_lock))

  half_call-Honours :
      (L : Russh) (p : Poison) (l : ℕ) (message : Text) (half : Option ℕ) (c : ℕ → Call)
      → ((h : History) → FailsAs IsChannel (with_write_half L message half c h).0)
      → Honours p l
          (lock l (blocking_call enters L app message half c))
          (with_write_half L message half c)
  half_call-Honours L p l message half c sound h =
      rw (blocking_call-with_write_half L message half c h)
        (lock-Honours IsChannel p l (with_write_half L message half c) sound h)

-- What an entry comes to on any session. The dial and each operation on the connection panic, and make no
-- call, on a thread on which `block_on` may not be called, and the operations also if the mutex of the
-- connection is poisoned; otherwise each does what its body does. On an app's thread, on which `block_on` may
-- be called, a write and a resize panic, and make no call, if the mutex of the shell is poisoned, and
-- otherwise do what their bodies do. None of these poisons a mutex. If no mutex is poisoned, `disconnect`
-- takes the fields, spawns its tasks and does not panic.
pub entered_lem :
    (enters : Caller → Bool)
    → enters app ≡ true
    → (L : Russh) (F : RusshSftp) (handshake : Handshake) (params : SshSpikeConnectParams)
      (s : SshSpikeSession) (p clean : Poison) (text : Text) (bytes : List ℕ) (a b : ℕ)
      (caller : Caller)
    → IsClean clean
    → ((h : History)
        → Entry.connect enters L handshake caller params h
          ≡ (if enters caller then connect_inner L handshake params h else (panic, h)))
      × Enters enters caller p handle_lock
          (Entry.exec enters L caller s text)
          (Session.exec L s text)
      × Enters enters caller p handle_lock
          (Entry.direct_tcpip_banner enters L caller s text a)
          (Session.direct_tcpip_banner L s text a)
      × Enters enters caller p handle_lock
          (Entry.open_direct_tcpip enters L caller s text a)
          (Session.open_direct_tcpip L s text a)
      × Enters enters caller p handle_lock
          (Entry.request_remote_forward enters L caller s text a)
          (Session.request_remote_forward L s text a)
      × Enters enters caller p handle_lock
          (Entry.cancel_remote_forward enters L caller s text a)
          (Session.cancel_remote_forward L s text a)
      × Enters enters caller p handle_lock
          (Entry.sftp_read enters L F caller s text)
          (Sftp.sftp_read_file F L s text)
      × Enters enters caller p handle_lock (Entry.sftp enters L caller s) (Sftp.sftp F L s)
      × Honours p write_half_lock (Entry.write enters L app s bytes) (Session.write L s bytes)
      × Honours p write_half_lock (Entry.resize enters L app s a b) (Session.resize L s a b)
      × (Entry.disconnect s clean ≡ record {
        result = ok tt;
        session = (Session.disconnect s).0;
        tasks = (Session.disconnect s).1;
        poison = clean;
      })
unfolding Entry.exec Entry.write Entry.resize Entry.direct_tcpip_banner Entry.open_direct_tcpip
    Entry.request_remote_forward Entry.cancel_remote_forward Entry.sftp_read Entry.sftp
    Session.write Session.resize Sftp.sftp Sftp.sftp_read_file
entered_lem enters on_app L F handshake params s p clean text bytes a b caller unpoisoned =
    let errors =
      session_errors L s (record { read_half = ended; write_half = none }) text bytes a b in
    (
      connect-enters enters caller L handshake params,
      connection-Enters enters caller p (Session.exec L s text) (λ h. (errors h).0),
      connection-Enters enters caller p _ (λ h. (errors h).3),
      connection-Enters enters caller p _ (λ h. (errors h).4),
      connection-Enters enters caller p _ (λ h. (errors h).5),
      connection-Enters enters caller p _ (λ h. (errors h).6),
      over_sftp-Enters enters caller L p s _,
      over_sftp-Enters enters caller L p s _,
      half_call-Honours enters on_app L p write_half_lock _ s.write_half _ (λ h. (errors h).1),
      half_call-Honours enters on_app L p write_half_lock _ s.write_half _ (λ h. (errors h).2),
      disconnect-clean enters on_app s clean unpoisoned,
    )
