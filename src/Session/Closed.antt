-- ===== src/Session/Closed.antt =====
-- The operations of a session of ssh-transport/src/lib.rs after `disconnect`.
use rust_core.Base.{ℕ, ◌≡◌, none, List, [], Text, codes, arith}
use rust_core.Russh.{Russh, History}
use rust_core.Outcome.{SshSpikeError, Outcome, err, M}
use rust_core.Connect.{SshSpikeSession}
use rust_core.Session.{exec, write, resize, direct_tcpip_banner, open_direct_tcpip, disconnect}
use rust_core.Session.{request_remote_forward, cancel_remote_forward, sftp_open}

-- A call that is refused with `session closed` and reaches nothing.
abbrev pub IsRefused : {A : Type 0} → M SshSpikeError A → Type 0
IsRefused {A} m =
    let refusal : Outcome SshSpikeError A = err (SshSpikeError.channel (codes "session closed")) in
    (h : History) → m h ≡ (refusal, h)

disconnect-empty :
    (s : SshSpikeSession) → ((disconnect s).0.handle ≡ none) × ((disconnect s).0.write_half ≡ none)
unfolding disconnect
disconnect-empty s = ground arith

module _ (L : Russh) (s : SshSpikeSession) (no_handle : s.handle ≡ none)
    (no_shell : s.write_half ≡ none) where
  exec-IsRefused : (command : Text) → IsRefused (exec L s command)
  unfolding exec
  exec-IsRefused command h = rw no_handle

  write-IsRefused : (bytes : List ℕ) → IsRefused (write L s bytes)
  unfolding write
  write-IsRefused bytes h = rw no_shell

  resize-IsRefused : (cols rows : ℕ) → IsRefused (resize L s cols rows)
  unfolding resize
  resize-IsRefused cols rows h = rw no_shell

  direct_tcpip_banner-IsRefused :
      (host : Text) (port : ℕ) → IsRefused (direct_tcpip_banner L s host port)
  unfolding direct_tcpip_banner
  direct_tcpip_banner-IsRefused host port h = rw no_handle

  open_direct_tcpip-IsRefused :
      (host : Text) (port : ℕ) → IsRefused (open_direct_tcpip L s host port)
  unfolding open_direct_tcpip
  open_direct_tcpip-IsRefused host port h = rw no_handle

  request_remote_forward-IsRefused :
      (host : Text) (port : ℕ) → IsRefused (request_remote_forward L s host port)
  unfolding request_remote_forward
  request_remote_forward-IsRefused host port h = rw no_handle

  cancel_remote_forward-IsRefused :
      (host : Text) (port : ℕ) → IsRefused (cancel_remote_forward L s host port)
  unfolding cancel_remote_forward
  cancel_remote_forward-IsRefused host port h = rw no_handle

  sftp_open-IsRefused : IsRefused (sftp_open L s)
  unfolding sftp_open
  sftp_open-IsRefused h = rw no_handle

  disconnect-idle : (disconnect s).1 ≡ []
  unfolding disconnect
  disconnect-idle = rw (no_handle, no_shell)

-- After `disconnect` of any session, a command, a write, a resize, both direct channels, a remote
-- forward, its cancellation and a new SFTP session are refused with `session closed` and make no
-- call, and another `disconnect` spawns no task.
pub disconnect-IsRefused :
    (L : Russh) (s : SshSpikeSession) (text : Text) (bytes : List ℕ) (a b : ℕ)
    → let t = (disconnect s).0 in
      IsRefused (exec L t text)
      × IsRefused (write L t bytes)
      × IsRefused (resize L t a b)
      × IsRefused (direct_tcpip_banner L t text a)
      × IsRefused (open_direct_tcpip L t text a)
      × IsRefused (request_remote_forward L t text a)
      × IsRefused (cancel_remote_forward L t text a)
      × IsRefused (sftp_open L t)
      × ((disconnect t).1 ≡ [])
disconnect-IsRefused L s text bytes a b =
    let (no_handle, no_shell) = disconnect-empty s in
    let t = (disconnect s).0 in
    (
      exec-IsRefused L t no_handle no_shell text,
      write-IsRefused L t no_handle no_shell bytes,
      resize-IsRefused L t no_handle no_shell a b,
      direct_tcpip_banner-IsRefused L t no_handle no_shell text a,
      open_direct_tcpip-IsRefused L t no_handle no_shell text a,
      request_remote_forward-IsRefused L t no_handle no_shell text a,
      cancel_remote_forward-IsRefused L t no_handle no_shell text a,
      sftp_open-IsRefused L t no_handle no_shell,
      disconnect-idle L t no_handle no_shell,
    )
