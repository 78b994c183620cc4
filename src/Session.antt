-- ===== src/Session.antt =====
-- The operations of an open `SshSpikeSession` in ssh-transport/src/lib.rs. The session's mutexes hold
-- the fields of the record; an operation that does not change the session takes it alone. Here is what
-- an operation does on the runtime and under the guard; `Entry` has `block_on` and `lock().unwrap()`.
pub mod Exec
pub mod Texts
pub mod Banner
pub mod Errors
pub mod Output
pub mod Teardown
pub mod Closed
pub mod Lifetime
pub mod Locks
use rust_core.Base.{ℕ, ◌<◌, Bool, true, false, ◌&&◌, Option, none, some, List, [], ◌∷◌, ◌++◌, map}
use rust_core.Base.{reverse, Text, codes, ltb, if◌then◌else◌, length}
use rust_core.Base.Utf8.{utf8_error, describe}
use rust_core.Russh.{Russh, RusshError, Stream, arrival, ended, silent, channel_data}
use rust_core.Russh.{extended_data, channel_eof, channel_close, exit_status, unrelated, Call}
use rust_core.Russh.{History, data_bytes, window_change, channel_open_session}
use rust_core.Russh.{channel_open_direct_tcpip, tcpip_forward, cancel_tcpip_forward}
use rust_core.Russh.{request_subsystem, sftp_session, Step, plain, within}
use rust_core.Outcome.{SshSpikeError, Outcome, ok, err, panic, blocked, M, pure, raise, continue}
use rust_core.Outcome.{◌>>=◌, ◌>>◌, perform}
use rust_core.Connect.{SshSpikeSession, localhost}
use rust_core.Channel.{SshSpikeChannel, channel_error, with_write_half, closing}

-- The receive loop of `exec`: whether the status was seen, and the output so far. Once it was seen,
-- a wait of more than 300 ms ends the loop.
unfoldable pub exec_loop : Stream → Bool → List ℕ → Outcome SshSpikeError (List ℕ)
exec_loop (arrival late (channel_data bytes) s) status_seen got =
    let rest = exec_loop s status_seen (got ++ bytes) in
    if status_seen && late then ok got else rest
exec_loop (arrival late (exit_status code) s) status_seen got =
    let rest = exec_loop s true got in if status_seen && late then ok got else rest
exec_loop (arrival late channel_close s) status_seen got = ok got
exec_loop (arrival late _ s) status_seen got =
    let rest = exec_loop s status_seen got in if status_seen && late then ok got else rest
exec_loop ended status_seen got = ok got
exec_loop silent status_seen got = if status_seen then ok got else blocked

-- The receive loop of `direct_tcpip_banner`.
unfoldable pub banner_loop : Stream → List ℕ → Outcome SshSpikeError (List ℕ)
banner_loop (arrival late (channel_data bytes) s) got =
    let rest = banner_loop s (got ++ bytes) in
    if ltb (length (got ++ bytes)) 4 then rest else ok (got ++ bytes)
banner_loop (arrival late channel_close s) got = ok got
banner_loop (arrival late channel_eof s) got = ok got
banner_loop (arrival late _ s) got = banner_loop s got
banner_loop ended got = ok got
banner_loop silent got = blocked

-- `String::from_utf8`, its error a channel error.
unfoldable pub from_utf8 : List ℕ → Outcome SshSpikeError Text
from_utf8 got = elim (utf8_error got) [
  | none ↦ ok got
  | some e ↦ err (SshSpikeError.channel (describe e))
]

-- The text of what a loop has received; the history is that of the call.
abbrev pub receive : Outcome SshSpikeError (List ℕ) → M SshSpikeError Text
receive r h = continue (λ got h'. (from_utf8 got, h')) r h

module _ (L : Russh) where
  -- `handle.as_mut().ok_or_else(…)?`
  abbrev pub open_handle : SshSpikeSession → M SshSpikeError ℕ
  open_handle s = elim s.handle [
    | none ↦ raise (SshSpikeError.channel (codes "session closed"))
    | some handle ↦ pure handle
  ]

  unfoldable pub exec : SshSpikeSession → Text → M SshSpikeError Text
  exec s command = do
    handle ← open_handle s
    channel ← perform L.opens (channel_error L) (channel_open_session handle)
    perform L.acknowledges (channel_error L) (Call.exec channel false command)
    λ h. receive (exec_loop (L.incoming h channel) false []) h

  unfoldable pub write : SshSpikeSession → List ℕ → M SshSpikeError (Unit {0})
  write s bytes =
      with_write_half L (codes "session closed") s.write_half (λ wh. data_bytes wh bytes)

  unfoldable pub resize : SshSpikeSession → ℕ → ℕ → M SshSpikeError (Unit {0})
  resize s cols rows =
      with_write_half L (codes "session closed") s.write_half (λ wh. window_change wh cols rows)

  unfoldable pub direct_tcpip_banner : SshSpikeSession → Text → ℕ → M SshSpikeError Text
  direct_tcpip_banner s host port = do
    handle ← open_handle s
    channel ←
        perform L.opens (channel_error L) (channel_open_direct_tcpip handle host port localhost 0)
    λ h. receive (banner_loop (L.incoming h channel) []) h

  unfoldable pub open_direct_tcpip : SshSpikeSession → Text → ℕ → M SshSpikeError SshSpikeChannel
  open_direct_tcpip s host port = do
    handle ← open_handle s
    channel ←
        perform L.opens (channel_error L) (channel_open_direct_tcpip handle host port localhost 0)
    λ h. (ok (record { read_half = L.incoming h channel; write_half = some channel }), h)

  -- The reply is the port that the server has bound.
  unfoldable pub request_remote_forward : SshSpikeSession → Text → ℕ → M SshSpikeError ℕ
  request_remote_forward s host port = do
    handle ← open_handle s
    perform L.opens (channel_error L) (tcpip_forward handle host port)

  unfoldable pub cancel_remote_forward : SshSpikeSession → Text → ℕ → M SshSpikeError (Unit {0})
  cancel_remote_forward s host port = do
    handle ← open_handle s
    perform L.acknowledges (channel_error L) (cancel_tcpip_forward handle host port)

  -- An SFTP session on a channel of its own.
  unfoldable pub sftp_open : SshSpikeSession → M SshSpikeError ℕ
  sftp_open s = do
    handle ← open_handle s
    channel ← perform L.opens (channel_error L) (channel_open_session handle)
    perform L.acknowledges (channel_error L) (request_subsystem channel true (codes "sftp"))
    perform L.opens (channel_error L) (sftp_session channel)

-- A connection's farewell, for five seconds at most.
abbrev pub farewell : ℕ → Step
farewell handle = within 5 (Call.disconnect handle (codes "closed") (codes "en"))

-- `disconnect`: what is left of the session, and the tasks spawned for the shell and the connections.
-- The hops are drained only together with the target's connection.
unfoldable pub disconnect : SshSpikeSession → SshSpikeSession × List (List Step)
disconnect s = elim s.handle [
  | none ↦ (record s { write_half = none }, closing s.write_half)
  | some handle ↦ (
    record s { write_half = none; handle = none; parents = [] },
    closing s.write_half ++ ((farewell handle ∷ map farewell (reverse s.parents)) ∷ []),
  )
]
