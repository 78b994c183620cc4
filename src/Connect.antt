-- ===== src/Connect.antt =====
-- Dialling in ssh-transport/src/lib.rs: `connect_inner`, `transport_config`, `map_connect_error` and
-- `authenticate`. A connection that is dialled runs the key check of `HostKey`, which the parameter
-- `handshake` is given; it stands for russh's `connect` and `connect_stream`.
pub mod Steps
pub mod Credentials
pub mod Trace
pub mod Panics
pub mod Failures
pub mod Connections
pub mod Attribution
use rust_core.Base.{ℕ, zero, suc, ◌+◌, Bool, true, false, not, Option, none, some, List, [], ◌∷◌}
use rust_core.Base.{◌++◌, map, Text, codes, display, to_lowercase, if◌then◌else◌, ◌==◌, length}
use rust_core.Base.{last?}
use rust_core.Russh.{Russh, RusshError, unknown_key, no_common_algo, other, HostKey, Config, Call}
use rust_core.Russh.{connect, connect_stream, authenticate_password, authenticate_publickey}
use rust_core.Russh.{channel_open_session, channel_open_direct_tcpip, request_pty, request_shell}
use rust_core.Russh.{spawn_dispatch, spawn_pump, Reply}
use rust_core.Outcome.{SshSpikeError, host_key_rejected, to_string, M, Outcome, ok, err, pure}
use rust_core.Outcome.{raise, panics, continue, ◌>>=◌, ◌>>◌, map_err, from_reply, perform}
use rust_core.HostKey.{ProbeHandler, check_server_key}

-- `SshSpikeAuth`
pub data SshSpikeAuth : Type 0 where
  password : Text → SshSpikeAuth
  private_key : (pem : Text) → (passphrase : Option Text) → SshSpikeAuth

-- `SshSpikeJump`, and an entry of the dial list.
pub record SshSpikeJump : Type 0 where
  pub host : Text
  pub port : ℕ
  pub username : Text
  pub auth : SshSpikeAuth

pub record SshSpikeConnectParams : Type 0 where
  pub host : Text
  pub port : ℕ
  pub username : Text
  pub auth : SshSpikeAuth
  pub cols : ℕ
  pub rows : ℕ
  pub via : List SshSpikeJump
  pub keep_alive_seconds : ℕ

-- `SshSpikeSession`: the shell's write half, the connection, and the hops' connections.
pub record SshSpikeSession : Type 0 where
  pub write_half : Option ℕ
  pub handle : Option ℕ
  pub parents : List ℕ

unfoldable pub transport_config : ℕ → Config
transport_config keep_alive_seconds = record {
  keepalive_interval = if keep_alive_seconds == 0 then none else some keep_alive_seconds;
  inactivity_timeout = none;
}

-- The target as an entry of the dial list.
abbrev pub target_entry : SshSpikeConnectParams → SshSpikeJump
target_entry p = record { host = p.host; port = p.port; username = p.username; auth = p.auth }

-- The dial list: the hops, outermost first, and then the target.
unfoldable pub dial_list : SshSpikeConnectParams → List SshSpikeJump
dial_list p = p.via ++ (target_entry p ∷ [])

-- russh's `connect` and `connect_stream`: given the key check, a handler and the call, they run the
-- handshake and return a connection.
abbrev pub Handshake : Type 0
Handshake =
    (ProbeHandler → HostKey → M RusshError (Bool × ProbeHandler))
    → ProbeHandler
    → Call
    → M RusshError ℕ

-- `{h}:{p}`
abbrev pub address : SshSpikeJump → Text
address d = d.host ++ (codes ":" ++ display d.port)

abbrev pub localhost : Text
localhost = codes "127.0.0.1"

-- The handler of an entry: only the target's has the router of forwarded channels.
abbrev pub probe_handler : Bool → SshSpikeJump → ProbeHandler
probe_handler is_target d = record {
  accepted_host_keys = [];
  endpoint = (d.host, d.port);
  has_router = is_target;
}

-- The failure of a hop's authentication names the hop; the target's keeps its wording.
unfoldable pub attribute : Bool → SshSpikeJump → SshSpikeError → SshSpikeError
attribute is_target d e =
    if is_target
    then e
    else SshSpikeError.auth (codes "jump to " ++ (address d ++ (codes ": " ++ to_string e)))

module _ (L : Russh) where
  unfoldable pub map_connect_error : RusshError → SshSpikeError
  map_connect_error unknown_key = host_key_rejected
  map_connect_error (no_common_algo kind) =
      SshSpikeError.no_common_algorithm (to_lowercase (L.kind_debug kind))
  map_connect_error (other n) = SshSpikeError.connect (L.error_text (other n))

  -- `AuthResult::success` is false for a rejected credential.
  abbrev pub succeeded : Text → Bool → M SshSpikeError (Unit {0})
  succeeded message success = if not success then raise (SshSpikeError.auth message) else pure tt

  unfoldable pub authenticate : ℕ → Text → SshSpikeAuth → M SshSpikeError (Unit {0})
  authenticate handle username (password secret) = do
    result ←
        perform L.authenticates (λ e. SshSpikeError.auth (L.error_text e))
          (authenticate_password handle username secret)
    succeeded (codes "password rejected") result
  authenticate handle username (private_key pem passphrase) = do
    key ← λ h. (from_reply SshSpikeError.auth (L.decode_secret_key pem passphrase), h)
    result ←
        perform L.authenticates (λ e. SshSpikeError.auth (L.error_text e))
          (authenticate_publickey handle username key)
    succeeded (codes "key rejected") result

  -- `|e| SshSpikeError::Channel(e.to_string())`
  abbrev pub channel_error : RusshError → SshSpikeError
  channel_error e = SshSpikeError.channel (L.error_text e)

  -- A channel of the previous hop to this one's address, as the previous hop sees it.
  unfoldable pub jump_from : Option ℕ → SshSpikeJump → M SshSpikeError ℕ
  jump_from none d = panics
  jump_from (some parent) d =
      perform L.opens
        (λ e.
          SshSpikeError.connect
            (codes "jump to " ++ (address d ++ (codes " failed: " ++ L.error_text e))))
        (channel_open_direct_tcpip parent d.host d.port localhost 0)

  unfoldable pub open_jump : List ℕ → SshSpikeJump → M SshSpikeError ℕ
  open_jump parents d = jump_from (last? parents) d

  -- A PTY and a shell on a new channel of the target; its read half goes to the pump.
  unfoldable pub open_shell : ℕ → ℕ → ℕ → M SshSpikeError ℕ
  open_shell handle cols rows = do
    channel ← perform L.opens channel_error (channel_open_session handle)
    perform L.acknowledges channel_error
        (request_pty channel false (codes "xterm-256color") cols rows)
    perform L.acknowledges channel_error (request_shell channel false)
    pure channel

  module _ (handshake : Handshake) where
    -- The handshake on a new transport, recorded and then run.
    abbrev pub start : ProbeHandler → Call → M SshSpikeError ℕ
    start handler c h = map_err map_connect_error (handshake (check_server_key L) handler c) (c ∷ h)

    -- One round of the loop up to the connection: direct for the first entry, and over a channel of
    -- the previous hop for the others.
    unfoldable pub dial_hop : ℕ → Bool → Bool → List ℕ → SshSpikeJump → M SshSpikeError ℕ
    dial_hop keep_alive_seconds is_first is_target parents d =
        let config = transport_config keep_alive_seconds in
        let handler = probe_handler is_target d in
        if is_first
        then start handler (connect config d.host d.port)
        else (open_jump parents d >>= λ channel. start handler (connect_stream config channel))

    -- The loop, from entry `i` of `n` on, with the hops' connections and the target's.
    unfoldable pub dial_loop :
        ℕ → ℕ → ℕ → List SshSpikeJump → List ℕ → Option ℕ → M SshSpikeError (List ℕ × Option ℕ)
    dial_loop keep_alive_seconds i n [] parents target = pure (parents, target)
    dial_loop keep_alive_seconds i n (d ∷ rest) parents target = do
      let is_target = i + 1 == n
      conn ← dial_hop keep_alive_seconds (i == 0) is_target parents d
      _ ← map_err (attribute is_target d) (authenticate conn d.username d.auth)
      dial_loop keep_alive_seconds (i + 1) n rest
          (if is_target then parents else parents ++ (conn ∷ []))
          (if is_target then some conn else target)

    -- The session over the connections that the loop made; the loop always ends with the target.
    unfoldable pub open_session :
        SshSpikeConnectParams → List ℕ × Option ℕ → M SshSpikeError SshSpikeSession
    open_session p (parents, none) = panics
    open_session p (parents, some handle) = do
      channel ← open_shell handle p.cols p.rows
      λ h. (
        ok (record { write_half = some channel; handle = some handle; parents = parents }),
        spawn_pump channel ∷ h,
      )

    unfoldable pub connect_inner : SshSpikeConnectParams → M SshSpikeError SshSpikeSession
    connect_inner p = do
      λ h. (ok tt, spawn_dispatch ∷ h)
      connections ← dial_loop p.keep_alive_seconds 0 (length (dial_list p)) (dial_list p) [] none
      open_session p connections
