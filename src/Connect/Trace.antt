-- ===== src/Connect/Trace.antt =====
-- The calls of `connect_inner` of ssh-transport/src/lib.rs, written out hop by hop.
pub mod Follows
pub mod Dialled
use rust_core.Base.{ℕ, ◌≡◌, ◌≢◌, ◌⊎◌, Bool, true, false, Option, none, some, List, [], ◌∷◌, ◌++◌}
use rust_core.Base.{Text, codes, last?}
use rust_core.Russh.{Russh, RusshError, Call, History, Config, done, failed, verify, connect}
use rust_core.Russh.{connect_stream, channel_open_direct_tcpip, authenticate_password}
use rust_core.Russh.{authenticate_publickey}
use rust_core.Outcome.{SshSpikeError, ok, to_string}
use rust_core.HostKey.{ProbeHandler, check_server_key}
use rust_core.Connect.{Handshake, SshSpikeAuth, password, private_key, SshSpikeJump, localhost}
use rust_core.Connect.{address}

-- The keep-alive of a dial: none for 0, and no timeout for an inactive connection.
abbrev pub KeepsAlive : ℕ → Config → Type 0
KeepsAlive ka config =
    (((ka ≡ 0) × (config.keepalive_interval ≡ none))
      ⊎ ((ka ≢ 0) × (config.keepalive_interval ≡ some ka)))
    × (config.inactivity_timeout ≡ none)

-- Only the last entry of the dial list, the target, has the router of forwarded channels.
abbrev pub is_last : List SshSpikeJump → Bool
is_last [] = true
is_last (d ∷ rest) = false

-- The handler that an entry is dialled with.
abbrev pub handler_of : SshSpikeJump → List SshSpikeJump → ProbeHandler
handler_of d rest = record {
  accepted_host_keys = [];
  endpoint = (d.host, d.port);
  has_router = is_last rest;
}

-- The call that sends the credential over a connection. A private key is sent once it can be read.
abbrev pub Sends : Russh → ℕ → Text → SshSpikeAuth → Call → Type 0
Sends L conn user (password secret) call = call ≡ authenticate_password conn user secret
Sends L conn user (private_key pem passphrase) call =
    (key : ℕ) × (L.decode_secret_key pem passphrase ≡ done key)
    × (call ≡ authenticate_publickey conn user key)

module _ (L : Russh) (handshake : Handshake) (ka : ℕ) where
  -- The transport that `c` starts returned the connection `conn`, and the verifier has accepted a key.
  abbrev pub Connected : SshSpikeJump → List SshSpikeJump → Call → History → ℕ → History → Type 0
  Connected d rest c h conn h' =
      ((handshake (check_server_key L) (handler_of d rest) c (c ∷ h)).0 ≡ ok conn)
      × ((algorithm : Text) × (blob : List ℕ) × (h'
            ≡ verify d.host d.port algorithm blob true ∷ c ∷ h))

  -- An entry is connected, with `rest` to come: the first directly, and another one over the channel to its
  -- address that the last connection `parent` has opened.
  abbrev pub Reached : Option ℕ → SshSpikeJump → List SshSpikeJump → History → ℕ → History → Type 0
  Reached none d rest h conn h' =
      (config : Config) × KeepsAlive ka config
      × Connected d rest (connect config d.host d.port) h conn h'
  Reached (some parent) d rest h conn h' =
      (config : Config) × (channel : ℕ) × KeepsAlive ka config
      × (L.opens h (channel_open_direct_tcpip parent d.host d.port localhost 0) ≡ done channel)
      × Connected d rest (connect_stream config channel)
          (channel_open_direct_tcpip parent d.host d.port localhost 0 ∷ h) conn h'

  -- From `start` on, the entries of the dial list before `rest` were connected, each over the one before,
  -- and each has accepted its credential over its own connection. `conns` are the connections, in order.
  pub data Passes (entries : List SshSpikeJump) (start : History)
      : List SshSpikeJump → List ℕ → History → Type 0 where
    begins : Passes entries start entries [] start
    one_more :
        {d : SshSpikeJump} {rest : List SshSpikeJump} {conns : List ℕ} {h h' : History} (conn : ℕ)
        {call : Call}
        → Passes entries start (d ∷ rest) conns h
        → Reached (last? conns) d rest h conn h'
        → Sends L conn d.username d.auth call
        → L.authenticates h' call ≡ done true
        → Passes entries start rest (conns ++ (conn ∷ [])) (call ∷ h')

-- Why a credential fails, and the history then.
abbrev pub Answered : Russh → Text → Call → History → SshSpikeError → History → Type 0
Answered L message call h reason h' =
    (h' ≡ call ∷ h)
    × (((L.authenticates h call ≡ done false) × (reason ≡ SshSpikeError.auth message))
        ⊎ ((e : RusshError) × (L.authenticates h call ≡ failed e)
            × (reason ≡ SshSpikeError.auth (L.error_text e))))

-- The connection refuses the credential or its call fails, or the private key cannot be read.
abbrev pub Refuses : Russh → ℕ → Text → SshSpikeAuth → History → SshSpikeError → History → Type 0
Refuses L conn user (password secret) h reason h' =
    Answered L (codes "password rejected") (authenticate_password conn user secret) h reason h'
Refuses L conn user (private_key pem passphrase) h reason h' =
    ((key : ℕ) × (L.decode_secret_key pem passphrase ≡ done key)
      × Answered L (codes "key rejected") (authenticate_publickey conn user key) h reason h')
    ⊎ ((e : Text) × (L.decode_secret_key pem passphrase ≡ failed e)
        × (reason ≡ SshSpikeError.auth e)
        × (h' ≡ h))

-- A dial that failed to authenticate: the entries before one have passed, it was connected over the last of
-- them and refused its credential, and `m` tells why: the target's own reason, or the hop's address and then
-- the reason.
abbrev pub IsRefused : Russh → Handshake → ℕ → List SshSpikeJump → History → Text → History → Type 0
IsRefused L handshake ka entries start m h' =
    (d : SshSpikeJump) × (after : List SshSpikeJump) × (conns : List ℕ) × (h : History) × (conn : ℕ)
    × (h1 : History) × (reason : SshSpikeError) × Passes L handshake ka entries start (d ∷ after)
        conns h
    × Reached L handshake ka (last? conns) d after h conn h1
    × Refuses L conn d.username d.auth h1 reason h'
    × (((after ≡ []) × (SshSpikeError.auth m ≡ reason))
        ⊎ ((after ≢ [])
            × (m ≡ codes "jump to " ++ (address d ++ (codes ": " ++ to_string reason)))))
