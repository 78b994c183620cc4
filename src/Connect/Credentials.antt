-- ===== src/Connect/Credentials.antt =====
-- Where `connect_inner` of ssh-transport/src/lib.rs sends a credential.
use rust_core.Base.{ℕ, ◌+◌, ◌≡◌, refl, inl, inr, Bool, true, false, Option, none, some, List, []}
use rust_core.Base.{◌∷◌, Text, length, last?, ◌==◌, arith}
use rust_core.KnownHosts.Fingerprint.{IsDigest}
use rust_core.Russh.{Russh, Config, History, verify, connect, connect_stream}
use rust_core.Russh.{channel_open_direct_tcpip, authenticate_password, authenticate_publickey}
use rust_core.Russh.{spawn_dispatch, Call, done}
use rust_core.Outcome.{Outcome, SshSpikeError, ok, continue, continue-keeps, continue-rule}
use rust_core.Outcome.{map_err_of, map_err_of-eq_ok, from_reply-eq_ok}
use rust_core.HostKey.{ProbeHandler, check_server_key}
use rust_core.Connect.{Handshake, SshSpikeAuth, password, private_key, SshSpikeJump}
use rust_core.Connect.{SshSpikeConnectParams, start, probe_handler, jump_from, open_jump, dial_hop}
use rust_core.Connect.{authenticate, localhost, transport_config, attribute, dial_loop, dial_list}
use rust_core.Connect.{open_shell, open_session, connect_inner, map_connect_error}
use rust_core.Connect.Steps.{ChecksKey, start-Started}

-- The handshake of a transport returned the connection: `c` is the call that started it, right after
-- `h`, with a handler for the endpoint.
abbrev pub Returned : Russh → Handshake → Text × ℕ → Call → History → ℕ → Type 0
Returned L handshake endpoint c h handle =
    (handler : ProbeHandler) × (handler.endpoint ≡ endpoint)
    × ((handshake (check_server_key L) handler c (c ∷ h)).0 ≡ ok handle)

-- The newest call is the verifier's consent to the key of the address dialled just before, directly or
-- over the channel that another connection has just opened to that address, and this dial has returned
-- the connection.
abbrev pub IsCleared : Russh → Handshake → ℕ → History → Type 0
IsCleared L handshake handle (verify host port _ _ true ∷ connect config h p ∷ before) =
    (host ≡ h) × (port ≡ p) × Returned L handshake (host, port) (connect config h p) before handle
IsCleared L handshake handle
      (verify host port _ _ true ∷ connect_stream config channel ∷ call ∷ before) =
    (parent : ℕ) × (origin : Text) × (origin_port : ℕ) × (call
      ≡ channel_open_direct_tcpip parent host port origin origin_port)
    × (L.opens before call ≡ done channel)
    × Returned L handshake (host, port) (connect_stream config channel) (call ∷ before) handle
IsCleared L handshake handle _ = ⊥

-- Every credential in the history was sent right after such a consent, over the connection that the
-- dial with this consent returned.
abbrev pub IsSafe : Russh → Handshake → History → Type 0
IsSafe L handshake [] = Unit {0}
IsSafe L handshake (authenticate_password handle _ _ ∷ h) =
    IsCleared L handshake handle h × IsSafe L handshake h
IsSafe L handshake (authenticate_publickey handle _ _ ∷ h) =
    IsCleared L handshake handle h × IsSafe L handshake h
IsSafe L handshake (_ ∷ h) = IsSafe L handshake h

module _ (L : Russh) (digest : IsDigest L.sha256) (handshake : Handshake)
    (promise : ChecksKey handshake) where
  -- A safe history that ends in a connection, if there is one, that may be sent a credential.
  abbrev Clears : Outcome SshSpikeError ℕ × History → Type 0
  Clears (r, h) = IsSafe L handshake h × ((conn : ℕ) → r ≡ ok conn → IsCleared L handshake conn h)

  start_direct-IsSafe :
      (handler : ProbeHandler) (config : Config) (h : History)
      → IsSafe L handshake h
      → let c = connect config handler.endpoint.0 handler.endpoint.1 in
        Clears (start L handshake handler c h)
  start_direct-IsSafe handler config h safe =
      elim (start-Started L digest handshake promise handler
        (connect config handler.endpoint.0 handler.endpoint.1) h).1 [
          | inl (fails, same) ↦ rw same (safe, λ conn e. absurd (fails (conn, e)))
          | inr (a, b, answer, same, accepted, _) ↦ rw same (
            safe,
            λ conn e.
                rw (accepted (conn, e))
                  (refl, refl, (handler, refl, map_err_of-eq_ok (map_connect_error L) _ e)),
          )
        ]

  start_stream-IsSafe :
      (handler : ProbeHandler) (config : Config) (channel parent : ℕ) (h : History)
      → IsSafe L handshake h
      → let jump : History =
          channel_open_direct_tcpip parent handler.endpoint.0 handler.endpoint.1 localhost 0 ∷ h in
        L.opens h
            (channel_open_direct_tcpip parent handler.endpoint.0 handler.endpoint.1 localhost 0)
          ≡ done channel
        → Clears (start L handshake handler (connect_stream config channel) jump)
  start_stream-IsSafe handler config channel parent h safe opened =
      let jump : History =
        channel_open_direct_tcpip parent handler.endpoint.0 handler.endpoint.1 localhost 0 ∷ h in
      elim (start-Started L digest handshake promise handler (connect_stream config channel)
        jump).1 [
          | inl (fails, same) ↦ rw same (safe, λ conn e. absurd (fails (conn, e)))
          | inr (a, b, answer, same, accepted, _) ↦ rw same (
            safe,
            λ conn e. rw (accepted (conn, e)) (
              parent,
              localhost,
              0,
              refl,
              opened,
              (handler, refl, map_err_of-eq_ok (map_connect_error L) _ e),
            ),
          )
        ]

  -- An entry behind the first, with the previous hop's connection or none.
  stream_hop-IsSafe :
      (o : Option ℕ) (is_target : Bool) (config : Config) (d : SshSpikeJump) (h : History)
      → IsSafe L handshake h
      → let jump = jump_from L o d h in
        Clears (
          continue
            (λ channel.
              start L handshake (probe_handler is_target d) (connect_stream config channel))
            jump.0
            jump.1)
  unfolding jump_from
  stream_hop-IsSafe none is_target config d h safe = (safe, λ conn e. cc)
  stream_hop-IsSafe (some parent) is_target config d h safe =
      let jump = jump_from L (some parent) d h in
      continue-rule (λ r h'. Clears (r, h')) _ jump.0 jump.1
        (λ x n. (safe, λ conn e. absurd (n (conn, e))))
        (λ channel e.
          start_stream-IsSafe (probe_handler is_target d) config channel parent h safe
            (from_reply-eq_ok _ _ e))

  dial_hop-IsSafe :
      (ka : ℕ) (is_first is_target : Bool) (parents : List ℕ) (d : SshSpikeJump) (h : History)
      → IsSafe L handshake h
      → Clears (dial_hop L handshake ka is_first is_target parents d h)
  unfolding dial_hop open_jump
  dial_hop-IsSafe ka true is_target parents d h safe =
      start_direct-IsSafe (probe_handler is_target d) (transport_config ka) h safe
  dial_hop-IsSafe ka false is_target parents d h safe =
      stream_hop-IsSafe (last? parents) is_target (transport_config ka) d h safe

  authenticate-IsSafe :
      (handle : ℕ) (user : Text) (auth : SshSpikeAuth) (h : History)
      → IsSafe L handshake h
      → IsCleared L handshake handle h
      → IsSafe L handshake (authenticate L handle user auth h).1
  unfolding authenticate
  authenticate-IsSafe handle user (password secret) h safe cleared = ground arith
  authenticate-IsSafe handle user (private_key pem passphrase) h safe cleared = ground arith

  dial_loop-IsSafe :
      (ka i n : ℕ) (rest : List SshSpikeJump) (parents : List ℕ) (target : Option ℕ) (h : History)
      → IsSafe L handshake h
      → IsSafe L handshake (dial_loop L handshake ka i n rest parents target h).1
  unfolding dial_loop
  dial_loop-IsSafe ka i n [] parents target h safe = safe
  dial_loop-IsSafe ka i n (d ∷ rest) parents target h safe =
      let dialled = dial_hop L handshake ka (i == 0) (i + 1 == n) parents d h in
      let (safe', cleared) = dial_hop-IsSafe ka (i == 0) (i + 1 == n) parents d h safe in
      continue-keeps (IsSafe L handshake) _ dialled.0 dialled.1 safe' λ conn e.
        let sent = authenticate L conn d.username d.auth dialled.1 in
        let safe'' = authenticate-IsSafe conn d.username d.auth dialled.1 safe' (cleared conn e) in
        continue-keeps (IsSafe L handshake) _ (map_err_of (attribute (i + 1 == n) d) sent.0) sent.1
          safe'' λ _ _. dial_loop-IsSafe ka (i + 1) n rest _ _ sent.1 safe''

  open_shell-IsSafe :
      (handle cols rows : ℕ) (h : History)
      → IsSafe L handshake h
      → IsSafe L handshake (open_shell L handle cols rows h).1
  unfolding open_shell
  open_shell-IsSafe handle cols rows h safe = ground arith

  open_session-IsSafe :
      (p : SshSpikeConnectParams) (connections : List ℕ × Option ℕ) (h : History)
      → IsSafe L handshake h
      → IsSafe L handshake (open_session L handshake p connections h).1
  unfolding open_session
  open_session-IsSafe p (parents, none) h safe = safe
  open_session-IsSafe p (parents, some handle) h safe =
      let shell = open_shell L handle p.cols p.rows h in
      let safe' = open_shell-IsSafe handle p.cols p.rows h safe in
      continue-keeps (IsSafe L handshake) _ shell.0 shell.1 safe' λ _ _. safe'

  -- For a hash with 32-byte digests, a handshake that keeps its promise and a history that is safe,
  -- whether or not the dial succeeds: a password or a key is sent only right after the verifier has
  -- accepted a host key for the very address that was dialled, and over the connection that this dial
  -- has returned. A dial through a hop has run over the channel that was opened to this address.
  pub connect_inner-IsSafe :
      (p : SshSpikeConnectParams) (h : History)
      → IsSafe L handshake h
      → IsSafe L handshake (connect_inner L handshake p h).1
  unfolding connect_inner
  connect_inner-IsSafe p h safe =
      let hops = dial_list p in
      let looped =
        dial_loop L handshake p.keep_alive_seconds 0 (length hops) hops [] none
          (spawn_dispatch ∷ h) in
      let safe' =
        dial_loop-IsSafe p.keep_alive_seconds 0 (length hops) hops [] none (spawn_dispatch ∷ h)
          safe in
      continue-keeps (IsSafe L handshake) _ looped.0 looped.1 safe'
        λ connections _. open_session-IsSafe p connections looped.1 safe'
