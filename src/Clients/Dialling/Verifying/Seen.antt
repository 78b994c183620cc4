-- ===== src/Clients/Dialling/Verifying/Seen.antt =====
-- What the verifier of ssh-transport/src/lib.rs is shown by a dial with no hops.
use rust_core.Base.{ℕ, ◌≡◌, refl, ◌∙◌, ap, ◌⊎◌, inl, inr, Bool, true, false, Option, none, some}
use rust_core.Base.{List, [], ◌∷◌, ◌++◌, Text, codes, display, length, arith}
use rust_core.KnownHosts.{is_plausible_blob, has_family}
use rust_core.KnownHosts.Fingerprint.{IsDigest}
use rust_core.KnownHosts.Plausible.{to_be_bytes, IsAlgorithm, IsKeyBlob-plausible}
use rust_core.KnownHosts.Plausible.{tested-IsAlgorithm}
use rust_core.Russh.{Russh, Config, HostKey, Call, History, connect, spawn_dispatch, RusshError}
use rust_core.Outcome.{ok, M, IsOk, OnReturn, continue-keeps, continue-OnReturn, map_err_of-eq_ok}
use rust_core.Outcome.{map_err_of}
use rust_core.HostKey.{ProbeHandler, check_server_key}
use rust_core.HostKey.Verified.{encoded, check-unencodable, check_server_key_lem}
use rust_core.Connect.{Handshake, SshSpikeAuth, password, private_key, SshSpikeSession, start}
use rust_core.Connect.{probe_handler, dial_hop, transport_config, authenticate, attribute}
use rust_core.Connect.{dial_loop, dial_list, open_shell, target_entry, open_session, connect_inner}
use rust_core.Connect.{map_connect_error, SshSpikeJump, SshSpikeConnectParams}
use rust_core.Connect.Steps.{FollowsCheck, encoded-cases}
use rust_core.Clients.Dialling.{shell_params}
use rust_core.Clients.Dialling.Verifying.{accept, seen, is_host_key_name, assert_plausible}
use rust_core.Clients.Dialling.Verifying.{check_seen, host_key_verifier_sees_a_plausible_wire_blob}

-- The types of host keys that an OpenSSH server offers by default.
pub data KeyType : Type 0 where
  ed25519 rsa nistp256 nistp384 nistp521 : KeyType

abbrev pub key_name : KeyType → Text
key_name ed25519 = codes "ssh-ed25519"
key_name rsa = codes "ssh-rsa"
key_name nistp256 = codes "ecdsa-sha2-nistp256"
key_name nistp384 = codes "ecdsa-sha2-nistp384"
key_name nistp521 = codes "ecdsa-sha2-nistp521"

-- The name in front of the encoding, which tells a certificate from a plain key.
abbrev pub wire_name : Bool → KeyType → Text
wire_name false type = key_name type
wire_name true type = key_name type ++ codes "-cert-v01@openssh.com"

-- The encoding of a key in RFC 4253, section 6.6, and of a certificate in OpenSSH's PROTOCOL.certkeys:
-- its type as a string with its length in front, and then what belongs to the type.
abbrev pub IsWireKey : Text → List ℕ → Type 0
IsWireKey algorithm blob =
    (type : KeyType) × (certified : Bool) × (rest : List ℕ) × (algorithm ≡ key_name type)
    × (blob ≡ to_be_bytes (length (wire_name certified type)) ++ (wire_name certified type ++ rest))

wire_name-IsAlgorithm : (certified : Bool) (type : KeyType) → IsAlgorithm (wire_name certified type)
unfolding has_family
wire_name-IsAlgorithm false ed25519 = tested-IsAlgorithm _ refl refl refl refl
wire_name-IsAlgorithm false rsa = tested-IsAlgorithm _ refl refl refl refl
wire_name-IsAlgorithm false nistp256 = tested-IsAlgorithm _ refl refl refl refl
wire_name-IsAlgorithm false nistp384 = tested-IsAlgorithm _ refl refl refl refl
wire_name-IsAlgorithm false nistp521 = tested-IsAlgorithm _ refl refl refl refl
wire_name-IsAlgorithm true ed25519 = tested-IsAlgorithm _ refl refl refl refl
wire_name-IsAlgorithm true rsa = tested-IsAlgorithm _ refl refl refl refl
wire_name-IsAlgorithm true nistp256 = tested-IsAlgorithm _ refl refl refl refl
wire_name-IsAlgorithm true nistp384 = tested-IsAlgorithm _ refl refl refl refl
wire_name-IsAlgorithm true nistp521 = tested-IsAlgorithm _ refl refl refl refl

IsWireKey-plausible :
    (algorithm : Text) (blob : List ℕ)
    → IsWireKey algorithm blob
    → is_plausible_blob blob ≡ some true
IsWireKey-plausible algorithm blob (type, certified, rest, _, shape) =
    IsKeyBlob-plausible blob
      (wire_name certified type, rest, shape, wire_name-IsAlgorithm certified type)

key_name-prefix : (type : KeyType) → is_host_key_name (key_name type) ≡ true
key_name-prefix ed25519 = refl
key_name-prefix rsa = refl
key_name-prefix nistp256 = refl
key_name-prefix nistp384 = refl
key_name-prefix nistp521 = refl

-- What russh promises, as in `ChecksKey`, and of the server's keys: one that can be encoded has that form.
abbrev pub ShowsWireKeys : Handshake → Type 0
ShowsWireKeys handshake =
    (check : ProbeHandler → HostKey → M RusshError (Bool × ProbeHandler)) (handler : ProbeHandler)
    (c : Call) (h : History)
    → (¬ IsOk (handshake check handler c h).0)
      ⊎ ((key : HostKey) × ((algorithm : Text) (blob : List ℕ)
            → encoded key ≡ some (algorithm, blob)
            → IsWireKey algorithm blob)
          × FollowsCheck (check handler key h).0 (handshake check handler c h).0
          × ((handshake check handler c h).1 ≡ (check handler key h).1))

-- One key more was seen, of the endpoint and in its wire form.
abbrev pub SeesOne : Text × ℕ → History → History → Type 0
SeesOne (host, port) h h' =
    (algorithm : Text) × (blob : List ℕ) × IsWireKey algorithm blob
    × (seen h' ≡ seen h ++ ((host ++ (codes ":" ++ display port), algorithm, blob) ∷ []))

module _ (L : Russh) where
  authenticate-seen :
      (handle : ℕ) (user : Text) (auth : SshSpikeAuth) (h : History)
      → seen (authenticate L handle user auth h).1 ≡ seen h
  unfolding authenticate
  authenticate-seen handle user (password secret) h = ground arith
  authenticate-seen handle user (private_key pem passphrase) h = ground arith

  open_shell-seen :
      (handle cols rows : ℕ) (h : History) → seen (open_shell L handle cols rows h).1 ≡ seen h
  unfolding open_shell
  open_shell-seen handle cols rows h = ground arith

assert_plausible_lem :
    (blob : List ℕ) (h : History)
    → is_plausible_blob blob ≡ some true
    → assert_plausible blob h ≡ (ok tt, h)
unfolding assert_plausible
assert_plausible_lem blob h e = rw (e, assert_plausible) refl

check_seen_lem :
    (algorithm : Text) (blob : List ℕ) (h : History)
    → IsWireKey algorithm blob
    → check_seen ((codes "127.0.0.1:2233", algorithm, blob) ∷ []) h ≡ (ok tt, h)
unfolding check_seen
check_seen_lem algorithm blob h wire =
    let prefix : is_host_key_name algorithm ≡ true = rw wire.3 (key_name-prefix wire.0) in
    rw prefix (assert_plausible_lem blob h (IsWireKey-plausible algorithm blob wire))

module _ (L : Russh) (digest : IsDigest L.sha256) (handshake : Handshake)
    (promise : ShowsWireKeys handshake) where
  start-SeesOne :
      (handler : ProbeHandler) (config : Config) (h : History)
      → OnReturn
          (λ _ h'. SeesOne handler.endpoint h h')
          (start
            (accept L)
            handshake
            handler
            (connect config handler.endpoint.0 handler.endpoint.1)
            h)
  start-SeesOne handler config h conn e =
      let c = connect config handler.endpoint.0 handler.endpoint.1 in
      let returned = map_err_of-eq_ok (map_connect_error (accept L)) _ e in
      elim (promise (check_server_key (accept L)) handler c (c ∷ h)) [
        | inl fails ↦ absurd (fails (conn, returned))
        | inr (key, wire, follows, same) ↦ elim (encoded-cases key) [
          | inl bare ↦
              let checked = check-unencodable (accept L) handler key (c ∷ h) bare in
              cc (rw checked at follows)
          | inr (algorithm, blob, shown) ↦
              let (_, _, checked) =
                check_server_key_lem (accept L) digest handler key (c ∷ h) algorithm blob shown in
              (algorithm, blob, wire algorithm blob shown, rw (same, checked) refl)
        ]
      ]

  dial_hop-SeesOne :
      (ka : ℕ) (d : SshSpikeJump) (h : History)
      → OnReturn
          (λ _ h'. SeesOne (d.host, d.port) h h')
          (dial_hop (accept L) handshake ka true true [] d h)
  unfolding dial_hop
  dial_hop-SeesOne ka d h = start-SeesOne (probe_handler true d) (transport_config ka) h

  dial_loop-SeesOne :
      (ka : ℕ) (d : SshSpikeJump) (h : History)
      → OnReturn
          (λ _ h'. SeesOne (d.host, d.port) h h')
          (dial_loop (accept L) handshake ka 0 1 (d ∷ []) [] none h)
  unfolding dial_loop
  dial_loop-SeesOne ka d h =
      let F : List ℕ × Option ℕ → History → Type 0 = λ _ h'. SeesOne (d.host, d.port) h h' in
      let hop = dial_hop (accept L) handshake ka true true [] d h in
      continue-OnReturn F _ hop.0 hop.1 λ conn made.
        let (algorithm, blob, wire, sees) = dial_hop-SeesOne ka d h conn made in
        let sent = authenticate (accept L) conn d.username d.auth hop.1 in
        continue-OnReturn F _ (map_err_of (attribute true d) sent.0) sent.1 λ _ _ c r.
          (algorithm, blob, wire, authenticate-seen (accept L) conn d.username d.auth hop.1 ∙ sees)

  open_session-seen :
      (p : SshSpikeConnectParams) (connections : List ℕ × Option ℕ) (h : History)
      → seen (open_session (accept L) handshake p connections h).1 ≡ seen h
  unfolding open_session
  open_session-seen p (parents, none) h = refl
  open_session-seen p (parents, some handle) h =
      let shell = open_shell (accept L) handle p.cols p.rows h in
      continue-keeps (λ x. seen x ≡ seen h) _ shell.0 shell.1
        (open_shell-seen (accept L) handle p.cols p.rows h)
        λ channel _. open_shell-seen (accept L) handle p.cols p.rows h

  connect_inner-SeesOne :
      (h : History) (s : SshSpikeSession)
      → (connect_inner (accept L) handshake shell_params h).0 ≡ ok s
      → SeesOne (codes "127.0.0.1", 2233) h (connect_inner (accept L) handshake shell_params h).1
  unfolding connect_inner dial_list
  connect_inner-SeesOne h s e =
      let d = target_entry shell_params in
      let h' : History = spawn_dispatch ∷ h in
      let looped = dial_loop (accept L) handshake 15 0 1 (d ∷ []) [] none h' in
      let F : SshSpikeSession → History → Type 0 = λ _ h'. SeesOne (d.host, d.port) h h' in
      continue-OnReturn F (open_session (accept L) handshake shell_params) looped.0 looped.1
        (λ connections made s e.
          let (algorithm, blob, wire, sees) = dial_loop-SeesOne 15 d h' connections made in
          (algorithm, blob, wire, open_session-seen shell_params connections looped.1 ∙ sees))
        s e

  -- For a hash with 32-byte digests and a handshake that keeps its promise, on a history in which no key was
  -- seen, if a key of the server that has an encoding is an Ed25519, an RSA or an ECDSA key or a certificate
  -- of one, encoded as RFC 4253 and OpenSSH say: when the dial returns a session, the test passes. Its
  -- verifier was asked once, for the endpoint that was dialled, and the blob that it was shown is plausible.
  pub verifier_lem :
      (h : History) (s : SshSpikeSession)
      → (connect_inner (accept L) handshake shell_params h).0 ≡ ok s
      → seen h ≡ []
      → (algorithm : Text) × (blob : List ℕ) × (seen
            (connect_inner (accept L) handshake shell_params h).1
          ≡ (codes "127.0.0.1:2233", algorithm, blob) ∷ [])
        × (is_plausible_blob blob ≡ some true)
        × ((host_key_verifier_sees_a_plausible_wire_blob L handshake h).0 ≡ ok tt)
  unfolding host_key_verifier_sees_a_plausible_wire_blob display
  verifier_lem h s e fresh =
      let (algorithm, blob, wire, sees) = connect_inner-SeesOne h s e in
      let h' = (connect_inner (accept L) handshake shell_params h).1 in
      let one : seen h' ≡ (codes "127.0.0.1:2233", algorithm, blob) ∷ [] = rw fresh at sees in
      (
        algorithm,
        blob,
        one,
        IsWireKey-plausible algorithm blob wire,
        rw (e, one) (ap (λ r. r.0) (check_seen_lem algorithm blob h' wire)),
      )
