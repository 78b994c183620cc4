-- ===== src/Connect/Trace/Follows.antt =====
-- That a dial of ssh-transport/src/lib.rs makes the calls of `Connect.Trace`.
use rust_core.Base.{ℕ, zero, suc, ◌+◌, ◌≡◌, ◌≢◌, ◌⊎◌, refl, inl, inr, Bool, true, false, Option}
use rust_core.Base.{none, some, List, [], ◌∷◌, Text, codes, last?, length, ◌==◌, arith}
use rust_core.KnownHosts.Fingerprint.{IsDigest}
use rust_core.Russh.{Russh, RusshError, Call, History, Reply, done, failed, hangs, connect}
use rust_core.Russh.{connect_stream, channel_open_direct_tcpip, authenticate_password}
use rust_core.Russh.{authenticate_publickey}
use rust_core.Outcome.{SshSpikeError, Outcome, ok, err, OnReturn, continue, continue-OnReturn}
use rust_core.Outcome.{map_err_of-eq_ok, from_reply, from_reply-eq_ok}
use rust_core.Connect.{Handshake, SshSpikeAuth, password, private_key, SshSpikeJump, localhost}
use rust_core.Connect.{start, jump_from, open_jump, dial_hop, transport_config, authenticate}
use rust_core.Connect.{map_connect_error, succeeded}
use rust_core.Connect.Steps.{ChecksKey, start-Started}
use rust_core.Connect.Trace.{KeepsAlive, is_last, handler_of, Sends, Connected, Reached, Refuses}

transport_config-KeepsAlive : (ka : ℕ) → KeepsAlive ka (transport_config ka)
unfolding transport_config
transport_config-KeepsAlive zero = (inl (refl, refl), refl)
transport_config-KeepsAlive (suc ka) = (inr (λ e. cc, ground arith), refl)

module _ (L : Russh) where
  -- What the reply to a credential comes to.
  answer_lem :
      (message : Text) (r : Reply RusshError Bool) (h : History)
      → let (o, h') =
          continue
            (succeeded L message)
            (from_reply (λ e. SshSpikeError.auth (L.error_text e)) r)
            h in
        (h' ≡ h)
        × ((u : Unit {0}) → o ≡ ok u → r ≡ done true)
        × ((reason : SshSpikeError)
            → o ≡ err reason
            → ((r ≡ done false) × (reason ≡ SshSpikeError.auth message))
              ⊎ ((e : RusshError) × (r ≡ failed e)
                  × (reason ≡ SshSpikeError.auth (L.error_text e))))
  answer_lem message (done true) h = (refl, λ u e. refl, λ x e. cc)
  answer_lem message (done false) h = (refl, λ u e. cc, λ x e. inl (refl, cc))
  answer_lem message (failed y) h = (refl, λ u e. cc, λ x e. inr (y, refl, cc))
  answer_lem message hangs h = (refl, λ u e. cc, λ x e. cc)

  -- A credential: accepted, or the reason why not.
  abbrev pub Tried :
      ℕ → Text → SshSpikeAuth → History → Outcome SshSpikeError (Unit {0}) × History → Type 0
  Tried conn user auth h (o, h') =
      ((u : Unit {0})
        → o ≡ ok u
        → (call : Call) × Sends L conn user auth call
          × (L.authenticates h call ≡ done true)
          × (h' ≡ call ∷ h))
      × ((reason : SshSpikeError) → o ≡ err reason → Refuses L conn user auth h reason h')

  pub authenticate-Tried :
      (conn : ℕ) (user : Text) (auth : SshSpikeAuth) (h : History)
      → Tried conn user auth h (authenticate L conn user auth h)
  unfolding authenticate
  authenticate-Tried conn user (password secret) h =
      let call = authenticate_password conn user secret in
      let (same, accepted, refused) =
        answer_lem (codes "password rejected") (L.authenticates h call) (call ∷ h) in
      (λ u e. (call, refl, accepted u e, same), λ reason e. (same, refused reason e))
  authenticate-Tried conn user (private_key pem passphrase) h =
      go (L.decode_secret_key pem passphrase) refl
    where
      go :
          (decoded : Reply Text ℕ)
          → L.decode_secret_key pem passphrase ≡ decoded
          → Tried conn user
              (private_key pem passphrase)
              h
              (authenticate L conn user (private_key pem passphrase) h)
      go (done key) same_key =
          let call = authenticate_publickey conn user key in
          let (same, accepted, refused) =
            answer_lem (codes "key rejected") (L.authenticates h call) (call ∷ h) in
          rw same_key (
            λ u e. (call, (key, refl, refl), accepted u e, same),
            λ reason e. inl (key, refl, (same, refused reason e)),
          )
      go (failed x) unreadable = rw unreadable (λ u e. cc, λ reason e. inr (x, refl, cc, refl))
      go hangs stuck = rw stuck (λ u e. cc, λ reason e. cc)

abbrev pub is_nil : List ℕ → Bool
is_nil [] = true
is_nil (x ∷ xs) = false

last?-cons : (x : ℕ) (xs : List ℕ) → last? (x ∷ xs) ≢ none
last?-cons x [] e = cc
last?-cons x (y ∷ ys) e = last?-cons y ys e

pub is_last-count :
    (i n : ℕ) (rest : List SshSpikeJump) → i + suc (length rest) ≡ n → (i + 1 == n) ≡ is_last rest
is_last-count i n [] e = ground arith
is_last-count i n (d ∷ rest) e = ground arith

pub is_nil-count : (i : ℕ) (parents : List ℕ) → length parents ≡ i → (i == 0) ≡ is_nil parents
is_nil-count i [] e = ground arith
is_nil-count i (x ∷ xs) e = ground arith

module _ (L : Russh) (digest : IsDigest L.sha256) (handshake : Handshake)
    (promise : ChecksKey handshake) where
  start-Connected :
      (ka : ℕ) (d : SshSpikeJump) (rest : List SshSpikeJump) (c : Call) (h : History)
      → OnReturn
          (λ conn h'. Connected L handshake ka d rest c h conn h')
          (start L handshake (handler_of d rest) c h)
  start-Connected ka d rest c h conn e =
      elim (start-Started L digest handshake promise (handler_of d rest) c h).1 [
        | inl (fails, same) ↦ absurd (fails (conn, e))
        | inr (a, b, answer, same, agreed, _) ↦
            (map_err_of-eq_ok (map_connect_error L) _ e, (a, b, rw (same, agreed (conn, e)) refl))
      ]

  later_hop-Reached :
      (ka : ℕ) (o : Option ℕ) (d : SshSpikeJump) (rest : List SshSpikeJump) (h : History)
      → o ≢ none
      → let jump = jump_from L o d h in
        OnReturn
          (λ conn h'. Reached L handshake ka o d rest h conn h')
          (continue
            (λ channel.
              start L handshake (handler_of d rest) (connect_stream (transport_config ka) channel))
            jump.0
            jump.1)
  unfolding jump_from
  later_hop-Reached ka none d rest h there = absurd (there refl)
  later_hop-Reached ka (some parent) d rest h there =
      let jump = jump_from L (some parent) d h in
      continue-OnReturn (λ conn h'. Reached L handshake ka (some parent) d rest h conn h') _ jump.0
        jump.1
        λ channel opened conn e. (
          transport_config ka,
          channel,
          transport_config-KeepsAlive ka,
          from_reply-eq_ok _ _ opened,
          start-Connected ka d rest (connect_stream (transport_config ka) channel)
              (channel_open_direct_tcpip parent d.host d.port localhost 0 ∷ h) conn e,
        )

  pub dial_hop-Reached :
      (ka : ℕ) (parents : List ℕ) (d : SshSpikeJump) (rest : List SshSpikeJump) (h : History)
      → OnReturn
          (λ conn h'. Reached L handshake ka (last? parents) d rest h conn h')
          (dial_hop L handshake ka (is_nil parents) (is_last rest) parents d h)
  unfolding dial_hop open_jump
  dial_hop-Reached ka [] d rest h conn e = (
    transport_config ka,
    transport_config-KeepsAlive ka,
    start-Connected ka d rest (connect (transport_config ka) d.host d.port) h conn e,
  )
  dial_hop-Reached ka (x ∷ xs) d rest h conn e =
      later_hop-Reached ka (last? (x ∷ xs)) d rest h (last?-cons x xs) conn e
