-- ===== src/Connect/Failures.antt =====
-- What a refused host key does to `connect_inner` of ssh-transport/src/lib.rs.
use rust_core.Base.{ℕ, ◌+◌, ◌≡◌, refl, ◌⊎◌, inl, inr, Bool, true, false, Option, none, some, List}
use rust_core.Base.{[], ◌∷◌, Text, length, last?, ◌==◌, arith, Bool-cases}
use rust_core.KnownHosts.Fingerprint.{IsDigest}
use rust_core.Russh.{Russh, History, Call, verify, connect, connect_stream, spawn_dispatch}
use rust_core.Outcome.{Outcome, ok, err, panic, blocked, M, SshSpikeError, host_key_rejected}
use rust_core.Outcome.{continue, map_err_of}
use rust_core.HostKey.{ProbeHandler}
use rust_core.Connect.{Handshake, SshSpikeAuth, password, private_key, SshSpikeJump, start}
use rust_core.Connect.{jump_from, SshSpikeConnectParams, probe_handler, open_jump, dial_hop}
use rust_core.Connect.{transport_config, authenticate, attribute, dial_loop, dial_list, open_shell}
use rust_core.Connect.{open_session, connect_inner}
use rust_core.Connect.Steps.{ChecksKey, start-Started}

-- The verifier has refused no key so far.
abbrev pub IsAgreed : History → Type 0
IsAgreed [] = Unit {0}
IsAgreed (verify _ _ _ _ false ∷ h) = ⊥
IsAgreed (_ ∷ h) = IsAgreed h

-- The newest call is the first refusal, and the result says so.
abbrev pub IsRejected : {A : Type 0} → Outcome SshSpikeError A × History → Type 0
IsRejected (r, h') =
    (host : Text) × (port : ℕ) × (algorithm : Text) × (blob : List ℕ) × (h : History) × (h'
      ≡ verify host port algorithm blob false ∷ h)
    × IsAgreed h
    × (r ≡ err host_key_rejected)

abbrev pub IsSettled : {A : Type 0} → Outcome SshSpikeError A × History → Type 0
IsSettled (r, h) = IsAgreed h ⊎ IsRejected (r, h)

-- A chain stops at a refusal.
continue-IsSettled :
    {A B : Type 0} (f : A → M SshSpikeError B) (r : Outcome SshSpikeError A) (h : History)
    → IsSettled (r, h)
    → ((a : A) → IsAgreed h → IsSettled (f a h))
    → IsSettled (continue f r h)
continue-IsSettled f (ok a) h (inl agreed) k = k a agreed
continue-IsSettled f (ok a) h (inr (host, port, alg, blob, before, e, agreed, x)) k = cc
continue-IsSettled f (err e) h (inl agreed) k = inl agreed
continue-IsSettled f (err e) h (inr (host, port, alg, blob, before, same, agreed, x)) k =
    inr (host, port, alg, blob, before, same, agreed, cc)
continue-IsSettled f panic h (inl agreed) k = inl agreed
continue-IsSettled f panic h (inr (host, port, alg, blob, before, same, agreed, x)) k = cc
continue-IsSettled f blocked h (inl agreed) k = inl agreed
continue-IsSettled f blocked h (inr (host, port, alg, blob, before, same, agreed, x)) k = cc

module _ (L : Russh) where
  authenticate-IsAgreed :
      (handle : ℕ) (user : Text) (auth : SshSpikeAuth) (h : History)
      → IsAgreed h
      → IsAgreed (authenticate L handle user auth h).1
  unfolding authenticate
  authenticate-IsAgreed handle user (password secret) h agreed = ground arith
  authenticate-IsAgreed handle user (private_key pem passphrase) h agreed = ground arith

  open_shell-IsAgreed :
      (handle cols rows : ℕ) (h : History)
      → IsAgreed h
      → IsAgreed (open_shell L handle cols rows h).1
  unfolding open_shell
  open_shell-IsAgreed handle cols rows h agreed = ground arith

  jump_from-IsAgreed :
      (o : Option ℕ) (d : SshSpikeJump) (h : History) → IsAgreed h → IsAgreed (jump_from L o d h).1
  unfolding jump_from
  jump_from-IsAgreed none d h agreed = agreed
  jump_from-IsAgreed (some parent) d h agreed = agreed

module _ (L : Russh) (digest : IsDigest L.sha256) (handshake : Handshake)
    (promise : ChecksKey handshake) where
  start-IsSettled :
      (handler : ProbeHandler) (c : Call) (h : History)
      → IsAgreed (c ∷ h)
      → IsSettled (start L handshake handler c h)
  start-IsSettled handler c h agreed =
      elim (start-Started L digest handshake promise handler c h).1 [
        | inl (_, same) ↦ inl (rw same agreed)
        | inr (algorithm, blob, answer, same, _, refused) ↦ elim (Bool-cases answer) [
          | inl accepted ↦ inl (rw (same, accepted) agreed)
          | inr rejected ↦ inr (
            handler.endpoint.0,
            handler.endpoint.1,
            algorithm,
            blob,
            c ∷ h,
            rw (same, rejected) refl,
            agreed,
            refused.1 rejected,
          )
        ]
      ]

  dial_hop-IsSettled :
      (ka : ℕ) (is_first is_target : Bool) (parents : List ℕ) (d : SshSpikeJump) (h : History)
      → IsAgreed h
      → IsSettled (dial_hop L handshake ka is_first is_target parents d h)
  unfolding dial_hop open_jump
  dial_hop-IsSettled ka true is_target parents d h agreed =
      start-IsSettled (probe_handler is_target d) (connect (transport_config ka) d.host d.port) h
        agreed
  dial_hop-IsSettled ka false is_target parents d h agreed =
      let jump = jump_from L (last? parents) d h in
      let agreed' = jump_from-IsAgreed L (last? parents) d h agreed in
      continue-IsSettled _ jump.0 jump.1 (inl agreed') λ channel _.
        start-IsSettled (probe_handler is_target d) (connect_stream (transport_config ka) channel)
          jump.1 agreed'

  dial_loop-IsSettled :
      (ka i n : ℕ) (rest : List SshSpikeJump) (parents : List ℕ) (target : Option ℕ) (h : History)
      → IsAgreed h
      → IsSettled (dial_loop L handshake ka i n rest parents target h)
  unfolding dial_loop
  dial_loop-IsSettled ka i n [] parents target h agreed = inl agreed
  dial_loop-IsSettled ka i n (d ∷ rest) parents target h agreed =
      let hop = dial_hop L handshake ka (i == 0) (i + 1 == n) parents d h in
      continue-IsSettled _ hop.0 hop.1
        (dial_hop-IsSettled ka (i == 0) (i + 1 == n) parents d h agreed)
        λ conn met.
          let sent = authenticate L conn d.username d.auth hop.1 in
          let met' = authenticate-IsAgreed L conn d.username d.auth hop.1 met in
          continue-IsSettled _ (map_err_of (attribute (i + 1 == n) d) sent.0) sent.1 (inl met')
            λ _ _. dial_loop-IsSettled ka (i + 1) n rest _ _ sent.1 met'

  open_session-IsAgreed :
      (p : SshSpikeConnectParams) (connections : List ℕ × Option ℕ) (h : History)
      → IsAgreed h
      → IsSettled (open_session L handshake p connections h)
  unfolding open_session
  open_session-IsAgreed p (parents, none) h agreed = inl agreed
  open_session-IsAgreed p (parents, some handle) h agreed =
      let shell = open_shell L handle p.cols p.rows h in
      let agreed' = open_shell-IsAgreed L handle p.cols p.rows h agreed in
      continue-IsSettled _ shell.0 shell.1 (inl agreed') λ _ _. inl agreed'

  -- For a hash with 32-byte digests, a handshake that keeps its promise and a history without a
  -- refusal: if the verifier refuses a key of any hop, the dial makes no further call and returns
  -- `HostKeyRejected`.
  pub connect_inner-IsSettled :
      (p : SshSpikeConnectParams) (h : History)
      → IsAgreed h
      → IsSettled (connect_inner L handshake p h)
  unfolding connect_inner
  connect_inner-IsSettled p h agreed =
      let hops = dial_list p in
      let started : History = spawn_dispatch ∷ h in
      let looped =
        dial_loop L handshake p.keep_alive_seconds 0 (length hops) hops [] none started in
      continue-IsSettled _ looped.0 looped.1
        (dial_loop-IsSettled p.keep_alive_seconds 0 (length hops) hops [] none started agreed)
        λ connections agreed'. open_session-IsAgreed p connections looped.1 agreed'
