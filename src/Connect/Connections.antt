-- ===== src/Connect/Connections.antt =====
-- The connections that `connect_inner` of ssh-transport/src/lib.rs puts into its session.
use rust_core.Base.{ℕ, suc, ◌+◌, ◌≡◌, refl, sym, ap, ◌∙◌, inl, inr, Bool, true, false, Option}
use rust_core.Base.{none, some, List, [], ◌∷◌, ◌++◌, Text, length, last?, if◌then◌else◌, ◌==◌}
use rust_core.Base.{arith, reverse, append_assoc, append-nil, reverse-onto}
use rust_core.KnownHosts.Fingerprint.{IsDigest}
use rust_core.Russh.{Russh, History, Call, connect, connect_stream, spawn_dispatch}
use rust_core.Russh.{authenticate_password, authenticate_publickey}
use rust_core.Outcome.{Outcome, ok, SshSpikeError, map_err_of, map_err_of-eq_ok, OnReturn}
use rust_core.Outcome.{continue-OnReturn}
use rust_core.HostKey.{ProbeHandler}
use rust_core.Connect.{Handshake, SshSpikeAuth, password, private_key, SshSpikeJump}
use rust_core.Connect.{SshSpikeSession, SshSpikeConnectParams, start, probe_handler, jump_from}
use rust_core.Connect.{open_jump, dial_hop, transport_config, authenticate, attribute, dial_loop}
use rust_core.Connect.{dial_list, open_shell, target_entry, open_session, connect_inner}
use rust_core.Connect.Steps.{ChecksKey, start-Started}

-- The connections that a credential was sent to, the newest first.
abbrev pub authenticated : History → List ℕ
authenticated [] = []
authenticated (authenticate_password handle _ _ ∷ h) = handle ∷ authenticated h
authenticated (authenticate_publickey handle _ _ ∷ h) = handle ∷ authenticated h
authenticated (_ ∷ h) = authenticated h

abbrev IsQuiet : History → History → Type 0
IsQuiet h h' = authenticated h' ≡ authenticated h

module _ (L : Russh) where
  jump_from-IsQuiet :
      (o : Option ℕ) (d : SshSpikeJump) (h : History) → IsQuiet h (jump_from L o d h).1
  unfolding jump_from
  jump_from-IsQuiet none d h = refl
  jump_from-IsQuiet (some parent) d h = refl

  open_shell-IsQuiet :
      (handle cols rows : ℕ) (h : History) → IsQuiet h (open_shell L handle cols rows h).1
  unfolding open_shell
  open_shell-IsQuiet handle cols rows h = ground arith

  -- One credential goes to the connection, if a key can be read at all.
  authenticate-sends :
      (handle : ℕ) (user : Text) (auth : SshSpikeAuth) (h : History)
      → OnReturn
          (λ _ h'. authenticated h' ≡ handle ∷ authenticated h)
          (authenticate L handle user auth h)
  unfolding authenticate
  authenticate-sends handle user (password secret) h = λ _ e. ground arith
  authenticate-sends handle user (private_key pem passphrase) h = λ _ e. ground arith

-- The loop has made a connection for the target and one for each hop before it.
abbrev Connects : List ℕ → History → List ℕ × Option ℕ → History → Type 0
Connects parents h (ps, target) h' =
    (handle : ℕ) × (made : List ℕ) × (target ≡ some handle)
    × (ps ≡ parents ++ made)
    × (authenticated h' ≡ handle ∷ (reverse made ++ authenticated h))

last_connection :
    (is_target : Bool) (conn : ℕ) (parents : List ℕ) (target : Option ℕ) (h h' : History)
    (c : List ℕ × Option ℕ)
    → is_target ≡ true
    → (
      if is_target then parents else parents ++ (conn ∷ []),
      if is_target then some conn else target,
    )
      ≡ c
    → authenticated h' ≡ conn ∷ authenticated h
    → Connects parents h c h'
last_connection is_target conn parents target h h' (ps, t) last same sent =
    (conn, [], ground arith, rw append-nil (ground arith), sent)

next_connection :
    (is_target : Bool) (conn : ℕ) (parents : List ℕ) (h h' h'' : History) (c : List ℕ × Option ℕ)
    → is_target ≡ false
    → authenticated h' ≡ conn ∷ authenticated h
    → Connects (if is_target then parents else parents ++ (conn ∷ [])) h' c h''
    → Connects parents h c h''
next_connection true conn parents h h' h'' c e sent next = cc
next_connection false conn parents h h' h'' (ps, t) e sent (handle, made, same, all, later) = (
  handle,
  conn ∷ made,
  same,
  all ∙ append_assoc parents (conn ∷ []) made,
  later
      ∙ ap (λ t. handle ∷ t)
          (ap (λ t. reverse made ++ t) sent ∙ sym (reverse-onto conn made (authenticated h))),
)

ok_injective :
    {A : Type 0} {a b : A} → (let made : Outcome SshSpikeError A = ok a in made ≡ ok b) → a ≡ b
ok_injective e = cc

module _ (L : Russh) (digest : IsDigest L.sha256) (handshake : Handshake)
    (promise : ChecksKey handshake) where
  start-IsQuiet :
      (handler : ProbeHandler) (c : Call) (h : History)
      → IsQuiet h (c ∷ h)
      → IsQuiet h (start L handshake handler c h).1
  start-IsQuiet handler c h quiet = elim (start-Started L digest handshake promise handler c h).1 [
    | inl (_, same) ↦ rw same quiet
    | inr (_, _, _, same, _, _) ↦ rw same quiet
  ]

  dial_hop-IsQuiet :
      (ka : ℕ) (is_first is_target : Bool) (parents : List ℕ) (d : SshSpikeJump) (h : History)
      → OnReturn (λ _ h'. IsQuiet h h') (dial_hop L handshake ka is_first is_target parents d h)
  unfolding dial_hop open_jump
  dial_hop-IsQuiet ka true is_target parents d h = λ _ _.
      start-IsQuiet (probe_handler is_target d) (connect (transport_config ka) d.host d.port) h refl
  dial_hop-IsQuiet ka false is_target parents d h =
      let jump = jump_from L (last? parents) d h in
      continue-OnReturn (λ _ h'. IsQuiet h h') _ jump.0 jump.1
        λ channel _ _ _.
          start-IsQuiet (probe_handler is_target d) (connect_stream (transport_config ka) channel)
            jump.1 refl
          ∙ jump_from-IsQuiet L (last? parents) d h

  -- One round: a connection, and one credential for it.
  round-sends :
      (ka i n : ℕ) (d : SshSpikeJump) (parents : List ℕ) (h : History) (conn : ℕ)
      → let hop = dial_hop L handshake ka (i == 0) (i + 1 == n) parents d h in
        let sent = authenticate L conn d.username d.auth hop.1 in
        hop.0 ≡ ok conn
        → map_err_of (attribute (i + 1 == n) d) sent.0 ≡ ok tt
        → authenticated sent.1 ≡ conn ∷ authenticated h
  round-sends ka i n d parents h conn made agreed =
      let hop = dial_hop L handshake ka (i == 0) (i + 1 == n) parents d h in
      let sent = authenticate L conn d.username d.auth hop.1 in
      authenticate-sends L conn d.username d.auth hop.1 tt
        (map_err_of-eq_ok (attribute (i + 1 == n) d) sent.0 agreed)
      ∙ ap (λ t. conn ∷ t) (dial_hop-IsQuiet ka (i == 0) (i + 1 == n) parents d h conn made)

  dial_loop-Connects :
      (ka i n : ℕ) (d : SshSpikeJump) (rest : List SshSpikeJump) (parents : List ℕ)
      (target : Option ℕ) (h : History)
      → i + suc (length rest) ≡ n
      → OnReturn (Connects parents h) (dial_loop L handshake ka i n (d ∷ rest) parents target h)
  unfolding dial_loop
  dial_loop-Connects ka i n d [] parents target h e =
      let hop = dial_hop L handshake ka (i == 0) (i + 1 == n) parents d h in
      continue-OnReturn (Connects parents h) _ hop.0 hop.1 λ conn made.
        let sent = authenticate L conn d.username d.auth hop.1 in
        continue-OnReturn (Connects parents h) _ (map_err_of (attribute (i + 1 == n) d) sent.0)
          sent.1
          λ _ agreed c r.
            let last : (i + 1 == n) ≡ true = ground arith in
            last_connection (i + 1 == n) conn parents target h sent.1 c last (ok_injective r)
              (round-sends ka i n d parents h conn made agreed)
  dial_loop-Connects ka i n d (d' ∷ rest) parents target h e =
      let hop = dial_hop L handshake ka (i == 0) (i + 1 == n) parents d h in
      continue-OnReturn (Connects parents h) _ hop.0 hop.1 λ conn made.
        let sent = authenticate L conn d.username d.auth hop.1 in
        continue-OnReturn (Connects parents h) _ (map_err_of (attribute (i + 1 == n) d) sent.0)
          sent.1
          λ _ agreed c r.
            let last : (i + 1 == n) ≡ false = ground arith in
            let ps = if i + 1 == n then parents else parents ++ (conn ∷ []) in
            let t = if i + 1 == n then some conn else target in
            next_connection (i + 1 == n) conn parents h sent.1
              (dial_loop L handshake ka (i + 1) n (d' ∷ rest) ps t sent.1).1 c last
              (round-sends ka i n d parents h conn made agreed)
              (dial_loop-Connects ka (i + 1) n d' rest ps t sent.1 (omega arith) c r)

  -- The loop over any hops with the target behind them.
  dials-Connects :
      (ka : ℕ) (via : List SshSpikeJump) (d : SshSpikeJump) (h : History)
      → let hops = via ++ (d ∷ []) in
        OnReturn (Connects [] h) (dial_loop L handshake ka 0 (length hops) hops [] none h)
  dials-Connects ka [] d h = dial_loop-Connects ka 0 1 d [] [] none h (omega arith)
  dials-Connects ka (v ∷ via) d h =
      let rest = via ++ (d ∷ []) in
      dial_loop-Connects ka 0 (suc (length rest)) v rest [] none h (omega arith)

  open_session-keeps :
      (p : SshSpikeConnectParams) (parents : List ℕ) (target : Option ℕ) (handle : ℕ) (h : History)
      → target ≡ some handle
      → OnReturn
          (λ s h'. (s.handle ≡ some handle) × (s.parents ≡ parents) × IsQuiet h h')
          (open_session L handshake p (parents, target) h)
  unfolding open_session
  open_session-keeps p parents none handle h e = λ s r. cc
  open_session-keeps p parents (some conn) handle h same =
      let shell = open_shell L conn p.cols p.rows h in
      continue-OnReturn
        (λ (s : SshSpikeSession) h'.
          (s.handle ≡ some handle) × (s.parents ≡ parents) × IsQuiet h h')
        _ shell.0 shell.1
        λ channel _ s e. (ground arith, ground arith, open_shell-IsQuiet L conn p.cols p.rows h)

  -- For a hash with 32-byte digests and a handshake that keeps its promise, the connections of a
  -- session that was returned are those that the dial has sent a credential to, one for each: the
  -- target's, which was the last, and before it the hops', in the order of the session's list.
  pub connect_inner-Connects :
      (p : SshSpikeConnectParams) (h : History) (s : SshSpikeSession)
      → (connect_inner L handshake p h).0 ≡ ok s
      → (handle : ℕ) × (s.handle ≡ some handle)
        × (authenticated (connect_inner L handshake p h).1
            ≡ handle ∷ (reverse s.parents ++ authenticated h))
  unfolding connect_inner dial_list
  connect_inner-Connects p h s e =
      let hops = dial_list p in
      let started : History = spawn_dispatch ∷ h in
      let looped =
        dial_loop L handshake p.keep_alive_seconds 0 (length hops) hops [] none started in
      let F : SshSpikeSession → History → Type 0 = λ s h'.
        (handle : ℕ) × (s.handle ≡ some handle)
        × (authenticated h' ≡ handle ∷ (reverse s.parents ++ authenticated h)) in
      continue-OnReturn F (open_session L handshake p) looped.0 looped.1
        (λ (ps, t) made s e.
          let (handle, ms, same, all, sent) =
            dials-Connects p.keep_alive_seconds p.via (target_entry p) started (ps, t) made in
          let (kept, hops_kept, quiet) = open_session-keeps p ps t handle looped.1 same s e in
          (
            handle,
            kept,
            quiet
                ∙ sent
                ∙ ap (λ t. handle ∷ (reverse t ++ authenticated h)) (sym (hops_kept ∙ all)),
          ))
        s e
