-- ===== src/Connect/Panics.antt =====
-- The two `expect`s of `connect_inner` in ssh-transport/src/lib.rs, and the panics of its key check.
use rust_core.Base.{ℕ, suc, ◌+◌, ◌<◌, ◌≡◌, ◌≢◌, refl, Bool, true, false, Option, none, some, List}
use rust_core.Base.{[], ◌∷◌, ◌++◌, Text, length, last?, if◌then◌else◌, ◌==◌, arith, length-append}
use rust_core.KnownHosts.Fingerprint.{IsDigest}
use rust_core.Russh.{Russh, History, connect, connect_stream, spawn_dispatch}
use rust_core.Outcome.{panic, map_err_of, OnReturn, continue-ne_panic, continue-OnReturn}
use rust_core.Outcome.{from_reply-ne_panic, map_err_of-ne_panic}
use rust_core.Connect.{Handshake, SshSpikeAuth, password, private_key, SshSpikeJump, probe_handler}
use rust_core.Connect.{SshSpikeConnectParams, jump_from, open_jump, dial_hop, transport_config}
use rust_core.Connect.{authenticate, attribute, dial_loop, dial_list, open_shell, open_session}
use rust_core.Connect.{target_entry, connect_inner}
use rust_core.Connect.Steps.{ChecksKey, start-Started}

last?-some : (xs : List ℕ) → 0 < length xs → last? xs ≢ none
last?-some [] h e = absurd (omega arith)
last?-some (x ∷ []) h e = cc
last?-some (x ∷ y ∷ xs) h e = last?-some (y ∷ xs) (omega arith) e

-- While entries are left, there is a connection for each entry before them.
abbrev Ready : List SshSpikeJump → ℕ → List ℕ → Type 0
Ready [] i parents = Unit {0}
Ready (d ∷ rest) i parents = i ≡ length parents

module _ (L : Russh) where
  jump_from-ne_panic :
      (o : Option ℕ) (d : SshSpikeJump) (h : History) → o ≢ none → (jump_from L o d h).0 ≢ panic
  unfolding jump_from
  jump_from-ne_panic none d h n = absurd (n refl)
  jump_from-ne_panic (some parent) d h n = from_reply-ne_panic _ _

  authenticate-ne_panic :
      (handle : ℕ) (user : Text) (auth : SshSpikeAuth) (h : History)
      → (authenticate L handle user auth h).0 ≢ panic
  unfolding authenticate
  authenticate-ne_panic handle user (password secret) h = ground arith
  authenticate-ne_panic handle user (private_key pem passphrase) h = ground arith

  open_shell-ne_panic :
      (handle cols rows : ℕ) (h : History) → (open_shell L handle cols rows h).0 ≢ panic
  unfolding open_shell
  open_shell-ne_panic handle cols rows h = ground arith

-- The next entry finds the connections that it needs, whether or not this one is the target.
next-Ready :
    (i conn : ℕ) (rest : List SshSpikeJump) (parents : List ℕ)
    → i ≡ length parents
    → Ready rest
        (i + 1)
        (if i + 1 == i + suc (length rest) then parents else parents ++ (conn ∷ []))
next-Ready i conn [] parents e = tt
next-Ready i conn (d ∷ rest) parents e = ground (arith, length-append parents (conn ∷ []))

module _ (L : Russh) (digest : IsDigest L.sha256) (handshake : Handshake)
    (promise : ChecksKey handshake) where
  dial_hop-ne_panic :
      (ka : ℕ) (is_first is_target : Bool) (parents : List ℕ) (d : SshSpikeJump) (h : History)
      → (is_first ≡ false → 0 < length parents)
      → (dial_hop L handshake ka is_first is_target parents d h).0 ≢ panic
  unfolding dial_hop open_jump
  dial_hop-ne_panic ka true is_target parents d h e =
      (start-Started L digest handshake promise (probe_handler is_target d)
        (connect (transport_config ka) d.host d.port) h).0
  dial_hop-ne_panic ka false is_target parents d h e =
      let jump = jump_from L (last? parents) d h in
      continue-ne_panic _ jump.0 jump.1
        (jump_from-ne_panic L (last? parents) d h (last?-some parents (e refl)))
        λ channel _.
          (start-Started L digest handshake promise (probe_handler is_target d)
            (connect_stream (transport_config ka) channel) jump.1).0

  dial_loop-ne_panic :
      (ka i n : ℕ) (rest : List SshSpikeJump) (parents : List ℕ) (target : Option ℕ) (h : History)
      → i + length rest ≡ n
      → Ready rest i parents
      → (dial_loop L handshake ka i n rest parents target h).0 ≢ panic
  unfolding dial_loop
  dial_loop-ne_panic ka i n [] parents target h e ready = λ x. cc
  dial_loop-ne_panic ka i n (d ∷ rest) parents target h e ready =
      let hop = dial_hop L handshake ka (i == 0) (i + 1 == n) parents d h in
      continue-ne_panic _ hop.0 hop.1
        (dial_hop-ne_panic ka (i == 0) (i + 1 == n) parents d h (λ later. ground arith))
        λ conn made.
          let sent = authenticate L conn d.username d.auth hop.1 in
          continue-ne_panic _ (map_err_of (attribute (i + 1 == n) d) sent.0) sent.1
            (map_err_of-ne_panic _ sent.0 (authenticate-ne_panic L conn d.username d.auth hop.1))
            λ _ _.
              dial_loop-ne_panic ka (i + 1) n rest _ _ sent.1 (omega arith)
                (rw (← e) (next-Ready i conn rest parents ready))

  -- The loop ends with the target's connection.
  dial_loop-target :
      (ka i n : ℕ) (d : SshSpikeJump) (rest : List SshSpikeJump) (parents : List ℕ)
      (target : Option ℕ) (h : History)
      → i + suc (length rest) ≡ n
      → OnReturn (λ c _. c.1 ≢ none) (dial_loop L handshake ka i n (d ∷ rest) parents target h)
  unfolding dial_loop
  dial_loop-target ka i n d [] parents target h e =
      let hop = dial_hop L handshake ka (i == 0) (i + 1 == n) parents d h in
      continue-OnReturn (λ c _. c.1 ≢ none) _ hop.0 hop.1
        λ conn _.
          let sent = authenticate L conn d.username d.auth hop.1 in
          continue-OnReturn (λ c _. c.1 ≢ none) _ (map_err_of (attribute (i + 1 == n) d) sent.0)
            sent.1 λ _ _ c r. ground arith
  dial_loop-target ka i n d (d' ∷ rest) parents target h e =
      let hop = dial_hop L handshake ka (i == 0) (i + 1 == n) parents d h in
      continue-OnReturn (λ c _. c.1 ≢ none) _ hop.0 hop.1
        λ conn _.
          let sent = authenticate L conn d.username d.auth hop.1 in
          continue-OnReturn (λ c _. c.1 ≢ none) _ (map_err_of (attribute (i + 1 == n) d) sent.0)
            sent.1 λ _ _. dial_loop-target ka (i + 1) n d' rest _ _ sent.1 (omega arith)

  open_session-ne_panic :
      (p : SshSpikeConnectParams) (connections : List ℕ × Option ℕ) (h : History)
      → connections.1 ≢ none
      → (open_session L handshake p connections h).0 ≢ panic
  unfolding open_session
  open_session-ne_panic p (parents, none) h n = absurd (n refl)
  open_session-ne_panic p (parents, some handle) h n =
      let shell = open_shell L handle p.cols p.rows h in
      continue-ne_panic _ shell.0 shell.1 (open_shell-ne_panic L handle p.cols p.rows h) λ _ _ x. cc

  -- The loop over any list of hops with the target behind them.
  dials-target :
      (ka : ℕ) (via : List SshSpikeJump) (d : SshSpikeJump) (h : History)
      → let hops = via ++ (d ∷ []) in
        ((dial_loop L handshake ka 0 (length hops) hops [] none h).0 ≢ panic)
        × OnReturn (λ c _. c.1 ≢ none) (dial_loop L handshake ka 0 (length hops) hops [] none h)
  dials-target ka [] d h = (
    dial_loop-ne_panic ka 0 1 (d ∷ []) [] none h (omega arith) refl,
    dial_loop-target ka 0 1 d [] [] none h (omega arith),
  )
  dials-target ka (v ∷ via) d h =
      let rest = via ++ (d ∷ []) in
      (
        dial_loop-ne_panic ka 0 (suc (length rest)) (v ∷ rest) [] none h (omega arith) refl,
        dial_loop-target ka 0 (suc (length rest)) v rest [] none h (omega arith),
      )

  -- For a hash with 32-byte digests and a handshake that keeps its promise, dialling never panics:
  -- neither `expect` fails, and nothing else in it does.
  pub connect_inner-ne_panic :
      (p : SshSpikeConnectParams) (h : History) → (connect_inner L handshake p h).0 ≢ panic
  unfolding connect_inner dial_list
  connect_inner-ne_panic p h =
      let hops = dial_list p in
      let h' : History = spawn_dispatch ∷ h in
      let looped = dial_loop L handshake p.keep_alive_seconds 0 (length hops) hops [] none h' in
      let (sound, ends) = dials-target p.keep_alive_seconds p.via (target_entry p) h' in
      continue-ne_panic _ looped.0 looped.1 sound
        λ connections made. open_session-ne_panic p connections looped.1 (ends connections made)
