-- ===== src/Connect/Trace/Dialled.antt =====
-- All calls of a dial of ssh-transport/src/lib.rs that succeeds, or that fails to authenticate.
use rust_core.Base.{ℕ, suc, ◌+◌, ◌≡◌, ◌≢◌, ◌⊎◌, refl, sym, inl, inr, Bool, true, false, Option}
use rust_core.Base.{none, some, List, [], ◌∷◌, ◌++◌, Text, codes, last?, length, if◌then◌else◌}
use rust_core.Base.{◌==◌, arith, length-append}
use rust_core.KnownHosts.Fingerprint.{IsDigest}
use rust_core.Russh.{Russh, History, done, channel_open_session, request_pty, request_shell}
use rust_core.Russh.{spawn_dispatch, spawn_pump}
use rust_core.Outcome.{SshSpikeError, Outcome, ok, err, OnReturn, continue-OnReturn, map_err_of}
use rust_core.Outcome.{map_err_of-eq_ok, map_err_of-eq_err, to_string, from_reply}
use rust_core.Outcome.{from_reply-eq_ok}
use rust_core.Connect.{Handshake, SshSpikeJump, SshSpikeSession, SshSpikeConnectParams, dial_hop}
use rust_core.Connect.{authenticate, attribute, address, dial_loop, dial_list, open_shell}
use rust_core.Connect.{open_session, connect_inner, target_entry, channel_error}
use rust_core.Connect.Steps.{ChecksKey}
use rust_core.Connect.Attribution.{OnAuth, continue-OnAuth, dial_hop-HasNoAuth, auth_injective}
use rust_core.Connect.Attribution.{open_session-HasNoAuth}
use rust_core.Connect.Trace.{is_last, Reached, Passes, begins, one_more, IsRefused}
use rust_core.Connect.Trace.Follows.{is_last-count, is_nil-count, dial_hop-Reached}
use rust_core.Connect.Trace.Follows.{authenticate-Tried}

module _ (L : Russh) (digest : IsDigest L.sha256) (handshake : Handshake)
    (promise : ChecksKey handshake) (ka : ℕ) (entries : List SshSpikeJump) (begin : History) where
  -- All entries have passed: the hops' connections, and the target's.
  abbrev AllPass : List ℕ × Option ℕ → History → Type 0
  AllPass (parents, target) h =
      (conn : ℕ) × (target ≡ some conn)
      × Passes L handshake ka entries begin [] (parents ++ (conn ∷ [])) h

  counted_hop-Reached :
      (i n : ℕ) (d : SshSpikeJump) (rest : List SshSpikeJump) (parents : List ℕ) (h : History)
      → i + suc (length rest) ≡ n
      → length parents ≡ i
      → OnReturn
          (λ conn h'. Reached L handshake ka (last? parents) d rest h conn h')
          (dial_hop L handshake ka (i == 0) (i + 1 == n) parents d h)
  counted_hop-Reached i n d rest parents h e size =
      rw (is_last-count i n rest e, is_nil-count i parents size)
        (dial_hop-Reached L digest handshake promise ka parents d rest h)

  -- After an entry has passed.
  passed :
      {d : SshSpikeJump} {rest : List SshSpikeJump} {parents : List ℕ} {h : History} (conn : ℕ)
      (h' : History)
      → Passes L handshake ka entries begin (d ∷ rest) parents h
      → Reached L handshake ka (last? parents) d rest h conn h'
      → OnReturn
          (λ _ h''. Passes L handshake ka entries begin rest (parents ++ (conn ∷ [])) h'')
          (authenticate L conn d.username d.auth h')
  passed {d} conn h' sofar reached u e =
      let (call, sends, accepted, same) = (authenticate-Tried L conn d.username d.auth h').0 u e in
      rw same (one_more conn sofar reached sends accepted)

  -- The arguments of the next round, for the last entry and for another one.
  last_round :
      (is_target : Bool) (i n conn : ℕ) (parents : List ℕ) (target : Option ℕ) (h : History)
      → is_target ≡ true
      → Passes L handshake ka entries begin [] (parents ++ (conn ∷ [])) h
      → OnReturn AllPass (
          dial_loop L handshake ka i n []
            (if is_target then parents else parents ++ (conn ∷ []))
            (if is_target then some conn else target)
            h)
  unfolding dial_loop
  last_round is_target i n conn parents target h e all =
      rw e λ c r. let same : c ≡ (parents, some conn) = cc in rw same (conn, refl, all)

  next_round :
      (F : Outcome SshSpikeError (List ℕ × Option ℕ) × History → Type 0) (is_target : Bool)
      (i n conn : ℕ) (rest : List SshSpikeJump) (parents : List ℕ) (target : Option ℕ) (h : History)
      → is_target ≡ false
      → F (dial_loop L handshake ka i n rest (parents ++ (conn ∷ [])) target h)
      → F (
          dial_loop L handshake ka i n rest
            (if is_target then parents else parents ++ (conn ∷ []))
            (if is_target then some conn else target)
            h)
  next_round F is_target i n conn rest parents target h e all = rw e all

  dial_loop-AllPass :
      (i n : ℕ) (d : SshSpikeJump) (rest : List SshSpikeJump) (parents : List ℕ) (target : Option ℕ)
      (h : History)
      → i + suc (length rest) ≡ n
      → length parents ≡ i
      → Passes L handshake ka entries begin (d ∷ rest) parents h
      → OnReturn AllPass (dial_loop L handshake ka i n (d ∷ rest) parents target h)
  unfolding dial_loop
  dial_loop-AllPass i n d [] parents target h e size sofar =
      let hop = dial_hop L handshake ka (i == 0) (i + 1 == n) parents d h in
      continue-OnReturn AllPass _ hop.0 hop.1 λ conn made.
        let sent = authenticate L conn d.username d.auth hop.1 in
        let reached = counted_hop-Reached i n d [] parents h e size conn made in
        continue-OnReturn AllPass _ (map_err_of (attribute (i + 1 == n) d) sent.0) sent.1
          λ u accepted.
            last_round (i + 1 == n) (i + 1) n conn parents target sent.1 (is_last-count i n [] e)
              (passed conn hop.1 sofar reached u (map_err_of-eq_ok _ _ accepted))
  dial_loop-AllPass i n d (next ∷ rest) parents target h e size sofar =
      let hop = dial_hop L handshake ka (i == 0) (i + 1 == n) parents d h in
      continue-OnReturn AllPass _ hop.0 hop.1 λ conn made.
        let sent = authenticate L conn d.username d.auth hop.1 in
        let reached = counted_hop-Reached i n d (next ∷ rest) parents h e size conn made in
        continue-OnReturn AllPass _ (map_err_of (attribute (i + 1 == n) d) sent.0) sent.1
          λ u accepted.
            next_round (λ r. OnReturn AllPass r) (i + 1 == n) (i + 1) n conn (next ∷ rest) parents
              target sent.1 (is_last-count i n (next ∷ rest) e)
              (dial_loop-AllPass (i + 1) n next rest (parents ++ (conn ∷ [])) target sent.1
                (omega arith) (omega (arith, size, length-append parents (conn ∷ [])))
                (passed conn hop.1 sofar reached u (map_err_of-eq_ok _ _ accepted)))

  -- The error's message, for the target and for a hop.
  blamed :
      (is_target : Bool) (d : SshSpikeJump) (after : List SshSpikeJump) (m : Text)
      (o : Outcome SshSpikeError (Unit {0}))
      → is_target ≡ is_last after
      → map_err_of (attribute is_target d) o ≡ err (SshSpikeError.auth m)
      → (reason : SshSpikeError) × (o ≡ err reason)
        × (((after ≡ []) × (SshSpikeError.auth m ≡ reason))
            ⊎ ((after ≢ [])
                × (m ≡ codes "jump to " ++ (address d ++ (codes ": " ++ to_string reason)))))
  unfolding attribute
  blamed is_target d [] m o e r =
      let (reason, failure, same) = map_err_of-eq_err (attribute true d) o (rw e at r) in
      (reason, failure, inl (refl, sym same))
  blamed is_target d (next ∷ after) m o e r =
      let (reason, failure, same) = map_err_of-eq_err (attribute false d) o (rw e at r) in
      (reason, failure, inr (λ x. cc, auth_injective (sym same)))

  later_round :
      (F : Text → History → Type 0) (is_target : Bool) (i n conn : ℕ) (rest : List SshSpikeJump)
      (parents : List ℕ) (target : Option ℕ) (h : History)
      → is_target ≡ is_last rest
      → OnAuth F (dial_loop L handshake ka i n rest (parents ++ (conn ∷ [])) target h)
      → OnAuth F (
          dial_loop L handshake ka i n rest
            (if is_target then parents else parents ++ (conn ∷ []))
            (if is_target then some conn else target)
            h)
  unfolding dial_loop
  later_round F is_target i n conn [] parents target h e all = λ m x. cc
  later_round F is_target i n conn (d ∷ rest) parents target h e all =
      next_round (λ r. OnAuth F r) is_target i n conn (d ∷ rest) parents target h e all

  dial_loop-IsRefused :
      (i n : ℕ) (rest : List SshSpikeJump) (parents : List ℕ) (target : Option ℕ) (h : History)
      → i + length rest ≡ n
      → length parents ≡ i
      → Passes L handshake ka entries begin rest parents h
      → OnAuth
          (IsRefused L handshake ka entries begin)
          (dial_loop L handshake ka i n rest parents target h)
  unfolding dial_loop
  dial_loop-IsRefused i n [] parents target h e size sofar = λ m x. cc
  dial_loop-IsRefused i n (d ∷ rest) parents target h e size sofar =
      let hop = dial_hop L handshake ka (i == 0) (i + 1 == n) parents d h in
      let F = IsRefused L handshake ka entries begin in
      continue-OnAuth F _ hop.0 hop.1
        (λ m x.
          absurd (
            dial_hop-HasNoAuth L digest handshake promise ka (i == 0) (i + 1 == n) parents d h m x))
        λ conn made.
          let sent = authenticate L conn d.username d.auth hop.1 in
          let last = is_last-count i n rest (omega arith) in
          let reached = counted_hop-Reached i n d rest parents h (omega arith) size conn made in
          continue-OnAuth F _ (map_err_of (attribute (i + 1 == n) d) sent.0) sent.1
            (λ m x.
              let (reason, failure, told) = blamed (i + 1 == n) d rest m sent.0 last x in
              (
                d,
                rest,
                parents,
                h,
                conn,
                hop.1,
                reason,
                sofar,
                reached,
                (authenticate-Tried L conn d.username d.auth hop.1).1 reason failure,
                told,
              ))
            λ u accepted.
              later_round F (i + 1 == n) (i + 1) n conn rest parents target sent.1 last (
                dial_loop-IsRefused (i + 1) n rest (parents ++ (conn ∷ [])) target sent.1
                  (omega arith) (omega (arith, size, length-append parents (conn ∷ [])))
                  (passed conn hop.1 sofar reached u (map_err_of-eq_ok _ _ accepted)))

module _ (L : Russh) where
  -- The shell of the target: its channel is opened, and its two requests are acknowledged.
  abbrev pub Shell : ℕ → ℕ → ℕ → History → ℕ → History → Type 0
  Shell handle cols rows h channel h' =
      let opened : History = channel_open_session handle ∷ h in
      let pty = request_pty channel false (codes "xterm-256color") cols rows in
      (L.opens h (channel_open_session handle) ≡ done channel)
      × (L.acknowledges opened pty ≡ done tt)
      × (L.acknowledges (pty ∷ opened) (request_shell channel false) ≡ done tt)
      × (h' ≡ request_shell channel false ∷ pty ∷ opened)

  -- A session over connections of which `P` holds, the target's last.
  abbrev Opened :
      SshSpikeConnectParams → (List ℕ → History → Type 0) → SshSpikeSession → History → Type 0
  Opened p P s h' =
      (target : ℕ) × (channel : ℕ) × (h1 : History) × (h2 : History) × P
        (s.parents ++ (target ∷ [])) h1
      × Shell target p.cols p.rows h1 channel h2
      × (s.handle ≡ some target)
      × (s.write_half ≡ some channel)
      × (h' ≡ spawn_pump channel ∷ h2)

  open_shell-Shell :
      (handle cols rows : ℕ) (h : History)
      → OnReturn
          (λ channel h'. Shell handle cols rows h channel h')
          (open_shell L handle cols rows h)
  unfolding open_shell
  open_shell-Shell handle cols rows h =
      let F : ℕ → History → Type 0 = λ channel h'. Shell handle cols rows h channel h' in
      let opened : History = channel_open_session handle ∷ h in
      continue-OnReturn F _ (from_reply (channel_error L) (L.opens h (channel_open_session handle)))
        opened
        λ channel made.
          let pty = request_pty channel false (codes "xterm-256color") cols rows in
          continue-OnReturn F _ (from_reply (channel_error L) (L.acknowledges opened pty))
            (pty ∷ opened)
            λ _ sized.
              continue-OnReturn F _
                (from_reply (channel_error L)
                  (L.acknowledges (pty ∷ opened) (request_shell channel false)))
                (request_shell channel false ∷ pty ∷ opened)
                λ _ started c r.
                  let same : c ≡ channel = cc in
                  rw same (
                    from_reply-eq_ok _ _ made,
                    from_reply-eq_ok _ _ sized,
                    from_reply-eq_ok _ _ started,
                    refl,
                  )

module _ (L : Russh) (digest : IsDigest L.sha256) (handshake : Handshake)
    (promise : ChecksKey handshake) where
  dialled :
      (p : SshSpikeConnectParams) (h : History)
      → let hops = dial_list p in
        OnReturn
          (AllPass L digest handshake promise p.keep_alive_seconds hops (spawn_dispatch ∷ h))
          (dial_loop L handshake p.keep_alive_seconds 0
            (length hops)
            hops
            []
            none
            (spawn_dispatch ∷ h))
  unfolding dial_list
  dialled p h = go p.via
    where
      go :
          (via : List SshSpikeJump)
          → let hops = via ++ (target_entry p ∷ []) in
            OnReturn
              (AllPass L digest handshake promise p.keep_alive_seconds hops (spawn_dispatch ∷ h))
              (dial_loop L handshake p.keep_alive_seconds 0
                (length hops)
                hops
                []
                none
                (spawn_dispatch ∷ h))
      go [] =
          dial_loop-AllPass L digest handshake promise p.keep_alive_seconds _ _ 0 _ (target_entry p)
            [] [] none (spawn_dispatch ∷ h) (omega arith) refl begins
      go (d ∷ via) =
          dial_loop-AllPass L digest handshake promise p.keep_alive_seconds _ _ 0 _ d
            (via ++ (target_entry p ∷ [])) [] none (spawn_dispatch ∷ h) (omega arith) refl begins

  -- The session over the connections that have passed.
  open_session-Opened :
      (p : SshSpikeConnectParams) (connections : List ℕ × Option ℕ) (h : History) (target : ℕ)
      (P : List ℕ → History → Type 0)
      → connections.1 ≡ some target
      → P (connections.0 ++ (target ∷ [])) h
      → OnReturn (λ s h'. Opened L p P s h') (open_session L handshake p connections h)
  unfolding open_session
  open_session-Opened p (parents, none) h target P e all = cc
  open_session-Opened p (parents, some handle) h target P e all =
      let shell = open_shell L handle p.cols p.rows h in
      let same : target ≡ handle = cc in
      continue-OnReturn (λ s h'. Opened L p P s h') _ shell.0 shell.1
        λ channel made s r.
          let session : s
              ≡ record { write_half = some channel; handle = some handle; parents = parents } =
            cc in
          rw session (
            handle,
            channel,
            h,
            shell.1,
            (rw same at all),
            open_shell-Shell L handle p.cols p.rows h channel made,
            refl,
            refl,
            refl,
          )

  -- For a hash with 32-byte digests and a handshake that keeps its promise, a dial that returns a session
  -- has made these calls and no other. Every entry of the dial list was connected, over the last connection
  -- if there is one, with a handler that has the router exactly for the target; its key was accepted for its
  -- own address, and it has accepted its credential over its own connection. Then a shell was opened on the
  -- target, and the pump was spawned. The session has the shell's channel, the target's connection and the
  -- hops' connections, in order.
  pub connect_inner-Passes :
      (p : SshSpikeConnectParams) (h : History) (s : SshSpikeSession)
      → (connect_inner L handshake p h).0 ≡ ok s
      → (target : ℕ) × (channel : ℕ) × (h1 : History) × (h2 : History) × Passes L handshake
          p.keep_alive_seconds
          (dial_list p)
          (spawn_dispatch ∷ h)
          []
          (s.parents ++ (target ∷ []))
          h1
        × Shell L target p.cols p.rows h1 channel h2
        × (s.handle ≡ some target)
        × (s.write_half ≡ some channel)
        × ((connect_inner L handshake p h).1 ≡ spawn_pump channel ∷ h2)
  unfolding connect_inner
  connect_inner-Passes p h s e =
      let ka = p.keep_alive_seconds in
      let hops = dial_list p in
      let begin : History = spawn_dispatch ∷ h in
      let looped = dial_loop L handshake ka 0 (length hops) hops [] none begin in
      let P : List ℕ → History → Type 0 =
        λ conns h1. Passes L handshake ka hops begin [] conns h1 in
      let F : SshSpikeSession → History → Type 0 = λ s h'. Opened L p P s h' in
      continue-OnReturn F (open_session L handshake p) looped.0 looped.1
        (λ connections made.
          let (target, same, all) = dialled p h connections made in
          open_session-Opened p connections looped.1 target P same all)
        s e

  -- For a hash with 32-byte digests and a handshake that keeps its promise: if a dial fails with an
  -- authentication error, then the entries of the dial list before some entry have passed as in a dial that
  -- succeeds, that entry was connected over the last of them with its key accepted, and the credential sent
  -- over this very connection was refused, or failed, or its private key could not be read. No other call
  -- was made. The error is the one of that failure for the target, and names the hop's address and then
  -- tells the failure for a hop.
  pub connect_inner-IsRefused :
      (p : SshSpikeConnectParams) (h : History) (m : Text)
      → (connect_inner L handshake p h).0 ≡ err (SshSpikeError.auth m)
      → IsRefused L handshake p.keep_alive_seconds
          (dial_list p)
          (spawn_dispatch ∷ h)
          m
          (connect_inner L handshake p h).1
  unfolding connect_inner
  connect_inner-IsRefused p h m e =
      let hops = dial_list p in
      let begin : History = spawn_dispatch ∷ h in
      let looped = dial_loop L handshake p.keep_alive_seconds 0 (length hops) hops [] none begin in
      let F = IsRefused L handshake p.keep_alive_seconds hops begin in
      continue-OnAuth F (open_session L handshake p) looped.0 looped.1
        (dial_loop-IsRefused L digest handshake promise p.keep_alive_seconds hops begin 0
          (length hops) hops [] none begin (omega arith) refl begins)
        (λ connections _ m x.
          absurd (open_session-HasNoAuth L digest handshake promise p connections looped.1 m x))
        m e
