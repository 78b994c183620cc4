-- ===== src/Clients/Dialling/Rejected.antt =====
-- What a verifier that refuses every key does to a dial of ssh-transport/src/lib.rs.
use rust_core.Base.{ℕ, ◌+◌, ◌≡◌, ◌⊎◌, inl, inr, refl, Bool, true, false, none, List, [], ◌∷◌, ◌++◌}
use rust_core.Base.{Text, suc, ◌==◌, length, ap, ◌∙◌}
use rust_core.KnownHosts.Fingerprint.{IsDigest}
use rust_core.Russh.{Russh, History, connect, verify, spawn_dispatch}
use rust_core.Outcome.{Outcome, ok, err, panic, blocked, M, IsOk, SshSpikeError, continue}
use rust_core.Outcome.{host_key_rejected}
use rust_core.Connect.{Handshake, SshSpikeJump, SshSpikeConnectParams, transport_config}
use rust_core.Connect.{probe_handler, open_session, dial_hop, dial_loop, dial_list, target_entry}
use rust_core.Connect.{connect_inner}
use rust_core.Connect.Steps.{ChecksKey, start-Started}
use rust_core.Clients.Dialling.{reject}

-- A dial that ends with its first connection: the transport was started and no key was shown, or its key
-- was refused.
abbrev pub IsTurnedAway :
    {A : Type 0} → SshSpikeJump → ℕ → History → Outcome SshSpikeError A × History → Type 0
IsTurnedAway d ka h (r, h') =
    let dial = connect (transport_config ka) d.host d.port in
    ((¬ IsOk r) × (h' ≡ dial ∷ h))
    ⊎ ((algorithm : Text) × (blob : List ℕ) × (r ≡ err host_key_rejected)
        × (h' ≡ verify d.host d.port algorithm blob false ∷ dial ∷ h))

continue-IsTurnedAway :
    {A B : Type 0} (f : A → M SshSpikeError B) (d : SshSpikeJump) (ka : ℕ) (before : History)
    (r : Outcome SshSpikeError A) (h : History)
    → IsTurnedAway d ka before (r, h)
    → IsTurnedAway d ka before (continue f r h)
continue-IsTurnedAway f d ka before (ok a) h (inl (fails, same)) = absurd (fails (a, refl))
continue-IsTurnedAway f d ka before (ok a) h (inr (_, _, e, _)) = cc
continue-IsTurnedAway f d ka before (err x) h (inl (_, same)) = inl (λ (a, e). cc, same)
continue-IsTurnedAway f d ka before (err x) h (inr (a, b, e, same)) = inr (a, b, cc, same)
continue-IsTurnedAway f d ka before panic h (inl (_, same)) = inl (λ (a, e). cc, same)
continue-IsTurnedAway f d ka before panic h (inr (_, _, e, _)) = cc
continue-IsTurnedAway f d ka before blocked h (inl (_, same)) = inl (λ (a, e). cc, same)
continue-IsTurnedAway f d ka before blocked h (inr (_, _, e, _)) = cc

-- The dial list has a first entry.
pub dial_list-cons :
    (p : SshSpikeConnectParams)
    → (first : SshSpikeJump) × (rest : List SshSpikeJump) × (dial_list p ≡ first ∷ rest)
unfolding dial_list
dial_list-cons p = go p.via
  where
    go :
        (via : List SshSpikeJump)
        → (first : SshSpikeJump) × (rest : List SshSpikeJump) × (via ++ (target_entry p ∷ [])
            ≡ first ∷ rest)
    go [] = (target_entry p, [], refl)
    go (d ∷ via) = (d, via ++ (target_entry p ∷ []), refl)

module _ (L : Russh) (digest : IsDigest L.sha256) (handshake : Handshake)
    (promise : ChecksKey handshake) where
  first_hop-IsTurnedAway :
      (ka : ℕ) (is_target : Bool) (d : SshSpikeJump) (h : History)
      → IsTurnedAway d ka h (dial_hop (reject L) handshake ka true is_target [] d h)
  unfolding dial_hop
  first_hop-IsTurnedAway ka is_target d h =
      elim (start-Started (reject L) digest handshake promise (probe_handler is_target d)
        (connect (transport_config ka) d.host d.port) h).1 [
          | inl none_shown ↦ inl none_shown
          | inr (algorithm, blob, answer, same, _, (asked, refused)) ↦ inr (
            algorithm,
            blob,
            refused asked,
            same
                ∙ ap
                    (λ b.
                      verify d.host d.port algorithm blob b
                      ∷ connect (transport_config ka) d.host d.port
                      ∷ h)
                    asked,
          )
        ]

  dial_loop-IsTurnedAway :
      (ka n : ℕ) (d : SshSpikeJump) (rest : List SshSpikeJump) (h : History)
      → IsTurnedAway d ka h (dial_loop (reject L) handshake ka 0 n (d ∷ rest) [] none h)
  unfolding dial_loop
  dial_loop-IsTurnedAway ka n d rest h =
      let hop = dial_hop (reject L) handshake ka true (0 + 1 == n) [] d h in
      continue-IsTurnedAway _ d ka h hop.0 hop.1 (first_hop-IsTurnedAway ka (0 + 1 == n) d h)

  -- For a hash with 32-byte digests and a handshake that keeps its promise, with a verifier that refuses
  -- every key: whatever is dialled, over any hops, no session is returned and no credential is sent. The
  -- one transport that is started is that to the first entry of the dial list; if its key is shown,
  -- for its own address, the dial ends in `HostKeyRejected`, and otherwise it fails before.
  pub rejected_lem :
      (p : SshSpikeConnectParams) (h : History)
      → (first : SshSpikeJump) × (rest : List SshSpikeJump) × (dial_list p ≡ first ∷ rest)
        × IsTurnedAway first p.keep_alive_seconds
            (spawn_dispatch ∷ h)
            (connect_inner (reject L) handshake p h)
  unfolding connect_inner
  rejected_lem p h =
      let (first, rest, e) = dial_list-cons p in
      let started : History = spawn_dispatch ∷ h in
      let looped =
        dial_loop (reject L) handshake p.keep_alive_seconds 0 (length (dial_list p)) (dial_list p)
          [] none started in
      (
        first,
        rest,
        e,
        continue-IsTurnedAway (open_session (reject L) handshake p) first p.keep_alive_seconds
            started looped.0 looped.1
            (rw e
              (dial_loop-IsTurnedAway p.keep_alive_seconds (suc (length rest)) first rest started)),
      )
