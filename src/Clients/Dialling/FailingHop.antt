-- ===== src/Clients/Dialling/FailingHop.antt =====
-- What a dial of ssh-transport/src/lib.rs comes to whose first hop refuses the password.
use rust_core.Base.{ℕ, ◌+◌, ◌≡◌, refl, false, none, List, [], ◌∷◌, ◌++◌, Text, codes, length}
use rust_core.Base.{length-append, ◌==◌, arith}
use rust_core.Russh.{Russh, History, Call, done, connect, spawn_dispatch, authenticate_password}
use rust_core.Outcome.{ok, err, SshSpikeError, to_string}
use rust_core.HostKey.{check_server_key}
use rust_core.Connect.{Handshake, SshSpikeJump, SshSpikeConnectParams, password, transport_config}
use rust_core.Connect.{probe_handler, address, attribute, authenticate, dial_hop, dial_loop}
use rust_core.Connect.{dial_list, target_entry, connect_inner}

-- The call that the first entry is dialled with, the history in which its handshake runs, and the
-- error that names it.
abbrev pub dial : ℕ → SshSpikeJump → Call
dial ka d = connect (transport_config ka) d.host d.port

abbrev pub naming : SshSpikeJump → SshSpikeError
naming d =
    SshSpikeError.auth (codes "jump to " ++ (address d ++ codes ": auth failed: password rejected"))

module _ (L : Russh) (handshake : Handshake) where
  dial_loop-naming :
      (ka n conn : ℕ) (d : SshSpikeJump) (rest : List SshSpikeJump) (secret : Text) (h h1 : History)
      → (0 + 1 == n) ≡ false
      → d.auth ≡ password secret
      → handshake (check_server_key L) (probe_handler false d) (dial ka d) (dial ka d ∷ h)
        ≡ (ok conn, h1)
      → L.authenticates h1 (authenticate_password conn d.username secret) ≡ done false
      → dial_loop L handshake ka 0 n (d ∷ rest) [] none h
        ≡ (err (naming d), authenticate_password conn d.username secret ∷ h1)
  unfolding dial_loop dial_hop authenticate attribute to_string
  dial_loop-naming ka n conn d rest secret h h1 hop auth shaken refused =
      rw (hop, shaken, auth) (rw refused refl)

  -- If the first hop of a dial with hops makes its connection and refuses the password, the dial makes
  -- no call after the one with the password, and ends in an authentication error with the hop's
  -- address.
  pub failing_hop_lem :
      (p : SshSpikeConnectParams) (d : SshSpikeJump) (rest : List SshSpikeJump) (secret : Text)
      (conn : ℕ) (h h1 : History)
      → p.via ≡ d ∷ rest
      → d.auth ≡ password secret
      → handshake
          (check_server_key L)
          (probe_handler false d)
          (dial p.keep_alive_seconds d)
          (dial p.keep_alive_seconds d ∷ spawn_dispatch ∷ h)
        ≡ (ok conn, h1)
      → L.authenticates h1 (authenticate_password conn d.username secret) ≡ done false
      → connect_inner L handshake p h
        ≡ (err (naming d), authenticate_password conn d.username secret ∷ h1)
  unfolding connect_inner dial_list
  failing_hop_lem p d rest secret conn h h1 hops auth shaken refused =
      let list = rest ++ (target_entry p ∷ []) in
      let hop : (0 + 1 == length (d ∷ list)) ≡ false =
        ground (arith, length-append rest (target_entry p ∷ [])) in
      rw hops (
        rw
          (dial_loop-naming p.keep_alive_seconds (length (d ∷ list)) conn d list secret
            (spawn_dispatch ∷ h) h1 hop auth shaken refused)
          refl)
