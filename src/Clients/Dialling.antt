-- ===== src/Clients/Dialling.antt =====
-- The tests of ssh-transport/src/lib.rs that look at a dial: `host_key_rejection_fails_the_connect`,
-- `jump_chain_auth_failure_names_the_failing_hop`, `no_common_kex_maps_to_a_typed_variant_not_a_string`
-- and, in Verifying, the test of what the verifier sees.
pub mod Rejected
pub mod FailingHop
pub mod Verifying
use rust_core.Base.{ℕ, Bool, true, false, List, [], ◌∷◌, Text, codes, starts_with, text_eq}
use rust_core.Russh.{Russh, History, no_common_algo}
use rust_core.Outcome.{SshSpikeError, Outcome, ok, err, panic, blocked, host_key_rejected}
use rust_core.Connect.{Handshake, SshSpikeAuth, password, SshSpikeJump, SshSpikeConnectParams}
use rust_core.Connect.{SshSpikeSession, connect_inner, map_connect_error}

-- The same network with the verifier `RejectVerifier`.
abbrev pub reject : Russh → Russh
reject L = record L { verifies = λ _ _ _ _ _. false }

abbrev pub password_auth : SshSpikeAuth
password_auth = password (codes "conch-pw-1")

-- What `connect_shell` dials.
abbrev pub shell_params : SshSpikeConnectParams
shell_params = record {
  host = codes "127.0.0.1";
  port = 2233;
  username = codes "pwuser";
  auth = password_auth;
  cols = 80;
  rows = 24;
  via = [];
  keep_alive_seconds = 15;
}

abbrev pub is_rejection : Outcome SshSpikeError SshSpikeSession → Bool
is_rejection (err SshSpikeError.host_key_rejected) = true
is_rejection (err _) = false
is_rejection (ok s) = false
is_rejection panic = false
is_rejection blocked = false

unfoldable pub host_key_rejection_fails_the_connect : Russh → Handshake → History → Bool
host_key_rejection_fails_the_connect L handshake h =
    is_rejection (connect_inner (reject L) handshake shell_params h).0

-- A target behind a hop with a wrong password.
abbrev pub wrong_hop : SshSpikeJump
wrong_hop = record {
  host = codes "127.0.0.1";
  port = 2235;
  username = codes "pwuser";
  auth = password (codes "wrong-hop-password");
}

abbrev pub jump_params : SshSpikeConnectParams
jump_params = record shell_params { port = 2223; via = wrong_hop ∷ [] }

abbrev pub names_hop : Outcome SshSpikeError SshSpikeSession → Bool
names_hop (err (SshSpikeError.auth detail)) = starts_with detail (codes "jump to 127.0.0.1:2235")
names_hop (err _) = false
names_hop (ok s) = false
names_hop panic = false
names_hop blocked = false

unfoldable pub jump_chain_auth_failure_names_the_failing_hop : Russh → Handshake → History → Bool
jump_chain_auth_failure_names_the_failing_hop L handshake h =
    names_hop (connect_inner L handshake jump_params h).0

abbrev pub names_kex : SshSpikeError → Bool
names_kex (SshSpikeError.no_common_algorithm kind) = text_eq kind (codes "kex")
names_kex _ = false

-- `kind` stands for `AlgorithmKind::Kex`.
unfoldable pub no_common_kex_maps_to_a_typed_variant_not_a_string : Russh → (kind : ℕ) → Bool
no_common_kex_maps_to_a_typed_variant_not_a_string L kind =
    names_kex (map_connect_error L (no_common_algo kind))
