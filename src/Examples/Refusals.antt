-- ===== src/Examples/Refusals.antt =====
-- Dials of ssh-transport/src/lib.rs that are refused: by the verifier, and by a hop.
use rust_core.Base.{◌≡◌, refl, true, false, List, [], ◌∷◌, codes, display, to_lowercase}
use rust_core.Russh.{Russh, History, done, verify, spawn_dispatch, authenticate_password}
use rust_core.Outcome.{err, to_string}
use rust_core.HostKey.{check_server_key, wire_form, log_key}
use rust_core.KnownHosts.{blob_fingerprint, base64_encode, encode_chunk, table_at}
use rust_core.Connect.{SshSpikeJump, connect_inner, dial_list, dial_loop, dial_hop}
use rust_core.Connect.{map_connect_error, authenticate, attribute}
use rust_core.Clients.Dialling.{reject, wrong_hop, jump_params}
use rust_core.Clients.Dialling.{host_key_rejection_fails_the_connect}
use rust_core.Clients.Dialling.{no_common_kex_maps_to_a_typed_variant_not_a_string}
use rust_core.Clients.Dialling.{jump_chain_auth_failure_names_the_failing_hop}
use rust_core.Clients.Dialling.Rejected.{IsTurnedAway, rejected_lem}
use rust_core.Clients.Dialling.FailingHop.{dial, naming, failing_hop_lem}
use rust_core.Examples.{sevens-IsDigest, server, shakes, shakes-ChecksKey, params}

rejected_lem_example :
    (first : SshSpikeJump) × (rest : List SshSpikeJump) × (dial_list params ≡ first ∷ rest)
    × IsTurnedAway first 15 (spawn_dispatch ∷ []) (connect_inner (reject server) shakes params [])
rejected_lem_example = rejected_lem server sevens-IsDigest shakes shakes-ChecksKey params []

-- A server that refuses every credential.
abbrev picky : Russh
picky = record server { authenticates = λ _ _. done false }

abbrev shaken : History
shaken =
    verify (codes "127.0.0.1") 2235 (codes "ssh-ed25519") (1 ∷ 2 ∷ 3 ∷ []) true
    ∷ dial 15 wrong_hop
    ∷ spawn_dispatch
    ∷ []

failing_hop_named : connect_inner picky shakes jump_params [] ≡ (
  err (naming wrong_hop),
  authenticate_password 2 (codes "pwuser") (codes "wrong-hop-password") ∷ shaken,
)
unfolding check_server_key wire_form log_key blob_fingerprint base64_encode encode_chunk table_at
failing_hop_named =
    failing_hop_lem picky shakes jump_params wrong_hop [] (codes "wrong-hop-password") 2 [] shaken
      refl refl refl refl

failing_hop_run : jump_chain_auth_failure_names_the_failing_hop picky shakes [] ≡ true
unfolding jump_chain_auth_failure_names_the_failing_hop connect_inner dial_loop dial_list dial_hop
    check_server_key wire_form log_key blob_fingerprint base64_encode encode_chunk table_at
    authenticate attribute to_string display
failing_hop_run = refl

rejection_run : host_key_rejection_fails_the_connect server shakes [] ≡ true
unfolding host_key_rejection_fails_the_connect connect_inner dial_loop dial_list dial_hop
    check_server_key wire_form map_connect_error to_lowercase
rejection_run = refl

-- The key exchange is `Kex` in its debug form.
kex_run :
    no_common_kex_maps_to_a_typed_variant_not_a_string
      (record server { kind_debug = λ _. codes "Kex" })
      0
    ≡ true
unfolding no_common_kex_maps_to_a_typed_variant_not_a_string map_connect_error to_lowercase
kex_run = refl
