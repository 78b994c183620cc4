-- ===== src/Examples/Dialling.antt =====
-- The theorems about dialling (`connect_inner` of ssh-transport/src/lib.rs): a target behind a hop.
use rust_core.Base.{ℕ, ◌++◌, ◌==◌, ◌≡◌, refl, ◌≢◌, some, [], ◌∷◌}
use rust_core.Outcome.{ok, panic, err, host_key_rejected}
use rust_core.Russh.{Russh, History, spawn_dispatch, spawn_pump}
use rust_core.Connect.Failures.{IsSettled, connect_inner-IsSettled}
use rust_core.Connect.{map_connect_error, connect_inner, SshSpikeSession, dial_loop, dial_hop}
use rust_core.Connect.{open_jump, jump_from, authenticate, attribute, open_shell, open_session}
use rust_core.Connect.{dial_list, transport_config}
use rust_core.HostKey.{check_server_key, wire_form, log_key}
use rust_core.KnownHosts.{blob_fingerprint, base64_encode, encode_chunk, table_at}
use rust_core.Connect.Trace.{Passes}
use rust_core.Connect.Trace.Dialled.{Shell, connect_inner-Passes}
use rust_core.Connect.Credentials.{IsSafe, connect_inner-IsSafe}
use rust_core.Connect.Panics.{connect_inner-ne_panic}
use rust_core.Examples.{sevens-IsDigest, server, shakes, shakes-ChecksKey, params}

-- The session that the dial returns: calls are numbered from 0, which is the dispatcher's task.
abbrev pub session : SshSpikeSession
session = record { write_half = some 8; handle = some 6; parents = 2 ∷ [] }

pub session_run : (connect_inner server shakes params []).0 ≡ ok session
unfolding connect_inner dial_loop dial_hop open_jump jump_from authenticate attribute open_shell
    open_session dial_list transport_config check_server_key wire_form log_key blob_fingerprint
    base64_encode encode_chunk table_at
session_run = refl

connect_inner-IsSafe_example : IsSafe server shakes (connect_inner server shakes params []).1
connect_inner-IsSafe_example =
    connect_inner-IsSafe server sevens-IsDigest shakes shakes-ChecksKey params [] tt

connect_inner-ne_panic_example : (connect_inner server shakes params []).0 ≢ panic
connect_inner-ne_panic_example =
    connect_inner-ne_panic server sevens-IsDigest shakes shakes-ChecksKey params []

connect_inner-Passes_example :
    (target : ℕ) × (channel : ℕ) × (h1 : History) × (h2 : History) × Passes server shakes 15
      (dial_list params)
      (spawn_dispatch ∷ [])
      []
      (session.parents ++ (target ∷ []))
      h1
    × Shell server target 80 24 h1 channel h2
    × (session.handle ≡ some target)
    × (session.write_half ≡ some channel)
    × ((connect_inner server shakes params []).1 ≡ spawn_pump channel ∷ h2)
connect_inner-Passes_example =
    connect_inner-Passes server sevens-IsDigest shakes shakes-ChecksKey params [] session
      session_run

-- A verifier that trusts the hop only.
abbrev wary : Russh
wary = record server { verifies = λ _ _ port _ _. port == 22 }

connect_inner-IsSettled_example : IsSettled (connect_inner wary shakes params [])
connect_inner-IsSettled_example =
    connect_inner-IsSettled wary sevens-IsDigest shakes shakes-ChecksKey params [] tt

rejected_run : (connect_inner wary shakes params []).0 ≡ err host_key_rejected
unfolding connect_inner dial_loop dial_list dial_hop check_server_key wire_form log_key
    blob_fingerprint base64_encode encode_chunk table_at authenticate open_jump jump_from
    map_connect_error
rejected_run = refl
