-- ===== src/Examples/Lifetimes.antt =====
-- The theorems about a dial and what follows it (ssh-transport/src/lib.rs): a target behind a hop.
use rust_core.Base.{ℕ, ◌≡◌, refl, false, some, List, [], ◌∷◌, ◌++◌, reverse, Text, codes, display}
use rust_core.Russh.{Russh, Call, eof, close, done, spawn_dispatch}
use rust_core.Outcome.{err, SshSpikeError, to_string}
use rust_core.Connect.Trace.{IsRefused}
use rust_core.Connect.Trace.Dialled.{connect_inner-IsRefused}
use rust_core.Connect.{connect_inner, dial_list, dial_loop, dial_hop, attribute, authenticate}
use rust_core.Connect.Connections.{authenticated, connect_inner-Connects}
use rust_core.Session.{disconnect}
use rust_core.Session.Teardown.{bye, departures, left, right, nil}
use rust_core.Session.Lifetime.{connect-disconnect}
use rust_core.HostKey.{check_server_key, wire_form, log_key}
use rust_core.KnownHosts.{blob_fingerprint, base64_encode, encode_chunk, table_at}
use rust_core.Examples.{sevens-IsDigest, server, shakes, shakes-ChecksKey, params}
use rust_core.Examples.Dialling.{session, session_run}

connect_inner-Connects_example :
    (handle : ℕ) × (session.handle ≡ some handle)
    × (authenticated (connect_inner server shakes params []).1
        ≡ handle ∷ (reverse session.parents ++ []))
connect_inner-Connects_example =
    connect_inner-Connects server sevens-IsDigest shakes shakes-ChecksKey params [] session
      session_run

-- The shell is closed in the middle of the goodbyes.
abbrev goodbyes : List Call
goodbyes = bye 6 ∷ eof 8 ∷ bye 2 ∷ close 8 ∷ []

connect-disconnect_example :
    departures goodbyes ≡ authenticated (connect_inner server shakes params []).1
unfolding disconnect
connect-disconnect_example =
    connect-disconnect server sevens-IsDigest shakes shakes-ChecksKey params session session_run
      refl (right (left (right (left nil))))

-- A hop that rejects the password.
abbrev strict : Russh
strict = record server { authenticates = λ _ _. done false }

abbrev complaint : Text
complaint = codes "jump to bastion:22: auth failed: password rejected"

strict_run : (connect_inner strict shakes params []).0 ≡ err (SshSpikeError.auth complaint)
unfolding connect_inner dial_list dial_loop dial_hop attribute authenticate check_server_key
    wire_form log_key blob_fingerprint base64_encode encode_chunk table_at display to_string
strict_run = refl

connect_inner-IsRefused_example :
    IsRefused strict shakes 15
      (dial_list params)
      (spawn_dispatch ∷ [])
      complaint
      (connect_inner strict shakes params []).1
connect_inner-IsRefused_example =
    connect_inner-IsRefused strict sevens-IsDigest shakes shakes-ChecksKey params [] complaint
      strict_run
