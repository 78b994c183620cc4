-- ===== src/Clients/Dialling/Verifying.antt =====
-- The verifier of the tests of ssh-transport/src/lib.rs that accepts every key and keeps what it was asked
-- (`AcceptVerifier`), and the test `host_key_verifier_sees_a_plausible_wire_blob`.
pub mod Seen
use rust_core.Base.{ℕ, Bool, true, ◌||◌, none, some, List, [], ◌∷◌, ◌++◌, Text, codes, display}
use rust_core.Base.{starts_with, text_eq}
use rust_core.KnownHosts.{is_plausible_blob}
use rust_core.Russh.{Russh, History, verify}
use rust_core.Outcome.{SshSpikeError, M, ok, panics, ◌>>=◌, ◌>>◌}
use rust_core.Outcome.Expect.{expect, assert}
use rust_core.Connect.{Handshake, connect_inner}
use rust_core.Clients.Dialling.{shell_params}

abbrev pub accept : Russh → Russh
accept L = record L { verifies = λ _ _ _ _ _. true }

-- `SeenKey`: the endpoint as a text, the algorithm and the blob.
abbrev pub SeenKey : Type 0
SeenKey = Text × Text × List ℕ

-- What the verifier has pushed, the first question first.
abbrev pub seen : History → List SeenKey
seen [] = []
seen (verify host port algorithm blob _ ∷ h) =
    seen h ++ ((host ++ (codes ":" ++ display port), algorithm, blob) ∷ [])
seen (_ ∷ h) = seen h

-- The prefixes that the test looks for.
abbrev pub is_host_key_name : Text → Bool
is_host_key_name algorithm =
    starts_with algorithm (codes "ssh-") || starts_with algorithm (codes "ecdsa-")

-- `assert!(is_plausible_blob(blob))`, which panics with the test of the blob too.
unfoldable pub assert_plausible : List ℕ → M SshSpikeError (Unit {0})
assert_plausible blob = elim (is_plausible_blob blob) [ none ↦ panics | some b ↦ assert b ]

-- What is asserted of the keys that were seen: that there is one, and how it looks.
unfoldable pub check_seen : List SeenKey → M SshSpikeError (Unit {0})
check_seen ((endpoint, algorithm, blob) ∷ []) = do
  assert (text_eq endpoint (codes "127.0.0.1:2233"))
  assert (is_host_key_name algorithm)
  assert_plausible blob
check_seen _ = panics

unfoldable pub host_key_verifier_sees_a_plausible_wire_blob :
    Russh → Handshake → M SshSpikeError (Unit {0})
host_key_verifier_sees_a_plausible_wire_blob L handshake = do
  expect (connect_inner (accept L) handshake shell_params)
  keys ← λ h. (ok (seen h), h)
  check_seen keys
