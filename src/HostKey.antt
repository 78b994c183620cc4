-- ===== src/HostKey.antt =====
-- `ProbeHandler` of ssh-transport/src/lib.rs: the check of a host key and the routing of inbound
-- forwarded channels.
pub mod Verified
use rust_core.Base.{ℕ, Bool, true, false, Option, none, some, List, [], ◌∷◌, ◌++◌, Text, codes}
use rust_core.Base.{if◌then◌else◌}
use rust_core.KnownHosts.{blob_fingerprint}
use rust_core.Russh.{Russh, RusshError, unknown_key, HostKey, public_key, certificate, verify}
use rust_core.Outcome.{M, ok, pure, raise, panics, ◌>>=◌}

-- `ProbeHandler`. The verifier is that of the parameter `Russh`; `has_router` is `forwards.is_some()`.
pub record ProbeHandler : Type 0 where
  pub accepted_host_keys : List Text
  pub endpoint : Text × ℕ
  pub has_router : Bool

-- The algorithm and the wire blob of a key or of a certificate.
unfoldable pub wire_form : HostKey → M RusshError (Text × List ℕ)
wire_form (public_key algorithm (some blob)) = pure (algorithm, blob)
wire_form (public_key algorithm none) = raise unknown_key
wire_form (certificate algorithm (some blob)) = pure (algorithm, blob)
wire_form (certificate algorithm none) = raise unknown_key

-- The entry of the log of accepted keys.
unfoldable pub log_key :
    (List ℕ → List ℕ) → Text → List ℕ → ProbeHandler → M RusshError ProbeHandler
log_key sha256 algorithm blob handler = elim (blob_fingerprint sha256 blob) [
  | none ↦ panics
  | some fingerprint ↦ pure (record handler {
    accepted_host_keys =
        handler.accepted_host_keys ++ ((algorithm ++ (codes ":" ++ fingerprint)) ∷ []);
  })
]

module _ (L : Russh) where
  -- The verifier's answer, which is recorded with the question.
  abbrev ask : Text × ℕ → Text → List ℕ → M RusshError Bool
  ask (host, port) algorithm blob h =
      let answer = L.verifies h host port algorithm blob in
      (ok answer, verify host port algorithm blob answer ∷ h)

  unfoldable pub check_server_key : ProbeHandler → HostKey → M RusshError (Bool × ProbeHandler)
  check_server_key handler key = do
    (algorithm, blob) ← wire_form key
    accepted ← ask handler.endpoint algorithm blob
    (if accepted
        then (log_key L.sha256 algorithm blob handler >>= λ logged. pure (true, logged))
        else pure (false, handler))
