-- ===== src/HostKey/Verified.antt =====
-- The key check of ssh-transport/src/lib.rs on every key and every answer of the verifier.
use rust_core.Base.{ℕ, Option, none, some, List, [], ◌∷◌, ◌++◌, Text, codes, ◌≡◌, refl, arith}
use rust_core.Base.{Bool-cases, inl, inr, if◌then◌else◌}
use rust_core.KnownHosts.{blob_fingerprint}
use rust_core.KnownHosts.Fingerprint.{IsDigest, fingerprint_shape}
use rust_core.Russh.{Russh, unknown_key, HostKey, public_key, certificate, verify, History}
use rust_core.Outcome.{ok, err}
use rust_core.HostKey.{ProbeHandler, wire_form, log_key, check_server_key}

-- The wire form of a key, where it has one.
abbrev pub encoded : HostKey → Option (Text × List ℕ)
encoded (public_key algorithm (some blob)) = some (algorithm, blob)
encoded (public_key algorithm none) = none
encoded (certificate algorithm (some blob)) = some (algorithm, blob)
encoded (certificate algorithm none) = none

module _ (L : Russh) where
  -- A key with no wire form is refused as unknown, and the verifier is not asked.
  pub check-unencodable :
      (handler : ProbeHandler) (key : HostKey) (h : History)
      → encoded key ≡ none
      → check_server_key L handler key h ≡ (err unknown_key, h)
  unfolding check_server_key wire_form
  check-unencodable handler (public_key a none) h e = refl
  check-unencodable handler (certificate a none) h e = refl
  check-unencodable handler (public_key a (some b)) h e = ground arith
  check-unencodable handler (certificate a (some b)) h e = ground arith

  wire_form-encoded :
      (key : HostKey) (h : History) (algorithm : Text) (blob : List ℕ)
      → encoded key ≡ some (algorithm, blob)
      → wire_form key h ≡ (ok (algorithm, blob), h)
  unfolding wire_form
  wire_form-encoded (public_key a none) h algorithm blob e = cc
  wire_form-encoded (certificate a none) h algorithm blob e = cc
  wire_form-encoded (public_key a (some b)) h algorithm blob e = ground arith
  wire_form-encoded (certificate a (some b)) h algorithm blob e = ground arith

  log_key-push :
      (handler : ProbeHandler) (h : History) (algorithm : Text) (blob : List ℕ) (fingerprint : Text)
      → blob_fingerprint L.sha256 blob ≡ some fingerprint
      → log_key L.sha256 algorithm blob handler h ≡ (
        ok (record handler {
          accepted_host_keys =
              handler.accepted_host_keys ++ ((algorithm ++ (codes ":" ++ fingerprint)) ∷ []);
        }),
        h,
      )
  unfolding log_key
  log_key-push handler h algorithm blob fingerprint e = rw (e, log_key)

  -- For a hash with 32-byte digests, a key with a wire form is shown to the verifier once, with the
  -- handler's own endpoint. The check returns the verifier's answer, and logs the key with its
  -- fingerprint exactly if it was accepted.
  pub check_server_key_lem :
      IsDigest L.sha256
      → (handler : ProbeHandler) (key : HostKey) (h : History) (algorithm : Text) (blob : List ℕ)
      → encoded key ≡ some (algorithm, blob)
      → let (host, port) = handler.endpoint in
        let answer = L.verifies h host port algorithm blob in
        (fingerprint : Text) × (blob_fingerprint L.sha256 blob ≡ some fingerprint)
        × (check_server_key L handler key h ≡ (
          ok (
            answer,
            if answer
                then record handler {
                  accepted_host_keys =
                      handler.accepted_host_keys
                      ++ ((algorithm ++ (codes ":" ++ fingerprint)) ∷ []);
                }
                else handler,
          ),
          verify host port algorithm blob answer ∷ h,
        ))
  unfolding check_server_key
  check_server_key_lem digest handler key h algorithm blob e =
      let (t, shape, _, _) = fingerprint_shape digest blob in
      (
        codes "SHA256:" ++ t,
        shape,
        rw (wire_form-encoded key h algorithm blob e)
            (elim (Bool-cases (L.verifies h handler.endpoint.0 handler.endpoint.1 algorithm blob)) [
              | inl accepted ↦ rw (accepted, log_key-push handler _ algorithm blob _ shape)
              | inr refused ↦ rw refused
            ]),
      )
