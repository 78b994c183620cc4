-- ===== src/Connect/Steps.antt =====
-- What russh promises of a handshake, and what follows for one round of the dial loop of
-- `connect_inner` in ssh-transport/src/lib.rs.
use rust_core.Base.{ℕ, ◌≡◌, refl, ◌≢◌, ◌⊎◌, inl, inr, ap, Bool, true, false, none, some, List, ◌∷◌}
use rust_core.Base.{Text}
use rust_core.KnownHosts.Fingerprint.{IsDigest}
use rust_core.Russh.{Russh, RusshError, unknown_key, HostKey, public_key, certificate, History}
use rust_core.Russh.{Call, verify}
use rust_core.Outcome.{IsOk, Outcome, ok, err, panic, blocked, M, map_err_of, SshSpikeError}
use rust_core.Outcome.{map_err_of-ne_panic, map_err_of-eq_ok}
use rust_core.HostKey.{ProbeHandler, check_server_key}
use rust_core.HostKey.Verified.{encoded, check-unencodable, check_server_key_lem}
use rust_core.Connect.{Handshake, start, map_connect_error}

-- The result of a handshake from that of its key check. A refused key comes back as `UnknownKey`;
-- after an accepted one the handshake can still fail.
abbrev pub FollowsCheck : Outcome RusshError (Bool × ProbeHandler) → Outcome RusshError ℕ → Type 0
FollowsCheck (ok (true, _)) r = r ≢ panic
FollowsCheck (ok (false, _)) r = r ≡ err unknown_key
FollowsCheck (err e) r = r ≡ err e
FollowsCheck panic r = r ≡ panic
FollowsCheck blocked r = r ≡ blocked

-- What russh promises: a handshake fails before the server has shown a key, or it shows the key to
-- the check once, with the handler that it was given, and goes by the answer.
abbrev pub ChecksKey : Handshake → Type 0
ChecksKey handshake =
    (check : ProbeHandler → HostKey → M RusshError (Bool × ProbeHandler)) (handler : ProbeHandler)
    (c : Call) (h : History)
    → ((¬ IsOk (handshake check handler c h).0)
        × ((handshake check handler c h).0 ≢ panic)
        × ((handshake check handler c h).1 ≡ h))
      ⊎ ((key : HostKey) × FollowsCheck (check handler key h).0 (handshake check handler c h).0
          × ((handshake check handler c h).1 ≡ (check handler key h).1))

pub encoded-cases :
    (key : HostKey)
    → (encoded key ≡ none) ⊎ ((a : Text) × (b : List ℕ) × (encoded key ≡ some (a, b)))
encoded-cases (public_key a none) = inl refl
encoded-cases (public_key a (some b)) = inr (a, b, refl)
encoded-cases (certificate a none) = inl refl
encoded-cases (certificate a (some b)) = inr (a, b, refl)

-- What the history holds after a transport was started: the call alone, or with the question put to
-- the verifier, answered with yes if a connection was made.
abbrev pub Started : Russh → Text × ℕ → Call → History → Outcome SshSpikeError ℕ → History → Type 0
Started L (host, port) c h r h' =
    ((¬ IsOk r) × (h' ≡ c ∷ h))
    ⊎ ((algorithm : Text) × (blob : List ℕ) × (answer : Bool) × (h'
          ≡ verify host port algorithm blob answer ∷ c ∷ h)
        × (IsOk r → answer ≡ true)
        × ((answer ≡ L.verifies (c ∷ h) host port algorithm blob)
            × (answer ≡ false → r ≡ err SshSpikeError.host_key_rejected)))

answer_of_check :
    (answer : Bool) (handler : ProbeHandler) (r : Outcome RusshError ℕ)
    → FollowsCheck (ok (answer, handler)) r
    → (r ≢ panic) × (IsOk r → answer ≡ true) × (answer ≡ false → r ≡ err unknown_key)
answer_of_check true handler r f = (f, λ _. refl, λ e. cc)
answer_of_check false handler r f = (λ e. cc, λ (a, e). cc, λ _. f)

module _ (L : Russh) where
  unknown_key-rejected :
      (r : Outcome RusshError ℕ)
      → r ≡ err unknown_key
      → map_err_of (map_connect_error L) r ≡ err SshSpikeError.host_key_rejected
  unfolding map_connect_error
  unknown_key-rejected r e = rw e

  not-IsOk_mapped :
      (r : Outcome RusshError ℕ) → ¬ IsOk r → ¬ IsOk (map_err_of (map_connect_error L) r)
  not-IsOk_mapped r n (a, e) = n (a, map_err_of-eq_ok (map_connect_error L) r e)

module _ (L : Russh) (digest : IsDigest L.sha256) where
  -- The history and the result of a handshake that has shown a key.
  shown-Started :
      (handler : ProbeHandler) (key : HostKey) (c : Call) (h : History) (r : Outcome RusshError ℕ)
      → FollowsCheck (check_server_key L handler key (c ∷ h)).0 r
      → (r ≢ panic)
        × Started L handler.endpoint c h
            (map_err_of (map_connect_error L) r)
            (check_server_key L handler key (c ∷ h)).1
  shown-Started handler key c h r follows = elim (encoded-cases key) [
    | inl bare ↦
        let checked = check-unencodable L handler key (c ∷ h) bare in
        let failed : r ≡ err unknown_key = rw checked at follows in
        (λ e. cc, inl (not-IsOk_mapped L r (λ (a, e). cc), ap (λ p. p.1) checked))
    | inr (algorithm, blob, wire) ↦
        let (_, _, checked) =
          check_server_key_lem L digest handler key (c ∷ h) algorithm blob wire in
        let answer = L.verifies (c ∷ h) handler.endpoint.0 handler.endpoint.1 algorithm blob in
        let (sound, accepted, refused) = answer_of_check answer _ r (rw checked at follows) in
        (
          sound,
          inr (
            algorithm,
            blob,
            answer,
            ap (λ p. p.1) checked,
            λ (a, e). accepted (a, map_err_of-eq_ok (map_connect_error L) r e),
            (refl, λ no_answer. unknown_key-rejected L r (refused no_answer)),
          ),
        )
  ]

module _ (L : Russh) (digest : IsDigest L.sha256) (handshake : Handshake)
    (promise : ChecksKey handshake) where
  -- Starting a transport never panics, and shows at most one key, for the handler's endpoint.
  pub start-Started :
      (handler : ProbeHandler) (c : Call) (h : History)
      → ((start L handshake handler c h).0 ≢ panic)
        × Started L handler.endpoint c h
            (start L handshake handler c h).0
            (start L handshake handler c h).1
  start-Started handler c h = elim (promise (check_server_key L) handler c (c ∷ h)) [
    | inl (fails, sound, same) ↦
        (map_err_of-ne_panic _ _ sound, inl (not-IsOk_mapped L _ fails, same))
    | inr (key, follows, same) ↦
        let (sound, started) = shown-Started L digest handler key c h _ follows in
        (map_err_of-ne_panic _ _ sound, rw same started)
  ]
