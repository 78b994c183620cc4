-- ===== src/Connect/Attribution.antt =====
-- What of `connect_inner` of ssh-transport/src/lib.rs can fail to authenticate.
use rust_core.Base.{ℕ, ◌≡◌, ◌≢◌, refl, Bool, true, false, Option, none, some, List, [], Text}
use rust_core.Base.{last?, arith}
use rust_core.KnownHosts.Fingerprint.{IsDigest}
use rust_core.Russh.{Russh, RusshError, unknown_key, no_common_algo, other, Reply, done, failed}
use rust_core.Russh.{hangs, History}
use rust_core.Outcome.{Outcome, ok, err, panic, blocked, M, SshSpikeError, continue, map_err_of}
use rust_core.Outcome.{from_reply}
use rust_core.Connect.{Handshake, SshSpikeJump, SshSpikeConnectParams, jump_from, open_jump}
use rust_core.Connect.{dial_hop, open_shell, open_session, map_connect_error}
use rust_core.Connect.Steps.{ChecksKey}

-- What holds of the message and of the history after it, if the code failed to authenticate.
abbrev pub OnAuth :
    {A : Type 0} → (Text → History → Type 0) → Outcome SshSpikeError A × History → Type 0
OnAuth F (r, h) = (m : Text) → r ≡ err (SshSpikeError.auth m) → F m h

pub continue-OnAuth :
    {A B : Type 0} (F : Text → History → Type 0) (f : A → M SshSpikeError B)
    (r : Outcome SshSpikeError A) (h : History)
    → OnAuth F (r, h)
    → ((a : A) → r ≡ ok a → OnAuth F (f a h))
    → OnAuth F (continue f r h)
continue-OnAuth F f (ok a) h own next = next a refl
continue-OnAuth F f (err x) h own next = λ m e. own m cc
continue-OnAuth F f panic h own next = λ m e. cc
continue-OnAuth F f blocked h own next = λ m e. cc

-- Code that fails in other ways only.
abbrev pub HasNoAuth : {A : Type 0} → Outcome SshSpikeError A × History → Type 0
HasNoAuth r = OnAuth (λ _ _. ⊥) r

from_reply-HasNoAuth :
    {A : Type 0} (wrap : RusshError → SshSpikeError) (r : Reply RusshError A) (h : History)
    → ((x : RusshError) (m : Text) → wrap x ≢ SshSpikeError.auth m)
    → HasNoAuth (from_reply wrap r, h)
from_reply-HasNoAuth wrap (done a) h never m e = cc
from_reply-HasNoAuth wrap (failed x) h never m e = never x m cc
from_reply-HasNoAuth wrap hangs h never m e = cc

pub auth_injective : {s t : Text} → SshSpikeError.auth s ≡ SshSpikeError.auth t → s ≡ t
auth_injective e = cc

module _ (L : Russh) where
  map_connect_error-HasNoAuth :
      (r : Outcome RusshError ℕ) (h : History) → HasNoAuth (map_err_of (map_connect_error L) r, h)
  unfolding map_connect_error
  map_connect_error-HasNoAuth (ok a) h m e = cc
  map_connect_error-HasNoAuth (err unknown_key) h m e = cc
  map_connect_error-HasNoAuth (err (no_common_algo kind)) h m e = cc
  map_connect_error-HasNoAuth (err (other n)) h m e = cc
  map_connect_error-HasNoAuth panic h m e = cc
  map_connect_error-HasNoAuth blocked h m e = cc

  jump_from-HasNoAuth :
      (o : Option ℕ) (d : SshSpikeJump) (h : History) → HasNoAuth (jump_from L o d h)
  unfolding jump_from
  jump_from-HasNoAuth none d h m e = cc
  jump_from-HasNoAuth (some parent) d h m e = from_reply-HasNoAuth _ _ [] (λ x m e. cc) m e

  open_shell-HasNoAuth :
      (handle cols rows : ℕ) (h : History) → HasNoAuth (open_shell L handle cols rows h)
  unfolding open_shell
  open_shell-HasNoAuth handle cols rows h m e = ground arith

module _ (L : Russh) (digest : IsDigest L.sha256) (handshake : Handshake)
    (promise : ChecksKey handshake) where
  pub dial_hop-HasNoAuth :
      (ka : ℕ) (is_first is_target : Bool) (parents : List ℕ) (d : SshSpikeJump) (h : History)
      → HasNoAuth (dial_hop L handshake ka is_first is_target parents d h)
  unfolding dial_hop open_jump
  dial_hop-HasNoAuth ka true is_target parents d h = map_connect_error-HasNoAuth L _ []
  dial_hop-HasNoAuth ka false is_target parents d h =
      let jump = jump_from L (last? parents) d h in
      continue-OnAuth (λ _ _. ⊥) _ jump.0 jump.1 (jump_from-HasNoAuth L (last? parents) d h)
        λ channel _. map_connect_error-HasNoAuth L _ []

  pub open_session-HasNoAuth :
      (p : SshSpikeConnectParams) (connections : List ℕ × Option ℕ) (h : History)
      → HasNoAuth (open_session L handshake p connections h)
  unfolding open_session
  open_session-HasNoAuth p (parents, none) h = λ m e. cc
  open_session-HasNoAuth p (parents, some handle) h =
      let shell = open_shell L handle p.cols p.rows h in
      continue-OnAuth (λ _ _. ⊥) _ shell.0 shell.1 (open_shell-HasNoAuth L handle p.cols p.rows h)
        λ channel _ m e. cc
