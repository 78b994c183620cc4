-- ===== src/Examples.antt =====
-- A world for the examples: a server that agrees to everything, a handshake that shows one key, and
-- a hash with digests of 32 bytes, as instances of the parameters of `Russh` and `Connect`.
pub mod Keys
pub mod Dialling
pub mod Forwarding
pub mod Running
pub mod Transfers
pub mod Lifetimes
pub mod Locking
pub mod Disk
pub mod Uploads
pub mod Errors
pub mod Entering
pub mod Piping
pub mod Refusals
pub mod Verifiers
use rust_core.Base.{ℕ, zero, suc, Bool, true, false, Option, none, some, List, [], ◌∷◌, Text}
use rust_core.Base.{codes, length, replicate, All, refl, inr, arith}
use rust_core.KnownHosts.Base64.{IsByte}
use rust_core.KnownHosts.Fingerprint.{IsDigest}
use rust_core.Russh.{Russh, RusshError, unknown_key, other, HostKey, public_key, Stream, arrival}
use rust_core.Russh.{ended, channel_data, extended_data, exit_status, channel_eof, channel_close}
use rust_core.Russh.{done}
use rust_core.Outcome.{Outcome, ok, err, panic, blocked}
use rust_core.HostKey.{ProbeHandler}
use rust_core.Connect.{Handshake, SshSpikeAuth, password, SshSpikeJump, SshSpikeConnectParams}
use rust_core.Connect.Steps.{FollowsCheck, ChecksKey}

abbrev pub sevens : List ℕ → List ℕ
sevens blob = replicate 32 7

sevens-IsByte : (n : ℕ) → All IsByte (replicate n 7)
sevens-IsByte zero = tt
sevens-IsByte (suc n) = (omega arith, sevens-IsByte n)

pub sevens-IsDigest : IsDigest sevens
sevens-IsDigest = record { bytes = λ _. sevens-IsByte 32; size = λ _. refl }

-- A command's output, of which a part comes after the status.
abbrev pub output : Stream
output = arrival false (channel_data (codes "ab")) (
    arrival true (extended_data (codes "note")) (
      arrival false (exit_status 0) (
        arrival false (channel_data (codes "cd"))
          (arrival false channel_eof (arrival false channel_close ended)))))

-- An object's number is the number of calls made before it.
abbrev pub server : Russh
server = record {
  opens = λ h _. done (length h);
  acknowledges = λ _ _. done tt;
  authenticates = λ _ _. done true;
  decode_secret_key = λ _ _. done 1;
  incoming = λ _ _. output;
  error_text = λ _. codes "failure";
  kind_debug = λ _. codes "Mac";
  verifies = λ _ _ _ _ _. true;
  sha256 = sevens;
}

abbrev pub ed25519 : HostKey
ed25519 = public_key (codes "ssh-ed25519") (some (1 ∷ 2 ∷ 3 ∷ []))

abbrev pub goes_by : Outcome RusshError (Bool × ProbeHandler) → ℕ → Outcome RusshError ℕ
goes_by (ok (true, _)) n = ok n
goes_by (ok (false, _)) n = err unknown_key
goes_by (err e) n = err e
goes_by panic n = panic
goes_by blocked n = blocked

abbrev pub shakes : Handshake
shakes check handler c h =
    (goes_by (check handler ed25519 h).0 (length h), (check handler ed25519 h).1)

pub goes_by-FollowsCheck :
    (r : Outcome RusshError (Bool × ProbeHandler)) (n : ℕ) → FollowsCheck r (goes_by r n)
goes_by-FollowsCheck (ok (true, _)) n = λ e. cc
goes_by-FollowsCheck (ok (false, _)) n = refl
goes_by-FollowsCheck (err e) n = refl
goes_by-FollowsCheck panic n = refl
goes_by-FollowsCheck blocked n = refl

pub shakes-ChecksKey : ChecksKey shakes
shakes-ChecksKey check handler c h =
    inr (ed25519, goes_by-FollowsCheck (check handler ed25519 h).0 (length h), refl)

-- A target behind one hop.
abbrev pub bastion : SshSpikeJump
bastion = record {
  host = codes "bastion";
  port = 22;
  username = codes "ops";
  auth = password (codes "first");
}

abbrev pub params : SshSpikeConnectParams
params = record {
  host = codes "inner";
  port = 2222;
  username = codes "root";
  auth = password (codes "second");
  cols = 80;
  rows = 24;
  via = bastion ∷ [];
  keep_alive_seconds = 15;
}
