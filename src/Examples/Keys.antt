-- ===== src/Examples/Keys.antt =====
-- The theorems about host keys (ssh-transport/src/known_hosts.rs and the key check) at concrete data.
use rust_core.KnownHosts.Wire.{ed_digest, fingerprint_is_sha256_unpadded, pinned_lem, raw_blob}
use rust_core.KnownHosts.Wire.{ed_blob, count_up, is_plausible_blob-raw_blob}
use rust_core.KnownHosts.Wire.{plausibility_is_android_ported_byte_exactly}
use rust_core.KnownHosts.{is_algorithm, has_family, slice, from_be_bytes, ◌>>=◌, base64_encode}
use rust_core.KnownHosts.{blob_fingerprint, is_plausible_blob, encode_chunk, table_at}
use rust_core.Base.{leb, ◌&&◌, true, ℕ, ◌≡◌, refl, ◌≢◌, ◌↔◌, Bool, false, some, List, [], ◌∷◌}
use rust_core.Base.{◌++◌, length, All, Text, codes, arith}
use rust_core.Base.Utf8.{utf8_error}
use rust_core.KnownHosts.Base64.{IsByte, encoding, base64_encode-encoding}
use rust_core.KnownHosts.Base64.RoundTrip.{base64_decode, base64_decode-base64_encode}
use rust_core.KnownHosts.Fingerprint.{IsDigest, IsSymbol, fingerprint_shape, fingerprint_injective}
use rust_core.KnownHosts.Plausible.{IsKeyBlob, is_plausible_blob_iff}
use rust_core.Russh.{verify}
use rust_core.Outcome.{ok}
use rust_core.HostKey.{ProbeHandler, check_server_key}
use rust_core.HostKey.Verified.{check_server_key_lem}
use rust_core.Examples.{sevens, sevens-IsDigest, server, ed25519}

-- The beginning of an `ssh-ed25519` blob.
abbrev ed25519_blob : List ℕ
ed25519_blob = 0 ∷ 0 ∷ 0 ∷ 11 ∷ (codes "ssh-ed25519" ++ (9 ∷ []))

abbrev short_bytes : List ℕ
short_bytes = 255 ∷ 0 ∷ 7 ∷ 200 ∷ []

short_bytes-IsByte : All IsByte short_bytes
short_bytes-IsByte = (omega arith, (omega arith, (omega arith, (omega arith, tt))))

ed25519_blob-IsByte : All IsByte ed25519_blob
ed25519_blob-IsByte = ground arith

base64_encode-encoding_example : base64_encode short_bytes ≡ some (encoding short_bytes)
base64_encode-encoding_example = base64_encode-encoding short_bytes short_bytes-IsByte

short_bytes_text : base64_encode short_bytes ≡ some (codes "/wAHyA==")
unfolding base64_encode encode_chunk table_at
short_bytes_text = refl

base64_decode-base64_encode_example :
    (base64_encode short_bytes >>= base64_decode) ≡ some short_bytes
base64_decode-base64_encode_example = base64_decode-base64_encode short_bytes short_bytes-IsByte

fingerprint_shape_example :
    (t : Text) × (blob_fingerprint sevens ed25519_blob ≡ some (codes "SHA256:" ++ t))
    × (length t ≡ 43)
    × All (λ c. IsSymbol c × (c ≢ b'=')) t
fingerprint_shape_example = fingerprint_shape sevens-IsDigest ed25519_blob

fingerprint_injective_example : sevens ed25519_blob ≡ sevens (ed25519_blob ++ (1 ∷ []))
unfolding blob_fingerprint
fingerprint_injective_example =
    fingerprint_injective sevens-IsDigest ed25519_blob (ed25519_blob ++ (1 ∷ [])) refl

is_plausible_blob_iff_example :
    (b : Bool) × (is_plausible_blob ed25519_blob ≡ some b) × ((b ≡ true) ↔ IsKeyBlob ed25519_blob)
is_plausible_blob_iff_example = is_plausible_blob_iff ed25519_blob ed25519_blob-IsByte

ed25519_plausible : is_plausible_blob ed25519_blob ≡ some true
unfolding is_plausible_blob has_family from_be_bytes slice is_algorithm utf8_error
ed25519_plausible = refl

abbrev bastion_handler : ProbeHandler
bastion_handler = record {
  accepted_host_keys = codes "earlier" ∷ [];
  endpoint = (codes "bastion", 22);
  has_router = false;
}

check_server_key_lem_example :
    (fingerprint : Text) × (blob_fingerprint sevens (1 ∷ 2 ∷ 3 ∷ []) ≡ some fingerprint)
    × (check_server_key server bastion_handler ed25519 [] ≡ (
      ok (
        true,
        record bastion_handler {
          accepted_host_keys =
              codes "earlier" ∷ (codes "ssh-ed25519" ++ (codes ":" ++ fingerprint)) ∷ [];
        },
      ),
      verify (codes "bastion") 22 (codes "ssh-ed25519") (1 ∷ 2 ∷ 3 ∷ []) true ∷ [],
    ))
check_server_key_lem_example =
    check_server_key_lem server sevens-IsDigest bastion_handler ed25519 [] (codes "ssh-ed25519")
      (1 ∷ 2 ∷ 3 ∷ []) refl

-- The repository's own test.
plausibility_run : plausibility_is_android_ported_byte_exactly ≡ true
unfolding plausibility_is_android_ported_byte_exactly is_plausible_blob raw_blob ed_blob slice
    is_algorithm has_family from_be_bytes utf8_error
plausibility_run = refl

-- The fixture is a blob of two parts.
ed_blob-raw_blob : ed_blob ≡ raw_blob (codes "ssh-ed25519" ∷ count_up 1 32 ∷ [])
unfolding ed_blob raw_blob
ed_blob-raw_blob = refl

raw_blob_run :
    is_plausible_blob (raw_blob (codes "hello" ∷ (1 ∷ 2 ∷ 3 ∷ []) ∷ []))
    ≡ some (leb 4 5 && is_algorithm (codes "hello"))
raw_blob_run = is_plausible_blob-raw_blob (codes "hello") ((1 ∷ 2 ∷ 3 ∷ []) ∷ []) (omega arith)

-- A hash that has this one digest.
fixed-IsByte : All IsByte ed_digest
fixed-IsByte = ground arith

fixed-IsDigest : IsDigest (λ _. ed_digest)
fixed-IsDigest = record { bytes = λ _. fixed-IsByte; size = λ _. refl }

pinned_run : fingerprint_is_sha256_unpadded (λ _. ed_digest) ≡ true
pinned_run = pinned_lem (λ _. ed_digest) fixed-IsDigest refl
