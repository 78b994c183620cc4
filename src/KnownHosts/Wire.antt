-- ===== src/KnownHosts/Wire.antt =====
-- The blobs that the tests of ssh-transport/src/known_hosts.rs are written with: length-prefixed parts,
-- as keys are on the wire.
use rust_core.Base.{Option, Text, text_eq, starts_with, ◌||◌, ◌==◌, ◌+◌, ℕ, zero, suc, ◌%◌, ◌^◌}
use rust_core.Base.{◌<◌, ◌≡◌, refl, ap, ◌∙◌, sym, Bool, true, false, ◌&&◌, not, some, none, List}
use rust_core.Base.{[], ◌∷◌, ◌++◌, append_assoc, append-nil, codes, arith, leb, length, replicate}
use rust_core.Base.{if◌then◌else◌, take-length_append, length-append}
use rust_core.KnownHosts.{trim_end_matches, is_algorithm, is_plausible_blob, blob_fingerprint}
use rust_core.KnownHosts.{base64_encode, encode_chunk, table_at}
use rust_core.KnownHosts.Fingerprint.{IsDigest, fingerprint_shape}
use rust_core.KnownHosts.Plausible.{to_be_bytes, check_tail, is_plausible_blob-check_tail}
use rust_core.KnownHosts.Plausible.{from_be_bytes-to_be_bytes}

-- `(p.len() as u32).to_be_bytes()`
abbrev pub prefix : List ℕ → List ℕ
prefix p = to_be_bytes (length p % 2 ^ 32)

abbrev pub raw_loop : List ℕ → List (List ℕ) → List ℕ
raw_loop out [] = out
raw_loop out (p ∷ parts) = raw_loop ((out ++ prefix p) ++ p) parts

unfoldable pub raw_blob : List (List ℕ) → List ℕ
raw_blob parts = raw_loop [] parts

-- `(1..=n).collect()`, from `first` on.
abbrev pub count_up : ℕ → ℕ → List ℕ
count_up first zero = []
count_up first (suc n) = first ∷ count_up (suc first) n

unfoldable pub ed_blob : List ℕ
ed_blob = ((to_be_bytes 11 ++ codes "ssh-ed25519") ++ to_be_bytes 32) ++ count_up 1 32

-- The asserts of the test `plausibility_is_android_ported_byte_exactly`; a panic fails it.
abbrev passes : Bool → List ℕ → Bool
passes expected blob = elim (is_plausible_blob blob) [
  | none ↦ false
  | some b ↦ if expected then b else not b
]

unfoldable pub plausibility_is_android_ported_byte_exactly : Bool
plausibility_is_android_ported_byte_exactly =
    passes true ed_blob
    && passes true (raw_blob (codes "ssh-rsa" ∷ replicate 32 0xab ∷ []))
    && passes false (raw_blob (codes "AAAA" ∷ []))
    && passes false (codes "ABCDEF")
    && passes false []
    && passes false (0 ∷ 0 ∷ 0 ∷ [])
    && passes false (0 ∷ 0 ∷ 1 ∷ 0 ∷ b's' ∷ [])
    && passes false (raw_blob (codes "hello" ∷ (1 ∷ 2 ∷ 3 ∷ 4 ∷ 5 ∷ 6 ∷ 7 ∷ 8 ∷ []) ∷ []))

-- `fp.contains('=')`
abbrev has_padding : Text → Bool
has_padding [] = false
has_padding (c ∷ s) = c == b'=' || has_padding s

-- The asserts of the test `fingerprint_is_sha256_unpadded`; a panic fails it.
abbrev is_pinned : Option Text → Option Text → Bool
is_pinned (some fp) (some rsa) =
    starts_with fp (codes "SHA256:")
    && not (has_padding fp)
    && (length fp == 7 + 43)
    && text_eq fp (codes "SHA256:mKqU+0K8OhKmA8bBQi9Rz0Q5l7/g160hIP+rJYSTNj4")
    && starts_with rsa (codes "SHA256:")
is_pinned _ _ = false

unfoldable pub fingerprint_is_sha256_unpadded : (List ℕ → List ℕ) → Bool
fingerprint_is_sha256_unpadded sha256 =
    is_pinned (blob_fingerprint sha256 ed_blob)
      (blob_fingerprint sha256 (raw_blob (codes "ssh-rsa" ∷ replicate 32 0xab ∷ [])))

-- SHA-256 of the fixture.
abbrev pub ed_digest : List ℕ
ed_digest =
    152 ∷ 170 ∷ 148 ∷ 251 ∷ 66 ∷ 188 ∷ 58 ∷ 18 ∷ 166 ∷ 3 ∷ 198 ∷ 193 ∷ 66 ∷ 47 ∷ 81 ∷ 207 ∷ 68 ∷ 57
    ∷ 151 ∷ 191 ∷ 224 ∷ 215 ∷ 173 ∷ 33 ∷ 32 ∷ 255 ∷ 171 ∷ 37 ∷ 132 ∷ 147 ∷ 54 ∷ 62 ∷ []

raw_loop-append :
    (out more : List ℕ) (parts : List (List ℕ))
    → raw_loop (out ++ more) parts ≡ out ++ raw_loop more parts
raw_loop-append out more [] = refl
raw_loop-append out more (p ∷ parts) =
    rw (append_assoc out more (prefix p), append_assoc out (more ++ prefix p) p)
      (raw_loop-append out ((more ++ prefix p) ++ p) parts)

raw_blob-cons :
    (p : List ℕ) (parts : List (List ℕ))
    → length p < 2 ^ 32
    → raw_blob (p ∷ parts) ≡ to_be_bytes (length p) ++ (p ++ raw_blob parts)
unfolding raw_blob
raw_blob-cons p parts fits =
    let size : length p % 2 ^ 32 ≡ length p = omega (arith, fits) in
    ap (λ out. raw_loop out parts) (sym (append-nil (prefix p ++ p)))
    ∙ raw_loop-append (prefix p ++ p) [] parts
    ∙ append_assoc (prefix p) p (raw_loop [] parts)
    ∙ rw size refl

-- A blob of length-prefixed parts, the first of a length that fits into its prefix: the test passes
-- it exactly if the first part has at least four bytes and is an algorithm's name, whatever the
-- other parts are.
pub is_plausible_blob-raw_blob :
    (alg : List ℕ) (parts : List (List ℕ))
    → length alg < 2 ^ 32
    → is_plausible_blob (raw_blob (alg ∷ parts)) ≡ some (leb 4 (length alg) && is_algorithm alg)
unfolding check_tail
is_plausible_blob-raw_blob alg parts fits =
    rw
      (
        raw_blob-cons alg parts fits,
        is_plausible_blob-check_tail,
        from_be_bytes-to_be_bytes (length alg) fits,
      )
      (ground (arith, length-append alg (raw_blob parts), take-length_append alg (raw_blob parts)))

fixture_fingerprint :
    (sha256 : List ℕ → List ℕ)
    → sha256 ed_blob ≡ ed_digest
    → blob_fingerprint sha256 ed_blob
      ≡ some (codes "SHA256:mKqU+0K8OhKmA8bBQi9Rz0Q5l7/g160hIP+rJYSTNj4")
unfolding blob_fingerprint base64_encode encode_chunk table_at trim_end_matches
fixture_fingerprint sha256 e = rw e refl

-- A hash with 32-byte digests that has the digest of SHA-256 for the fixture passes the test.
pub pinned_lem :
    (sha256 : List ℕ → List ℕ)
    → IsDigest sha256
    → sha256 ed_blob ≡ ed_digest
    → fingerprint_is_sha256_unpadded sha256 ≡ true
unfolding fingerprint_is_sha256_unpadded
pinned_lem sha256 digest e =
    let (t, shape, _, _) =
      fingerprint_shape digest (raw_blob (codes "ssh-rsa" ∷ replicate 32 0xab ∷ [])) in
    rw (fixture_fingerprint sha256 e, shape) refl
