-- ===== src/KnownHosts/Fingerprint.antt =====
-- blob_fingerprint of ssh-transport/src/known_hosts.rs, for any hash with digests of 32 bytes.
use rust_core.Base.{ℕ, zero, suc, ◌+◌, ◌*◌, ◌/◌, ◌%◌, ◌<◌, ◌≡◌, ◌≢◌, refl, sym, ap, ◌∙◌, some}
use rust_core.Base.{List, [], ◌∷◌, ◌++◌, arith, length, All, Text, codes, replicate}
use rust_core.KnownHosts.{trim_end_matches, blob_fingerprint}
use rust_core.KnownHosts.Base64.{IsByte, symbol, encoding, base64_encode-encoding}
use rust_core.KnownHosts.Base64.RoundTrip.{value, value-symbol, base64_decode}
use rust_core.KnownHosts.Base64.RoundTrip.{base64_decode-encoding}

-- What SHA-256 promises: a digest is 32 bytes.
pub record IsDigest (sha256 : List ℕ → List ℕ) : Type 0 where
  pub bytes : (blob : List ℕ) → All IsByte (sha256 blob)
  pub size : (blob : List ℕ) → length (sha256 blob) ≡ 32

abbrev pub IsSymbol : ℕ → Type 0
IsSymbol c = (v : ℕ) × (value c ≡ some v)

-- The base64 of some bytes without its padding, and the padding.
unpadded : List ℕ → Text
unpadded [] = []
unpadded (a ∷ []) = symbol (a / 4) ∷ symbol (a % 4 * 16) ∷ []
unpadded (a ∷ b ∷ []) = symbol (a / 4) ∷ symbol (a % 4 * 16 + b / 16) ∷ symbol (b % 16 * 4) ∷ []
unpadded (a ∷ b ∷ c ∷ rest) =
    symbol (a / 4)
    ∷ symbol (a % 4 * 16 + b / 16)
    ∷ symbol (b % 16 * 4 + c / 64)
    ∷ symbol (c % 64)
    ∷ unpadded rest

padding : ℕ → ℕ
padding zero = 0
padding (suc zero) = 2
padding (suc (suc zero)) = 1
padding (suc (suc (suc n))) = padding n

encoding-unpadded :
    (bytes : List ℕ) → encoding bytes ≡ unpadded bytes ++ replicate (padding (length bytes)) b'='
unfolding encoding unpadded padding
encoding-unpadded [] = refl
encoding-unpadded (a ∷ []) = refl
encoding-unpadded (a ∷ b ∷ []) = refl
encoding-unpadded (a ∷ b ∷ c ∷ rest) = rw (encoding-unpadded rest)

symbol-IsSymbol : (v : ℕ) → v < 64 → IsSymbol (symbol v)
symbol-IsSymbol v h = (v, value-symbol v h)

unpadded-IsSymbol : (bytes : List ℕ) → All IsByte bytes → All IsSymbol (unpadded bytes)
unfolding unpadded
unpadded-IsSymbol [] h = tt
unpadded-IsSymbol (a ∷ []) h =
    (symbol-IsSymbol _ (omega arith), (symbol-IsSymbol _ (omega arith), tt))
unpadded-IsSymbol (a ∷ b ∷ []) h = (
  symbol-IsSymbol _ (omega arith),
  (symbol-IsSymbol _ (omega arith), (symbol-IsSymbol _ (omega arith), tt)),
)
unpadded-IsSymbol (a ∷ b ∷ c ∷ rest) h = (
  symbol-IsSymbol _ (omega arith),
  (
    symbol-IsSymbol _ (omega arith),
    (
      symbol-IsSymbol _ (omega arith),
      (symbol-IsSymbol _ (omega arith), unpadded-IsSymbol rest h.1.1.1),
    ),
  ),
)

IsSymbol-ne_pad : (c : ℕ) → IsSymbol c → c ≢ b'='
unfolding value
IsSymbol-ne_pad c (v, e) p = ground arith

trim_end_matches-replicate : (c n : ℕ) → trim_end_matches c (replicate n c) ≡ []
unfolding trim_end_matches
trim_end_matches-replicate c zero = refl
trim_end_matches-replicate c (suc n) = rw (trim_end_matches-replicate c n) (ground arith)

trim_end_matches-append :
    (c n : ℕ) (s : Text) → All (λ x. x ≢ c) s → trim_end_matches c (s ++ replicate n c) ≡ s
unfolding trim_end_matches
trim_end_matches-append c n [] h = trim_end_matches-replicate c n
trim_end_matches-append c n (x ∷ s) h = rw (trim_end_matches-append c n s h.1) (ground (arith, h.0))

All-map {κ μ} :
    {P : ℕ → Type κ} {Q : ℕ → Type μ} (s : Text) → ((x : ℕ) → P x → Q x) → All P s → All Q s
All-map [] f h = tt
All-map (x ∷ s) f h = (f x h.0, All-map s f h.1)

-- Trimming takes the padding away and nothing else.
trim_end_matches-encoding :
    (bytes : List ℕ) → All IsByte bytes → trim_end_matches b'=' (encoding bytes) ≡ unpadded bytes
trim_end_matches-encoding bytes h = rw (encoding-unpadded bytes) (
    trim_end_matches-append b'=' (padding (length bytes)) (unpadded bytes)
      (All-map (unpadded bytes) IsSymbol-ne_pad (unpadded-IsSymbol bytes h)))

length-unpadded : (bytes : List ℕ) → length (unpadded bytes) ≡ (length bytes * 4 + 2) / 3
unfolding unpadded
length-unpadded [] = refl
length-unpadded (a ∷ []) = refl
length-unpadded (a ∷ b ∷ []) = refl
length-unpadded (a ∷ b ∷ c ∷ rest) = omega (arith, length-unpadded rest)

prefix-cancel : (s t : Text) → some (codes "SHA256:" ++ s) ≡ some (codes "SHA256:" ++ t) → s ≡ t
prefix-cancel s t e = cc

-- Of one length, the bytes can be read from the characters before the padding.
unpadded-injective :
    (a b : List ℕ)
    → All IsByte a
    → All IsByte b
    → length a ≡ length b
    → unpadded a ≡ unpadded b
    → a ≡ b
unpadded-injective a b ha hb l e =
    let same : encoding a ≡ encoding b = rw (encoding-unpadded a, encoding-unpadded b, l, e) refl in
    cc (base64_decode-encoding a ha, base64_decode-encoding b hb, ap base64_decode same)

module _ {sha256 : List ℕ → List ℕ} (digest : IsDigest sha256) where
  blob_fingerprint-unpadded :
      (blob : List ℕ)
      → blob_fingerprint sha256 blob ≡ some (codes "SHA256:" ++ unpadded (sha256 blob))
  unfolding blob_fingerprint
  blob_fingerprint-unpadded blob =
      rw (base64_encode-encoding (sha256 blob) (digest.bytes blob))
        (rw (trim_end_matches-encoding (sha256 blob) (digest.bytes blob)))

  -- For a hash with 32-byte digests, the fingerprint of any blob is `SHA256:` and 43 characters of
  -- the base64 alphabet, none of them `=`; computing it never panics.
  pub fingerprint_shape :
      (blob : List ℕ)
      → (t : Text) × (blob_fingerprint sha256 blob ≡ some (codes "SHA256:" ++ t))
        × (length t ≡ 43)
        × All (λ c. IsSymbol c × (c ≢ b'=')) t
  fingerprint_shape blob = (
    unpadded (sha256 blob),
    blob_fingerprint-unpadded blob,
    omega (arith, length-unpadded (sha256 blob), digest.size blob),
    All-map (unpadded (sha256 blob)) (λ c h. (h, IsSymbol-ne_pad c h))
        (unpadded-IsSymbol (sha256 blob) (digest.bytes blob)),
  )

  -- For a hash with 32-byte digests, two blobs with one fingerprint have one digest.
  pub fingerprint_injective :
      (blob other : List ℕ)
      → blob_fingerprint sha256 blob ≡ blob_fingerprint sha256 other
      → sha256 blob ≡ sha256 other
  fingerprint_injective blob other e =
      unpadded-injective (sha256 blob) (sha256 other) (digest.bytes blob) (digest.bytes other)
        (omega (arith, digest.size blob, digest.size other))
        (prefix-cancel _ _
          (sym (blob_fingerprint-unpadded blob) ∙ e ∙ blob_fingerprint-unpadded other))
