-- ===== src/KnownHosts.antt =====
-- ssh-transport/src/known_hosts.rs: base64, the fingerprint of a host-key blob, and the test that a
-- blob looks like a key. A slice of bytes is a list of numbers; `none` is a Rust panic, as on an
-- index out of range. SHA-256 (crate `sha2`) is the parameter `sha256`.
pub mod Base64
pub mod Fingerprint
pub mod Families
pub mod Plausible
pub mod Wire
use rust_core.Base.{ℕ, zero, suc, ◌+◌, ◌-◌, ◌*◌, ◌/◌, ◌^◌, Bool, true, false, ◌&&◌, ◌||◌, Option}
use rust_core.Base.{none, some, List, [], ◌∷◌, ◌++◌, bit_and, bit_or, ltb, leb, ◌==◌}
use rust_core.Base.{if◌then◌else◌, in_range, length, get_elem?, take, drop, all, Text, codes}
use rust_core.Base.{starts_with}
use rust_core.Base.Utf8.{utf8_error}

infixl 5 ◌>>=◌
abbrev pub ◌>>=◌ {ℓ κ} : {A : Type ℓ} {B : Type κ} → Option A → (A → Option B) → Option B
none >>= f = none
some a >>= f = f a

abbrev pub get_or {ℓ} : {A : Type ℓ} → List A → ℕ → A → A
get_or xs i d = elim (get_elem? xs i) [ none ↦ d | some x ↦ x ]

-- `TABLE`
abbrev pub table : Text
table = codes "ABCDEFGHIJKLMNOPQRSTUVWXYZabcdefghijklmnopqrstuvwxyz0123456789+/"

-- `chunks(3)`
unfoldable pub chunks : List ℕ → List (List ℕ)
chunks [] = []
chunks (a ∷ []) = (a ∷ []) ∷ []
chunks (a ∷ b ∷ []) = (a ∷ b ∷ []) ∷ []
chunks (a ∷ b ∷ c ∷ rest) = (a ∷ b ∷ c ∷ []) ∷ chunks rest

-- The three bytes of a chunk as a `u32`: three bytes shifted by at most 16 bits cannot overflow it.
unfoldable pub chunk_bits : ℕ → ℕ → ℕ → ℕ
chunk_bits b0 b1 b2 = bit_or (bit_or (b0 * 2 ^ 16) (b1 * 2 ^ 8)) b2

-- `TABLE[(n >> shift) as usize & 63]`
unfoldable pub table_at : ℕ → ℕ → Option ℕ
table_at n shift = get_elem? table (bit_and (n / 2 ^ shift) 63)

-- The body of the loop: the four characters that a chunk adds.
unfoldable pub encode_chunk : List ℕ → Option Text
unfolding chunk_bits
encode_chunk chunk = do
  b0 ← get_elem? chunk 0
  let n = chunk_bits b0 (get_or chunk 1 0) (get_or chunk 2 0)
  s0 ← table_at n 18
  s1 ← table_at n 12
  s2 ← if ltb 1 (length chunk) then table_at n 6 else some b'='
  s3 ← if ltb 2 (length chunk) then table_at n 0 else some b'='
  some (s0 ∷ s1 ∷ s2 ∷ s3 ∷ [])

unfoldable pub encode_loop : Text → List (List ℕ) → Option Text
encode_loop out [] = some out
encode_loop out (chunk ∷ rest) = do four ← encode_chunk chunk; encode_loop (out ++ four) rest

unfoldable pub base64_encode : List ℕ → Option Text
unfolding encode_loop chunks
base64_encode data_bytes = encode_loop [] (chunks data_bytes)

abbrev is_empty : Text → Bool
is_empty [] = true
is_empty (x ∷ s) = false

-- `trim_end_matches(c)`
unfoldable pub trim_end_matches : ℕ → Text → Text
trim_end_matches c [] = []
trim_end_matches c (x ∷ s) =
    let rest = trim_end_matches c s in if x == c && is_empty rest then [] else x ∷ rest

unfoldable pub blob_fingerprint : (List ℕ → List ℕ) → List ℕ → Option Text
blob_fingerprint sha256 blob = do
  encoded ← base64_encode (sha256 blob)
  some (codes "SHA256:" ++ trim_end_matches b'=' encoded)

-- `u32::from_be_bytes`
unfoldable pub from_be_bytes : ℕ → ℕ → ℕ → ℕ → ℕ
from_be_bytes b0 b1 b2 b3 = b0 * 2 ^ 24 + b1 * 2 ^ 16 + b2 * 2 ^ 8 + b3

-- `&blob[from..to]`
unfoldable pub slice : ℕ → ℕ → List ℕ → Option (List ℕ)
slice from to blob =
    if leb from to && leb to (length blob) then some (take (to - from) (drop from blob)) else none

unfoldable pub has_family : Text → Bool
has_family alg =
    starts_with alg (codes "ssh-")
    || starts_with alg (codes "ecdsa-")
    || starts_with alg (codes "sk-ssh-")
    || starts_with alg (codes "x509v3-")

abbrev pub is_printable : ℕ → Bool
is_printable b = in_range 32 126 b

-- The test on the algorithm's bytes.
unfoldable pub is_algorithm : List ℕ → Bool
is_algorithm alg = elim (utf8_error alg) [
  | some e ↦ false
  | none ↦ has_family alg && all is_printable alg
]

unfoldable pub is_plausible_blob : List ℕ → Option Bool
is_plausible_blob blob = if ltb (length blob) 4 then some false else do
  b0 ← get_elem? blob 0
  b1 ← get_elem? blob 1
  b2 ← get_elem? blob 2
  b3 ← get_elem? blob 3
  let len = from_be_bytes b0 b1 b2 b3
  (if ltb len 4 || ltb (length blob - 4) len
      then some false
      else do alg ← slice 4 (4 + len) blob; some (is_algorithm alg))
