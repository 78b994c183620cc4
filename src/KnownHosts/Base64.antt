-- ===== src/KnownHosts/Base64.antt =====
-- What base64_encode of ssh-transport/src/known_hosts.rs writes, in plain arithmetic.
pub mod RoundTrip
use rust_core.Base.{ℕ, zero, suc, ◌+◌, ◌-◌, ◌*◌, ◌/◌, ◌%◌, ◌^◌, ◌≤◌, ◌<◌, ◌≡◌, refl, sym, ap, ◌∙◌}
use rust_core.Base.{Bool, true, false, ◌&&◌, Option, none, some, List, [], ◌∷◌, ◌++◌, arith, ltb}
use rust_core.Base.{◌==◌, if◌then◌else◌, length, get_elem?, All, Text, append_assoc, append-nil}
use rust_core.Base.{every_below, every_below_lem}
use rust_core.Base.Bits.{bit_or-add, bit_and-mod_64}
use rust_core.KnownHosts.{◌>>=◌, get_or, table, chunks, chunk_bits, table_at, encode_chunk}
use rust_core.KnownHosts.{encode_loop, base64_encode}

abbrev pub IsByte : ℕ → Type 0
IsByte b = b < 256

-- The character of a six-bit value in the alphabet of RFC 4648: the letters, upper case first, the digits,
-- `+` and `/`.
unfoldable pub symbol : ℕ → ℕ
symbol v =
    if ltb v 26
    then b'A' + v
    else if ltb v 52
    then b'a' + (v - 26)
    else if ltb v 62
    then b'0' + (v - 52)
    else if v == 62
    then b'+'
    else b'/'

-- RFC 4648, section 4: the six-bit groups of each three bytes, and the two padded ends.
unfoldable pub encoding : List ℕ → Text
encoding [] = []
encoding (a ∷ []) = symbol (a / 4) ∷ symbol (a % 4 * 16) ∷ b'=' ∷ b'=' ∷ []
encoding (a ∷ b ∷ []) =
    symbol (a / 4) ∷ symbol (a % 4 * 16 + b / 16) ∷ symbol (b % 16 * 4) ∷ b'=' ∷ []
encoding (a ∷ b ∷ c ∷ rest) =
    symbol (a / 4)
    ∷ symbol (a % 4 * 16 + b / 16)
    ∷ symbol (b % 16 * 4 + c / 64)
    ∷ symbol (c % 64)
    ∷ encoding rest

chunk_bits_lem : (a b c : ℕ) → b < 256 → c < 256 → chunk_bits a b c ≡ a * 65536 + b * 256 + c
unfolding chunk_bits
chunk_bits_lem a b c hb hc =
    let joined : a * 2 ^ 16 + b * 2 ^ 8 ≡ (a * 256 + b) * 2 ^ 8 = omega arith in
    rw (bit_or-add 16 a (b * 2 ^ 8) (omega arith), joined, bit_or-add 8 (a * 256 + b) c hc)
      (omega arith)

get_elem?-get_or : (xs : List ℕ) (i d : ℕ) → i < length xs → get_elem? xs i ≡ some (get_or xs i d)
get_elem?-get_or [] i d h = absurd (omega arith)
get_elem?-get_or (x ∷ xs) zero d h = refl
get_elem?-get_or (x ∷ xs) (suc i) d h = get_elem?-get_or xs i d (omega arith)

-- The table is that alphabet.
agrees : ℕ → Bool
agrees i = get_or table i b'=' == symbol i

all_agree : every_below agrees 64 ≡ true
unfolding agrees every_below symbol
all_agree = refl

table-symbol : (i : ℕ) → i < 64 → get_or table i b'=' ≡ symbol i
unfolding agrees
table-symbol i h = ground (arith, every_below_lem agrees 64 i all_agree h)

-- The index into the table is in range for every `n`.
table_at-symbol : (n shift : ℕ) → table_at n shift ≡ some (symbol (n / 2 ^ shift % 64))
unfolding table_at
table_at-symbol n shift = rw bit_and-mod_64 (
    get_elem?-get_or table (n / 2 ^ shift % 64) b'=' (omega arith)
    ∙ ap some (table-symbol (n / 2 ^ shift % 64) (omega arith)))

encode_chunk_three :
    (a b c : ℕ)
    → IsByte a
    → IsByte b
    → IsByte c
    → encode_chunk (a ∷ b ∷ c ∷ []) ≡ some (encoding (a ∷ b ∷ c ∷ []))
unfolding encode_chunk encoding
encode_chunk_three a b c ha hb hc =
    simp table_at-symbol (rw (chunk_bits_lem a b c hb hc) (ground arith))

encode_chunk_two :
    (a b : ℕ) → IsByte a → IsByte b → encode_chunk (a ∷ b ∷ []) ≡ some (encoding (a ∷ b ∷ []))
unfolding encode_chunk encoding
encode_chunk_two a b ha hb =
    simp table_at-symbol (rw (chunk_bits_lem a b 0 hb (omega arith)) (ground arith))

encode_chunk_one : (a : ℕ) → IsByte a → encode_chunk (a ∷ []) ≡ some (encoding (a ∷ []))
unfolding encode_chunk encoding
encode_chunk_one a ha =
    simp table_at-symbol (rw (chunk_bits_lem a 0 0 (omega arith) (omega arith)) (ground arith))

encode_loop-encoding :
    (out : Text) (bytes : List ℕ)
    → All IsByte bytes
    → encode_loop out (chunks bytes) ≡ some (out ++ encoding bytes)
unfolding encode_loop chunks encoding
encode_loop-encoding out [] h = rw append-nil
encode_loop-encoding out (a ∷ []) h = rw (encode_chunk_one a h.0)
encode_loop-encoding out (a ∷ b ∷ []) h = rw (encode_chunk_two a b h.0 h.1.0)
encode_loop-encoding out (a ∷ b ∷ c ∷ rest) h = rw (encode_chunk_three a b c h.0 h.1.0 h.1.1.0) (
    encode_loop-encoding (out ++ encoding (a ∷ b ∷ c ∷ [])) rest h.1.1.1
    ∙ ap some (append_assoc out (encoding (a ∷ b ∷ c ∷ [])) (encoding rest)))

-- On any bytes `base64_encode` returns, with no index out of range, the base64 of RFC 4648.
pub base64_encode-encoding :
    (bytes : List ℕ) → All IsByte bytes → base64_encode bytes ≡ some (encoding bytes)
unfolding base64_encode
base64_encode-encoding bytes h = encode_loop-encoding [] bytes h
