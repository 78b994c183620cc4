-- ===== src/KnownHosts/Base64/RoundTrip.antt =====
-- A decoder for the base64 that ssh-transport/src/known_hosts.rs writes, and what it reads back.
use rust_core.Base.{ℕ, ◌+◌, ◌-◌, ◌*◌, ◌/◌, ◌%◌, ◌<◌, ◌≡◌, refl, ap, ◌∙◌, Bool, true, false, ◌&&◌}
use rust_core.Base.{Option, none, some, List, [], ◌∷◌, arith, ◌==◌, if◌then◌else◌, in_range, All}
use rust_core.Base.{Text, every_below, every_below_lem}
use rust_core.KnownHosts.{◌>>=◌, base64_encode}
use rust_core.KnownHosts.Base64.{IsByte, symbol, encoding, base64_encode-encoding}

-- The six-bit value of a character of the alphabet.
unfoldable pub value : ℕ → Option ℕ
value c =
    if in_range b'A' b'Z' c
    then some (c - 65)
    else if in_range b'a' b'z' c
    then some (c - 71)
    else if in_range b'0' b'9' c
    then some (c + 4)
    else if c == b'+'
    then some 62
    else if c == b'/'
    then some 63
    else none

abbrev is_end : Text → Bool
is_end [] = true
is_end (c ∷ s) = false

-- The bytes of a group that begins with the values `p` and `q`; padding stands only at the end.
decode_group : ℕ → ℕ → ℕ → ℕ → Text → Option (List ℕ) → Option (List ℕ)
decode_group p q y z rest more = elim (value y) [
  | none ↦ if y == b'=' && z == b'=' && is_end rest then some ((p * 4 + q / 16) ∷ []) else none
  | some r ↦ elim (value z) [
    | none ↦
        if z == b'=' && is_end rest
        then some ((p * 4 + q / 16) ∷ (q % 16 * 16 + r / 4) ∷ [])
        else none
    | some s ↦
        more >>= λ bytes. some ((p * 4 + q / 16) ∷ (q % 16 * 16 + r / 4) ∷ (r % 4 * 64 + s) ∷ bytes)
  ]
]

unfoldable pub base64_decode : Text → Option (List ℕ)
unfolding decode_group
base64_decode [] = some []
base64_decode (w ∷ x ∷ y ∷ z ∷ rest) =
    let more = base64_decode rest in
    value w >>= λ p. value x >>= λ q. decode_group p q y z rest more
base64_decode _ = none

reads_back : ℕ → Bool
reads_back v = elim (value (symbol v)) [ none ↦ false | some w ↦ v == w ]

all_read_back : every_below reads_back 64 ≡ true
unfolding reads_back every_below value symbol
all_read_back = refl

reads_back-value : (v : ℕ) → reads_back v ≡ true → value (symbol v) ≡ some v
unfolding reads_back
reads_back-value v e = ground arith

pub value-symbol : (v : ℕ) → v < 64 → value (symbol v) ≡ some v
value-symbol v h = reads_back-value v (every_below_lem reads_back 64 v all_read_back h)

decode_group_one :
    (p q : ℕ) → decode_group p q b'=' b'=' [] (some []) ≡ some ((p * 4 + q / 16) ∷ [])
unfolding decode_group value
decode_group_one p q = refl

decode_group_two :
    (p q y r : ℕ)
    → value y ≡ some r
    → decode_group p q y b'=' [] (some []) ≡ some ((p * 4 + q / 16) ∷ (q % 16 * 16 + r / 4) ∷ [])
unfolding decode_group
decode_group_two p q y r e = rw (e, decode_group) (unfold value in refl)

decode_group_three :
    (p q y z r s : ℕ) (rest : Text) (more : List ℕ)
    → value y ≡ some r
    → value z ≡ some s
    → decode_group p q y z rest (some more)
      ≡ some ((p * 4 + q / 16) ∷ (q % 16 * 16 + r / 4) ∷ (r % 4 * 64 + s) ∷ more)
unfolding decode_group
decode_group_three p q y z r s rest more e f = rw (e, f, decode_group)

-- One round of the decoder, with its parts shut.
decode_step :
    (p q y z : ℕ) (rest : Text)
    → p < 64
    → q < 64
    → base64_decode (symbol p ∷ symbol q ∷ y ∷ z ∷ rest)
      ≡ decode_group p q y z rest (base64_decode rest)
unfolding base64_decode
decode_step p q y z rest hp hq = rw (value-symbol p hp, value-symbol q hq)

decode-nil : base64_decode [] ≡ some []
unfolding base64_decode
decode-nil = refl

-- Two lists of numbers that are equal item by item.
cons_eq : {a a' : ℕ} {s s' : List ℕ} → a ≡ a' → s ≡ s' → (a ∷ s) ≡ (a' ∷ s')
cons_eq e f = cc

pub base64_decode-encoding :
    (bytes : List ℕ) → All IsByte bytes → base64_decode (encoding bytes) ≡ some bytes
unfolding encoding
base64_decode-encoding [] h = decode-nil
base64_decode-encoding (a ∷ []) h =
    decode_step (a / 4) (a % 4 * 16) b'=' b'=' [] (omega arith) (omega arith)
    ∙ rw (decode-nil, decode_group_one) (ap some (cons_eq (omega arith) refl))
base64_decode-encoding (a ∷ b ∷ []) h =
    decode_step (a / 4) (a % 4 * 16 + b / 16) _ b'=' [] (omega arith) (omega arith)
    ∙ rw decode-nil (
        decode_group_two _ _ _ (b % 16 * 4) (value-symbol (b % 16 * 4) (omega arith))
        ∙ ap some (cons_eq (omega arith) (cons_eq (omega arith) refl)))
base64_decode-encoding (a ∷ b ∷ c ∷ rest) h =
    decode_step (a / 4) (a % 4 * 16 + b / 16) _ _ (encoding rest) (omega arith) (omega arith)
    ∙ rw (base64_decode-encoding rest h.1.1.1) (
        decode_group_three _ _ _ _ (b % 16 * 4 + c / 64) (c % 64) (encoding rest) rest
          (value-symbol (b % 16 * 4 + c / 64) (omega arith)) (value-symbol (c % 64) (omega arith))
        ∙ ap some (cons_eq (omega arith) (cons_eq (omega arith) (cons_eq (omega arith) refl))))

-- Decoding what `base64_encode` writes for any bytes gives the bytes.
pub base64_decode-base64_encode :
    (bytes : List ℕ) → All IsByte bytes → (base64_encode bytes >>= base64_decode) ≡ some bytes
base64_decode-base64_encode bytes h =
    rw (base64_encode-encoding bytes h) (base64_decode-encoding bytes h)
