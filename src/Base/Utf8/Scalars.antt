-- ===== src/Base/Utf8/Scalars.antt =====
-- The validation of UTF-8 against the encoding of Unicode's scalar values.
use Prim.Native.Nat.{ℕ, ◌+◌, ◌/◌, ◌%◌, ◌<◌, ◌≤◌}
use mathlib.Core.Path.{◌≡◌, refl}
use mathlib.Core.Logic.{◌⊎◌, inl, inr}
use mathlib.Core.Option.{none, some}
use mathlib.Core.List.{List, [], ◌∷◌, ◌++◌}
use native.Mathlib.Omega.{arith}
use mathlib.Core.Bool.{false}
use rust_core.Base.Tests.{Bool-cases, ltb, ◌==◌, if◌then◌else◌, in_range}
use rust_core.Base.Lists.{All}
use rust_core.Base.Utf8.{Range, tail_byte, following, validate}

-- A code point that is no surrogate.
abbrev pub IsScalar : ℕ → Type 0
IsScalar c = (c < 0xd800) ⊎ ((0xe000 ≤ c) × (c < 0x110000))

-- RFC 3629.
unfoldable pub encode : ℕ → List ℕ
encode c =
    if ltb c 0x80
    then c ∷ []
    else if ltb c 0x800
    then (0xc0 + c / 64) ∷ (0x80 + c % 64) ∷ []
    else if ltb c 0x10000
    then (0xe0 + c / 4096) ∷ (0x80 + c / 64 % 64) ∷ (0x80 + c % 64) ∷ []
    else (0xf0 + c / 262144) ∷ (0x80 + c / 4096 % 64) ∷ (0x80 + c / 64 % 64) ∷ (0x80 + c % 64) ∷ []

unfoldable pub encode_all : List ℕ → List ℕ
encode_all [] = []
encode_all (c ∷ cs) = encode c ++ encode_all cs

-- A sequence of bytes that is the encoding of some scalar values.
abbrev pub IsUtf8 : List ℕ → Type 0
IsUtf8 bytes = (cs : List ℕ) × All IsScalar cs × (bytes ≡ encode_all cs)

abbrev IsValid : List ℕ → Type 0
IsValid s = (start : ℕ) → validate start 0 [] s ≡ none

-- The bytes are in the ranges, and `Q` holds of what follows them.
abbrev pub Follows : (List ℕ → Type 0) → List Range → List ℕ → Type 0
Follows Q [] s = Q s
Follows Q ((lo, hi) ∷ rs) [] = ⊥
Follows Q ((lo, hi) ∷ rs) (c ∷ s) = (lo ≤ c) × (c ≤ hi) × Follows Q rs s

validate-Follows :
    (start k : ℕ) (r : Range) (rs : List Range) (s : List ℕ)
    → Follows IsValid (r ∷ rs) s
    → validate start k (r ∷ rs) s ≡ none
unfolding validate
validate-Follows start k r rs [] f = absurd f
validate-Follows start k (lo, hi) [] (c ∷ s) (low, high, f) = ground (arith, f (start + k + 1))
validate-Follows start k (lo, hi) (r ∷ rs) (c ∷ s) (low, high, f) =
    ground (arith, validate-Follows start (k + 1) r rs s f)

start-IsValid :
    (b : ℕ) (rs : List Range) (s : List ℕ)
    → following b ≡ some rs
    → Follows IsValid rs s
    → IsValid (b ∷ s)
unfolding validate
start-IsValid b [] s e f start = rw (e, validate) (f (start + 1))
start-IsValid b (r ∷ rs) s e f start = rw (e, validate) (validate-Follows start 1 r rs s f)

pub following_one : (b : ℕ) → b < 0x80 → following b ≡ some []
unfolding following
following_one b h = ground arith

pub following_two : (b : ℕ) → 0xc2 ≤ b → b ≤ 0xdf → following b ≡ some (tail_byte ∷ [])
unfolding following
following_two b l h = ground arith

-- The least second byte of a first byte of three or four, and the greatest.
abbrev pub second : ℕ → Range
second b = (
  if b == 0xe0 then 0xa0 else if b == 0xf0 then 0x90 else 0x80,
  if b == 0xed then 0x9f else if b == 0xf4 then 0x8f else 0xbf,
)

pub following_three : (b : ℕ) → 0xe0 ≤ b → b ≤ 0xef → following b ≡ some (second b ∷ tail_byte ∷ [])
unfolding following
following_three b l h = ground arith

pub following_four :
    (b : ℕ) → 0xf0 ≤ b → b ≤ 0xf4 → following b ≡ some (second b ∷ tail_byte ∷ tail_byte ∷ [])
unfolding following
following_four b l h = ground arith

pub following-none :
    (b : ℕ)
    → ltb b 0x80 ≡ false
    → in_range 0xc2 0xdf b ≡ false
    → in_range 0xe0 0xef b ≡ false
    → in_range 0xf0 0xf4 b ≡ false
    → following b ≡ none
unfolding following
following-none b not_one not_two not_three not_four = ground arith

second_bounds_three :
    (c : ℕ)
    → IsScalar c
    → 0x800 ≤ c
    → c < 0x10000
    → let (lo, hi) = second (0xe0 + c / 4096) in
      (lo ≤ 0x80 + c / 64 % 64) × (0x80 + c / 64 % 64 ≤ hi)
second_bounds_three c (inl low) l h = (ground arith, ground arith)
second_bounds_three c (inr (high, _)) l h = (ground arith, ground arith)

second_bounds_four :
    (c : ℕ)
    → 0x10000 ≤ c
    → c < 0x110000
    → let (lo, hi) = second (0xf0 + c / 262144) in
      (lo ≤ 0x80 + c / 4096 % 64) × (0x80 + c / 4096 % 64 ≤ hi)
second_bounds_four c l h = (ground arith, ground arith)

scalar_lt : (c : ℕ) → IsScalar c → c < 0x110000
scalar_lt c (inl low) = omega arith
scalar_lt c (inr (_, h)) = h

encode-IsValid : (c : ℕ) (s : List ℕ) → IsScalar c → IsValid s → IsValid (encode c ++ s)
unfolding encode
encode-IsValid c s scalar valid = elim (Bool-cases (ltb c 0x80)) [
  | inl one ↦ rw one (start-IsValid c [] s (following_one c (ground arith)) valid)
  | inr not_one ↦ rw not_one (elim (Bool-cases (ltb c 0x800)) [
    | inl two ↦ rw two (
        start-IsValid (0xc0 + c / 64) (tail_byte ∷ []) ((0x80 + c % 64) ∷ s)
          (following_two (0xc0 + c / 64) (ground arith) (ground arith))
          (omega arith, omega arith, valid))
    | inr not_two ↦ rw not_two (elim (Bool-cases (ltb c 0x10000)) [
      | inl three ↦
          let (lo, hi) = second_bounds_three c scalar (ground arith) (ground arith) in
          rw three (
            start-IsValid (0xe0 + c / 4096) (second (0xe0 + c / 4096) ∷ tail_byte ∷ [])
              ((0x80 + c / 64 % 64) ∷ (0x80 + c % 64) ∷ s)
              (following_three (0xe0 + c / 4096) (omega arith) (ground arith))
              (lo, hi, (omega arith, omega arith, valid)))
      | inr not_three ↦
          let (lo, hi) = second_bounds_four c (ground arith) (scalar_lt c scalar) in
          rw not_three (
            start-IsValid (0xf0 + c / 262144)
              (second (0xf0 + c / 262144) ∷ tail_byte ∷ tail_byte ∷ [])
              ((0x80 + c / 4096 % 64) ∷ (0x80 + c / 64 % 64) ∷ (0x80 + c % 64) ∷ s)
              (following_four (0xf0 + c / 262144) (omega arith) (omega (arith, scalar_lt c scalar)))
              (lo, hi, (omega arith, omega arith, (omega arith, omega arith, valid))))
    ])
  ])
]

pub encode_all-IsValid : (cs : List ℕ) → All IsScalar cs → IsValid (encode_all cs)
unfolding encode_all validate
encode_all-IsValid [] h = λ start. refl
encode_all-IsValid (c ∷ cs) (h, hs) = encode-IsValid c (encode_all cs) h (encode_all-IsValid cs hs)
