-- ===== src/Base/Utf8.antt =====
-- `str::from_utf8` of the standard library: the validation of UTF-8 and its error.
pub mod Scalars
pub mod Decoding
pub mod Joining
use Prim.Native.Nat.{ℕ, ◌+◌, ◌<◌}
use mathlib.Core.Path.{◌≡◌, refl}
use mathlib.Core.Option.{Option, none, some}
use mathlib.Core.List.{List, [], ◌∷◌, ◌++◌}
use native.Mathlib.Omega.{arith}
use rust_core.Base.Tests.{ltb, ◌==◌, if◌then◌else◌, in_range}
use rust_core.Base.Lists.{All}
use rust_core.Base.Strings.{Text, codes, display}

-- `error_len` is `none` where the input ends inside a character.
pub record Utf8Error : Type 0 where
  pub valid_up_to : ℕ
  pub error_len : Option ℕ

-- A range of bytes, both ends included.
abbrev pub Range : Type 0
Range = ℕ × ℕ

abbrev tail_byte : Range
tail_byte = (0x80, 0xbf)

-- The ranges of the bytes that follow the first byte of a character; `none` if no character begins
-- with it.
pub following : ℕ → Option (List Range)
following c =
    if ltb c 0x80
    then some []
    else if in_range 0xc2 0xdf c
    then some (tail_byte ∷ [])
    else if c == 0xe0
    then some ((0xa0, 0xbf) ∷ tail_byte ∷ [])
    else if c == 0xed
    then some ((0x80, 0x9f) ∷ tail_byte ∷ [])
    else if in_range 0xe1 0xef c
    then some (tail_byte ∷ tail_byte ∷ [])
    else if c == 0xf0
    then some ((0x90, 0xbf) ∷ tail_byte ∷ tail_byte ∷ [])
    else if in_range 0xf1 0xf3 c
    then some (tail_byte ∷ tail_byte ∷ tail_byte ∷ [])
    else if c == 0xf4
    then some ((0x80, 0x8f) ∷ tail_byte ∷ tail_byte ∷ [])
    else none

-- A character begins at `start`, `k` of its bytes are read, and the bytes to come are in the ranges.
pub validate : ℕ → ℕ → List Range → List ℕ → Option Utf8Error
validate start k [] [] = none
validate start k (r ∷ rs) [] = some (record { valid_up_to = start; error_len = none })
validate start k [] (c ∷ s) = elim (following c) [
  | none ↦ some (record { valid_up_to = start; error_len = some 1 })
  | some [] ↦ validate (start + 1) 0 [] s
  | some (r ∷ rs) ↦ validate start 1 (r ∷ rs) s
]
validate start k ((lo, hi) ∷ []) (c ∷ s) =
    let rest = validate (start + k + 1) 0 [] s in
    if in_range lo hi c then rest else some (record { valid_up_to = start; error_len = some k })
validate start k ((lo, hi) ∷ r ∷ rs) (c ∷ s) =
    let rest = validate start (k + 1) (r ∷ rs) s in
    if in_range lo hi c then rest else some (record { valid_up_to = start; error_len = some k })

-- The error of `from_utf8`, or `none` for valid bytes.
unfoldable pub utf8_error : List ℕ → Option Utf8Error
unfolding validate following
utf8_error bytes = validate 0 0 [] bytes

-- The message of the error.
unfoldable pub describe : Utf8Error → Text
describe e = elim e.error_len [
  | none ↦ codes "incomplete utf-8 byte sequence from index " ++ display e.valid_up_to
  | some n ↦
      codes "invalid utf-8 sequence of "
      ++ (display n ++ (codes " bytes from index " ++ display e.valid_up_to))
]

validate-ascii : (start : ℕ) (s : List ℕ) → All (λ c. c < 128) s → validate start 0 [] s ≡ none
unfolding validate following
validate-ascii start [] h = refl
validate-ascii start (c ∷ s) h = ground (arith, validate-ascii (start + 1) s h.1)

-- Bytes below 128 are valid.
pub utf8_error-ascii : (s : List ℕ) → All (λ c. c < 128) s → utf8_error s ≡ none
unfolding utf8_error
utf8_error-ascii s h = validate-ascii 0 s h

utf8_samples :
    (utf8_error (0xe2 ∷ 0x82 ∷ 0xac ∷ b'a' ∷ []) ≡ none)
    × (utf8_error (b'a' ∷ 0xe2 ∷ 0x82 ∷ []) ≡ some (record { valid_up_to = 1; error_len = none }))
    × (utf8_error (b'a' ∷ 0xed ∷ 0xa0 ∷ 0x80 ∷ [])
        ≡ some (record { valid_up_to = 1; error_len = some 1 }))
unfolding utf8_error
utf8_samples = (refl, refl, refl)
