-- ===== src/Base/Strings.antt =====
-- A Rust `String` is the list of its UTF-8 bytes; the model's literals are all ASCII.
use Prim.Native.Nat.{ℕ, zero, suc, ◌+◌, ◌/◌, ◌%◌, ◌<◌}
use mathlib.Core.Logic.{◌≢◌, inl, inr}
use native.Mathlib.Omega.{arith}
use rust_core.Base.Lists.{All}
use Prim.Native.Char.{code}
use Prim.Native.String.{String}
use mathlib.Core.Path.{◌≡◌, refl}
use mathlib.Core.Bool.{Bool, true, false, ◌&&◌}
use mathlib.Core.List.{List, [], ◌∷◌, ◌++◌}
use rust_core.Base.Tests.{Bool-cases, ◌==◌, ltb, if◌then◌else◌, in_range}

abbrev pub Text : Type 0
Text = List ℕ

-- The bytes of an ASCII literal.
abbrev pub codes : String → Text
codes String.[] = []
codes (String.◌∷◌ c s) = code c ∷ codes s

-- `str::starts_with`, the text first.
abbrev pub starts_with : Text → Text → Bool
starts_with s [] = true
starts_with [] (p ∷ ps) = false
starts_with (c ∷ s) (p ∷ ps) = c == p && starts_with s ps

pub starts_with-append : (s p : Text) → starts_with s p ≡ true → (rest : Text) × (s ≡ p ++ rest)
starts_with-append s [] e = (s, refl)
starts_with-append [] (p ∷ ps) e = cc
starts_with-append (c ∷ s) (p ∷ ps) e =
    let (rest, same) = starts_with-append s ps (ground (arith, e)) in (rest, ground arith)

pub append-starts_with : (p rest : Text) → starts_with (p ++ rest) p ≡ true
append-starts_with [] rest = refl
append-starts_with (c ∷ p) rest = ground (arith, append-starts_with p rest)

-- Equality of texts and of bytes.
abbrev pub text_eq : Text → Text → Bool
text_eq [] [] = true
text_eq (a ∷ s) (b ∷ t) = a == b && text_eq s t
text_eq _ _ = false

pub text_eq_refl : (s : Text) → text_eq s s ≡ true
text_eq_refl [] = refl
text_eq_refl (a ∷ s) = ground (arith, text_eq_refl s)

pub text_eq-same : (s t : Text) → s ≡ t → text_eq s t ≡ true
text_eq-same s t e = rw e (text_eq_refl t)

pub text_eq-true : (s t : Text) → text_eq s t ≡ true → s ≡ t
text_eq-true [] [] e = refl
text_eq-true (a ∷ s) (b ∷ t) e = ground (arith, text_eq-true s t)
text_eq-true [] (b ∷ t) e = cc
text_eq-true (a ∷ s) [] e = cc

pub text_eq-ne : (s t : Text) → s ≢ t → text_eq s t ≡ false
text_eq-ne s t differs = elim (Bool-cases (text_eq s t)) [
  | inl same ↦ absurd (differs (text_eq-true s t same))
  | inr apart ↦ apart
]

-- `str::to_lowercase` on an ASCII text.
unfoldable pub to_lowercase : Text → Text
to_lowercase [] = []
to_lowercase (c ∷ s) = (if in_range b'A' b'Z' c then c + 32 else c) ∷ to_lowercase s

-- The decimal digits of `n`, written in front of `acc`; a number below 10 ^ fuel needs that many.
unfoldable pub decimal_loop : ℕ → ℕ → Text → Text
decimal_loop zero n acc = acc
decimal_loop (suc fuel) n acc =
    let digit = b'0' + n % 10 in
    let rest = decimal_loop fuel (n / 10) (digit ∷ acc) in if ltb n 10 then digit ∷ acc else rest

-- `Display` of an unsigned integer of at most 64 bits: at most 20 digits.
unfoldable pub display : ℕ → Text
unfolding decimal_loop
display n = decimal_loop 20 n []

decimal_loop-ascii :
    (fuel n : ℕ) (acc : Text)
    → All (λ c. c < 128) acc
    → All (λ c. c < 128) (decimal_loop fuel n acc)
unfolding decimal_loop
decimal_loop-ascii zero n acc x = x
decimal_loop-ascii (suc fuel) n acc x =
    let digit = b'0' + n % 10 in
    let small : digit < 128 = omega arith in
    elim (Bool-cases (ltb n 10)) [
      | inl last ↦ rw last (small, x)
      | inr more ↦ rw more (decimal_loop-ascii fuel (n / 10) (digit ∷ acc) (small, x))
    ]

pub display-ascii : (n : ℕ) → All (λ c. c < 128) (display n)
unfolding display
display-ascii n = decimal_loop-ascii 20 n [] tt

display_2235 : display 2235 ≡ codes "2235"
unfolding display
display_2235 = refl
