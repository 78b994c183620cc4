-- ===== src/Base/Utf8/Decoding.antt =====
-- That valid UTF-8 is the encoding of scalar values, and nothing else is valid.
use Prim.Native.Nat.{ℕ, zero, suc, ◌-◌, ◌+◌, ◌*◌, ◌<◌, ◌≤◌}
use mathlib.Core.Path.{◌≡◌, refl}
use mathlib.Core.Logic.{◌≢◌, inl, inr, ◌↔◌}
use mathlib.Core.Option.{Option, none, some}
use mathlib.Core.List.{List, [], ◌∷◌, ◌++◌}
use native.Mathlib.Omega.{arith}
use mathlib.Core.Bool.{Bool, true, false}
use rust_core.Base.Tests.{Bool-cases, ltb, if◌then◌else◌, in_range}
use rust_core.Base.Lists.{length}
use rust_core.Base.Utf8.{Utf8Error, Range, tail_byte, following, validate, utf8_error}
use rust_core.Base.Utf8.Scalars.{IsScalar, encode, encode_all, IsUtf8, Follows, second}
use rust_core.Base.Utf8.Scalars.{following_one, following_two, following_three, following_four}
use rust_core.Base.Utf8.Scalars.{following-none, encode_all-IsValid}

-- Valid from some place on.
abbrev Ends : List ℕ → Type 0
Ends s = (start : ℕ) × (validate start 0 [] s ≡ none)

passed :
    (b : Bool) (rest : Option Utf8Error) (e : Utf8Error)
    → (if b then rest else some e) ≡ none
    → (b ≡ true) × (rest ≡ none)
passed true rest e h = (refl, h)
passed false rest e h = cc

in_range-true : (lo hi c : ℕ) → in_range lo hi c ≡ true → (lo ≤ c) × (c ≤ hi)
in_range-true lo hi c h = (ground arith, ground arith)

ranges-Ends :
    (start k : ℕ) (r : Range) (rs : List Range) (s : List ℕ)
    → validate start k (r ∷ rs) s ≡ none
    → Follows Ends (r ∷ rs) s
unfolding validate
ranges-Ends start k r rs [] e = cc
ranges-Ends start k (lo, hi) [] (c ∷ s) e =
    let (inside, rest) = passed (in_range lo hi c) _ _ e in
    let (low, high) = in_range-true lo hi c inside in (low, high, (start + k + 1, rest))
ranges-Ends start k (lo, hi) (r ∷ rs) (c ∷ s) e =
    let (inside, rest) = passed (in_range lo hi c) _ _ e in
    let (low, high) = in_range-true lo hi c inside in
    (low, high, ranges-Ends start (k + 1) r rs s rest)

first-Ends :
    (start b : ℕ) (rs : List Range) (s : List ℕ)
    → following b ≡ some rs
    → validate start 0 [] (b ∷ s) ≡ none
    → Follows Ends rs s
unfolding validate
first-Ends start b [] s e v = (start + 1, rw (e, validate) at v)
first-Ends start b (r ∷ rs) s e v = ranges-Ends start 1 r rs s (rw (e, validate) at v)

first-none : (start b : ℕ) (s : List ℕ) → following b ≡ none → validate start 0 [] (b ∷ s) ≢ none
unfolding validate
first-none start b s e v = cc (rw (e, validate) at v)

-- Bytes that are the encoding of one scalar value.
abbrev Decodes : List ℕ → Type 0
Decodes bytes = (c : ℕ) × IsScalar c × (encode c ≡ bytes)

one-Decodes : (b : ℕ) → b < 0x80 → Decodes (b ∷ [])
unfolding encode
one-Decodes b h = (b, inl (omega arith), ground arith)

two-Decodes : (b x : ℕ) → 0xc2 ≤ b → b ≤ 0xdf → 0x80 ≤ x → x ≤ 0xbf → Decodes (b ∷ x ∷ [])
unfolding encode
two-Decodes b x l h lx hx = ((b - 0xc0) * 64 + (x - 0x80), inl (omega arith), ground arith)

abbrev Within : ℕ → Range → Type 0
Within x (lo, hi) = (lo ≤ x) × (x ≤ hi)

three-IsScalar :
    (b x y : ℕ)
    → 0xe0 ≤ b
    → b ≤ 0xef
    → Within x (second b)
    → Within y tail_byte
    → IsScalar ((b - 0xe0) * 4096 + (x - 0x80) * 64 + (y - 0x80))
three-IsScalar b x y l h (lx, hx) (ly, hy) = elim (Bool-cases (ltb b 0xee)) [
  | inl low ↦ inl (ground arith)
  | inr high ↦ inr (ground arith, ground arith)
]

three-Decodes :
    (b x y : ℕ)
    → 0xe0 ≤ b
    → b ≤ 0xef
    → Within x (second b)
    → Within y tail_byte
    → Decodes (b ∷ x ∷ y ∷ [])
unfolding encode
three-Decodes b x y l h wx wy = (
  (b - 0xe0) * 4096 + (x - 0x80) * 64 + (y - 0x80),
  three-IsScalar b x y l h wx wy,
  ground (arith, wx, wy),
)

four-Decodes :
    (b x y z : ℕ)
    → 0xf0 ≤ b
    → b ≤ 0xf4
    → Within x (second b)
    → Within y tail_byte
    → Within z tail_byte
    → Decodes (b ∷ x ∷ y ∷ z ∷ [])
unfolding encode
four-Decodes b x y z l h wx wy wz = (
  (b - 0xf0) * 262144 + (x - 0x80) * 4096 + (y - 0x80) * 64 + (z - 0x80),
  inr (ground (arith, wx, wy, wz), ground (arith, wx, wy, wz)),
  ground (arith, wx, wy, wz),
)

decoded_then : (bytes rest : List ℕ) → Decodes bytes → IsUtf8 rest → IsUtf8 (bytes ++ rest)
unfolding encode_all
decoded_then bytes rest (c, scalar, e) (cs, scalars, same) =
    (c ∷ cs, (scalar, scalars), rw (e, same) refl)

-- The bytes behind a first byte, if all that is shorter is known.
abbrev Shorter : List ℕ → Type 0
Shorter s = (t : List ℕ) → length t ≤ length s → Ends t → IsUtf8 t

after_two :
    (b : ℕ) (s : List ℕ)
    → 0xc2 ≤ b
    → b ≤ 0xdf
    → Follows Ends (tail_byte ∷ []) s
    → Shorter s
    → IsUtf8 (b ∷ s)
after_two b [] l h f shorter = absurd f
after_two b (x ∷ t) l h (lx, hx, ends) shorter =
    decoded_then (b ∷ x ∷ []) t (two-Decodes b x l h lx hx) (shorter t (omega arith) ends)

after_three :
    (b : ℕ) (s : List ℕ)
    → 0xe0 ≤ b
    → b ≤ 0xef
    → Follows Ends (second b ∷ tail_byte ∷ []) s
    → Shorter s
    → IsUtf8 (b ∷ s)
after_three b [] l h f shorter = absurd f
after_three b (x ∷ []) l h (_, _, f) shorter = absurd f
after_three b (x ∷ y ∷ t) l h (lx, hx, (ly, hy, ends)) shorter =
    decoded_then (b ∷ x ∷ y ∷ []) t (three-Decodes b x y l h (lx, hx) (ly, hy))
      (shorter t (omega arith) ends)

after_four :
    (b : ℕ) (s : List ℕ)
    → 0xf0 ≤ b
    → b ≤ 0xf4
    → Follows Ends (second b ∷ tail_byte ∷ tail_byte ∷ []) s
    → Shorter s
    → IsUtf8 (b ∷ s)
after_four b [] l h f shorter = absurd f
after_four b (x ∷ []) l h (_, _, f) shorter = absurd f
after_four b (x ∷ y ∷ []) l h (_, _, (_, _, f)) shorter = absurd f
after_four b (x ∷ y ∷ z ∷ t) l h (lx, hx, (ly, hy, (lz, hz, ends))) shorter =
    decoded_then (b ∷ x ∷ y ∷ z ∷ []) t (four-Decodes b x y z l h (lx, hx) (ly, hy) (lz, hz))
      (shorter t (omega arith) ends)

first-IsUtf8 :
    (start b : ℕ) (s : List ℕ) → validate start 0 [] (b ∷ s) ≡ none → Shorter s → IsUtf8 (b ∷ s)
first-IsUtf8 start b s v shorter = elim (Bool-cases (ltb b 0x80)) [
  | inl one ↦
      let small : b < 0x80 = ground arith in
      decoded_then (b ∷ []) s (one-Decodes b small)
        (shorter s (omega arith) (first-Ends start b [] s (following_one b small) v))
  | inr above ↦ elim (Bool-cases (in_range 0xc2 0xdf b)) [
    | inl two ↦
        let (l, h) = in_range-true 0xc2 0xdf b two in
        after_two b s l h (first-Ends start b _ s (following_two b l h) v) shorter
    | inr not_two ↦ elim (Bool-cases (in_range 0xe0 0xef b)) [
      | inl three ↦
          let (l, h) = in_range-true 0xe0 0xef b three in
          after_three b s l h (first-Ends start b _ s (following_three b l h) v) shorter
      | inr not_three ↦ elim (Bool-cases (in_range 0xf0 0xf4 b)) [
        | inl four ↦
            let (l, h) = in_range-true 0xf0 0xf4 b four in
            after_four b s l h (first-Ends start b _ s (following_four b l h) v) shorter
        | inr not_four ↦
            absurd (first-none start b s (following-none b above not_two not_three not_four) v)
      ]
    ]
  ]
]

Ends-IsUtf8 : (n : ℕ) (s : List ℕ) → length s < n → Ends s → IsUtf8 s
unfolding encode_all
Ends-IsUtf8 zero s lt ends = absurd (omega (arith, lt))
Ends-IsUtf8 (suc n) [] lt ends = ([], tt, refl)
Ends-IsUtf8 (suc n) (b ∷ s) lt (start, v) =
    first-IsUtf8 start b s v (λ t small ends. Ends-IsUtf8 n t (omega (arith, lt, small)) ends)

-- The validation accepts exactly the encodings of scalar values.
pub utf8_error_iff : (s : List ℕ) → (utf8_error s ≡ none) ↔ IsUtf8 s
unfolding utf8_error
utf8_error_iff s = (
  λ e. Ends-IsUtf8 (suc (length s)) s (omega arith) (0, e),
  λ (cs, scalars, e). rw e (encode_all-IsValid cs scalars 0),
)
