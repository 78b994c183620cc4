-- ===== src/KnownHosts/Plausible.antt =====
-- is_plausible_blob of ssh-transport/src/known_hosts.rs against the wire form of a key blob.
use rust_core.Base.{◌∙◌, ℕ, ◌+◌, ◌-◌, ◌/◌, ◌%◌, ◌^◌, ◌≤◌, ◌<◌, ◌≡◌, ◌↔◌, refl, sym, ap, Bool, true}
use rust_core.Base.{false, ◌||◌, some, List, [], ◌∷◌, ◌++◌, arith, ltb, if◌then◌else◌, length}
use rust_core.Base.{length-append, All, take, drop, all, take-append-drop, length-take}
use rust_core.Base.{take-length_append}
use rust_core.Base.Utf8.{utf8_error-ascii}
use rust_core.KnownHosts.{from_be_bytes, slice, has_family, is_printable, is_algorithm}
use rust_core.KnownHosts.{is_plausible_blob}
use rust_core.KnownHosts.Base64.{IsByte}
use rust_core.KnownHosts.Families.{IsFamily, has_family_iff}

-- `u32::to_be_bytes`
abbrev pub to_be_bytes : ℕ → List ℕ
to_be_bytes n = (n / 2 ^ 24 % 256) ∷ (n / 2 ^ 16 % 256) ∷ (n / 2 ^ 8 % 256) ∷ (n % 256) ∷ []

-- An algorithm's name: printable ASCII of at least four bytes in one of the four families.
pub record IsAlgorithm (alg : List ℕ) : Type 0 where
  pub long : 4 ≤ length alg
  pub fits : length alg < 2 ^ 32
  pub printable : All (λ b. (32 ≤ b) × (b ≤ 126)) alg
  pub family : IsFamily alg

-- The blob after its first four bytes, with no test that can panic.
unfoldable pub check_tail : ℕ → List ℕ → Bool
check_tail len tail =
    if ltb len 4 || ltb (length tail) len then false else is_algorithm (take len tail)

slice_tail :
    (b0 b1 b2 b3 len : ℕ) (tail : List ℕ)
    → len ≤ length tail
    → slice 4 (4 + len) (b0 ∷ b1 ∷ b2 ∷ b3 ∷ tail) ≡ some (take len tail)
unfolding slice
slice_tail b0 b1 b2 b3 len tail h =
    let back : 4 + len - 4 ≡ len = omega arith in rw back (ground arith)

pub is_plausible_blob-check_tail :
    (b0 b1 b2 b3 : ℕ) (tail : List ℕ)
    → is_plausible_blob (b0 ∷ b1 ∷ b2 ∷ b3 ∷ tail)
      ≡ some (check_tail (from_be_bytes b0 b1 b2 b3) tail)
unfolding is_plausible_blob check_tail
is_plausible_blob-check_tail b0 b1 b2 b3 tail =
    ground (arith, slice_tail b0 b1 b2 b3 (from_be_bytes b0 b1 b2 b3) tail)

short_blob : (blob : List ℕ) → length blob < 4 → is_plausible_blob blob ≡ some false
unfolding is_plausible_blob
short_blob blob h = ground arith

-- No index or slice is out of range.
is_plausible_blob_total : (blob : List ℕ) → (b : Bool) × (is_plausible_blob blob ≡ some b)
is_plausible_blob_total [] = (false, short_blob [] (omega arith))
is_plausible_blob_total (a ∷ []) = (false, short_blob (a ∷ []) (omega arith))
is_plausible_blob_total (a ∷ b ∷ []) = (false, short_blob (a ∷ b ∷ []) (omega arith))
is_plausible_blob_total (a ∷ b ∷ c ∷ []) = (false, short_blob (a ∷ b ∷ c ∷ []) (omega arith))
is_plausible_blob_total (a ∷ b ∷ c ∷ d ∷ tail) =
    (check_tail (from_be_bytes a b c d) tail, is_plausible_blob-check_tail a b c d tail)

printable-ascii : (s : List ℕ) → all is_printable s ≡ true → All (λ b. (32 ≤ b) × (b ≤ 126)) s
printable-ascii [] h = tt
printable-ascii (c ∷ s) h = (ground arith, printable-ascii s (ground arith))

ascii-printable : (s : List ℕ) → All (λ b. (32 ≤ b) × (b ≤ 126)) s → all is_printable s ≡ true
ascii-printable [] h = refl
ascii-printable (c ∷ s) h = ground (arith, ascii-printable s h.1)

printable-utf8 : (s : List ℕ) → All (λ b. (32 ≤ b) × (b ≤ 126)) s → All (λ b. b < 128) s
printable-utf8 [] h = tt
printable-utf8 (c ∷ s) h = (omega arith, printable-utf8 s h.1)

-- A name that passes the tests on its length, its bytes and its family.
pub tested-IsAlgorithm :
    (alg : List ℕ)
    → ltb 3 (length alg) ≡ true
    → ltb (length alg) 256 ≡ true
    → all is_printable alg ≡ true
    → has_family alg ≡ true
    → IsAlgorithm alg
tested-IsAlgorithm alg long short printable family = record {
  long = ground arith;
  fits = ground arith;
  printable = printable-ascii alg printable;
  family = (has_family_iff alg).0 family;
}

-- The UTF-8 test takes nothing away: it holds of every printable text.
is_algorithm_iff :
    (alg : List ℕ)
    → (is_algorithm alg ≡ true) ↔ (All (λ b. (32 ≤ b) × (b ≤ 126)) alg × (has_family alg ≡ true))
unfolding is_algorithm
is_algorithm_iff alg = (
  λ h. ground (arith, printable-ascii alg),
  λ (p, f).
      rw (utf8_error-ascii alg (printable-utf8 alg p), is_algorithm)
        (rw (f, ascii-printable alg p)),
)

pub from_be_bytes-to_be_bytes :
    (n : ℕ)
    → n < 2 ^ 32
    → from_be_bytes (n / 2 ^ 24 % 256) (n / 2 ^ 16 % 256) (n / 2 ^ 8 % 256) (n % 256) ≡ n
unfolding from_be_bytes
from_be_bytes-to_be_bytes n h = omega arith

to_be_bytes-from_be_bytes :
    (a b c d : ℕ)
    → a < 256
    → b < 256
    → c < 256
    → d < 256
    → to_be_bytes (from_be_bytes a b c d) ≡ a ∷ b ∷ c ∷ d ∷ []
unfolding from_be_bytes
to_be_bytes-from_be_bytes a b c d ha hb hc hd = ground arith

from_be_bytes-lt :
    (a b c d : ℕ) → a < 256 → b < 256 → c < 256 → d < 256 → from_be_bytes a b c d < 2 ^ 32
unfolding from_be_bytes
from_be_bytes-lt a b c d ha hb hc hd = omega arith

-- The blob of an algorithm's name, its length in front, with anything behind.
abbrev pub IsKeyBlob : List ℕ → Type 0
IsKeyBlob blob =
    (alg : List ℕ) × (rest : List ℕ) × (blob ≡ to_be_bytes (length alg) ++ (alg ++ rest))
    × IsAlgorithm alg

check_tail-IsAlgorithm :
    (alg rest : List ℕ) → IsAlgorithm alg → check_tail (length alg) (alg ++ rest) ≡ true
unfolding check_tail
check_tail-IsAlgorithm alg rest h = ground (
  arith,
  h.long,
  length-append alg rest,
  take-length_append alg rest,
  (is_algorithm_iff alg).1 (h.printable, (has_family_iff alg).1 h.family),
)

check_tail-true :
    (len : ℕ) (tail : List ℕ)
    → check_tail len tail ≡ true
    → (4 ≤ len) × (len ≤ length tail) × (is_algorithm (take len tail) ≡ true)
unfolding check_tail
check_tail-true len tail e = ground arith

pub IsKeyBlob-plausible : (blob : List ℕ) → IsKeyBlob blob → is_plausible_blob blob ≡ some true
IsKeyBlob-plausible blob (alg, rest, e, h) =
    rw (e, is_plausible_blob-check_tail, from_be_bytes-to_be_bytes (length alg) h.fits)
      (ap some (check_tail-IsAlgorithm alg rest h))

plausible-IsKeyBlob :
    (blob : List ℕ) → All IsByte blob → is_plausible_blob blob ≡ some true → IsKeyBlob blob
plausible-IsKeyBlob [] h e = cc (short_blob [] (omega arith))
plausible-IsKeyBlob (a ∷ []) h e = cc (short_blob (a ∷ []) (omega arith))
plausible-IsKeyBlob (a ∷ b ∷ []) h e = cc (short_blob (a ∷ b ∷ []) (omega arith))
plausible-IsKeyBlob (a ∷ b ∷ c ∷ []) h e = cc (short_blob (a ∷ b ∷ c ∷ []) (omega arith))
plausible-IsKeyBlob (a ∷ b ∷ c ∷ d ∷ tail) h e =
    let len = from_be_bytes a b c d in
    let checked : check_tail len tail ≡ true = cc (is_plausible_blob-check_tail a b c d tail) in
    let (long, within, named) = check_tail-true len tail checked in
    let (printable, family) = (is_algorithm_iff (take len tail)).0 named in
    let size : length (take len tail) ≡ len = omega (arith, length-take len tail) in
    let small : len < 2 ^ 32 = from_be_bytes-lt a b c d h.0 h.1.0 h.1.1.0 h.1.1.1.0 in
    let bytes : to_be_bytes len ≡ a ∷ b ∷ c ∷ d ∷ [] =
      to_be_bytes-from_be_bytes a b c d h.0 h.1.0 h.1.1.0 h.1.1.1.0 in
    (
      take len tail,
      drop len tail,
      rw (size, take-append-drop len tail) (sym (ap (λ s. s ++ tail) bytes)),
      record {
        long = rw size long;
        fits = rw size small;
        printable = printable;
        family = (has_family_iff (take len tail)).0 family;
      },
    )

-- The test returns an answer for every list of bytes, with no index or slice out of range, and passes
-- exactly those that open with the length-prefixed name of an algorithm: at least four printable
-- ASCII bytes that begin with one of the four families.
pub is_plausible_blob_iff :
    (blob : List ℕ)
    → All IsByte blob
    → (b : Bool) × (is_plausible_blob blob ≡ some b) × ((b ≡ true) ↔ IsKeyBlob blob)
is_plausible_blob_iff blob h =
    let (b, e) = is_plausible_blob_total blob in
    (
      b,
      e,
      (
        λ passed. plausible-IsKeyBlob blob h (e ∙ ap some passed),
        λ key. cc (IsKeyBlob-plausible blob key),
      ),
    )
