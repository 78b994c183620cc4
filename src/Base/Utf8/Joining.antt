-- ===== src/Base/Utf8/Joining.antt =====
-- That texts put together of literals, numbers and texts are UTF-8, as the message of a failed validation.
use Prim.Native.Nat.{ℕ}
use mathlib.Core.Path.{◌≡◌, refl, sym}
use mathlib.Core.Option.{Option, none, some}
use mathlib.Core.List.{List, [], ◌∷◌, ◌++◌, append_assoc}
use rust_core.Base.Lists.{All}
use rust_core.Base.Strings.{Text, codes, display, display-ascii}
use rust_core.Base.Utf8.{Utf8Error, utf8_error, describe, utf8_error-ascii}
use rust_core.Base.Utf8.Scalars.{IsUtf8, IsScalar, encode, encode_all}
use rust_core.Base.Utf8.Decoding.{utf8_error_iff}

encode_all-append : (cs ds : List ℕ) → encode_all (cs ++ ds) ≡ encode_all cs ++ encode_all ds
unfolding encode_all
encode_all-append [] ds = refl
encode_all-append (c ∷ cs) ds =
    rw (encode_all-append cs ds) (sym (append_assoc (encode c) (encode_all cs) (encode_all ds)))

scalars-append : (cs ds : List ℕ) → All IsScalar cs → All IsScalar ds → All IsScalar (cs ++ ds)
scalars-append [] ds x y = y
scalars-append (c ∷ cs) ds (p, x) y = (p, scalars-append cs ds x y)

pub append-IsUtf8 : (s t : Text) → IsUtf8 s → IsUtf8 t → IsUtf8 (s ++ t)
append-IsUtf8 s t (cs, x, e) (ds, y, e') =
    (cs ++ ds, scalars-append cs ds x y, rw (e, e') (sym (encode_all-append cs ds)))

-- A string literal, and bytes below 128.
pub valid-IsUtf8 : (s : Text) → utf8_error s ≡ none → IsUtf8 s
valid-IsUtf8 s e = (utf8_error_iff s).0 e

pub after_literal :
    (literal s : Text) → utf8_error literal ≡ none → IsUtf8 s → IsUtf8 (literal ++ s)
after_literal literal s e x = append-IsUtf8 literal s (valid-IsUtf8 literal e) x

pub display-IsUtf8 : (n : ℕ) → IsUtf8 (display n)
display-IsUtf8 n = valid-IsUtf8 (display n) (utf8_error-ascii (display n) (display-ascii n))

pub describe-IsUtf8 : (e : Utf8Error) (o : Option ℕ) → e.error_len ≡ o → IsUtf8 (describe e)
unfolding describe utf8_error
describe-IsUtf8 e none x = rw x (
    after_literal (codes "incomplete utf-8 byte sequence from index ") (display e.valid_up_to) refl
      (display-IsUtf8 e.valid_up_to))
describe-IsUtf8 e (some n) x =
    let place = display-IsUtf8 e.valid_up_to in
    let end = codes " bytes from index " in
    rw x (
      after_literal (codes "invalid utf-8 sequence of ")
        (display n ++ (end ++ display e.valid_up_to)) refl
        (append-IsUtf8 (display n) (end ++ display e.valid_up_to) (display-IsUtf8 n)
          (after_literal end (display e.valid_up_to) refl place)))
