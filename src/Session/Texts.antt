-- ===== src/Session/Texts.antt =====
-- The texts that operations of ssh-transport/src/lib.rs make of bytes, against Unicode.
use rust_core.Base.{ℕ, ◌≡◌, ◌⊎◌, inl, inr, refl, Option, none, some, List, Text}
use rust_core.Base.Utf8.{Utf8Error, utf8_error, describe}
use rust_core.Base.Utf8.Scalars.{IsUtf8}
use rust_core.Base.Utf8.Decoding.{utf8_error_iff}
use rust_core.Outcome.{SshSpikeError, Outcome, ok, err}
use rust_core.Session.{from_utf8}

-- The bytes themselves, if they encode scalar values, and otherwise a channel error.
abbrev pub IsText : List ℕ → Outcome SshSpikeError Text → Type 0
IsText bytes r =
    (IsUtf8 bytes × (r ≡ ok bytes))
    ⊎ ((¬ IsUtf8 bytes) × ((message : Text) × (r ≡ err (SshSpikeError.channel message))))

decoded-IsText :
    (bytes : List ℕ) (e : Option Utf8Error) → utf8_error bytes ≡ e → IsText bytes (from_utf8 bytes)
unfolding from_utf8
decoded-IsText bytes none x = inl ((utf8_error_iff bytes).0 x, rw (x, from_utf8) refl)
decoded-IsText bytes (some e) x =
    inr (λ valid. cc ((utf8_error_iff bytes).1 valid), (describe e, rw (x, from_utf8) refl))

pub from_utf8-IsText : (bytes : List ℕ) → IsText bytes (from_utf8 bytes)
from_utf8-IsText bytes = decoded-IsText bytes (utf8_error bytes) refl
