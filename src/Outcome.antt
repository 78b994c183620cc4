-- ===== src/Outcome.antt =====
-- The errors of ssh-transport/src/lib.rs, and the monad that its operations are written in.
pub mod Errors
pub mod Expect
use rust_core.Base.{◌∷◌, ◌++◌, ◌≡◌, refl, Text, codes, ap, ◌≢◌}
use rust_core.Russh.{Call, History, Reply, done, failed, hangs}

-- `SshSpikeError`
pub data SshSpikeError : Type 0 where
  connect no_common_algorithm auth channel sftp : Text → SshSpikeError
  host_key_rejected : SshSpikeError

-- Its `Display`, from the `error` attributes.
unfoldable pub to_string : SshSpikeError → Text
to_string (SshSpikeError.connect s) = codes "connection failed: " ++ s
to_string (SshSpikeError.no_common_algorithm s) = codes "no common algorithm (" ++ (s ++ codes ")")
to_string SshSpikeError.host_key_rejected = codes "host key rejected by verifier"
to_string (SshSpikeError.auth s) = codes "auth failed: " ++ s
to_string (SshSpikeError.channel s) = codes "channel failed: " ++ s
to_string (SshSpikeError.sftp s) = codes "sftp failed: " ++ s

-- What a Rust call ends in: a `Result`, a panic, or a wait that never ends.
pub data Outcome (E A : Type 0) : Type 0 where
  ok : A → Outcome E A
  err : E → Outcome E A
  panic blocked : Outcome E A

-- Code that makes calls: they are put in front of the history.
abbrev pub M : Type 0 → Type 0 → Type 0
M E A = History → Outcome E A × History

-- The rest of the code, after a result.
abbrev pub continue : {E A B : Type 0} → (A → M E B) → Outcome E A → History → Outcome E B × History
continue f (ok a) h = f a h
continue f (err e) h = (err e, h)
continue f panic h = (panic, h)
continue f blocked h = (blocked, h)

infixl 5 ◌>>=◌ ◌>>◌
abbrev pub ◌>>=◌ : {E A B : Type 0} → M E A → (A → M E B) → M E B
◌>>=◌ m f h = continue f (m h).0 (m h).1

abbrev pub ◌>>◌ : {E A B : Type 0} → M E A → M E B → M E B
m >> k = m >>= λ _. k

abbrev pub pure : {E A : Type 0} → A → M E A
pure a h = (ok a, h)

abbrev pub raise : {E A : Type 0} → E → M E A
raise e h = (err e, h)

abbrev pub panics : {E A : Type 0} → M E A
panics h = (panic, h)

-- A reply, its error wrapped by `map_err`.
abbrev pub from_reply : {E F A : Type 0} → (E → F) → Reply E A → Outcome F A
from_reply wrap (done a) = ok a
from_reply wrap (failed e) = err (wrap e)
from_reply wrap hangs = blocked

-- `map_err`
abbrev pub map_err_of : {E F A : Type 0} → (E → F) → Outcome E A → Outcome F A
map_err_of wrap (ok a) = ok a
map_err_of wrap (err e) = err (wrap e)
map_err_of wrap panic = panic
map_err_of wrap blocked = blocked

abbrev pub map_err : {E F A : Type 0} → (E → F) → M E A → M F A
map_err wrap m h = (map_err_of wrap (m h).0, (m h).1)

-- One call of the library.
abbrev pub perform : {E F A : Type 0} → (History → Call → Reply E A) → (E → F) → Call → M F A
perform replies wrap c h = (from_reply wrap (replies h c), c ∷ h)

abbrev pub IsOk : {E A : Type 0} → Outcome E A → Type 0
IsOk {A} r = (a : A) × (r ≡ ok a)

-- An invariant of the history holds after a chain if each part keeps it.
pub continue-keeps :
    {E A B : Type 0} (P : History → Type 0) (f : A → M E B) (r : Outcome E A) (h : History)
    → P h
    → ((a : A) → r ≡ ok a → P (f a h).1)
    → P (continue f r h).1
continue-keeps P f (ok a) h p k = k a refl
continue-keeps P f (err e) h p k = p
continue-keeps P f panic h p k = p
continue-keeps P f blocked h p k = p

-- A chain that returned: what its first part returned.
pub continue-eq_ok :
    {E A B : Type 0} (f : A → M E B) (r : Outcome E A) (h : History) {b : B} {h' : History}
    → continue f r h ≡ (ok b, h')
    → (a : A) × (r ≡ ok a) × (f a h ≡ (ok b, h'))
continue-eq_ok f (ok a) h e = (a, refl, e)
continue-eq_ok f (err x) h e = cc (ap (λ p. p.0) e)
continue-eq_ok f panic h e = cc (ap (λ p. p.0) e)
continue-eq_ok f blocked h e = cc (ap (λ p. p.0) e)

-- A chain panics only if one of its parts does.
pub continue-ne_panic :
    {E A B : Type 0} (f : A → M E B) (r : Outcome E A) (h : History)
    → r ≢ panic
    → ((a : A) → r ≡ ok a → (f a h).0 ≢ panic)
    → (continue f r h).0 ≢ panic
continue-ne_panic f (ok a) h n k = k a refl
continue-ne_panic f (err e) h n k = λ x. cc
continue-ne_panic f panic h n k = absurd (n refl)
continue-ne_panic f blocked h n k = λ x. cc

pub from_reply-ne_panic :
    {E F A : Type 0} (wrap : E → F) (r : Reply E A) → from_reply wrap r ≢ panic
from_reply-ne_panic wrap (done a) e = cc
from_reply-ne_panic wrap (failed x) e = cc
from_reply-ne_panic wrap hangs e = cc

pub from_reply-eq_ok :
    {E F A : Type 0} (wrap : E → F) (r : Reply E A) {a : A} → from_reply wrap r ≡ ok a → r ≡ done a
from_reply-eq_ok wrap (done a) e = cc
from_reply-eq_ok wrap (failed x) e = cc
from_reply-eq_ok wrap hangs e = cc

pub map_err_of-ne_panic :
    {E F A : Type 0} (wrap : E → F) (r : Outcome E A) → r ≢ panic → map_err_of wrap r ≢ panic
map_err_of-ne_panic wrap (ok a) n e = cc
map_err_of-ne_panic wrap (err x) n e = cc
map_err_of-ne_panic wrap panic n e = n refl
map_err_of-ne_panic wrap blocked n e = cc

pub map_err_of-eq_ok :
    {E F A : Type 0} (wrap : E → F) (r : Outcome E A) {a : A} → map_err_of wrap r ≡ ok a → r ≡ ok a
map_err_of-eq_ok wrap (ok a) e = cc
map_err_of-eq_ok wrap (err x) e = cc
map_err_of-eq_ok wrap panic e = cc
map_err_of-eq_ok wrap blocked e = cc

pub map_err_of-eq_err :
    {E F A : Type 0} (wrap : E → F) (r : Outcome E A) {x : F}
    → map_err_of wrap r ≡ err x
    → (y : E) × (r ≡ err y) × (wrap y ≡ x)
map_err_of-eq_err wrap (ok a) e = cc
map_err_of-eq_err wrap (err y) e = (y, refl, cc)
map_err_of-eq_err wrap panic e = cc
map_err_of-eq_err wrap blocked e = cc

-- What holds of a chain: of a first part that did not return, and of the rest after one that did.
pub continue-rule :
    {E A B : Type 0} (Q : Outcome E B → History → Type 0) (f : A → M E B) (r : Outcome E A)
    (h : History)
    → ((x : Outcome E B) → ¬ IsOk x → Q x h)
    → ((a : A) → r ≡ ok a → Q (f a h).0 (f a h).1)
    → Q (continue f r h).0 (continue f r h).1
continue-rule Q f (ok a) h n k = k a refl
continue-rule Q f (err e) h n k = n (err e) (λ (a, x). cc)
continue-rule Q f panic h n k = n panic (λ (a, x). cc)
continue-rule Q f blocked h n k = n blocked (λ (a, x). cc)

-- What holds of a result and of the history after it, if the code returned.
abbrev pub OnReturn : {E A : Type 0} → (A → History → Type 0) → Outcome E A × History → Type 0
OnReturn {A} F (r, h) = (a : A) → r ≡ ok a → F a h

-- A chain returns what its rest returns.
pub continue-OnReturn :
    {E A B : Type 0} (F : B → History → Type 0) (f : A → M E B) (r : Outcome E A) (h : History)
    → ((a : A) → r ≡ ok a → OnReturn F (f a h))
    → OnReturn F (continue f r h)
continue-OnReturn F f (ok a) h k = k a refl
continue-OnReturn F f (err e) h k = λ a x. cc
continue-OnReturn F f panic h k = λ a x. cc
continue-OnReturn F f blocked h k = λ a x. cc
