-- ===== src/Outcome/Errors.antt =====
-- How an operation of ssh-transport/src/lib.rs may fail: by kinds of `SshSpikeError`.
use rust_core.Base.{◌≡◌, Text}
use rust_core.Russh.{Call, History, Reply, done, failed, hangs}
use rust_core.Outcome.{
  SshSpikeError, Outcome, ok, err, panic, blocked, M, continue, from_reply, perform,
}

-- A result that is no panic, and whose error, if it is one, is of some kind.
abbrev pub FailsAs : {E A : Type 0} → (E → Type 0) → Outcome E A → Type 0
FailsAs P (ok a) = Unit {0}
FailsAs P (err e) = P e
FailsAs P panic = ⊥
FailsAs P blocked = Unit {0}

pub continue-FailsAs :
    {E A B : Type 0} (P : E → Type 0) (f : A → M E B) (r : Outcome E A) (h : History)
    → FailsAs P r
    → ((a : A) (h' : History) → FailsAs P (f a h').0)
    → FailsAs P (continue f r h).0
continue-FailsAs P f (ok a) h p k = k a h
continue-FailsAs P f (err e) h p k = p
continue-FailsAs P f panic h p k = p
continue-FailsAs P f blocked h p k = tt

from_reply-FailsAs :
    {E F A : Type 0} (P : F → Type 0) (wrap : E → F)
    → ((e : E) → P (wrap e))
    → (r : Reply E A) → FailsAs P (from_reply wrap r)
from_reply-FailsAs P wrap k (done a) = tt
from_reply-FailsAs P wrap k (failed e) = k e
from_reply-FailsAs P wrap k hangs = tt

pub perform-FailsAs :
    {E F A : Type 0} (P : F → Type 0) (replies : History → Call → Reply E A) (wrap : E → F)
    → ((e : E) → P (wrap e))
    → (c : Call) (h : History) → FailsAs P (perform replies wrap c h).0
perform-FailsAs P replies wrap k c h = from_reply-FailsAs P wrap k (replies h c)

-- A kind of errors may be widened.
pub weaken :
    {E A : Type 0} (P Q : E → Type 0) (r : Outcome E A)
    → ((e : E) → P e → Q e)
    → FailsAs P r
    → FailsAs Q r
weaken P Q (ok a) k p = tt
weaken P Q (err e) k p = k e p
weaken P Q panic k p = p
weaken P Q blocked k p = tt

abbrev pub IsChannel : SshSpikeError → Type 0
IsChannel e = (message : Text) × (e ≡ SshSpikeError.channel message)

abbrev pub IsSftp : SshSpikeError → Type 0
IsSftp e = (message : Text) × (e ≡ SshSpikeError.sftp message)
