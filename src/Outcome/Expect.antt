-- ===== src/Outcome/Expect.antt =====
-- What the tests of ssh-transport/src/lib.rs do with results.
use rust_core.Base.{Bool, if◌then◌else◌}
use rust_core.Outcome.{SshSpikeError, Outcome, ok, err, panic, blocked, M}

-- `expect` and `unwrap`: an error is a panic.
abbrev pub expected : {A : Type 0} → Outcome SshSpikeError A → Outcome SshSpikeError A
expected (ok a) = ok a
expected (err e) = panic
expected panic = panic
expected blocked = blocked

abbrev pub expect : {A : Type 0} → M SshSpikeError A → M SshSpikeError A
expect m h = let (r, h') = m h in (expected r, h')

-- `.ok();` drops an error.
abbrev pub dropped : {A : Type 0} → Outcome SshSpikeError A → Outcome SshSpikeError (Unit {0})
dropped (ok a) = ok tt
dropped (err e) = ok tt
dropped panic = panic
dropped blocked = blocked

-- `assert!`
abbrev pub assert : Bool → M SshSpikeError (Unit {0})
assert b h = if b then (ok tt, h) else (panic, h)
