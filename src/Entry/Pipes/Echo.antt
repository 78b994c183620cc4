-- ===== src/Entry/Pipes/Echo.antt =====
-- What the echoing sink of ssh-transport/src/lib.rs sends back, and what its client reads.
use rust_core.Base.{Option, ℕ, ap, ◌≡◌, ◌≢◌, ◌∙◌, refl, Bool, true, false, some, List, [], ◌∷◌}
use rust_core.Base.{Text}
use rust_core.Russh.{Russh, Reply, RusshError, done, failed, hangs, Call, History, Stream, arrival}
use rust_core.Russh.{ended, silent, channel_data, extended_data, channel_eof, channel_close}
use rust_core.Russh.{exit_status, unrelated, eof, data_bytes}
use rust_core.Outcome.{SshSpikeError, Outcome, ok, blocked, panic, from_reply}
use rust_core.Outcome.Expect.{dropped}
use rust_core.Channel.{SshSpikeChannel, read_loop, channel_error, with_write_half}
use rust_core.Channel
use rust_core.Channel.Reads.{payloads, finishes}
use rust_core.Session.Errors.{with_write_half-FailsAs}
use rust_core.Session.Locks.{read_half_of, write_half_of}
use rust_core.Entry.{Caller, app, worker, Poison, Guarded, lock, blocking_call}
use rust_core.Entry.Clean.{IsClean, half_call-Agrees}
use rust_core.Entry.Pipes.{goes_on, dropping, echo}
use rust_core.Entry.Pipes

-- The library answers every call, with success or not.
abbrev pub Acknowledges : Russh → Type 0
Acknowledges L = (h : History) (c : Call) → L.acknowledges h c ≢ hangs

-- What one read gives: the first payload, nothing at the end, and otherwise no answer.
abbrev pub arrives : List (List ℕ) → Bool → Outcome SshSpikeError (List ℕ)
arrives (bytes ∷ rest) _ = ok bytes
arrives [] true = ok []
arrives [] false = blocked

-- The calls for a connection, by what comes first on it.
abbrev pub echoed : ℕ → List (List ℕ) → Bool → History → Outcome SshSpikeError (Unit {0}) × History
echoed wh ((b ∷ bytes) ∷ rest) _ h = (ok tt, eof wh ∷ data_bytes wh (b ∷ bytes) ∷ h)
echoed wh ([] ∷ rest) _ h = (ok tt, eof wh ∷ h)
echoed wh [] true h = (ok tt, eof wh ∷ h)
echoed wh [] false h = (blocked, h)

pub read_loop-arrives : (s : Stream) → (read_loop s).0 ≡ arrives (payloads s) (finishes s)
unfolding read_loop
read_loop-arrives (arrival late (channel_data bytes) s) = refl
read_loop-arrives (arrival late (extended_data bytes) s) = refl
read_loop-arrives (arrival late channel_eof s) = refl
read_loop-arrives (arrival late channel_close s) = refl
read_loop-arrives (arrival late (exit_status code) s) = read_loop-arrives s
read_loop-arrives (arrival late unrelated s) = read_loop-arrives s
read_loop-arrives ended = refl
read_loop-arrives silent = refl

from_reply-dropped :
    (wrap : RusshError → SshSpikeError) (r : Reply RusshError (Unit {0}))
    → r ≢ hangs
    → dropped (from_reply wrap r) ≡ ok tt
from_reply-dropped wrap (done a) n = refl
from_reply-dropped wrap (failed e) n = refl
from_reply-dropped wrap hangs n = absurd (n refl)

dropping-done :
    (g next : Guarded (Unit {0})) (p : Poison) (h h' : History)
    (r : Outcome SshSpikeError (Unit {0}))
    → g p h ≡ ((r, h'), p)
    → dropped r ≡ ok tt
    → dropping g next p h ≡ next p h'
dropping-done g next p h h' r e d =
    ap (λ x. goes_on next (dropped x.0.0) x.1 x.0.1) e ∙ ap (λ o. goes_on next o p h') d

module _ (enters : Caller → Bool) (L : Russh) (answers : Acknowledges L) where
  -- A call on the open write half goes ahead, and its result is dropped.
  half_call-dropped :
      enters app ≡ true
      → (k wh : ℕ) (half : Option ℕ) (message : Text) (call : ℕ → Call) (next : Guarded (Unit {0}))
        (p : Poison) (h : History)
      → IsClean p
      → half ≡ some wh
      → dropping (lock (write_half_of k) (blocking_call enters L app message half call)) next p h
        ≡ next p (call wh ∷ h)
  half_call-dropped on_app k wh half message call next p h clean opened =
      dropping-done (lock (write_half_of k) (blocking_call enters L app message half call)) next p h
        _ _
        (half_call-Agrees enters on_app L p (write_half_of k) message half call clean
            (λ g. with_write_half-FailsAs L message half call g) h
          ∙ rw opened refl)
        (from_reply-dropped (channel_error L) (L.acknowledges h (call wh)) (answers h (call wh)))

  echo-eq :
      enters app ≡ true
      → (k wh : ℕ) (c : SshSpikeChannel) (p : Poison) (h : History) (arrived : List (List ℕ))
        (ends : Bool)
      → IsClean p
      → c.write_half ≡ some wh
      → (read_loop c.read_half).0 ≡ arrives arrived ends
      → echo enters L app k c p h ≡ (echoed wh arrived ends h, p)
  unfolding echo Pipes.read Pipes.write Pipes.send_eof Channel.read
  echo-eq on_app k wh c p h ((b ∷ bytes) ∷ rest) ends clean opened e =
      rw (on_app, clean (read_half_of k), e)
        (half_call-dropped on_app k wh c.write_half _ (λ w. data_bytes w (b ∷ bytes)) _ p h clean
            opened
          ∙ half_call-dropped on_app k wh c.write_half _ eof _ p _ clean opened)
  echo-eq on_app k wh c p h ([] ∷ rest) ends clean opened e =
      rw (on_app, clean (read_half_of k), e)
        (half_call-dropped on_app k wh c.write_half _ eof _ p h clean opened)
  echo-eq on_app k wh c p h [] true clean opened e =
      rw (on_app, clean (read_half_of k), e)
        (half_call-dropped on_app k wh c.write_half _ eof _ p h clean opened)
  echo-eq on_app k wh c p h [] false clean opened e = rw (on_app, clean (read_half_of k), e) refl

  -- An open channel, its mutexes not poisoned, and a library that answers every call: the sink sends
  -- the first payload back, if it is not empty, and then an EOF, also if the write fails; at the end of
  -- the remote's data it sends an EOF; where nothing arrives it waits and makes no call. It runs so on a
  -- thread of its own, where `block_on` may be called. On the thread that calls `on_connection`, where
  -- it may not, the same body would panic before any call.
  pub echo_lem :
      enters app ≡ true
      → enters worker ≡ false
      → (k wh : ℕ) (c : SshSpikeChannel) (p : Poison) (h : History) → IsClean p
      → c.write_half ≡ some wh
      → (echo enters L app k c p h ≡ (echoed wh (payloads c.read_half) (finishes c.read_half) h, p))
        × (echo enters L worker k c p h ≡ ((panic, h), p))
  unfolding echo Pipes.read
  echo_lem on_app off k wh c p h clean opened = (
    echo-eq on_app k wh c p h (payloads c.read_half) (finishes c.read_half) clean opened
        (read_loop-arrives c.read_half),
    rw off refl,
  )
