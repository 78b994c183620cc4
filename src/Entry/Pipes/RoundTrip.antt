-- ===== src/Entry/Pipes/RoundTrip.antt =====
-- The round trip of the tests of ssh-transport/src/lib.rs through a forwarded channel: a client writes on
-- its own channel, the sink echoes on the forwarded one, and the client reads the echo and its end.
use rust_core.Base.{==-same, ap, ℕ, suc, ◌≡◌, ◌∙◌, refl, Bool, true, false, some, List, [], ◌∷◌}
use rust_core.Base.{◌++◌, if◌then◌else◌, ◌==◌}
use rust_core.Russh.{Russh, done, Call, History, Stream, arrival, ended, silent, channel_data}
use rust_core.Russh.{extended_data, channel_eof, channel_close, exit_status, unrelated, eof}
use rust_core.Russh.{data_bytes}
use rust_core.Outcome.{ok}
use rust_core.Channel.{SshSpikeChannel, read_loop, write, send_eof}
use rust_core.Channel
use rust_core.Channel.Reads.{payloads, finishes}
use rust_core.Entry.{Caller, app, worker, Poison}
use rust_core.Entry.Clean.{IsClean}
use rust_core.Entry.Pipes.{after_read, first_chunk, echo}
use rust_core.Entry.Pipes.Echo.{Acknowledges, echo_lem, read_loop-arrives, arrives, echoed}

-- The payloads that were sent on a channel, the oldest first, and whether an EOF was.
abbrev pub sent : ℕ → History → List (List ℕ)
sent wh [] = []
sent wh (data_bytes n bytes ∷ h) = if n == wh then sent wh h ++ (bytes ∷ []) else sent wh h
sent wh (_ ∷ h) = sent wh h

abbrev pub half_closed : ℕ → History → Bool
half_closed wh [] = false
half_closed wh (eof n ∷ h) = if n == wh then true else half_closed wh h
half_closed wh (_ ∷ h) = half_closed wh h

-- What was sent on channel `wh` arrives on a channel, each payload whole, and so does the EOF.
abbrev pub Carries : ℕ → History → SshSpikeChannel → Type 0
Carries wh h c = (payloads c.read_half ≡ sent wh h) × (finishes c.read_half ≡ half_closed wh h)

-- Every call succeeds.
abbrev pub Accepts : Russh → Type 0
Accepts L = (h : History) (c : Call) → L.acknowledges h c ≡ done tt

-- A read takes the first payload.
read_loop-first :
    (s : Stream) (bytes : List ℕ) (rest : List (List ℕ))
    → payloads s ≡ bytes ∷ rest
    → ((read_loop s).0 ≡ ok bytes)
      × (payloads (read_loop s).1 ≡ rest)
      × (finishes (read_loop s).1 ≡ finishes s)
unfolding read_loop
read_loop-first (arrival late (channel_data x) s) bytes rest e = (cc, cc, refl)
read_loop-first (arrival late (extended_data x) s) bytes rest e = (cc, cc, refl)
read_loop-first (arrival late channel_eof s) bytes rest e = cc
read_loop-first (arrival late channel_close s) bytes rest e = cc
read_loop-first (arrival late (exit_status code) s) bytes rest e = read_loop-first s bytes rest e
read_loop-first (arrival late unrelated s) bytes rest e = read_loop-first s bytes rest e
read_loop-first ended bytes rest e = cc
read_loop-first silent bytes rest e = cc

-- One payload and an end: the wait for a chunk gives it, and the read after it the end.
first_chunk-one :
    (rounds : ℕ) (c : SshSpikeChannel) (b : ℕ) (bytes : List ℕ)
    → payloads c.read_half ≡ (b ∷ bytes) ∷ []
    → finishes c.read_half ≡ true
    → let found = first_chunk (suc rounds) c in
      (found.0 ≡ some (b ∷ bytes)) × ((Channel.read found.1).0 ≡ ok [])
unfolding first_chunk Channel.read
first_chunk-one rounds c b bytes one ends =
    let (taken, left, still) = read_loop-first c.read_half (b ∷ bytes) [] one in
    let next = ap (λ r. after_read (λ c'. first_chunk rounds c') (r, (Channel.read c).1)) taken in
    (
      ap (λ x. x.0) next,
      ap (λ x. (Channel.read x.1).0) next
          ∙ read_loop-arrives (read_loop c.read_half).1
          ∙ ap (λ x. arrives x (finishes (read_loop c.read_half).1)) left
          ∙ ap (λ x. arrives [] x) (still ∙ ends),
    )

module _ (enters : Caller → Bool) (L : Russh) (k : ℕ) (p : Poison) where
  -- The calls after the client has written `bytes` and half-closed its channel `a`, and after the sink
  -- has echoed on the channel `b`.
  abbrev pub asked : SshSpikeChannel → List ℕ → History → History
  asked a bytes h = (send_eof L a (write L a bytes h).1).1

  abbrev pub answered : SshSpikeChannel → SshSpikeChannel → List ℕ → History → History
  answered a b bytes h = (echo enters L app k b p (asked a bytes h)).0.1

  asked-eq :
      (a : SshSpikeChannel) (bytes : List ℕ) (wa : ℕ) (h : History)
      → a.write_half ≡ some wa
      → asked a bytes h ≡ eof wa ∷ data_bytes wa bytes ∷ h
  unfolding write send_eof
  asked-eq a bytes wa h opened = rw opened refl

  sent-asked :
      (a : SshSpikeChannel) (bytes : List ℕ) (wa wb : ℕ) (h : History)
      → a.write_half ≡ some wa
      → (wa == wb) ≡ false
      → (sent wa (asked a bytes h) ≡ sent wa h ++ (bytes ∷ []))
        × (sent wb (asked a bytes h) ≡ sent wb h)
        × (half_closed wa (asked a bytes h) ≡ true)
  sent-asked a bytes wa wb h opened other =
      let same = ==-same wa in rw (asked-eq a bytes wa h opened, same, other) (refl, refl, refl)

  Accepts-Acknowledges : Accepts L → Acknowledges L
  Accepts-Acknowledges accepts h c e = cc (accepts h c, e)

  answered-eq :
      (b : SshSpikeChannel) (bytes : List ℕ) (wb : ℕ) (h : History) (first : ℕ)
      → Accepts L
      → enters app ≡ true
      → enters worker ≡ false
      → IsClean p
      → b.write_half ≡ some wb
      → payloads b.read_half ≡ (first ∷ bytes) ∷ []
      → (echo enters L app k b p h).0.1 ≡ eof wb ∷ data_bytes wb (first ∷ bytes) ∷ h
  answered-eq b bytes wb h first accepts on_app off clean opened one =
      ap (λ x. x.0.1)
        (echo_lem enters L (Accepts-Acknowledges accepts) on_app off k wb b p h clean opened).0
      ∙ ap (λ x. (echoed wb x (finishes b.read_half) h).1) one

  -- A library whose calls succeed, and two open channels on which nothing was sent yet: the client
  -- writes some bytes on its channel and half-closes it, and the sink gets the other channel. If what
  -- each of them sends arrives at the other whole, with the EOF, then the write and the half-close
  -- succeed, the client's wait for an echo gives the bytes in its first round, and its next read gives
  -- the end.
  pub echo-round_trip :
      (a b : SshSpikeChannel) (wa wb first : ℕ) (rest : List ℕ) (h : History) (rounds : ℕ)
      → Accepts L
      → enters app ≡ true
      → enters worker ≡ false
      → IsClean p
      → a.write_half ≡ some wa
      → b.write_half ≡ some wb
      → (wa == wb) ≡ false
      → sent wa h ≡ []
      → sent wb h ≡ []
      → Carries wa (asked a (first ∷ rest) h) b
      → Carries wb (answered a b (first ∷ rest) h) a
      → let found = first_chunk (suc rounds) a in
        ((write L a (first ∷ rest) h).0 ≡ ok tt)
        × ((send_eof L a (write L a (first ∷ rest) h).1).0 ≡ ok tt)
        × (found.0 ≡ some (first ∷ rest))
        × ((Channel.read found.1).0 ≡ ok [])
  unfolding write send_eof
  echo-round_trip a b wa wb first rest h rounds accepts on_app off clean open_a open_b other fresh_a
        fresh_b there back =
      let (gone_a, gone_b, _) = sent-asked a (first ∷ rest) wa wb h open_a other in
      let one = there.0 ∙ gone_a ∙ ap (λ x. x ++ ((first ∷ rest) ∷ [])) fresh_a in
      let calls =
        answered-eq b rest wb (asked a (first ∷ rest) h) first accepts on_app off clean open_b
          one in
      let echo_sent =
        back.0
        ∙ ap (sent wb) calls
        ∙ rw (==-same wb) (ap (λ x. x ++ ((first ∷ rest) ∷ [])) (gone_b ∙ fresh_b)) in
      let echo_ends = back.1 ∙ ap (half_closed wb) calls ∙ rw (==-same wb) refl in
      let (echoed_back, ended_after) = first_chunk-one rounds a first rest echo_sent echo_ends in
      (rw open_a (rw accepts refl), rw open_a (rw accepts refl), echoed_back, ended_after)
