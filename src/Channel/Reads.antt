-- ===== src/Channel/Reads.antt =====
-- A sequence of reads on a channel of ssh-transport/src/lib.rs, and its end.
use rust_core.Base.{ℕ, zero, suc, ◌<◌, ◌≡◌, ◌≢◌, refl, ap, Bool, true, false, Option, none, some}
use rust_core.Base.{List, [], ◌∷◌, ◌++◌, arith, codes, All, ◌∙◌}
use rust_core.Russh.{Russh, Stream, arrival, ended, silent, channel_data, extended_data}
use rust_core.Russh.{channel_eof, channel_close, exit_status, unrelated, History, eof, close}
use rust_core.Russh.{plain}
use rust_core.Outcome.{SshSpikeError, Outcome, ok, err, panic, blocked}
use rust_core.Channel.{SshSpikeChannel, read_loop, read, write, send_eof, disconnect}

-- The payloads up to the end of the remote's data, and whether that end is there.
abbrev pub payloads : Stream → List (List ℕ)
payloads (arrival late (channel_data bytes) s) = bytes ∷ payloads s
payloads (arrival late (extended_data bytes) s) = bytes ∷ payloads s
payloads (arrival late channel_eof s) = []
payloads (arrival late channel_close s) = []
payloads (arrival late (exit_status code) s) = payloads s
payloads (arrival late unrelated s) = payloads s
payloads ended = []
payloads silent = []

abbrev pub finishes : Stream → Bool
finishes (arrival late (channel_data bytes) s) = finishes s
finishes (arrival late (extended_data bytes) s) = finishes s
finishes (arrival late channel_eof s) = true
finishes (arrival late channel_close s) = true
finishes (arrival late (exit_status code) s) = finishes s
finishes (arrival late unrelated s) = finishes s
finishes ended = true
finishes silent = false

abbrev pub messages : Stream → ℕ
messages (arrival late m s) = suc (messages s)
messages ended = 0
messages silent = 0

abbrev pub IsFilled : List ℕ → Type 0
IsFilled bytes = bytes ≢ []

-- `drain` puts a chunk in front of what the later reads give.
abbrev onto : List ℕ → Option (List ℕ) → Option (List ℕ)
onto bytes none = none
onto bytes (some more) = some (bytes ++ more)

-- One read of a bridge, which goes on until a chunk is empty.
abbrev pub and_then :
    (SshSpikeChannel → Option (List ℕ))
    → Outcome SshSpikeError (List ℕ) × SshSpikeChannel
    → Option (List ℕ)
and_then next (ok [], c) = some []
and_then next (ok (b ∷ bytes), c) = onto (b ∷ bytes) (next c)
and_then next (err e, c) = none
and_then next (panic, c) = none
and_then next (blocked, c) = none

-- Its reads; `none` if one blocks or the fuel runs out.
unfoldable pub drain : ℕ → SshSpikeChannel → Option (List ℕ)
drain zero c = none
drain (suc fuel) c = and_then (λ c'. drain fuel c') (read c)

abbrev pub joined : List (List ℕ) → List ℕ
joined [] = []
joined (bytes ∷ rest) = bytes ++ joined rest

abbrev at : SshSpikeChannel → Stream → SshSpikeChannel
at c s = record c { read_half = s }

-- A read passes over a message that carries nothing.
drain-skip :
    (fuel : ℕ) (c : SshSpikeChannel) (s t : Stream)
    → read_loop s ≡ read_loop t
    → drain (suc fuel) (at c s) ≡ drain (suc fuel) (at c t)
unfolding drain read
drain-skip fuel c s t e = ap (λ p. and_then (λ c'. drain fuel c') (p.0, at c p.1)) e

drain-data :
    (fuel : ℕ) (c : SshSpikeChannel) (bytes : List ℕ) (s t : Stream)
    → read_loop t ≡ (ok bytes, s)
    → IsFilled bytes
    → drain (suc fuel) (at c t) ≡ onto bytes (drain fuel (at c s))
unfolding drain read
drain-data fuel c [] s t e filled = absurd (filled refl)
drain-data fuel c (b ∷ bytes) s t e filled =
    ap (λ p. and_then (λ c'. drain fuel c') (p.0, at c p.1)) e

drain-end :
    (fuel : ℕ) (c : SshSpikeChannel) (s t : Stream)
    → read_loop t ≡ (ok [], s)
    → drain (suc fuel) (at c t) ≡ some []
unfolding drain read
drain-end fuel c s t e = ap (λ p. and_then (λ c'. drain fuel c') (p.0, at c p.1)) e

drain-payloads :
    (s : Stream) (fuel : ℕ) (c : SshSpikeChannel)
    → messages s < fuel
    → All IsFilled (payloads s)
    → finishes s ≡ true
    → drain fuel (at c s) ≡ some (joined (payloads s))
unfolding read_loop
drain-payloads s zero c f p e = absurd (omega arith)
drain-payloads (arrival late (channel_data bytes) s) (suc fuel) c f p e =
    drain-data fuel c bytes s _ refl p.0 ∙ rw (drain-payloads s fuel c (omega arith) p.1 e)
drain-payloads (arrival late (extended_data bytes) s) (suc fuel) c f p e =
    drain-data fuel c bytes s _ refl p.0 ∙ rw (drain-payloads s fuel c (omega arith) p.1 e)
drain-payloads (arrival late channel_eof s) (suc fuel) c f p e = drain-end fuel c s _ refl
drain-payloads (arrival late channel_close s) (suc fuel) c f p e = drain-end fuel c s _ refl
drain-payloads (arrival late (exit_status code) s) (suc fuel) c f p e =
    drain-skip fuel c _ s refl ∙ drain-payloads s (suc fuel) c (omega arith) p e
drain-payloads (arrival late unrelated s) (suc fuel) c f p e =
    drain-skip fuel c _ s refl ∙ drain-payloads s (suc fuel) c (omega arith) p e
drain-payloads ended (suc fuel) c f p e = drain-end fuel c ended _ refl
drain-payloads silent (suc fuel) c f p e = cc

-- Reading until a chunk is empty gives, in order, every byte that the remote sent before its EOF,
-- its close or the end of the transport, if there is such an end and no payload is empty. One read
-- more than there are messages is enough.
pub drain-joined :
    (c : SshSpikeChannel)
    → All IsFilled (payloads c.read_half)
    → finishes c.read_half ≡ true
    → drain (suc (messages c.read_half)) c ≡ some (joined (payloads c.read_half))
drain-joined c p e = drain-payloads c.read_half (suc (messages c.read_half)) c (omega arith) p e

-- After `disconnect` of a channel that is open, which spawns one EOF and one close, a write and an EOF
-- are refused with no call made, another `disconnect` spawns nothing, and reads go on as before.
pub disconnect_lem :
    (L : Russh) (c : SshSpikeChannel) (wh : ℕ) (bytes : List ℕ) (h : History)
    → c.write_half ≡ some wh
    → let (c', tasks) = disconnect c in
      (tasks ≡ (plain (eof wh) ∷ plain (close wh) ∷ []) ∷ [])
      × (write L c' bytes h ≡ (err (SshSpikeError.channel (codes "channel closed")), h))
      × (send_eof L c' h ≡ (err (SshSpikeError.channel (codes "channel closed")), h))
      × ((disconnect c').1 ≡ [])
      × ((read c').0 ≡ (read c).0)
unfolding disconnect write send_eof read
disconnect_lem L c wh bytes h e = (rw e, refl, refl, refl, refl)
