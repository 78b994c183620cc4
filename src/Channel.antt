-- ===== src/Channel.antt =====
-- `SshSpikeChannel` of ssh-transport/src/lib.rs: the byte pipe of a forwarded connection. The read
-- half is what `wait` delivers from now on; the write half is the channel's number.
pub mod Reads
use rust_core.Base.{ℕ, Bool, true, false, Option, none, some, List, [], ◌∷◌, Text, codes}
use rust_core.Russh.{Russh, RusshError, Stream, arrival, ended, silent, channel_data}
use rust_core.Russh.{extended_data, channel_eof, channel_close, Call, History, data_bytes, eof}
use rust_core.Russh.{close, Step, plain}
use rust_core.Outcome.{SshSpikeError, Outcome, ok, blocked, M, raise, perform}

pub record SshSpikeChannel : Type 0 where
  pub read_half : Stream
  pub write_half : Option ℕ

-- The loop of `read`: its result and what `wait` delivers after it.
unfoldable pub read_loop : Stream → Outcome SshSpikeError (List ℕ) × Stream
read_loop (arrival late (channel_data bytes) s) = (ok bytes, s)
read_loop (arrival late (extended_data bytes) s) = (ok bytes, s)
read_loop (arrival late channel_eof s) = (ok [], s)
read_loop (arrival late channel_close s) = (ok [], s)
read_loop (arrival late _ s) = read_loop s
read_loop ended = (ok [], ended)
read_loop silent = (blocked, silent)

unfoldable pub read : SshSpikeChannel → Outcome SshSpikeError (List ℕ) × SshSpikeChannel
read c = let (r, s) = read_loop c.read_half in (r, record c { read_half = s })

module _ (L : Russh) where
  abbrev pub channel_error : RusshError → SshSpikeError
  channel_error e = SshSpikeError.channel (L.error_text e)

  -- A call on the write half, if it is still there.
  abbrev pub with_write_half : Text → Option ℕ → (ℕ → Call) → M SshSpikeError (Unit {0})
  with_write_half message none c = raise (SshSpikeError.channel message)
  with_write_half message (some wh) c = perform L.acknowledges channel_error (c wh)

  unfoldable pub write : SshSpikeChannel → List ℕ → M SshSpikeError (Unit {0})
  write c bytes = with_write_half (codes "channel closed") c.write_half (λ wh. data_bytes wh bytes)

  unfoldable pub send_eof : SshSpikeChannel → M SshSpikeError (Unit {0})
  send_eof c = with_write_half (codes "channel closed") c.write_half eof

-- The tasks that close a write half: one for a half that is there.
abbrev pub closing : Option ℕ → List (List Step)
closing none = []
closing (some wh) = (plain (eof wh) ∷ plain (close wh) ∷ []) ∷ []

-- `disconnect`: the write half is taken, and the tasks that are spawned.
unfoldable pub disconnect : SshSpikeChannel → SshSpikeChannel × List (List Step)
disconnect c = (record c { write_half = none }, closing c.write_half)
