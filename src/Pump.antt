-- ===== src/Pump.antt =====
-- `pump` of ssh-transport/src/lib.rs: the task that turns the shell channel's messages into events.
pub mod Events
use rust_core.Base.{ℕ, Bool, true, false, List, [], ◌∷◌}
use rust_core.Russh.{Stream, arrival, ended, silent, channel_data, extended_data, exit_status}
use rust_core.Russh.{channel_close}

pub data SshSpikeEvent : Type 0 where
  data_event : List ℕ → SshSpikeEvent
  exit_event : (code : ℕ) → SshSpikeEvent
  closed died : SshSpikeEvent

-- The events that are delivered, in order, and whether the task ends.
unfoldable pub pump : Stream → List SshSpikeEvent × Bool
pump (arrival late (channel_data bytes) s) =
    let (es, over) = pump s in (data_event bytes ∷ es, over)
pump (arrival late (extended_data bytes) s) =
    let (es, over) = pump s in (data_event bytes ∷ es, over)
pump (arrival late (exit_status code) s) = let (es, over) = pump s in (exit_event code ∷ es, over)
pump (arrival late channel_close s) = (closed ∷ [], true)
pump (arrival late _ s) = pump s
pump ended = (died ∷ [], true)
pump silent = ([], false)
