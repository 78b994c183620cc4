-- ===== src/Pump/Events.antt =====
-- What the sink sees of a shell channel of ssh-transport/src/lib.rs.
use rust_core.Base.{◌≡◌, ◌≢◌, refl, Bool, true, false, List, [], ◌∷◌, ◌++◌, All}
use rust_core.Russh.{Stream, arrival, ended, silent, ChannelMsg, channel_data, extended_data}
use rust_core.Russh.{exit_status, channel_eof, channel_close, unrelated}
use rust_core.Pump.{SshSpikeEvent, data_event, exit_event, closed, died, pump}

-- How a stream ends: by a close, by the end of the transport, or not at all.
pub data Ending : Type 0 where
  by_close by_death open_ended : Ending

abbrev pub ending : Stream → Ending
ending (arrival late (channel_data bytes) s) = ending s
ending (arrival late (extended_data bytes) s) = ending s
ending (arrival late (exit_status code) s) = ending s
ending (arrival late channel_eof s) = ending s
ending (arrival late unrelated s) = ending s
ending (arrival late channel_close s) = by_close
ending ended = by_death
ending silent = open_ended

-- The messages before the first close.
abbrev pub before_close : Stream → List ChannelMsg
before_close (arrival late channel_close s) = []
before_close (arrival late channel_eof s) = channel_eof ∷ before_close s
before_close (arrival late unrelated s) = unrelated ∷ before_close s
before_close (arrival late (channel_data bytes) s) = channel_data bytes ∷ before_close s
before_close (arrival late (extended_data bytes) s) = extended_data bytes ∷ before_close s
before_close (arrival late (exit_status code) s) = exit_status code ∷ before_close s
before_close ended = []
before_close silent = []

abbrev pub events_of : List ChannelMsg → List SshSpikeEvent
events_of [] = []
events_of (channel_data bytes ∷ ms) = data_event bytes ∷ events_of ms
events_of (extended_data bytes ∷ ms) = data_event bytes ∷ events_of ms
events_of (exit_status code ∷ ms) = exit_event code ∷ events_of ms
events_of (_ ∷ ms) = events_of ms

abbrev pub last_event : Ending → List SshSpikeEvent
last_event by_close = closed ∷ []
last_event by_death = died ∷ []
last_event open_ended = []

abbrev pub is_over : Ending → Bool
is_over open_ended = false
is_over _ = true

abbrev pub IsProgress : SshSpikeEvent → Type 0
IsProgress e = (e ≢ closed) × (e ≢ died)

progress : (ms : List ChannelMsg) → All IsProgress (events_of ms)
progress [] = tt
progress (channel_data bytes ∷ ms) = ((λ e. cc, λ e. cc), progress ms)
progress (extended_data bytes ∷ ms) = ((λ e. cc, λ e. cc), progress ms)
progress (exit_status code ∷ ms) = ((λ e. cc, λ e. cc), progress ms)
progress (channel_eof ∷ ms) = progress ms
progress (channel_close ∷ ms) = progress ms
progress (unrelated ∷ ms) = progress ms

pump-events :
    (s : Stream)
    → pump s ≡ (events_of (before_close s) ++ last_event (ending s), is_over (ending s))
unfolding pump
pump-events (arrival late (channel_data bytes) s) = rw (pump-events s)
pump-events (arrival late (extended_data bytes) s) = rw (pump-events s)
pump-events (arrival late (exit_status code) s) = rw (pump-events s)
pump-events (arrival late channel_eof s) = pump-events s
pump-events (arrival late unrelated s) = pump-events s
pump-events (arrival late channel_close s) = refl
pump-events ended = refl
pump-events silent = refl

-- The sink gets the data and exit events of the messages before the first close, in order and none
-- of them final, and then exactly one final event: `Closed` for a close, `Died` for a transport
-- that ended without one. It gets no final event only while the stream has not ended.
pub pump_lem :
    (s : Stream)
    → ((pump s).0 ≡ events_of (before_close s) ++ last_event (ending s))
      × All IsProgress (events_of (before_close s))
      × ((pump s).1 ≡ is_over (ending s))
pump_lem s = rw (pump-events s) (refl, progress (before_close s), refl)
