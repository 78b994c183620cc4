-- ===== src/Forward.antt =====
-- `ForwardRouter` and `server_channel_open_forwarded_tcpip` of ssh-transport/src/lib.rs: inbound
-- forwarded channels go from the handler through a queue to a task that calls the app's sink.
pub mod Order
use rust_core.Base.{ℕ, zero, suc, Bool, true, false, some, List, [], ◌∷◌, ◌++◌, Text, if◌then◌else◌}
use rust_core.Russh.{Russh, History, accept_open}
use rust_core.Channel.{SshSpikeChannel}
use rust_core.HostKey.{ProbeHandler}

-- What is handed over: the address that was bound on the server, its port and the channel.
abbrev pub Forwarded : Type 0
Forwarded = Text × ℕ × SshSpikeChannel

-- The queue between the two ends of `tx`, and what the sink has been called with, in order.
pub record ForwardRouter : Type 0 where
  pub pending : List Forwarded
  pub delivered : List Forwarded

-- The channel that the handler makes of an inbound one.
abbrev pub inbound : Russh → History → ℕ → SshSpikeChannel
inbound L h channel = record { read_half = L.incoming h channel; write_half = some channel }

-- The channel is accepted in any case, and sent to the router if the handler has one; the unbounded
-- send does not wait.
unfoldable pub server_channel_open_forwarded_tcpip :
    Russh → ProbeHandler → ℕ → Text → ℕ → ForwardRouter → History → ForwardRouter × History
server_channel_open_forwarded_tcpip L handler channel address port router h =
    let h' : History = accept_open channel ∷ h in
    (
      if handler.has_router
          then record router {
            pending = router.pending ++ ((address, port, inbound L h' channel) ∷ []);
          }
          else router,
      h',
    )

-- One round of `dispatch_loop`: it waits on an empty queue.
unfoldable pub dispatch : ForwardRouter → ForwardRouter
dispatch router = elim router.pending [
  | [] ↦ router
  | (next ∷ rest) ↦ record { pending = rest; delivered = router.delivered ++ (next ∷ []) }
]

-- `dispatch_loop` until it waits: a round for each connection that is pending.
unfoldable pub dispatch_rounds : ℕ → ForwardRouter → ForwardRouter
dispatch_rounds zero router = router
dispatch_rounds (suc n) router = dispatch_rounds n (dispatch router)
