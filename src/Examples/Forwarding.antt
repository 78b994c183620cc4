-- ===== src/Examples/Forwarding.antt =====
-- The theorem about inbound forwarded channels (ssh-transport/src/lib.rs) on a short run.
use rust_core.Base.{◌≡◌, List, [], ◌∷◌, ◌++◌, length, codes}
use rust_core.Russh.{accept_open}
use rust_core.Forward.{Forwarded, ForwardRouter, inbound, server_channel_open_forwarded_tcpip}
use rust_core.Forward.{dispatch, dispatch_rounds}
use rust_core.Forward.Order.{Reaches, empty, opened, dispatched, routed_lem}
use rust_core.Connect.{target_entry}
use rust_core.Examples.{server, bastion, params}

-- A channel of the target, a round of the task, a channel of a hop and another of the target.
abbrev last_router : ForwardRouter
last_router = record {
  pending = (codes "0.0.0.0", 8080, inbound server (accept_open 7 ∷ []) 7) ∷ [];
  delivered = (codes "0.0.0.0", 8080, inbound server (accept_open 3 ∷ []) 3) ∷ [];
}

abbrev offers : List Forwarded
offers = last_router.delivered ++ last_router.pending

last_router-Reaches : Reaches server offers last_router
unfolding server_channel_open_forwarded_tcpip dispatch
last_router-Reaches = opened (target_entry params) [] 7 (codes "0.0.0.0") 8080 [] (
    opened bastion (target_entry params ∷ []) 5 (codes "0.0.0.0") 8080 []
      (dispatched (opened (target_entry params) [] 3 (codes "0.0.0.0") 8080 [] empty)))

routed_lem_example :
    (last_router.delivered ++ last_router.pending ≡ offers)
    × (dispatch_rounds (length last_router.pending) last_router
        ≡ record { pending = []; delivered = offers })
routed_lem_example = routed_lem server last_router-Reaches
