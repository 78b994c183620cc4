-- ===== src/Forward/Order.antt =====
-- What the app's sink gets of the inbound channels of ssh-transport/src/lib.rs.
use rust_core.Base.{ℕ, ◌≡◌, refl, sym, ◌∙◌, List, [], ◌∷◌, ◌++◌, Text, length, append_assoc}
use rust_core.Base.{append-nil}
use rust_core.Russh.{Russh, History, accept_open}
use rust_core.Connect.{SshSpikeJump, probe_handler}
use rust_core.Connect.Trace.{is_last}
use rust_core.Forward.{Forwarded, ForwardRouter, inbound, server_channel_open_forwarded_tcpip}
use rust_core.Forward.{dispatch, dispatch_rounds}

-- What an inbound channel of an entry of the dial list, with `rest` behind it, is to the sink: nothing if
-- the entry is a hop, and the channel if it is the target.
abbrev pub offered : Russh → List SshSpikeJump → ℕ → Text → ℕ → History → List Forwarded
offered L [] channel address port h =
    (address, port, inbound L (accept_open channel ∷ h) channel) ∷ []
offered L (d ∷ rest) channel address port h = []

-- The states that the router can come to from an empty queue, with all that was offered: the handlers that
-- the entries of a dial list are dialled with and rounds of the task take turns in any order.
pub data Reaches (L : Russh) : List Forwarded → ForwardRouter → Type 0 where
  empty : Reaches L [] (record { pending = []; delivered = [] })
  opened :
      {offers : List Forwarded} {router : ForwardRouter} (d : SshSpikeJump)
      (rest : List SshSpikeJump) (channel : ℕ) (address : Text) (port : ℕ) (h : History)
      → Reaches L offers router
      → Reaches L
          (offers ++ offered L rest channel address port h)
          (server_channel_open_forwarded_tcpip L
            (probe_handler (is_last rest) d)
            channel
            address
            port
            router
            h).0
  dispatched :
      {offers : List Forwarded} {router : ForwardRouter}
      → Reaches L offers router
      → Reaches L offers (dispatch router)

-- All that was offered, in order.
abbrev KeepsOrder : List Forwarded → ForwardRouter → Type 0
KeepsOrder offers router = router.delivered ++ router.pending ≡ offers

dispatch-KeepsOrder :
    (pending delivered offers : List Forwarded)
    → delivered ++ pending ≡ offers
    → KeepsOrder offers (dispatch (record { pending = pending; delivered = delivered }))
unfolding dispatch
dispatch-KeepsOrder [] delivered offers e = e
dispatch-KeepsOrder (next ∷ rest) delivered offers e = append_assoc delivered (next ∷ []) rest ∙ e

opened-KeepsOrder :
    (L : Russh) (offers : List Forwarded) (router : ForwardRouter) (d : SshSpikeJump)
    (rest : List SshSpikeJump) (channel : ℕ) (address : Text) (port : ℕ) (h : History)
    → KeepsOrder offers router
    → KeepsOrder
        (offers ++ offered L rest channel address port h)
        (server_channel_open_forwarded_tcpip L
          (probe_handler (is_last rest) d)
          channel
          address
          port
          router
          h).0
unfolding server_channel_open_forwarded_tcpip
opened-KeepsOrder L offers router d [] channel address port h e =
    rw (← e) (sym (append_assoc router.delivered router.pending _))
opened-KeepsOrder L offers router d (next ∷ rest) channel address port h e =
    e ∙ sym (append-nil offers)

Reaches-KeepsOrder :
    (L : Russh) {offers : List Forwarded} {router : ForwardRouter}
    → Reaches L offers router
    → KeepsOrder offers router
Reaches-KeepsOrder L empty = refl
Reaches-KeepsOrder L (opened {offers} {router} d rest channel address port h r) =
    opened-KeepsOrder L offers router d rest channel address port h (Reaches-KeepsOrder L r)
Reaches-KeepsOrder L (dispatched {offers} {router} r) =
    dispatch-KeepsOrder router.pending router.delivered offers (Reaches-KeepsOrder L r)

dispatch_rounds-all :
    (pending delivered : List Forwarded)
    → dispatch_rounds (length pending) (record { pending = pending; delivered = delivered })
      ≡ record { pending = []; delivered = delivered ++ pending }
unfolding dispatch_rounds dispatch
dispatch_rounds-all [] delivered = rw append-nil
dispatch_rounds-all (next ∷ rest) delivered =
    dispatch_rounds-all rest (delivered ++ (next ∷ []))
    ∙ rw (append_assoc delivered (next ∷ []) rest)

-- In every state that the handlers of the entries of a dial list and rounds of the task can come to, the
-- channels handed to the sink and those pending are all that came in on the connection of the target, in
-- order, and none that came in on one of a hop. As many more rounds as there are channels pending hand over
-- all of them.
pub routed_lem :
    (L : Russh) {offers : List Forwarded} {router : ForwardRouter}
    → Reaches L offers router
    → (router.delivered ++ router.pending ≡ offers)
      × (dispatch_rounds (length router.pending) router
          ≡ record { pending = []; delivered = offers })
routed_lem L {router} r =
    let kept = Reaches-KeepsOrder L r in
    (kept, dispatch_rounds-all router.pending router.delivered ∙ rw kept)
