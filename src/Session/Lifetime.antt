-- ===== src/Session/Lifetime.antt =====
-- A session of ssh-transport/src/lib.rs from `connect_inner` to `disconnect`.
use rust_core.Base.{◌≡◌, sym, ap, ◌∙◌, List, [], ◌∷◌, map, reverse, append-nil}
use rust_core.KnownHosts.Fingerprint.{IsDigest}
use rust_core.Russh.{Russh, Call, Step}
use rust_core.Outcome.{ok}
use rust_core.Connect.{Handshake, SshSpikeConnectParams, SshSpikeSession, connect_inner}
use rust_core.Connect.Steps.{ChecksKey}
use rust_core.Connect.Trace.Dialled.{connect_inner-Passes}
use rust_core.Connect.Connections.{authenticated, connect_inner-Connects}
use rust_core.Session.{disconnect}
use rust_core.Session.Teardown.{Merge, call_of, departures, departures-disconnect}

-- For a hash with 32-byte digests and a handshake that keeps its promise: if a dial has returned a
-- session, and the two tasks that its `disconnect` spawns are interleaved in any way, then goodbye is
-- said once to each connection that the dial has sent a credential to, the newest first, and to no
-- other.
pub connect-disconnect :
    (L : Russh) (digest : IsDigest L.sha256) (handshake : Handshake) (promise : ChecksKey handshake)
    (p : SshSpikeConnectParams) (s : SshSpikeSession) {shell connections : List Step}
    {calls : List Call}
    → (connect_inner L handshake p []).0 ≡ ok s
    → (disconnect s).1 ≡ shell ∷ connections ∷ []
    → Merge (map call_of shell) (map call_of connections) calls
    → departures calls ≡ authenticated (connect_inner L handshake p []).1
connect-disconnect L digest handshake promise p s e tasks m =
    let (_, wh, _, _, _, _, _, open_shell, _) =
      connect_inner-Passes L digest handshake promise p [] s e in
    let (handle, live, sent) = connect_inner-Connects L digest handshake promise p [] s e in
    departures-disconnect s handle wh live open_shell tasks m
    ∙ ap (λ t. handle ∷ t) (sym (append-nil (reverse s.parents)))
    ∙ sym sent
