-- ===== src/Examples/Verifiers.antt =====
-- A dial of ssh-transport/src/lib.rs to a server whose key is in the wire form of RFC 4253.
use rust_core.Base.{◌≡◌, refl, inr, true, false, some, List, [], ◌∷◌, ◌++◌, Text, codes, ℕ}
use rust_core.KnownHosts.{is_plausible_blob, base64_encode, encode_chunk, table_at}
use rust_core.KnownHosts.{blob_fingerprint}
use rust_core.KnownHosts.Plausible.{to_be_bytes}
use rust_core.Russh.{HostKey, public_key}
use rust_core.Outcome.{ok}
use rust_core.HostKey.{check_server_key, wire_form, log_key}
use rust_core.Connect.{Handshake, SshSpikeSession, connect_inner, dial_list, dial_loop, dial_hop}
use rust_core.Connect.{authenticate, open_session, open_shell}
use rust_core.Clients.Dialling.{shell_params}
use rust_core.Clients.Dialling.Verifying.{accept, seen}
use rust_core.Clients.Dialling.Verifying.{host_key_verifier_sees_a_plausible_wire_blob}
use rust_core.Clients.Dialling.Verifying.Seen.{ed25519, IsWireKey, ShowsWireKeys, verifier_lem}
use rust_core.Examples.{sevens-IsDigest, server, goes_by, goes_by-FollowsCheck}

abbrev name : Text
name = codes "ssh-ed25519"

abbrev wire_blob : List ℕ
wire_blob = to_be_bytes 11 ++ (name ++ (0 ∷ 0 ∷ 0 ∷ 1 ∷ 9 ∷ []))

abbrev wired : HostKey
wired = public_key name (some wire_blob)

abbrev shows : Handshake
shows check handler c h = (goes_by (check handler wired h).0 16, (check handler wired h).1)

wired-IsWireKey : IsWireKey name wire_blob
wired-IsWireKey = (ed25519, false, 0 ∷ 0 ∷ 0 ∷ 1 ∷ 9 ∷ [], refl, refl)

shows-ShowsWireKeys : ShowsWireKeys shows
shows-ShowsWireKeys check handler c h = inr (
  wired,
  λ algorithm blob e.
      let named : name ≡ algorithm = cc in
      let encoded_so : wire_blob ≡ blob = cc in rw (← named, ← encoded_so) wired-IsWireKey,
  goes_by-FollowsCheck (check handler wired h).0 16,
  refl,
)

abbrev session : SshSpikeSession
session = record { write_half = some 4; handle = some 16; parents = [] }

returned : (connect_inner (accept server) shows shell_params []).0 ≡ ok session
unfolding connect_inner dial_list dial_loop dial_hop check_server_key wire_form log_key
    blob_fingerprint base64_encode encode_chunk table_at authenticate open_session open_shell
returned = refl

verifier_lem_example :
    (algorithm : Text) × (blob : List ℕ) × (seen
        (connect_inner (accept server) shows shell_params []).1
      ≡ (codes "127.0.0.1:2233", algorithm, blob) ∷ [])
    × (is_plausible_blob blob ≡ some true)
    × ((host_key_verifier_sees_a_plausible_wire_blob server shows []).0 ≡ ok tt)
verifier_lem_example =
    verifier_lem server sevens-IsDigest shows shows-ShowsWireKeys [] session returned refl
