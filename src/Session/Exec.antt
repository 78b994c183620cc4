-- ===== src/Session/Exec.antt =====
-- What `exec` and `direct_tcpip_banner` of ssh-transport/src/lib.rs return, and when they wait for
-- ever.
use rust_core.Base.{ℕ, ◌≡◌, ◌≢◌, ◌↔◌, inl, inr, refl, ◌∙◌, Bool, true, false, not, ◌&&◌, ◌||◌}
use rust_core.Base.{none, some, List, [], ◌∷◌, ◌++◌, append_assoc, append-nil, Text, arith}
use rust_core.Base.{if◌then◌else◌, Bool-cases}
use rust_core.Base.Utf8.{utf8_error}
use rust_core.Russh.{Russh, Stream, arrival, ended, silent, ChannelMsg, channel_data}
use rust_core.Russh.{extended_data, channel_eof, channel_close, exit_status, unrelated, History}
use rust_core.Russh.{Call, done, channel_open_session}
use rust_core.Outcome.{SshSpikeError, Outcome, ok, blocked, continue}
use rust_core.Connect.{SshSpikeSession}
use rust_core.Pump.Events.{before_close}
use rust_core.Session.{exec_loop, from_utf8, exec}

-- The standard output among some messages.
abbrev pub stdout : List ChannelMsg → List ℕ
stdout [] = []
stdout (channel_data bytes ∷ ms) = bytes ++ stdout ms
stdout (_ ∷ ms) = stdout ms

abbrev is_status : ChannelMsg → Bool
is_status (exit_status code) = true
is_status _ = false

-- The server says that the command is over: by a status, a close or the end of the transport.
abbrev pub concludes : Stream → Bool
concludes (arrival late (exit_status code) s) = true
concludes (arrival late channel_close s) = true
concludes (arrival late (channel_data bytes) s) = concludes s
concludes (arrival late (extended_data bytes) s) = concludes s
concludes (arrival late channel_eof s) = concludes s
concludes (arrival late unrelated s) = concludes s
concludes ended = true
concludes silent = false

-- After the status, and before the close, no message is more than 300 ms late.
abbrev pub is_prompt : Bool → Stream → Bool
is_prompt seen (arrival late channel_close s) = true
is_prompt seen (arrival late (exit_status code) s) = not (seen && late) && is_prompt true s
is_prompt seen (arrival late (channel_data bytes) s) = not (seen && late) && is_prompt seen s
is_prompt seen (arrival late (extended_data bytes) s) = not (seen && late) && is_prompt seen s
is_prompt seen (arrival late channel_eof s) = not (seen && late) && is_prompt seen s
is_prompt seen (arrival late unrelated s) = not (seen && late) && is_prompt seen s
is_prompt seen ended = true
is_prompt seen silent = true

exec_loop-stdout :
    (s : Stream) (seen : Bool) (got : List ℕ)
    → is_prompt seen s ≡ true
    → (seen || concludes s) ≡ true
    → exec_loop s seen got ≡ ok (got ++ stdout (before_close s))
unfolding exec_loop
exec_loop-stdout (arrival late (channel_data bytes) s) seen got p c = ground (
  arith,
  exec_loop-stdout s seen (got ++ bytes),
  append_assoc got bytes (stdout (before_close s)),
)
exec_loop-stdout (arrival late (exit_status code) s) seen got p c =
    ground (arith, exec_loop-stdout s true got)
exec_loop-stdout (arrival late channel_close s) seen got p c = rw append-nil
exec_loop-stdout (arrival late channel_eof s) seen got p c =
    ground (arith, exec_loop-stdout s seen got)
exec_loop-stdout (arrival late (extended_data bytes) s) seen got p c =
    ground (arith, exec_loop-stdout s seen got)
exec_loop-stdout (arrival late unrelated s) seen got p c =
    ground (arith, exec_loop-stdout s seen got)
exec_loop-stdout ended seen got p c = rw append-nil
exec_loop-stdout silent seen got p c = rw append-nil (ground arith)

abbrev Returned : Outcome SshSpikeError (List ℕ) → Type 0
Returned r = (bytes : List ℕ) × (r ≡ ok bytes)

either-Returned :
    (b : Bool) (got : List ℕ) (rest : Outcome SshSpikeError (List ℕ))
    → Returned rest
    → Returned (if b then ok got else rest)
either-Returned true got rest r = (got, refl)
either-Returned false got rest r = r

exec_loop-Returned :
    (s : Stream) (seen : Bool) (got : List ℕ)
    → (seen || concludes s) ≡ true
    → Returned (exec_loop s seen got)
unfolding exec_loop
exec_loop-Returned (arrival late (channel_data bytes) s) seen got c =
    either-Returned (seen && late) got _ (exec_loop-Returned s seen _ c)
exec_loop-Returned (arrival late (exit_status code) s) seen got c =
    either-Returned (seen && late) got _ (exec_loop-Returned s true got refl)
exec_loop-Returned (arrival late channel_close s) seen got c = (got, refl)
exec_loop-Returned (arrival late channel_eof s) seen got c =
    either-Returned (seen && late) got _ (exec_loop-Returned s seen got c)
exec_loop-Returned (arrival late (extended_data bytes) s) seen got c =
    either-Returned (seen && late) got _ (exec_loop-Returned s seen got c)
exec_loop-Returned (arrival late unrelated s) seen got c =
    either-Returned (seen && late) got _ (exec_loop-Returned s seen got c)
exec_loop-Returned ended seen got c = (got, refl)
exec_loop-Returned silent true got c = (got, refl)
exec_loop-Returned silent false got c = cc

pub exec_loop-blocks :
    (s : Stream) (got : List ℕ) → concludes s ≡ false → exec_loop s false got ≡ blocked
unfolding exec_loop
exec_loop-blocks (arrival late (channel_data bytes) s) got c = exec_loop-blocks s _ c
exec_loop-blocks (arrival late (exit_status code) s) got c = cc
exec_loop-blocks (arrival late channel_close s) got c = cc
exec_loop-blocks (arrival late channel_eof s) got c = exec_loop-blocks s got c
exec_loop-blocks (arrival late (extended_data bytes) s) got c = exec_loop-blocks s got c
exec_loop-blocks (arrival late unrelated s) got c = exec_loop-blocks s got c
exec_loop-blocks ended got c = cc
exec_loop-blocks silent got c = refl

from_utf8-ne_blocked : (bytes : List ℕ) → from_utf8 bytes ≢ blocked
unfolding from_utf8
from_utf8-ne_blocked bytes = ground arith

received_blocked :
    (s : Stream) (h : History)
    → ((continue (λ got h'. (from_utf8 got, h')) (exec_loop s false []) h).0 ≡ blocked)
      ↔ (concludes s ≡ false)
received_blocked s h = (
  λ e. elim (Bool-cases (concludes s)) [
    | inl over ↦
        let (bytes, r) = exec_loop-Returned s false [] over in
        absurd (from_utf8-ne_blocked bytes (rw r at e))
    | inr endless ↦ endless
  ],
  λ endless. rw (exec_loop-blocks s [] endless),
)

-- A run of `exec` whose channel opens and whose request is sent.
module _ (L : Russh) (s : SshSpikeSession) (command : Text) (h : History) {handle channel : ℕ}
    (live : s.handle ≡ some handle)
    (opened : L.opens h (channel_open_session handle) ≡ done channel)
    (sent : L.acknowledges (channel_open_session handle ∷ h) (Call.exec channel false command)
      ≡ done tt) where
  abbrev pub asked : History
  asked = Call.exec channel false command ∷ channel_open_session handle ∷ h

  pub exec-receive :
      exec L s command h
      ≡ continue
          (λ got h'. (from_utf8 got, h'))
          (exec_loop (L.incoming asked channel) false [])
          asked
  unfolding exec
  exec-receive = rw (live, opened, sent)

  -- On a session that is connected, whose channel opens and whose request is sent: the output of a
  -- command is all the standard output that the server sends before it closes the channel, also what
  -- comes after the status, if that output is UTF-8, if the server says by a status, a close or the
  -- end of the transport that the command is over, and if no message after the status is late.
  pub exec-stdout :
      is_prompt false (L.incoming asked channel) ≡ true
      → concludes (L.incoming asked channel) ≡ true
      → utf8_error (stdout (before_close (L.incoming asked channel))) ≡ none
      → exec L s command h ≡ (ok (stdout (before_close (L.incoming asked channel))), asked)
  unfolding from_utf8
  exec-stdout p c u =
      exec-receive
      ∙ rw (exec_loop-stdout (L.incoming asked channel) false [] p c) (rw (u, from_utf8) refl)

  -- On a session that is connected, whose channel opens and whose request is sent: `exec` waits for
  -- ever exactly when the server goes silent with no status, close or end of the transport.
  exec-blocked_iff :
      ((exec L s command h).0 ≡ blocked) ↔ (concludes (L.incoming asked channel) ≡ false)
  exec-blocked_iff = rw exec-receive (received_blocked (L.incoming asked channel) asked)
