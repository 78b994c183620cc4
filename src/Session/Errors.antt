-- ===== src/Session/Errors.antt =====
-- How the operations of a session and of its channels in ssh-transport/src/lib.rs fail.
use rust_core.Base.{ℕ, ◌≡◌, refl, Bool, true, false, ◌&&◌, Option, none, some, List, ◌++◌, Text}
use rust_core.Base.{ltb, length, arith, [], ◌∷◌, if◌then◌else◌}
use rust_core.Base.Utf8.{utf8_error, describe, Utf8Error}
use rust_core.Russh.{Russh, RusshError, Stream, arrival, ended, silent, channel_data}
use rust_core.Russh.{extended_data, channel_eof, channel_close, exit_status, unrelated, History}
use rust_core.Russh.{Call, Reply}
use rust_core.Outcome.{SshSpikeError, Outcome, M, perform, ◌>>=◌}
use rust_core.Outcome.Errors.{FailsAs, continue-FailsAs, perform-FailsAs, IsChannel}
use rust_core.Connect.{SshSpikeSession}
use rust_core.Channel.{SshSpikeChannel, read_loop, with_write_half, send_eof, channel_error}
use rust_core.Channel
use rust_core.Session.{exec_loop, banner_loop, from_utf8, receive, open_handle, exec, write}
use rust_core.Session.{resize, direct_tcpip_banner, open_direct_tcpip, sftp_open}
use rust_core.Session.{request_remote_forward, cancel_remote_forward}

-- A result that is no panic and no error but a channel error.
abbrev pub IsChannelResult : {A : Type 0} → Outcome SshSpikeError A × History → Type 0
IsChannelResult x = FailsAs IsChannel x.0

either-FailsAs :
    (P : SshSpikeError → Type 0) (b : Bool) (x y : Outcome SshSpikeError (List ℕ))
    → FailsAs P x
    → FailsAs P y
    → FailsAs P (if b then x else y)
either-FailsAs P true x y p q = p
either-FailsAs P false x y p q = q

pub exec_loop-FailsAs :
    (P : SshSpikeError → Type 0) (s : Stream) (seen : Bool) (got : List ℕ)
    → FailsAs P (exec_loop s seen got)
unfolding exec_loop
exec_loop-FailsAs P (arrival late (channel_data bytes) s) seen got =
    either-FailsAs P (seen && late) _ _ tt (exec_loop-FailsAs P s seen (got ++ bytes))
exec_loop-FailsAs P (arrival late (exit_status code) s) seen got =
    either-FailsAs P (seen && late) _ _ tt (exec_loop-FailsAs P s true got)
exec_loop-FailsAs P (arrival late channel_close s) seen got = tt
exec_loop-FailsAs P (arrival late channel_eof s) seen got =
    either-FailsAs P (seen && late) _ _ tt (exec_loop-FailsAs P s seen got)
exec_loop-FailsAs P (arrival late (extended_data bytes) s) seen got =
    either-FailsAs P (seen && late) _ _ tt (exec_loop-FailsAs P s seen got)
exec_loop-FailsAs P (arrival late unrelated s) seen got =
    either-FailsAs P (seen && late) _ _ tt (exec_loop-FailsAs P s seen got)
exec_loop-FailsAs P ended seen got = tt
exec_loop-FailsAs P silent true got = tt
exec_loop-FailsAs P silent false got = tt

pub banner_loop-FailsAs :
    (P : SshSpikeError → Type 0) (s : Stream) (got : List ℕ) → FailsAs P (banner_loop s got)
unfolding banner_loop
banner_loop-FailsAs P (arrival late (channel_data bytes) s) got =
    either-FailsAs P (ltb (length (got ++ bytes)) 4) _ _ (banner_loop-FailsAs P s (got ++ bytes)) tt
banner_loop-FailsAs P (arrival late channel_close s) got = tt
banner_loop-FailsAs P (arrival late channel_eof s) got = tt
banner_loop-FailsAs P (arrival late (extended_data bytes) s) got = banner_loop-FailsAs P s got
banner_loop-FailsAs P (arrival late (exit_status code) s) got = banner_loop-FailsAs P s got
banner_loop-FailsAs P (arrival late unrelated s) got = banner_loop-FailsAs P s got
banner_loop-FailsAs P ended got = tt
banner_loop-FailsAs P silent got = tt

read_loop-FailsAs : (s : Stream) → FailsAs IsChannel (read_loop s).0
unfolding read_loop
read_loop-FailsAs (arrival late (channel_data bytes) s) = tt
read_loop-FailsAs (arrival late (extended_data bytes) s) = tt
read_loop-FailsAs (arrival late channel_eof s) = tt
read_loop-FailsAs (arrival late channel_close s) = tt
read_loop-FailsAs (arrival late (exit_status code) s) = read_loop-FailsAs s
read_loop-FailsAs (arrival late unrelated s) = read_loop-FailsAs s
read_loop-FailsAs ended = tt
read_loop-FailsAs silent = tt

decoded-FailsAs :
    (got : List ℕ) (e : Option Utf8Error) → utf8_error got ≡ e → FailsAs IsChannel (from_utf8 got)
unfolding from_utf8
decoded-FailsAs got none x = rw (x, from_utf8, FailsAs) tt
decoded-FailsAs got (some e) x = rw (x, from_utf8, FailsAs) (describe e, refl)

receive-FailsAs :
    (r : Outcome SshSpikeError (List ℕ)) (h : History)
    → FailsAs IsChannel r
    → IsChannelResult (receive r h)
receive-FailsAs r h p =
    continue-FailsAs IsChannel (λ got h'. (from_utf8 got, h')) r h p
      (λ got h'. decoded-FailsAs got (utf8_error got) refl)

module _ (L : Russh) where
  channel_error-IsChannel : (e : RusshError) → IsChannel (channel_error L e)
  channel_error-IsChannel e = (L.error_text e, refl)

  call-FailsAs :
      {A : Type 0} (replies : History → Call → Reply RusshError A) (c : Call) (h : History)
      → IsChannelResult (perform replies (channel_error L) c h)
  call-FailsAs replies = perform-FailsAs IsChannel replies (channel_error L) channel_error-IsChannel

  open_handle-FailsAs : (s : SshSpikeSession) (h : History) → IsChannelResult (open_handle L s h)
  open_handle-FailsAs s h = ground arith

  pub with_write_half-FailsAs :
      (message : Text) (half : Option ℕ) (c : ℕ → Call) (h : History)
      → IsChannelResult (with_write_half L message half c h)
  with_write_half-FailsAs message none c h = (message, refl)
  with_write_half-FailsAs message (some wh) c h = call-FailsAs L.acknowledges (c wh) h

  -- An operation on the connection, if its part after the lookup fails so.
  on_handle :
      {A : Type 0} (s : SshSpikeSession) (f : ℕ → M SshSpikeError A) (h : History)
      → ((handle : ℕ) (h' : History) → IsChannelResult (f handle h'))
      → IsChannelResult ((open_handle L s >>= f) h)
  on_handle s f h =
      continue-FailsAs IsChannel f (open_handle L s h).0 (open_handle L s h).1
        (open_handle-FailsAs s h)

  -- A call of the library, and what follows it.
  after_call :
      {A B : Type 0} (replies : History → Call → Reply RusshError A) (c : Call)
      (f : A → M SshSpikeError B) (h : History)
      → ((a : A) (h' : History) → IsChannelResult (f a h'))
      → IsChannelResult ((perform replies (channel_error L) c >>= f) h)
  after_call replies c f h = continue-FailsAs IsChannel f _ (c ∷ h) (call-FailsAs replies c h)

  exec-FailsAs :
      (s : SshSpikeSession) (command : Text) (h : History) → IsChannelResult (exec L s command h)
  unfolding exec
  exec-FailsAs s command h = on_handle s _ h λ handle h1. after_call L.opens _ _ h1 λ channel h2.
      after_call L.acknowledges _ _ h2
        λ _ h3. receive-FailsAs _ h3 (exec_loop-FailsAs IsChannel (L.incoming h3 channel) false [])

  direct_tcpip_banner-FailsAs :
      (s : SshSpikeSession) (host : Text) (port : ℕ) (h : History)
      → IsChannelResult (direct_tcpip_banner L s host port h)
  unfolding direct_tcpip_banner
  direct_tcpip_banner-FailsAs s host port h = on_handle s _ h λ handle h1.
      after_call L.opens _ _ h1 λ channel h2.
        receive-FailsAs _ h2 (banner_loop-FailsAs IsChannel (L.incoming h2 channel) [])

  open_direct_tcpip-FailsAs :
      (s : SshSpikeSession) (host : Text) (port : ℕ) (h : History)
      → IsChannelResult (open_direct_tcpip L s host port h)
  unfolding open_direct_tcpip
  open_direct_tcpip-FailsAs s host port h =
      on_handle s _ h λ handle h1. after_call L.opens _ _ h1 λ channel h2. tt

  pub sftp_open-FailsAs : (s : SshSpikeSession) (h : History) → IsChannelResult (sftp_open L s h)
  unfolding sftp_open
  sftp_open-FailsAs s h = on_handle s _ h λ handle h1.
      after_call L.opens _ _ h1
        λ channel h2. after_call L.acknowledges _ _ h2 λ _ h3. call-FailsAs L.opens _ h3

  -- On any session and channel, whatever the network and the server do: what an operation does on the runtime
  -- and under the guard, apart from `block_on` and `lock().unwrap()`, does not panic, and the error of one that
  -- fails is a channel error. So do the commands, the writes, the resize, the direct channels, the remote
  -- forwards and the start of an SFTP session, and the reads, writes and half-closes of a forwarded channel.
  pub session_errors :
      (s : SshSpikeSession) (c : SshSpikeChannel) (text : Text) (bytes : List ℕ) (a b : ℕ)
      (h : History)
      → IsChannelResult (exec L s text h)
        × IsChannelResult (write L s bytes h)
        × IsChannelResult (resize L s a b h)
        × IsChannelResult (direct_tcpip_banner L s text a h)
        × IsChannelResult (open_direct_tcpip L s text a h)
        × IsChannelResult (request_remote_forward L s text a h)
        × IsChannelResult (cancel_remote_forward L s text a h)
        × IsChannelResult (sftp_open L s h)
        × FailsAs IsChannel (Channel.read c).0
        × IsChannelResult (Channel.write L c bytes h)
        × IsChannelResult (send_eof L c h)
  unfolding write resize request_remote_forward cancel_remote_forward Channel.read Channel.write
      send_eof
  session_errors s c text bytes a b h = (
    exec-FailsAs s text h,
    with_write_half-FailsAs _ s.write_half _ h,
    with_write_half-FailsAs _ s.write_half _ h,
    direct_tcpip_banner-FailsAs s text a h,
    open_direct_tcpip-FailsAs s text a h,
    on_handle s _ h (λ _. call-FailsAs L.opens _),
    on_handle s _ h (λ _. call-FailsAs L.acknowledges _),
    sftp_open-FailsAs s h,
    read_loop-FailsAs c.read_half,
    with_write_half-FailsAs _ c.write_half _ h,
    with_write_half-FailsAs _ c.write_half _ h,
  )
