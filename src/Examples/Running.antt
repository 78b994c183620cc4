-- ===== src/Examples/Running.antt =====
-- The theorems about an open session and its channels (ssh-transport/src/lib.rs) at concrete data.
use rust_core.Base.{ℕ, ◌≡◌, refl, true, false, some, List, [], ◌∷◌, ◌++◌, All, codes, ◌⊎◌, ◌<◌}
use rust_core.Base.{length, ◌≤◌, none, Text}
use rust_core.Base.Utf8.{utf8_error}
use rust_core.Russh.{Russh, silent, channel_open_direct_tcpip, Stream, arrival, ended}
use rust_core.Russh.{channel_data, channel_eof, History, hangs, Call, Reply, RusshError}
use rust_core.Russh.{channel_open_session, Step, plain, eof, close}
use rust_core.Connect.{localhost, SshSpikeSession}
use rust_core.Channel.Reads.{finishes, drain, drain-joined, disconnect_lem}
use rust_core.Outcome.{SshSpikeError, ok, err, blocked, Outcome}
use rust_core.Channel.{SshSpikeChannel, read, write, send_eof, closing}
use rust_core.Channel
use rust_core.Session
use rust_core.Pump.{pump, data_event, exit_event, closed}
use rust_core.Pump.Events.{events_of, before_close, IsProgress, pump_lem}
use rust_core.Session.{banner_loop, from_utf8, exec, disconnect, farewell}
use rust_core.Session.Exec.{concludes, exec-stdout, is_prompt}
use rust_core.Session.Output.{exec_lem}
use rust_core.Session.Texts.{IsText}
use rust_core.Session.Banner.{direct_tcpip_banner_lem, IsBanner}
use rust_core.Session.Closed.{disconnect-IsRefused, IsRefused}
use rust_core.Session.Teardown.{farewells_bounded, elapsed, bye, run_task, farewells_lem, left}
use rust_core.Session.Teardown.{right, nil, departures, departures-disconnect}
use rust_core.Examples.{server, output}

abbrev live : SshSpikeSession
live = record { write_half = some 8; handle = some 6; parents = 2 ∷ 4 ∷ [] }

abbrev run_of_ls : History
run_of_ls = Call.exec 0 false (codes "ls") ∷ channel_open_session 6 ∷ []

-- The output that comes after the status is there, and the standard error is not.
exec_runs : exec server live (codes "ls") [] ≡ (ok (codes "abcd"), run_of_ls)
unfolding utf8_error
exec_runs = exec-stdout server live (codes "ls") [] refl refl refl refl refl refl

exec_lem_example :
    ((exec server live (codes "ls") [] ≡ (blocked, run_of_ls)) × (concludes output ≡ false))
    ⊎ ((extra : List ℕ) × (lost : List ℕ) × (concludes output ≡ true)
        × ((r : Outcome SshSpikeError Text) × (exec server live (codes "ls") [] ≡ (r, run_of_ls))
            × IsText (codes "ab" ++ extra) r)
        × (codes "abcd" ≡ (codes "ab" ++ extra) ++ lost)
        × ((lost ≡ []) ⊎ (is_prompt false output ≡ false)))
exec_lem_example = exec_lem server live (codes "ls") [] refl refl refl

abbrev greeting : Stream
greeting = arrival true (channel_data (codes "SS")) (
    arrival false (channel_data (codes "H-2.0"))
      (arrival false (channel_data (codes "-x")) (arrival false channel_eof ended)))

abbrev greeting_server : Russh
greeting_server = record server { incoming = λ _ _. greeting }

abbrev probe : History
probe = channel_open_direct_tcpip 6 (codes "inner") 22 localhost 0 ∷ []

-- The probe stops at seven bytes of the greeting, and on two bytes and silence it waits.
greeting_runs :
    (banner_loop greeting [] ≡ ok (codes "SSH-2.0"))
    × (banner_loop (arrival false (channel_data (codes "SS")) silent) [] ≡ blocked)
unfolding banner_loop
greeting_runs = (refl, refl)

direct_tcpip_banner_lem_example :
    let found = Session.direct_tcpip_banner greeting_server live (codes "inner") 22 [] in
    ((bytes : List ℕ) × ((r : Outcome SshSpikeError Text) × (found ≡ (r, probe)) × IsText bytes r)
      × IsBanner (codes "SSH-2.0-x") bytes)
    ⊎ ((found ≡ (blocked, probe)) × (finishes greeting ≡ false) × (length (codes "SSH-2.0-x") < 4))
direct_tcpip_banner_lem_example =
    direct_tcpip_banner_lem greeting_server live (codes "inner") 22 [] refl refl

disconnect-IsRefused_example :
    let t = (disconnect live).0 in
    IsRefused (exec server t (codes "ls"))
    × IsRefused (Session.write server t (1 ∷ []))
    × IsRefused (Session.resize server t 80 24)
    × IsRefused (Session.direct_tcpip_banner server t (codes "ls") 80)
    × IsRefused (Session.open_direct_tcpip server t (codes "ls") 80)
    × IsRefused (Session.request_remote_forward server t (codes "ls") 80)
    × IsRefused (Session.cancel_remote_forward server t (codes "ls") 80)
    × IsRefused (Session.sftp_open server t)
    × ((disconnect t).1 ≡ [])
disconnect-IsRefused_example = disconnect-IsRefused server live (codes "ls") (1 ∷ []) 80 24

-- No connection replies any more.
abbrev dead : History → Call → Reply RusshError (Unit {0})
dead h c = hangs

farewells_lem_example :
    (task : List Step) × ((disconnect live).1 ≡ closing (some 8) ++ (task ∷ []))
    × (run_task dead task [] ≡ (bye 2 ∷ bye 4 ∷ bye 6 ∷ [], true))
farewells_lem_example = farewells_lem live 6 dead [] refl

farewells_bounded_example :
    (task : List Step) × ((disconnect live).1 ≡ closing (some 8) ++ (task ∷ []))
    × ((seconds : ℕ) × (elapsed (λ _ _. none) task [] ≡ some seconds) × (seconds ≤ 15))
farewells_bounded_example = farewells_bounded live 6 (λ _ _. none) [] refl

-- The shell is closed while the target is being told goodbye.
abbrev interleaved : List Call
interleaved = eof 8 ∷ bye 6 ∷ close 8 ∷ bye 4 ∷ bye 2 ∷ []

departures-disconnect_example : departures interleaved ≡ 6 ∷ 4 ∷ 2 ∷ []
unfolding disconnect
departures-disconnect_example =
    departures-disconnect live 6 8 refl refl refl (left (right (left (right (right nil)))))

abbrev pipe : SshSpikeChannel
pipe = record { read_half = output; write_half = some 3 }

drain-joined_example : drain 7 pipe ≡ some (codes "abnotecd")
drain-joined_example = drain-joined pipe (λ e. cc, (λ e. cc, (λ e. cc, tt))) refl

closing_run :
    let (c, tasks) = Channel.disconnect pipe in
    (tasks ≡ (plain (eof 3) ∷ plain (close 3) ∷ []) ∷ [])
    × (write server c (1 ∷ []) [] ≡ (err (SshSpikeError.channel (codes "channel closed")), []))
    × (send_eof server c [] ≡ (err (SshSpikeError.channel (codes "channel closed")), []))
    × ((Channel.disconnect c).1 ≡ [])
    × ((read c).0 ≡ (read pipe).0)
closing_run = disconnect_lem server pipe 3 (1 ∷ []) [] refl

pump_lem_example :
    ((pump output).0
      ≡ data_event (codes "ab")
        ∷ data_event (codes "note")
        ∷ exit_event 0
        ∷ data_event (codes "cd")
        ∷ closed
        ∷ [])
    × All IsProgress (events_of (before_close output))
    × ((pump output).1 ≡ true)
pump_lem_example = pump_lem output
