-- ===== src/Examples/Piping.antt =====
-- The theorems about channels, remote files and the echoing sink (ssh-transport/src/lib.rs) at a
-- concrete tunnel.
use rust_core.Base.{◌≡◌, refl, true, false, some, [], ◌∷◌, codes}
use rust_core.Russh.{arrival, channel_data, channel_eof, exit_status, ended}
use rust_core.Outcome.{panic, ok}
use rust_core.Channel.{SshSpikeChannel, read_loop}
use rust_core.Channel
use rust_core.Channel.Reads.{payloads, finishes}
use rust_core.Session.Locks.{write_half_of, set}
use rust_core.Sftp.{SshSpikeRemoteFile, read_chunk, write_chunk}
use rust_core.Sftp
use rust_core.Entry.{Caller, app, worker}
use rust_core.Entry.Clean.{Agrees}
use rust_core.Entry.Worker.{Panics}
use rust_core.Entry.Pipes.{first_chunk, echo}
use rust_core.Entry.Pipes
use rust_core.Entry.Pipes.Threads.{threads_lem, worker_pipe_lem}
use rust_core.Entry.Pipes.Echo.{echoed, echo_lem}
use rust_core.Entry.Pipes.RoundTrip.{echo-round_trip}
use rust_core.Examples.{server}
use rust_core.Examples.Disk.{disk}
use rust_core.Examples.Entering.{enters, clean}

-- The client's channel is 20, and the forwarded one 21.
abbrev dialled : SshSpikeChannel
dialled = record {
  read_half =
      arrival false (channel_data (codes "ping-through-r")) (arrival true channel_eof ended);
  write_half = some 20;
}

abbrev forwarded : SshSpikeChannel
forwarded = record {
  read_half =
      arrival true (exit_status 0)
        (arrival false (channel_data (codes "ping-through-r")) (arrival false channel_eof ended));
  write_half = some 21;
}

abbrev opened : SshSpikeRemoteFile
opened = record { file = some 3 }

echo-round_trip_example :
    let ping = codes "ping-through-r" in
    let found = first_chunk 5 dialled in
    ((Channel.write server dialled ping []).0 ≡ ok tt)
    × ((Channel.send_eof server dialled (Channel.write server dialled ping []).1).0 ≡ ok tt)
    × (found.0 ≡ some ping)
    × ((Channel.read found.1).0 ≡ ok [])
unfolding Channel.write Channel.send_eof echo Pipes.read Pipes.write Pipes.send_eof Channel.read
    read_loop
echo-round_trip_example =
    echo-round_trip enters server 0 clean dialled forwarded 20 21 112 (codes "ing-through-r") [] 4
      (λ h c. refl) refl refl (λ l. refl) refl refl refl refl refl (refl, refl) (refl, refl)

echo_lem_example :
    (echo enters server app 0 forwarded clean []
      ≡ (echoed 21 (payloads forwarded.read_half) (finishes forwarded.read_half) [], clean))
    × (echo enters server worker 0 forwarded clean [] ≡ ((panic, []), clean))
echo_lem_example =
    echo_lem enters server (λ h c e. cc) refl refl 0 21 forwarded clean [] (λ l. refl) refl

threads_run :
    (Pipes.read enters app 0 forwarded clean ≡ Channel.read forwarded)
    × Agrees clean
        (Pipes.write enters server app 0 forwarded (1 ∷ []))
        (Channel.write server forwarded (1 ∷ []))
    × Agrees clean
        (Pipes.send_eof enters server app 0 forwarded)
        (Channel.send_eof server forwarded)
    × (Pipes.disconnect 0 forwarded clean ≡ (ok tt, Channel.disconnect forwarded))
    × Agrees clean (Pipes.read_file enters disk app 0 opened 64) (read_chunk disk opened 64)
    × Agrees clean
        (Pipes.write_file enters disk app 0 opened (1 ∷ []))
        (write_chunk disk opened (1 ∷ []))
    × (Pipes.disconnect_file 0 opened clean ≡ (ok tt, Sftp.disconnect opened))
threads_run = threads_lem enters server disk refl 0 forwarded opened clean (1 ∷ []) 64 (λ l. refl)

worker_pipe_lem_example :
    let q = set clean (write_half_of 0) true in
    (Pipes.read enters worker 0 forwarded clean ≡ (panic, forwarded))
    × Panics clean (Pipes.read_file enters disk worker 0 opened 64) clean
    × Panics clean (Pipes.write_file enters disk worker 0 opened (1 ∷ [])) clean
    × Panics clean (Pipes.write enters server worker 0 forwarded (1 ∷ [])) q
    × Panics clean (Pipes.send_eof enters server worker 0 forwarded) q
    × ((caller : Caller) → Panics q (Pipes.write enters server caller 0 forwarded (1 ∷ [])) q)
    × ((caller : Caller) → Panics q (Pipes.send_eof enters server caller 0 forwarded) q)
    × (Pipes.disconnect 0 forwarded q ≡ (panic, (forwarded, [])))
worker_pipe_lem_example =
    worker_pipe_lem enters server disk refl 0 21 forwarded opened clean (1 ∷ []) 64 refl refl
