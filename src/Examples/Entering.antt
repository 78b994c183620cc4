-- ===== src/Examples/Entering.antt =====
-- The app's threads and callbacks (ssh-transport/src/lib.rs) at a concrete session.
use rust_core.Base.{◌≡◌, refl, Bool, true, false, some, [], ◌∷◌, codes, if◌then◌else◌}
use rust_core.Russh.{History}
use rust_core.Outcome.{panic, ok}
use rust_core.Connect.{SshSpikeSession, connect_inner}
use rust_core.Session
use rust_core.Session.Locks.{write_half_lock, handle_lock, set}
use rust_core.Sftp
use rust_core.Entry.{Caller, app, worker, Poison}
use rust_core.Entry
use rust_core.Entry.Clean.{Enters, Honours, entered_lem}
use rust_core.Entry.Worker.{Panics, worker_lem, worker_write_lem}
use rust_core.Examples.{server, shakes, params}
use rust_core.Examples.Disk.{disk}

-- As tokio documents it.
abbrev pub enters : Caller → Bool
enters app = true
enters worker = false

abbrev pub clean : Poison
clean l = false

abbrev live : SshSpikeSession
live = record { write_half = some 8; handle = some 6; parents = 2 ∷ 4 ∷ [] }

-- The mutex of the connection is poisoned.
abbrev torn : Poison
torn = set clean handle_lock true

entered_lem_example :
    ((h : History)
      → Entry.connect enters server shakes app params h
        ≡ (if enters app then connect_inner server shakes params h else (panic, h)))
    × Enters enters app torn handle_lock
        (Entry.exec enters server app live (codes "ls"))
        (Session.exec server live (codes "ls"))
    × Enters enters app torn handle_lock
        (Entry.direct_tcpip_banner enters server app live (codes "ls") 80)
        (Session.direct_tcpip_banner server live (codes "ls") 80)
    × Enters enters app torn handle_lock
        (Entry.open_direct_tcpip enters server app live (codes "ls") 80)
        (Session.open_direct_tcpip server live (codes "ls") 80)
    × Enters enters app torn handle_lock
        (Entry.request_remote_forward enters server app live (codes "ls") 80)
        (Session.request_remote_forward server live (codes "ls") 80)
    × Enters enters app torn handle_lock
        (Entry.cancel_remote_forward enters server app live (codes "ls") 80)
        (Session.cancel_remote_forward server live (codes "ls") 80)
    × Enters enters app torn handle_lock
        (Entry.sftp_read enters server disk app live (codes "ls"))
        (Sftp.sftp_read_file disk server live (codes "ls"))
    × Enters enters app torn handle_lock
        (Entry.sftp enters server app live)
        (Sftp.sftp disk server live)
    × Honours torn write_half_lock
        (Entry.write enters server app live (1 ∷ []))
        (Session.write server live (1 ∷ []))
    × Honours torn write_half_lock
        (Entry.resize enters server app live 80 24)
        (Session.resize server live 80 24)
    × (Entry.disconnect live clean ≡ record {
      result = ok tt;
      session = (Session.disconnect live).0;
      tasks = (Session.disconnect live).1;
      poison = clean;
    })
entered_lem_example =
    entered_lem enters refl server disk shakes params live torn clean (codes "ls") (1 ∷ []) 80 24
      app (λ l. refl)

worker_runs : Panics clean (Entry.exec enters server worker live (codes "ls")) clean
worker_runs = (worker_lem enters server disk refl shakes params live clean (codes "ls") 80).1

worker_write_lem_example :
    let q = set clean write_half_lock true in
    Panics clean (Entry.write enters server worker live (1 ∷ [])) q
    × Panics clean (Entry.resize enters server worker live 80 24) q
    × ((caller : Caller) → Panics q (Entry.write enters server caller live (1 ∷ [])) q)
    × ((caller : Caller) → Panics q (Entry.resize enters server caller live 80 24) q)
    × (Entry.disconnect live q ≡ record { result = panic; session = live; tasks = []; poison = q })
worker_write_lem_example =
    worker_write_lem enters server disk refl live 8 clean (1 ∷ []) 80 24 refl refl
