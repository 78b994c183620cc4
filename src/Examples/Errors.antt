-- ===== src/Examples/Errors.antt =====
-- How the operations of ssh-transport/src/lib.rs fail, at a session whose channels do not open, and at
-- a server that refuses all paths.
use rust_core.Base.{◌≡◌, refl, true, none, some, [], ◌∷◌, codes}
use rust_core.Russh.{Russh, RusshSftp, other, ended, failed}
use rust_core.Outcome.{SshSpikeError, err}
use rust_core.Outcome.Errors.{FailsAs, IsChannel}
use rust_core.Connect.{SshSpikeSession}
use rust_core.Channel.{SshSpikeChannel, send_eof}
use rust_core.Channel
use rust_core.Session
use rust_core.Session.Errors.{IsChannelResult, session_errors}
use rust_core.Sftp
use rust_core.Sftp.{SshSpikeRemoteFile}
use rust_core.Sftp.Errors.{IsSftpResult, IsReadError, sftp_errors}
use rust_core.Examples.{server}

abbrev full : Russh
full = record server { opens = λ _ _. failed (other 4) }

abbrev live : SshSpikeSession
live = record { write_half = none; handle = some 6; parents = [] }

abbrev pipe : SshSpikeChannel
pipe = record { read_half = ended; write_half = some 3 }

abbrev guarded_disk : RusshSftp
guarded_disk = record {
  opens = λ _ _. failed (codes "permission denied");
  acknowledges = λ _ _. failed (codes "permission denied");
  reads = λ _ _. failed (codes "permission denied");
  links = λ _ _. failed (codes "permission denied");
  stats = λ _ _. failed (codes "permission denied");
  lists = λ _ _. failed (codes "permission denied");
}

-- The errors are the ones that the theorems allow.
refusals :
    ((Session.exec full live (codes "ls") []).0 ≡ err (SshSpikeError.channel (codes "failure")))
    × ((Sftp.write guarded_disk 1 (codes "a") (1 ∷ []) []).0
        ≡ err (SshSpikeError.sftp (codes "permission denied")))
unfolding Session.exec Sftp.write
refusals = (refl, refl)

session_errors_example :
    IsChannelResult (Session.exec full live (codes "ls") [])
    × IsChannelResult (Session.write full live (1 ∷ []) [])
    × IsChannelResult (Session.resize full live 80 24 [])
    × IsChannelResult (Session.direct_tcpip_banner full live (codes "ls") 80 [])
    × IsChannelResult (Session.open_direct_tcpip full live (codes "ls") 80 [])
    × IsChannelResult (Session.request_remote_forward full live (codes "ls") 80 [])
    × IsChannelResult (Session.cancel_remote_forward full live (codes "ls") 80 [])
    × IsChannelResult (Session.sftp_open full live [])
    × FailsAs IsChannel (Channel.read pipe).0
    × IsChannelResult (Channel.write full pipe (1 ∷ []) [])
    × IsChannelResult (send_eof full pipe [])
session_errors_example = session_errors full live pipe (codes "ls") (1 ∷ []) 80 24 []

abbrev open_file : SshSpikeRemoteFile
open_file = record { file = some 2 }

sftp_errors_example :
    let path = codes "a" in
    IsSftpResult (Sftp.read_chunk guarded_disk open_file 9 [])
    × IsSftpResult (Sftp.write_chunk guarded_disk open_file (1 ∷ []) [])
    × IsSftpResult (Sftp.read guarded_disk 1 path [])
    × IsSftpResult (Sftp.write guarded_disk 1 path (1 ∷ []) [])
    × IsSftpResult (Sftp.rename guarded_disk 1 path (codes "b") [])
    × IsSftpResult (Sftp.remove_file guarded_disk 1 path [])
    × IsSftpResult (Sftp.remove_dir guarded_disk 1 path [])
    × IsSftpResult (Sftp.create_dir guarded_disk 1 path [])
    × IsSftpResult (Sftp.metadata guarded_disk 1 path [])
    × IsSftpResult (Sftp.read_dir guarded_disk 1 path [])
    × IsSftpResult (Sftp.read_link guarded_disk 1 path [])
    × IsSftpResult (Sftp.canonicalize guarded_disk 1 path [])
    × IsSftpResult (Sftp.open_read guarded_disk 1 path [])
    × IsSftpResult (Sftp.open_read_at guarded_disk 1 path 9 [])
    × IsSftpResult (Sftp.open_write guarded_disk 1 path [])
    × IsSftpResult (Sftp.open_write_at guarded_disk 1 path 9 true [])
    × FailsAs IsChannel (Sftp.sftp guarded_disk full live []).0
    × FailsAs IsReadError (Sftp.sftp_read_file guarded_disk full live path []).0
sftp_errors_example =
    sftp_errors guarded_disk full live open_file 1 (codes "a") (codes "b") (1 ∷ []) 9 true []
