-- ===== src/Examples/Uploads.antt =====
-- The theorems about transfers (the SFTP client of ssh-transport/src/lib.rs) on a concrete server.
use rust_core.Base.{if◌then◌else◌, ◌==◌, true, false, ℕ, ◌≡◌, ◌≢◌, refl, none, some, [], ◌∷◌}
use rust_core.Base.{Text, codes, arith, List, ◌++◌}
use rust_core.Russh.{Call, file_close, History, open_with_flags, file_write_all, file_seek}
use rust_core.Russh.{sftp_read, sftp_rename}
use rust_core.Sftp.{SshSpikeRemoteFile, open_write, open_write_at, write}
use rust_core.Sftp.{read, rename, open_file, write_chunk, open_flags, open_read_at}
use rust_core.Outcome.{ok}
use rust_core.Sftp.Files.{for_writing, for_reading}
use rust_core.Sftp.Uploads.{upload, resumed_lem, Leaves}
use rust_core.Sftp.Staged.{staged_lem, read-write}
use rust_core.Sftp.Remote.{read_to_end}
use rust_core.Sftp.Downloads.{download_lem}
use rust_core.Examples.Disk.{disk, disk_files, disk-Reads, tree_of, state_of}

abbrev part : Text
part = codes "a.part"

abbrev final : Text
final = codes "a"

abbrev file_of : ℕ → SshSpikeRemoteFile
file_of n = record { file = some n }

-- Two chunks, a second handle at the end of the first, one chunk more, and the rename.
abbrev begun : History
begun = open_with_flags 1 part (for_writing true) ∷ []

abbrev paused : History
paused = file_write_all 0 (codes "cd") ∷ file_write_all 0 (codes "ab") ∷ begun

abbrev resumed : History
resumed = file_seek 3 4 ∷ open_with_flags 1 part (for_writing false) ∷ paused

abbrev sent : History
sent = file_write_all 3 (codes "ef") ∷ resumed

abbrev after_move : History
after_move = sftp_rename 1 part final ∷ sent

staged_lem_example :
    (tree_of after_move final ≡ some (codes "abcdef"))
    × (tree_of after_move part ≡ none)
    × ((other : Text) → other ≢ part → other ≢ final → tree_of after_move other ≡ none)
unfolding open_write open_write_at open_file open_flags upload write_chunk rename disk_files
    state_of
staged_lem_example =
    staged_lem disk disk_files 1 part final (codes "ab" ∷ codes "cd" ∷ []) (codes "ef" ∷ []) []
      (file_of 0) (file_of 3) begun paused resumed sent after_move (λ e. cc) refl refl refl refl
      refl

-- A transfer that goes back into what was sent.
abbrev back : History
back = file_seek 3 2 ∷ open_with_flags 1 part (for_writing false) ∷ paused

resumed_run : Leaves tree_of paused (file_write_all 3 (codes "X") ∷ back) part (codes "abXd")
unfolding open_write_at open_file open_flags upload write_chunk disk_files state_of
resumed_run =
    resumed_lem disk disk_files 1 part 2 (codes "abcd") (codes "X" ∷ []) paused (file_of 3) back
      (file_write_all 3 (codes "X") ∷ back) refl (omega arith) refl refl

abbrev written : History
written =
    file_close 2
    ∷ file_write_all 2 (codes "new")
    ∷ open_with_flags 1 part (for_writing true)
    ∷ file_write_all 0 (codes "older")
    ∷ begun

read-write_example :
    (codes "new" ≡ codes "new")
    × ((other : Text)
        → other ≢ part
        → tree_of written other ≡ tree_of (file_write_all 0 (codes "older") ∷ begun) other)
unfolding write read disk_files state_of
read-write_example =
    read-write disk disk_files 1 part (codes "new") (codes "new")
      (file_write_all 0 (codes "older") ∷ begun) written (sftp_read 1 part ∷ written) refl refl

-- A download from the third byte on, in chunks of three bytes.
download_lem_example :
    let h = file_seek 3 2 ∷ open_with_flags 1 part for_reading ∷ paused in
    (got : List ℕ) × ((read_to_end disk (file_of 3) 3 5 h).0 ≡ ok got)
    × (codes "ab" ++ got ≡ codes "abcd")
unfolding open_read_at open_file open_flags disk_files state_of
download_lem_example =
    download_lem disk disk_files disk-Reads 1 part (codes "abcd") 2 3 paused (file_of 3)
      (file_seek 3 2 ∷ open_with_flags 1 part for_reading ∷ paused) (omega arith) refl refl

-- The first handle is closed after the first of three reads.
abbrev while_reading : ℕ → List Call
while_reading k = if k == 3 then file_close 0 ∷ [] else []
