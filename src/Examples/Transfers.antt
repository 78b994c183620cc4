-- ===== src/Examples/Transfers.antt =====
-- The theorems about SFTP (ssh-transport/src/lib.rs) over a server with one file of five bytes.
use rust_core.Base.{ℕ, ◌+◌, ◌≡◌, refl, sym, none, some, List, [], ◌∷◌, length, take, drop}
use rust_core.Base.{take-append-drop, drop-drop, take_none, Text, codes, arith, true, false, ◌↔◌}
use rust_core.Russh.{file_write_all, file_seek, open_with_flags, RusshSftp, History, Call}
use rust_core.Russh.{file_read, file_close, done, Metadata, DirEntry, after_epoch, sftp_metadata}
use rust_core.Russh.{sftp_read_dir}
use rust_core.Outcome.{ok}
use rust_core.Sftp.{SshSpikeRemoteFile, open_read, open_read_at, open_write, open_write_at, write}
use rust_core.Sftp.{metadata, read_dir, dir_entry, SshSpikeFileMeta}
use rust_core.Sftp.Listings.{entry_of, metadata-read_dir}
use rust_core.Sftp.Remote.{Serves, read_to_end, read_to_end_lem}
use rust_core.Sftp.Files.{Opens, for_reading, for_writing, Opens-iff, KeepsBytes}
use rust_core.Sftp.Files.{resume-KeepsBytes, Written, write_iff}

abbrev contents : List ℕ
contents = codes "hello"

-- How far the reads have come.
abbrev position : History → ℕ
position [] = 0
position (file_read file max ∷ h) = position h + max
position (_ ∷ h) = position h

abbrev chunk_at : History → ℕ → List ℕ
chunk_at h max = take max (drop (position h) contents)

abbrev chunk_for : History → Call → List ℕ
chunk_for h (file_read file max) = chunk_at h max
chunk_for h _ = contents

abbrev file_server : RusshSftp
file_server = record {
  opens = λ h _. done (length h);
  acknowledges = λ _ _. done tt;
  reads = λ h c. done (chunk_for h c);
  links = λ _ _. done (codes "/");
  stats = λ _ _. done (record {
    len = 5;
    is_dir = false;
    is_file = true;
    is_symlink = false;
    modified = none;
    permissions = none;
  });
  lists = λ _ _. done [];
}

file_server-Serves : Serves file_server 0 (λ h. drop (position h) contents)
file_server-Serves = record {
  chunk = chunk_at;
  replies = λ h max. refl;
  in_order = λ h max.
      rw (drop-drop (position h) max contents)
        (sym (take-append-drop max (drop (position h) contents)));
  some_bytes = λ h max room e. take_none max (drop (position h) contents) room e;
}

abbrev handle : SshSpikeRemoteFile
handle = record { file = some 0 }

-- Chunks of two bytes, from the second byte on.
read_to_end_run : (read_to_end file_server handle 2 5 (file_read 0 1 ∷ [])).0 ≡ ok (codes "ello")
read_to_end_run =
    read_to_end_lem file_server 0 (λ h. drop (position h) contents) file_server-Serves 2
      (file_read 0 1 ∷ []) (omega arith)

abbrev path : Text
path = codes "/tmp/a"

abbrev opened : SshSpikeRemoteFile
opened = record { file = some 0 }

Opens-iff_example :
    let h = file_seek 0 3 ∷ open_with_flags 1 path (for_writing true) ∷ [] in
    ((open_read file_server 1 path [] ≡ (ok opened, h))
      ↔ Opens file_server 1 path for_reading 0 [] opened h)
    × ((open_read_at file_server 1 path 3 [] ≡ (ok opened, h))
        ↔ Opens file_server 1 path for_reading 3 [] opened h)
    × ((open_write file_server 1 path [] ≡ (ok opened, h))
        ↔ Opens file_server 1 path (for_writing true) 0 [] opened h)
    × ((open_write_at file_server 1 path 3 true [] ≡ (ok opened, h))
        ↔ Opens file_server 1 path (for_writing true) 3 [] opened h)
Opens-iff_example =
    Opens-iff file_server 1 path 3 true [] opened
      (file_seek 0 3 ∷ open_with_flags 1 path (for_writing true) ∷ [])

resuming_run :
    KeepsBytes (open_read_at file_server 1 path 3 []).1
    × KeepsBytes (open_write_at file_server 1 path 3 false []).1
resuming_run = resume-KeepsBytes file_server 1 path 3 [] tt

abbrev written : History
written = file_close 0 ∷ file_write_all 0 contents ∷ open_with_flags 1 path (for_writing true) ∷ []

whole_write_run :
    (write file_server 1 path contents [] ≡ (ok tt, written))
    ↔ Written file_server 1 path contents [] written
whole_write_run = write_iff file_server 1 path contents [] written

written_run : write file_server 1 path contents [] ≡ (ok tt, written)
unfolding write
written_run = refl

abbrev times : Metadata
times = record {
  len = 7;
  is_dir = false;
  is_file = true;
  is_symlink = false;
  modified = some (after_epoch 1999999999);
  permissions = some 420;
}

abbrev listed : DirEntry
listed = record { file_name = codes "a"; metadata = times }

abbrev listing_server : RusshSftp
listing_server = record file_server {
  stats = λ _ _. done times;
  lists = λ _ _. done (listed ∷ listed ∷ []);
}

listing_run :
    (m : SshSpikeFileMeta) × (metadata listing_server 1 path [] ≡ (ok m, sftp_metadata 1 path ∷ []))
    × (read_dir listing_server 1 (codes "/tmp") [] ≡ (
      ok (dir_entry listed ∷ entry_of (codes "a") m ∷ []),
      sftp_read_dir 1 (codes "/tmp") ∷ [],
    ))
listing_run =
    metadata-read_dir listing_server 1 path (codes "/tmp") listed (listed ∷ []) [] [] [] refl refl
