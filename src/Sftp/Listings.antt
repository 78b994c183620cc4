-- ===== src/Sftp/Listings.antt =====
-- The records of files and listings in ssh-transport/src/lib.rs: `metadata`, `read_dir`, `meta_record`.
use rust_core.Base.{ℕ, ◌+◌, ◌^◌, ◌≤◌, ◌<◌, ◌≡◌, refl, ap, some, List, [], ◌∷◌, ◌++◌, map}
use rust_core.Base.{Text, Option, ◌⊎◌}
use rust_core.Russh.{RusshSftp, History, DirEntry, done, sftp_metadata, sftp_read_dir}
use rust_core.Outcome.{ok}
use rust_core.Sftp.{ℤ, pos, negsuc, SshSpikeFileMeta, SshSpikeDirEntry}
use rust_core.Sftp.{meta_record, dir_entry, metadata, read_dir}

-- The entry of a file, by its name and its record.
abbrev pub entry_of : Text → SshSpikeFileMeta → SshSpikeDirEntry
entry_of name m = record {
  file_name = name;
  size = m.size;
  is_dir = m.is_dir;
  is_file = m.is_file;
  is_symlink = m.is_symlink;
  mtime_unix = m.mtime_unix;
  permissions = m.permissions;
}

map-append :
    (xs ys : List DirEntry) → map dir_entry (xs ++ ys) ≡ map dir_entry xs ++ map dir_entry ys
map-append [] ys = refl
map-append (x ∷ xs) ys = ap (λ t. dir_entry x ∷ t) (map-append xs ys)

-- A file that the server lists among others with the attributes that it reports for the file alone:
-- `metadata` of the file and its entry in `read_dir` agree in every field, and the entry keeps its
-- place.
pub metadata-read_dir :
    (F : RusshSftp) (n : ℕ) (file dir : Text) (e : DirEntry) (before after : List DirEntry)
    (h h' : History)
    → F.stats h (sftp_metadata n file) ≡ done e.metadata
    → F.lists h' (sftp_read_dir n dir) ≡ done (before ++ (e ∷ after))
    → (m : SshSpikeFileMeta) × (metadata F n file h ≡ (ok m, sftp_metadata n file ∷ h))
      × (read_dir F n dir h' ≡ (
        ok (map dir_entry before ++ (entry_of e.file_name m ∷ map dir_entry after)),
        sftp_read_dir n dir ∷ h',
      ))
unfolding metadata read_dir dir_entry
metadata-read_dir F n file dir e before after h h' stat list =
    (meta_record e.metadata, rw stat refl, rw (list, map-append before (e ∷ after)) refl)

-- The whole seconds of a time, as a signed number of 64 bits.
abbrev pub IsWrapped : ℕ → Option ℤ → Type 0
IsWrapped s t =
    ((s < 2 ^ 63) × (t ≡ some (pos s)))
    ⊎ ((2 ^ 63 ≤ s) × ((k : ℕ) × (t ≡ some (negsuc k)) × (s + (k + 1) ≡ 2 ^ 64)))
