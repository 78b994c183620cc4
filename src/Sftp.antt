-- ===== src/Sftp.antt =====
-- `SshSpikeSftp` and `SshSpikeRemoteFile` of ssh-transport/src/lib.rs: the operations on a remote
-- file tree, and the streaming handles.
pub mod Files
pub mod Remote
pub mod Listings
pub mod Store
pub mod Uploads
pub mod Staged
pub mod Downloads
pub mod Streams
pub mod Errors
use rust_core.Base.{ℕ, ◌-◌, ◌/◌, ◌^◌, Bool, true, false, Option, none, some, List, [], ◌∷◌, ◌++◌}
use rust_core.Base.{map, Text, codes, ltb, if◌then◌else◌, length, take, replicate, drop}
use rust_core.Russh.{RusshSftp, Reply, History, Call, OpenFlags, Metadata, DirEntry, SystemTime}
use rust_core.Russh.{after_epoch, before_epoch, open_with_flags, file_read, file_write_all}
use rust_core.Russh.{file_seek, file_close, sftp_read, sftp_rename, sftp_remove_file}
use rust_core.Russh.{sftp_remove_dir, sftp_create_dir, sftp_metadata, sftp_read_dir}
use rust_core.Russh.{sftp_read_link, sftp_canonicalize, Step, plain, Russh}
use rust_core.Outcome.{SshSpikeError, Outcome, ok, err, M, pure, raise, continue, ◌>>=◌, ◌>>◌}
use rust_core.Outcome.{perform}
use rust_core.Connect.{SshSpikeSession}
use rust_core.Session.{sftp_open}

-- A signed integer: `negsuc n` is -(n + 1).
pub data ℤ : Type 0 where
  pos negsuc : ℕ → ℤ

-- `as i64` of a `u64`
unfoldable pub as_i64 : ℕ → ℤ
as_i64 n = if ltb n (2 ^ 63) then pos n else negsuc (2 ^ 64 - n - 1)

pub record SshSpikeFileMeta : Type 0 where
  pub size : ℕ
  pub is_dir : Bool
  pub is_file : Bool
  pub is_symlink : Bool
  pub mtime_unix : Option ℤ
  pub permissions : Option ℕ

pub record SshSpikeDirEntry : Type 0 where
  pub file_name : Text
  pub size : ℕ
  pub is_dir : Bool
  pub is_file : Bool
  pub is_symlink : Bool
  pub mtime_unix : Option ℤ
  pub permissions : Option ℕ

-- `duration_since(UNIX_EPOCH).ok()`, in whole seconds
unfoldable pub unix_seconds : SystemTime → Option ℤ
unfolding as_i64
unix_seconds (after_epoch nanos) = some (as_i64 (nanos / 10 ^ 9))
unix_seconds (before_epoch nanos) = none

-- The tuple of the source, by the names of its parts.
unfoldable pub meta_record : Metadata → SshSpikeFileMeta
meta_record m = record {
  size = m.len;
  is_dir = m.is_dir;
  is_file = m.is_file;
  is_symlink = m.is_symlink;
  mtime_unix = elim m.modified [ none ↦ none | some t ↦ unix_seconds t ];
  permissions = m.permissions;
}

-- An entry of `read_dir`, with the same fields.
unfoldable pub dir_entry : DirEntry → SshSpikeDirEntry
unfolding meta_record
dir_entry e =
    let m = meta_record e.metadata in
    record {
      file_name = e.file_name;
      size = m.size;
      is_dir = m.is_dir;
      is_file = m.is_file;
      is_symlink = m.is_symlink;
      mtime_unix = m.mtime_unix;
      permissions = m.permissions;
    }

-- `SshSpikeRemoteFile`: the open file, until `disconnect` takes it.
pub record SshSpikeRemoteFile : Type 0 where
  pub file : Option ℕ

-- `let mut buf = vec![0u8; max]`, filled from the front by a read of `n` bytes and then truncated.
unfoldable pub fill : ℕ → List ℕ → List ℕ
fill max bytes = take (length bytes) (bytes ++ drop (length bytes) (replicate max 0))

-- The flags of `open_file`.
unfoldable pub open_flags : Bool → Bool → OpenFlags
open_flags read_only truncate =
    if read_only
    then record { read = true; write = false; create = false; truncate = false }
    else record { read = false; write = true; create = true; truncate = truncate }

-- The task that closes a taken file.
abbrev pub file_closing : Option ℕ → List (List Step)
file_closing none = []
file_closing (some f) = (plain (file_close f) ∷ []) ∷ []

unfoldable pub disconnect : SshSpikeRemoteFile → SshSpikeRemoteFile × List (List Step)
disconnect f = (record { file = none }, file_closing f.file)

module _ (F : RusshSftp) where
  -- A handle's file, if it was not taken.
  abbrev pub open_remote : SshSpikeRemoteFile → M SshSpikeError ℕ
  open_remote f = elim f.file [
    | none ↦ raise (SshSpikeError.sftp (codes "handle closed"))
    | some file ↦ pure file
  ]

  unfoldable pub read_chunk : SshSpikeRemoteFile → ℕ → M SshSpikeError (List ℕ)
  read_chunk f max = do
    file ← open_remote f
    bytes ← perform F.reads SshSpikeError.sftp (file_read file max)
    pure (fill max bytes)

  unfoldable pub write_chunk : SshSpikeRemoteFile → List ℕ → M SshSpikeError (Unit {0})
  write_chunk f bytes = do
    file ← open_remote f
    perform F.acknowledges SshSpikeError.sftp (file_write_all file bytes)

  -- From here on `n` is the SFTP session.
  unfoldable pub read : ℕ → Text → M SshSpikeError (List ℕ)
  read n path = perform F.reads SshSpikeError.sftp (sftp_read n path)

  -- Create or truncate, write all and close.
  unfoldable pub write : ℕ → Text → List ℕ → M SshSpikeError (Unit {0})
  write n path bytes = do
    file ← perform F.opens SshSpikeError.sftp (
        open_with_flags n path
          (record { read = false; write = true; create = true; truncate = true }))
    perform F.acknowledges SshSpikeError.sftp (file_write_all file bytes)
    perform F.acknowledges SshSpikeError.sftp (file_close file)

  unfoldable pub rename : ℕ → Text → Text → M SshSpikeError (Unit {0})
  rename n old_path new_path =
      perform F.acknowledges SshSpikeError.sftp (sftp_rename n old_path new_path)

  unfoldable pub remove_file : ℕ → Text → M SshSpikeError (Unit {0})
  remove_file n path = perform F.acknowledges SshSpikeError.sftp (sftp_remove_file n path)

  unfoldable pub remove_dir : ℕ → Text → M SshSpikeError (Unit {0})
  remove_dir n path = perform F.acknowledges SshSpikeError.sftp (sftp_remove_dir n path)

  unfoldable pub create_dir : ℕ → Text → M SshSpikeError (Unit {0})
  create_dir n path = perform F.acknowledges SshSpikeError.sftp (sftp_create_dir n path)

  unfoldable pub metadata : ℕ → Text → M SshSpikeError SshSpikeFileMeta
  metadata n path = do
    m ← perform F.stats SshSpikeError.sftp (sftp_metadata n path)
    pure (meta_record m)

  unfoldable pub read_dir : ℕ → Text → M SshSpikeError (List SshSpikeDirEntry)
  read_dir n path = do
    entries ← perform F.lists SshSpikeError.sftp (sftp_read_dir n path)
    pure (map dir_entry entries)

  unfoldable pub read_link : ℕ → Text → M SshSpikeError Text
  read_link n path = perform F.links SshSpikeError.sftp (sftp_read_link n path)

  unfoldable pub canonicalize : ℕ → Text → M SshSpikeError Text
  canonicalize n path = perform F.links SshSpikeError.sftp (sftp_canonicalize n path)

  -- The seek of `open_file`, for an offset that is not 0.
  abbrev pub seek_to : ℕ → ℕ → M SshSpikeError (Unit {0})
  seek_to file offset =
      if ltb 0 offset
      then perform F.acknowledges SshSpikeError.sftp (file_seek file offset)
      else pure tt

  unfoldable pub open_file : ℕ → Text → Bool → Bool → ℕ → M SshSpikeError SshSpikeRemoteFile
  open_file n path read_only truncate offset = do
    file ←
        perform F.opens SshSpikeError.sftp (open_with_flags n path (open_flags read_only truncate))
    seek_to file offset
    pure (record { file = some file })

  unfoldable pub open_read : ℕ → Text → M SshSpikeError SshSpikeRemoteFile
  unfolding open_file
  open_read n path = open_file n path true false 0

  unfoldable pub open_read_at : ℕ → Text → ℕ → M SshSpikeError SshSpikeRemoteFile
  unfolding open_file
  open_read_at n path offset = open_file n path true false offset

  unfoldable pub open_write_at : ℕ → Text → ℕ → Bool → M SshSpikeError SshSpikeRemoteFile
  unfolding open_file
  open_write_at n path offset truncate = open_file n path false truncate offset

  unfoldable pub open_write : ℕ → Text → M SshSpikeError SshSpikeRemoteFile
  unfolding open_write_at
  open_write n path = open_write_at n path 0 true

  -- `SshSpikeSession::sftp`
  unfoldable pub sftp : Russh → SshSpikeSession → M SshSpikeError ℕ
  sftp L s = sftp_open L s >>= λ n. pure n

  -- `SshSpikeSession::sftp_read`: a file over an SFTP session of its own.
  unfoldable pub sftp_read_file : Russh → SshSpikeSession → Text → M SshSpikeError (List ℕ)
  sftp_read_file L s path = sftp_open L s >>= λ n. read n path
