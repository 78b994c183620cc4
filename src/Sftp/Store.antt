-- ===== src/Sftp/Store.antt =====
-- What the SFTP operations of ssh-transport/src/lib.rs rely on in a server: a tree of files and the
-- cursors of the files that are open. The client's code is not read here.
use rust_core.Base.{ℕ, ◌+◌, ◌≤◌, ◌≡◌, ◌≢◌, Bool, true, false, Option, none, some, List, [], ◌∷◌}
use rust_core.Base.{◌++◌, Text, length, take, drop}
use rust_core.Russh.{RusshSftp, History, Call, done, open_with_flags, file_seek, file_write_all}
use rust_core.Russh.{file_close, sftp_read, sftp_rename, sftp_remove_file}
use rust_core.Sftp.Files.{for_writing}

-- A file that is opened for writing keeps its bytes unless it is truncated; a missing one is created.
abbrev pub after_open : Bool → Option (List ℕ) → List ℕ
after_open true before = []
after_open false none = []
after_open false (some bytes) = bytes

-- Bytes written at a position inside the file or at its end.
abbrev pub overwrite : ℕ → List ℕ → List ℕ → List ℕ
overwrite pos bytes old = take pos old ++ (bytes ++ drop (pos + length bytes) old)

-- The files of a server after a history, by their paths.
abbrev pub Contents : Type 0
Contents = History → Text → Option (List ℕ)

-- A call after which `path` holds `bytes` and every other file is as before.
abbrev pub Sets : Contents → History → Call → Text → Option (List ℕ) → Type 0
Sets contents h c path bytes =
    (contents (c ∷ h) path ≡ bytes)
    × ((other : Text) → other ≢ path → contents (c ∷ h) other ≡ contents h other)

abbrev pub Keeps : Contents → History → Call → Type 0
Keeps contents h c = (path : Text) → contents (c ∷ h) path ≡ contents h path

-- What the protocol promises of the calls that succeed. `cursor` is the path of an open file and the
-- position in it.
pub record KeepsFiles (F : RusshSftp) : Type 0 where
  pub contents : Contents
  pub cursor : History → ℕ → Option (Text × ℕ)
  pub opened :
      (h : History) (n : ℕ) (path : Text) (truncate : Bool) (file : ℕ)
      → let c = open_with_flags n path (for_writing truncate) in
        F.opens h c ≡ done file
        → Sets contents h c path (some (after_open truncate (contents h path)))
          × (cursor (c ∷ h) file ≡ some (path, 0))
  pub sought :
      (h : History) (file offset pos : ℕ) (path : Text)
      → let c = file_seek file offset in
        F.acknowledges h c ≡ done tt
        → cursor h file ≡ some (path, pos)
        → Keeps contents h c × (cursor (c ∷ h) file ≡ some (path, offset))
  pub written :
      (h : History) (file pos : ℕ) (path : Text) (bytes old : List ℕ)
      → let c = file_write_all file bytes in
        F.acknowledges h c ≡ done tt
        → cursor h file ≡ some (path, pos)
        → contents h path ≡ some old
        → pos ≤ length old
        → Sets contents h c path (some (overwrite pos bytes old))
          × (cursor (c ∷ h) file ≡ some (path, pos + length bytes))
  pub closed : (h : History) (file : ℕ) → Keeps contents h (file_close file)
  pub read_whole :
      (h : History) (n : ℕ) (path : Text) (bytes : List ℕ)
      → F.reads h (sftp_read n path) ≡ done bytes
      → contents h path ≡ some bytes
  pub renamed :
      (h : History) (n : ℕ) (old_path new_path : Text)
      → let c = sftp_rename n old_path new_path in
        F.acknowledges h c ≡ done tt
        → old_path ≢ new_path
        → (contents (c ∷ h) new_path ≡ contents h old_path)
          × (contents (c ∷ h) old_path ≡ none)
          × ((other : Text)
              → other ≢ old_path
              → other ≢ new_path
              → contents (c ∷ h) other ≡ contents h other)
  pub removed :
      (h : History) (n : ℕ) (path : Text)
      → F.acknowledges h (sftp_remove_file n path) ≡ done tt
      → Sets contents h (sftp_remove_file n path) path none
