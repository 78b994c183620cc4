-- ===== src/Sftp/Errors.antt =====
-- How the SFTP client of ssh-transport/src/lib.rs fails.
use rust_core.Base.{ℕ, refl, Bool, List, Text, Bool-cases, inl, inr, ltb, arith, ◌⊎◌, ◌∷◌, true}
use rust_core.Base.{false}
use rust_core.Russh.{Russh, RusshSftp, History, Call, Reply, sftp_read}
use rust_core.Outcome.{SshSpikeError, Outcome, M, perform, ◌>>=◌}
use rust_core.Outcome.Errors.{FailsAs, continue-FailsAs, perform-FailsAs, weaken, IsChannel}
use rust_core.Outcome.Errors.{IsSftp}
use rust_core.Connect.{SshSpikeSession}
use rust_core.Session.{sftp_open}
use rust_core.Session.Errors.{sftp_open-FailsAs}
use rust_core.Sftp.{SshSpikeRemoteFile, read_chunk, write_chunk, open_remote, seek_to, open_file}
use rust_core.Sftp.{open_read, open_read_at, open_write, open_write_at, sftp, sftp_read_file}
use rust_core.Sftp.{rename, remove_file, remove_dir, create_dir, metadata, read_dir, read_link}
use rust_core.Sftp.{canonicalize}
use rust_core.Sftp

-- A result that is no panic and no error but an SFTP error.
abbrev pub IsSftpResult : {A : Type 0} → Outcome SshSpikeError A × History → Type 0
IsSftpResult x = FailsAs IsSftp x.0

-- An error of the way to the SFTP session, or of the session.
abbrev pub IsReadError : SshSpikeError → Type 0
IsReadError e = IsChannel e ⊎ IsSftp e

module _ (F : RusshSftp) where
  call-FailsAs :
      {A : Type 0} (replies : History → Call → Reply Text A) (c : Call) (h : History)
      → IsSftpResult (perform replies SshSpikeError.sftp c h)
  call-FailsAs replies =
      perform-FailsAs IsSftp replies SshSpikeError.sftp (λ message. (message, refl))

  after_call :
      {A B : Type 0} (replies : History → Call → Reply Text A) (c : Call)
      (f : A → M SshSpikeError B) (h : History)
      → ((a : A) (h' : History) → IsSftpResult (f a h'))
      → IsSftpResult ((perform replies SshSpikeError.sftp c >>= f) h)
  after_call replies c f h = continue-FailsAs IsSftp f _ (c ∷ h) (call-FailsAs replies c h)

  open_remote-FailsAs : (f : SshSpikeRemoteFile) (h : History) → IsSftpResult (open_remote F f h)
  open_remote-FailsAs f h = ground arith

  pub read_chunk-FailsAs :
      (f : SshSpikeRemoteFile) (max : ℕ) (h : History) → IsSftpResult (read_chunk F f max h)
  unfolding read_chunk
  read_chunk-FailsAs f max h =
      continue-FailsAs IsSftp _ (open_remote F f h).0 (open_remote F f h).1
        (open_remote-FailsAs f h) λ file h1. after_call F.reads _ _ h1 λ bytes h2. tt

  pub write_chunk-FailsAs :
      (f : SshSpikeRemoteFile) (bytes : List ℕ) (h : History)
      → IsSftpResult (write_chunk F f bytes h)
  unfolding write_chunk
  write_chunk-FailsAs f bytes h =
      continue-FailsAs IsSftp _ (open_remote F f h).0 (open_remote F f h).1
        (open_remote-FailsAs f h) λ file h1. call-FailsAs F.acknowledges _ h1

  seek_to-FailsAs : (file offset : ℕ) (h : History) → IsSftpResult (seek_to F file offset h)
  seek_to-FailsAs file offset h = elim (Bool-cases (ltb 0 offset)) [
    | inl sought ↦ rw (sought, FailsAs) (call-FailsAs F.acknowledges _ h)
    | inr start ↦ rw (start, FailsAs) tt
  ]

  open_file-FailsAs :
      (n : ℕ) (path : Text) (read_only truncate : Bool) (offset : ℕ) (h : History)
      → IsSftpResult (open_file F n path read_only truncate offset h)
  unfolding open_file
  open_file-FailsAs n path read_only truncate offset h =
      after_call F.opens _ _ h
        λ file h1. continue-FailsAs IsSftp _ _ _ (seek_to-FailsAs file offset h1) λ _ h2. tt

  write-FailsAs :
      (n : ℕ) (path : Text) (bytes : List ℕ) (h : History)
      → IsSftpResult (Sftp.write F n path bytes h)
  unfolding Sftp.write
  write-FailsAs n path bytes h =
      after_call F.opens _ _ h
        λ file h1. after_call F.acknowledges _ _ h1 λ _ h2. call-FailsAs F.acknowledges _ h2

  sftp-FailsAs :
      (L : Russh) (s : SshSpikeSession) (h : History) → FailsAs IsChannel (sftp F L s h).0
  unfolding sftp
  sftp-FailsAs L s h =
      let opened = sftp_open L s h in
      continue-FailsAs IsChannel _ opened.0 opened.1 (sftp_open-FailsAs L s h) λ n h1. tt

  sftp_read_file-FailsAs :
      (L : Russh) (s : SshSpikeSession) (path : Text) (h : History)
      → FailsAs IsReadError (sftp_read_file F L s path h).0
  unfolding sftp_read_file Sftp.read
  sftp_read_file-FailsAs L s path h =
      let opened = sftp_open L s h in
      continue-FailsAs IsReadError _ opened.0 opened.1
        (weaken IsChannel IsReadError opened.0 (λ _. inl) (sftp_open-FailsAs L s h))
        λ n h1. weaken IsSftp IsReadError _ (λ _. inr) (call-FailsAs F.reads (sftp_read n path) h1)

  -- Whatever the network and the server do: what an SFTP operation does on the runtime and under the guard,
  -- apart from `block_on` and `lock().unwrap()`, does not panic. One that fails on an SFTP session or on an
  -- open file fails with an SFTP error, the opening of such a session with a channel error, and the read of a
  -- file over a session of its own with one of the two.
  pub sftp_errors :
      (L : Russh) (s : SshSpikeSession) (f : SshSpikeRemoteFile) (n : ℕ) (path other : Text)
      (bytes : List ℕ) (offset : ℕ) (truncate : Bool) (h : History)
      → IsSftpResult (read_chunk F f offset h)
        × IsSftpResult (write_chunk F f bytes h)
        × IsSftpResult (Sftp.read F n path h)
        × IsSftpResult (Sftp.write F n path bytes h)
        × IsSftpResult (rename F n path other h)
        × IsSftpResult (remove_file F n path h)
        × IsSftpResult (remove_dir F n path h)
        × IsSftpResult (create_dir F n path h)
        × IsSftpResult (metadata F n path h)
        × IsSftpResult (read_dir F n path h)
        × IsSftpResult (read_link F n path h)
        × IsSftpResult (canonicalize F n path h)
        × IsSftpResult (open_read F n path h)
        × IsSftpResult (open_read_at F n path offset h)
        × IsSftpResult (open_write F n path h)
        × IsSftpResult (open_write_at F n path offset truncate h)
        × FailsAs IsChannel (sftp F L s h).0
        × FailsAs IsReadError (sftp_read_file F L s path h).0
  unfolding Sftp.read rename remove_file remove_dir create_dir metadata read_dir read_link
      canonicalize open_read open_read_at open_write open_write_at
  sftp_errors L s f n path other bytes offset truncate h = (
    read_chunk-FailsAs f offset h,
    write_chunk-FailsAs f bytes h,
    call-FailsAs F.reads _ h,
    write-FailsAs n path bytes h,
    call-FailsAs F.acknowledges _ h,
    call-FailsAs F.acknowledges _ h,
    call-FailsAs F.acknowledges _ h,
    call-FailsAs F.acknowledges _ h,
    after_call F.stats _ _ h (λ _ _. tt),
    after_call F.lists _ _ h (λ _ _. tt),
    call-FailsAs F.links _ h,
    call-FailsAs F.links _ h,
    open_file-FailsAs n path true false 0 h,
    open_file-FailsAs n path true false offset h,
    open_file-FailsAs n path false true 0 h,
    open_file-FailsAs n path false truncate offset h,
    sftp-FailsAs L s h,
    sftp_read_file-FailsAs L s path h,
  )
