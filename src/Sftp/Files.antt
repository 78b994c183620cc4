-- ===== src/Sftp/Files.antt =====
-- What the SFTP operations of ssh-transport/src/lib.rs ask of the server.
use rust_core.Base.{ℕ, zero, suc, ◌<◌, ◌≡◌, ◌⊎◌, ◌↔◌, inl, inr, refl, ap, sym, Bool, true, false}
use rust_core.Base.{ltb, some, List, [], ◌∷◌, Text, arith}
use rust_core.Russh.{RusshSftp, History, Call, OpenFlags, done, open_with_flags, file_seek}
use rust_core.Russh.{file_write_all, file_close}
use rust_core.Outcome.{from_reply-eq_ok, SshSpikeError, ok, pure, perform, continue-eq_ok}
use rust_core.Sftp.{SshSpikeRemoteFile, open_flags, open_file, open_read, open_read_at, open_write}
use rust_core.Sftp.{open_write_at, write, seek_to}

abbrev pub for_reading : OpenFlags
for_reading = record { read = true; write = false; create = false; truncate = false }

-- Created if it is missing, and truncated or not.
abbrev pub for_writing : Bool → OpenFlags
for_writing truncate = record { read = false; write = true; create = true; truncate = truncate }

-- The server opened the file, the handle holds it, and it is at the offset asked for: by a seek that
-- the server confirmed, or by none at offset 0.
abbrev pub Opens :
    RusshSftp → ℕ → Text → OpenFlags → ℕ → History → SshSpikeRemoteFile → History → Type 0
Opens F n path flags offset h f h' =
    let c = open_with_flags n path flags in
    (file : ℕ) × (F.opens h c ≡ done file)
    × (f ≡ record { file = some file })
    × (((offset ≡ 0) × (h' ≡ c ∷ h))
        ⊎ ((0 < offset)
            × (F.acknowledges (c ∷ h) (file_seek file offset) ≡ done tt)
            × (h' ≡ file_seek file offset ∷ c ∷ h)))

pub pair_eq : {A B : Type 0} (p : A × B) {a : A} {b : B} → p.0 ≡ a → p.1 ≡ b → p ≡ (a, b)
pair_eq (x, y) e f = cc

pub acknowledged_iff :
    (F : RusshSftp) (c : Call) (h h' : History)
    → (perform F.acknowledges SshSpikeError.sftp c h ≡ (ok tt, h'))
      ↔ ((F.acknowledges h c ≡ done tt) × (h' ≡ c ∷ h))
acknowledged_iff F c h h' = (
  λ e. (
    from_reply-eq_ok SshSpikeError.sftp (F.acknowledges h c) (ap (λ p. p.0) e),
    sym (ap (λ p. p.1) e),
  ),
  λ (e, same). rw (e, same) refl,
)

module _ (F : RusshSftp) (n : ℕ) (path : Text) where
  seek_to_iff :
      (file offset : ℕ) (h h' : History)
      → (seek_to F file offset h ≡ (ok tt, h')) ↔ (
          ((offset ≡ 0) × (h' ≡ h))
          ⊎ ((0 < offset)
              × (F.acknowledges h (file_seek file offset) ≡ done tt)
              × (h' ≡ file_seek file offset ∷ h)))
  seek_to_iff file zero h h' = (
    λ e. inl (refl, sym (ap (λ p. p.1) e)),
    λ s. elim s [
      | inl (_, same) ↦ rw same refl
      | inr (positive, _, _) ↦ absurd (omega (arith, positive))
    ],
  )
  seek_to_iff file (suc k) h h' =
      let (there, back) = acknowledged_iff F (file_seek file (suc k)) h h' in
      let positive : ltb 0 (suc k) ≡ true = ground arith in
      (
        λ e. let (taken, same) = there (rw positive at e) in inr (omega arith, taken, same),
        λ s. elim s [
          | inl (zero_offset, _) ↦ absurd (omega (arith, zero_offset))
          | inr (_, taken, same) ↦ rw positive (back (taken, same))
        ],
      )

  open_file-Opens :
      (read_only truncate : Bool) (offset : ℕ) (h : History) (f : SshSpikeRemoteFile) (h' : History)
      → (open_file F n path read_only truncate offset h ≡ (ok f, h'))
        ↔ Opens F n path (open_flags read_only truncate) offset h f h'
  unfolding open_file
  open_file-Opens read_only truncate offset h f h' =
      let c = open_with_flags n path (open_flags read_only truncate) in
      let opened = perform F.opens SshSpikeError.sftp c h in
      (
        λ e.
            let (file, e1, e2) = continue-eq_ok _ opened.0 opened.1 e in
            let sought = seek_to F file offset (c ∷ h) in
            let (_, e3, e4) =
              continue-eq_ok (λ _. pure (record { file = some file })) sought.0 sought.1 e2 in
            (
              file,
              from_reply-eq_ok SshSpikeError.sftp (F.opens h c) e1,
              cc (ap (λ p. p.0) e4),
              (seek_to_iff file offset (c ∷ h) h').0 (pair_eq sought e3 (ap (λ p. p.1) e4)),
            ),
        λ (file, e1, e2, e3).
            let sought = (seek_to_iff file offset (c ∷ h) h').1 e3 in rw (e1, sought, e2) refl,
      )

-- An open returns a handle exactly if the server opened the file and confirmed the seek, and the
-- handle is then for that file. The reading ones neither create nor truncate, `open_write` truncates,
-- `open_write_at` truncates exactly if it is told to, each seeks to its offset exactly if that is not
-- 0, and no other call is made.
pub Opens-iff :
    (F : RusshSftp) (n : ℕ) (path : Text) (offset : ℕ) (truncate : Bool) (h : History)
    (f : SshSpikeRemoteFile) (h' : History)
    → ((open_read F n path h ≡ (ok f, h')) ↔ Opens F n path for_reading 0 h f h')
      × ((open_read_at F n path offset h ≡ (ok f, h')) ↔ Opens F n path for_reading offset h f h')
      × ((open_write F n path h ≡ (ok f, h')) ↔ Opens F n path (for_writing true) 0 h f h')
      × ((open_write_at F n path offset truncate h ≡ (ok f, h'))
          ↔ Opens F n path (for_writing truncate) offset h f h')
unfolding open_read open_read_at open_write open_write_at open_flags
Opens-iff F n path offset truncate h f h' = (
  open_file-Opens F n path true false 0 h f h',
  open_file-Opens F n path true false offset h f h',
  open_file-Opens F n path false true 0 h f h',
  open_file-Opens F n path false truncate offset h f h',
)

-- No open among the calls truncates.
abbrev pub KeepsBytes : History → Type 0
KeepsBytes [] = Unit {0}
KeepsBytes (open_with_flags n path flags ∷ h) = (flags.truncate ≡ false) × KeepsBytes h
KeepsBytes (_ ∷ h) = KeepsBytes h

module _ (F : RusshSftp) (n : ℕ) (path : Text) where
  open_file-KeepsBytes :
      (read_only : Bool) (offset : ℕ) (h : History)
      → KeepsBytes h
      → KeepsBytes (open_file F n path read_only false offset h).1
  unfolding open_file open_flags
  open_file-KeepsBytes read_only offset h k = ground arith

-- After a history with no truncation, a resumed transfer, in either direction, asks the server for
-- none: whatever the server replies, and also when opening fails.
pub resume-KeepsBytes :
    (F : RusshSftp) (n : ℕ) (path : Text) (offset : ℕ) (h : History)
    → KeepsBytes h
    → KeepsBytes (open_read_at F n path offset h).1
      × KeepsBytes (open_write_at F n path offset false h).1
unfolding open_read_at open_write_at
resume-KeepsBytes F n path offset h k =
    (open_file-KeepsBytes F n path true offset h k, open_file-KeepsBytes F n path false offset h k)

-- The server opened the file for writing, took all the bytes and confirmed the close.
abbrev pub Written : RusshSftp → ℕ → Text → List ℕ → History → History → Type 0
Written F n path bytes h h' =
    let c = open_with_flags n path (for_writing true) in
    (file : ℕ) × (F.opens h c ≡ done file)
    × (F.acknowledges (c ∷ h) (file_write_all file bytes) ≡ done tt)
    × (F.acknowledges (file_write_all file bytes ∷ c ∷ h) (file_close file) ≡ done tt)
    × (h' ≡ file_close file ∷ file_write_all file bytes ∷ c ∷ h)

-- A whole-file write succeeds exactly if the server created or emptied the file, took all the bytes and
-- confirmed the close, asked in this order and nothing else: a failed close is an error.
pub write_iff :
    (F : RusshSftp) (n : ℕ) (path : Text) (bytes : List ℕ) (h h' : History)
    → (write F n path bytes h ≡ (ok tt, h')) ↔ Written F n path bytes h h'
unfolding write
write_iff F n path bytes h h' =
    let c = open_with_flags n path (for_writing true) in
    let opened = perform F.opens SshSpikeError.sftp c h in
    (
      λ e.
          let (file, e1, e2) = continue-eq_ok _ opened.0 opened.1 e in
          let w = file_write_all file bytes in
          let filled = perform F.acknowledges SshSpikeError.sftp w (c ∷ h) in
          let (_, e3, e4) = continue-eq_ok _ filled.0 filled.1 e2 in
          let (closed, same) = (acknowledged_iff F (file_close file) (w ∷ c ∷ h) h').0 e4 in
          (
            file,
            from_reply-eq_ok SshSpikeError.sftp (F.opens h c) e1,
            from_reply-eq_ok SshSpikeError.sftp (F.acknowledges (c ∷ h) w) e3,
            closed,
            same,
          ),
      λ (file, e1, e2, e3, same). rw (e1, e2, e3, same) refl,
    )
