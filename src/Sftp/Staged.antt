-- ===== src/Sftp/Staged.antt =====
-- Whole transfers with the SFTP client of ssh-transport/src/lib.rs: an upload in two parts that is put
-- in its place by a rename, a file written and read, and a file removed.
use rust_core.Base.{◌⊎◌, inl, inr, ℕ, ◌≡◌, ◌≢◌, sym, ap, ◌∙◌, true, false, none, some, List, []}
use rust_core.Base.{◌∷◌, ◌++◌, Text, length, arith}
use rust_core.Russh.{RusshSftp, History, Call, open_with_flags, file_write_all, sftp_read}
use rust_core.Russh.{sftp_rename, sftp_remove_file}
use rust_core.Outcome.{from_reply-eq_ok, SshSpikeError, ok}
use rust_core.Sftp.{SshSpikeRemoteFile, read, write, open_write, open_write_at, rename}
use rust_core.Sftp.{remove_file}
use rust_core.Sftp.Files.{Opens-iff, for_writing, write_iff, acknowledged_iff}
use rust_core.Sftp.Store.{KeepsFiles}
use rust_core.Sftp.Uploads.{upload, Leaves, Leaves-trans, overwrite_end, transfer-Leaves}
use rust_core.Sftp.Uploads.{resumed_lem}
use rust_core.Channel.Reads.{joined}

some_injective : {a b : List ℕ} → some a ≡ some b → a ≡ b
some_injective e = cc

module _ (F : RusshSftp) (S : KeepsFiles F) where
  -- What a read that has succeeded has returned.
  read-contents :
      (n : ℕ) (path : Text) (bytes : List ℕ) (h h' : History)
      → read F n path h ≡ (ok bytes, h')
      → (S.contents h path ≡ some bytes) × (h' ≡ sftp_read n path ∷ h)
  unfolding read
  read-contents n path bytes h h' e = (
    S.read_whole h n path bytes
        (from_reply-eq_ok SshSpikeError.sftp (F.reads h (sftp_read n path)) (ap (λ p. p.0) e)),
    sym (ap (λ p. p.1) e),
  )

  -- A fresh upload leaves its chunks and nothing else.
  pub fresh-Leaves :
      (n : ℕ) (path : Text) (chunks : List (List ℕ)) (h : History) (f : SshSpikeRemoteFile)
      (h' h'' : History)
      → open_write F n path h ≡ (ok f, h')
      → upload F f chunks h' ≡ (ok tt, h'')
      → Leaves S.contents h h'' path (joined chunks)
  fresh-Leaves n path chunks h f h' h'' opened e =
      let opens = (Opens-iff F n path 0 true h f h').2.0 opened in
      let leaves = transfer-Leaves F S n path true 0 chunks h f h' h'' opens (omega arith) e in
      rw (overwrite_end (joined chunks) []) at leaves

  -- On a server that keeps files, when each step has succeeded: an upload to a new file, in chunks,
  -- that is resumed at the end of what was sent, with no truncation, and then renamed, leaves all the
  -- chunks of both transfers, in order, under the new name and nothing under the old one; every
  -- other file is as it was.
  pub staged_lem :
      (n : ℕ) (part final : Text) (first second : List (List ℕ)) (h : History)
      (f g : SshSpikeRemoteFile) (h1 h2 h3 h4 h5 : History)
      → part ≢ final
      → open_write F n part h ≡ (ok f, h1)
      → upload F f first h1 ≡ (ok tt, h2)
      → open_write_at F n part (length (joined first)) false h2 ≡ (ok g, h3)
      → upload F g second h3 ≡ (ok tt, h4)
      → rename F n part final h4 ≡ (ok tt, h5)
      → (S.contents h5 final ≡ some (joined first ++ joined second))
        × (S.contents h5 part ≡ none)
        × ((other : Text) → other ≢ part → other ≢ final → S.contents h5 other ≡ S.contents h other)
  unfolding rename
  staged_lem n part final first second h f g h1 h2 h3 h4 h5 apart e1 e2 e3 e4 e5 =
      let sent = joined first in
      let begun = fresh-Leaves n part first h f h1 h2 e1 e2 in
      let resumed =
        resumed_lem F S n part (length sent) sent second h2 g h3 h4 begun.0 (omega arith) e3 e4 in
      let (there, others) = Leaves-trans S.contents h h2 h4 part sent _ begun resumed in
      let (moved, same) = (acknowledged_iff F (sftp_rename n part final) h4 h5).0 e5 in
      let (new, gone, untouched) = S.renamed h4 n part final moved apart in
      (
        rw same (new ∙ there ∙ ap some (overwrite_end (joined second) sent)),
        rw same gone,
        λ other not_part not_final.
            rw same (untouched other not_part not_final ∙ others other not_part),
      )

  pub write-Leaves :
      (n : ℕ) (path : Text) (bytes : List ℕ) (h h' : History)
      → write F n path bytes h ≡ (ok tt, h')
      → Leaves S.contents h h' path bytes
  write-Leaves n path bytes h h' e =
      let (file, opened, taken, _, same) = (write_iff F n path bytes h h').0 e in
      let c : Call = open_with_flags n path (for_writing true) in
      let w : Call = file_write_all file bytes in
      let (emptied, at) = S.opened h n path true file opened in
      let (filled, _) = S.written (c ∷ h) file 0 path bytes [] taken at emptied.0 (omega arith) in
      let kept = S.closed (w ∷ c ∷ h) file in
      rw same (
        kept path ∙ filled.0 ∙ ap some (overwrite_end bytes []),
        λ other differs. kept other ∙ filled.1 other differs ∙ emptied.1 other differs,
      )

  -- On a server that keeps files: a whole file that was written and is read next is the bytes that
  -- were written, whatever was there before, and every other file is as it was.
  pub read-write :
      (n : ℕ) (path : Text) (bytes got : List ℕ) (h h' h'' : History)
      → write F n path bytes h ≡ (ok tt, h')
      → read F n path h' ≡ (ok got, h'')
      → (got ≡ bytes) × ((other : Text) → other ≢ path → S.contents h' other ≡ S.contents h other)
  read-write n path bytes got h h' h'' e e' =
      let (holds, others) = write-Leaves n path bytes h h' e in
      (some_injective (sym (read-contents n path got h' h'' e').0 ∙ holds), others)

  read_of_missing :
      (n : ℕ) (path : Text) (got : List ℕ) (h : History)
      → S.contents h path ≡ none
      → (read F n path h).0 ≢ ok got
  unfolding read
  read_of_missing n path got h missing r = cc (
      S.read_whole h n path got
        (from_reply-eq_ok SshSpikeError.sftp (F.reads h (sftp_read n path)) r))

  -- On a server that keeps files: a file that was removed, or renamed to another name, is not read
  -- under its old name by the next call.
  read_of_gone :
      (n : ℕ) (path other : Text) (got : List ℕ) (h h' : History)
      → path ≢ other
      → (remove_file F n path h ≡ (ok tt, h')) ⊎ (rename F n path other h ≡ (ok tt, h'))
      → (read F n path h').0 ≢ ok got
  unfolding rename remove_file
  read_of_gone n path other got h h' apart (inl e) r =
      let (taken, same) = (acknowledged_iff F (sftp_remove_file n path) h h').0 e in
      read_of_missing n path got h' (rw same (S.removed h n path taken).0) r
  read_of_gone n path other got h h' apart (inr e) r =
      let (taken, same) = (acknowledged_iff F (sftp_rename n path other) h h').0 e in
      read_of_missing n path got h' (rw same (S.renamed h n path other taken apart).1) r
