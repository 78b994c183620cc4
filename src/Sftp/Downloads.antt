-- ===== src/Sftp/Downloads.antt =====
-- Downloads with the SFTP client of ssh-transport/src/lib.rs, from a server that keeps files.
use rust_core.Base.{◌≢◌, ℕ, zero, suc, ◌+◌, ◌<◌, ◌≡◌, sym, ap, ◌∙◌, inl, inr, some, false, List}
use rust_core.Base.{[], ◌∷◌, ◌++◌, Text, length, length-append, take, drop, take-append-drop}
use rust_core.Base.{arith}
use rust_core.Russh.{RusshSftp, History, Call, done, open_with_flags, file_read, file_close}
use rust_core.Outcome.{ok}
use rust_core.Sftp.{SshSpikeRemoteFile, open_read_at}
use rust_core.Sftp.Files.{Opens, Opens-iff, for_reading}
use rust_core.Sftp.Remote.{read_to_end, read_step, read_chunk_reply}
use rust_core.Sftp.Store.{KeepsFiles, Keeps}

-- What the protocol promises of reading, beyond `KeepsFiles`: a file that is there can be read from
-- its cursor on, a read with room stops only at the end, and to close a file moves no other cursor.
pub record Reads (F : RusshSftp) (S : KeepsFiles F) : Type 0 where
  pub opened_read :
      (h : History) (n : ℕ) (path : Text) (file : ℕ)
      → let c = open_with_flags n path for_reading in
        F.opens h c ≡ done file → Keeps S.contents h c × (S.cursor (c ∷ h) file ≡ some (path, 0))
  pub chunk :
      (h : History) (file max pos : ℕ) (path : Text) (bytes : List ℕ)
      → let c = file_read file max in
        S.cursor h file ≡ some (path, pos)
        → S.contents h path ≡ some bytes
        → (got : List ℕ) × (F.reads h c ≡ done got)
          × (drop pos bytes ≡ got ++ drop (pos + length got) bytes)
          × (0 < max → got ≡ [] → drop pos bytes ≡ [])
          × Keeps S.contents h c
          × (S.cursor (c ∷ h) file ≡ some (path, pos + length got))
  pub closed_other :
      (h : History) (file other : ℕ)
      → other ≢ file
      → S.cursor (file_close other ∷ h) file ≡ S.cursor h file

module _ (F : RusshSftp) (S : KeepsFiles F) (R : Reads F S) where
  read_to_end-drop :
      (file max : ℕ) (path : Text) (bytes : List ℕ)
      → 0 < max
      → (fuel pos : ℕ) (h : History) → S.cursor h file ≡ some (path, pos)
      → S.contents h path ≡ some bytes
      → length (drop pos bytes) < fuel
      → (read_to_end F (record { file = some file }) max fuel h).0 ≡ ok (drop pos bytes)
  unfolding read_to_end
  read_to_end-drop file max path bytes room zero pos h at holds lt = absurd (omega (arith, lt))
  read_to_end-drop file max path bytes room (suc fuel) pos h at holds lt =
      let (got, reply, in_order, stop, keeps, at') = R.chunk h file max pos path bytes at holds in
      let h' : History = file_read file max ∷ h in
      let after = drop (pos + length got) bytes in
      let size = ap length in_order ∙ length-append got after in
      rw (read_chunk_reply F file max h got reply) (
        read_step got (drop pos bytes) after _ h' in_order (stop room) (λ some_.
          read_to_end-drop file max path bytes room fuel (pos + length got) h' at'
            (keeps path ∙ holds) (omega (arith, size, lt, some_))))

  pub opened_read-cursor :
      (n : ℕ) (path : Text) (offset : ℕ) (h : History) (f : SshSpikeRemoteFile) (h' : History)
      → Opens F n path for_reading offset h f h'
      → (file : ℕ) × (f ≡ record { file = some file })
        × (S.cursor h' file ≡ some (path, offset))
        × (S.contents h' path ≡ S.contents h path)
  opened_read-cursor n path offset h f h' (file, opened, handle, inl (start, same)) =
      let (keeps, at) = R.opened_read h n path file opened in
      (file, handle, rw (same, start) at, rw same (keeps path))
  opened_read-cursor n path offset h f h' (file, opened, handle, inr (_, sought, same)) =
      let (keeps, at) = R.opened_read h n path file opened in
      let c : Call = open_with_flags n path for_reading in
      let (keeps', at') = S.sought (c ∷ h) file offset 0 path sought at in
      (file, handle, rw same at', rw same (keeps' path ∙ keeps path))

  -- From a server that keeps files and lets them be read: a download that is resumed at an offset,
  -- whose file is there and has been opened, reads to the end in chunks of any size but 0 and returns
  -- what lies behind the offset; with what was there before, these are the bytes of the file. One
  -- read more than there are bytes is enough.
  pub download_lem :
      (n : ℕ) (path : Text) (bytes : List ℕ) (offset max : ℕ) (h : History) (f : SshSpikeRemoteFile)
      (h' : History)
      → 0 < max
      → S.contents h path ≡ some bytes
      → open_read_at F n path offset h ≡ (ok f, h')
      → (got : List ℕ) × ((read_to_end F f max (suc (length bytes)) h').0 ≡ ok got)
        × (take offset bytes ++ got ≡ bytes)
  download_lem n path bytes offset max h f h' room holds e =
      let opens = (Opens-iff F n path offset false h f h').1.0 e in
      let (file, handle, at, kept) = opened_read-cursor n path offset h f h' opens in
      let whole = take-append-drop offset bytes in
      let size = sym (ap length whole) ∙ length-append (take offset bytes) (drop offset bytes) in
      (
        drop offset bytes,
        rw handle (
            read_to_end-drop file max path bytes room (suc (length bytes)) offset h' at
              (kept ∙ holds) (omega (arith, size))),
        whole,
      )
