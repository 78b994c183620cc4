-- ===== src/Sftp/Uploads.antt =====
-- What transfers with the SFTP client of ssh-transport/src/lib.rs leave on a server that keeps files.
use rust_core.Base.{ℕ, ◌+◌, ◌≤◌, ◌≡◌, ◌≢◌, inl, inr, refl, sym, ap, ◌∙◌, Bool, false, some, List}
use rust_core.Base.{[], ◌∷◌, ◌++◌, Text, length, length-append, length-take, take, drop}
use rust_core.Base.{drop-append_add, drop-drop, drop-nil, append_assoc, append-nil}
use rust_core.Base.{take-append-drop, take-length_append, arith}
use rust_core.Russh.{RusshSftp, History, Call, done, open_with_flags, file_write_all}
use rust_core.Outcome.{SshSpikeError, ok, M, pure, ◌>>◌, continue-eq_ok}
use rust_core.Sftp.{SshSpikeRemoteFile, write_chunk, open_write_at}
use rust_core.Sftp.Files.{Opens, Opens-iff, acknowledged_iff, pair_eq, for_writing}
use rust_core.Sftp.Store.{KeepsFiles, after_open, overwrite, Contents}
use rust_core.Channel.Reads.{joined}

-- Where the position splits the file.
overwrite_split :
    (bytes before after : List ℕ)
    → overwrite (length before) bytes (before ++ after)
      ≡ before ++ (bytes ++ drop (length bytes) after)
overwrite_split bytes before after =
    rw (take-length_append before after, drop-append_add before after (length bytes)) refl

overwrite_twice_split :
    (a b before after : List ℕ)
    → overwrite (length before + length a) b (overwrite (length before) a (before ++ after))
      ≡ overwrite (length before) (a ++ b) (before ++ after)
overwrite_twice_split a b before after =
    let left = drop (length a) after in
    ap (λ t. overwrite (length before + length a) b t)
      (overwrite_split a before after ∙ sym (append_assoc before a left))
    ∙ ap (λ n. overwrite n b ((before ++ a) ++ left)) (sym (length-append before a))
    ∙ overwrite_split b (before ++ a) left
    ∙ rw (← drop-drop (length a) (length b) after, ← length-append a b)
        (append_assoc before a _ ∙ ap (λ t. before ++ t) (sym (append_assoc a b _)))
    ∙ sym (overwrite_split (a ++ b) before after)

-- A write behind another one.
overwrite_twice :
    (pos : ℕ) (a b old : List ℕ)
    → pos ≤ length old
    → overwrite (pos + length a) b (overwrite pos a old) ≡ overwrite pos (a ++ b) old
overwrite_twice pos a b old inside =
    let size : length (take pos old) ≡ pos = omega (arith, length-take pos old) in
    let same = overwrite_twice_split a b (take pos old) (drop pos old) in
    rw (size, take-append-drop) at same

pub overwrite_end : (bytes old : List ℕ) → overwrite (length old) bytes old ≡ old ++ bytes
overwrite_end bytes old =
    let e = overwrite_split bytes old [] in
    rw (append-nil old, drop-nil (length bytes), append-nil bytes) at e

overwrite_nothing : (pos : ℕ) (old : List ℕ) → overwrite pos [] old ≡ old
overwrite_nothing pos old =
    let same : pos + 0 ≡ pos = omega arith in rw same (take-append-drop pos old)

length-overwrite :
    (pos : ℕ) (bytes old : List ℕ)
    → pos ≤ length old
    → pos + length bytes ≤ length (overwrite pos bytes old)
length-overwrite pos bytes old inside = omega (
  arith,
  length-take pos old,
  length-append (take pos old) (bytes ++ drop (pos + length bytes) old),
  length-append bytes (drop (pos + length bytes) old),
)

-- A client's loop: it writes chunk after chunk and stops at an error.
unfoldable pub upload : RusshSftp → SshSpikeRemoteFile → List (List ℕ) → M SshSpikeError (Unit {0})
upload F f [] = pure tt
upload F f (chunk ∷ rest) = write_chunk F f chunk >> upload F f rest

-- From `h` to `h'`, `path` comes to hold some bytes, and every other file is as it was.
abbrev pub Leaves : Contents → History → History → Text → List ℕ → Type 0
Leaves contents h h' path bytes =
    (contents h' path ≡ some bytes)
    × ((other : Text) → other ≢ path → contents h' other ≡ contents h other)

pub Leaves-trans :
    (contents : Contents) (h h' h'' : History) (path : Text) (bytes more : List ℕ)
    → Leaves contents h h' path bytes
    → Leaves contents h' h'' path more
    → Leaves contents h h'' path more
Leaves-trans contents h h' h'' path bytes more (_, apart) (there, apart') =
    (there, λ other differs. apart' other differs ∙ apart other differs)

module _ (F : RusshSftp) (S : KeepsFiles F) where
  write_chunk-ok :
      (file : ℕ) (bytes : List ℕ) (h h' : History)
      → write_chunk F (record { file = some file }) bytes h ≡ (ok tt, h')
      → (F.acknowledges h (file_write_all file bytes) ≡ done tt)
        × (h' ≡ file_write_all file bytes ∷ h)
  unfolding write_chunk
  write_chunk-ok file bytes h h' e = (acknowledged_iff F (file_write_all file bytes) h h').0 e

  -- Chunks that are written at a cursor inside the file or at its end.
  pub upload-Leaves :
      (file pos : ℕ) (path : Text) (old : List ℕ) (chunks : List (List ℕ)) (h h' : History)
      → S.cursor h file ≡ some (path, pos)
      → S.contents h path ≡ some old
      → pos ≤ length old
      → upload F (record { file = some file }) chunks h ≡ (ok tt, h')
      → Leaves S.contents h h' path (overwrite pos (joined chunks) old)
  unfolding upload
  upload-Leaves file pos path old [] h h' at holds inside e =
      let same : h ≡ h' = ap (λ p. p.1) e in rw (← same, overwrite_nothing) (holds, λ _ _. refl)
  upload-Leaves file pos path old (chunk ∷ rest) h h' at holds inside e =
      let w = write_chunk F (record { file = some file }) chunk h in
      let (_, e1, e2) =
        continue-eq_ok (λ _. upload F (record { file = some file }) rest) w.0 w.1 e in
      let (taken, same) = write_chunk-ok file chunk h w.1 (pair_eq w e1 refl) in
      let (sets, at') = S.written h file pos path chunk old taken at holds inside in
      let h1 : History = file_write_all file chunk ∷ h in
      rw (← overwrite_twice pos chunk (joined rest) old inside) (
        Leaves-trans S.contents h h1 h' path (overwrite pos chunk old) _ sets (
          upload-Leaves file (pos + length chunk) path (overwrite pos chunk old) rest h1 h' at'
            sets.0 (length-overwrite pos chunk old inside)
            (ap (upload F (record { file = some file }) rest) (sym same) ∙ e2)))

  -- A handle that was opened for writing has its cursor at the offset.
  opened-Leaves :
      (n : ℕ) (path : Text) (truncate : Bool) (offset : ℕ) (h : History) (f : SshSpikeRemoteFile)
      (h' : History)
      → Opens F n path (for_writing truncate) offset h f h'
      → (file : ℕ) × (f ≡ record { file = some file })
        × (S.cursor h' file ≡ some (path, offset))
        × Leaves S.contents h h' path (after_open truncate (S.contents h path))
  opened-Leaves n path truncate offset h f h' (file, opened, handle, inl (start, same)) =
      let (sets, at) = S.opened h n path truncate file opened in
      (file, handle, rw (same, start) at, rw same sets)
  opened-Leaves n path truncate offset h f h' (file, opened, handle, inr (_, sought, same)) =
      let (sets, at) = S.opened h n path truncate file opened in
      let c : Call = open_with_flags n path (for_writing truncate) in
      let (kept, at') = S.sought (c ∷ h) file offset 0 path sought at in
      (
        file,
        handle,
        rw same at',
        rw same (kept path ∙ sets.0, λ other differs. kept other ∙ sets.1 other differs),
      )

  -- An upload through a handle that was opened for writing inside the file or at its end.
  pub transfer-Leaves :
      (n : ℕ) (path : Text) (truncate : Bool) (offset : ℕ) (chunks : List (List ℕ)) (h : History)
      (f : SshSpikeRemoteFile) (h' h'' : History)
      → Opens F n path (for_writing truncate) offset h f h'
      → offset ≤ length (after_open truncate (S.contents h path))
      → upload F f chunks h' ≡ (ok tt, h'')
      → Leaves S.contents h h'' path
          (overwrite offset (joined chunks) (after_open truncate (S.contents h path)))
  transfer-Leaves n path truncate offset chunks h f h' h'' opens inside e =
      let (file, handle, at, leaves) = opened-Leaves n path truncate offset h f h' opens in
      let old = after_open truncate (S.contents h path) in
      Leaves-trans S.contents h h' h'' path old _ leaves (
        upload-Leaves file offset path old chunks h' h'' at leaves.0 inside
          (ap (λ g. upload F g chunks h') (sym handle) ∙ e))

  -- A resumed transfer into a file that the server keeps: when `open_write_at` at an offset inside the
  -- file or at its end, with no truncation, and every write of a chunk have succeeded, the file is as
  -- it was up to the offset, then has the chunks, in order, and then what lies behind them; every
  -- other file is as it was.
  pub resumed_lem :
      (n : ℕ) (path : Text) (offset : ℕ) (old : List ℕ) (chunks : List (List ℕ)) (h : History)
      (f : SshSpikeRemoteFile) (h' h'' : History)
      → S.contents h path ≡ some old
      → offset ≤ length old
      → open_write_at F n path offset false h ≡ (ok f, h')
      → upload F f chunks h' ≡ (ok tt, h'')
      → Leaves S.contents h h'' path (overwrite offset (joined chunks) old)
  resumed_lem n path offset old chunks h f h' h'' holds inside opened e =
      let kept : after_open false (S.contents h path) ≡ old = rw holds refl in
      let opens = (Opens-iff F n path offset false h f h').3.0 opened in
      rw kept at (transfer-Leaves n path false offset chunks h f h' h'' opens (rw kept inside) e)
