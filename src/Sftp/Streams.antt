-- ===== src/Sftp/Streams.antt =====
-- Streaming round trips with the SFTP client of ssh-transport/src/lib.rs: the file that was written is
-- closed by a task that `disconnect` spawns, while the next transfer is already on its way.
use rust_core.Base.{ℕ, zero, suc, ◌+◌, ◌<◌, ◌≡◌, ◌≢◌, refl, ap, ◌∙◌, some, List}
use rust_core.Base.{[], ◌∷◌, ◌++◌, All, Text, length, length-append, drop, arith}
use rust_core.Russh.{RusshSftp, History, Call, file_read, file_close, plain}
use rust_core.Outcome.{SshSpikeError, ok, blocked, M, continue}
use rust_core.Sftp.{SshSpikeRemoteFile, disconnect, read_chunk}
use rust_core.Sftp.Remote.{and_more, read_step, read_chunk_reply}
use rust_core.Sftp.Store.{KeepsFiles}
use rust_core.Sftp.Downloads.{Reads}

-- The client's loop while another task runs: the calls that the task makes before each read.
unfoldable pub read_beside :
    RusshSftp → SshSpikeRemoteFile → ℕ → (ℕ → List Call) → ℕ → M SshSpikeError (List ℕ)
read_beside F f max others zero h = (blocked, h)
read_beside F f max others (suc fuel) h =
    let chunk = read_chunk F f max (others fuel ++ h) in
    continue (and_more (λ h'. read_beside F f max others fuel h')) chunk.0 chunk.1

-- The call of the task that `disconnect` of a file spawns.
abbrev pub IsFarewell : SshSpikeRemoteFile → Call → Type 0
IsFarewell f c = (disconnect f).1 ≡ (plain c ∷ []) ∷ []

module _ (F : RusshSftp) (S : KeepsFiles F) (R : Reads F S) where
  -- Closing the file `w` changes no contents and not the cursor of `file`.
  closes_keep :
      (w file : ℕ) (calls : List Call) (h : History)
      → w ≢ file
      → All (IsFarewell (record { file = some w })) calls
      → ((path : Text) → S.contents (calls ++ h) path ≡ S.contents h path)
        × (S.cursor (calls ++ h) file ≡ S.cursor h file)
  unfolding disconnect
  closes_keep w file [] h apart closes = (λ path. refl, refl)
  closes_keep w file (c ∷ calls) h apart (close, closes) =
      let (kept, still) = closes_keep w file calls h apart closes in
      let same : file_close w ≡ c = cc close in
      rw (← same) (
        λ path. S.closed (calls ++ h) w path ∙ kept path,
        R.closed_other (calls ++ h) file w apart ∙ still,
      )

  pub read_beside-drop :
      (w file max : ℕ) (path : Text) (bytes : List ℕ) (others : ℕ → List Call)
      → 0 < max
      → w ≢ file
      → ((k : ℕ) → All (IsFarewell (record { file = some w })) (others k))
      → (fuel pos : ℕ) (h : History) → S.cursor h file ≡ some (path, pos)
      → S.contents h path ≡ some bytes
      → length (drop pos bytes) < fuel
      → (read_beside F (record { file = some file }) max others fuel h).0 ≡ ok (drop pos bytes)
  unfolding read_beside
  read_beside-drop w file max path bytes others room apart closes zero pos h at holds lt =
      absurd (omega (arith, lt))
  read_beside-drop w file max path bytes others room apart closes (suc fuel) pos h at holds lt =
      let (kept, still) = closes_keep w file (others fuel) h apart (closes fuel) in
      let h0 : History = others fuel ++ h in
      let (got, reply, in_order, stop, keeps, at') =
        R.chunk h0 file max pos path bytes (still ∙ at) (kept path ∙ holds) in
      let h' : History = file_read file max ∷ h0 in
      let after = drop (pos + length got) bytes in
      let size = ap length in_order ∙ length-append got after in
      rw (read_chunk_reply F file max h0 got reply) (
        read_step got (drop pos bytes) after _ h' in_order (stop room) (λ some_.
          read_beside-drop w file max path bytes others room apart closes fuel (pos + length got) h'
            at' (keeps path ∙ kept path ∙ holds) (omega (arith, size, lt, some_))))

  -- Between its spawn and the next open the task may have run or not.
  pub farewells_keep :
      (f : SshSpikeRemoteFile) (w : ℕ) (calls : List Call) (h : History) (path : Text)
      → f ≡ record { file = some w }
      → All (IsFarewell f) calls
      → S.contents (calls ++ h) path ≡ S.contents h path
  unfolding disconnect
  farewells_keep f w [] h path handle closes = refl
  farewells_keep f w (c ∷ calls) h path handle (close, closes) =
      let same : file_close w ≡ c = cc (rw handle at close) in
      rw (← same) (S.closed (calls ++ h) w path ∙ farewells_keep f w calls h path handle closes)
