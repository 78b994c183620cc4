-- ===== src/Sftp/Remote.antt =====
-- The streaming reads of `SshSpikeRemoteFile` in ssh-transport/src/lib.rs, over any server that
-- returns the bytes of a file in order.
use rust_core.Base.{ℕ, zero, suc, ◌<◌, ◌≡◌, refl, ap, ◌∙◌, some, List, [], ◌∷◌, ◌++◌, length}
use rust_core.Base.{length-append, drop, replicate, take-length_append, codes, arith}
use rust_core.Russh.{RusshSftp, History, file_read, file_close, done, plain}
use rust_core.Outcome.{SshSpikeError, ok, err, blocked, M, pure, continue, ◌>>=◌}
use rust_core.Sftp.{SshSpikeRemoteFile, fill, read_chunk, write_chunk, disconnect}

-- A buffer that is filled from the front and cut behind the last byte read holds what was read.
fill_lem : (max : ℕ) (bytes : List ℕ) → fill max bytes ≡ bytes
unfolding fill
fill_lem max bytes = take-length_append bytes (drop (length bytes) (replicate max 0))

-- What a client relies on for an open file: `rest` is what is left to read. A read with room gives
-- some of the bytes that are next, and none only at the end.
pub record Serves (F : RusshSftp) (file : ℕ) (rest : History → List ℕ) : Type 0 where
  pub chunk : History → ℕ → List ℕ
  pub replies : (h : History) (max : ℕ) → F.reads h (file_read file max) ≡ done (chunk h max)
  pub in_order : (h : History) (max : ℕ) → rest h ≡ chunk h max ++ rest (file_read file max ∷ h)
  pub some_bytes : (h : History) (max : ℕ) → 0 < max → chunk h max ≡ [] → rest h ≡ []

-- The client's loop: it reads chunks until one is empty and joins them; `blocked` is no fuel.
abbrev pub and_more : (M SshSpikeError (List ℕ)) → List ℕ → M SshSpikeError (List ℕ)
and_more next [] = pure []
and_more next (b ∷ bytes) = next >>= λ more. pure ((b ∷ bytes) ++ more)

unfoldable pub read_to_end : RusshSftp → SshSpikeRemoteFile → ℕ → ℕ → M SshSpikeError (List ℕ)
read_to_end F f max zero h = (blocked, h)
read_to_end F f max (suc fuel) h =
    continue (and_more (λ h'. read_to_end F f max fuel h')) (read_chunk F f max h).0
      (read_chunk F f max h).1

-- One round of the loop, from what is left before it and after it.
pub read_step :
    (bytes left after : List ℕ) (next : M SshSpikeError (List ℕ)) (h : History)
    → left ≡ bytes ++ after
    → (bytes ≡ [] → left ≡ [])
    → (0 < length bytes → (next h).0 ≡ ok after)
    → (and_more next bytes h).0 ≡ ok left
read_step [] left after next h e stop go = rw (stop refl)
read_step (b ∷ bytes) left after next h e stop go = rw (go (omega arith), e)

pub read_chunk_reply :
    (F : RusshSftp) (file max : ℕ) (h : History) (bytes : List ℕ)
    → F.reads h (file_read file max) ≡ done bytes
    → read_chunk F (record { file = some file }) max h ≡ (ok bytes, file_read file max ∷ h)
unfolding read_chunk
read_chunk_reply F file max h bytes e = rw (e, fill_lem)

module _ (F : RusshSftp) (file : ℕ) (rest : History → List ℕ) (serves : Serves F file rest) where
  read_to_end-rest :
      (max : ℕ)
      → 0 < max
      → (fuel : ℕ) (h : History) → length (rest h) < fuel
      → (read_to_end F (record { file = some file }) max fuel h).0 ≡ ok (rest h)
  unfolding read_to_end
  read_to_end-rest max room zero h lt = absurd (omega arith)
  read_to_end-rest max room (suc fuel) h lt =
      let bytes = serves.chunk h max in
      let h' : History = file_read file max ∷ h in
      let size = ap length (serves.in_order h max) ∙ length-append bytes (rest h') in
      rw (read_chunk_reply F file max h bytes (serves.replies h max)) (
        read_step bytes (rest h) (rest h') _ h' (serves.in_order h max)
          (serves.some_bytes h max room) (λ some_. read_to_end-rest max room fuel h' (omega arith)))

  -- From a server that serves the bytes of a file in order, reading chunks of any size but 0 until one
  -- is empty returns every byte that is left in the file, in order. One read more than there are
  -- bytes is enough.
  pub read_to_end_lem :
      (max : ℕ) (h : History)
      → 0 < max
      → (read_to_end F (record { file = some file }) max (suc (length (rest h))) h).0 ≡ ok (rest h)
  read_to_end_lem max h room = read_to_end-rest max room (suc (length (rest h))) h (omega arith)

-- After `disconnect` of a file that is open, which spawns one close of it, a read and a write are
-- refused with no call made, and another `disconnect` spawns nothing.
disconnect_file :
    (F : RusshSftp) (f : SshSpikeRemoteFile) (file max : ℕ) (bytes : List ℕ) (h : History)
    → f.file ≡ some file
    → let (f', tasks) = disconnect f in
      (tasks ≡ (plain (file_close file) ∷ []) ∷ [])
      × (read_chunk F f' max h ≡ (err (SshSpikeError.sftp (codes "handle closed")), h))
      × (write_chunk F f' bytes h ≡ (err (SshSpikeError.sftp (codes "handle closed")), h))
      × ((disconnect f').1 ≡ [])
unfolding disconnect read_chunk write_chunk
disconnect_file F f file max bytes h e = (rw e, refl, refl, refl)
