-- ===== src/Examples/Disk.antt =====
-- A server that keeps files, as an instance of the parameter of `Sftp.Store`: its state is replayed from
-- the history, and an open file has the number of calls made before it.
use rust_core.Base.{text_eq, text_eq_refl, text_eq-ne, ℕ, ◌+◌, ◌≡◌, ◌≢◌, refl, sym, ◌∙◌, true}
use rust_core.Base.{false, Option, none, some, List, [], ◌∷◌, Text, codes, length, ◌==◌}
use rust_core.Base.{if◌then◌else◌, arith, ap, zero, suc, ◌++◌, take, take_none, drop, drop-drop}
use rust_core.Russh.{sftp_metadata, Metadata, file_read, RusshSftp, History, Call, Reply, done}
use rust_core.Russh.{failed, open_with_flags, file_seek, file_write_all, sftp_read, sftp_rename}
use rust_core.Russh.{sftp_remove_file}
use rust_core.Sftp.Downloads.{Reads}
use rust_core.Sftp.Store.{KeepsFiles, after_open, overwrite}

taken_and_rest : (n : ℕ) (xs : List ℕ) → xs ≡ take n xs ++ drop (length (take n xs)) xs
taken_and_rest zero xs = refl
taken_and_rest (suc n) [] = refl
taken_and_rest (suc n) (x ∷ xs) = ap (λ t. x ∷ t) (taken_and_rest n xs)

abbrev pub Tree : Type 0
Tree = Text → Option (List ℕ)

abbrev pub Cursors : Type 0
Cursors = ℕ → Option (Text × ℕ)

abbrev pub set : Tree → Text → Option (List ℕ) → Tree
set t path bytes other = if text_eq other path then bytes else t other

abbrev pub point : Cursors → ℕ → Option (Text × ℕ) → Cursors
point at file cursor other = if other == file then cursor else at other

abbrev pub write_at : Tree → Option (Text × ℕ) → List ℕ → Tree
write_at t none bytes = t
write_at t (some (path, pos)) bytes =
    set t path (elim (t path) [ none ↦ none | some old ↦ some (overwrite pos bytes old) ])

abbrev pub move_to : Option (Text × ℕ) → ℕ → Option (Text × ℕ)
move_to none pos = none
move_to (some (path, _)) pos = some (path, pos)

abbrev pub move_by : Option (Text × ℕ) → ℕ → Option (Text × ℕ)
move_by none k = none
move_by (some (path, pos)) k = some (path, pos + k)

abbrev read_at : Tree → Option (Text × ℕ) → ℕ → List ℕ
read_at t none max = []
read_at t (some (path, pos)) max = elim (t path) [
  | none ↦ []
  | some bytes ↦ take max (drop pos bytes)
]

read_at_there :
    (t : Tree) (c : Option (Text × ℕ)) (path : Text) (pos max : ℕ) (bytes : List ℕ)
    → c ≡ some (path, pos)
    → t path ≡ some bytes
    → read_at t c max ≡ take max (drop pos bytes)
read_at_there t c path pos max bytes e there = ground (arith, e, there)

abbrev State : Type 0
State = Tree × Cursors

abbrev after_call : Call → ℕ → State → State
after_call (open_with_flags n path flags) file (t, at) = (
  if flags.write then set t path (some (after_open flags.truncate (t path))) else t,
  point at file (some (path, 0)),
)
after_call (file_seek file offset) _ (t, at) = (t, point at file (move_to (at file) offset))
after_call (file_read file max) _ (t, at) =
    (t, point at file (move_by (at file) (length (read_at t (at file) max))))
after_call (file_write_all file bytes) _ (t, at) =
    (write_at t (at file) bytes, point at file (move_by (at file) (length bytes)))
after_call (sftp_rename n old_path new_path) _ (t, at) =
    (set (set t new_path (t old_path)) old_path none, at)
after_call (sftp_remove_file n path) _ (t, at) = (set t path none, at)
after_call _ _ s = s

unfoldable pub state_of : History → State
state_of [] = (λ path. none, λ file. none)
state_of (c ∷ h) = after_call c (length h) (state_of h)

abbrev pub tree_of : History → Tree
tree_of h = (state_of h).0

abbrev pub cursor_of : History → Cursors
cursor_of h = (state_of h).1

abbrev pub contents_reply : Option (List ℕ) → Reply Text (List ℕ)
contents_reply none = failed (codes "No such file")
contents_reply (some bytes) = done bytes

abbrev read_reply : History → Call → Reply Text (List ℕ)
read_reply h (sftp_read n path) = contents_reply (tree_of h path)
read_reply h (file_read file max) = done (read_at (tree_of h) (cursor_of h file) max)
read_reply h _ = failed (codes "Failure")

abbrev pub regular : ℕ → Metadata
regular size = record {
  len = size;
  is_dir = false;
  is_file = true;
  is_symlink = false;
  modified = none;
  permissions = none;
}

abbrev pub stat_of : Option (List ℕ) → Reply Text Metadata
stat_of none = failed (codes "No such file")
stat_of (some bytes) = done (regular (length bytes))

abbrev pub stat_reply : History → Call → Reply Text Metadata
stat_reply h (sftp_metadata n path) = stat_of (tree_of h path)
stat_reply h _ = failed (codes "Failure")

abbrev pub disk : RusshSftp
disk = record {
  opens = λ h _. done (length h);
  acknowledges = λ _ _. done tt;
  reads = read_reply;
  links = λ _ _. failed (codes "Failure");
  stats = stat_reply;
  lists = λ _ _. failed (codes "Failure");
}

pub point_self : (at : Cursors) (file : ℕ) (c : Option (Text × ℕ)) → point at file c file ≡ c
point_self at file c = ground arith

pub set_self : (t : Tree) (path : Text) (bytes : Option (List ℕ)) → set t path bytes path ≡ bytes
set_self t path bytes = rw (text_eq_refl path) refl

pub set_other :
    (t : Tree) (path : Text) (bytes : Option (List ℕ)) (other : Text)
    → other ≢ path
    → set t path bytes other ≡ t other
set_other t path bytes other differs = rw (text_eq-ne other path differs) refl

pub contents_reply-done :
    (o : Option (List ℕ)) (bytes : List ℕ) → contents_reply o ≡ done bytes → o ≡ some bytes
contents_reply-done none bytes e = cc
contents_reply-done (some b) bytes e = cc

unfoldable pub disk_files : KeepsFiles disk
unfolding state_of
disk_files = record {
  contents = tree_of;
  cursor = cursor_of;
  opened = λ h n path truncate file e.
      let same : length h ≡ file = cc in
      (
        (set_self (tree_of h) path _, λ other differs. set_other (tree_of h) path _ other differs),
        rw (← same) (point_self (cursor_of h) (length h) _),
      );
  sought = λ h file offset pos path _ at. (λ _. refl, point_self (cursor_of h) file _ ∙ rw at refl);
  written = λ h file pos path bytes old _ at holds inside. (
    (
      rw at (set_self (tree_of h) path _ ∙ rw holds refl),
      λ other differs. rw at (set_other (tree_of h) path _ other differs),
    ),
    point_self (cursor_of h) file _ ∙ rw at refl,
  );
  closed = λ h file path. refl;
  read_whole = λ h n path bytes e. contents_reply-done (tree_of h path) bytes e;
  renamed = λ h n old_path new_path _ apart. (
    set_other (set (tree_of h) new_path (tree_of h old_path)) old_path none new_path
          (λ e. apart (sym e))
        ∙ set_self (tree_of h) new_path _,
    set_self (set (tree_of h) new_path (tree_of h old_path)) old_path none,
    λ other a b.
        set_other (set (tree_of h) new_path (tree_of h old_path)) old_path none other a
        ∙ set_other (tree_of h) new_path _ other b,
  );
  removed = λ h n path _. (
    set_self (tree_of h) path none,
    λ other differs. set_other (tree_of h) path none other differs,
  );
}

pub disk-Reads : Reads disk disk_files
unfolding state_of disk_files
disk-Reads = record {
  opened_read = λ h n path file e.
      let same : length h ≡ file = cc in
      (λ other. refl, rw (← same) (point_self (cursor_of h) (length h) _));
  chunk = λ h file max pos path bytes at holds.
      let got = take max (drop pos bytes) in
      let reads : read_at (tree_of h) (cursor_of h file) max ≡ got =
        read_at_there (tree_of h) (cursor_of h file) path pos max bytes at holds in
      (
        got,
        ap done reads,
        taken_and_rest max (drop pos bytes)
            ∙ ap (λ t. got ++ t) (sym (drop-drop pos (length got) bytes)),
        λ room none_left. take_none max (drop pos bytes) room none_left,
        λ other. refl,
        point_self (cursor_of h) file _ ∙ rw (reads, at) refl,
      );
  closed_other = λ h file other differs. refl;
}
