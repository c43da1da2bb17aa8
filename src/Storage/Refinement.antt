-- ===== src/Storage/Refinement.antt =====
-- storage/filesystem.go as a map from names to contents: what each call promises, and that any run of
-- calls on a disk, faults included, keeps the promise.
use honeygen.Prelude.{
  Option, none, some, List, [], ◌∷◌, ◌++◌, if◌then◌else◌, Bool, not, ◌&&◌, take, Result, ok, err,
}
use honeygen.Text.{Text, text_eq}
use honeygen.Path.Below.{root_prefix}
use honeygen.Storage.{
  StorageError, StoredFile, Filesystem, resolve, write, torn_write, delete, move, delete_dir,
  torn_dir, path_dir,
}
use honeygen.Storage.Os.{Disk, Bytes, file_at, is_under, is_directory}
use honeygen.Storage.Os.Directories.{is_below, in_place_of}
use honeygen.Storage.Moves.{moved}

-- what a client sees: the contents behind each name
abbrev pub Names : Type 0
Names = Text → Option Bytes

-- what a call does to it
pub data Change : Type 0 where
  kept : Change
  put : Text → Bytes → Change
  gone : Text → Change
  gone_below : Text → Change
  gone_among : (Text → Bool) → Change
  renamed renamed_below : Text → Text → Change

unfoldable pub act : Change → Names → Names
act kept m k = m k
act (put n bytes) m k = if text_eq n k then some bytes else m k
act (gone n) m k = if text_eq n k then none else m k
act (gone_below dir) m k = if is_under dir k then none else m k
act (gone_among lost) m k = if lost k then none else m k
act (renamed_below n n') m k =
    if is_below n' k then m (in_place_of n n' k) else if is_below n k then none else m k
act (renamed n n') m k = moved (m n) (text_eq n' k) (text_eq n k) (m k)

unfoldable pub act_all : List Change → Names → Names
unfolding act
act_all [] m = m
act_all (c ∷ cs) m = act_all cs (act c m)

pub data FileOp : Type 0 where
  write_op : Text → Bytes → FileOp
  delete_op delete_dir_op : Text → FileOp
  move_op : Text → Text → FileOp

-- a call that fails leaves the disk; one that succeeds acts on the names that it was given
outcome :
    Disk
    → (Text → Text → Change)
    → Result StorageError (Text × Text)
    → Result StorageError Disk
    → Disk × Change
outcome d change (ok (n, full)) (ok d') = (d', change n full)
outcome d change (err e) (ok d') = (d', kept)
outcome d change r (err e) = (d, kept)

-- a write that fails does nothing, or leaves the first bytes
torn_change : Disk → Bytes → Result StorageError (Text × Text) → Change
torn_change d bytes (err e) = kept
torn_change d bytes (ok (n, full)) =
    if d.refuses (path_dir full)
    then kept
    else if is_directory d full
    then kept
    else elim (d.torn full) [ none ↦ kept | some count ↦ put n (take count bytes) ]

-- the move of a file, of a directory, or of nothing
move_change : Disk → Text → Text → Text → Change
move_change d n' n full = if text_eq n n' then kept else elim (file_at d full) [
  | some bytes ↦ renamed n n'
  | none ↦ if is_directory d full then renamed_below n n' else kept
]

name_or_blank : Result StorageError (Text × Text) → Text
name_or_blank (ok (n, full)) = n
name_or_blank (err e) = []

module _ (checksum : Bytes → Text) (f : Filesystem) where
  -- the removal of a directory that fails may have removed a part
  torn_below_change : Disk → Result StorageError (Text × Text) → Change
  torn_below_change d (err e) = kept
  torn_below_change d (ok (n, full)) =
      gone_among (λ k. is_under n k && not (d.spared (root_prefix f.root ++ k)))

  written : Disk → Text → Bytes → Result StorageError (StoredFile × Disk) → Disk × Change
  unfolding torn_change
  written d raw bytes (ok (stored, d')) = (d', put stored.path bytes)
  written d raw bytes (err e) =
      (torn_write (some f) d raw bytes, torn_change d bytes (resolve (some f) raw))

  removed : Disk → Text → Result StorageError Disk → Disk × Change
  unfolding outcome torn_below_change
  removed d raw (ok d') = outcome d (λ n full. gone_below n) (resolve (some f) raw) (ok d')
  removed d raw (err e) = (torn_dir (some f) d raw, torn_below_change d (resolve (some f) raw))

  unfoldable pub step : FileOp → Disk → Disk × Change
  unfolding outcome written removed move_change name_or_blank
  step (write_op raw bytes) d = written d raw bytes (write checksum (some f) d raw bytes)
  step (delete_op raw) d =
      outcome d (λ n full. gone n) (resolve (some f) raw) (delete (some f) d raw)
  step (delete_dir_op raw) d = removed d raw (delete_dir (some f) d raw)
  step (move_op from to) d =
      outcome d (move_change d (name_or_blank (resolve (some f) to))) (resolve (some f) from)
        (move (some f) d from to)

  unfoldable pub steps : List FileOp → Disk → Disk × List Change
  unfolding step
  steps [] d = (d, [])
  steps (op ∷ ops) d = let (d', c) = step op d in let (d'', cs) = steps ops d' in (d'', c ∷ cs)

  -- the names on a disk: the files below the root
  abbrev pub names : Disk → Names
  names d n = file_at d (root_prefix f.root ++ n)
