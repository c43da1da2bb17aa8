-- ===== src/Storage.antt =====
-- storage/filesystem.go: the file store below a root directory. Every method takes the disk and
-- returns the disk that it leaves with its result. The checksum (hex of SHA-256) is an argument.
pub mod Os
pub mod Sandbox
pub mod Normalizing
pub mod Contents
pub mod Moves
pub mod Refinement
pub mod Joining
use honeygen.Prelude.{
  ℕ, Bool, ◌||◌, Option, none, some, List, [], ◌∷◌, ◌++◌, reverse, ◌==◌, if◌then◌else◌, length,
  Result, ok, err, ◌>>=◌, ◌>>◌,
}
use honeygen.Text.{Text, text_eq, trim_space, has_prefix, split, replace}
use honeygen.Path.{slash, dot, dotdot, is_abs, clean, path_join}
use honeygen.Storage.Os.{
  Disk, OsError, not_exist, mkdir_all, write_file, read_file, refused, Bytes, remove, rename,
  remove_all, torn_file, torn_directory,
}

abbrev pub backslash : ℕ
backslash = 92

-- what an operation of the store reports: the wrapped cases keep the error of the system call
pub data StorageError : Type 0 where
  not_configured : StorageError
  parts_required : StorageError
  invalid_path : Text → StorageError
  create_directory : Text → OsError → StorageError
  write_failed : Text → OsError → StorageError
  read_failed : Text → OsError → StorageError
  delete_failed : Text → OsError → StorageError
  move_failed : Text → Text → OsError → StorageError
  delete_directory : Text → OsError → StorageError

pub record StoredFile : Type 0 where
  pub path : Text
  pub size_bytes : ℕ
  pub checksum : Text

pub record Filesystem : Type 0 where
  pub root : Text

-- the guard of `normalizeRelativePath`
pub refused_path : Text → Bool
refused_path p =
    text_eq p dot
    || text_eq p []
    || has_prefix p (b'.' ∷ b'.' ∷ slash ∷ [])
    || text_eq p dotdot
    || is_abs p

unfoldable pub normalize_relative_path : Text → Result StorageError Text
unfolding refused_path
normalize_relative_path relative_path =
    let normalized = clean (replace backslash slash (trim_space relative_path)) in
    if refused_path normalized then err (invalid_path relative_path) else ok normalized

-- `for _, part := range parts`, with the segments so far
join_loop : List Text → List Text → Result StorageError (List Text)
join_loop segments [] = ok segments
join_loop segments (part ∷ parts) = do
  normalized ← normalize_relative_path part
  join_loop (segments ++ split slash normalized) parts

unfoldable pub join_relative : List Text → Result StorageError Text
unfolding join_loop
join_relative [] = err parts_required
join_relative (part ∷ parts) = do segments ← join_loop [] (part ∷ parts); ok (path_join segments)

-- a normalized path with its full path
abbrev pub with_full : Text → Text → Text × Text
with_full root normalized = (normalized, path_join (root ∷ normalized ∷ []))

-- a nil `*Filesystem` is `none`; `filepath.FromSlash` is the identity where the separator is a slash
resolve_under : Text → Text → Result StorageError (Text × Text)
resolve_under root relative_path =
    if text_eq root []
    then err not_configured
    else do normalized ← normalize_relative_path relative_path; ok (with_full root normalized)

unfoldable pub resolve : Option Filesystem → Text → Result StorageError (Text × Text)
unfolding resolve_under
resolve none relative_path = err not_configured
resolve (some f) relative_path = resolve_under f.root relative_path

-- a path up to its last slash, both reversed
from_slash : Text → Text
from_slash [] = []
from_slash (c ∷ s) = if c == slash then c ∷ s else from_slash s

-- `filepath.Dir`
unfoldable pub path_dir : Text → Text
unfolding from_slash
path_dir p = clean (reverse (from_slash (reverse p)))

-- an error of the system call is wrapped
wrap : {A : Type 0} → (OsError → StorageError) → Result OsError A → Result StorageError A
wrap f (ok a) = ok a
wrap f (err e) = err (f e)

module _ (checksum : Bytes → Text) where
  -- `Write`
  write_at : Disk → Bytes → Text × Text → Result StorageError (StoredFile × Disk)
  unfolding wrap path_dir
  write_at d bytes (normalized, full_path) = do
    wrap (create_directory normalized) (mkdir_all d (path_dir full_path))
    d' ← wrap (write_failed normalized) (write_file d full_path bytes)
    ok (record { path = normalized; size_bytes = length bytes; checksum = checksum bytes }, d')

  unfoldable pub write :
      Option Filesystem → Disk → Text → Bytes → Result StorageError (StoredFile × Disk)
  unfolding write_at
  write f d relative_path bytes = do target ← resolve f relative_path; write_at d bytes target

torn_at : Disk → Bytes → Result StorageError (Text × Text) → Disk
torn_at d bytes (err e) = d
torn_at d bytes (ok (normalized, full_path)) =
    if d.refuses (path_dir full_path) then d else torn_file d full_path bytes

-- the disk behind a `Write` that failed
unfoldable pub torn_write : Option Filesystem → Disk → Text → Bytes → Disk
unfolding torn_at
torn_write f d relative_path bytes = torn_at d bytes (resolve f relative_path)

-- `Read`
unfoldable pub read : Option Filesystem → Disk → Text → Result StorageError Bytes
unfolding wrap
read f d relative_path = do
  target ← resolve f relative_path
  wrap (read_failed relative_path) (read_file d target.1)

-- a missing file is no error
ignore_missing : Disk → (OsError → StorageError) → Result OsError Disk → Result StorageError Disk
ignore_missing d f (ok d') = ok d'
ignore_missing d f (err not_exist) = ok d
ignore_missing d f (err refused) = err (f refused)

-- `Delete`
unfoldable pub delete : Option Filesystem → Disk → Text → Result StorageError Disk
unfolding ignore_missing
delete f d relative_path = do
  target ← resolve f relative_path
  ignore_missing d (delete_failed target.0) (remove d target.1)

-- `Move`, from two resolved paths
move_at : Disk → Text × Text → Text × Text → Result StorageError Disk
unfolding wrap ignore_missing path_dir
move_at d (from_normalized, from_full) (to_normalized, to_full) =
    if text_eq from_normalized to_normalized then ok d else do
      wrap (create_directory to_normalized) (mkdir_all d (path_dir to_full))
      ignore_missing d (move_failed from_normalized to_normalized) (rename d from_full to_full)

unfoldable pub move : Option Filesystem → Disk → Text → Text → Result StorageError Disk
unfolding move_at
move f d from_path to_path = do
  from ← resolve f from_path
  to ← resolve f to_path
  move_at d from to

-- `DeleteFiles` stops at the first failure; what it deleted before stays deleted
unfoldable pub delete_files : Option Filesystem → Disk → List Text → Disk × Option StorageError
delete_files f d [] = (d, none)
delete_files f d (p ∷ ps) = elim (delete f d p) [
  | ok d' ↦ delete_files f d' ps
  | err e ↦ (d, some e)
]

-- `DeleteDir`
unfoldable pub delete_dir : Option Filesystem → Disk → Text → Result StorageError Disk
unfolding wrap
delete_dir f d relative_path = do
  target ← resolve f relative_path
  wrap (delete_directory relative_path) (remove_all d target.1)

torn_below : Disk → Result StorageError (Text × Text) → Disk
torn_below d (err e) = d
torn_below d (ok (normalized, full_path)) = torn_directory d full_path

-- the disk behind a `DeleteDir` that failed
unfoldable pub torn_dir : Option Filesystem → Disk → Text → Disk
unfolding torn_below
torn_dir f d relative_path = torn_below d (resolve f relative_path)
