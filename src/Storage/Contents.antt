-- ===== src/Storage/Contents.antt =====
-- What the operations of the file store leave on the disk.
use honeygen.Prelude.{
  ◌≡◌, refl, ◌⊎◌, inl, inr, Bool, false, Option, none, some, arith, if◌then◌else◌, Option-cases,
  length, take, Result, ok, err, ◌>>=◌,
}
use honeygen.Text.{Text, text_eq}
use honeygen.Text.Equality.{text_eq_iff, text_eq_comm, text_eq-append}
use honeygen.Path.Below.{root_prefix}
use honeygen.Storage.{
  StorageError, StoredFile, Filesystem, resolve, write, write_at, torn_at, torn_write, wrap, read,
  delete, ignore_missing, move, move_at, delete_dir, read_failed,
}
use honeygen.Storage.Os.{
  Disk, not_exist, Bytes, file_at, is_directory, put_file, drop_files, mkdir_all, write_file,
  torn_file, read_file, remove, rename, remove_all, is_under, file_at-put_file, file_at-drop_files,
  refuses-put_file, refuses-drop_files,
}
use honeygen.Storage.Sandbox.{resolve_below}

-- what a successful `Write` did
abbrev pub Written : Option Filesystem → Disk → Text → Bytes → StoredFile → Disk → Type 0
Written f d raw bytes stored d' =
    (full : Text) × (resolve f raw ≡ ok (stored.path, full))
    × (d' ≡ put_file d full bytes)
    × (d.refuses full ≡ false)
    × (stored.size_bytes ≡ length bytes)

module _ (checksum : Bytes → Text) (f : Option Filesystem) (d d' : Disk) (raw : Text)
    (bytes : Bytes) (stored : StoredFile) where
  write_at-inv :
      (n full : Text)
      → write_at checksum d bytes (n, full) ≡ ok (stored, d')
      → (stored.path ≡ n)
        × (d' ≡ put_file d full bytes)
        × (d.refuses full ≡ false)
        × (stored.size_bytes ≡ length bytes)
  unfolding write_at mkdir_all write_file
  write_at-inv n full h = ground arith

  pub write-Written :
      write checksum f d raw bytes ≡ ok (stored, d') → Written f d raw bytes stored d'
  unfolding write
  write-Written h = found (resolve f raw) refl h
    where
      found :
          (r : Result StorageError (Text × Text))
          → resolve f raw ≡ r
          → (r >>= λ t. write_at checksum d bytes t) ≡ ok (stored, d')
          → Written f d raw bytes stored d'
      found (err e) eq k = cc
      found (ok (n, full)) eq k =
          let (p, e, free, size) = write_at-inv n full k in (full, rw p eq, e, free, size)

-- under one root, normalized paths and full paths determine one another
module _ (f : Option Filesystem) (raw raw' n n' full full' : Text)
    (h : resolve f raw ≡ ok (n, full)) (h' : resolve f raw' ≡ ok (n', full')) where
  pub same_path : text_eq full full' ≡ text_eq n n'
  same_path = go f h h'
    where
      go :
          (g : Option Filesystem)
          → resolve g raw ≡ ok (n, full)
          → resolve g raw' ≡ ok (n', full')
          → text_eq full full' ≡ text_eq n n'
      go none k k' = unfold resolve in cc
      go (some g) k k' =
          let e = (resolve_below g raw n full k).1 in
          let e' = (resolve_below g raw' n' full' k').1 in
          rw (e, e') (text_eq-append (root_prefix g.root) n n')

-- After a successful `Write`, the written path reads back what was written, and every other path
-- that resolves reads as before.
pub read-write :
    (checksum : Bytes → Text) (f : Option Filesystem) (d d' : Disk) (raw : Text) (bytes : Bytes)
    (stored : StoredFile) (other n full : Text)
    → write checksum f d raw bytes ≡ ok (stored, d')
    → resolve f other ≡ ok (n, full)
    → read f d' other ≡ (if text_eq stored.path n then ok bytes else read f d other)
unfolding read wrap read_file
read-write checksum f d d' raw bytes stored other n full h k =
    let (at, r, e, free, size) = write-Written checksum f d d' raw bytes stored h in
    ground (
      arith,
      same_path f raw other stored.path n at full r k,
      text_eq_iff at full,
      file_at-put_file d at full bytes,
      refuses-put_file d at bytes full,
    )

-- After a successful `Delete`, the deleted path is reported as missing, and every other path that
-- resolves reads as before.
pub read-delete :
    (f : Option Filesystem) (d d' : Disk) (raw m at other n full : Text)
    → resolve f raw ≡ ok (m, at)
    → delete f d raw ≡ ok d'
    → resolve f other ≡ ok (n, full)
    → read f d' other ≡ (if text_eq m n then err (read_failed other not_exist) else read f d other)
unfolding read wrap read_file delete ignore_missing remove
read-delete f d d' raw m at other n full r h k = ground (
  arith,
  same_path f raw other m n at full r k,
  text_eq_iff at full,
  text_eq_comm at full,
  file_at-drop_files d (λ q. text_eq q at) full,
  refuses-drop_files d (λ q. text_eq q at) full,
)

-- what a path reads after a move between two paths: `source` is the file that was moved
abbrev after_move {ℓ} : {A : Type ℓ} → Option Bytes → Bool → Bool → (Bytes → A) → A → A → A
after_move none is_to is_from found missing before = before
after_move (some bytes) is_to is_from found missing before =
    if is_to then found bytes else if is_from then missing else before

-- After a successful `Move` between two different paths, the target reads what the source held and
-- the source is missing; every other path that resolves reads as before. A missing source moves
-- nothing.
pub read-move :
    (f : Option Filesystem) (d d' : Disk)
    (from to source source_at target target_at other n full : Text)
    → resolve f from ≡ ok (source, source_at)
    → resolve f to ≡ ok (target, target_at)
    → text_eq source target ≡ false
    → is_directory d source_at ≡ false
    → move f d from to ≡ ok d'
    → resolve f other ≡ ok (n, full)
    → read f d' other
      ≡ after_move
          (file_at d source_at)
          (text_eq target n)
          (text_eq source n)
          ok
          (err (read_failed other not_exist))
          (read f d other)
unfolding read wrap read_file move move_at ignore_missing rename mkdir_all
read-move f d d' from to source source_at target target_at other n full r r' ne plain h k =
    elim (Option-cases (file_at d source_at)) [
      | inl gone ↦ ground arith
      | inr (bytes, found) ↦ ground (
        arith,
        same_path f from other source n source_at full r k,
        same_path f to other target n target_at full r' k,
        text_eq_iff source_at full,
        text_eq_iff target_at full,
        text_eq_comm source_at full,
        file_at-drop_files d (λ q. text_eq q source_at) full,
        file_at-put_file (drop_files d (λ q. text_eq q source_at)) target_at full bytes,
        refuses-drop_files d (λ q. text_eq q source_at) full,
        refuses-put_file (drop_files d (λ q. text_eq q source_at)) target_at bytes full,
      )
    ]

-- A successful `DeleteDir` removes the file at the directory's path and those below it, and no
-- other file.
pub file_at-delete_dir :
    (f : Option Filesystem) (d d' : Disk) (raw dir at p : Text)
    → resolve f raw ≡ ok (dir, at)
    → delete_dir f d raw ≡ ok d'
    → file_at d' p ≡ (if is_under at p then none else file_at d p)
unfolding delete_dir wrap remove_all
file_at-delete_dir f d d' raw dir at p r h = ground (arith, file_at-drop_files d (is_under at) p)

-- a failed `Write` changes no other file than that at its path
abbrev pub Torn : Option Filesystem → Disk → Text → Disk → Type 0
Torn f d path d' =
    (n : Text) × (full : Text) × (resolve f path ≡ ok (n, full))
    × ((p : Text) → text_eq full p ≡ false → file_at d' p ≡ file_at d p)

pub torn_write_lem :
    (f : Option Filesystem) (d : Disk) (path : Text) (bytes : Bytes)
    → (torn_write f d path bytes ≡ d) ⊎ Torn f d path (torn_write f d path bytes)
unfolding torn_write torn_at torn_file
torn_write_lem f d path bytes = found (resolve f path) refl
  where
    found :
        (r : Result StorageError (Text × Text))
        → resolve f path ≡ r
        → (torn_at d bytes r ≡ d) ⊎ Torn f d path (torn_at d bytes r)
    found (err e) at = inl refl
    found (ok (n, full)) at = inr (
      n,
      full,
      at,
      λ p other. elim (Option-cases (d.torn full)) [
        | inl unopened ↦ ground arith
        | inr (count, opened) ↦ ground (arith, file_at-put_file d full p (take count bytes))
      ],
    )
