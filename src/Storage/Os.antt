-- ===== src/Storage/Os.antt =====
-- The calls of the package `os` that the file store makes, on a disk that holds files by their full
-- path. A directory is there where files lie below it; an empty one does not show, and a directory that
-- is read counts as missing. `refuses` says at which paths the system fails a call (permissions, a full
-- disk, a file where a directory is needed); a disk that refuses nothing is the healthy one. `torn` says
-- how many bytes a failed write leaves at a path, where it got as far as to open the file, and `spared`
-- what a failed removal of a directory leaves of it.
pub mod Directories
use honeygen.Prelude.{
  ℕ, ◌≡◌, refl, Bool, true, false, not, ◌&&◌, ◌||◌, Option, none, some, List, [], ◌∷◌, ◌++◌, arith,
  if◌then◌else◌, length, take, drop, Result, ok, err,
}
use honeygen.Text.{Text, text_eq, has_prefix}
use honeygen.Text.Equality.{text_eq_iff, text_eq_comm}
use honeygen.Path.{slash}

abbrev pub Bytes : Type 0
Bytes = List ℕ

pub data OsError : Type 0 where
  not_exist refused : OsError

pub record Disk : Type 0 where
  pub files : List (Text × Bytes)
  pub refuses : Text → Bool
  pub torn : Text → Option ℕ
  pub spared : Text → Bool

abbrev is_some : Option Bytes → Bool
is_some none = false
is_some (some bytes) = true

lookup : Text → List (Text × Bytes) → Option Bytes
lookup p [] = none
lookup p ((q, bytes) ∷ rest) = if text_eq q p then some bytes else lookup p rest

without : (Text → Bool) → List (Text × Bytes) → List (Text × Bytes)
without gone [] = []
without gone ((q, bytes) ∷ rest) =
    let kept = without gone rest in if gone q then kept else (q, bytes) ∷ kept

-- the file at a full path
unfoldable pub file_at : Disk → Text → Option Bytes
unfolding lookup
file_at d p = lookup p d.files

-- the path itself, or one below it
unfoldable pub is_under : Text → Text → Bool
is_under dir p = text_eq p dir || has_prefix p (dir ++ slash ∷ [])

unfoldable pub put_file : Disk → Text → Bytes → Disk
unfolding without
put_file d p bytes = record d { files = (p, bytes) ∷ without (λ q. text_eq q p) d.files }

unfoldable pub drop_files : Disk → (Text → Bool) → Disk
unfolding without
drop_files d gone = record d { files = without gone d.files }

-- whether files lie below a path
any_below : Text → List (Text × Bytes) → Bool
any_below dir [] = false
any_below dir ((q, bytes) ∷ rest) = has_prefix q (dir ++ slash ∷ []) || any_below dir rest

unfoldable pub is_directory : Disk → Text → Bool
unfolding any_below
is_directory d p = any_below p d.files

-- the files below one path, under another one
renamed : Text → Text → List (Text × Bytes) → List (Text × Bytes)
renamed from to [] = []
renamed from to ((q, bytes) ∷ rest) =
    let others = renamed from to rest in
    if has_prefix q (from ++ slash ∷ [])
    then (to ++ drop (length from) q, bytes) ∷ others
    else (q, bytes) ∷ others

unfoldable pub move_directory : Disk → Text → Text → Disk
unfolding renamed
move_directory d from to = record d { files = renamed from to d.files }

-- `os.MkdirAll`
unfoldable pub mkdir_all : Disk → Text → Result OsError (Unit {0})
mkdir_all d p = if d.refuses p then err refused else ok tt

-- `os.WriteFile`
unfoldable pub write_file : Disk → Text → Bytes → Result OsError Disk
write_file d p bytes =
    if d.refuses p || is_directory d p then err refused else ok (put_file d p bytes)

-- the disk behind an `os.WriteFile` that failed
unfoldable pub torn_file : Disk → Text → Bytes → Disk
torn_file d p bytes =
    if is_directory d p
    then d
    else elim (d.torn p) [ none ↦ d | some n ↦ put_file d p (take n bytes) ]

-- `os.ReadFile`
unfoldable pub read_file : Disk → Text → Result OsError Bytes
read_file d p = elim (file_at d p) [
  | none ↦ err not_exist
  | some bytes ↦ if d.refuses p then err refused else ok bytes
]

-- `os.Remove`
unfoldable pub remove : Disk → Text → Result OsError Disk
remove d p = elim (file_at d p) [
  | none ↦ if is_directory d p then err refused else err not_exist
  | some bytes ↦ if d.refuses p then err refused else ok (drop_files d (λ q. text_eq q p))
]

-- `os.Rename` of a directory, onto a place where nothing is and which is not below it
unfoldable pub rename_directory : Disk → Text → Text → Result OsError Disk
rename_directory d from to =
    if d.refuses from
      || d.refuses to
      || is_some (file_at d to)
      || is_directory d to
      || has_prefix to (from ++ slash ∷ [])
    then err refused
    else ok (move_directory d from to)

-- `os.Rename`
unfoldable pub rename : Disk → Text → Text → Result OsError Disk
rename d from to = elim (file_at d from) [
  | none ↦ if is_directory d from then rename_directory d from to else err not_exist
  | some bytes ↦
      if d.refuses from || d.refuses to || is_directory d to
      then err refused
      else ok (put_file (drop_files d (λ q. text_eq q from)) to bytes)
]

-- `os.RemoveAll`
unfoldable pub remove_all : Disk → Text → Result OsError Disk
remove_all d p = if d.refuses p then err refused else ok (drop_files d (is_under p))

-- the disk behind an `os.RemoveAll` that failed
unfoldable pub torn_directory : Disk → Text → Disk
torn_directory d p = drop_files d (λ q. is_under p q && not (d.spared q))

lookup-without :
    (gone : Text → Bool) (p : Text) (files : List (Text × Bytes))
    → lookup p (without gone files) ≡ (if gone p then none else lookup p files)
unfolding lookup without
lookup-without gone p [] = ground arith
lookup-without gone p ((q, bytes) ∷ rest) =
    ground (arith, text_eq_iff q p, lookup-without gone p rest)

pub file_at-drop_files :
    (d : Disk) (gone : Text → Bool) (p : Text)
    → file_at (drop_files d gone) p ≡ (if gone p then none else file_at d p)
unfolding file_at drop_files
file_at-drop_files d gone p = lookup-without gone p d.files

pub file_at-put_file :
    (d : Disk) (p q : Text) (bytes : Bytes)
    → file_at (put_file d p bytes) q ≡ (if text_eq p q then some bytes else file_at d q)
unfolding file_at put_file
file_at-put_file d p q bytes =
    ground (arith, text_eq_comm p q, lookup-without (λ r. text_eq r p) q d.files)

pub refuses-put_file :
    (d : Disk) (p : Text) (bytes : Bytes) (q : Text) → (put_file d p bytes).refuses q ≡ d.refuses q
unfolding put_file
refuses-put_file d p bytes q = refl

pub refuses-drop_files :
    (d : Disk) (gone : Text → Bool) (q : Text) → (drop_files d gone).refuses q ≡ d.refuses q
unfolding drop_files
refuses-drop_files d gone q = refl

no_prefix : (p : Text) → has_prefix p (p ++ slash ∷ []) ≡ false
unfolding has_prefix
no_prefix [] = refl
no_prefix (c ∷ p) = ground (arith, no_prefix p)

any_below-without :
    (dir : Text) (gone : Text → Bool) (files : List (Text × Bytes))
    → any_below dir files ≡ false
    → any_below dir (without gone files) ≡ false
unfolding any_below without
any_below-without dir gone [] h = refl
any_below-without dir gone ((q, bytes) ∷ rest) h = ground (arith, any_below-without dir gone rest)

pub is_directory-drop_files :
    (d : Disk) (gone : Text → Bool) (p : Text)
    → is_directory d p ≡ false
    → is_directory (drop_files d gone) p ≡ false
unfolding is_directory drop_files
is_directory-drop_files d gone p h = any_below-without p gone d.files h

-- a file is not below its own path
pub is_directory-put_file :
    (d : Disk) (p : Text) (bytes : Bytes)
    → is_directory d p ≡ false
    → is_directory (put_file d p bytes) p ≡ false
unfolding is_directory put_file any_below
is_directory-put_file d p bytes h =
    rw (no_prefix p) (any_below-without p (λ q. text_eq q p) d.files h)
