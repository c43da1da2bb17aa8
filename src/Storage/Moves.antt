-- ===== src/Storage/Moves.antt =====
-- The files that a move and a deletion leave, by their full paths.
use honeygen.Prelude.{
  ◌≡◌, inl, inr, Bool, true, false, Option, none, some, arith, if◌then◌else◌, Option-cases, ok,
}
use honeygen.Text.{Text, text_eq}
use honeygen.Text.Equality.{text_eq_iff, text_eq_comm}
use honeygen.Storage.{Filesystem, resolve, move, move_at, wrap, ignore_missing, delete}
use honeygen.Storage.Os.{
  Disk, Bytes, file_at, is_directory, rename_directory, move_directory, rename, mkdir_all, remove,
  drop_files, file_at-put_file, file_at-drop_files, is_directory-drop_files, is_directory-put_file,
}
use honeygen.Storage.Os.Directories.{is_below, in_place_of, file_at-move_directory}

-- the file at a path after a move
abbrev pub moved : Option Bytes → Bool → Bool → Option Bytes → Option Bytes
moved none is_to is_from before = before
moved (some bytes) is_to is_from before =
    if is_to then some bytes else if is_from then none else before

pub file_at-move_file :
    (f : Option Filesystem) (d d' : Disk) (from to source source_at target target_at p : Text)
    (bytes : Bytes)
    → resolve f from ≡ ok (source, source_at)
    → resolve f to ≡ ok (target, target_at)
    → text_eq source target ≡ false
    → file_at d source_at ≡ some bytes
    → move f d from to ≡ ok d'
    → file_at d' p ≡ moved (some bytes) (text_eq target_at p) (text_eq source_at p) (file_at d p)
unfolding move move_at wrap ignore_missing rename mkdir_all
file_at-move_file f d d' from to source source_at target target_at p bytes r r' ne found h =
    ground (
      arith,
      file_at-drop_files d (λ q. text_eq q source_at) p,
      text_eq_comm p source_at,
      file_at-put_file (drop_files d (λ q. text_eq q source_at)) target_at p bytes,
    )

pub file_at-move :
    (f : Option Filesystem) (d d' : Disk) (from to source source_at target target_at p : Text)
    → resolve f from ≡ ok (source, source_at)
    → resolve f to ≡ ok (target, target_at)
    → text_eq source target ≡ false
    → is_directory d source_at ≡ false
    → move f d from to ≡ ok d'
    → file_at d' p
      ≡ moved (file_at d source_at) (text_eq target_at p) (text_eq source_at p) (file_at d p)
unfolding move move_at wrap ignore_missing rename mkdir_all
file_at-move f d d' from to source source_at target target_at p r r' ne plain h =
    elim (Option-cases (file_at d source_at)) [
      | inl gone ↦ ground arith
      | inr (bytes, found) ↦ rw found (
          file_at-move_file f d d' from to source source_at target target_at p bytes r r' ne found
            h)
    ]

-- a place where no files lie below has none below it after a move of a file there
pub is_directory-move :
    (f : Option Filesystem) (d d' : Disk) (from to source source_at target target_at : Text)
    → resolve f from ≡ ok (source, source_at)
    → resolve f to ≡ ok (target, target_at)
    → text_eq source target ≡ false
    → is_directory d source_at ≡ false
    → is_directory d target_at ≡ false
    → move f d from to ≡ ok d'
    → is_directory d' target_at ≡ false
unfolding move move_at wrap ignore_missing rename mkdir_all
is_directory-move f d d' from to source source_at target target_at r r' ne plain free h =
    elim (Option-cases (file_at d source_at)) [
      | inl gone ↦ ground arith
      | inr (bytes, found) ↦
          let dropped = is_directory-drop_files d (λ q. text_eq q source_at) target_at free in
          ground (
            arith,
            is_directory-put_file (drop_files d (λ q. text_eq q source_at)) target_at bytes dropped,
          )
    ]

-- the move of a directory moves what lies below it
pub file_at-move_below :
    (f : Option Filesystem) (d d' : Disk) (from to source source_at target target_at p : Text)
    → resolve f from ≡ ok (source, source_at)
    → resolve f to ≡ ok (target, target_at)
    → text_eq source target ≡ false
    → file_at d source_at ≡ none
    → is_directory d source_at ≡ true
    → move f d from to ≡ ok d'
    → file_at d' p ≡ (
        if is_below target_at p
        then file_at d (in_place_of source_at target_at p)
        else if is_below source_at p
        then none
        else file_at d p)
unfolding move move_at wrap ignore_missing rename rename_directory mkdir_all
file_at-move_below f d d' from to source source_at target target_at p r r' ne gone here h =
    let free : is_directory d target_at ≡ false = ground arith in
    let moved_to : d' ≡ move_directory d source_at target_at = ground arith in
    rw moved_to (file_at-move_directory d source_at target_at p free)

pub move_nothing :
    (f : Option Filesystem) (d d' : Disk) (from to source source_at target target_at : Text)
    → resolve f from ≡ ok (source, source_at)
    → resolve f to ≡ ok (target, target_at)
    → file_at d source_at ≡ none
    → is_directory d source_at ≡ false
    → move f d from to ≡ ok d'
    → d' ≡ d
unfolding move move_at wrap ignore_missing rename mkdir_all
move_nothing f d d' from to source source_at target target_at r r' gone plain h = ground arith

pub file_at-delete :
    (f : Option Filesystem) (d d' : Disk) (raw n at p : Text)
    → resolve f raw ≡ ok (n, at)
    → delete f d raw ≡ ok d'
    → file_at d' p ≡ (if text_eq at p then none else file_at d p)
unfolding delete ignore_missing remove
file_at-delete f d d' raw n at p r h =
    ground (arith, file_at-drop_files d (λ q. text_eq q at) p, text_eq_comm p at, text_eq_iff at p)
