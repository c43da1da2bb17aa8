-- ===== src/Witnesses/Files.antt =====
-- The file store at concrete paths.
use honeygen.Prelude.{◌≡◌, refl, ◌≢◌, some, List, [], ◌∷◌, ◌++◌, All, ok, false}
use honeygen.Text.{Text, text_eq, codes, split, trim_space, replace, has_prefix, join}
use honeygen.Path.{slash, clean, path_segments, render, is_abs, path_join}
use honeygen.Path.Clean.{IsName}
use honeygen.Path.Below.{root_prefix}
use honeygen.Storage.{
  StoredFile, normalize_relative_path, resolve, write, read, delete, move, delete_dir,
  join_relative,
}
use honeygen.Storage.Os.{
  Disk, mkdir_all, write_file, put_file, drop_files, read_file, remove, rename, remove_all, Bytes,
  file_at, is_under, is_directory,
}
use honeygen.Storage.Sandbox.{
  IsSafe, resolve_below, normalize_relative_path-IsSafe, normalize_relative_path-fixed,
}
use honeygen.Storage.Contents.{read-write}
use honeygen.Storage.Joining.{Normalized, segments_of, join_relative-segments, join_relative_ok}
use honeygen.Witnesses.{store, disk_of, job_path, job_file}

normalized : normalize_relative_path (codes " x/../generated\\w/j/a") ≡ ok job_path
unfolding normalize_relative_path trim_space replace clean path_segments render is_abs has_prefix
    text_eq split join
normalized = refl

resolved : resolve (some store) job_path ≡ ok (job_path, job_file)
unfolding resolve normalize_relative_path trim_space replace clean path_segments render is_abs
    has_prefix text_eq split join path_join
resolved = refl

resolve_below_example :
    (store.root ≢ [])
    × (job_file ≡ root_prefix store.root ++ job_path)
    × All IsName (split slash job_path)
resolve_below_example = resolve_below store job_path job_path job_file resolved

job_path-IsSafe : IsSafe job_path
job_path-IsSafe =
    normalize_relative_path-IsSafe (codes " x/../generated\\w/j/a") job_path normalized

normalize_relative_path-fixed_example : normalize_relative_path job_path ≡ ok job_path
unfolding trim_space
normalize_relative_path-fixed_example = normalize_relative_path-fixed job_path job_path-IsSafe refl

abbrev checksum : Bytes → Text
checksum bytes = []

abbrev two_bytes : Bytes
two_bytes = 7 ∷ 8 ∷ []

abbrev stored : StoredFile
stored = record { path = job_path; size_bytes = 2; checksum = [] }

abbrev old_disk : Disk
old_disk = disk_of ((codes "/d/b", 5 ∷ []) ∷ [])

abbrev full_disk : Disk
full_disk = disk_of ((job_file, two_bytes) ∷ (codes "/d/b", 5 ∷ []) ∷ [])

written : write checksum (some store) old_disk job_path two_bytes ≡ ok (stored, full_disk)
unfolding write normalize_relative_path resolve trim_space replace clean path_segments render is_abs
    has_prefix text_eq split join path_join mkdir_all write_file put_file drop_files read_file
    remove rename remove_all honeygen.Storage.Os.is_directory
written = refl

read-write_example : read (some store) full_disk job_path ≡ ok two_bytes
unfolding text_eq
read-write_example =
    read-write checksum (some store) old_disk full_disk job_path two_bytes stored job_path job_path
      job_file written resolved

deleted : delete (some store) full_disk job_path ≡ ok old_disk
unfolding delete normalize_relative_path resolve trim_space replace clean path_segments render
    is_abs has_prefix text_eq split join path_join mkdir_all write_file put_file drop_files
    read_file remove rename remove_all file_at
deleted = refl

resolved_b : resolve (some store) (codes "b") ≡ ok (codes "b", codes "/d/b")
unfolding resolve normalize_relative_path trim_space replace clean path_segments render is_abs
    has_prefix text_eq split join path_join
resolved_b = refl

abbrev moved_disk : Disk
moved_disk = disk_of ((codes "/d/b", two_bytes) ∷ [])

move_ok : move (some store) full_disk job_path (codes "b") ≡ ok moved_disk
unfolding move normalize_relative_path resolve trim_space replace clean path_segments render is_abs
    has_prefix text_eq split join path_join mkdir_all write_file put_file drop_files read_file
    remove rename remove_all file_at honeygen.Storage.Os.is_directory
move_ok = refl

apart : text_eq job_path (codes "b") ≡ false
unfolding text_eq
apart = refl

resolved_dir :
    resolve (some store) (codes "generated/w/j")
    ≡ ok (codes "generated/w/j", codes "/d/generated/w/j")
unfolding resolve normalize_relative_path trim_space replace clean path_segments render is_abs
    has_prefix text_eq split join path_join
resolved_dir = refl

directory_deleted : delete_dir (some store) full_disk (codes "generated/w/j") ≡ ok old_disk
unfolding delete_dir normalize_relative_path resolve trim_space replace clean path_segments render
    is_abs has_prefix text_eq split join path_join mkdir_all write_file put_file drop_files
    read_file remove rename remove_all is_under
directory_deleted = refl

joined : join_relative (codes "generated" ∷ codes " w/j" ∷ codes "a" ∷ []) ≡ ok job_path
unfolding join_relative normalize_relative_path trim_space replace clean path_segments render is_abs
    has_prefix text_eq split join path_join
joined = refl

join_relative-segments_example :
    (ns : List Text) × Normalized (codes "generated" ∷ codes " w/j" ∷ codes "a" ∷ []) ns
    × (split slash job_path ≡ segments_of ns)
    × All IsName (split slash job_path)
join_relative-segments_example =
    join_relative-segments (codes "generated" ∷ codes " w/j" ∷ codes "a" ∷ []) job_path joined

both-Normalized : Normalized (codes "g" ∷ codes " w/j" ∷ []) (codes "g" ∷ codes "w/j" ∷ [])
unfolding normalize_relative_path trim_space replace clean path_segments render is_abs has_prefix
    text_eq split join
both-Normalized = (refl, (refl, tt))

join_relative_ok_example :
    join_relative (codes "g" ∷ codes " w/j" ∷ [])
    ≡ ok (join slash (segments_of (codes "g" ∷ codes "w/j" ∷ [])))
join_relative_ok_example =
    join_relative_ok (codes "g") (codes " w/j" ∷ []) (codes "g") (codes "w/j" ∷ []) both-Normalized
