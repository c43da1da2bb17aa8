-- ===== src/Witnesses/Service.antt =====
-- The generation service at a job with one entry, and at a job and an asset that are deleted.
use honeygen.Prelude.{
  All, ℕ, ◌≡◌, refl, ◌<◌, none, some, [], ◌∷◌, ok, err, true, false, ◌||◌, arith, if◌then◌else◌,
}
use honeygen.Text.{Text, text_eq, codes, trim_space, replace, has_prefix, split, join}
use honeygen.Path.{path_join, clean, path_segments, render, is_abs}
use honeygen.Database.{running, stopped, completed, Context, live, done}
use honeygen.Database.Table
use honeygen.Database.Table.{find, matching, has_key}
use honeygen.Jobs
use honeygen.Jobs.{JobError, db_failed, job_key, job_at, can_delete, status_eq}
use honeygen.Assets
use honeygen.Assets.{asset_db_failed, asset_key, job_of}
use honeygen.Storage
use honeygen.Storage.{
  Filesystem, resolve, normalize_relative_path, join_relative, move, delete_dir, path_dir,
}
use honeygen.Storage.Os.{
  Disk, Bytes, file_at, is_under, is_directory, mkdir_all, write_file, put_file, drop_files,
  read_file, remove, rename, remove_all,
}
use honeygen.Generation
use honeygen.Generation.{
  close_jobs, World, Calls, job_error, asset_error, job_dir, staged_path, remove_asset,
}
use honeygen.Generation.Worker.{ManifestEntry, Moment, Worker, run_job}
use honeygen.Generation.Steps.{IsBusy}
use honeygen.Generation.Finishing.{Finished, run_job-Finished}
use honeygen.Generation.Closing.{IsInactive, IsReady, close_jobs_lem}
use honeygen.Generation.Deletion.{IsGone, delete_lem, delete_deployed}
use honeygen.Generation.Rollback.{remove_asset_ok, remove_asset_rolled_back}
use honeygen.Witnesses.{
  store, disk_of, job_path, job_file, job_in, no_summary, asset, event, deployment, tables,
}

abbrev pub entry : ManifestEntry
entry = record {
  path = codes "a";
  category = codes "c";
  title = codes "t";
  rendered_type = codes "text";
  source_type = codes "provider";
  prompt_hint = [];
  tags = [];
}

-- a worker whose provider echoes the title
abbrev pub worker : (ℕ → Moment → Context) → Worker
worker ctx_at = record {
  files = some store;
  checksum = λ bytes. [];
  generate = λ e. ok e.title;
  render = λ e content.
      ok (record { mime_type = codes "text/plain"; bytes = content; previewable = true });
  ctx_at = ctx_at;
  asset_id = λ n. codes "a";
  storage_message = λ e. codes "storage";
  asset_message = λ e. codes "asset";
  job_id = codes "j";
  world_model_id = codes "w";
}

abbrev start_world : World
start_world = record { db = tables (job_in running none ∷ []) [] [] []; disk = disk_of [] }

busy : IsBusy (codes "j") start_world.db
unfolding matching find text_eq
busy = record { up = refl; one = omega arith; job = job_in running none; found = refl; runs = refl }

run_job-Finished_example :
    Finished
      (codes "j")
      1
      0
      start_world.db
      (run_job (worker (λ n m. live)) (entry ∷ []) no_summary start_world).db
run_job-Finished_example =
    run_job-Finished (worker (λ n m. live)) (entry ∷ []) no_summary start_world (λ n e. e) busy

abbrev bytes : Bytes
bytes = 7 ∷ 8 ∷ []

abbrev over : World
over = record {
  db = tables (job_in completed (some 3) ∷ []) (asset ∷ []) (event ∷ []) [];
  disk = disk_of ((job_file, bytes) ∷ (codes "/d/b", 5 ∷ []) ∷ []);
}

job_read : Jobs.get live (codes "j") over.db ≡ ok (job_in completed (some 3))
unfolding Jobs.get find text_eq
job_read = refl

directory : job_dir (job_in completed (some 3)) (codes "j") ≡ ok (codes "generated/w/j")
unfolding resolve join_relative normalize_relative_path trim_space replace clean path_segments
    render is_abs has_prefix text_eq split join path_join file_at mkdir_all write_file put_file
    drop_files read_file remove rename remove_all job_dir
directory = refl

resolved_dir :
    resolve (some store) (codes "generated/w/j")
    ≡ ok (codes "generated/w/j", codes "/d/generated/w/j")
unfolding resolve join_relative normalize_relative_path trim_space replace clean path_segments
    render is_abs has_prefix text_eq split join path_join file_at mkdir_all write_file put_file
    drop_files read_file remove rename remove_all
resolved_dir = refl

abbrev cleared : World
cleared = record {
  db = tables [] [] (record event { asset_id = none } ∷ []) [];
  disk = disk_of ((codes "/d/b", 5 ∷ []) ∷ []);
}

deleted : Generation.delete (some store) live (codes "j") over ≡ (ok tt, cleared)
unfolding resolve join_relative normalize_relative_path trim_space replace clean path_segments
    render is_abs has_prefix text_eq split join path_join file_at mkdir_all write_file put_file
    drop_files read_file remove rename remove_all Generation.delete Jobs.get find can_delete job_dir
    delete_dir Assets.delete_by_job_id Jobs.delete_job matching Table.delete Table.update is_under
deleted = refl

delete_lem_example :
    IsGone (codes "j") over.db cleared.db
    × ((p : Text)
        → file_at cleared.disk p
          ≡ (if is_under (codes "/d/generated/w/j") p then none else file_at over.disk p))
delete_lem_example =
    delete_lem (some store) live (codes "j") over cleared (job_in completed (some 3))
      (codes "generated/w/j") (codes "generated/w/j") (codes "/d/generated/w/j") job_read directory
      resolved_dir deleted

abbrev deployed : World
deployed = record {
  db = tables (job_in completed (some 3) ∷ []) (asset ∷ []) [] (deployment stopped ∷ []);
  disk = over.disk;
}

job_read_deployed : Jobs.get live (codes "j") deployed.db ≡ ok (job_in completed (some 3))
unfolding Jobs.get find text_eq
job_read_deployed = refl

is_over : can_delete completed ≡ true
unfolding can_delete
is_over = refl

directory_deleted : delete_dir (some store) over.disk (codes "generated/w/j") ≡ ok cleared.disk
unfolding resolve join_relative normalize_relative_path trim_space replace clean path_segments
    render is_abs has_prefix text_eq split join path_join file_at mkdir_all write_file put_file
    drop_files read_file remove rename remove_all delete_dir is_under
directory_deleted = refl

one_deployment : 0 < matching (λ d. text_eq d.generation_job_id (codes "j")) deployed.db.deployments
unfolding matching text_eq
one_deployment = omega arith

delete_deployed_example :
    let (answer, w') = Generation.delete (some store) live (codes "j") deployed in
    (answer ≡ err (job_error db_failed))
    × (job_at w'.db (codes "j") ≡ some (job_in completed (some 3)))
    × (matching (has_key job_of (codes "j")) w'.db.assets ≡ 0)
    × (w'.disk ≡ cleared.disk)
delete_deployed_example =
    delete_deployed (some store) live (codes "j") deployed (job_in completed (some 3))
      (codes "generated/w/j") cleared.disk refl job_read_deployed is_over directory
      directory_deleted one_deployment

abbrev calls : Context → Calls
calls at_delete = record { at_get = live; at_get_job = live; at_delete = at_delete }

abbrev staged : Text
staged = codes "generated/w/j/.deletions/a"

abbrev staged_disk : Disk
staged_disk = disk_of ((codes "/d/generated/w/j/.deletions/a", bytes) ∷ (codes "/d/b", 5 ∷ []) ∷ [])

asset_read : Assets.get live (codes "a") over.db ≡ ok asset
unfolding Assets.get find text_eq
asset_read = refl

staging : staged_path asset ≡ ok staged
unfolding resolve join_relative normalize_relative_path trim_space replace clean path_segments
    render is_abs has_prefix text_eq split join path_join file_at mkdir_all write_file put_file
    drop_files read_file remove rename remove_all staged_path path_dir
staging = refl

from : resolve (some store) job_path ≡ ok (job_path, job_file)
unfolding resolve join_relative normalize_relative_path trim_space replace clean path_segments
    render is_abs has_prefix text_eq split join path_join file_at mkdir_all write_file put_file
    drop_files read_file remove rename remove_all
from = refl

to : resolve (some store) staged ≡ ok (staged, codes "/d/generated/w/j/.deletions/a")
unfolding resolve join_relative normalize_relative_path trim_space replace clean path_segments
    render is_abs has_prefix text_eq split join path_join file_at mkdir_all write_file put_file
    drop_files read_file remove rename remove_all
to = refl

apart : text_eq job_path staged ≡ false
unfolding text_eq
apart = refl

is_completed : status_eq completed completed ≡ true
unfolding status_eq
is_completed = refl

staged_ok : move (some store) over.disk job_path staged ≡ ok staged_disk
unfolding resolve join_relative normalize_relative_path trim_space replace clean path_segments
    render is_abs has_prefix text_eq split join path_join file_at mkdir_all write_file put_file
    drop_files read_file remove rename remove_all move is_directory
staged_ok = refl

abbrev without_asset : World
without_asset = record {
  db = tables (job_in completed (some 3) ∷ []) [] (record event { asset_id = none } ∷ []) [];
  disk = disk_of ((codes "/d/b", 5 ∷ []) ∷ []);
}

removed : remove_asset (some store) (calls live) (codes "a") over ≡ (ok tt, without_asset)
unfolding resolve join_relative normalize_relative_path trim_space replace clean path_segments
    render is_abs has_prefix text_eq split join path_join file_at mkdir_all write_file put_file
    drop_files read_file remove rename remove_all remove_asset move Storage.delete Assets.get find
    Jobs.get status_eq Assets.delete_asset matching Table.delete Table.update staged_path
    is_directory
removed = refl

plain : is_directory over.disk job_file ≡ false
unfolding is_directory has_prefix
plain = refl

remove_asset_ok_example :
    (find (has_key asset_key (codes "a")) without_asset.db.assets ≡ none)
    × ((p : Text)
        → file_at without_asset.disk p ≡ (
            if text_eq job_file p || text_eq (codes "/d/generated/w/j/.deletions/a") p
            then none
            else file_at over.disk p))
remove_asset_ok_example =
    remove_asset_ok (some store) (calls live) (codes "a") over asset (job_in completed (some 3))
      staged job_path job_file staged (codes "/d/generated/w/j/.deletions/a") staged_disk asset_read
      job_read is_completed staging from to apart plain staged_ok without_asset removed

place_open : is_directory over.disk (codes "/d/generated/w/j/.deletions/a") ≡ false
unfolding is_directory has_prefix
place_open = refl

abbrev back : Disk
back = over.disk

moved_back : move (some store) staged_disk staged job_path ≡ ok back
unfolding resolve join_relative normalize_relative_path trim_space replace clean path_segments
    render is_abs has_prefix text_eq split join path_join file_at mkdir_all write_file put_file
    drop_files read_file remove rename remove_all move is_directory
moved_back = refl

place_free : file_at over.disk (codes "/d/generated/w/j/.deletions/a") ≡ none
unfolding file_at text_eq
place_free = refl

remove_asset_rolled_back_example :
    let (answer, w') = remove_asset (some store) (calls done) (codes "a") over in
    (answer ≡ err (asset_error asset_db_failed))
    × (w'.db ≡ over.db)
    × ((p : Text) → file_at w'.disk p ≡ file_at over.disk p)
remove_asset_rolled_back_example =
    remove_asset_rolled_back (some store) (calls done) (codes "a") over asset
      (job_in completed (some 3)) staged job_path job_file staged
      (codes "/d/generated/w/j/.deletions/a") staged_disk asset_read job_read is_completed staging
      from to apart plain staged_ok back refl place_free place_open moved_back

start_db-IsReady : IsReady start_world.db
unfolding matching
start_db-IsReady = record { up = refl; one = λ k. ground arith }

close_jobs_lem_example :
    ((close_jobs (codes "j" ∷ codes "k" ∷ []) start_world.db).0 ≡ none)
    × All
        (λ id. IsInactive id (close_jobs (codes "j" ∷ codes "k" ∷ []) start_world.db).1)
        (codes "j" ∷ codes "k" ∷ [])
close_jobs_lem_example = close_jobs_lem (codes "j" ∷ codes "k" ∷ []) start_world.db start_db-IsReady
