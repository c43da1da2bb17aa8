-- ===== src/Generation.antt =====
-- generation/service.go: the deletion of a job and of an asset. They change the database and the disk.
pub mod Worker
pub mod Templates
pub mod Planner
pub mod Launch
pub mod Deletion
pub mod Rollback
pub mod Steps
pub mod Finishing
pub mod Closing
pub mod Conflict
pub mod Answers
pub mod Requests
use honeygen.Prelude.{List, some, none, ◌++◌, ℕ, Option, [], ◌∷◌, if◌then◌else◌, Result, ok, err}
use honeygen.Text.{Text, codes}
use honeygen.Database.{Summary, completed, Job, Asset, Db, Context, live}
use honeygen.Jobs
use honeygen.Jobs.{
  JobError, job_not_deletable, job_not_found, job_not_cancelable, can_cancel, set_canceled,
  can_delete, delete_job, status_eq,
}
use honeygen.Assets
use honeygen.Assets.{AssetError, asset_not_found, delete_asset, delete_by_job_id}
use honeygen.Storage
use honeygen.Storage.{StorageError, Filesystem, join_relative, path_dir, move, delete_dir, torn_dir}
use honeygen.Storage.Os.{Disk}

-- `appendSummaryLog`
abbrev pub append_log : ℕ → Text → Text → Text → Text → Summary → Summary
append_log now level message path category s = record s {
  logs =
      s.logs
      ++ record { time = now; level = level; message = message; path = path; category = category }
        ∷ [];
}

-- the database and the disk below it
pub record World : Type 0 where
  pub db : Db
  pub disk : Disk

-- the error that a caller receives; the rollback's own errors only change its message
pub data ServiceError : Type 0 where
  job_error : JobError → ServiceError
  asset_error : AssetError → ServiceError
  storage_error : StorageError → ServiceError
  asset_not_deletable : ServiceError

abbrev pub Reply : Type 0
Reply = Result ServiceError (Unit {0}) × World

-- the directory of a job, below the root of the store
unfoldable pub job_dir : Job → Text → Result StorageError Text
job_dir j id = join_relative (codes "generated" ∷ j.world_model_id ∷ id ∷ [])

-- behind the last statement of `Delete`
unfoldable pub job_deleted : Disk → Result JobError (Unit {0}) × Db → Reply
job_deleted disk (ok _, db) = (ok tt, record { db = db; disk = disk })
job_deleted disk (err e, db) = (err (job_error e), record { db = db; disk = disk })

-- behind the deletion of the asset records
unfoldable pub assets_deleted : Context → Text → Disk → Result AssetError (Unit {0}) × Db → Reply
unfolding job_deleted
assets_deleted ctx id disk (ok _, db) = job_deleted disk (delete_job ctx id db)
assets_deleted ctx id disk (err e, db) = (err (asset_error e), record { db = db; disk = disk })

-- behind the deletion of the files; `torn` is the disk that a failed deletion leaves
unfoldable pub files_deleted : Context → Text → World → Disk → Result StorageError Disk → Reply
unfolding assets_deleted
files_deleted ctx id w torn (err e) = (err (storage_error e), record w { disk = torn })
files_deleted ctx id w torn (ok disk) = assets_deleted ctx id disk (delete_by_job_id ctx id w.db)

-- the files of the job
unfoldable pub delete_files_of :
    Option Filesystem → Context → Text → World → Result StorageError Text → Reply
unfolding files_deleted
delete_files_of f ctx id w (err e) = (err (storage_error e), w)
delete_files_of f ctx id w (ok dir) =
    files_deleted ctx id w (torn_dir f w.disk dir) (delete_dir f w.disk dir)

unfoldable pub delete_found :
    Option Filesystem → Context → Text → World → Result JobError Job → Reply
unfolding delete_files_of
delete_found f ctx id w (err e) = (err (job_error e), w)
delete_found f ctx id w (ok j) =
    if can_delete j.status
    then delete_files_of f ctx id w (job_dir j id)
    else (err (job_error job_not_deletable), w)

-- `Service.Delete`
unfoldable pub delete : Option Filesystem → Context → Text → World → Reply
unfolding delete_found
delete f ctx id w = delete_found f ctx id w (Jobs.get ctx id w.db)

-- the disk after a move whose error is dropped
abbrev pub disk_or : Disk → Result StorageError Disk → Disk
disk_or d (ok d') = d'
disk_or d (err e) = d

-- where an asset's file waits for the deletion of its record
unfoldable pub staged_path : Asset → Result StorageError Text
staged_path a = join_relative (path_dir a.path ∷ codes ".deletions" ∷ a.id ∷ [])

-- behind the move back of the file
unfoldable pub file_restored : Asset → StorageError → Disk → Db → Result StorageError Disk → Reply
file_restored a e disk db (ok disk') = (err (storage_error e), record { db = db; disk = disk' })
file_restored a e disk db (err x) =
    (err (storage_error e), record { db = (delete_asset live a.id db).1; disk = disk })

-- behind the re-creation of the record
unfoldable pub record_restored :
    Option Filesystem → Asset → Text → StorageError → Disk → Result AssetError Asset × Db → Reply
unfolding file_restored
record_restored f a staged e disk (err x, db) =
    (err (storage_error e), record { db = db; disk = disk })
record_restored f a staged e disk (ok _, db) = file_restored a e disk db (move f disk staged a.path)

-- the staged file could not be deleted: unless another asset has taken the path, the record comes
-- back, and with it the file
unfoldable pub restore_record :
    Option Filesystem → Asset → Text → StorageError → World → Result AssetError Asset → Reply
unfolding record_restored
restore_record f a staged e w (err asset_not_found) =
    record_restored f a staged e w.disk (Assets.create live a w.db)
restore_record f a staged e w _ = (err (storage_error e), w)

-- The contexts that the calls of one request see; the request may be given up between two of them.
pub record Calls : Type 0 where
  pub at_get : Context
  pub at_get_job : Context
  pub at_delete : Context

-- behind the deletion of the staged file
unfoldable pub file_deleted :
    Option Filesystem → Asset → Text → World → Result StorageError Disk → Reply
unfolding restore_record
file_deleted f a staged w (ok disk) = (ok tt, record w { disk = disk })
file_deleted f a staged w (err e) =
    restore_record f a staged e w (Assets.find_by_path live a.path w.db)

-- behind the deletion of the record; a move back whose error is dropped leaves the disk alone
unfoldable pub row_deleted :
    Option Filesystem → Asset → Text → Disk → Result AssetError (Unit {0}) × Db → Reply
unfolding file_deleted
row_deleted f a staged disk (ok _, db) =
    file_deleted f a staged (record { db = db; disk = disk }) (Storage.delete f disk staged)
row_deleted f a staged disk (err e, db) =
    (err (asset_error e), record { db = db; disk = disk_or disk (move f disk staged a.path) })

-- behind the move of the file to the place where it waits
unfoldable pub file_staged :
    Option Filesystem → Calls → Asset → World → Text → Result StorageError Disk → Reply
unfolding row_deleted
file_staged f calls a w staged (err e) = (err (storage_error e), w)
file_staged f calls a w staged (ok disk) =
    row_deleted f a staged disk (delete_asset calls.at_delete a.id w.db)

unfoldable pub stage_file :
    Option Filesystem → Calls → Asset → World → Result StorageError Text → Reply
unfolding file_staged
stage_file f calls a w (err e) = (err (storage_error e), w)
stage_file f calls a w (ok staged) = file_staged f calls a w staged (move f w.disk a.path staged)

-- only an asset of a completed job is deleted
unfoldable pub delete_of_job :
    Option Filesystem → Calls → Asset → World → Result JobError Job → Reply
unfolding stage_file staged_path
delete_of_job f calls a w (err e) = (err (job_error e), w)
delete_of_job f calls a w (ok j) =
    if status_eq j.status completed
    then stage_file f calls a w (staged_path a)
    else (err asset_not_deletable, w)

unfoldable pub delete_asset_found :
    Option Filesystem → Calls → World → Result AssetError Asset → Reply
unfolding delete_of_job
delete_asset_found f calls w (err e) = (err (asset_error e), w)
delete_asset_found f calls w (ok a) =
    delete_of_job f calls a w (Jobs.get calls.at_get_job a.generation_job_id w.db)

-- `Service.DeleteAsset`
unfoldable pub remove_asset : Option Filesystem → Calls → Text → World → Reply
unfolding delete_asset_found
remove_asset f calls id w = delete_asset_found f calls w (Assets.get calls.at_get id w.db)

-- `cancelJob`: the request reads, and the write has a context of its own; the log gains an entry
unfoldable pub cancel_found : Text → Text → Db → Result JobError Job → Result JobError Job × Db
cancel_found id message db (err e) = (err e, db)
cancel_found id message db (ok j) =
    if can_cancel j.status
    then set_canceled live id (append_log db.now (codes "warn") message [] [] j.summary) message db
    else (err job_not_cancelable, db)

unfoldable pub cancel_job : Context → Text → Text → Db → Result JobError Job × Db
unfolding cancel_found
cancel_job ctx id message db = cancel_found id message db (Jobs.get ctx id db)

-- a job that is missing or has ended is passed over, another error ends the loop
unfoldable pub closed :
    (Db → Option JobError × Db) → Result JobError Job × Db → Option JobError × Db
closed rest (ok _, db) = rest db
closed rest (err job_not_found, db) = rest db
closed rest (err job_not_cancelable, db) = rest db
closed rest (err e, db) = (some e, db)

-- the loop of `Close`, over the ids of the jobs that run
unfoldable pub close_jobs : List Text → Db → Option JobError × Db
unfolding closed cancel_job
close_jobs [] db = (none, db)
close_jobs (id ∷ ids) db =
    closed (close_jobs ids) (cancel_job live id (codes "generation canceled during shutdown") db)
