-- ===== src/Generation/Deletion.antt =====
-- generation/service.go, Delete: what the deletion of a job leaves.
use honeygen.Prelude.{
  ◌<◌, ◌≡◌, refl, sym, ap, ◌∙◌, inl, inr, true, false, Option, none, some, List, [], ◌∷◌, arith,
  ◌==◌, if◌then◌else◌, Bool-cases, Result, ok, err,
}
use honeygen.Text.{Text, text_eq}
use honeygen.Text.Equality.{text_eq_refl}
use honeygen.Database.{Job, Asset, Db, Context, fails}
use honeygen.Database.Table
use honeygen.Database.Table.{
  find, matching, has_key, find-delete, matching-delete, matching-false, matching-zero,
}
use honeygen.Jobs
use honeygen.Jobs.{
  JobError, db_failed, job_not_deletable, job_key, job_at, can_delete, delete_job, referenced,
}
use honeygen.Jobs.Lifecycle.{get-job_at}
use honeygen.Assets.{job_of, delete_by_job_id, clear_references, is_asset_of}
use honeygen.Storage.{StorageError, Filesystem, resolve, delete_dir, torn_dir}
use honeygen.Storage.Os.{Disk, file_at, is_under}
use honeygen.Storage.Contents.{file_at-delete_dir}
use honeygen.Generation.{
  World, job_error, job_dir, job_deleted, assets_deleted, files_deleted, delete_files_of,
  delete_found, delete,
}

-- what the deletion leaves in the database: no record of the job, none of its assets, and the records
-- of the other jobs
pub record IsGone (id : Text) (db db' : Db) : Type 0 where
  pub no_job : job_at db' id ≡ none
  pub no_asset : matching (has_key job_of id) db'.assets ≡ 0
  pub other_jobs : (k : Text) → text_eq id k ≡ false → job_at db' k ≡ job_at db k

no_assets_left :
    (id : Text) (assets : List Asset)
    → matching (has_key job_of id) (Table.delete (has_key job_of id) assets) ≡ 0
unfolding matching Table.delete
no_assets_left id [] = refl
no_assets_left id (a ∷ assets) = ground (arith, no_assets_left id assets)

delete_job_ok :
    (ctx : Context) (id : Text) (disk : Disk) (db : Db) (w' : World)
    → job_deleted disk (delete_job ctx id db) ≡ (ok tt, w')
    → w'
      ≡ record { db = record db { jobs = Table.delete (has_key job_key id) db.jobs }; disk = disk }
unfolding job_deleted delete_job
delete_job_ok ctx id disk db w' h = elim (Bool-cases (fails ctx db)) [
  | inl down ↦ cc (rw down at h)
  | inr up ↦ elim (Bool-cases (matching (has_key job_key id) db.jobs == 0)) [
    | inl missing ↦ cc (rw (up, missing) at h)
    | inr there ↦ elim (Bool-cases (referenced id db)) [
      | inl used ↦ cc (rw (up, there, used) at h)
      | inr free ↦ ap (λ r. r.1) (sym (rw (up, there, free) at h))
    ]
  ]
]

gone :
    (id : Text) (db db1 : Db)
    → db1.assets ≡ Table.delete (has_key job_of id) db.assets
    → db1.jobs ≡ db.jobs
    → IsGone id db (record db1 { jobs = Table.delete (has_key job_key id) db1.jobs })
gone id db db1 a j = record {
  no_job = find-delete job_key id id db1.jobs ∙ (ground (arith, text_eq_refl id));
  no_asset = rw a (no_assets_left id db.assets);
  other_jobs = λ k other. find-delete job_key id k db1.jobs ∙ (rw (other, j) refl);
}

assets_deleted_ok :
    (ctx : Context) (id : Text) (disk : Disk) (db : Db) (w' : World)
    → assets_deleted ctx id disk (delete_by_job_id ctx id db) ≡ (ok tt, w')
    → (w'.disk ≡ disk) × IsGone id db w'.db
unfolding assets_deleted delete_by_job_id
assets_deleted_ok ctx id disk db w' h = elim (Bool-cases (fails ctx db)) [
  | inl down ↦ cc (rw down at h)
  | inr up ↦
      let e = delete_job_ok ctx id disk _ w' (rw up at h) in
      (ap (λ w. w.disk) e, rw e (gone id db _ refl refl))
]

-- When Delete succeeds for a job whose directory resolves below the root, it leaves nothing of the
-- job: its record is gone, no asset names it, every file of its directory is gone, and the other
-- files and the records of the other jobs are as before.
pub delete_lem :
    (f : Option Filesystem) (ctx : Context) (id : Text) (w w' : World) (j : Job) (dir n at : Text)
    → Jobs.get ctx id w.db ≡ ok j
    → job_dir j id ≡ ok dir
    → resolve f dir ≡ ok (n, at)
    → delete f ctx id w ≡ (ok tt, w')
    → IsGone id w.db w'.db
      × ((p : Text) → file_at w'.disk p ≡ (if is_under at p then none else file_at w.disk p))
unfolding delete delete_found delete_files_of files_deleted
delete_lem f ctx id w w' j dir n at read d r h = elim (Bool-cases (can_delete j.status)) [
  | inr active ↦ cc (rw (read, active) at h)
  | inl over ↦ files (delete_dir f w.disk dir) refl (rw (read, over, d) at h)
]
  where
    files :
        (x : Result StorageError Disk)
        → delete_dir f w.disk dir ≡ x
        → files_deleted ctx id w (torn_dir f w.disk dir) (delete_dir f w.disk dir) ≡ (ok tt, w')
        → IsGone id w.db w'.db
          × ((p : Text) → file_at w'.disk p ≡ (if is_under at p then none else file_at w.disk p))
    files (err e) eq k = cc (rw eq at k)
    files (ok disk) eq k =
        let (same, clean_db) = assets_deleted_ok ctx id disk w.db w' (rw eq at k) in
        (clean_db, λ p. rw same (file_at-delete_dir f w.disk disk dir n at p r eq))

delete_job_refused :
    (ctx : Context) (id : Text) (disk : Disk) (db : Db) (j : Job)
    → fails ctx db ≡ false
    → job_at db id ≡ some j
    → 0 < matching (λ d. text_eq d.generation_job_id id) db.deployments
    → job_deleted disk (delete_job ctx id db)
      ≡ (err (job_error db_failed), record { db = db; disk = disk })
unfolding job_deleted delete_job referenced
delete_job_refused ctx id disk db j up found deployed =
    let there : (matching (has_key job_key id) db.jobs == 0) ≡ false =
      (ground (arith, matching-zero (has_key job_key id) db.jobs)) in
    let used : (matching (λ d. text_eq d.generation_job_id id) db.deployments == 0) ≡ false =
      (ground arith) in
    rw (up, there, used) (ground arith)

-- A job that has ended and that a deployment names, on a database that answers and a disk that
-- deletes its directory: deleting the job fails, yet its files and the records of its assets are
-- deleted, and its own record stays.
pub delete_deployed :
    (f : Option Filesystem) (ctx : Context) (id : Text) (w : World) (j : Job) (dir : Text)
    (disk : Disk)
    → fails ctx w.db ≡ false
    → Jobs.get ctx id w.db ≡ ok j
    → can_delete j.status ≡ true
    → job_dir j id ≡ ok dir
    → delete_dir f w.disk dir ≡ ok disk
    → 0 < matching (λ d. text_eq d.generation_job_id id) w.db.deployments
    → let (answer, w') = delete f ctx id w in
      (answer ≡ err (job_error db_failed))
      × (job_at w'.db id ≡ some j)
      × (matching (has_key job_of id) w'.db.assets ≡ 0)
      × (w'.disk ≡ disk)
unfolding delete delete_found delete_files_of files_deleted assets_deleted delete_by_job_id
delete_deployed f ctx id w j dir disk up read over d e deployed =
    rw (read, over, d, e, up, refused)
      (refl, get-job_at ctx id w.db j read, no_assets_left id w.db.assets, refl)
  where
    db1 : Db
    db1 = record w.db {
      events = clear_references (is_asset_of id w.db.assets) w.db.events;
      assets = Table.delete (has_key job_of id) w.db.assets;
    }

    refused :
        job_deleted disk (delete_job ctx id db1)
        ≡ (err (job_error db_failed), record { db = db1; disk = disk })
    refused = delete_job_refused ctx id disk db1 j up (get-job_at ctx id w.db j read) deployed
