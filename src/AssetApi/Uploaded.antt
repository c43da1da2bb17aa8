-- ===== src/AssetApi/Uploaded.antt =====
-- api/assets.go, assetsUploadHandler: an upload leaves a record with its file, or nothing.
use honeygen.Prelude.{
  ◌≡◌, refl, ◌∙◌, ◌⊎◌, arith, inl, inr, true, false, ◌||◌, Option, none, some, [], Bool-cases, All,
  Result, ok, err,
}
use honeygen.Text.{Text, codes, text_eq, trim_space}
use honeygen.Text.Equality.{text_eq_refl}
use honeygen.Database.{completed, Job, Asset, Db, fails}
use honeygen.Database.Table.{find, matching, has_key}
use honeygen.Jobs
use honeygen.Jobs.{
  JobError, job_not_found, job_not_cancelable, job_not_deletable, db_failed, status_eq,
}
use honeygen.Assets.{
  AssetError, asset_not_found, path_conflict, asset_db_failed, out_of_fuel, asset_key, asset_path,
  find_by_path,
}
use honeygen.Assets.References.{HasAsset}
use honeygen.Assets.Undoing.{
  with_row, InsertCase, refused_row, unread, inserted_row, insert_cases, delete_asset-with_row,
  delete_asset_failed,
}
use honeygen.Storage
use honeygen.Storage.{StorageError, StoredFile, read, torn_write}
use honeygen.Storage.Os.{Disk, Bytes}
use honeygen.Storage.Contents.{read-write, write-Written, Torn, torn_write_lem}
use honeygen.Generation.{World}
use honeygen.AssetApi.{ApiError, not_found, assets_unavailable}
use honeygen.AssetApi.Upload.{
  validation_error, upload_failed, path_taken, Form, FormFile, FormError, body_too_large,
  not_multipart, Uploader, UploadCalls, UploadReply, upload_path, uploaded_asset, content_stored,
  recorded, file_read, path_checked, path_joined, job_found, with_file, upload_handler,
}

module _ (k : Uploader) (calls : UploadCalls) where
  -- A file of the form is stored as an asset of a completed job, below the directory of the job: its
  -- record is the one new row, and its path reads what was uploaded.
  pub record IsUploaded (form : Form) (w : World) (a : Asset) (w' : World) : Type 0 where
    pub job : Job
    pub file : FormFile
    pub bytes : Bytes
    pub given : form.file ≡ some file
    pub content : file.content ≡ some bytes
    pub found : Jobs.get calls.at_job (trim_space form.generation_job_id) w.db ≡ ok job
    pub finished : status_eq job.status completed ≡ true
    pub joined : upload_path job (trim_space form.target_path) ≡ ok a.path
    pub row : a ≡ uploaded_asset k job file a.path bytes w.db.now
    pub up : w.db.down ≡ false
    pub new : matching (has_key asset_key a.id) w.db.assets ≡ 0
    pub recorded_ : w'.db ≡ with_row a w.db
    pub reads : read k.files w'.disk a.path ≡ ok bytes

  -- the record of the file stayed behind: it could not be read back, or its rollback failed
  pub record IsStray (w w' : World) (e : ApiError) : Type 0 where
    pub left : Asset
    pub id : left.id ≡ k.asset_id
    pub answer : e ≡ upload_failed
    pub cause : (fails calls.at_read_back w.db || fails calls.at_rollback w.db) ≡ true
    pub tables : w'.db ≡ with_row left w.db

  -- the write of the file failed: at most the file at its path is another, which no asset has
  pub record IsTorn (form : Form) (w w' : World) : Type 0 where
    pub job : Job
    pub path : Text
    pub joined : upload_path job (trim_space form.target_path) ≡ ok path
    pub unowned : find (has_key asset_path path) w.db.assets ≡ none
    pub torn : Torn k.files w.disk path w'.disk

  -- what an error leaves behind
  pub record IsBackedOut (form : Form) (w w' : World) (e : ApiError) : Type 0 where
    pub tables : (w'.db ≡ w.db) ⊎ IsStray w w' e
    pub files : (w'.disk ≡ w.disk) ⊎ IsTorn form w w'

  abbrev unchanged : (form : Form) (w : World) (e : ApiError) → IsBackedOut form w w e
  unchanged form w e = record { tables = inl refl; files = inl refl }

  -- a request without a form changes nothing
  abbrev pub Kept : Result FormError Form → World → UploadReply → Type 0
  Kept (err x) w (err e, w') = w' ≡ w
  Kept (ok form) w (err e, w') = IsBackedOut form w w' e
  Kept (ok form) w (ok a, w') = IsUploaded form w a w'
  Kept (err e) w (ok a, w') = ⊥

  module _ (form : Form) (w : World) (job : Job) (file : FormFile)
      (there : All (λ e. HasAsset w.db.assets e.asset_id) w.db.events)
      (given : form.file ≡ some file)
      (found : Jobs.get calls.at_job (trim_space form.generation_job_id) w.db ≡ ok job)
      (finished : status_eq job.status completed ≡ true) where
    module _ (path : Text) (bytes : Bytes) (content : file.content ≡ some bytes)
        (joined : upload_path job (trim_space form.target_path) ≡ ok path) where
      abbrev row_of : Asset
      row_of = uploaded_asset k job file path bytes w.db.now

      content_stored-Kept :
          (r : Result StorageError (StoredFile × Disk))
          → w.db.down ≡ false
          → matching (has_key asset_key k.asset_id) w.db.assets ≡ 0
          → find (has_key asset_path path) w.db.assets ≡ none
          → Storage.write k.checksum k.files w.disk path bytes ≡ r
          → Kept (ok form) w (
              content_stored k calls row_of
                (record w { db = with_row row_of w.db })
                (torn_write k.files w.disk path bytes)
                r)
      unfolding content_stored
      content_stored-Kept (err e) up free unowned wrote = record {
        tables = elim (Bool-cases (fails calls.at_rollback w.db)) [
          | inl lost ↦ inr (record {
            left = row_of;
            id = refl;
            answer = refl;
            cause = ground (arith, lost);
            tables = delete_asset_failed calls.at_rollback k.asset_id (with_row row_of w.db) lost;
          })
          | inr answers ↦
              inl (delete_asset-with_row calls.at_rollback row_of w.db answers free there)
        ];
        files = elim (torn_write_lem k.files w.disk path bytes) [
          | inl same ↦ inl same
          | inr torn ↦
              inr
                (record { job = job; path = path; joined = joined; unowned = unowned; torn = torn })
        ];
      }
      content_stored-Kept (ok (stored, disk)) up free unowned wrote =
          let (full, at, _, _, _) =
            write-Written k.checksum k.files w.disk disk path bytes stored wrote in
          record {
            job = job;
            file = file;
            bytes = bytes;
            given = given;
            content = content;
            found = found;
            finished = finished;
            joined = joined;
            row = refl;
            up = up;
            new = free;
            recorded_ = refl;
            reads =
                read-write k.checksum k.files w.disk disk path bytes stored path stored.path full
                  wrote at
                ∙ (rw (text_eq_refl stored.path) refl);
          }

      recorded-Kept :
          (o : Result AssetError Asset × Db)
          → InsertCase calls.at_create calls.at_read_back row_of w.db o
          → Kept (ok form) w (recorded k calls path bytes (record w { db = o.1 }) o.0)
      unfolding recorded
      recorded-Kept o (refused_row asset_not_found) = unchanged form w upload_failed
      recorded-Kept o (refused_row path_conflict) = unchanged form w path_taken
      recorded-Kept o (refused_row asset_db_failed) = unchanged form w upload_failed
      recorded-Kept o (refused_row out_of_fuel) = unchanged form w upload_failed
      recorded-Kept o (unread lost unowned) = record {
        tables = inr (record {
          left = row_of;
          id = refl;
          answer = refl;
          cause = ground (arith, lost);
          tables = refl;
        });
        files = inl refl;
      }
      recorded-Kept o (inserted_row up free unowned) = content_stored-Kept _ up free unowned refl

    path_joined-Kept :
        Kept
          (ok form)
          w
          (path_joined k calls job file w (upload_path job (trim_space form.target_path)))
    unfolding path_joined path_checked file_read
    path_joined-Kept = at_path _ refl
      where
        at_file :
            (path : Text) (o : Option Bytes)
            → file.content ≡ o
            → upload_path job (trim_space form.target_path) ≡ ok path
            → Kept (ok form) w (file_read k calls job file path w o)
        at_file path none content joined = unchanged form w upload_failed
        at_file path (some bytes) content joined = recorded-Kept path bytes content joined _ (
            insert_cases calls.at_create calls.at_read_back (row_of path bytes content joined) w.db)

        at_row :
            (path : Text) (r : Result AssetError Asset)
            → upload_path job (trim_space form.target_path) ≡ ok path
            → Kept (ok form) w (path_checked k calls job file path w r)
        at_row path (ok other) joined = unchanged form w path_taken
        at_row path (err asset_not_found) joined = at_file path file.content refl joined
        at_row path (err path_conflict) joined = unchanged form w assets_unavailable
        at_row path (err asset_db_failed) joined = unchanged form w assets_unavailable
        at_row path (err out_of_fuel) joined = unchanged form w assets_unavailable

        at_path :
            (r : Result StorageError Text)
            → upload_path job (trim_space form.target_path) ≡ r
            → Kept (ok form) w (path_joined k calls job file w r)
        at_path (err e) joined = unchanged form w validation_error
        at_path (ok path) joined = at_row path (find_by_path calls.at_find path w.db) joined

  pub upload_handler_lem :
      (f : Result FormError Form) (w : World)
      → All (λ e. HasAsset w.db.assets e.asset_id) w.db.events
      → Kept f w (upload_handler k calls f w)
  unfolding upload_handler with_file job_found
  upload_handler_lem (err body_too_large) w there = refl
  upload_handler_lem (err not_multipart) w there = refl
  upload_handler_lem (ok form) w there =
      elim (Bool-cases (
        text_eq (trim_space form.generation_job_id) []
        || text_eq (trim_space form.target_path) [])) [
          | inl blank ↦ rw blank (unchanged form w validation_error)
          | inr both ↦ rw both (at_form form.file refl)
        ]
    where
      at_job :
          (file : FormFile) (r : Result JobError Job)
          → form.file ≡ some file
          → Jobs.get calls.at_job (trim_space form.generation_job_id) w.db ≡ r
          → Kept (ok form) w (job_found k calls (trim_space form.target_path) file w r)
      at_job file (err job_not_found) given found = unchanged form w not_found
      at_job file (err job_not_cancelable) given found = unchanged form w assets_unavailable
      at_job file (err job_not_deletable) given found = unchanged form w assets_unavailable
      at_job file (err db_failed) given found = unchanged form w assets_unavailable
      at_job file (ok job) given found = elim (Bool-cases (status_eq job.status completed)) [
        | inl finished ↦ rw finished (path_joined-Kept form w job file there given found finished)
        | inr other ↦ rw other (unchanged form w (409, codes "job_not_completed"))
      ]

      at_form :
          (o : Option FormFile)
          → form.file ≡ o
          → Kept (ok form) w (
              with_file k calls
                (trim_space form.generation_job_id)
                (trim_space form.target_path)
                w
                o)
      at_form none given = unchanged form w validation_error
      at_form (some file) given = at_job file _ given refl
