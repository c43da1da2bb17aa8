-- ===== src/AssetApi/Upload.antt =====
-- api/assets.go, assetsUploadHandler: a file that is added to the assets of a completed job. The form is
-- what ParseMultipartForm makes of the request; the tables of MIME types are arguments.
use honeygen.Prelude.{
  ℕ, not, ◌&&◌, ◌||◌, ◌==◌, Option, none, some, [], ◌∷◌, if◌then◌else◌, Result, ok, err, length,
}
use honeygen.Text.{Text, codes, text_eq, trim_space}
use honeygen.Database.{completed, Job, Asset, Context}
use honeygen.Jobs
use honeygen.Jobs.{JobError, job_not_found, status_eq}
use honeygen.Assets
use honeygen.Assets.{AssetError, asset_not_found, path_conflict, find_by_path, delete_asset}
use honeygen.Storage
use honeygen.Storage.{StorageError, StoredFile, Filesystem, join_relative, torn_write}
use honeygen.Storage.Os.{Disk, Bytes}
use honeygen.Generation.{World}
use honeygen.AssetApi.{ApiError, not_found, assets_unavailable, is_previewable}

-- `multipart.FileHeader` with what `io.ReadAll` answers
pub record FormFile : Type 0 where
  pub filename : Text
  pub content_type : Text
  pub content : Option Bytes

pub data FormError : Type 0 where
  body_too_large not_multipart : FormError

-- `r.FormValue` of the two keys, and `r.FormFile`
pub record Form : Type 0 where
  pub generation_job_id : Text
  pub target_path : Text
  pub file : Option FormFile

-- the packages, the id that is drawn and the file store
pub record Uploader : Type 0 where
  pub to_lower : Text → Text
  pub type_by_extension : Text → Text
  pub detect_content_type : Bytes → Text
  pub checksum : Bytes → Text
  pub asset_id : Text
  pub files : Option Filesystem

-- the context at each call; the INSERT of the record and its `Get` are two, and where the rollback of
-- the record fails its context counts as done
pub record UploadCalls : Type 0 where
  pub at_job : Context
  pub at_find : Context
  pub at_create : Context
  pub at_read_back : Context
  pub at_rollback : Context

abbrev pub UploadReply : Type 0
UploadReply = Result ApiError Asset × World

-- `writeValidationFailure`
abbrev pub validation_error : ApiError
validation_error = (400, codes "validation_error")

abbrev pub upload_failed : ApiError
upload_failed = (500, codes "upload_failed")

abbrev pub path_taken : ApiError
path_taken = (409, codes "path_conflict")

-- the part of a text from its last dot on
from_last_dot : Text → Option Text
from_last_dot [] = none
from_last_dot (c ∷ s) = elim (from_last_dot s) [
  | none ↦ if c == b'.' then some (c ∷ s) else none
  | some rest ↦ some rest
]

-- `uploadExtension`
unfoldable pub upload_extension : (Text → Text) → Text → Text
unfolding from_last_dot
upload_extension to_lower filename = elim (from_last_dot filename) [
  | none ↦ []
  | some rest ↦ to_lower rest
]

-- the switch of `uploadRenderedType`
type_of_extension : Text → Text
type_of_extension ext =
    if text_eq ext (codes ".html") || text_eq ext (codes ".htm")
    then codes "html"
    else if text_eq ext (codes ".md") || text_eq ext (codes ".markdown")
    then codes "markdown"
    else if text_eq ext (codes ".txt")
    then codes "text"
    else if text_eq ext (codes ".csv")
    then codes "csv"
    else if text_eq ext (codes ".pdf")
    then codes "pdf"
    else codes "binary"

-- the path of the file in the store
abbrev pub upload_path : Job → Text → Result StorageError Text
upload_path job target_path =
    join_relative (codes "generated" ∷ job.world_model_id ∷ job.id ∷ target_path ∷ [])

module _ (k : Uploader) where
  -- `uploadRenderedType`
  unfoldable pub upload_rendered_type : Text → Text
  unfolding type_of_extension
  upload_rendered_type filename = type_of_extension (upload_extension k.to_lower filename)

  octet_stream : Text
  octet_stream = codes "application/octet-stream"

  -- `uploadMIMEType`
  unfoldable pub upload_mime_type : FormFile → Bytes → Text
  unfolding octet_stream
  upload_mime_type file data_ =
      let by_extension = k.type_by_extension (upload_extension k.to_lower file.filename) in
      if not (text_eq file.content_type []) && not (text_eq file.content_type octet_stream)
      then file.content_type
      else if not (text_eq by_extension [])
      then by_extension
      else if length data_ == 0
      then octet_stream
      else k.detect_content_type data_

  -- the record of the upload; `created_at` is set by the repository
  abbrev pub uploaded_asset : Job → FormFile → Text → Bytes → ℕ → Asset
  uploaded_asset job file path data_ now =
      let mime_type = upload_mime_type file data_ in
      let rendered_type = upload_rendered_type file.filename in
      record {
        id = k.asset_id;
        generation_job_id = job.id;
        world_model_id = job.world_model_id;
        source_type = codes "upload";
        rendered_type = rendered_type;
        path = path;
        mime_type = mime_type;
        size_bytes = length data_;
        tags = codes "source:upload" ∷ [];
        previewable = is_previewable k.to_lower rendered_type mime_type;
        checksum = k.checksum data_;
        created_at = now;
      }

  module _ (calls : UploadCalls) where
    -- `storeUploadedAssetContent` with `rollbackUploadedAssetRecord`, behind `Storage.Write`, where `torn`
    -- is the disk that a failed write leaves; an error of the rollback is dropped
    unfoldable pub content_stored :
        Asset → World → Disk → Result StorageError (StoredFile × Disk) → UploadReply
    content_stored a w torn (ok (stored, disk)) = (ok a, record w { disk = disk })
    content_stored a w torn (err e) = (
      err upload_failed,
      record w { db = (delete_asset calls.at_rollback a.id w.db).1; disk = torn },
    )

    -- behind the creation of the record
    unfoldable pub recorded : Text → Bytes → World → Result AssetError Asset → UploadReply
    unfolding content_stored
    recorded path data_ w (ok a) =
        content_stored a w (torn_write k.files w.disk path data_)
          (Storage.write k.checksum k.files w.disk path data_)
    recorded path data_ w (err path_conflict) = (err path_taken, w)
    recorded path data_ w (err _) = (err upload_failed, w)

    -- behind the reading of the file
    unfoldable pub file_read : Job → FormFile → Text → World → Option Bytes → UploadReply
    unfolding recorded
    file_read job file path w none = (err upload_failed, w)
    file_read job file path w (some data_) =
        let (created, db) =
          Assets.insert_read calls.at_create calls.at_read_back
            (uploaded_asset job file path data_ w.db.now) w.db in
        recorded path data_ (record w { db = db }) created

    -- behind the look-up of the path
    unfoldable pub path_checked :
        Job → FormFile → Text → World → Result AssetError Asset → UploadReply
    unfolding file_read
    path_checked job file path w (ok other) = (err path_taken, w)
    path_checked job file path w (err asset_not_found) = file_read job file path w file.content
    path_checked job file path w (err _) = (err assets_unavailable, w)

    -- behind `JoinRelative`
    unfoldable pub path_joined : Job → FormFile → World → Result StorageError Text → UploadReply
    unfolding path_checked
    path_joined job file w (err e) = (err validation_error, w)
    path_joined job file w (ok path) =
        path_checked job file path w (find_by_path calls.at_find path w.db)

    -- behind the look-up of the job
    unfoldable pub job_found : Text → FormFile → World → Result JobError Job → UploadReply
    unfolding path_joined
    job_found target_path file w (err job_not_found) = (err not_found, w)
    job_found target_path file w (err _) = (err assets_unavailable, w)
    job_found target_path file w (ok job) =
        if status_eq job.status completed
        then path_joined job file w (upload_path job target_path)
        else (err (409, codes "job_not_completed"), w)

    -- behind the file of the form
    unfoldable pub with_file : Text → Text → World → Option FormFile → UploadReply
    unfolding job_found
    with_file job_id target_path w none = (err validation_error, w)
    with_file job_id target_path w (some file) =
        job_found target_path file w (Jobs.get calls.at_job job_id w.db)

    -- `assetsUploadHandler`
    unfoldable pub upload_handler : Result FormError Form → World → UploadReply
    unfolding with_file
    upload_handler (err body_too_large) w = (err (413, codes "upload_too_large"), w)
    upload_handler (err not_multipart) w = (err validation_error, w)
    upload_handler (ok form) w =
        let job_id = trim_space form.generation_job_id in
        let target_path = trim_space form.target_path in
        if text_eq job_id [] || text_eq target_path []
        then (err validation_error, w)
        else with_file job_id target_path w form.file
