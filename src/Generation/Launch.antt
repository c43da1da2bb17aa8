-- ===== src/Generation/Launch.antt =====
-- generation/service.go, Run: a job is created and set running, and a worker is started on it.
pub mod Started
pub mod Whole
use honeygen.Prelude.{
  ℕ, Bool, false, not, ◌||◌, Option, none, some, List, [], ◌∷◌, ◌++◌, if◌then◌else◌, Result, ok,
  err, length,
}
use honeygen.Text.{Text, codes, text_eq, trim_space}
use honeygen.Json.{Codec, text_lt}
use honeygen.Database.{StoredWorldModel, Summary, Job, Db, Context}
use honeygen.Database.Table.{order_by}
use honeygen.WorldModels.{WorldModel}
use honeygen.WorldModels.Payload.{WorldModelError}
use honeygen.WorldModels.Rows
use honeygen.WorldModels.Catalog.{decode_world_model}
use honeygen.Jobs
use honeygen.Jobs.{JobError, set_running, no_summary}
use honeygen.Generation.{append_log}
use honeygen.Generation.Worker.{ManifestEntry}
use honeygen.Generation.Planner.{Packages, PlanError, plan}

pub data RunError : Type 0 where
  run_id_required provider_missing model_undecodable : RunError
  world_model_error : WorldModelError → RunError
  plan_error : PlanError → RunError
  run_job_error : JobError → RunError

-- What the service has: whether a provider is configured, the packages, the ids and the printing of a
-- number by `%d`.
pub record Service : Type 1 where
  pub has_provider : Bool
  pub packages : Packages
  pub codec : Codec
  pub decimal : ℕ → Text
  pub job_id : Text

-- the contexts that the calls of one request see
pub record RunCalls : Type 0 where
  pub at_world_model : Context
  pub at_create : Context
  pub at_set_running : Context

-- what the goroutine is started with
pub record Launched : Type 0 where
  pub job : Job
  pub manifest : List ManifestEntry
  pub summary : Summary

abbrev pub Launch : Type 0
Launch = Result RunError Launched × Db

has_text : Text → List Text → Bool
has_text t [] = false
has_text t (u ∷ us) = text_eq u t || has_text t us

-- the keys of the map of categories
distinct : List ManifestEntry → List Text
distinct [] = []
distinct (e ∷ es) =
    let rest = distinct es in if has_text e.category rest then rest else e.category ∷ rest

-- `uniqueCategories`
unfoldable pub unique_categories : List ManifestEntry → List Text
unfolding distinct has_text
unique_categories es = order_by text_lt (distinct es)

module _ (k : Service) (calls : RunCalls) where
  -- the summary that the job starts with
  abbrev pub first_summary : List ManifestEntry → ℕ → Summary
  first_summary manifest now =
      let created =
        append_log now (codes "info") (codes "generation job created") [] [] no_summary in
      append_log now (codes "info")
        (codes "planned " ++ k.decimal (length manifest) ++ codes " assets") [] []
        (record created {
          manifest_count = length manifest;
          categories = unique_categories manifest;
        })

  -- behind `SetRunning`
  unfoldable pub launched : List ManifestEntry → Summary → Result JobError Job × Db → Launch
  launched manifest summary (err e, db) = (err (run_job_error e), db)
  launched manifest summary (ok job, db) =
      (ok (record { job = job; manifest = manifest; summary = summary }), db)

  -- behind the creation of the job
  unfoldable pub created : List ManifestEntry → Result JobError Job × Db → Launch
  unfolding launched
  created manifest (err e, db) = (err (run_job_error e), db)
  created manifest (ok job, db) =
      let summary = first_summary manifest db.now in
      launched manifest summary (set_running calls.at_set_running job.id summary db)

  -- behind the planner
  unfoldable pub planned : Text → Db → Result PlanError (List ManifestEntry) → Launch
  unfolding created
  planned world_model_id db (err e) = (err (plan_error e), db)
  planned world_model_id db (ok manifest) =
      created manifest (Jobs.create calls.at_create k.job_id world_model_id db)

  -- behind the decoding of the document
  unfoldable pub decoded : Text → Db → Option WorldModel → Launch
  unfolding planned
  decoded world_model_id db none = (err model_undecodable, db)
  decoded world_model_id db (some model) =
      planned world_model_id db (plan k.packages world_model_id model)

  -- behind the look-up of the world model
  unfoldable pub looked_up : Text → Db → Result WorldModelError StoredWorldModel → Launch
  unfolding decoded
  looked_up world_model_id db (err e) = (err (world_model_error e), db)
  looked_up world_model_id db (ok m) =
      decoded world_model_id db (decode_world_model k.codec m.json_blob)

  -- `Service.Run`
  unfoldable pub run : Text → Db → Launch
  unfolding looked_up
  run world_model_id db =
      if text_eq (trim_space world_model_id) []
      then (err run_id_required, db)
      else if not k.has_provider
      then (err provider_missing, db)
      else looked_up world_model_id db (Rows.get calls.at_world_model world_model_id db)
