-- ===== src/Generation/Launch/Started.antt =====
-- generation/service.go, Run: what a successful request leaves behind.
use honeygen.Prelude.{
  ◌≤◌, ◌≡◌, refl, ◌∙◌, true, false, some, List, [], ◌∷◌, ◌++◌, ◌==◌, arith, Result, ok, err,
  ok-injective,
}
use honeygen.Text.{Text, text_eq, trim_space}
use honeygen.Text.Equality.{text_eq_refl}
use honeygen.Database.{StoredWorldModel, running, Summary, Job, Db, live}
use honeygen.Database.Table.{find, matching, has_key, matching-append, find-append, matching-zero}
use honeygen.WorldModels.{WorldModel}
use honeygen.WorldModels.Rows
use honeygen.WorldModels.Rows.{world_model_key}
use honeygen.WorldModels.Catalog.{decode_world_model}
use honeygen.Jobs
use honeygen.Jobs.{
  JobError, job_key, job_at, can_insert, set_running, set_clause, new_job, update_if_status_in, get,
  or_not_found,
}
use honeygen.Jobs.Rows.{down-update, job_at-update, matching-update_jobs, answer-update}
use honeygen.Generation.Worker.{ManifestEntry}
use honeygen.Generation.Steps.{IsBusy}
use honeygen.Generation.Planner.{plan}
use honeygen.Generation.Launch.{
  Service, RunCalls, Launched, first_summary, launched, created, planned, decoded, looked_up, run,
}

abbrev pub all_live : RunCalls
all_live = record { at_world_model = live; at_create = live; at_set_running = live }

-- the new row stands alone
module _ (id world_model_id : Text) (db : Db) (up : db.down ≡ false)
    (free : matching (has_key job_key id) db.jobs ≡ 0)
    (owner : (matching (λ (m : StoredWorldModel). text_eq m.id world_model_id) db.world_models == 0)
      ≡ false) where
  abbrev with_job : Db
  with_job = record db { jobs = db.jobs ++ new_job id world_model_id db.now ∷ [] }

  found_new : job_at with_job id ≡ some (new_job id world_model_id db.now)
  unfolding find
  found_new =
      find-append (has_key job_key id) db.jobs (new_job id world_model_id db.now ∷ [])
      ∙ (rw ((matching-zero (has_key job_key id) db.jobs).1 free, text_eq_refl id) refl)

  one_new : matching (has_key job_key id) with_job.jobs ≤ 1
  unfolding matching
  one_new =
      rw
        (matching-append (has_key job_key id) db.jobs (new_job id world_model_id db.now ∷ []), free)
        (ground arith)

  create_new :
      Jobs.create live id world_model_id db ≡ (ok (new_job id world_model_id db.now), with_job)
  unfolding Jobs.create Jobs.get or_not_found can_insert
  create_new = rw (up, free, owner, found_new) refl

  abbrev started_job : Summary → Job
  started_job summary =
      set_clause running summary [] true false db.now (new_job id world_model_id db.now)

  answer_new :
      (summary : Summary) → (set_running live id summary with_job).0 ≡ ok (started_job summary)
  unfolding set_running
  answer_new summary =
      answer-update live id running summary [] true false [] with_job
        (new_job id world_model_id db.now) (rw up refl) one_new found_new

  running_new :
      (summary : Summary)
      → job_at (set_running live id summary with_job).1 id ≡ some (started_job summary)
  unfolding set_running
  running_new summary =
      job_at-update live id running summary [] true false [] with_job id (rw up refl)
      ∙ (rw (found_new, text_eq_refl id) refl)

  new-IsBusy : (summary : Summary) → IsBusy id (set_running live id summary with_job).1
  unfolding set_running set_clause
  new-IsBusy summary = record {
    up = down-update live id running summary [] true false [] with_job ∙ up;
    one = rw (matching-update_jobs live id running summary [] true false [] with_job id) one_new;
    job = started_job summary;
    found = running_new summary;
    runs = refl;
  }

launched_ok :
    (k : Service) (manifest : List ManifestEntry) (summary : Summary) (r : Result JobError Job × Db)
    (job : Job)
    → r.0 ≡ ok job
    → launched k all_live manifest summary r
      ≡ (ok (record { job = job; manifest = manifest; summary = summary }), r.1)
unfolding launched
launched_ok k manifest summary (ok j, db) job h = rw (ok-injective h) refl
launched_ok k manifest summary (err e, db) job h = cc

-- what a request needs
pub record CanRun (k : Service) (world_model_id : Text) (db : Db) (manifest : List ManifestEntry)
    : Type 0 where
  pub up : db.down ≡ false
  pub free : matching (has_key job_key k.job_id) db.jobs ≡ 0
  pub named : text_eq (trim_space world_model_id) [] ≡ false
  pub provider : k.has_provider ≡ true
  pub row : StoredWorldModel
  pub stored : Rows.get live world_model_id db ≡ ok row
  pub model : WorldModel
  pub decodes : decode_world_model k.codec row.json_blob ≡ some model
  pub planned : plan k.packages world_model_id model ≡ ok manifest

-- what it leaves: the job runs, and the worker is started with the manifest
pub record IsLaunched (k : Service) (manifest : List ManifestEntry) (before : Db) (l : Launched)
    (db : Db) : Type 0 where
  pub busy : IsBusy k.job_id db
  pub job : job_at db k.job_id ≡ some l.job
  pub named : l.job.id ≡ k.job_id
  pub same_manifest : l.manifest ≡ manifest
  pub summary : l.summary ≡ first_summary k all_live manifest before.now

stored-owner :
    (id : Text) (db : Db) (m : StoredWorldModel)
    → Rows.get live id db ≡ ok m
    → (matching (λ (m : StoredWorldModel). text_eq m.id id) db.world_models == 0) ≡ false
unfolding Rows.get Rows.or_not_found
stored-owner id db m h =
    ground (arith, matching-zero (λ (m : StoredWorldModel). text_eq m.id id) db.world_models)

-- A request with an id, a provider, a stored world model that decodes and is planned, and an id that no job has starts the
-- job, on a database that answers.
pub run_lem :
    (k : Service) (world_model_id : Text) (db : Db) (manifest : List ManifestEntry)
    → CanRun k world_model_id db manifest
    → (l : Launched) × (db' : Db) × (run k all_live world_model_id db ≡ (ok l, db'))
      × IsLaunched k manifest db l db'
unfolding run looked_up decoded planned created set_clause
run_lem k id db manifest c =
    let owner = stored-owner id db c.row c.stored in
    let summary = first_summary k all_live manifest db.now in
    let job = started_job k.job_id id db c.up c.free owner summary in
    (
      record { job = job; manifest = manifest; summary = summary },
      (set_running live k.job_id summary (with_job k.job_id id db c.up c.free owner)).1,
      rw
          (
            c.named,
            c.provider,
            c.stored,
            c.decodes,
            c.planned,
            create_new k.job_id id db c.up c.free owner,
          )
          (launched_ok k manifest summary _ job
            (answer_new k.job_id id db c.up c.free owner summary)),
      record {
        busy = new-IsBusy k.job_id id db c.up c.free owner summary;
        job = running_new k.job_id id db c.up c.free owner summary;
        named = refl;
        same_manifest = refl;
        summary = refl;
      },
    )
