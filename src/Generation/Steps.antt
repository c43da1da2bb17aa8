-- ===== src/Generation/Steps.antt =====
-- The statements of the worker on a job that runs: what they leave of its record and its assets.
use honeygen.Prelude.{
  ℕ, ◌+◌, ◌≤◌, ◌≡◌, refl, ap, ◌∙◌, Bool, true, false, none, some, List, [], ◌∷◌, arith, ok,
}
use honeygen.Text.{Text, text_eq}
use honeygen.Text.Equality.{text_eq_refl}
use honeygen.Database.{Status, running, Summary, Job, Asset, Db, Context, live, fails}
use honeygen.Database.Table.{matching, has_key, matching-append}
use honeygen.Jobs.{
  job_key, job_at, can_cancel, active, get, set_clause, update_if_status_in, update_summary,
  write_read, write_summary,
}
use honeygen.Jobs.Rows.{
  after_update, down-update, matching-update_jobs, job_at-update, answer-update,
}
use honeygen.Jobs.Ending.{end_job_lem}
use honeygen.Assets
use honeygen.Assets.{AssetError, job_of}

-- the job runs, and the database answers
pub record IsBusy (id : Text) (db : Db) : Type 0 where
  pub up : fails live db ≡ false
  pub one : matching (has_key job_key id) db.jobs ≤ 1
  pub job : Job
  pub found : job_at db id ≡ some job
  pub runs : job.status ≡ running

abbrev pub assets_of : Text → Db → ℕ
assets_of id db = matching (has_key job_of id) db.assets

pub assets-update :
    (ctx : Context) (id : Text) (status : Status) (summary : Summary) (message : Text)
    (ensure_started complete : Bool) (current : List Status) (db : Db)
    → (after_update ctx id status summary message ensure_started complete current db).assets
      ≡ db.assets
unfolding update_if_status_in
assets-update ctx id status summary message ensure_started complete current db = ground arith

-- what `SetCompleted`, `SetFailed` and `SetCanceled` leave of it
pub ends :
    (id : Text) (status : Status) (summary : Summary) (message : Text) (db : Db) (b : IsBusy id db)
    → job_at (after_update live id status summary message false true active db) id
      ≡ some (set_clause status summary message false true db.now b.job)
unfolding can_cancel set_clause
ends id status summary message db b =
    (end_job_lem live id status summary message db b.job b.up b.one b.found).1
    ∙ (rw (ap can_cancel b.runs) refl)

-- `UpdateSummary` succeeds and leaves it running
module _ (id : Text) (s : Summary) (db : Db) (b : IsBusy id db) where
  get_busy : get live id db ≡ ok b.job
  unfolding get
  get_busy = rw (b.up, b.found) refl

  abbrev restart : Bool
  restart = elim b.job.started_at [ none ↦ true | some t ↦ false ]

  update_summary_busy :
      update_summary live id s db
      ≡ update_if_status_in live id b.job.status s b.job.error_message restart false [] db
  unfolding update_summary write_read write_summary
  update_summary_busy = ap (write_read live id s db) get_busy

  pub update_summary-ok : (j : Job) × ((update_summary live id s db).0 ≡ ok j)
  update_summary-ok = (
    set_clause b.job.status s b.job.error_message restart false db.now b.job,
    rw update_summary_busy (
        answer-update live id b.job.status s b.job.error_message restart false [] db b.job b.up
          b.one b.found),
  )

  pub update_summary-IsBusy : IsBusy id (update_summary live id s db).1
  unfolding set_clause
  update_summary-IsBusy = rw update_summary_busy (record {
    up = down-update live id b.job.status s b.job.error_message restart false [] db ∙ b.up;
    one =
        rw (matching-update_jobs live id b.job.status s b.job.error_message restart false [] db id)
          b.one;
    job = set_clause b.job.status s b.job.error_message restart false db.now b.job;
    found =
        job_at-update live id b.job.status s b.job.error_message restart false [] db id b.up
        ∙ (rw (b.found, text_eq_refl id) refl);
    runs = b.runs;
  })

  pub assets-update_summary : (update_summary live id s db).1.assets ≡ db.assets
  assets-update_summary =
      rw update_summary_busy
        (assets-update live id b.job.status s b.job.error_message restart false [] db)

-- storing an asset's record leaves the job alone; where it succeeds, the job has one asset more
jobs-create : (a : Asset) (db : Db) → (Assets.create live a db).1.jobs ≡ db.jobs
unfolding Assets.create
jobs-create a db = ground arith

down-create : (a : Asset) (db : Db) → (Assets.create live a db).1.down ≡ db.down
unfolding Assets.create
down-create a db = ground arith

pub create-IsBusy :
    (id : Text) (a : Asset) (db : Db) → IsBusy id db → IsBusy id (Assets.create live a db).1
create-IsBusy id a db b = record {
  up = down-create a db ∙ b.up;
  one = rw (jobs-create a db) b.one;
  job = b.job;
  found = rw (jobs-create a db) b.found;
  runs = b.runs;
}

pub assets_of-create :
    (id : Text) (a : Asset) (db : Db) (x : Asset)
    → text_eq a.generation_job_id id ≡ true
    → (Assets.create live a db).0 ≡ ok x
    → assets_of id (Assets.create live a db).1 ≡ assets_of id db + 1
unfolding Assets.create matching
assets_of-create id a db x mine h =
    ground (arith, matching-append (has_key job_of id) db.assets (Assets.stored_row a db ∷ []))
