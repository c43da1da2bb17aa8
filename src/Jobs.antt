-- ===== src/Jobs.antt =====
-- generation/jobs.go: the job store. A method takes the database and returns its result with the
-- database that it leaves.
pub mod Rows
pub mod Lifecycle
pub mod Kept
pub mod Ending
pub mod Race
use honeygen.Prelude.{
  drop, take, ltb, ℕ, Bool, true, false, not, ◌&&◌, ◌||◌, Option, none, some, List, [], ◌∷◌, ◌++◌,
  ◌==◌, if◌then◌else◌, Result, ok, err, ◌>>=◌,
}
use honeygen.Text.{Text, text_eq}
use honeygen.Database.{
  Status, pending, running, completed, failed, canceled, Summary, Job, Db, StoredWorldModel,
  Context, fails,
}
use honeygen.Database.Table.{find, select, order_by, update, delete, matching, has_key}

pub data JobError : Type 0 where
  job_not_found job_not_cancelable job_not_deletable db_failed : JobError

abbrev pub job_key : Job → Text
job_key j = j.id

abbrev pub Answer : Type 0 → Type 0
Answer A = Result JobError A × Db

unfoldable pub status_eq : Status → Status → Bool
status_eq pending pending = true
status_eq running running = true
status_eq completed completed = true
status_eq failed failed = true
status_eq canceled canceled = true
status_eq _ _ = false

-- `containsString` on statuses
unfoldable pub contains : List Status → Status → Bool
unfolding status_eq
contains [] want = false
contains (s ∷ ss) want = status_eq s want || contains ss want

unfoldable pub can_cancel : Status → Bool
unfolding status_eq
can_cancel s = status_eq s pending || status_eq s running

unfoldable pub can_delete : Status → Bool
unfolding status_eq
can_delete s = status_eq s completed || status_eq s failed || status_eq s canceled

unfoldable pub or_not_found : Option Job → Result JobError Job
or_not_found none = err job_not_found
or_not_found (some j) = ok j

unfoldable pub get : Context → Text → Db → Result JobError Job
unfolding or_not_found
get ctx id db =
    if fails ctx db then err db_failed else or_not_found (find (has_key job_key id) db.jobs)

abbrev pub no_summary : Summary
no_summary = record { manifest_count = 0; asset_count = 0; categories = []; logs = [] }

abbrev pub new_job : Text → Text → ℕ → Job
new_job id world_model_id now = record {
  id = id;
  world_model_id = world_model_id;
  status = pending;
  started_at = none;
  completed_at = none;
  error_message = [];
  summary = no_summary;
  created_at = now;
  updated_at = now;
}

abbrev world_model_key : StoredWorldModel → Text
world_model_key m = m.id

-- the constraints of the table: the id is the primary key, the world model a foreign key
unfoldable pub can_insert : Text → Text → Db → Bool
can_insert id world_model_id db =
    matching (has_key job_key id) db.jobs == 0
    && not (matching (has_key world_model_key world_model_id) db.world_models == 0)

-- `Create`, with the id that the generator gave
unfoldable pub create : Context → Text → Text → Db → Answer Job
unfolding get can_insert
create ctx id world_model_id db =
    if fails ctx db || not (can_insert id world_model_id db)
    then (err db_failed, db)
    else let db' = record db { jobs = db.jobs ++ new_job id world_model_id db.now ∷ [] } in
      (get ctx id db', db')

-- `COALESCE(started_at, now)` where the clause is there
abbrev pub started : Bool → ℕ → Option ℕ → Option ℕ
started false now s = s
started true now none = some now
started true now (some t) = some t

-- the SET clause of the statement in `updateIfStatusIn`
unfoldable pub set_clause : Status → Summary → Text → Bool → Bool → ℕ → Job → Job
set_clause status summary message ensure_started complete now j = record j {
  status = status;
  summary = summary;
  error_message = message;
  updated_at = now;
  started_at = started ensure_started now j.started_at;
  completed_at = if complete then some now else j.completed_at;
}

-- the condition behind `id = ?`
abbrev pub status_in : List Status → Job → Bool
status_in [] j = true
status_in (s ∷ ss) j = contains (s ∷ ss) j.status

-- no row was updated: the job is missing, or its status is not one of those asked for
unfoldable pub not_updated : List Status → Job → Result JobError Job
not_updated [] current = ok current
not_updated (s ∷ ss) current =
    if contains (s ∷ ss) current.status then ok current else err job_not_cancelable

unfoldable pub update_if_status_in :
    Context → Text → Status → Summary → Text → Bool → Bool → List Status → Db → Answer Job
unfolding set_clause not_updated get contains
update_if_status_in ctx id status summary message ensure_started complete current db =
    if fails ctx db
    then (err db_failed, db)
    else if matching (λ j. has_key job_key id j && status_in current j) db.jobs == 0
    then (get ctx id db >>= not_updated current, db)
    else let db' = record db {
      jobs =
          update (λ j. has_key job_key id j && status_in current j)
            (set_clause status summary message ensure_started complete db.now) db.jobs;
    } in
      (get ctx id db', db')

abbrev pub active : List Status
active = pending ∷ running ∷ []

unfoldable pub set_running : Context → Text → Summary → Db → Answer Job
unfolding update_if_status_in
set_running ctx id summary db = update_if_status_in ctx id running summary [] true false [] db

-- the second half of `UpdateSummary`, which writes what the first half has read
unfoldable pub write_summary : Context → Text → Summary → Job → Db → Answer Job
unfolding update_if_status_in
write_summary ctx id summary current db =
    update_if_status_in ctx id current.status summary current.error_message
      (elim current.started_at [ none ↦ true | some t ↦ false ]) false [] db

-- the write after the read, or the error of the read
unfoldable pub write_read : Context → Text → Summary → Db → Result JobError Job → Answer Job
unfolding write_summary
write_read ctx id summary db (ok current) = write_summary ctx id summary current db
write_read ctx id summary db (err e) = (err e, db)

unfoldable pub update_summary : Context → Text → Summary → Db → Answer Job
unfolding get write_read
update_summary ctx id summary db = write_read ctx id summary db (get ctx id db)

unfoldable pub set_completed : Context → Text → Summary → Db → Answer Job
unfolding update_if_status_in
set_completed ctx id summary db =
    update_if_status_in ctx id completed summary [] false true active db

unfoldable pub set_failed : Context → Text → Summary → Text → Db → Answer Job
unfolding update_if_status_in
set_failed ctx id summary message db =
    update_if_status_in ctx id failed summary message false true active db

unfoldable pub set_canceled : Context → Text → Summary → Text → Db → Answer Job
unfolding update_if_status_in
set_canceled ctx id summary message db =
    update_if_status_in ctx id canceled summary message false true active db

-- `Delete`: an asset or a deployment that refers to the job makes the engine refuse the statement
unfoldable pub referenced : Text → Db → Bool
referenced id db =
    not (matching (λ a. text_eq a.generation_job_id id) db.assets == 0)
    || not (matching (λ d. text_eq d.generation_job_id id) db.deployments == 0)

unfoldable pub delete_job : Context → Text → Db → Answer (Unit {0})
unfolding referenced
delete_job ctx id db =
    if fails ctx db
    then (err db_failed, db)
    else if matching (has_key job_key id) db.jobs == 0
    then (err job_not_found, db)
    else if referenced id db
    then (err db_failed, db)
    else (ok tt, record db { jobs = delete (has_key job_key id) db.jobs })

-- `ListOptions`; a negative limit or offset acts as 0 does
pub record JobListOptions : Type 0 where
  pub world_model_id : Text
  pub limit : ℕ
  pub offset : ℕ

-- `normalizeJobLimit`
unfoldable pub normalize_job_limit : ℕ → ℕ
normalize_job_limit limit = if limit == 0 || ltb 1000 limit then 100 else limit

-- the jobs that the options ask for, the newest first
unfoldable pub listed_jobs : JobListOptions → Db → List Job
listed_jobs o db =
    order_by (λ a b. ltb b.created_at a.created_at)
      (select (λ j. text_eq o.world_model_id [] || text_eq j.world_model_id o.world_model_id)
        db.jobs)

-- `List`
unfoldable pub list : Context → JobListOptions → Db → Result JobError (List Job)
unfolding normalize_job_limit listed_jobs
list ctx o db =
    if fails ctx db
    then err db_failed
    else ok (take (normalize_job_limit o.limit) (drop o.offset (listed_jobs o db)))

-- the job that a query for an id finds
abbrev pub job_at : Db → Text → Option Job
job_at db id = find (has_key job_key id) db.jobs

-- the calls of the store, as one type
pub data JobOp : Type 0 where
  create_op : Text → Text → JobOp
  set_running_op : Text → Summary → JobOp
  update_summary_op : Text → Summary → JobOp
  set_completed_op : Text → Summary → JobOp
  set_failed_op : Text → Summary → Text → JobOp
  set_canceled_op : Text → Summary → Text → JobOp
  delete_op : Text → JobOp

unfoldable pub apply : Context → JobOp → Db → Db
apply ctx (create_op id world_model_id) db = (create ctx id world_model_id db).1
apply ctx (set_running_op id summary) db = (set_running ctx id summary db).1
apply ctx (update_summary_op id summary) db = (update_summary ctx id summary db).1
apply ctx (set_completed_op id summary) db = (set_completed ctx id summary db).1
apply ctx (set_failed_op id summary message) db = (set_failed ctx id summary message db).1
apply ctx (set_canceled_op id summary message) db = (set_canceled ctx id summary message db).1
apply ctx (delete_op id) db = (delete_job ctx id db).1

unfoldable pub apply_all : List (Context × JobOp) → Db → Db
apply_all [] db = db
apply_all ((ctx, op) ∷ ops) db = apply_all ops (apply ctx op db)
