-- ===== src/Database.antt =====
-- The tables of the SQLite database (db/migrations.go) and the Go records of their rows. JSON columns
-- hold the value that is encoded in them. Times are whole seconds, as `strftime` writes them.
pub mod Table
pub mod Order
use honeygen.Prelude.{ℕ, Bool, true, false, ◌||◌, Option, List}
use honeygen.Text.{Text}

-- worldmodels/types.go
pub record StoredWorldModel : Type 0 where
  pub id : Text
  pub name : Text
  pub description : Text
  pub json_blob : Text
  pub created_at : ℕ
  pub updated_at : ℕ

-- generation/jobs.go: the five status constants
pub data Status : Type 0 where
  pending running completed failed canceled : Status

pub record LogEntry : Type 0 where
  pub time : ℕ
  pub level : Text
  pub message : Text
  pub path : Text
  pub category : Text

pub record Summary : Type 0 where
  pub manifest_count : ℕ
  pub asset_count : ℕ
  pub categories : List Text
  pub logs : List LogEntry

pub record Job : Type 0 where
  pub id : Text
  pub world_model_id : Text
  pub status : Status
  pub started_at : Option ℕ
  pub completed_at : Option ℕ
  pub error_message : Text
  pub summary : Summary
  pub created_at : ℕ
  pub updated_at : ℕ

-- assets/repository.go
pub record Asset : Type 0 where
  pub id : Text
  pub generation_job_id : Text
  pub world_model_id : Text
  pub source_type : Text
  pub rendered_type : Text
  pub path : Text
  pub mime_type : Text
  pub size_bytes : ℕ
  pub tags : List Text
  pub previewable : Bool
  pub checksum : Text
  pub created_at : ℕ

-- events/repository.go; the metadata are the entries of the JSON object, values as JSON text
pub record Event : Type 0 where
  pub id : Text
  pub asset_id : Option Text
  pub world_model_id : Option Text
  pub event_type : Text
  pub method : Text
  pub query : Text
  pub path : Text
  pub source_ip : Text
  pub user_agent : Text
  pub referer : Text
  pub status_code : ℕ
  pub bytes_sent : ℕ
  pub timestamp : ℕ
  pub level : Text
  pub metadata : List (Text × Text)
  pub created_at : ℕ

-- the two states of a deployment, which its row holds as text
pub data DeploymentStatus : Type 0 where
  stopped running : DeploymentStatus

-- deployments/repository.go, without the two fields that are computed from the protocol
pub record Deployment : Type 0 where
  pub id : Text
  pub generation_job_id : Text
  pub world_model_id : Text
  pub protocol : Text
  pub port : ℕ
  pub root_path : Text
  pub status : DeploymentStatus
  pub created_at : ℕ
  pub updated_at : ℕ

-- `now` is what `strftime('now')` gives to a statement; while `down` holds, every statement fails
pub record Db : Type 0 where
  pub world_models : List StoredWorldModel
  pub jobs : List Job
  pub assets : List Asset
  pub events : List Event
  pub deployments : List Deployment
  pub now : ℕ
  pub down : Bool

-- `ctx.Err()`: database/sql refuses a statement on a context that is done
pub data Context : Type 0 where
  live done : Context

abbrev pub is_done : Context → Bool
is_done live = false
is_done done = true

abbrev pub fails : Context → Db → Bool
fails ctx db = is_done ctx || db.down
