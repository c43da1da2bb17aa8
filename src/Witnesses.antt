-- ===== src/Witnesses.antt =====
-- Concrete inputs, at which the theorems are applied: a store at "/data", tables with one world model,
-- one job, one asset and one event, and a deployment.
pub mod Files
pub mod Tables
pub mod Service
pub mod Servers
pub mod Models
pub mod Settings
pub mod Uploads
use honeygen.Prelude.{ℕ, none, some, Option, List, [], ◌∷◌, false}
use honeygen.Text.{Text, codes}
use honeygen.Database.{
  StoredWorldModel, Status, Summary, Job, Asset, Event, Deployment, DeploymentStatus, Db,
}
use honeygen.Storage.{Filesystem}
use honeygen.Storage.Os.{Disk, Bytes}

abbrev pub store : Filesystem
store = record { root = codes "/d" }

-- a disk that refuses nothing, with these files
abbrev pub disk_of : List (Text × Bytes) → Disk
disk_of files = record {
  files = files;
  refuses = λ p. false;
  torn = λ p. none;
  spared = λ p. false;
}

abbrev pub job_path : Text
job_path = codes "generated/w/j/a"

abbrev pub job_file : Text
job_file = codes "/d/generated/w/j/a"

abbrev pub no_summary : Summary
no_summary = record { manifest_count = 0; asset_count = 0; categories = []; logs = [] }

abbrev pub world_model : StoredWorldModel
world_model = record {
  id = codes "w";
  name = codes "w";
  description = [];
  json_blob = [];
  created_at = 1;
  updated_at = 1;
}

abbrev pub job_in : Status → Option ℕ → Job
job_in status completed_at = record {
  id = codes "j";
  world_model_id = codes "w";
  status = status;
  started_at = some 2;
  completed_at = completed_at;
  error_message = [];
  summary = no_summary;
  created_at = 1;
  updated_at = 2;
}

abbrev pub asset : Asset
asset = record {
  id = codes "a";
  generation_job_id = codes "j";
  world_model_id = codes "w";
  source_type = [];
  rendered_type = [];
  path = job_path;
  mime_type = [];
  size_bytes = 2;
  tags = [];
  previewable = false;
  checksum = [];
  created_at = 3;
}

abbrev pub event : Event
event = record {
  id = codes "e";
  asset_id = some (codes "a");
  world_model_id = some (codes "w");
  event_type = [];
  method = codes "GET";
  query = [];
  path = codes "/generated/w/j/a";
  source_ip = [];
  user_agent = [];
  referer = [];
  status_code = 200;
  bytes_sent = 2;
  timestamp = 4;
  level = codes "info";
  metadata = [];
  created_at = 4;
}

abbrev pub deployment : DeploymentStatus → Deployment
deployment status = record {
  id = codes "d";
  generation_job_id = codes "j";
  world_model_id = codes "w";
  protocol = codes "http";
  port = 8080;
  root_path = codes "/";
  status = status;
  created_at = 5;
  updated_at = 5;
}

abbrev pub tables : List Job → List Asset → List Event → List Deployment → Db
tables jobs assets events deployments = record {
  world_models = world_model ∷ [];
  jobs = jobs;
  assets = assets;
  events = events;
  deployments = deployments;
  now = 9;
  down = false;
}
