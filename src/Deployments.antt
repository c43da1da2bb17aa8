-- ===== src/Deployments.antt =====
-- deployments/repository.go: the deployment records, and deployments/manager.go: the running
-- listeners. The protocol servers are outside the repository or start goroutines: whether one starts
-- is what the environment answers.
pub mod Paths
pub mod Running
pub mod Restoring
pub mod Shown
pub mod Api
use honeygen.Prelude.{
  ℕ, Bool, true, false, not, ◌&&◌, ◌||◌, Option, none, some, List, [], ◌∷◌, ◌++◌, ◌==◌,
  if◌then◌else◌, Result, ok, err,
}
use honeygen.Text.{Text, text_eq, codes, trim_space, trim_prefix, has_prefix}
use honeygen.Path.{slash, clean, path_join}
use honeygen.Database.{
  Deployment, DeploymentStatus, stopped, Job, StoredWorldModel, Db, Context, fails,
}
use honeygen.Database.Table.{find, select, update, delete, matching, has_key}

pub data DeployError : Type 0 where
  not_found port_conflict deploy_db_failed already_running no_directory unsupported_protocol
        listen_failed :
      DeployError

abbrev pub deployment_key : Deployment → Text
deployment_key d = d.id

-- what a caller of `Create` fills in; empty fields take the defaults
pub record NewDeployment : Type 0 where
  pub id : Text
  pub generation_job_id : Text
  pub world_model_id : Text
  pub protocol : Text
  pub port : ℕ
  pub root_path : Text
  pub status : Option DeploymentStatus

abbrev or_default : Text → Text → Text
or_default given default = if text_eq given [] then default else given

initial_status : Option DeploymentStatus → DeploymentStatus
initial_status none = stopped
initial_status (some status) = status

unfoldable pub new_row : Text → NewDeployment → ℕ → Deployment
unfolding initial_status
new_row fresh d now = record {
  id = or_default d.id fresh;
  generation_job_id = d.generation_job_id;
  world_model_id = d.world_model_id;
  protocol = or_default d.protocol (codes "http");
  port = d.port;
  root_path = or_default d.root_path (slash ∷ []);
  status = initial_status d.status;
  created_at = now;
  updated_at = now;
}

unfoldable pub has_owners : Deployment → Db → Bool
has_owners d db =
    not (matching (λ (j : Job). text_eq j.id d.generation_job_id) db.jobs == 0)
    && not (matching (λ (m : StoredWorldModel). text_eq m.id d.world_model_id) db.world_models == 0)

unfoldable found : Option Deployment → Result DeployError Deployment
found none = err not_found
found (some d) = ok d

-- `Get`
unfoldable pub get : Context → Text → Db → Result DeployError Deployment
unfolding found
get ctx id db =
    if fails ctx db
    then err deploy_db_failed
    else found (find (has_key deployment_key id) db.deployments)

-- `Create`, with the id that `uuid.New` would give; the port has a unique index
unfoldable pub create : Context → Text → NewDeployment → Db → Result DeployError Deployment × Db
unfolding new_row has_owners get
create ctx fresh given db =
    let d = new_row fresh given db.now in
    if fails ctx db || not (matching (has_key deployment_key d.id) db.deployments == 0)
    then (err deploy_db_failed, db)
    else if not (matching (λ r. r.port == d.port) db.deployments == 0)
    then (err port_conflict, db)
    else if not (has_owners d db)
    then (err deploy_db_failed, db)
    else let db' = record db { deployments = db.deployments ++ d ∷ [] } in (get ctx d.id db', db')

unfoldable pub is_running : DeploymentStatus → Bool
is_running stopped = false
is_running DeploymentStatus.running = true

-- `ListByStatus(ctx, "running")`; the order of the rows is not modelled
unfoldable pub list_running : Context → Db → Result DeployError (List Deployment)
unfolding is_running
list_running ctx db =
    if fails ctx db
    then err deploy_db_failed
    else ok (select (λ d. is_running d.status) db.deployments)

set_status : DeploymentStatus → ℕ → Deployment → Deployment
set_status status now d = record d { status = status; updated_at = now }

unfoldable pub update_status :
    Context → Text → DeploymentStatus → Db → Result DeployError (Unit {0}) × Db
unfolding set_status
update_status ctx id status db =
    if fails ctx db
    then (err deploy_db_failed, db)
    else if matching (has_key deployment_key id) db.deployments == 0
    then (err not_found, db)
    else (
      ok tt,
      record db {
        deployments =
            update (λ d. has_key deployment_key id d && true) (set_status status db.now)
              db.deployments;
      },
    )

-- `Delete`
unfoldable pub delete_deployment : Context → Text → Db → Result DeployError (Unit {0}) × Db
delete_deployment ctx id db =
    if fails ctx db
    then (err deploy_db_failed, db)
    else if matching (has_key deployment_key id) db.deployments == 0
    then (err not_found, db)
    else (ok tt, record db { deployments = delete (has_key deployment_key id) db.deployments })

-- `ExistsPort`
unfoldable pub exists_port : Context → ℕ → Db → Result DeployError Bool
exists_port ctx port db =
    if fails ctx db
    then err deploy_db_failed
    else ok (not (matching (λ d. d.port == port) db.deployments == 0))

-- `normalizeDeploymentRootPath`
unfoldable pub normalize_root_path : Deployment → Text
normalize_root_path d =
    let root_path = trim_space d.root_path in
    if text_eq root_path [] || text_eq root_path (slash ∷ [])
    then slash ∷ []
    else let clean_root = clean (slash ∷ trim_prefix root_path (slash ∷ [])) in
      let full_prefix =
        clean (codes "/generated/" ++ d.world_model_id ++ slash ∷ d.generation_job_id) in
      if text_eq clean_root full_prefix
      then slash ∷ []
      else if has_prefix clean_root (full_prefix ++ slash ∷ [])
      then trim_prefix clean_root full_prefix
      else clean_root

-- the directory of the deployment's job
unfoldable pub job_directory : Text → Deployment → Text
job_directory storage_root d =
    path_join (storage_root ∷ codes "generated" ∷ d.world_model_id ∷ d.generation_job_id ∷ [])

-- `resolveFilePath`
unfoldable pub resolve_file_path : Text → Deployment → Text
resolve_file_path storage_root d =
    let file_path = job_directory storage_root d in
    let root_path = normalize_root_path d in
    if text_eq root_path (slash ∷ [])
    then file_path
    else path_join (file_path ∷ trim_prefix root_path (slash ∷ []) ∷ [])

-- The manager: the ids of its listeners, over the database. What the environment answers are the
-- directories that exist and the servers that can listen, and the context that `Start` still has when
-- the server of a deployment was started.
pub record Manager : Type 0 where
  pub storage_root : Text
  pub listeners : List Text
  pub db : Db

pub record Host : Type 0 where
  pub directory_exists : Text → Bool
  pub can_listen : Deployment → Bool
  pub at_update : Deployment → Context

unfoldable pub is_listening : Text → List Text → Bool
is_listening id [] = false
is_listening id (k ∷ ks) = text_eq k id || is_listening id ks

-- `delete(m.listeners, id)`
unfoldable pub without_listener : Text → List Text → List Text
without_listener id [] = []
without_listener id (k ∷ ks) =
    let rest = without_listener id ks in if text_eq k id then rest else k ∷ rest

unfoldable supported : Text → Bool
supported protocol =
    text_eq protocol (codes "http")
    || text_eq protocol (codes "ftp")
    || text_eq protocol (codes "nfs")
    || text_eq protocol (codes "smb")

-- the part of `Start` behind the look-up
unfoldable start_deployment :
    Host → Context → Text → Manager → Deployment → Result DeployError (Unit {0}) × Manager
unfolding supported update_status
start_deployment host ctx id m d =
    if not (host.directory_exists (resolve_file_path m.storage_root d))
    then (err no_directory, m)
    else if not (supported d.protocol)
    then (err unsupported_protocol, m)
    else if not (host.can_listen d)
    then (err listen_failed, m)
    else let (answer, db') = update_status (host.at_update d) id DeploymentStatus.running m.db in
      (answer, record m { listeners = id ∷ m.listeners; db = db' })

unfoldable start_found :
    Host
    → Context
    → Text
    → Manager
    → Result DeployError Deployment
    → Result DeployError (Unit {0}) × Manager
unfolding start_deployment
start_found host ctx id m (err e) = (err e, m)
start_found host ctx id m (ok d) = start_deployment host ctx id m d

-- `Start`
unfoldable pub start : Host → Context → Text → Manager → Result DeployError (Unit {0}) × Manager
unfolding start_found is_listening
start host ctx id m =
    if is_listening id m.listeners
    then (err already_running, m)
    else start_found host ctx id m (get ctx id m.db)

-- `Stop`: the listener goes whatever the database answers
unfoldable pub stop : Context → Text → Manager → Result DeployError (Unit {0}) × Manager
unfolding without_listener
stop ctx id m =
    let (answer, db') = update_status ctx id stopped m.db in
    (answer, record m { listeners = without_listener id m.listeners; db = db' })

-- `StopAll` stops the ids that were listening when it began
unfoldable stop_each : Context → List Text → Manager → Manager
unfolding stop
stop_each ctx [] m = m
stop_each ctx (id ∷ ids) m = stop_each ctx ids (stop ctx id m).1

unfoldable pub stop_all : Context → Manager → Manager
unfolding stop_each
stop_all ctx m = stop_each ctx m.listeners m

-- one deployment of `RestoreRunning`: a failure to start marks it as stopped
unfoldable after_restart : Context → Text → Result DeployError (Unit {0}) × Manager → Manager
after_restart ctx id (ok _, m) = m
after_restart ctx id (err e, m) = record m { db = (update_status ctx id stopped m.db).1 }

unfoldable pub restore_one : Host → Context → Text → Manager → Manager
unfolding start after_restart
restore_one host ctx id m = after_restart ctx id (start host ctx id m)

unfoldable restore_each : Host → Context → List Deployment → Manager → Manager
unfolding restore_one
restore_each host ctx [] m = m
restore_each host ctx (d ∷ ds) m = restore_each host ctx ds (restore_one host ctx d.id m)

-- `RestoreRunning` logs a failed listing and gives up
unfoldable pub restore_running : Host → Context → Manager → Manager
unfolding restore_each
restore_running host ctx m = elim (list_running ctx m.db) [
  | err e ↦ m
  | ok ds ↦ restore_each host ctx ds m
]
