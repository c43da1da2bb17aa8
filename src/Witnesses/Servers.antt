-- ===== src/Witnesses/Servers.antt =====
-- The deployments and the reported requests at concrete inputs.
use honeygen.Prelude.{
  List, pos, ◌≡◌, refl, ◌≢◌, ◌⊎◌, ◌++◌, none, some, [], ◌∷◌, All, ok, true, false, arith,
}
use honeygen.Text.{Text, text_eq, codes, split, join, has_prefix, trim_prefix, trim_space}
use honeygen.Path.{slash, clean, path_join, path_segments, render, is_abs}
use honeygen.Path.Clean.{IsName}
use honeygen.Path.Below.{root_prefix}
use honeygen.Path.Rooted.{IsRooted}
use honeygen.Database.{
  done, fails, Context, stopped, completed, Event, Db, live, Deployment, DeploymentStatus,
}
use honeygen.Database.Table.{find, matching, has_key, delete, update}
use honeygen.Deployments.{
  Manager, Host, is_listening, start, stop, stop_all, restore_running, resolve_file_path,
  job_directory, delete_deployment, get,
}
use honeygen.Deployments.Running.{running_at, stop_lem}
use honeygen.Deployments.Restoring.{are_distinct, restore_running_lem}
use honeygen.Deployments.Shown.{IsShown, IsLeaked, start_lem, stop-IsShown, stop_all_lem}
use honeygen.Deployments.Paths.{resolve_file_path_below}
use honeygen.Deployments.{deployment_key}
use honeygen.Deployments.Api.{delete_handler, delete_handler_lem}
use honeygen.Events.{IngestRequest, EventService, ingest, normalize_request_path}
use honeygen.Events.Ingest.{named_asset, asset_at, ingest_lem}
use honeygen.Assets.References.{IsLinked}
use honeygen.Events.Links.{
  LinkOp, ingest_op, delete_asset_op, delete_job_op, act_on_all, act_on_all-IsLinked,
}
use honeygen.Witnesses.{job_in, asset, deployment, tables}
use honeygen.Assets.{find_by_path}

abbrev host : Host
host = record { directory_exists = λ p. true; can_listen = λ d. true; at_update = λ d. live }

-- the records say that the deployment runs, and nothing listens yet
abbrev restarted : Manager
restarted = record {
  storage_root = codes "/d";
  listeners = [];
  db = tables (job_in completed (some 3) ∷ []) [] [] (deployment DeploymentStatus.running ∷ []);
}

restore_running_lem_example :
    is_listening (codes "d") (restore_running host live restarted).listeners
    ≡ running_at (restore_running host live restarted).db (codes "d")
unfolding are_distinct
restore_running_lem_example =
    restore_running_lem host live restarted refl refl refl (λ d. refl) (codes "d")

restarted-IsShown : IsShown restarted
unfolding is_listening
restarted-IsShown = record { shown = λ id h. cc }

-- the context ends while the server is started
abbrev late_host : Host
late_host = record host { at_update = λ d. done }

start_lem_example :
    (((d : Deployment) → fails (late_host.at_update d) restarted.db ≡ false)
      → IsShown (start late_host live (codes "d") restarted).1)
    × (IsShown (start late_host live (codes "d") restarted).1
        ⊎ IsLeaked (codes "d") restarted (start late_host live (codes "d") restarted))
start_lem_example = start_lem late_host live (codes "d") restarted restarted-IsShown

abbrev listening : Manager
listening = (start host live (codes "d") restarted).1

listening-IsShown : IsShown listening
listening-IsShown = (start_lem host live (codes "d") restarted restarted-IsShown).0 (λ d. refl)

stop-IsShown_example : IsShown (stop live (codes "d") listening).1
stop-IsShown_example = stop-IsShown live (codes "d") listening listening-IsShown

stop_lem_example : is_listening (codes "d") (stop live (codes "d") listening).1.listeners ≡ false
unfolding text_eq
stop_lem_example = stop_lem live (codes "d") listening (codes "d")

stop_all_lem_example : is_listening (codes "d") (stop_all live listening).listeners ≡ false
stop_all_lem_example = stop_all_lem live listening (codes "d")

abbrev nested : Deployment
nested = record (deployment stopped) { root_path = codes " generated/w/j/../j/x " }

directory_there : job_directory (codes "/d") nested ≢ []
unfolding job_directory path_join clean path_segments render is_abs has_prefix text_eq split join
directory_there e = cc

resolve_file_path_below_example :
    (resolve_file_path (codes "/d") nested ≡ job_directory (codes "/d") nested)
    ⊎ ((n : Text) × (resolve_file_path (codes "/d") nested
          ≡ root_prefix (job_directory (codes "/d") nested) ++ n)
        × All IsName (split slash n))
resolve_file_path_below_example = resolve_file_path_below (codes "/d") nested directory_there

abbrev linked_db : Db
linked_db = tables (job_in completed (some 3) ∷ []) (asset ∷ []) [] []

linked_db-IsLinked : IsLinked linked_db
unfolding matching text_eq
linked_db-IsLinked = record {
  one_id = λ k. ground arith;
  one_path = λ p. ground arith;
  job_there = (omega arith, tt);
  asset_there = tt;
}

abbrev service : EventService
service = record { has_assets = true; now = 9; enrich = some (λ ip. some (codes "{}")) }

abbrev request : IngestRequest
request = record {
  timestamp = some 4;
  event_type = [];
  method = codes "GET";
  path = codes "/generated/w/j/a";
  query = [];
  source_ip = codes "1.2.3.4";
  user_agent = [];
  referer = [];
  status_code = pos 200;
  bytes_sent = pos 2;
  metadata = [];
}

abbrev ingested : Event
ingested = record {
  id = codes "f";
  asset_id = some (codes "a");
  world_model_id = some (codes "w");
  event_type = codes "http_request";
  method = codes "GET";
  query = [];
  path = codes "/generated/w/j/a";
  source_ip = codes "1.2.3.4";
  user_agent = [];
  referer = [];
  status_code = 200;
  bytes_sent = 2;
  timestamp = 4;
  level = codes "info";
  metadata = (codes "ip_intelligence", codes "{}") ∷ [];
  created_at = 9;
}

abbrev ingested_db : Db
ingested_db = tables (job_in completed (some 3) ∷ []) (asset ∷ []) (ingested ∷ []) []

ingest_ok : ingest service live (codes "f") request linked_db ≡ (ok ingested, ingested_db)
unfolding ingest text_eq trim_space normalize_request_path clean find_by_path find trim_prefix join
    split matching
ingest_ok = refl

ingest_lem_example :
    (ingested_db ≡ record linked_db { events = [] ++ ingested ∷ [] })
    × (ingested.path ≡ normalize_request_path request.path)
    × IsRooted ingested.path
    × (ingested.asset_id ≡ named_asset (asset_at service linked_db ingested.path))
ingest_lem_example =
    ingest_lem service live (codes "f") request linked_db ingested_db ingested ingest_ok

abbrev without_deployment : Manager
without_deployment = record {
  storage_root = codes "/d";
  listeners = [];
  db = tables (job_in completed (some 3) ∷ []) [] [] [];
}

delete_ok : delete_handler live (codes "d") listening ≡ (ok tt, without_deployment)
unfolding delete_handler is_listening start get find text_eq stop matching update delete_deployment
    delete
delete_ok = refl

delete_handler_lem_example :
    (is_listening (codes "d") without_deployment.listeners ≡ false)
    × (find (has_key deployment_key (codes "d")) without_deployment.db.deployments ≡ none)
delete_handler_lem_example =
    delete_handler_lem live (codes "d") listening without_deployment delete_ok

-- a request is reported, the asset is deleted, and the job
abbrev link_ops : List (Context × LinkOp)
link_ops =
    (live, ingest_op service (codes "f") request)
    ∷ (live, delete_asset_op (codes "a"))
    ∷ (live, delete_job_op (codes "j"))
    ∷ []

act_on_all-IsLinked_example : IsLinked (act_on_all link_ops linked_db)
act_on_all-IsLinked_example = act_on_all-IsLinked link_ops linked_db linked_db-IsLinked
