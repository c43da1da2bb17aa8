-- ===== src/Witnesses/Settings.antt =====
-- A configuration, an answer of a provider, a run of calls on the store, and a path that is taken.
use honeygen.Prelude.{
  List, ◌||◌, ◌≡◌, refl, Result, Option, none, some, [], ◌∷◌, ok, err, false, pos, if◌then◌else◌,
}
use honeygen.Text.{Text, codes, text_eq, trim_space, split, has_prefix, join, replace}
use honeygen.Database.{Asset, live, running}
use honeygen.Database.Table.{find, matching, has_key}
use honeygen.Assets.{asset_key, asset_path}
use honeygen.Storage
use honeygen.Storage.{resolve, write, read, read_failed, StoredFile}
use honeygen.Storage.Refinement.{FileOp, write_op, delete_op, delete_dir_op, move_op}
use honeygen.Storage.Os.{
  Disk, not_exist, drop_files, file_at, mkdir_all, put_file, remove, write_file, is_directory,
}
use honeygen.Config.{Config, ConfigError, FileConfig, load_with_defaults}
use honeygen.Generation.{World}
use honeygen.Generation.Worker.{Output, stop, placed}
use honeygen.Generation.Conflict.{placed_taken}
use honeygen.Generation.Answers.{newline, kept_lines, to_lf, without_html}
use honeygen.Generation.Answers.Tidy.{IsTidy, kept_lines-IsTidy}
use honeygen.Witnesses.{store, disk_of, job_path, job_file, job_in, no_summary, asset, tables}
use honeygen.Witnesses.Service.{worker, entry}
use honeygen.Path.{clean, path_join}

abbrev answer : Text
answer = codes " Dear all,\r\n\r\n\r\n  hello  \n"

kept_lines-IsTidy_example :
    IsTidy
      (split newline (to_lf (without_html (λ t. t) (λ t. t) (trim_space answer))))
      (kept_lines (λ t. t) (λ t. t) answer)
kept_lines-IsTidy_example = kept_lines-IsTidy (λ t. t) (λ t. t) answer

abbrev calls : List FileOp
calls =
    write_op (codes "a/x") (1 ∷ [])
    ∷ write_op (codes "../x") (2 ∷ [])
    ∷ write_op (codes "c") (3 ∷ 4 ∷ [])
    ∷ move_op (codes "a") (codes "b")
    ∷ delete_dir_op (codes "b")
    ∷ delete_op (codes "c")
    ∷ []

-- the write of "c" breaks off behind the first byte, and "b" cannot be removed as a whole
abbrev faulty : Disk
faulty = record (disk_of []) {
  refuses = λ p. text_eq p (codes "/d/c") || text_eq p (codes "/d/b");
  torn = λ p. some 1;
}

abbrev env : Text → Text
env name =
    if text_eq name (codes "APP_ENV")
    then codes "production"
    else if text_eq name (codes "INTERNAL_EVENT_INGEST_TOKEN")
    then codes "secret"
    else []

abbrev no_config : Config
no_config = record {
  service_name = [];
  service_version = [];
  app_env = [];
  http_addr = [];
  ftp_public_host = [];
  ftp_passive_ports = [];
  internal_event_ingest_token = [];
  admin_password = [];
  provider_config_encryption_key = [];
  sqlite_path = [];
  generated_assets_dir = [];
  storage_root = [];
  internal_api_base_url = [];
  config_file_path = [];
  max_upload_size_bytes = pos 0;
  provider = record { base_url = []; api_key = []; model = [] };
  max_mind = record { account_id = []; license_key = []; db_path = [] };
}

abbrev no_file : Text → Option FileConfig
no_file path = none

abbrev the_config : Result ConfigError Config → Config
the_config (ok c) = c
the_config (err e) = no_config

abbrev config : Config
config = the_config (load_with_defaults no_file env [] no_config)

-- another asset has the path of the entry
abbrev other : Asset
other = record asset { id = codes "o" }

abbrev output : Output
output = record { mime_type = []; bytes = 7 ∷ []; previewable = false }

abbrev taken_world : World
taken_world = record {
  db = tables (job_in running none ∷ []) (other ∷ []) [] [];
  disk = disk_of ((job_file, 1 ∷ []) ∷ []);
}

abbrev new_file : StoredFile
new_file = record { path = job_path; size_bytes = 1; checksum = [] }

abbrev new_disk : Disk
new_disk = disk_of ((job_file, 7 ∷ []) ∷ [])

wrote :
    write (worker (λ n m. live)).checksum (some store) taken_world.disk job_path output.bytes
    ≡ ok (new_file, new_disk)
unfolding write resolve text_eq Storage.normalize_relative_path clean replace trim_space split join
    has_prefix mkdir_all write_file put_file path_join honeygen.Storage.Os.is_directory
wrote = refl

free : matching (has_key asset_key (codes "a")) taken_world.db.assets ≡ 0
unfolding matching text_eq
free = refl

taken : find (has_key asset_path job_path) taken_world.db.assets ≡ some other
unfolding find text_eq
taken = refl

resolved : resolve (some store) job_path ≡ ok (job_path, job_file)
unfolding resolve text_eq Storage.normalize_relative_path clean replace trim_space split join
    has_prefix path_join
resolved = refl

named : text_eq (trim_space job_path) [] ≡ false
unfolding trim_space text_eq
named = refl

deleted : Storage.delete (some store) new_disk job_path ≡ ok (disk_of [])
unfolding Storage.delete resolve text_eq Storage.normalize_relative_path clean replace trim_space
    split join has_prefix remove file_at path_join drop_files
deleted = refl

placed_taken_example :
    (w' : World) × (placed
        (worker (λ n m. live))
        entry
        0
        output
        no_summary
        taken_world
        (ok job_path)
      ≡ stop w')
    × (find (has_key asset_path job_path) w'.db.assets ≡ some other)
    × (read (some store) w'.disk job_path ≡ err (read_failed job_path not_exist))
placed_taken_example =
    placed_taken (worker (λ n m. live)) entry 0 output no_summary taken_world job_path job_file
      new_file new_disk (disk_of []) other refl wrote free taken resolved named deleted
