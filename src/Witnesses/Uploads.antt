-- ===== src/Witnesses/Uploads.antt =====
-- A file uploaded to a completed job.
use honeygen.Prelude.{◌≡◌, refl, true, some, [], ◌∷◌, ok, arith}
use honeygen.Text.{codes, text_eq, has_prefix, join, replace, split, trim_prefix, trim_space}
use honeygen.Database.{completed, Asset, live}
use honeygen.Database.Table.{matching, find}
use honeygen.Jobs
use honeygen.Jobs.{status_eq}
use honeygen.Assets.{create, find_by_path}
use honeygen.Path.{clean, is_abs, path_join, path_segments, render}
use honeygen.Storage.{join_relative, normalize_relative_path, write, resolve, path_dir}
use honeygen.Storage.Os.{mkdir_all, put_file, write_file, drop_files, is_directory}
use honeygen.Generation.{World}
use honeygen.AssetApi.{asset_content_id_from_path, content_handler, is_previewable}
use honeygen.AssetApi.Upload.{
  Form, FormFile, Uploader, UploadCalls, upload_handler, upload_extension, upload_mime_type,
  upload_rendered_type, with_file, recorded,
}
use honeygen.AssetApi.Displayed.{content_handler-upload_handler}
use honeygen.Witnesses.{store, disk_of, job_file, job_in, asset, event, tables}

abbrev uploader : Uploader
uploader = record {
  to_lower = λ t. t;
  type_by_extension = λ ext. codes "text/plain";
  detect_content_type = λ bytes. codes "text/plain";
  checksum = λ bytes. bytes;
  asset_id = codes "b";
  files = some store;
}

abbrev calls : UploadCalls
calls = record {
  at_job = live;
  at_find = live;
  at_create = live;
  at_read_back = live;
  at_rollback = live;
}

abbrev notes : FormFile
notes = record { filename = codes "notes.txt"; content_type = []; content = some (5 ∷ 6 ∷ []) }

abbrev form : Form
form = record {
  generation_job_id = codes " j ";
  target_path = codes "notes.txt";
  file = some notes;
}

abbrev world : World
world = record {
  db = tables (job_in completed (some 3) ∷ []) (asset ∷ []) (event ∷ []) [];
  disk = disk_of ((job_file, 7 ∷ 8 ∷ []) ∷ []);
}

-- the file is opened, and one byte is written
abbrev full_world : World
full_world = record world {
  disk = record world.disk {
    refuses = λ p. text_eq p (codes "/d/generated/w/j/notes.txt");
    torn = λ p. some 1;
  };
}

abbrev notes_asset : Asset
notes_asset = record {
  id = codes "b";
  generation_job_id = codes "j";
  world_model_id = codes "w";
  source_type = codes "upload";
  rendered_type = codes "text";
  path = codes "generated/w/j/notes.txt";
  mime_type = codes "text/plain";
  size_bytes = 2;
  tags = codes "source:upload" ∷ [];
  previewable = true;
  checksum = 5 ∷ 6 ∷ [];
  created_at = world.db.now;
}

abbrev later : World
later = record {
  db = record world.db { assets = asset ∷ notes_asset ∷ [] };
  disk = disk_of ((codes "/d/generated/w/j/notes.txt", 5 ∷ 6 ∷ []) ∷ (job_file, 7 ∷ 8 ∷ []) ∷ []);
}

uploaded : upload_handler uploader calls (ok form) world ≡ (ok notes_asset, later)
unfolding upload_handler write upload_extension upload_mime_type upload_rendered_type with_file
    recorded is_previewable Jobs.get create matching find find_by_path status_eq join_relative
    normalize_relative_path clean replace split join has_prefix path_join is_abs path_segments
    render text_eq trim_space mkdir_all write_file put_file drop_files resolve path_dir is_directory
uploaded = refl

asked : asset_content_id_from_path (codes "/api/assets/b/content") ≡ some (codes "b")
unfolding asset_content_id_from_path has_prefix text_eq trim_space trim_prefix
asked = refl

content_handler-upload_handler_example :
    content_handler uploader.to_lower (some store) live (codes "/api/assets/b/content") later
    ≡ ok (notes_asset, some (5 ∷ 6 ∷ []))
unfolding matching text_eq
content_handler-upload_handler_example =
    content_handler-upload_handler uploader calls form world later notes_asset
      (codes "/api/assets/b/content") notes (5 ∷ 6 ∷ []) (omega arith, tt) refl refl uploaded asked
