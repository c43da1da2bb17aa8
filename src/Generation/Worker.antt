-- ===== src/Generation/Worker.antt =====
-- generation/service.go, runJob: the goroutine that generates the assets of a job, one manifest entry
-- after the other. The provider (with the prompt and the cleaning of its answer) and the renderer are
-- what the environment answers; so is the state of the job's context at each place that looks at it.
use honeygen.Prelude.{
  ℕ, ◌+◌, Bool, true, false, Option, List, [], ◌∷◌, ◌++◌, if◌then◌else◌, length, Result, ok, err,
}
use honeygen.Text.{Text, text_eq, codes, trim_space}
use honeygen.Database.{Summary, Job, Asset, Db, Context, live, done}
use honeygen.Jobs.{JobError, update_summary, set_completed, set_failed, set_canceled}
use honeygen.Assets
use honeygen.Assets.{AssetError}
use honeygen.Storage
use honeygen.Storage.{StorageError, StoredFile, Filesystem, join_relative, write, torn_write}
use honeygen.Storage.Os.{Disk, Bytes}
use honeygen.Generation.{World, disk_or, append_log}

-- generation/planner.go
pub record ManifestEntry : Type 0 where
  pub path : Text
  pub category : Text
  pub title : Text
  pub rendered_type : Text
  pub source_type : Text
  pub prompt_hint : Text
  pub tags : List Text

pub record Output : Type 0 where
  pub mime_type : Text
  pub bytes : Bytes
  pub previewable : Bool

-- the places that look at the job's context, in their order
pub data Moment : Type 0 where
  at_head at_update after_generate after_render after_write after_persist at_end at_finish : Moment

-- What the worker is given. `ctx_at n` is the context where `n` entries are left behind this one.
pub record Worker : Type 0 where
  pub files : Option Filesystem
  pub checksum : Bytes → Text
  pub generate : ManifestEntry → Result Text Text
  pub render : ManifestEntry → Text → Result Text Output
  pub ctx_at : ℕ → Moment → Context
  pub asset_id : ℕ → Text
  pub storage_message : StorageError → Text
  pub asset_message : AssetError → Text
  pub job_id : Text
  pub world_model_id : Text

-- `isCanceled`
abbrev pub is_canceled : Context → Bool
is_canceled live = false
is_canceled done = true

-- an entry is done, with the summary so far, or the worker returns
pub data Step : Type 0 where
  next : Summary → World → Step
  stop : World → Step

module _ (k : Worker) (entry : ManifestEntry) (left : ℕ) where
  abbrev log_entry : ℕ → Text → Text → Summary → Summary
  log_entry now level message s = append_log now level message entry.path entry.category s

  -- the way out of a canceled job
  unfoldable pub give_up : Summary → World → Step
  give_up s w =
      stop (record w { db = (set_canceled live k.job_id s (codes "generation canceled") w.db).1 })

  -- the way out after an error
  unfoldable pub fail : Text → Text → Summary → World → Step
  fail prefix message s w = stop (record w {
    db =
        (set_failed live k.job_id (log_entry w.db.now (codes "error") (prefix ++ message) s) message
          w.db).1;
  })

  -- an error that a cancellation explains is none
  unfoldable pub fail_or_give_up : Moment → Text → Text → Summary → World → Step
  unfolding fail give_up
  fail_or_give_up moment prefix message s w =
      if is_canceled (k.ctx_at left moment) then give_up s w else fail prefix message s w

  -- behind the second `UpdateSummary`
  unfoldable pub counted : Summary → World → Result JobError Job → Step
  unfolding give_up
  counted s w (err e) = stop w
  counted s w (ok _) = if is_canceled (k.ctx_at left at_end) then give_up s w else next s w

  -- the summary with the asset counted
  abbrev pub with_asset : ℕ → Summary → Summary
  with_asset now s =
      log_entry now (codes "info") (codes "asset stored")
        (record s { asset_count = s.asset_count + 1 })

  -- `cleanupStoredFile`
  unfoldable pub cleanup : Text → Disk → Disk
  cleanup path disk =
      if text_eq (trim_space path) [] then disk else disk_or disk (Storage.delete k.files disk path)

  -- behind the creation of the record
  unfoldable pub persisted : StoredFile → Summary → Disk → Result AssetError Asset × Db → Step
  unfolding fail_or_give_up cleanup counted
  persisted file s disk (err e, db) =
      fail_or_give_up after_persist (codes "asset persistence failed: ") (k.asset_message e) s
        (record { db = db; disk = cleanup file.path disk })
  persisted file s disk (ok _, db) =
      let (answer, db') = update_summary live k.job_id (with_asset db.now s) db in
      counted (with_asset db.now s) (record { db = db'; disk = disk }) answer

  -- the record of the stored file
  unfoldable pub asset_of : Output → StoredFile → ℕ → Asset
  asset_of output file now = record {
    id = k.asset_id left;
    generation_job_id = k.job_id;
    world_model_id = k.world_model_id;
    source_type = entry.source_type;
    rendered_type = entry.rendered_type;
    path = file.path;
    mime_type = output.mime_type;
    size_bytes = file.size_bytes;
    tags = entry.tags ++ (codes "category:" ++ entry.category) ∷ [];
    previewable = output.previewable;
    checksum = file.checksum;
    created_at = now;
  }

  -- behind the write of the file; `torn` is the disk that a failed write leaves
  unfoldable pub stored :
      Output → Summary → World → Disk → Result StorageError (StoredFile × Disk) → Step
  unfolding fail_or_give_up persisted asset_of
  stored output s w torn (err e) =
      fail_or_give_up after_write (codes "storage write failed: ") (k.storage_message e) s
        (record w { disk = torn })
  stored output s w torn (ok (file, disk)) =
      persisted file s disk (Assets.create live (asset_of output file w.db.now) w.db)

  -- behind the choice of its path
  unfoldable pub placed : Output → Summary → World → Result StorageError Text → Step
  unfolding fail stored
  placed output s w (err e) = fail (codes "storage path invalid: ") (k.storage_message e) s w
  placed output s w (ok path) =
      stored output s w (torn_write k.files w.disk path output.bytes)
        (write k.checksum k.files w.disk path output.bytes)

  -- behind the rendering
  unfoldable pub rendered : Summary → World → Result Text Output → Step
  unfolding fail_or_give_up placed
  rendered s w (err message) = fail_or_give_up after_render (codes "rendering failed: ") message s w
  rendered s w (ok output) =
      placed output s w
        (join_relative (codes "generated" ∷ k.world_model_id ∷ k.job_id ∷ entry.path ∷ []))

  -- behind the provider's answer
  unfoldable pub generated : Summary → World → Result Text Text → Step
  unfolding fail_or_give_up rendered
  generated s w (err message) =
      fail_or_give_up after_generate (codes "provider generation failed: ") message s w
  generated s w (ok content) = rendered s w (k.render entry content)

  -- behind the first `UpdateSummary`
  unfoldable pub announced : Summary → World → Result JobError Job → Step
  unfolding generated
  announced s w (err e) = stop w
  announced s w (ok _) = generated s w (k.generate entry)

  -- the summary that the first `UpdateSummary` of a turn writes
  abbrev pub started_entry : ℕ → Summary → Summary
  started_entry now s = log_entry now (codes "info") (codes "generating asset") s

  -- one turn of the loop
  unfoldable pub run_entry : Summary → World → Step
  unfolding give_up announced
  run_entry s w =
      if is_canceled (k.ctx_at left at_head)
      then give_up s w
      else let s' = started_entry w.db.now s in
        let (answer, db) = update_summary (k.ctx_at left at_update) k.job_id s' w.db in
        announced s' (record w { db = db }) answer

-- behind the loop
unfoldable pub finish : Worker → Summary → World → World
finish k s w =
    if is_canceled (k.ctx_at 0 at_finish)
    then record w { db = (set_canceled live k.job_id s (codes "generation canceled") w.db).1 }
    else record w { db = (set_completed live k.job_id s w.db).1 }

-- the next turn, or the return
abbrev pub after_step : (Summary → World → World) → Step → World
after_step turns (stop w) = w
after_step turns (next s w) = turns s w

-- `runJob`
unfoldable pub run_job : Worker → List ManifestEntry → Summary → World → World
unfolding run_entry finish
run_job k [] s w = finish k s w
run_job k (entry ∷ rest) s w = after_step (run_job k rest) (run_entry k entry (length rest) s w)
