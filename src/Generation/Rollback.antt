-- ===== src/Generation/Rollback.antt =====
-- generation/service.go, DeleteAsset: the file and the record of an asset go together, or stay.
use honeygen.Prelude.{
  ◌≡◌, refl, sym, ap, ◌∙◌, ◌≢◌, inl, inr, true, false, ◌||◌, Option, none, arith, ◌==◌,
  if◌then◌else◌, Bool-cases, Result, ok, err,
}
use honeygen.Text.{Text, text_eq}
use honeygen.Text.Equality.{text_eq_iff, text_eq_refl, text_eq_comm}
use honeygen.Database.{completed, Job, Asset, Db, live, fails}
use honeygen.Database.Table.{find, matching, has_key, find-delete}
use honeygen.Jobs
use honeygen.Jobs.{status_eq}
use honeygen.Assets
use honeygen.Assets.{
  AssetError, asset_not_found, path_conflict, out_of_fuel, asset_db_failed, asset_key, delete_asset,
}
use honeygen.Storage
use honeygen.Storage.{StorageError, Filesystem, resolve, move}
use honeygen.Storage.Os.{Disk, is_directory, file_at}
use honeygen.Storage.Contents.{same_path}
use honeygen.Storage.Moves.{moved, file_at-move, is_directory-move, file_at-delete}
use honeygen.Generation.{
  World, Calls, asset_error, staged_path, row_deleted, restore_record, record_restored,
  file_restored, file_deleted, file_staged, stage_file, delete_of_job, delete_asset_found,
  remove_asset,
}

-- a deletion that restores the record fails
module _ (f : Option Filesystem) (a : Asset) (staged : Text) (e : StorageError) (w' : World) where
  file_restored-ne-ok :
      (disk : Disk) (db : Db) (r : Result StorageError Disk)
      → file_restored a e disk db r ≢ (ok tt, w')
  unfolding file_restored
  file_restored-ne-ok disk db (ok d) h = cc
  file_restored-ne-ok disk db (err x) h = cc

  record_restored-ne-ok :
      (disk : Disk) (r : Result AssetError Asset) (db : Db)
      → record_restored f a staged e disk (r, db) ≢ (ok tt, w')
  unfolding record_restored
  record_restored-ne-ok disk (ok x) db h = file_restored-ne-ok disk db (move f disk staged a.path) h
  record_restored-ne-ok disk (err x) db h = cc

  restore_record-ne-ok :
      (w : World) (r : Result AssetError Asset) → restore_record f a staged e w r ≢ (ok tt, w')
  unfolding restore_record
  restore_record-ne-ok w (ok x) h = cc
  restore_record-ne-ok w (err asset_not_found) h =
      record_restored-ne-ok w.disk (Assets.create live a w.db).0 (Assets.create live a w.db).1 h
  restore_record-ne-ok w (err path_conflict) h = cc
  restore_record-ne-ok w (err asset_db_failed) h = cc
  restore_record-ne-ok w (err out_of_fuel) h = cc

-- an asset of a completed job, its file at `source_at`, and the place where the file waits
module _ (f : Option Filesystem) (calls : Calls) (id : Text) (w : World) (asset : Asset) (job : Job)
    (staged source source_at target target_at : Text) (disk : Disk)
    (read : Assets.get calls.at_get id w.db ≡ ok asset)
    (read_job : Jobs.get calls.at_get_job asset.generation_job_id w.db ≡ ok job)
    (over : status_eq job.status completed ≡ true) (staging : staged_path asset ≡ ok staged)
    (from : resolve f asset.path ≡ ok (source, source_at))
    (to : resolve f staged ≡ ok (target, target_at)) (apart : text_eq source target ≡ false)
    (plain : is_directory w.disk source_at ≡ false)
    (move_ok : move f w.disk asset.path staged ≡ ok disk) where
  -- the deletion comes down to what follows the staging
  staged_lem :
      remove_asset f calls id w
      ≡ row_deleted f asset staged disk (delete_asset calls.at_delete asset.id w.db)
  unfolding remove_asset delete_asset_found delete_of_job stage_file file_staged
  staged_lem = rw (read, read_job, over, staging, move_ok) refl

  same_places : text_eq source_at target_at ≡ false
  same_places = same_path f asset.path staged source target source_at target_at from to ∙ apart

  file_staged_at :
      (p : Text)
      → file_at disk p
        ≡ moved
            (file_at w.disk source_at)
            (text_eq target_at p)
            (text_eq source_at p)
            (file_at w.disk p)
  file_staged_at p =
      file_at-move f w.disk disk asset.path staged source source_at target target_at p from to apart
        plain move_ok

  -- For an asset of a completed job whose path is no directory and whose file was moved to the place where
  -- it waits: where the database fails the deletion of the record, that place was free before, and the move back
  -- succeeds, DeleteAsset reports the database's error and nothing has changed, neither the
  -- database nor the file at any path.
  pub remove_asset_rolled_back :
      (back : Disk)
      → fails calls.at_delete w.db ≡ true
      → file_at w.disk target_at ≡ none
      → is_directory w.disk target_at ≡ false
      → move f disk staged asset.path ≡ ok back
      → let (answer, w') = remove_asset f calls id w in
        (answer ≡ err (asset_error asset_db_failed))
        × (w'.db ≡ w.db)
        × ((p : Text) → file_at w'.disk p ≡ file_at w.disk p)
  unfolding row_deleted delete_asset
  remove_asset_rolled_back back down free open_ undo =
      rw (staged_lem, down, undo)
        (
          refl,
          refl,
          λ p. ground (
            arith,
            file_staged_at p,
            file_staged_at target_at,
            file_at-move f disk back staged asset.path target target_at source source_at p to from
                (text_eq_comm target source ∙ apart) still undo,
            text_eq_iff source_at p,
            text_eq_iff target_at p,
            text_eq_iff source_at target_at,
            text_eq_refl target_at,
            same_places,
          ),
        )
    where
      still : is_directory disk target_at ≡ false
      still =
          is_directory-move f w.disk disk asset.path staged source source_at target target_at from
            to apart plain open_ move_ok

  -- For an asset of a completed job whose path is no directory and whose file was moved to the place where
  -- it waits: where DeleteAsset succeeds, the record is gone, there is no file at the asset's path or at that
  -- place, and every other file is as before.
  pub remove_asset_ok :
      (w' : World)
      → remove_asset f calls id w ≡ (ok tt, w')
      → (find (has_key asset_key asset.id) w'.db.assets ≡ none)
        × ((p : Text)
            → file_at w'.disk p
              ≡ (if text_eq source_at p || text_eq target_at p then none else file_at w.disk p))
  unfolding row_deleted delete_asset
  remove_asset_ok w' h = row (rw staged_lem at h)
    where
      files :
          (db : Db) (r : Result StorageError Disk)
          → find (has_key asset_key asset.id) db.assets ≡ none
          → Storage.delete f disk staged ≡ r
          → file_deleted f asset staged (record { db = db; disk = disk }) r ≡ (ok tt, w')
          → (find (has_key asset_key asset.id) w'.db.assets ≡ none)
            × ((p : Text)
                → file_at w'.disk p
                  ≡ (if text_eq source_at p || text_eq target_at p then none else file_at w.disk p))
      files db (err e) no_row eq k = absurd (
          restore_record-ne-ok f asset staged e w' (record { db = db; disk = disk }) _
            (unfold file_deleted in k))
      files db (ok disk') no_row eq k =
          let same : w' ≡ record { db = db; disk = disk' } =
            ap (λ r. r.1) (sym (unfold file_deleted in k)) in
          (
            rw same no_row,
            λ p. rw same (
                ground (
                  arith,
                  file_at-delete f disk disk' staged target target_at p to eq,
                  file_staged_at p,
                  text_eq_iff source_at p,
                  text_eq_iff target_at p,
                )),
          )

      row :
          row_deleted f asset staged disk (delete_asset calls.at_delete asset.id w.db) ≡ (ok tt, w')
          → (find (has_key asset_key asset.id) w'.db.assets ≡ none)
            × ((p : Text)
                → file_at w'.disk p
                  ≡ (if text_eq source_at p || text_eq target_at p then none else file_at w.disk p))
      row k = elim (Bool-cases (fails calls.at_delete w.db)) [
        | inl down ↦ cc (rw down at k)
        | inr up ↦ elim (Bool-cases (matching (has_key asset_key asset.id) w.db.assets == 0)) [
          | inl missing ↦ cc (rw (up, missing) at k)
          | inr there ↦
              files _ (Storage.delete f disk staged)
                (find-delete asset_key asset.id asset.id w.db.assets
                  ∙ (rw (text_eq_refl asset.id) refl))
                refl (rw (up, there) at k)
        ]
      ]
