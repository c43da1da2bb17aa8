-- ===== src/Generation/Conflict.antt =====
-- generation/service.go, runJob: an entry whose path another asset has taken.
use honeygen.Prelude.{
  ℕ, ◌≡◌, refl, ◌∙◌, inl, inr, true, false, some, [], ◌==◌, arith, Bool-cases, ok, err,
}
use honeygen.Text.{Text, text_eq, trim_space, codes}
use honeygen.Text.Equality.{text_eq_refl}
use honeygen.Database.{Summary, Asset, Db, live, canceled, failed}
use honeygen.Database.Table.{find, matching, has_key, matching-zero}
use honeygen.Assets
use honeygen.Assets.{asset_key, asset_path, path_conflict, AssetError}
use honeygen.Jobs.{active, set_canceled, set_failed}
use honeygen.Storage
use honeygen.Storage.{StorageError, StoredFile, resolve, write, read, read_failed}
use honeygen.Storage.Os.{Disk, not_exist}
use honeygen.Storage.Contents.{read-delete}
use honeygen.Generation.{World}
use honeygen.Generation.Steps.{assets-update}
use honeygen.Generation.Worker.{
  ManifestEntry, Output, Worker, Step, stop, is_canceled, after_persist, give_up, fail,
  fail_or_give_up, cleanup, persisted, asset_of, stored, placed,
}

module _ (k : Worker) (entry : ManifestEntry) (left : ℕ) where
  cleanup_lem :
      (path : Text) (d d' : Disk)
      → text_eq (trim_space path) [] ≡ false
      → Storage.delete k.files d path ≡ ok d'
      → cleanup k entry left path d ≡ d'
  unfolding cleanup
  cleanup_lem path d d' some_ deleted = rw (some_, deleted) refl

  -- a step that returns, and leaves the assets and the disk
  abbrev Returns : World → Step → Type 0
  Returns w step =
      (w' : World) × (step ≡ stop w') × (w'.db.assets ≡ w.db.assets) × (w'.disk ≡ w.disk)

  give_up-Returns : (s : Summary) (w : World) → Returns w (give_up k entry left s w)
  unfolding give_up set_canceled
  give_up-Returns s w = (
    _,
    refl,
    assets-update live k.job_id canceled s (codes "generation canceled") false true active w.db,
    refl,
  )

  fail-Returns :
      (prefix message : Text) (s : Summary) (w : World)
      → Returns w (fail k entry left prefix message s w)
  unfolding fail set_failed
  fail-Returns prefix message s w =
      (_, refl, assets-update live k.job_id failed _ message false true active w.db, refl)

  way_out :
      (prefix message : Text) (s : Summary) (w : World)
      → Returns w (fail_or_give_up k entry left after_persist prefix message s w)
  unfolding fail_or_give_up
  way_out prefix message s w = elim (Bool-cases (is_canceled (k.ctx_at left after_persist))) [
    | inl c ↦ rw c (give_up-Returns s w)
    | inr c ↦ rw c (fail-Returns prefix message s w)
  ]

  create_conflict :
      (a b : Asset) (db : Db)
      → db.down ≡ false
      → matching (has_key asset_key a.id) db.assets ≡ 0
      → find (has_key asset_path a.path) db.assets ≡ some b
      → Assets.create live a db ≡ (err path_conflict, db)
  unfolding Assets.create
  create_conflict a b db up free taken = rw (up, free, taken_row) refl
    where
      taken_row : (matching (has_key asset_path a.path) db.assets == 0) ≡ false
      taken_row = ground (arith, matching-zero (has_key asset_path a.path) db.assets)

  -- Where another asset has the path of an entry, the worker overwrites the file, is refused the
  -- record, and then deletes the file: the record of the other asset stays, and its path reads as
  -- missing. The database answers, the write and the deletion succeed, and the new id is free.
  pub placed_taken :
      (output : Output) (s : Summary) (w : World) (path full : Text) (file : StoredFile)
      (d d' : Disk) (other : Asset)
      → w.db.down ≡ false
      → write k.checksum k.files w.disk path output.bytes ≡ ok (file, d)
      → matching (has_key asset_key (k.asset_id left)) w.db.assets ≡ 0
      → find (has_key asset_path file.path) w.db.assets ≡ some other
      → resolve k.files file.path ≡ ok (file.path, full)
      → text_eq (trim_space file.path) [] ≡ false
      → Storage.delete k.files d file.path ≡ ok d'
      → (w' : World) × (placed k entry left output s w (ok path) ≡ stop w')
        × (find (has_key asset_path file.path) w'.db.assets ≡ some other)
        × (read k.files w'.disk file.path ≡ err (read_failed file.path not_exist))
  unfolding placed stored persisted asset_of
  placed_taken output s w path full file d d' other up wrote free taken at some_ deleted =
      let (w', e, same, disk) =
        way_out (codes "asset persistence failed: ") (k.asset_message path_conflict) s
          (record { db = w.db; disk = cleanup k entry left file.path d }) in
      (
        w',
        rw
            (
              wrote,
              create_conflict (asset_of k entry left output file w.db.now) other w.db up free taken,
            )
            e,
        rw same taken,
        rw (disk, cleanup_lem file.path d d' some_ deleted)
            (read-delete k.files d d' file.path file.path full file.path file.path full at deleted
                at
              ∙ (rw (text_eq_refl file.path) refl)),
      )
