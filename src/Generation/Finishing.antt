-- ===== src/Generation/Finishing.antt =====
-- generation/service.go, runJob: the worker ends its job.
use honeygen.Prelude.{
  ℕ, suc, ◌+◌, ◌≡◌, refl, ap, ◌∙◌, ◌⊎◌, inl, inr, true, false, some, List, [], ◌∷◌, arith,
  Bool-cases, length, Result, ok, err,
}
use honeygen.Text.{Text, codes}
use honeygen.Text.Equality.{text_eq_refl}
use honeygen.Database.{completed, failed, canceled, Summary, Job, Asset, Db, Context, live, done}
use honeygen.Database.Table.{matching, has_key}
use honeygen.Jobs.{
  job_at, set_clause, set_canceled, set_failed, set_completed, active, update_summary,
}
use honeygen.Assets
use honeygen.Assets.{AssetError, job_of}
use honeygen.Storage.{StorageError, StoredFile, join_relative, write, torn_write}
use honeygen.Storage.Os.{Disk}
use honeygen.Generation.{World}
use honeygen.Generation.Worker.{
  ManifestEntry, Output, Moment, at_head, at_update, at_end, at_finish, after_persist, after_write,
  after_generate, after_render, Worker, is_canceled, Step, next, stop, give_up, fail,
  fail_or_give_up, counted, with_asset, started_entry, persisted, asset_of, stored, placed,
  rendered, generated, announced, run_entry, finish, after_step, run_job,
}
use honeygen.Generation.Steps.{
  IsBusy, assets_of, ends, assets-update, update_summary-ok, update_summary-IsBusy,
  assets-update_summary, create-IsBusy, assets_of-create,
}

-- how the worker leaves a job whose entries are not all done
pub record IsBroken (id : Text) (db : Db) : Type 0 where
  pub job : Job
  pub found : job_at db id ≡ some job
  pub failed_or_canceled : (job.status ≡ failed) ⊎ (job.status ≡ canceled)

-- what a turn of the loop makes of a running job
abbrev Turn : Text → Summary → World → Step → Type 0
Turn id s w (stop w') = IsBroken id w'.db
Turn id s w (next s' w') =
    IsBusy id w'.db
    × (s'.asset_count ≡ s.asset_count + 1)
    × (assets_of id w'.db ≡ assets_of id w.db + 1)

module _ (k : Worker) (entry : ManifestEntry) (left : ℕ) (s : Summary) (w : World) where
  give_up-IsBroken :
      (s' : Summary) (w' : World)
      → IsBusy k.job_id w'.db
      → Turn k.job_id s w (give_up k entry left s' w')
  unfolding give_up set_canceled set_clause
  give_up-IsBroken s' w' b = record {
    job = _;
    found = ends k.job_id canceled s' _ w'.db b;
    failed_or_canceled = inr refl;
  }

  fail-IsBroken :
      (prefix message : Text) (s' : Summary) (w' : World)
      → IsBusy k.job_id w'.db
      → Turn k.job_id s w (fail k entry left prefix message s' w')
  unfolding fail set_failed set_clause
  fail-IsBroken prefix message s' w' b = record {
    job = _;
    found = ends k.job_id failed _ message w'.db b;
    failed_or_canceled = inl refl;
  }

  either-IsBroken :
      (moment : Moment) (prefix message : Text) (s' : Summary) (w' : World)
      → IsBusy k.job_id w'.db
      → Turn k.job_id s w (fail_or_give_up k entry left moment prefix message s' w')
  unfolding fail_or_give_up
  either-IsBroken moment prefix message s' w' b =
      elim (Bool-cases (is_canceled (k.ctx_at left moment))) [
        | inl c ↦ rw c (give_up-IsBroken s' w' b)
        | inr c ↦ rw c (fail-IsBroken prefix message s' w' b)
      ]

  -- behind a stored asset
  counted-Turn :
      (s' : Summary) (w' : World) (j : Job)
      → IsBusy k.job_id w'.db
      → s'.asset_count ≡ s.asset_count + 1
      → assets_of k.job_id w'.db ≡ assets_of k.job_id w.db + 1
      → Turn k.job_id s w (counted k entry left s' w' (ok j))
  unfolding counted
  counted-Turn s' w' j b one more = elim (Bool-cases (is_canceled (k.ctx_at left at_end))) [
    | inl c ↦ rw c (give_up-IsBroken s' w' b)
    | inr c ↦ rw c (b, one, more)
  ]

  module _ (s' : Summary) (count : s'.asset_count ≡ s.asset_count) where
    persisted-Turn :
        (file : StoredFile) (disk : Disk) (r : Result AssetError Asset) (db : Db)
        → IsBusy k.job_id db
        → ((x : Asset) → r ≡ ok x → assets_of k.job_id db ≡ assets_of k.job_id w.db + 1)
        → Turn k.job_id s w (persisted k entry left file s' disk (r, db))
    unfolding persisted
    persisted-Turn file disk (err e) db b more =
        either-IsBroken after_persist (codes "asset persistence failed: ") (k.asset_message e) s' _
          b
    persisted-Turn file disk (ok x) db b more =
        let t = with_asset k entry left db.now s' in
        let (j, e) = update_summary-ok k.job_id t db b in
        rw e (
          counted-Turn t (record { db = (update_summary live k.job_id t db).1; disk = disk }) j
            (update_summary-IsBusy k.job_id t db b) (ap (λ n. n + 1) count)
            (ap (λ a. matching (has_key job_of k.job_id) a) (assets-update_summary k.job_id t db b)
              ∙ more x refl))

    module _ (w' : World) (b : IsBusy k.job_id w'.db)
        (same : assets_of k.job_id w'.db ≡ assets_of k.job_id w.db) where
      stored-Turn :
          (output : Output) (torn : Disk) (r : Result StorageError (StoredFile × Disk))
          → Turn k.job_id s w (stored k entry left output s' w' torn r)
      unfolding stored asset_of
      stored-Turn output torn (err e) =
          either-IsBroken after_write (codes "storage write failed: ") (k.storage_message e) s'
            (record w' { disk = torn }) b
      stored-Turn output torn (ok (file, disk)) =
          let a = asset_of k entry left output file w'.db.now in
          persisted-Turn file disk (Assets.create live a w'.db).0 (Assets.create live a w'.db).1
            (create-IsBusy k.job_id a w'.db b)
            (λ x e.
              assets_of-create k.job_id a w'.db x (text_eq_refl k.job_id) e ∙ ap (λ n. n + 1) same)

      placed-Turn :
          (output : Output) (r : Result StorageError Text)
          → Turn k.job_id s w (placed k entry left output s' w' r)
      unfolding placed
      placed-Turn output (err e) =
          fail-IsBroken (codes "storage path invalid: ") (k.storage_message e) s' w' b
      placed-Turn output (ok path) =
          stored-Turn output (torn_write k.files w'.disk path output.bytes)
            (write k.checksum k.files w'.disk path output.bytes)

      rendered-Turn : (r : Result Text Output) → Turn k.job_id s w (rendered k entry left s' w' r)
      unfolding rendered
      rendered-Turn (err e) = either-IsBroken after_render (codes "rendering failed: ") e s' w' b
      rendered-Turn (ok output) =
          placed-Turn output
            (join_relative (codes "generated" ∷ k.world_model_id ∷ k.job_id ∷ entry.path ∷ []))

      generated-Turn : (r : Result Text Text) → Turn k.job_id s w (generated k entry left s' w' r)
      unfolding generated
      generated-Turn (err e) =
          either-IsBroken after_generate (codes "provider generation failed: ") e s' w' b
      generated-Turn (ok content) = rendered-Turn (k.render entry content)

  -- one turn, where the context does not end between the check at its head and the statement after it
  run_entry-Turn :
      (k.ctx_at left at_head ≡ live → k.ctx_at left at_update ≡ live)
      → IsBusy k.job_id w.db
      → Turn k.job_id s w (run_entry k entry left s w)
  unfolding run_entry announced
  run_entry-Turn steady b = head (k.ctx_at left at_head) refl
    where
      head :
          (c : Context) → k.ctx_at left at_head ≡ c → Turn k.job_id s w (run_entry k entry left s w)
      head done e = rw e (give_up-IsBroken s w b)
      head live e =
          let t = started_entry k entry left w.db.now s in
          let (j, answer) = update_summary-ok k.job_id t w.db b in
          rw (e, steady e, answer)
            (generated-Turn t refl (record w { db = (update_summary live k.job_id t w.db).1 })
              (update_summary-IsBusy k.job_id t w.db b)
              (ap (λ a. matching (has_key job_of k.job_id) a)
                (assets-update_summary k.job_id t w.db b))
              (k.generate entry))

-- what the worker leaves: its job is broken off, or completed with as many assets counted and stored
-- as the manifest has entries
abbrev pub Finished : Text → ℕ → ℕ → Db → Db → Type 0
Finished id entries counted_before db db' =
    IsBroken id db'
    ⊎ ((j : Job) × (job_at db' id ≡ some j)
        × (j.status ≡ completed)
        × (j.summary.asset_count ≡ counted_before + entries)
        × (assets_of id db' ≡ assets_of id db + entries))

finish-Finished :
    (k : Worker) (s : Summary) (w : World)
    → IsBusy k.job_id w.db
    → Finished k.job_id 0 s.asset_count w.db (finish k s w).db
unfolding finish set_canceled set_completed set_clause
finish-Finished k s w b = elim (Bool-cases (is_canceled (k.ctx_at 0 at_finish))) [
  | inl c ↦ rw c (
      inl (record {
        job = _;
        found = ends k.job_id canceled s (codes "generation canceled") w.db b;
        failed_or_canceled = inr refl;
      }))
  | inr c ↦ rw c (
      inr (
        _,
        ends k.job_id completed s [] w.db b,
        refl,
        omega arith,
        ap (λ a. matching (has_key job_of k.job_id) a)
              (assets-update live k.job_id completed s [] false true active w.db)
            ∙ (omega arith),
      ))
]

-- the entries behind a turn
then-Finished :
    (k : Worker) (entries : ℕ) (s : Summary) (w : World) (turns : Summary → World → World)
    (t : Step)
    → Turn k.job_id s w t
    → ((s' : Summary) (w' : World)
        → IsBusy k.job_id w'.db
        → Finished k.job_id entries s'.asset_count w'.db (turns s' w').db)
    → Finished k.job_id (suc entries) s.asset_count w.db (after_step turns t).db
then-Finished k entries s w turns (stop w') broken rest = inl broken
then-Finished k entries s w turns (next s' w') (b', one, more) rest = elim (rest s' w' b') [
  | inl broken ↦ inl broken
  | inr (j, found, e, count, stored) ↦
      inr (j, found, e, ground (arith, count, one), ground (arith, stored, more))
]

-- A worker whose job runs, on a database that answers, ends the job: it fails or is canceled, or it
-- completes, and then its summary counts, and the asset table holds, one asset more for each entry of
-- the manifest. The context must not end between the check at the head of a turn and the statement
-- after it.
pub run_job-Finished :
    (k : Worker) (manifest : List ManifestEntry) (s : Summary) (w : World)
    → ((n : ℕ) → k.ctx_at n at_head ≡ live → k.ctx_at n at_update ≡ live)
    → IsBusy k.job_id w.db
    → Finished k.job_id (length manifest) s.asset_count w.db (run_job k manifest s w).db
unfolding run_job
run_job-Finished k [] s w steady b = finish-Finished k s w b
run_job-Finished k (entry ∷ rest) s w steady b =
    then-Finished k (length rest) s w (run_job k rest) (run_entry k entry (length rest) s w)
      (run_entry-Turn k entry (length rest) s w (steady (length rest)) b)
      (λ s' w' b'. run_job-Finished k rest s' w' steady b')
