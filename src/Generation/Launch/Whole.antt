-- ===== src/Generation/Launch/Whole.antt =====
-- generation/service.go: a run from the stored document to the end of the worker.
use mathlib.Core.Path.{subst}
use honeygen.Prelude.{
  ℕ, ◌+◌, ◌*◌, ◌≤◌, ◌<◌, ◌≡◌, ◌≢◌, refl, ap, inl, inr, true, false, some, List, [], ◌∷◌, arith,
  length, ok,
}
use honeygen.Text.{Text, codes, text_eq, trim_space}
use honeygen.Json.{Members, object, members, int_limit, read_field}
use honeygen.Database.{StoredWorldModel, Db, live}
use honeygen.Database.Table.{matching, has_key}
use honeygen.WorldModels.{WorldModel, GenerationSettings, no_settings, read_settings}
use honeygen.WorldModels.Payload.{validate_payload}
use honeygen.WorldModels.Rows
use honeygen.WorldModels.Decoding.{IsUnambiguous, decode_world_model_accepted}
use honeygen.Jobs.{job_key}
use honeygen.Storage.Os.{Disk}
use honeygen.Generation.Worker.{ManifestEntry, Worker, at_head, at_update, run_job}
use honeygen.Generation.Steps.{IsBusy}
use honeygen.Generation.Finishing.{Finished, run_job-Finished}
use honeygen.Generation.Planner.{IsDocumented, count_variance, is_incomplete, plan}
use honeygen.Generation.Planner.Counts.{plan-length}
use honeygen.Generation.Planner.Paths.{AllStored, plan-Stores}
use honeygen.Generation.Launch.{Service, Launched, run}
use honeygen.Generation.Launch.Started.{all_live, IsLaunched, run_lem}

-- a stored document that was accepted, on a database that answers
pub record IsRunnable (k : Service) (world_model_id : Text) (db : Db) : Type 0 where
  pub up : db.down ≡ false
  pub free : matching (has_key job_key k.job_id) db.jobs ≡ 0
  pub named : text_eq (trim_space world_model_id) [] ≡ false
  pub provider : k.has_provider ≡ true
  pub row : StoredWorldModel
  pub stored : Rows.get live world_model_id db ≡ ok row
  pub document : Members
  pub parsed : k.codec.parse row.json_blob ≡ some (object document)
  pub name : Text
  pub description : Text
  pub accepted : validate_payload k.codec row.json_blob ≡ ok (name, description)
  pub plain : IsUnambiguous k.codec (members document)
  pub settings : GenerationSettings
  pub set :
      read_field k.codec
        (read_settings k.codec)
        (codes "generation_settings")
        (members document)
        no_settings
      ≡ some settings
  pub small : count_variance settings.file_count_variance * 2 + 1 < int_limit

-- how a worker on the job ends, whatever it meets
abbrev pub Ends : Service → Launched → Db → Type 0
Ends k l db =
    (w : Worker) (disk : Disk)
    → w.job_id ≡ k.job_id
    → ((n : ℕ) → w.ctx_at n at_head ≡ live → w.ctx_at n at_update ≡ live)
    → Finished k.job_id (length l.manifest) 0 db
        (run_job w l.manifest l.summary (record { db = db; disk = disk })).db

ends_lem :
    (k : Service) (manifest : List ManifestEntry) (before : Db) (l : Launched) (db : Db)
    → IsLaunched k manifest before l db
    → Ends k l db
ends_lem k manifest before l db i w disk same steady = rw (← same) (
    subst
      (λ n.
        Finished w.job_id (length l.manifest) n db
          (run_job w l.manifest l.summary (record { db = db; disk = disk })).db)
      (ap (λ s. s.asset_count) i.summary)
      (run_job-Finished w l.manifest l.summary (record { db = db; disk = disk }) steady
        (rw same i.busy)))

planned_lem :
    (k : Service) (world_model_id : Text) (db : Db) (m : WorldModel)
    → IsDocumented k.packages
    → text_eq (trim_space world_model_id) [] ≡ false
    → (m.departments ≢ []) × (m.employees ≢ []) × (m.projects ≢ [])
    → count_variance m.generation_settings.file_count_variance * 2 + 1 < int_limit
    → (es : List ManifestEntry) × (plan k.packages world_model_id m ≡ ok es) × (13 ≤ length es)
planned_lem k id db m doc named (d, e, p) small =
    elim (plan-length k.packages doc id m named complete) [
      | inl (big, panic) ↦ absurd (omega arith)
      | inr (es, planned, least, most) ↦
          (es, planned, omega (arith, some_length m.departments d, some_length m.employees e))
    ]
  where
    some_length : {A : Type 0} (xs : List A) → xs ≢ [] → 1 ≤ length xs
    some_length [] h = absurd (h refl)
    some_length (x ∷ xs) h = omega arith

    complete : is_incomplete k.packages m ≡ false
    complete =
        ground
          (arith, some_length m.departments d, some_length m.employees e, some_length m.projects p)

-- A request for a stored world model that `validatePayload` accepted is answered with a job, on a
-- database that answers: the document has one member at most for each required part, its settings
-- decode and its variance is such that `Intn` is given a positive 64-bit integer, and no job has the
-- new id. The job then runs, the manifest has thirteen entries at least, the store takes the path of each, and a
-- worker that is started with it ends the job, as long as its context does not end between the check
-- at the head of a turn and the statement after it.
pub run_accepted :
    (k : Service) (world_model_id : Text) (db : Db)
    → IsDocumented k.packages
    → IsRunnable k world_model_id db
    → (l : Launched) × (db' : Db) × (run k all_live world_model_id db ≡ (ok l, db'))
      × IsBusy k.job_id db'
      × (13 ≤ length l.manifest)
      × AllStored l.manifest
      × Ends k l db'
run_accepted k id db doc r =
    let (m, decodes, d, e, p, s) =
      decode_world_model_accepted k.codec r.row.json_blob r.name r.description r.document r.settings
        r.parsed r.accepted r.plain r.set in
    let (es, planned, many) =
      planned_lem k id db m doc r.named (d, e, p)
        (rw (ap (λ g. g.file_count_variance) s) r.small) in
    let (l, db', answer, i) = run_lem k id db es (record {
      up = r.up;
      free = r.free;
      named = r.named;
      provider = r.provider;
      row = r.row;
      stored = r.stored;
      model = m;
      decodes = decodes;
      planned = planned;
    }) in
    (
      l,
      db',
      answer,
      i.busy,
      rw i.same_manifest many,
      rw i.same_manifest (plan-Stores k.packages doc id m es planned),
      ends_lem k es db l db' i,
    )
