-- ===== src/Assets/References.antt =====
-- The links between the tables: unique keys and foreign keys of jobs, assets and events.
use honeygen.Prelude.{
  ◌≤◌, ◌<◌, ◌≡◌, refl, inl, inr, Bool, false, not, ◌||◌, Option, none, some, List, [], ◌∷◌, ◌++◌,
  arith, ◌==◌, if◌then◌else◌, Bool-cases, All, All-append, All-imp,
}
use native.Mathlib.Nat.{le_trans}
use honeygen.Text.{Text, text_eq}
use honeygen.Text.Equality.{text_eq_iff}
use honeygen.Database.{Asset, Event, Job, Db, Context, fails}
use honeygen.Database.Table.{
  delete, matching, has_key, matching-append, matching-delete, matching-delete-le,
  matching-delete_ne, All-update, All-delete, All-unmatched,
}
use honeygen.Assets.{
  asset_key, asset_path, job_of, create, stored_row, delete_asset, delete_by_job_id,
  clear_references, refers_to, cleared, is_asset_of, has_owner,
}
use honeygen.Jobs.{job_key, delete_job, referenced}

-- an event refers to no asset, or to one that is there
abbrev pub HasAsset : List Asset → Option Text → Type 0
HasAsset assets none = Unit
HasAsset assets (some k) = 0 < matching (has_key asset_key k) assets

-- No two assets share an id or a path, every asset's job is there, and so is the asset of every event
-- that names one.
pub record IsLinked (db : Db) : Type 0 where
  pub one_id : (k : Text) → matching (has_key asset_key k) db.assets ≤ 1
  pub one_path : (p : Text) → matching (has_key asset_path p) db.assets ≤ 1
  pub job_there : All (λ a. 0 < matching (has_key job_key a.generation_job_id) db.jobs) db.assets
  pub asset_there : All (λ e. HasAsset db.assets e.asset_id) db.events

one_more :
    (key : Asset → Text) (a : Asset) (assets : List Asset) (k : Text)
    → matching (has_key key (key a)) assets ≡ 0
    → matching (has_key key k) assets ≤ 1
    → matching (has_key key k) (assets ++ a ∷ []) ≤ 1
one_more key a assets k free one =
    rw (matching-append (has_key key k) assets (a ∷ []))
      (unfold matching in ground (arith, text_eq_iff (key a) k))

HasAsset-append :
    (assets : List Asset) (a : Asset) (o : Option Text)
    → HasAsset assets o
    → HasAsset (assets ++ a ∷ []) o
HasAsset-append assets a none h = tt
HasAsset-append assets a (some k) h =
    omega (arith, matching-append (has_key asset_key k) assets (a ∷ []))

-- `Create` of an asset keeps the links between the tables, on every branch: assets have unique ids
-- and paths, the job of each asset is there, and so is the asset that an event names.
pub create-IsLinked :
    (ctx : Context) (a : Asset) (db : Db) → IsLinked db → IsLinked (create ctx a db).1
unfolding create
create-IsLinked ctx a db l =
    elim (Bool-cases (fails ctx db || not (matching (has_key asset_key a.id) db.assets == 0))) [
      | inl bad ↦ rw bad l
      | inr up ↦ elim (Bool-cases (not (matching (has_key asset_path a.path) db.assets == 0))) [
        | inl taken ↦ rw (up, taken) l
        | inr free ↦ elim (Bool-cases (has_owner a db)) [
          | inl owner ↦
              rw (up, free, owner)
                (record {
                  one_id = λ k.
                      one_more asset_key (stored_row a db) db.assets k (ground arith) (l.one_id k);
                  one_path = λ p.
                      one_more asset_path (stored_row a db) db.assets p (ground arith)
                        (l.one_path p);
                  job_there =
                      All-append (λ a. 0 < matching (has_key job_key a.generation_job_id) db.jobs)
                        db.assets (stored_row a db ∷ []) l.job_there
                        (unfold has_owner in ground arith, tt);
                  asset_there =
                      All-imp (λ e. HasAsset db.assets e.asset_id)
                        (λ e. HasAsset (db.assets ++ stored_row a db ∷ []) e.asset_id) db.events
                        (λ e. HasAsset-append db.assets (stored_row a db) e.asset_id) l.asset_there;
                })
          | inr orphan ↦ rw (up, free, orphan) l
        ]
      ]
    ]

-- assets go, and with them the references to them
module _ (db : Db) (gone : Text → Bool) (q : Asset → Bool)
    (kept : (k : Text)
      → gone k ≡ false
      → matching (has_key asset_key k) (delete q db.assets)
        ≡ matching (has_key asset_key k) db.assets) where
  cleared-HasAsset :
      (e : Event)
      → HasAsset db.assets e.asset_id
      → HasAsset (delete q db.assets) (if refers_to gone e then cleared e else e).asset_id
  cleared-HasAsset e h = go e.asset_id refl h
    where
      go :
          (o : Option Text)
          → e.asset_id ≡ o
          → HasAsset db.assets o
          → HasAsset (delete q db.assets) (if refers_to gone e then cleared e else e).asset_id
      go none p x = rw p tt
      go (some k) p x = elim (Bool-cases (gone k)) [
        | inl g ↦ rw (p, g) tt
        | inr g ↦ rw (p, g) (rw (kept k g) x)
      ]

  remove-IsLinked :
      IsLinked db
      → IsLinked
          (record db { events = clear_references gone db.events; assets = delete q db.assets })
  unfolding clear_references
  remove-IsLinked l = record {
    one_id = λ k. le_trans (matching-delete-le (has_key asset_key k) q db.assets) (l.one_id k);
    one_path = λ p. le_trans (matching-delete-le (has_key asset_path p) q db.assets) (l.one_path p);
    job_there =
        All-delete (λ a. 0 < matching (has_key job_key a.generation_job_id) db.jobs)
          (λ a. 0 < matching (has_key job_key a.generation_job_id) db.jobs) q db.assets (λ a h _. h)
          l.job_there;
    asset_there =
        All-update (λ e. HasAsset db.assets e.asset_id)
          (λ e. HasAsset (delete q db.assets) e.asset_id) (refers_to gone) cleared db.events
          cleared-HasAsset l.asset_there;
  }

-- `Delete` of an asset keeps the links between the tables, on every branch.
pub delete_asset-IsLinked :
    (ctx : Context) (id : Text) (db : Db) → IsLinked db → IsLinked (delete_asset ctx id db).1
unfolding delete_asset
delete_asset-IsLinked ctx id db l = elim (Bool-cases (fails ctx db)) [
  | inl down ↦ rw down l
  | inr up ↦ elim (Bool-cases (matching (has_key asset_key id) db.assets == 0)) [
    | inl missing ↦ rw (up, missing) l
    | inr there ↦
        rw (up, there)
          (remove-IsLinked db (λ k. text_eq k id) (has_key asset_key id)
            (λ k ne. matching-delete_ne asset_key k id db.assets ne) l)
  ]
]

-- `DeleteByJobID` keeps the links between the tables, on every branch.
pub delete_by_job_id-IsLinked :
    (ctx : Context) (job_id : Text) (db : Db)
    → IsLinked db
    → IsLinked (delete_by_job_id ctx job_id db).1
unfolding delete_by_job_id
delete_by_job_id-IsLinked ctx job_id db l = elim (Bool-cases (fails ctx db)) [
  | inl down ↦ rw down l
  | inr up ↦
      rw up (remove-IsLinked db (is_asset_of job_id db.assets) (has_key job_of job_id) others l)
]
  where
    others :
        (k : Text)
        → is_asset_of job_id db.assets k ≡ false
        → matching (has_key asset_key k) (delete (has_key job_of job_id) db.assets)
          ≡ matching (has_key asset_key k) db.assets
    others k ne =
        ground (arith, matching-delete (has_key asset_key k) (has_key job_of job_id) db.assets)

-- deleting a job that no asset names leaves every asset its job
job_kept :
    (jobs : List Job) (id : Text) (assets : List Asset)
    → matching (has_key job_of id) assets ≡ 0
    → All (λ a. 0 < matching (has_key job_key a.generation_job_id) jobs) assets
    → All
        (λ a. 0 < matching (has_key job_key a.generation_job_id) (delete (has_key job_key id) jobs))
        assets
job_kept jobs id [] free h = tt
job_kept jobs id (a ∷ assets) free (ha, h) =
    let (other, rest) = All-unmatched (has_key job_of id) (a ∷ assets) free in
    (
      rw (matching-delete_ne job_key a.generation_job_id id jobs other) ha,
      job_kept jobs id assets (unfold matching in ground arith) h,
    )

-- Deleting a job from its table keeps the links between the tables, on every branch.
pub delete_job-IsLinked :
    (ctx : Context) (id : Text) (db : Db) → IsLinked db → IsLinked (delete_job ctx id db).1
unfolding delete_job
delete_job-IsLinked ctx id db l = elim (Bool-cases (fails ctx db)) [
  | inl down ↦ rw down l
  | inr up ↦ elim (Bool-cases (matching (has_key job_key id) db.jobs == 0)) [
    | inl missing ↦ rw (up, missing) l
    | inr there ↦ elim (Bool-cases (referenced id db)) [
      | inl used ↦ rw (up, there, used) l
      | inr free ↦
          rw (up, there, free)
            (record {
              one_id = l.one_id;
              one_path = l.one_path;
              job_there =
                  job_kept db.jobs id db.assets (unfold referenced in ground arith) l.job_there;
              asset_there = l.asset_there;
            })
    ]
  ]
]
