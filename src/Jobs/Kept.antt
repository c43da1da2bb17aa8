-- ===== src/Jobs/Kept.antt =====
-- The invariant of the job table is kept by every call of the store, and so by every run of calls.
use mathlib.Core.Path.{subst}
use native.Mathlib.Nat.{le_trans}
use honeygen.Prelude.{
  ℕ, ◌≤◌, ◌≡◌, refl, ◌∙◌, inl, inr, not, ◌||◌, some, List, [], ◌∷◌, ◌++◌, arith, ◌==◌, Bool-cases,
  Option-cases,
}
use honeygen.Text.{Text}
use honeygen.Text.Equality.{text_eq_iff}
use honeygen.Database.{completed, failed, canceled, Job, Db, Context, fails}
use honeygen.Database.Table.{
  find, delete, matching, has_key, matching-append, matching-delete-le, find-append, find-delete,
  found_alone,
}
use honeygen.Jobs.{
  job_key, can_delete, create, set_completed, set_failed, set_canceled, delete_job, referenced,
  can_insert, JobOp, create_op, set_running_op, update_summary_op, set_completed_op, set_failed_op,
  set_canceled_op, delete_op, apply, apply_all, new_job,
}
use honeygen.Jobs.Lifecycle.{
  IsTimed, IsStore, set_running-IsStore, ended-IsStore, update_summary-IsStore,
}

-- taking rows away keeps the invariant
rows_gone-IsStore :
    (id : Text) (db : Db)
    → IsStore db
    → IsStore (record db { jobs = delete (has_key job_key id) db.jobs })
rows_gone-IsStore id db s = record {
  one_row = λ k.
      le_trans (matching-delete-le (has_key job_key k) (has_key job_key id) db.jobs) (s.one_row k);
  timed = λ k j h. s.timed k j (ground (arith, find-delete job_key id k db.jobs));
}

delete_job-IsStore :
    (ctx : Context) (id : Text) (db : Db) → IsStore db → IsStore (delete_job ctx id db).1
unfolding delete_job
delete_job-IsStore ctx id db s = elim (Bool-cases (fails ctx db)) [
  | inl down ↦ rw down s
  | inr up ↦ elim (Bool-cases (matching (has_key job_key id) db.jobs == 0)) [
    | inl missing ↦ rw (up, missing) s
    | inr there ↦ elim (Bool-cases (referenced id db)) [
      | inl used ↦ rw (up, there, used) s
      | inr free ↦ rw (up, there, free) (rows_gone-IsStore id db s)
    ]
  ]
]

new_job-IsTimed : (id world_model_id : Text) (now : ℕ) → IsTimed (new_job id world_model_id now)
unfolding can_delete
new_job-IsTimed id world_model_id now = ground arith

new_row-IsTimed :
    (n : Job) (k : Text) (j : Job) (rows : List Job)
    → IsTimed n
    → (find (has_key job_key k) rows ≡ some j → IsTimed j)
    → find (has_key job_key k) (rows ++ n ∷ []) ≡ some j
    → IsTimed j
new_row-IsTimed n k j rows t old h = elim (Option-cases (find (has_key job_key k) rows)) [
  | inl missing ↦ fresh (rw (find-append (has_key job_key k) rows (n ∷ []), missing) at h)
  | inr (o, found) ↦ old (found ∙ (rw (find-append (has_key job_key k) rows (n ∷ []), found) at h))
]
  where
    fresh : find (has_key job_key k) (n ∷ []) ≡ some j → IsTimed j
    fresh e = subst IsTimed (found_alone (has_key job_key k) n j e) t

new_row-one :
    (id world_model_id : Text) (db : Db)
    → matching (has_key job_key id) db.jobs ≡ 0
    → (k : Text) → matching (has_key job_key k) db.jobs ≤ 1
    → matching (has_key job_key k) (db.jobs ++ new_job id world_model_id db.now ∷ []) ≤ 1
new_row-one id world_model_id db free k one =
    rw (matching-append (has_key job_key k) db.jobs (new_job id world_model_id db.now ∷ []))
      (unfold matching in ground (arith, text_eq_iff id k))

new_row-IsStore :
    (id world_model_id : Text) (db : Db)
    → matching (has_key job_key id) db.jobs ≡ 0
    → IsStore db
    → IsStore (record db { jobs = db.jobs ++ new_job id world_model_id db.now ∷ [] })
new_row-IsStore id world_model_id db free s = record {
  one_row = λ k. new_row-one id world_model_id db free k (s.one_row k);
  timed = λ k j h.
      new_row-IsTimed (new_job id world_model_id db.now) k j db.jobs
        (new_job-IsTimed id world_model_id db.now) (s.timed k j) h;
}

create-IsStore :
    (ctx : Context) (id world_model_id : Text) (db : Db)
    → IsStore db
    → IsStore (create ctx id world_model_id db).1
unfolding create
create-IsStore ctx id world_model_id db s =
    elim (Bool-cases (fails ctx db || not (can_insert id world_model_id db))) [
      | inl no_insert ↦ rw no_insert s
      | inr insert ↦
          rw insert (new_row-IsStore id world_model_id db (unfold can_insert in ground arith) s)
    ]

-- Every call of the store, on a live context or not, keeps the invariant: an id has one row at most,
-- a running job has a start time and an ended job has a time of completion.
pub apply-IsStore : (ctx : Context) (op : JobOp) (db : Db) → IsStore db → IsStore (apply ctx op db)
unfolding apply set_completed set_failed set_canceled
apply-IsStore ctx (create_op id world_model_id) db s = create-IsStore ctx id world_model_id db s
apply-IsStore ctx (set_running_op id summary) db s = set_running-IsStore ctx id summary [] db s
apply-IsStore ctx (update_summary_op id summary) db s =
    update_summary-IsStore ctx id summary [] db s
apply-IsStore ctx (set_completed_op id summary) db s =
    ended-IsStore ctx id summary [] db s completed (unfold can_delete in refl)
apply-IsStore ctx (set_failed_op id summary message) db s =
    ended-IsStore ctx id summary message db s failed (unfold can_delete in refl)
apply-IsStore ctx (set_canceled_op id summary message) db s =
    ended-IsStore ctx id summary message db s canceled (unfold can_delete in refl)
apply-IsStore ctx (delete_op id) db s = delete_job-IsStore ctx id db s

-- Every run of calls keeps the invariant of the store: no two rows share an id, a job that runs
-- has a time of start, and a job that has ended has a time of completion.
pub apply_all-IsStore :
    (ops : List (Context × JobOp)) (db : Db) → IsStore db → IsStore (apply_all ops db)
unfolding apply_all
apply_all-IsStore [] db s = s
apply_all-IsStore ((ctx, op) ∷ ops) db s =
    apply_all-IsStore ops (apply ctx op db) (apply-IsStore ctx op db s)
