-- ===== src/Generation/Closing.antt =====
-- generation/service.go, cancelJob and Close: the jobs that run when the service closes.
use honeygen.Prelude.{
  ◌≤◌, ◌≡◌, refl, sym, ◌∙◌, inl, inr, true, false, ◌&&◌, Option, none, some, List, [], ◌∷◌, arith,
  Bool-cases, Option-cases, some-eq_inv, All, Result, ok, err,
}
use honeygen.Text.{Text, text_eq, codes}
use honeygen.Database.{canceled, Summary, Job, Db, live, fails}
use honeygen.Database.Table.{matching, has_key}
use mathlib.Core.Path.{subst}
use honeygen.Jobs
use honeygen.Jobs.{
  JobError, job_not_found, job_not_cancelable, job_key, job_at, can_cancel, can_delete, active,
  status_in, set_clause, set_canceled, update_if_status_in,
}
use honeygen.Jobs.Rows.{after_update, down-update, matching-update_jobs, job_at-update, row_after}
use honeygen.Jobs.Ending.{end_job_lem}
use honeygen.Generation.{append_log, cancel_found, cancel_job, closed, close_jobs}

-- no job with this id is pending or running
pub record IsInactive (id : Text) (db : Db) : Type 0 where
  pub over : (j : Job) → job_at db id ≡ some j → can_cancel j.status ≡ false

-- the database answers, and ids are unique
pub record IsReady (db : Db) : Type 0 where
  pub up : fails live db ≡ false
  pub one : (k : Text) → matching (has_key job_key k) db.jobs ≤ 1

-- what `cancelJob` does on such a database: a missing job and an ended one are reported, another one
-- is canceled
data CancelCase (id message : Text) (db : Db) : Result JobError Job × Db → Type 0 where
  nothing : job_at db id ≡ none → CancelCase id message db (err job_not_found, db)
  too_late :
      (j : Job)
      → job_at db id ≡ some j
      → can_cancel j.status ≡ false
      → CancelCase id message db (err job_not_cancelable, db)
  stopped :
      (x j : Job) (s : Summary)
      → job_at (after_update live id canceled s message false true active db) id
        ≡ some (set_clause canceled s message false true db.now j)
      → CancelCase id message db
          (ok x, after_update live id canceled s message false true active db)

was_stopped :
    (id message : Text) (db : Db) (x j : Job) (s : Summary)
    → (update_if_status_in live id canceled s message false true active db).0 ≡ ok x
    → job_at (after_update live id canceled s message false true active db) id
      ≡ some (set_clause canceled s message false true db.now j)
    → CancelCase id message db (update_if_status_in live id canceled s message false true active db)
was_stopped id message db x j s answer row =
    subst
      (λ r.
        CancelCase id message db (r, after_update live id canceled s message false true active db))
      (sym answer) (stopped x j s row)

get_ready :
    (id : Text) (db : Db) → IsReady db → Jobs.get live id db ≡ Jobs.or_not_found (job_at db id)
unfolding Jobs.get
get_ready id db r = rw r.up refl

cancel_cases :
    (id message : Text) (db : Db)
    → IsReady db
    → CancelCase id message db (cancel_job live id message db)
unfolding cancel_job cancel_found set_canceled
cancel_cases id message db r = elim (Option-cases (job_at db id)) [
  | inl gone ↦ rw (get_ready id db r, gone) (unfold Jobs.or_not_found in nothing gone)
  | inr (j, found) ↦ elim (Bool-cases (can_cancel j.status)) [
    | inr late ↦
        rw (get_ready id db r, found, late) (unfold Jobs.or_not_found in too_late j found late)
    | inl runs ↦
        let s = append_log db.now (codes "warn") message [] [] j.summary in
        let (answer, row) = end_job_lem live id canceled s message db j r.up (r.one id) found in
        rw (get_ready id db r, found)
          (unfold Jobs.or_not_found in
            rw runs (
              was_stopped id message db (set_clause canceled s message false true db.now j) j s
                (answer ∙ (rw runs refl)) (row ∙ (rw runs refl))))
  ]
]

module _ (id message : Text) (db : Db) (r : IsReady db) where
  -- the database is as ready as before
  case-IsReady : (o : Result JobError Job × Db) → CancelCase id message db o → IsReady o.1
  case-IsReady o (nothing gone) = r
  case-IsReady o (too_late j found late) = r
  case-IsReady o (stopped x j s row) = record {
    up = down-update live id canceled s message false true active db ∙ r.up;
    one =
        λ k. rw (matching-update_jobs live id canceled s message false true active db k) (r.one k);
  }

  -- the job of the call is inactive behind it
  case-IsInactive : (o : Result JobError Job × Db) → CancelCase id message db o → IsInactive id o.1
  unfolding set_clause can_cancel
  case-IsInactive o (nothing gone) = record { over = λ j h. cc (gone, h) }
  case-IsInactive o (too_late j found late) = record {
    over = λ j' h. rw (← some-eq_inv (sym found ∙ h)) late;
  }
  case-IsInactive o (stopped x j s row) = record {
    over = λ j' h. rw (← some-eq_inv (sym row ∙ h)) (ground arith);
  }

  -- a job that is inactive stays so
  stays-IsInactive :
      (k : Text) (o : Result JobError Job × Db)
      → CancelCase id message db o
      → IsInactive k db
      → IsInactive k o.1
  unfolding set_clause can_cancel
  stays-IsInactive k o (nothing gone) h = h
  stays-IsInactive k o (too_late j found late) h = h
  stays-IsInactive k o (stopped x j s row) h = record {
    over = λ j' f.
        before j' (job_at db k) refl
          (sym (job_at-update live id canceled s message false true active db k r.up) ∙ f);
  }
    where
      before :
          (j' : Job) (o : Option Job)
          → job_at db k ≡ o
          → (elim o as (λ _. Option Job) [
            | none ↦ none
            | some y ↦ some (row_after live id canceled s message false true active db k y)
          ])
            ≡ some j'
          → can_cancel j'.status ≡ false
      before j' none e f = cc
      before j' (some y) e f = elim (Bool-cases (text_eq id k && status_in active y)) [
        | inl hit ↦ rw (← some-eq_inv (rw hit at f)) (ground arith)
        | inr missed ↦ rw (← some-eq_inv (rw missed at f)) (h.over y e)
      ]

  -- none of the cases ends the loop
  closed-case :
      (rest : Db → Option JobError × Db) (o : Result JobError Job × Db)
      → CancelCase id message db o
      → closed rest o ≡ rest o.1
  unfolding closed
  closed-case rest o (nothing gone) = refl
  closed-case rest o (too_late j found late) = refl
  closed-case rest o (stopped x j s row) = refl

abbrev shutdown : Text
shutdown = codes "generation canceled during shutdown"

close-stays :
    (ids : List Text) (db : Db) (k : Text)
    → IsReady db
    → IsInactive k db
    → ((close_jobs ids db).0 ≡ none)
      × IsReady (close_jobs ids db).1
      × IsInactive k (close_jobs ids db).1
unfolding close_jobs
close-stays [] db k r h = (refl, r, h)
close-stays (id ∷ ids) db k r h =
    let c = cancel_cases id shutdown db r in
    let o = cancel_job live id shutdown db in
    rw (closed-case id shutdown db r (close_jobs ids) o c) (
      close-stays ids o.1 k (case-IsReady id shutdown db r o c)
        (stays-IsInactive id shutdown db r k o c h))

-- On a database that answers and where no two jobs share an id, the loop of Close ends without an error
-- and leaves none of the jobs that it was given pending or running.
pub close_jobs_lem :
    (ids : List Text) (db : Db)
    → IsReady db
    → ((close_jobs ids db).0 ≡ none) × All (λ id. IsInactive id (close_jobs ids db).1) ids
unfolding close_jobs
close_jobs_lem [] db r = (refl, tt)
close_jobs_lem (id ∷ ids) db r =
    let c = cancel_cases id shutdown db r in
    let o = cancel_job live id shutdown db in
    let ready = case-IsReady id shutdown db r o c in
    let (fine, rest) = close_jobs_lem ids o.1 ready in
    let (_, _, mine) = close-stays ids o.1 id ready (case-IsInactive id shutdown db r o c) in
    subst (λ x. (x.0 ≡ none) × All (λ k. IsInactive k x.1) (id ∷ ids))
      (sym (closed-case id shutdown db r (close_jobs ids) o c)) (fine, (mine, rest))
