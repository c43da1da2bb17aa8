-- ===== src/Jobs/Rows.antt =====
-- What an update of the job table does to the row of each job.
use honeygen.Prelude.{
  ◌≤◌, ◌≡◌, refl, ap, inl, inr, Bool, true, false, ◌&&◌, none, some, List, arith, if◌then◌else◌,
  Bool-cases, ok,
}
use honeygen.Text.{Text, text_eq}
use honeygen.Text.Equality.{text_eq_refl}
use honeygen.Database.{Status, Summary, Job, Db, Context, fails}
use honeygen.Database.Table.{
  update, matching, has_key, find-update, update_none, matching_found, matching-update,
}
use honeygen.Jobs.{job_key, set_clause, not_updated, status_in, update_if_status_in, job_at}

module _ (ctx : Context) (id : Text) (status : Status) (summary : Summary) (message : Text)
    (ensure_started complete : Bool) (current : List Status) (db : Db) where
  abbrev pub after_update : Db
  after_update =
      (update_if_status_in ctx id status summary message ensure_started complete current db).1

  -- the row that a statement leaves of a row
  abbrev pub row_after : Text → Job → Job
  row_after k j =
      if text_eq id k && status_in current j
      then set_clause status summary message ensure_started complete db.now j
      else j

  jobs-update :
      fails ctx db ≡ false
      → after_update.jobs
        ≡ update
            (λ j. has_key job_key id j && status_in current j)
            (set_clause status summary message ensure_started complete db.now)
            db.jobs
  unfolding update_if_status_in
  jobs-update up = ground (
    arith,
    update_none (λ j. has_key job_key id j && status_in current j)
        (set_clause status summary message ensure_started complete db.now) db.jobs,
  )

  jobs-update_failed : fails ctx db ≡ true → after_update ≡ db
  unfolding update_if_status_in
  jobs-update_failed down = ground arith

  key-set_clause :
      (j : Job) → (set_clause status summary message ensure_started complete db.now j).id ≡ j.id
  unfolding set_clause
  key-set_clause j = refl

  pub job_at-update :
      (k : Text)
      → fails ctx db ≡ false
      → job_at after_update k ≡ elim (job_at db k) [ none ↦ none | some j ↦ some (row_after k j) ]
  job_at-update k up = rw (jobs-update up) (
      find-update job_key id k (status_in current)
        (set_clause status summary message ensure_started complete db.now) db.jobs key-set_clause)

  pub matching-update_jobs :
      (k : Text)
      → matching (has_key job_key k) after_update.jobs ≡ matching (has_key job_key k) db.jobs
  matching-update_jobs k = elim (Bool-cases (fails ctx db)) [
    | inl down ↦ rw (jobs-update_failed down)
    | inr up ↦ rw (jobs-update up) (
        matching-update (has_key job_key k) (λ j. has_key job_key id j && status_in current j)
          (set_clause status summary message ensure_started complete db.now) db.jobs
          (λ j. ap (λ (i : Text). text_eq i k) (key-set_clause j)))
  ]

  pub job_at-update_failed : (k : Text) → fails ctx db ≡ true → job_at after_update k ≡ job_at db k
  job_at-update_failed k down = rw (jobs-update_failed down)

  -- what the statement answers for a job that is there
  pub answer-update :
      (j : Job)
      → fails ctx db ≡ false
      → matching (has_key job_key id) db.jobs ≤ 1
      → job_at db id ≡ some j
      → (update_if_status_in ctx id status summary message ensure_started complete current db).0 ≡ (
          if status_in current j
          then ok (set_clause status summary message ensure_started complete db.now j)
          else not_updated current j)
  unfolding update_if_status_in
  answer-update j up one found =
      let m = matching_found (has_key job_key id) (status_in current) db.jobs j found one in
      let u =
        find-update job_key id id (status_in current)
          (set_clause status summary message ensure_started complete db.now) db.jobs
          key-set_clause in
      elim (Bool-cases (status_in current j)) [
        | inl y ↦ ground (arith, text_eq_refl id)
        | inr n ↦ ground arith
      ]

  -- a statement touches the job table only
  pub down-update : after_update.down ≡ db.down
  unfolding update_if_status_in
  down-update = ground arith

  pub now-update : after_update.now ≡ db.now
  unfolding update_if_status_in
  now-update = ground arith
