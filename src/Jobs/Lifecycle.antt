-- ===== src/Jobs/Lifecycle.antt =====
-- What every call of the store keeps of the job table.
use mathlib.Core.Path.{subst}
use honeygen.Prelude.{
  ℕ, ◌≤◌, ◌≡◌, refl, sym, ◌∙◌, ◌≢◌, inl, inr, Bool, true, false, Option, none, some, List, [],
  arith, Bool-cases, some-eq_inv, Result, ok, err,
}
use honeygen.Text.{Text, text_eq}
use honeygen.Text.Equality.{text_eq_iff}
use honeygen.Database.{Status, running, Summary, Job, Db, Context, fails}
use honeygen.Database.Table.{matching, has_key}
use honeygen.Jobs.{
  JobError, job_key, can_delete, get, set_clause, status_in, active, set_running, write_summary,
  write_read, update_summary, job_at,
}
use honeygen.Jobs.Rows.{
  after_update, row_after, job_at-update, matching-update_jobs, job_at-update_failed,
}

-- a running job has a start time, and an ended job has a time of completion
pub record IsTimed (j : Job) : Type 0 where
  pub running_started : j.status ≡ running → j.started_at ≢ none
  pub ended_completed : can_delete j.status ≡ true → j.completed_at ≢ none

-- the invariant of the table: an id has one row at most, and every job is timed
pub record IsStore (db : Db) : Type 0 where
  pub one_row : (id : Text) → matching (has_key job_key id) db.jobs ≤ 1
  pub timed : (id : Text) (j : Job) → job_at db id ≡ some j → IsTimed j

module _ (ctx : Context) (id : Text) (status : Status) (summary : Summary) (message : Text)
    (ensure_started complete : Bool) (current : List Status) (db : Db) where
  abbrev Sets : Type 0
  Sets =
      (j : Job)
      → job_at db id ≡ some j
      → status_in current j ≡ true
      → IsTimed (set_clause status summary message ensure_started complete db.now j)

  row-IsTimed :
      Sets
      → IsStore db
      → (k : Text) (j : Job) → job_at db k ≡ some j
      → IsTimed (row_after ctx id status summary message ensure_started complete current db k j)
  row-IsTimed sets s k j h = elim (Bool-cases (text_eq id k)) [
    | inl same ↦ elim (Bool-cases (status_in current j)) [
      | inl y ↦ rw (same, y) (sets j (rw ((text_eq_iff id k).0 same) h) y)
      | inr n ↦ rw (same, n) (s.timed k j h)
    ]
    | inr other ↦ rw other (s.timed k j h)
  ]

  found-IsTimed :
      Sets
      → IsStore db
      → (k : Text) (j' : Job) (o : Option Job) → job_at db k ≡ o
      → elim o [
        | none ↦ none
        | some j ↦
            some (row_after ctx id status summary message ensure_started complete current db k j)
      ]
        ≡ some j'
      → IsTimed j'
  found-IsTimed sets s k j' none e h = cc
  found-IsTimed sets s k j' (some j) e h = subst IsTimed (some-eq_inv h) (row-IsTimed sets s k j e)

  update-IsTimed :
      Sets
      → IsStore db
      → (k : Text) (j' : Job)
      → job_at (after_update ctx id status summary message ensure_started complete current db) k
        ≡ some j'
      → IsTimed j'
  update-IsTimed sets s k j' h = elim (Bool-cases (fails ctx db)) [
    | inl down ↦ s.timed k j' (
        sym (
          job_at-update_failed ctx id status summary message ensure_started complete current db k
            down)
        ∙ h)
    | inr up ↦ found-IsTimed sets s k j' (job_at db k) refl (
        sym (job_at-update ctx id status summary message ensure_started complete current db k up)
        ∙ h)
  ]

  update-IsStore :
      Sets
      → IsStore db
      → IsStore (after_update ctx id status summary message ensure_started complete current db)
  update-IsStore sets s = record {
    one_row = λ k.
        rw (matching-update_jobs ctx id status summary message ensure_started complete current db k)
          (s.one_row k);
    timed = λ k j' h. update-IsTimed sets s k j' h;
  }

pub get-job_at :
    (ctx : Context) (id : Text) (db : Db) (j : Job) → get ctx id db ≡ ok j → job_at db id ≡ some j
unfolding get
get-job_at ctx id db j h = ground arith

-- the rows that the four kinds of statement write are timed
module _ (summary : Summary) (message : Text) (now : ℕ) (j : Job) where
  IsTimed-running : IsTimed (set_clause running summary message true false now j)
  unfolding set_clause can_delete
  IsTimed-running = ground arith

  IsTimed-ended :
      (status : Status)
      → can_delete status ≡ true
      → IsTimed (set_clause status summary message false true now j)
  unfolding set_clause can_delete
  IsTimed-ended status h = ground arith

  IsTimed-summary :
      IsTimed j
      → IsTimed (
          set_clause j.status summary j.error_message
            (elim j.started_at [ none ↦ true | some t ↦ false ])
            false
            now
            j)
  unfolding set_clause can_delete
  IsTimed-summary t = ground arith

module _ (ctx : Context) (id : Text) (summary : Summary) (message : Text) (db : Db)
    (s : IsStore db) where
  pub set_running-IsStore : IsStore (set_running ctx id summary db).1
  unfolding set_running
  set_running-IsStore =
      update-IsStore ctx id running summary [] true false [] db
        (λ j h y. IsTimed-running summary [] db.now j) s

  pub ended-IsStore :
      (status : Status)
      → can_delete status ≡ true
      → IsStore (after_update ctx id status summary message false true active db)
  ended-IsStore status e =
      update-IsStore ctx id status summary message false true active db
        (λ j h y. IsTimed-ended summary message db.now j status e) s

  write_summary-IsStore :
      (current : Job)
      → get ctx id db ≡ ok current
      → IsStore (write_summary ctx id summary current db).1
  unfolding write_summary
  write_summary-IsStore current h =
      update-IsStore ctx id current.status summary current.error_message
        (elim current.started_at [ none ↦ true | some t ↦ false ]) false [] db
        (λ j e y. read j (some-eq_inv (sym e ∙ get-job_at ctx id db current h)) (s.timed id j e)) s
    where
      read :
          (j : Job)
          → j ≡ current
          → IsTimed j
          → IsTimed (
              set_clause current.status summary current.error_message
                (elim current.started_at [ none ↦ true | some t ↦ false ])
                false
                db.now
                j)
      read j e t = rw (← e) (IsTimed-summary summary [] db.now j t)

  write_read-IsStore :
      (r : Result JobError Job) → get ctx id db ≡ r → IsStore (write_read ctx id summary db r).1
  unfolding write_read
  write_read-IsStore (ok current) e = write_summary-IsStore current e
  write_read-IsStore (err x) e = s

  pub update_summary-IsStore : IsStore (update_summary ctx id summary db).1
  unfolding update_summary
  update_summary-IsStore = write_read-IsStore (get ctx id db) refl
