-- ===== src/Jobs/Race.antt =====
-- Two goroutines on one job: `UpdateSummary` reads the status and writes it back in a second statement.
use honeygen.Prelude.{
  ℕ, ◌≤◌, ◌≡◌, refl, ap, ◌∙◌, Bool, true, false, Option, none, some, [], arith, ok,
}
use honeygen.Text.{Text}
use honeygen.Text.Equality.{text_eq_refl}
use honeygen.Database.{Status, running, completed, canceled, Summary, Job, Db, fails, live}
use honeygen.Database.Table.{matching, has_key}
use honeygen.Jobs.Rows.{after_update, job_at-update}
use honeygen.Jobs.Lifecycle.{get-job_at}
use honeygen.Jobs.{
  job_key, can_cancel, get, set_clause, active, write_summary, set_completed, set_canceled, job_at,
}
use honeygen.Jobs.Rows.{after_update, job_at-update, matching-update_jobs}
use honeygen.Jobs.Ending.{end_job_lem}
use honeygen.Jobs.Rows.{down-update, now-update, matching-update_jobs}

-- the read of `UpdateSummary`, then `SetCanceled` by another goroutine, then the write
abbrev pub interleaved : Text → Summary → Summary → Text → Job → Db → Db
interleaved id mine theirs message current db =
    (write_summary live id mine current (set_canceled live id theirs message db).1).1

-- the status of a job and its time of completion
abbrev pub outcome : Option Job → Option (Status × Option ℕ)
outcome none = none
outcome (some j) = some (j.status, j.completed_at)

write_summary-frame :
    (id : Text) (mine : Summary) (current : Job) (db : Db)
    → let db' = (write_summary live id mine current db).1 in
      (db'.down ≡ db.down)
      × (matching (has_key job_key id) db'.jobs ≡ matching (has_key job_key id) db.jobs)
      × (db'.now ≡ db.now)
unfolding write_summary
write_summary-frame id mine current db =
    let e : Bool = elim current.started_at [ none ↦ true | some t ↦ false ] in
    (
      down-update live id current.status mine current.error_message e false [] db,
      matching-update_jobs live id current.status mine current.error_message e false [] db id,
      now-update live id current.status mine current.error_message e false [] db,
    )

-- the write of a stale read
stale_write :
    (id : Text) (mine : Summary) (current c : Job) (db : Db)
    → fails live db ≡ false
    → job_at db id ≡ some c
    → current.status ≡ running
    → outcome (job_at (write_summary live id mine current db).1 id) ≡ some (running, c.completed_at)
unfolding write_summary set_clause
stale_write id mine current c db up found r = rw (
  job_at-update live id current.status mine current.error_message
      (elim current.started_at [ none ↦ true | some t ↦ false ]) false [] db id up,
  found,
  text_eq_refl id,
  r,
)

completes :
    (id : Text) (mine : Summary) (t : Option ℕ) (db : Db) (o : Option Job)
    → fails live db ≡ false
    → matching (has_key job_key id) db.jobs ≤ 1
    → job_at db id ≡ o
    → outcome o ≡ some (running, t)
    → outcome (job_at (set_completed live id mine db).1 id) ≡ some (completed, some db.now)
unfolding set_completed set_clause can_cancel
completes id mine t db none up one found h = cc
completes id mine t db (some j) up one found h =
    rw ((end_job_lem live id completed mine [] db j up one found).1) (ground arith)

-- On a database that answers, a job that is there once, that was running when `UpdateSummary` read
-- it, and that is canceled before `UpdateSummary` writes, is running again after the write, with
-- the time at which it was canceled; and `SetCompleted` then completes it.
pub canceled_job_revived :
    (id : Text) (mine theirs : Summary) (message : Text) (db : Db) (current : Job)
    → fails live db ≡ false
    → matching (has_key job_key id) db.jobs ≤ 1
    → get live id db ≡ ok current
    → current.status ≡ running
    → let db' = interleaved id mine theirs message current db in
      (outcome (job_at (set_canceled live id theirs message db).1 id)
        ≡ some (canceled, some db.now))
      × (outcome (job_at db' id) ≡ some (running, some db.now))
      × (outcome (job_at (set_completed live id mine db').1 id) ≡ some (completed, some db.now))
unfolding set_canceled
canceled_job_revived id mine theirs message db current up one read r =
    let found = get-job_at live id db current read in
    let db1 = after_update live id canceled theirs message false true active db in
    let c = set_clause canceled theirs message false true db.now current in
    let at1 : job_at db1 id ≡ some c =
      (end_job_lem live id canceled theirs message db current up one found).1
      ∙ (rw r (unfold can_cancel in refl)) in
    let db2 = (write_summary live id mine current db1).1 in
    let up1 : fails live db1 ≡ false =
      down-update live id canceled theirs message false true active db ∙ up in
    let one1 : matching (has_key job_key id) db1.jobs ≤ 1 =
      (rw (matching-update_jobs live id canceled theirs message false true active db id) one) in
    let second = stale_write id mine current c db1 up1 at1 r in
    let (down2, one2, now2) = write_summary-frame id mine current db1 in
    (
      rw at1 (unfold set_clause in refl),
      second ∙ (unfold set_clause in refl),
      completes id mine (some db.now) db2 (job_at db2 id) (down2 ∙ up1) (rw one2 one1) refl
            (second ∙ (unfold set_clause in refl))
          ∙ ap (λ (t : ℕ). some (completed, some t))
              (now2 ∙ now-update live id canceled theirs message false true active db),
    )
