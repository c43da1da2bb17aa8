-- ===== src/Jobs/Ending.antt =====
-- How a job ends: the three guarded calls, and that an ended job stays as it ended.
use honeygen.Prelude.{
  ℕ, ◌≤◌, ◌≡◌, refl, sym, ◌∙◌, ◌⊎◌, inl, inr, Bool, true, false, Option, none, some, List, [], ◌∷◌,
  arith, if◌then◌else◌, Bool-cases, some-eq_inv, All, Result, ok, err,
}
use honeygen.Text.{Text, text_eq}
use honeygen.Text.Equality.{text_eq_iff, text_eq_refl}
use honeygen.Database.{
  Status, running, completed, failed, canceled, Summary, Job, Db, Context, fails,
}
use honeygen.Database.Table.{find, matching, has_key, find-append, find-delete}
use honeygen.Jobs.Rows.{after_update, row_after, answer-update, job_at-update, job_at-update_failed}
use honeygen.Jobs.Lifecycle.{get-job_at}
use honeygen.Jobs.{
  JobError, job_not_cancelable, job_key, contains, can_cancel, can_delete, get, create, set_clause,
  not_updated, status_in, update_if_status_in, active, set_running, write_summary, write_read,
  update_summary, set_completed, set_failed, set_canceled, delete_job, job_at, JobOp, create_op,
  set_running_op, update_summary_op, set_completed_op, set_failed_op, set_canceled_op, delete_op,
  apply, apply_all, new_job,
}
use honeygen.Jobs.Rows.{after_update, row_after, job_at-update, job_at-update_failed}

status_in-active : (j : Job) → status_in active j ≡ can_cancel j.status
unfolding contains can_cancel
status_in-active j = ground arith

-- the record of a job that ends: what else it has stays
abbrev pub ended_row : Status → Summary → Text → ℕ → Job → Job
ended_row status summary message now j = record {
  id = j.id;
  world_model_id = j.world_model_id;
  status = status;
  started_at = j.started_at;
  completed_at = some now;
  error_message = message;
  summary = summary;
  created_at = j.created_at;
  updated_at = now;
}

-- `SetCompleted`, `SetFailed` and `SetCanceled` are this statement. On a database that answers,
-- for a job that is there once: a pending or running job takes the new status, the message and the
-- time of completion, and is returned; an ended one is left alone and reported.
pub end_job_lem :
    (ctx : Context) (id : Text) (status : Status) (summary : Summary) (message : Text) (db : Db)
    (j : Job)
    → fails ctx db ≡ false
    → matching (has_key job_key id) db.jobs ≤ 1
    → job_at db id ≡ some j
    → let (answer, db') = update_if_status_in ctx id status summary message false true active db in
      (answer ≡ (
        if can_cancel j.status
        then ok (ended_row status summary message db.now j)
        else err job_not_cancelable))
      × (job_at db' id
          ≡ some (if can_cancel j.status then ended_row status summary message db.now j else j))
unfolding not_updated contains can_cancel set_clause
end_job_lem ctx id status summary message db j up one found =
    let e = status_in-active j in
    let a = answer-update ctx id status summary message false true active db j up one found in
    let r = job_at-update ctx id status summary message false true active db id up in
    (a ∙ (rw e (ground arith)), r ∙ (rw (found, text_eq_refl id, e) refl))

-- an ended job, or no job any more
abbrev pub Ended : Job → Option Job → Type 0
Ended j none = Unit
Ended j (some j') = (j'.status ≡ j.status) × (j'.completed_at ≡ j.completed_at)

-- the calls that could make a job with this id run again
abbrev pub Spares : Text → JobOp → Type 0
Spares id (set_running_op k summary) = text_eq k id ≡ false
Spares id (create_op k m) = text_eq k id ≡ false
Spares id (update_summary_op k summary) = Unit
Spares id (set_completed_op k summary) = Unit
Spares id (set_failed_op k summary message) = Unit
Spares id (set_canceled_op k summary message) = Unit
Spares id (delete_op k) = Unit

Ended-trans : (j j' : Job) (o : Option Job) → Ended j (some j') → Ended j' o → Ended j o
Ended-trans j j' none a b = tt
Ended-trans j j' (some x) (s, c) (s', c') = (s' ∙ s, c' ∙ c)

module _ (ctx : Context) (id : Text) (status : Status) (summary : Summary) (message : Text)
    (ensure_started complete : Bool) (current : List Status) (db : Db) (k : Text) (j : Job) where
  update-Ended :
      job_at db k ≡ some j
      → Ended j
          (some (row_after ctx id status summary message ensure_started complete current db k j))
      → Ended j
          (job_at (after_update ctx id status summary message ensure_started complete current db) k)
  update-Ended found keeps = elim (Bool-cases (fails ctx db)) [
    | inl down ↦
        rw
          (
            job_at-update_failed ctx id status summary message ensure_started complete current db k
                down,
            found,
          )
          (refl, refl)
    | inr up ↦
        rw
          (
            job_at-update ctx id status summary message ensure_started complete current db k up,
            found,
          )
          keeps
  ]

ended-not-active : (j : Job) → can_delete j.status ≡ true → status_in active j ≡ false
unfolding can_delete contains
ended-not-active j e = ground arith

-- a guarded statement leaves an ended row alone
guarded-Ended :
    (ctx : Context) (k : Text) (status : Status) (summary : Summary) (message : Text) (db : Db)
    (id : Text) (j : Job)
    → can_delete j.status ≡ true
    → job_at db id ≡ some j
    → Ended j (job_at (after_update ctx k status summary message false true active db) id)
guarded-Ended ctx k status summary message db id j e found =
    update-Ended ctx k status summary message false true active db id j found
      (rw (ended-not-active j e) (ground arith))

same_status-Ended :
    (ctx : Context) (k : Text) (summary : Summary) (db : Db) (id : Text) (j current : Job)
    → job_at db id ≡ some j
    → job_at db k ≡ some current
    → Ended j (job_at (write_summary ctx k summary current db).1 id)
unfolding write_summary set_clause
same_status-Ended ctx k summary db id j current found read =
    update-Ended ctx k current.status summary current.error_message
      (elim current.started_at [ none ↦ true | some t ↦ false ]) false [] db id j found
      (elim (Bool-cases (text_eq k id)) [
        | inl same ↦
            let e : job_at db id ≡ some current = (rw (← (text_eq_iff k id).0 same) read) in
            rw same (ground (arith, some-eq_inv (sym found ∙ e)))
        | inr other ↦ rw other (refl, refl)
      ])

write_read-Ended :
    (ctx : Context) (k : Text) (summary : Summary) (db : Db) (id : Text) (j : Job)
    (r : Result JobError Job)
    → get ctx k db ≡ r
    → job_at db id ≡ some j
    → Ended j (job_at (write_read ctx k summary db r).1 id)
unfolding write_read
write_read-Ended ctx k summary db id j (ok current) e found =
    same_status-Ended ctx k summary db id j current found (get-job_at ctx k db current e)
write_read-Ended ctx k summary db id j (err x) e found = rw found (refl, refl)

create-Ended :
    (ctx : Context) (k m : Text) (db : Db) (id : Text) (j : Job)
    → job_at db id ≡ some j
    → job_at (create ctx k m db).1 id ≡ some j
unfolding create
create-Ended ctx k m db id j found =
    ground (arith, find-append (has_key job_key id) db.jobs (new_job k m db.now ∷ []))

delete-Ended :
    (ctx : Context) (k : Text) (db : Db) (id : Text) (j : Job)
    → job_at db id ≡ some j
    → (job_at (delete_job ctx k db).1 id ≡ none) ⊎ (job_at (delete_job ctx k db).1 id ≡ some j)
unfolding delete_job
delete-Ended ctx k db id j found = ground (arith, find-delete job_key k id db.jobs)

-- one call, on a live context or not
apply-Ended :
    (ctx : Context) (op : JobOp) (db : Db) (id : Text) (j : Job)
    → Spares id op
    → can_delete j.status ≡ true
    → job_at db id ≡ some j
    → Ended j (job_at (apply ctx op db) id)
unfolding apply set_running set_completed set_failed set_canceled update_summary
apply-Ended ctx (set_running_op k summary) db id j spares e found =
    update-Ended ctx k running summary [] true false [] db id j found (rw spares (refl, refl))
apply-Ended ctx (set_completed_op k summary) db id j spares e found =
    guarded-Ended ctx k completed summary [] db id j e found
apply-Ended ctx (set_failed_op k summary message) db id j spares e found =
    guarded-Ended ctx k failed summary message db id j e found
apply-Ended ctx (set_canceled_op k summary message) db id j spares e found =
    guarded-Ended ctx k canceled summary message db id j e found
apply-Ended ctx (update_summary_op k summary) db id j spares e found =
    write_read-Ended ctx k summary db id j (get ctx k db) refl found
apply-Ended ctx (create_op k m) db id j spares e found =
    rw (create-Ended ctx k m db id j found) (refl, refl)
apply-Ended ctx (delete_op k) db id j spares e found = elim (delete-Ended ctx k db id j found) [
  | inl gone ↦ rw gone tt
  | inr kept ↦ rw kept (refl, refl)
]

-- a missing job is made by no call that spares its id
update-missing :
    (ctx : Context) (id : Text) (status : Status) (summary : Summary) (message : Text)
    (ensure_started complete : Bool) (current : List Status) (db : Db) (k : Text)
    → job_at db k ≡ none
    → job_at (after_update ctx id status summary message ensure_started complete current db) k
      ≡ none
update-missing ctx id status summary message ensure_started complete current db k missing =
    elim (Bool-cases (fails ctx db)) [
      | inl down ↦
          job_at-update_failed ctx id status summary message ensure_started complete current db k
            down
          ∙ missing
      | inr up ↦
          job_at-update ctx id status summary message ensure_started complete current db k up
          ∙ (rw missing refl)
    ]

write_read-missing :
    (ctx : Context) (k : Text) (summary : Summary) (db : Db) (id : Text) (r : Result JobError Job)
    → job_at db id ≡ none
    → job_at (write_read ctx k summary db r).1 id ≡ none
unfolding write_read write_summary
write_read-missing ctx k summary db id (ok current) missing =
    update-missing ctx k current.status summary current.error_message
      (elim current.started_at [ none ↦ true | some t ↦ false ]) false [] db id missing
write_read-missing ctx k summary db id (err e) missing = missing

create-missing :
    (ctx : Context) (k m : Text) (db : Db) (id : Text)
    → text_eq k id ≡ false
    → job_at db id ≡ none
    → job_at (create ctx k m db).1 id ≡ none
unfolding create find
create-missing ctx k m db id other missing =
    ground (arith, find-append (has_key job_key id) db.jobs (new_job k m db.now ∷ []))

delete-missing :
    (ctx : Context) (k : Text) (db : Db) (id : Text)
    → job_at db id ≡ none
    → job_at (delete_job ctx k db).1 id ≡ none
unfolding delete_job
delete-missing ctx k db id missing = ground (arith, find-delete job_key k id db.jobs)

apply-missing :
    (ctx : Context) (op : JobOp) (db : Db) (id : Text)
    → Spares id op
    → job_at db id ≡ none
    → job_at (apply ctx op db) id ≡ none
unfolding apply set_running set_completed set_failed set_canceled update_summary
apply-missing ctx (set_running_op k summary) db id spares missing =
    update-missing ctx k running summary [] true false [] db id missing
apply-missing ctx (set_completed_op k summary) db id spares missing =
    update-missing ctx k completed summary [] false true active db id missing
apply-missing ctx (set_failed_op k summary message) db id spares missing =
    update-missing ctx k failed summary message false true active db id missing
apply-missing ctx (set_canceled_op k summary message) db id spares missing =
    update-missing ctx k canceled summary message false true active db id missing
apply-missing ctx (update_summary_op k summary) db id spares missing =
    write_read-missing ctx k summary db id (get ctx k db) missing
apply-missing ctx (create_op k m) db id spares missing = create-missing ctx k m db id spares missing
apply-missing ctx (delete_op k) db id spares missing = delete-missing ctx k db id missing

apply_all-missing :
    (ops : List (Context × JobOp)) (db : Db) (id : Text)
    → All (λ op. Spares id op.1) ops
    → job_at db id ≡ none
    → job_at (apply_all ops db) id ≡ none
unfolding apply_all
apply_all-missing [] db id spares missing = missing
apply_all-missing ((ctx, op) ∷ ops) db id (s, spares) missing =
    apply_all-missing ops (apply ctx op db) id spares (apply-missing ctx op db id s missing)

-- what follows a call that left the job ended, or none
go_on :
    (ops : List (Context × JobOp)) (db : Db) (id : Text) (j : Job) (o : Option Job)
    → All (λ op. Spares id op.1) ops
    → can_delete j.status ≡ true
    → job_at db id ≡ o
    → Ended j o
    → ((j' : Job)
        → can_delete j'.status ≡ true
        → job_at db id ≡ some j'
        → Ended j' (job_at (apply_all ops db) id))
    → Ended j (job_at (apply_all ops db) id)
go_on ops db id j none spares e found ended rest = rw (apply_all-missing ops db id spares found) tt
go_on ops db id j (some j') spares e found (s, c) rest =
    Ended-trans j j' (job_at (apply_all ops db) id) (s, c) (rest j' (rw s e) found)

-- Once a job has completed, failed or been canceled, it keeps its status and its time of
-- completion through every run of calls, until it is deleted, if no call sets it running or
-- creates a job with its id.
pub apply_all-Ended :
    (ops : List (Context × JobOp)) (db : Db) (id : Text) (j : Job)
    → All (λ op. Spares id op.1) ops
    → can_delete j.status ≡ true
    → job_at db id ≡ some j
    → Ended j (job_at (apply_all ops db) id)
unfolding apply_all
apply_all-Ended [] db id j spares e found = rw found (refl, refl)
apply_all-Ended ((ctx, op) ∷ ops) db id j (s, spares) e found =
    go_on ops (apply ctx op db) id j (job_at (apply ctx op db) id) spares e refl
      (apply-Ended ctx op db id j s e found)
      (λ j' e' found'. apply_all-Ended ops (apply ctx op db) id j' spares e' found')
