-- ===== src/Witnesses/Tables.antt =====
-- The tables, the job store and the assets at concrete rows.
use honeygen.Prelude.{
  ℕ, ◌≡◌, refl, ◌≢◌, ◌≤◌, Option, none, some, List, [], ◌∷◌, All, ok, true, false, arith,
}
use honeygen.Text.{Text, text_eq, codes}
use honeygen.Database.{Status, running, completed, canceled, Job, Db, Context, live, done}
use honeygen.Database.Table.{find, matching, has_key}
use honeygen.Jobs.{
  JobOp, set_completed_op, update_summary_op, create_op, delete_op, set_running_op, set_canceled_op,
  apply_all, job_at, job_key, update_if_status_in, active, set_canceled, set_completed, get,
  can_delete, can_cancel,
}
use honeygen.Jobs.Lifecycle.{IsStore}
use honeygen.Jobs.Kept.{apply_all-IsStore}
use honeygen.Jobs.Ending.{Ended, Spares, ended_row, apply_all-Ended, end_job_lem}
use honeygen.Jobs.Race.{interleaved, outcome, canceled_job_revived}
use honeygen.Assets.{ListOptions, list_all_for_tree, wanted_rows}
use honeygen.Assets.Pages.{list_all_for_tree_lem}
use honeygen.Assets.Tree.{TreeNodes, unsorted_tree}
use honeygen.Assets.Inserted.{file_at_segments}
use honeygen.Assets.Grown.{last_at, unsorted_tree_lem}
use honeygen.Assets.References.{IsLinked}
use honeygen.Witnesses.{job_in, no_summary, asset, event, tables}

abbrev ended_db : Db
ended_db = tables (job_in completed (some 3) ∷ []) [] [] []

abbrev running_db : Db
running_db = tables (job_in running none ∷ []) [] [] []

abbrev linked_db : Db
linked_db = tables (job_in completed (some 3) ∷ []) (asset ∷ []) (event ∷ []) []

-- a late completion and a late summary, a new job, and the deletion
abbrev late_calls : List (Context × JobOp)
late_calls =
    (live, set_canceled_op (codes "j") no_summary [])
    ∷ (live, update_summary_op (codes "j") no_summary)
    ∷ (done, delete_op (codes "j"))
    ∷ (live, create_op (codes "k") (codes "w"))
    ∷ []

late_calls-Spares : All (λ op. Spares (codes "j") op.1) late_calls
unfolding text_eq
late_calls-Spares = (tt, (tt, (tt, (refl, tt))))

apply_all-Ended_example :
    Ended (job_in completed (some 3)) (job_at (apply_all late_calls ended_db) (codes "j"))
unfolding find text_eq can_delete
apply_all-Ended_example =
    apply_all-Ended late_calls ended_db (codes "j") (job_in completed (some 3)) late_calls-Spares
      refl refl

one_job :
    (status : Status) (t : Option ℕ) (k : Text)
    → matching (has_key job_key k) (job_in status t ∷ []) ≤ 1
unfolding matching
one_job status t k = ground arith

end_job_lem_example :
    let (answer, db') =
      update_if_status_in live (codes "j") completed no_summary [] false true active running_db in
    (answer ≡ ok (ended_row completed no_summary [] 9 (job_in running none)))
    × (job_at db' (codes "j") ≡ some (ended_row completed no_summary [] 9 (job_in running none)))
unfolding find text_eq can_cancel
end_job_lem_example =
    end_job_lem live (codes "j") completed no_summary [] running_db (job_in running none) refl
      (one_job running none (codes "j")) refl

abbrev empty_db : Db
empty_db = tables [] [] [] []

no_job_found : (k : Text) (j : Job) → job_at empty_db k ≢ some j
unfolding find
no_job_found k j h = cc

empty_db-IsStore : IsStore empty_db
unfolding matching
empty_db-IsStore = record {
  one_row = λ k. omega arith;
  timed = λ k j h. absurd (no_job_found k j h);
}

-- a job from its creation to its end
abbrev life_of_job : List (Context × JobOp)
life_of_job =
    (live, create_op (codes "j") (codes "w"))
    ∷ (live, set_running_op (codes "j") no_summary)
    ∷ (live, update_summary_op (codes "j") no_summary)
    ∷ (live, set_completed_op (codes "j") no_summary)
    ∷ []

apply_all-IsStore_example : IsStore (apply_all life_of_job empty_db)
apply_all-IsStore_example = apply_all-IsStore life_of_job empty_db empty_db-IsStore

canceled_job_revived_example :
    let db' = interleaved (codes "j") no_summary no_summary [] (job_in running none) running_db in
    (outcome (job_at (set_canceled live (codes "j") no_summary [] running_db).1 (codes "j"))
      ≡ some (canceled, some 9))
    × (outcome (job_at db' (codes "j")) ≡ some (running, some 9))
    × (outcome (job_at (set_completed live (codes "j") no_summary db').1 (codes "j"))
        ≡ some (completed, some 9))
unfolding get find text_eq
canceled_job_revived_example =
    canceled_job_revived (codes "j") no_summary no_summary [] running_db (job_in running none) refl
      (one_job running none (codes "j")) refl refl

linked_db-IsLinked : IsLinked linked_db
unfolding matching text_eq
linked_db-IsLinked = record {
  one_id = λ k. ground arith;
  one_path = λ p. ground arith;
  job_there = (omega arith, tt);
  asset_there = (omega arith, tt);
}

abbrev of_job : ListOptions
of_job = record { world_model_id = []; generation_job_id = codes "j"; limit = 0; offset = 0 }

list_all_for_tree_lem_example :
    list_all_for_tree live of_job linked_db ≡ ok (wanted_rows of_job linked_db)
list_all_for_tree_lem_example = list_all_for_tree_lem live of_job linked_db refl

unsorted_tree_lem_example :
    (tree : TreeNodes) × (unsorted_tree live of_job linked_db ≡ ok tree)
    × ((k : Text) (ks : List Text)
        → file_at_segments (k ∷ ks) tree ≡ last_at of_job (wanted_rows of_job linked_db) (k ∷ ks))
unsorted_tree_lem_example = unsorted_tree_lem live of_job linked_db refl
