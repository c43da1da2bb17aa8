-- ===== src/Events/Links.antt =====
-- The links between the tables of jobs, assets and events, over runs of the calls that touch them:
-- assets/repository.go, generation/jobs.go (Delete) and events/service.go (Ingest).
use honeygen.Prelude.{List, [], ◌∷◌}
use honeygen.Text.{Text}
use honeygen.Database.{Asset, Db, Context}
use honeygen.Jobs.{delete_job}
use honeygen.Assets
use honeygen.Assets.{delete_asset, delete_by_job_id}
use honeygen.Assets.References.{
  IsLinked, create-IsLinked, delete_asset-IsLinked, delete_by_job_id-IsLinked, delete_job-IsLinked,
}
use honeygen.Events.{IngestRequest, EventService, ingest}
use honeygen.Events.Ingest.{ingest-IsLinked}

pub data LinkOp : Type 0 where
  create_asset_op : Asset → LinkOp
  delete_asset_op delete_assets_of_op delete_job_op : Text → LinkOp
  ingest_op : EventService → Text → IngestRequest → LinkOp

unfoldable pub act_on : Context → LinkOp → Db → Db
act_on ctx (create_asset_op a) db = (Assets.create ctx a db).1
act_on ctx (delete_asset_op id) db = (delete_asset ctx id db).1
act_on ctx (delete_assets_of_op job_id) db = (delete_by_job_id ctx job_id db).1
act_on ctx (delete_job_op id) db = (delete_job ctx id db).1
act_on ctx (ingest_op service fresh request) db = (ingest service ctx fresh request db).1

unfoldable pub act_on_all : List (Context × LinkOp) → Db → Db
unfolding act_on
act_on_all [] db = db
act_on_all ((ctx, op) ∷ ops) db = act_on_all ops (act_on ctx op db)

act_on-IsLinked :
    (ctx : Context) (op : LinkOp) (db : Db) → IsLinked db → IsLinked (act_on ctx op db)
unfolding act_on
act_on-IsLinked ctx (create_asset_op a) db l = create-IsLinked ctx a db l
act_on-IsLinked ctx (delete_asset_op id) db l = delete_asset-IsLinked ctx id db l
act_on-IsLinked ctx (delete_assets_of_op job_id) db l = delete_by_job_id-IsLinked ctx job_id db l
act_on-IsLinked ctx (delete_job_op id) db l = delete_job-IsLinked ctx id db l
act_on-IsLinked ctx (ingest_op service fresh request) db l =
    ingest-IsLinked service ctx fresh request db l

-- Over any run of creations and deletions of assets, deletions of jobs and reported requests, whether
-- each succeeds or fails, the tables stay linked: no two assets share an id or a path, the job of each
-- asset is there, and so is the asset that an event names.
pub act_on_all-IsLinked :
    (ops : List (Context × LinkOp)) (db : Db) → IsLinked db → IsLinked (act_on_all ops db)
unfolding act_on_all
act_on_all-IsLinked [] db l = l
act_on_all-IsLinked ((ctx, op) ∷ ops) db l =
    act_on_all-IsLinked ops (act_on ctx op db) (act_on-IsLinked ctx op db l)
