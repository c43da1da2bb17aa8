-- ===== src/Assets.antt =====
-- assets/repository.go: the records of stored files.
pub mod Pages
pub mod References
pub mod Undoing
pub mod Tree
pub mod Inserted
pub mod Grown
use honeygen.Prelude.{
  ℕ, zero, suc, ◌+◌, Bool, true, false, not, ◌&&◌, ◌||◌, Option, none, some, List, [], ◌∷◌, ◌++◌,
  ltb, ◌==◌, if◌then◌else◌, length, take, drop, Result, ok, err,
}
use honeygen.Text.{Text, text_eq}
use honeygen.Database.{Asset, Event, Job, StoredWorldModel, Db, Context, fails}
use honeygen.Database.Table.{find, select, update, delete, matching, has_key}

pub data AssetError : Type 0 where
  asset_not_found path_conflict asset_db_failed out_of_fuel : AssetError

abbrev pub asset_key : Asset → Text
asset_key a = a.id

abbrev pub asset_path : Asset → Text
asset_path a = a.path

abbrev pub job_of : Asset → Text
job_of a = a.generation_job_id

unfoldable pub asset_or_not_found : Option Asset → Result AssetError Asset
asset_or_not_found none = err asset_not_found
asset_or_not_found (some a) = ok a

unfoldable pub get : Context → Text → Db → Result AssetError Asset
unfolding asset_or_not_found
get ctx id db =
    if fails ctx db
    then err asset_db_failed
    else asset_or_not_found (find (has_key asset_key id) db.assets)

unfoldable pub find_by_path : Context → Text → Db → Result AssetError Asset
unfolding asset_or_not_found
find_by_path ctx path db =
    if fails ctx db
    then err asset_db_failed
    else asset_or_not_found (find (has_key asset_path path) db.assets)

-- the foreign keys of the table
has_owner : Asset → Db → Bool
has_owner a db =
    not (matching (λ (j : Job). text_eq j.id a.generation_job_id) db.jobs == 0)
    && not (matching (λ (m : StoredWorldModel). text_eq m.id a.world_model_id) db.world_models == 0)

abbrev pub stored_row : Asset → Db → Asset
stored_row a db = record a { created_at = db.now }

-- `Create`, with the contexts of the INSERT and of the `Get` behind it: the id is the primary key and the
-- path has a unique index, whose violation is told apart
unfoldable pub insert_read : Context → Context → Asset → Db → Result AssetError Asset × Db
unfolding get has_owner
insert_read ctx at_get a db =
    if fails ctx db || not (matching (has_key asset_key a.id) db.assets == 0)
    then (err asset_db_failed, db)
    else if not (matching (has_key asset_path a.path) db.assets == 0)
    then (err path_conflict, db)
    else if not (has_owner a db)
    then (err asset_db_failed, db)
    else let db' = record db { assets = db.assets ++ stored_row a db ∷ [] } in
      (get at_get a.id db', db')

-- `Create` under one context
unfoldable pub create : Context → Asset → Db → Result AssetError Asset × Db
unfolding insert_read
create ctx = insert_read ctx ctx

abbrev pub refers_to : (Text → Bool) → Event → Bool
refers_to gone e = elim e.asset_id [ none ↦ false | some id ↦ gone id ]

abbrev pub cleared : Event → Event
cleared e = record e { asset_id = none }

-- `clearAssetReferences`: `UPDATE events SET asset_id = NULL`
unfoldable pub clear_references : (Text → Bool) → List Event → List Event
clear_references gone = update (refers_to gone) cleared

-- `Delete`, one transaction: it is rolled back where no asset has the id
unfoldable pub delete_asset : Context → Text → Db → Result AssetError (Unit {0}) × Db
unfolding clear_references
delete_asset ctx id db =
    if fails ctx db
    then (err asset_db_failed, db)
    else if matching (has_key asset_key id) db.assets == 0
    then (err asset_not_found, db)
    else (
      ok tt,
      record db {
        events = clear_references (λ k. text_eq k id) db.events;
        assets = delete (has_key asset_key id) db.assets;
      },
    )

-- the ids of `SELECT id FROM assets WHERE generation_job_id = ?`
unfoldable pub is_asset_of : Text → List Asset → Text → Bool
is_asset_of job_id assets k =
    not (matching (λ a. text_eq a.id k && has_key job_of job_id a) assets == 0)

-- `DeleteByJobID`, one transaction
unfoldable pub delete_by_job_id : Context → Text → Db → Result AssetError (Unit {0}) × Db
unfolding clear_references is_asset_of
delete_by_job_id ctx job_id db = if fails ctx db then (err asset_db_failed, db) else (
  ok tt,
  record db {
    events = clear_references (is_asset_of job_id db.assets) db.events;
    assets = delete (has_key job_of job_id) db.assets;
  },
)

-- `ListOptions` and its normalization; a negative limit or offset acts as 0 does
pub record ListOptions : Type 0 where
  pub world_model_id : Text
  pub generation_job_id : Text
  pub limit : ℕ
  pub offset : ℕ

unfoldable pub normalize_limit : ℕ → ℕ
normalize_limit limit = if limit == 0 || ltb 1000 limit then 100 else limit

-- the WHERE clause: an empty option asks for nothing
unfoldable pub wanted : ListOptions → Asset → Bool
wanted o a =
    (text_eq o.world_model_id [] || text_eq a.world_model_id o.world_model_id)
    && (text_eq o.generation_job_id [] || text_eq a.generation_job_id o.generation_job_id)

-- the order of texts by code point
unfoldable pub text_lt : Text → Text → Bool
text_lt [] [] = false
text_lt [] (b ∷ t) = true
text_lt (a ∷ s) [] = false
text_lt (a ∷ s) (b ∷ t) = if a == b then text_lt s t else ltb a b

-- `ORDER BY path ASC, datetime(created_at) DESC`; rows that tie keep their order
unfoldable pub comes_before : Asset → Asset → Bool
unfolding text_lt
comes_before a b = text_lt a.path b.path || text_eq a.path b.path && ltb b.created_at a.created_at

insert_sorted : Asset → List Asset → List Asset
insert_sorted a [] = a ∷ []
insert_sorted a (b ∷ bs) = if comes_before b a then b ∷ insert_sorted a bs else a ∷ b ∷ bs

unfoldable pub sort_assets : List Asset → List Asset
unfolding insert_sorted
sort_assets [] = []
sort_assets (a ∷ rows) = insert_sorted a (sort_assets rows)

-- every row that the options ask for, in order
unfoldable pub wanted_rows : ListOptions → Db → List Asset
unfolding sort_assets
wanted_rows o db = sort_assets (select (wanted o) db.assets)

unfoldable pub list : Context → ListOptions → Db → Result AssetError (List Asset)
unfolding wanted_rows normalize_limit
list ctx o db =
    if fails ctx db
    then err asset_db_failed
    else ok (take (normalize_limit o.limit) (drop o.offset (wanted_rows o db)))

abbrev pub page_size : ℕ
page_size = 1000

-- the loop of `listAllForTree`, with fuel for its rounds
unfoldable pub list_pages :
    ℕ → Context → ListOptions → Db → ℕ → List Asset → Result AssetError (List Asset)
list_pages zero ctx o db offset all_items = err out_of_fuel
list_pages (suc fuel) ctx o db offset all_items =
    elim (list ctx (record o { limit = page_size; offset = offset }) db) [
      | err e ↦ err e
      | ok items ↦
          if ltb (length items) page_size
          then ok (all_items ++ items)
          else list_pages fuel ctx o db (offset + length items) (all_items ++ items)
    ]

-- a round for each wanted row, and one more, is enough
unfoldable pub list_all_for_tree : Context → ListOptions → Db → Result AssetError (List Asset)
unfolding list_pages
list_all_for_tree ctx o db = list_pages (suc (length (wanted_rows o db))) ctx o db 0 []
