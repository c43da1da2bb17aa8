-- ===== src/WorldModels/Rows.antt =====
-- worldmodels/repository.go: the table of the world models.
use honeygen.Prelude.{
  Bool, ◌&&◌, ◌||◌, not, ltb, ◌==◌, Option, some, none, List, [], ◌∷◌, ◌++◌, if◌then◌else◌, Result,
  ok, err, ℕ,
}
use honeygen.Text.{Text}
use honeygen.Json.{text_lt}
use honeygen.Database.{StoredWorldModel, Db, Context, fails}
use honeygen.Database.Table.{find, update, matching, has_key, order_by}
use honeygen.WorldModels.Payload.{
  WorldModelError, world_model_not_found, already_exists, world_db_failed,
}

abbrev pub world_model_key : StoredWorldModel → Text
world_model_key m = m.id

abbrev pub Answer : Type 0
Answer = Result WorldModelError StoredWorldModel × Db

-- `ORDER BY datetime(updated_at) DESC, datetime(created_at) DESC, name ASC`
unfoldable pub comes_before : StoredWorldModel → StoredWorldModel → Bool
comes_before a b =
    ltb b.updated_at a.updated_at
    || a.updated_at == b.updated_at
      && (ltb b.created_at a.created_at || a.created_at == b.created_at && text_lt a.name b.name)

unfoldable pub list : Context → Db → Result WorldModelError (List StoredWorldModel)
list ctx db =
    if fails ctx db then err world_db_failed else ok (order_by comes_before db.world_models)

unfoldable pub or_not_found : Option StoredWorldModel → Result WorldModelError StoredWorldModel
or_not_found none = err world_model_not_found
or_not_found (some m) = ok m

unfoldable pub get : Context → Text → Db → Result WorldModelError StoredWorldModel
unfolding or_not_found
get ctx id db =
    if fails ctx db
    then err world_db_failed
    else or_not_found (find (has_key world_model_key id) db.world_models)

-- the row that the statement of `Create` writes
abbrev pub new_row : StoredWorldModel → ℕ → StoredWorldModel
new_row m now = record m { created_at = now; updated_at = now }

-- `Create`: the id is the primary key, whose violation is told apart
unfoldable pub create : Context → StoredWorldModel → Db → Answer
unfolding get
create ctx m db =
    if fails ctx db
    then (err world_db_failed, db)
    else if not (matching (has_key world_model_key m.id) db.world_models == 0)
    then (err already_exists, db)
    else let db' = record db { world_models = db.world_models ++ new_row m db.now ∷ [] } in
      (get ctx m.id db', db')

-- the SET clause of `Update`
unfoldable pub set_clause : StoredWorldModel → ℕ → StoredWorldModel → StoredWorldModel
set_clause m now old = record old {
  name = m.name;
  description = m.description;
  json_blob = m.json_blob;
  updated_at = now;
}

unfoldable pub update_row : Context → StoredWorldModel → Db → Answer
unfolding get set_clause
update_row ctx m db =
    if fails ctx db
    then (err world_db_failed, db)
    else if matching (has_key world_model_key m.id) db.world_models == 0
    then (err world_model_not_found, db)
    else let db' = record db {
      world_models = update (has_key world_model_key m.id) (set_clause m db.now) db.world_models;
    } in
      (get ctx m.id db', db')
