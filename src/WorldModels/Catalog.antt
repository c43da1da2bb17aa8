-- ===== src/WorldModels/Catalog.antt =====
-- worldmodels/service.go: the service. The id generator, the loader of the demo document and the codec
-- are arguments.
use honeygen.Prelude.{ℕ, Option, some, none, List, [], ◌∷◌, map, Result, ok, err, ◌>>=◌, length}
use honeygen.Text.{Text, codes}
use honeygen.Json.{Json, string, Codec, RawMap, and_then, set_key}
use honeygen.Database.{StoredWorldModel, Db, Context}
use honeygen.WorldModels.{WorldModel, no_world_model, read_world_model}
use honeygen.WorldModels.Payload.{
  WorldModelError, world_model_not_found, already_exists, seed_failed, panics, validate_payload,
  normalized_payload_json, or_decode_failed, raw_of,
}
use honeygen.WorldModels.Rows
use honeygen.WorldModels.Rows.{Answer, update_row}

-- `DemoWorldModelID`
abbrev pub demo_world_model_id : Text
demo_world_model_id = codes "northbridge-financial"

pub record WorldModelSummary : Type 0 where
  pub id : Text
  pub name : Text
  pub description : Text
  pub department_count : ℕ
  pub employee_count : ℕ
  pub project_count : ℕ
  pub document_theme_count : ℕ
  pub created_at : ℕ
  pub updated_at : ℕ

abbrev pub row_for : Text → Text → Text × Text → StoredWorldModel
row_for id payload (name, description) = record {
  id = id;
  name = name;
  description = description;
  json_blob = payload;
  created_at = 0;
  updated_at = 0;
}

-- behind the validation in `Create`
unfoldable pub create_validated :
    Context → Text → Text → Db → Result WorldModelError (Text × Text) → Answer
create_validated ctx id payload db (err e) = (err e, db)
create_validated ctx id payload db (ok named) = Rows.create ctx (row_for id payload named) db

-- behind the validation in `Update`
unfoldable pub update_validated :
    Context → Text → Text → Db → Result WorldModelError (Text × Text) → Answer
update_validated ctx id payload db (err e) = (err e, db)
update_validated ctx id payload db (ok named) = update_row ctx (row_for id payload named) db

-- behind the creation of the demo row
unfoldable pub seeded : Answer → Result WorldModelError (Unit {0}) × Db
seeded (ok m, db) = (ok tt, db)
seeded (err already_exists, db) = (ok tt, db)
seeded (err e, db) = (err e, db)

-- behind the validation of the demo document
unfoldable pub seed_validated :
    Context
    → Text
    → Db
    → Result WorldModelError (Text × Text)
    → Result WorldModelError (Unit {0}) × Db
unfolding seeded
seed_validated ctx seed db (err e) = (err e, db)
seed_validated ctx seed db (ok named) =
    seeded (Rows.create ctx (row_for demo_world_model_id seed named) db)

module _ (c : Codec) where
  -- `Create`, with the id that the generator gave
  unfoldable pub create : Context → Text → Text → Db → Answer
  unfolding create_validated
  create ctx id payload db = create_validated ctx id payload db (validate_payload c payload)

  unfoldable pub update : Context → Text → Text → Db → Answer
  unfolding update_validated
  update ctx id payload db = update_validated ctx id payload db (validate_payload c payload)

  -- behind the loader of the demo document
  unfoldable pub load_seed : Context → Option Text → Db → Result WorldModelError (Unit {0}) × Db
  unfolding seed_validated
  load_seed ctx none db = (err seed_failed, db)
  load_seed ctx (some seed) db = seed_validated ctx seed db (validate_payload c seed)

  -- behind the look-up of the demo row
  unfoldable pub seed_unless_found :
      Context
      → Option Text
      → Db
      → Result WorldModelError StoredWorldModel
      → Result WorldModelError (Unit {0}) × Db
  unfolding load_seed
  seed_unless_found ctx seed db (ok m) = (ok tt, db)
  seed_unless_found ctx seed db (err world_model_not_found) = load_seed ctx seed db
  seed_unless_found ctx seed db (err e) = (err e, db)

  unfoldable pub ensure_seed_data :
      Context → Option Text → Db → Result WorldModelError (Unit {0}) × Db
  unfolding seed_unless_found
  ensure_seed_data ctx seed db = seed_unless_found ctx seed db (Rows.get ctx demo_world_model_id db)

  abbrev pub summary_of : StoredWorldModel → WorldModel → WorldModelSummary
  summary_of m model = record {
    id = m.id;
    name = m.name;
    description = m.description;
    department_count = length model.departments;
    employee_count = length model.employees;
    project_count = length model.projects;
    document_theme_count = length model.document_themes;
    created_at = m.created_at;
    updated_at = m.updated_at;
  }

  -- `json.Unmarshal` of a text into a `WorldModel`
  unfoldable pub decode_world_model : Text → Option WorldModel
  decode_world_model json_blob =
      and_then (c.parse json_blob) (λ j. read_world_model c j no_world_model)

  unfoldable pub build_summary : StoredWorldModel → Result WorldModelError WorldModelSummary
  unfolding or_decode_failed
  build_summary m = do
    normalized ← normalized_payload_json c m.json_blob
    model ← or_decode_failed (decode_world_model normalized)
    ok (summary_of m model)

  -- `for _, item := range items`: the first error ends the loop
  unfoldable pub summaries : List StoredWorldModel → Result WorldModelError (List WorldModelSummary)
  summaries [] = ok []
  summaries (m ∷ ms) = build_summary m >>= λ s. summaries ms >>= λ rest. ok (s ∷ rest)

  unfoldable pub list : Context → Db → Result WorldModelError (List WorldModelSummary)
  unfolding summaries
  list ctx db = do items ← Rows.list ctx db; summaries items

  unfoldable pub get : Context → Text → Db → Result WorldModelError StoredWorldModel
  get ctx id db = Rows.get ctx id db

-- what `Expand` puts into the map beside the values of the document
pub data Value : Type 0 where
  of_json : Json → Value
  of_time : ℕ → Value

abbrev pub Expanded : Type 0
Expanded = List (Text × Value)

-- a JSON value as a value of the map
abbrev value_of : Text × Json → Text × Value
value_of (k, j) = (k, of_json j)

-- behind the decoding of the document: the columns of the row enter the map
unfoldable pub with_columns : StoredWorldModel → RawMap → Result WorldModelError Expanded
unfolding set_key
with_columns m none = err panics
with_columns m (some ms) = ok (
    set_key (codes "updatedAt") (of_time m.updated_at) (
      set_key (codes "createdAt") (of_time m.created_at) (
        set_key (codes "description") (of_json (string m.description)) (
          set_key (codes "name") (of_json (string m.name))
            (set_key (codes "id") (of_json (string m.id)) (map value_of ms))))))

-- `Expand`
unfoldable pub expand : Codec → StoredWorldModel → Result WorldModelError Expanded
unfolding with_columns
expand c m = do
  normalized ← normalized_payload_json c m.json_blob
  payload ← or_decode_failed (raw_of c normalized)
  with_columns m payload
