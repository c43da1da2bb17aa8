-- ===== src/Witnesses/Models.antt =====
-- A world model with one department, employee and project, from its document to a run.
use honeygen.Prelude.{
  All, Result, ◌≡◌, refl, ◌<◌, ◌≤◌, ◌+◌, ◌*◌, none, some, List, [], ◌∷◌, ok, err, true, false,
  arith, if◌then◌else◌, ◌⊎◌, ◌↔◌, length, pos,
}
use honeygen.Text.{Text, codes, text_eq, trim_space}
use honeygen.Json
use honeygen.Json.{
  Json, null, string, array, object, Items, no_items, item, Members, no_members, member, members,
  Codec, RawMap, read_field, int_limit,
}
use honeygen.Database.{StoredWorldModel, Db, live}
use honeygen.Database.Table
use honeygen.Database.Table.{find, matching, has_key}
use honeygen.WorldModels
use honeygen.WorldModels.{
  WorldModel, Organization, no_settings, read_settings, no_world_model, no_organization,
}
use honeygen.WorldModels.Payload
use honeygen.WorldModels.Payload.{validate_payload, raw_of}
use honeygen.WorldModels.Rows
use honeygen.WorldModels.Accepted.{IsAccepted, validate_payload_iff}
use honeygen.WorldModels.Stored.{Decodes, world_model_at, list_iff, update_lem}
use honeygen.WorldModels.Seeding.{IsSeeded, ensure_seed_data_lem}
use honeygen.WorldModels.Catalog
use honeygen.WorldModels.Catalog.{demo_world_model_id, WorldModelSummary, row_for}
use honeygen.WorldModels.Decoding.{IsUnambiguous}
use honeygen.Jobs.{job_key}
use honeygen.Generation.Worker.{ManifestEntry}
use honeygen.Generation.Steps.{IsBusy}
use honeygen.Generation.Planner.{
  Packages, IsDocumented, PlanError, intn_panics, count_variance, is_incomplete, plan,
}
use honeygen.Generation.Planner.Counts.{plan-length}
use honeygen.Generation.Planner.Paths.{AllStored, plan-Stores}
use honeygen.Generation.Launch.{Service, Launched, run}
use honeygen.Generation.Launch.Started.{all_live}
use honeygen.Generation.Launch.Whole.{IsRunnable, Ends, run_accepted}
use honeygen.Witnesses.{tables}

abbrev texts : Text → Items
texts t = item (string t) no_items

abbrev document : Members
document =
    member (codes "organization")
      (object (
        member (codes "name") (string (codes " N ")) (
          member (codes "industry") (string (codes "I")) (
            member (codes "size") (string (codes "S")) (
              member (codes "region") (string (codes "R"))
                (member (codes "domain_theme") (string (codes "T")) no_members))))))
      (member (codes "branding") (object (member (codes "tone") (string (codes "dry")) no_members))
        (member (codes "departments") (array (texts (codes "Ops"))) (
          member (codes "employees")
            (array (
              item
                (object (
                  member (codes "name") (string (codes "Ann")) (
                    member (codes "role") (string (codes "Lead"))
                      (member (codes "department") (string (codes "Ops")) no_members))))
                no_items))
            (member (codes "projects") (array (texts (codes "P")))
              (member (codes "document_themes") (array (texts (codes "T"))) no_members)))))

abbrev body : Text
body = codes "doc"

-- a codec that knows this document, and the empty object
abbrev codec : Codec
codec = record {
  parse = λ t. if text_eq t body then some (object document) else none;
  print = λ j. body;
  fold_name = λ k. k;
}

abbrev stored_model : StoredWorldModel
stored_model = record {
  id = codes "w";
  name = codes "N";
  description = [];
  json_blob = body;
  created_at = 1;
  updated_at = 1;
}

abbrev db : Db
db = record (tables [] [] [] []) { world_models = stored_model ∷ [] }

-- a source that draws zero and leaves every order
abbrev packages : Packages
packages = record {
  Source = Unit;
  seeded = λ t. tt;
  intn = λ n s. (0, s);
  shuffle = λ xs s. (xs, s);
  sort_slice = λ before xs. xs;
  to_lower = λ t. t;
}

packages-IsDocumented : IsDocumented packages
packages-IsDocumented = record {
  intn-lt = λ n s h. h;
  shuffle-matching = λ p xs s. refl;
  sort_slice-matching = λ p before xs. refl;
}

abbrev service : Service
service = record {
  has_provider = true;
  packages = packages;
  codec = codec;
  decimal = λ n. [];
  job_id = codes "j";
}

accepted : validate_payload codec body ≡ ok (codes "N", [])
unfolding Payload.validate_payload Json.and_then text_eq Json.raw_map Json.lookup Json.is_null
    WorldModels.read_organization read_field Json.read_text trim_space WorldModels.read_branding
    Json.read_list WorldModels.read_employees WorldModels.read_employee
accepted = refl

validate_payload_iff_example : (validate_payload codec body ≡ ok (codes "N", [])) ↔ (
    (raw : RawMap) × (raw_of codec body ≡ some raw)
    × (o : Organization) × IsAccepted codec raw o
    × (trim_space o.name ≡ codes "N")
    × (trim_space o.description ≡ []))
validate_payload_iff_example = validate_payload_iff codec body (codes "N") []

up : db.down ≡ false
up = refl

list_iff_example :
    ((ss : List WorldModelSummary) × (Catalog.list codec live db ≡ ok ss))
    ↔ All (Decodes codec) db.world_models
list_iff_example = list_iff codec live db up

found : world_model_at db (codes "w") ≡ some stored_model
unfolding find text_eq
found = refl

abbrev replaced_model : StoredWorldModel
replaced_model = record stored_model {
  name = codes "N";
  description = [];
  json_blob = body;
  updated_at = db.now;
}

update_lem_example :
    let (answer, db') = Catalog.update codec live (codes "w") body db in
    (answer ≡ ok replaced_model)
    × ((k : Text)
        → world_model_at db' k
          ≡ (if text_eq (codes "w") k then some replaced_model else world_model_at db k))
update_lem_example =
    update_lem codec live (codes "w") body (codes "N") [] db up accepted stored_model found

-- the table with the demo world model
abbrev seeded_db : Db
seeded_db = record db {
  world_models =
      stored_model
      ∷ record stored_model { id = demo_world_model_id; created_at = 9; updated_at = 9 }
      ∷ [];
}

seeded : Catalog.ensure_seed_data codec live (some body) db ≡ (ok tt, seeded_db)
unfolding Catalog.ensure_seed_data Rows.create matching Rows.get find text_eq validate_payload
    Json.and_then Json.raw_map Json.lookup Json.is_null WorldModels.read_organization read_field
    Json.read_text trim_space WorldModels.read_branding Json.read_list WorldModels.read_employees
    WorldModels.read_employee
seeded = refl

ensure_seed_data_lem_example :
    IsSeeded db seeded_db
    × (Catalog.ensure_seed_data codec live (some body) seeded_db ≡ (ok tt, seeded_db))
ensure_seed_data_lem_example = ensure_seed_data_lem codec live (some body) db seeded_db seeded

abbrev model : WorldModel
model = record no_world_model {
  organization = record no_organization { name = codes "N" };
  departments = codes "Ops" ∷ [];
  employees = record { name = codes "Ann"; role = codes "Lead"; department = codes "Ops" } ∷ [];
  projects = codes "P" ∷ [];
}

plan-length_example :
    ((int_limit ≤ count_variance (pos 0) * 2 + 1)
      × (plan packages (codes "w") model ≡ err intn_panics))
    ⊎ ((es : List ManifestEntry) × (plan packages (codes "w") model ≡ ok es)
        × (10 + length model.departments + 2 * length model.employees ≤ length es)
        × (length es ≤ 10 + length model.departments + 17 * length model.employees))
plan-length_example = plan-length packages packages-IsDocumented (codes "w") model named complete
  where
    named : text_eq (trim_space (codes "w")) [] ≡ false
    named = unfold trim_space text_eq in refl

    complete : is_incomplete packages model ≡ false
    complete = refl

abbrev the_manifest : Result PlanError (List ManifestEntry) → List ManifestEntry
the_manifest (ok es) = es
the_manifest (err e) = []

abbrev manifest : List ManifestEntry
manifest = the_manifest (plan packages (codes "w") model)

planned : plan packages (codes "w") model ≡ ok manifest
unfolding plan text_eq trim_space Table.order_by
planned = refl

plan-Stores_example : AllStored manifest
plan-Stores_example = plan-Stores packages packages-IsDocumented (codes "w") model manifest planned

runnable : IsRunnable service (codes "w") db
unfolding text_eq
runnable = record {
  up = refl;
  free = no_job;
  named = named;
  provider = refl;
  row = stored_model;
  stored = stored;
  document = document;
  parsed = parsed;
  name = codes "N";
  description = [];
  accepted = accepted;
  plain = plain;
  settings = no_settings;
  set = set;
  small = small;
}
  where
    no_job : matching (has_key job_key (codes "j")) db.jobs ≡ 0
    no_job = unfold matching in refl

    named : text_eq (trim_space (codes "w")) [] ≡ false
    named = unfold trim_space text_eq in refl

    stored : Rows.get live (codes "w") db ≡ ok stored_model
    stored = unfold Rows.get find in refl

    parsed : codec.parse body ≡ some (object document)
    parsed = unfold text_eq in refl

    plain : IsUnambiguous codec (members document)
    plain =
        unfold matching text_eq in
        record {
          organization = omega arith;
          branding = omega arith;
          departments = omega arith;
          employees = omega arith;
          projects = omega arith;
          document_themes = omega arith;
        }

    set :
        read_field codec
          (read_settings codec)
          (codes "generation_settings")
          (members document)
          no_settings
        ≡ some no_settings
    set = unfold read_field text_eq in refl

    small : count_variance (pos 0) * 2 + 1 < int_limit
    small = unfold count_variance in omega arith

run_accepted_example :
    (l : Launched) × (db' : Db) × (run service all_live (codes "w") db ≡ (ok l, db'))
    × IsBusy (codes "j") db'
    × (13 ≤ length l.manifest)
    × AllStored l.manifest
    × Ends service l db'
run_accepted_example = run_accepted service (codes "w") db packages-IsDocumented runnable
