-- ===== src/WorldModels/Decoding.antt =====
-- worldmodels/service.go and generation/service.go: a document that was accepted, decoded for a run.
use honeygen.Prelude.{◌≤◌, ◌≡◌, ◌≢◌, refl, ◌∙◌, some, Option, List, [], ok, some-eq_inv}
use honeygen.Text.{Text, codes}
use honeygen.Database.Table.{matching}
use honeygen.Json.{
  Json, Members, object, members, Codec, RawMap, enter, raw_map, and_then, read_field,
}
use honeygen.Json.Fields.{goes_to, read_field-lookup}
use honeygen.WorldModels.{
  WorldModel, GenerationSettings, Organization, no_organization, no_branding, no_settings,
  read_organization, read_branding, read_texts, read_employees, read_settings, read_world_model,
}
use honeygen.WorldModels.Payload.{raw_of, validate_payload}
use honeygen.WorldModels.Checks.{IsField}
use honeygen.WorldModels.Accepted.{IsAccepted, validate_payload_iff}
use honeygen.WorldModels.Catalog.{decode_world_model}

module _ (c : Codec) where
  -- one member of the object at most goes to each of the six required parts
  pub record IsUnambiguous (ms : List (Text × Json)) : Type 0 where
    pub organization : matching (goes_to c (codes "organization")) ms ≤ 1
    pub branding : matching (goes_to c (codes "branding")) ms ≤ 1
    pub departments : matching (goes_to c (codes "departments")) ms ≤ 1
    pub employees : matching (goes_to c (codes "employees")) ms ≤ 1
    pub projects : matching (goes_to c (codes "projects")) ms ≤ 1
    pub document_themes : matching (goes_to c (codes "document_themes")) ms ≤ 1

  field_read :
      {A : Type 0} (read : Json → A → Option A) (key : Text) (ms : List (Text × Json)) (old a : A)
      → matching (goes_to c key) ms ≤ 1
      → IsField (λ j. read j old) key (some (enter [] ms)) a
      → read_field c read key ms old ≡ some a
  field_read read key ms old a one f =
      read_field-lookup c read key ms f.json old one f.found ∙ f.reads

  -- A document that `validatePayload` accepts, in which one member at most goes to each required part,
  -- and whose generation settings decode, decodes as a whole, with at least one department, employee
  -- and project.
  pub decode_world_model_accepted :
      (body name description : Text) (o : Members) (settings : GenerationSettings)
      → c.parse body ≡ some (object o)
      → validate_payload c body ≡ ok (name, description)
      → IsUnambiguous (members o)
      → read_field c (read_settings c) (codes "generation_settings") (members o) no_settings
        ≡ some settings
      → (m : WorldModel) × (decode_world_model c body ≡ some m)
        × (m.departments ≢ [])
        × (m.employees ≢ [])
        × (m.projects ≢ [])
        × (m.generation_settings ≡ settings)
  unfolding decode_world_model read_world_model and_then
  decode_world_model_accepted body name description o settings parsed accepted plain set =
      let (raw, decoded, org, a, n, d) =
        (validate_payload_iff c body name description).0 accepted in
      go raw org (same raw decoded) a
    where
      same : (raw : RawMap) → raw_of c body ≡ some raw → some (enter [] (members o)) ≡ raw
      same raw h = unfold raw_of raw_map and_then in some-eq_inv (rw parsed at h)

      go :
          (raw : RawMap) (org : Organization)
          → some (enter [] (members o)) ≡ raw
          → IsAccepted c raw org
          → (m : WorldModel) × (decode_world_model c body ≡ some m)
            × (m.departments ≢ [])
            × (m.employees ≢ [])
            × (m.projects ≢ [])
            × (m.generation_settings ≡ settings)
      go raw org e a =
          let a' : IsAccepted c (some (enter [] (members o))) org = rw (← e) at a in
          let (b, at_b, tone) = a'.branding in
          let (ds, r_ds) = a'.departments in
          let (es, r_es) = a'.employees in
          let (ps, r_ps) = a'.projects in
          let (ts, r_ts) = a'.document_themes in
          (
            record {
              organization = org;
              branding = b;
              departments = ds;
              employees = es;
              projects = ps;
              document_themes = ts;
              generation_settings = settings;
            },
            rw (
              parsed,
              field_read (read_organization c) (codes "organization") (members o) no_organization
                  org plain.organization a'.organization,
              field_read (read_branding c) (codes "branding") (members o) no_branding b
                  plain.branding at_b,
              field_read (read_texts c) (codes "departments") (members o) [] ds plain.departments
                  r_ds.at_key,
              field_read (read_employees c) (codes "employees") (members o) [] es plain.employees
                  r_es.at_key,
              field_read (read_texts c) (codes "projects") (members o) [] ps plain.projects
                  r_ps.at_key,
              field_read (read_texts c) (codes "document_themes") (members o) [] ts
                  plain.document_themes r_ts.at_key,
              set,
            ),
            r_ds.not_empty,
            r_es.not_empty,
            r_ps.not_empty,
            refl,
          )
