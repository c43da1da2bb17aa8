-- ===== src/WorldModels/Stored.antt =====
-- worldmodels/service.go and worldmodels/repository.go: what the operations leave in the table.
use honeygen.Prelude.{
  ◌≡◌, ◌↔◌, refl, ◌∙◌, false, ◌==◌, if◌then◌else◌, Option, none, some, List, [], ◌∷◌, ◌++◌, All,
  All-imp, arith, ok, ◌>>=◌, >>=-eq-ok,
}
use honeygen.Text.{Text, text_eq}
use honeygen.Text.Equality.{text_eq_refl, text_eq_iff}
use honeygen.Database.{StoredWorldModel, Db, Context, fails}
use honeygen.Database.Table.{find, update, matching, has_key, find-append, matching-zero, order_by}
use honeygen.Database.Order.{All-order_by}
use honeygen.Json.{Codec}
use honeygen.WorldModels.Payload.{validate_payload, normalized_payload_json, or_decode_failed}
use honeygen.WorldModels.{WorldModel}
use honeygen.WorldModels.Rows
use honeygen.WorldModels.Rows.{
  world_model_key, or_not_found, comes_before, new_row, set_clause, update_row,
}
use honeygen.WorldModels.Catalog
use honeygen.WorldModels.Catalog.{
  WorldModelSummary, demo_world_model_id, row_for, create_validated, update_validated, seeded,
  seed_validated, load_seed, seed_unless_found, ensure_seed_data, build_summary, summaries,
  summary_of, decode_world_model,
}

abbrev pub world_model_at : Db → Text → Option StoredWorldModel
world_model_at db id = find (has_key world_model_key id) db.world_models

module _ (c : Codec) where
  abbrev Summarized : StoredWorldModel → Type 0
  Summarized m = (s : WorldModelSummary) × (build_summary c m ≡ ok s)

  -- the document of a row is an object whose branding can be normalized, and it decodes as a whole
  abbrev pub Decodes : StoredWorldModel → Type 0
  Decodes m =
      (normalized : Text) × (model : WorldModel) × (normalized_payload_json c m.json_blob
        ≡ ok normalized)
      × (decode_world_model c normalized ≡ some model)

  summary_iff : (m : StoredWorldModel) → Summarized m ↔ Decodes m
  unfolding build_summary or_decode_failed
  summary_iff m = (
    λ (s, h).
        let (normalized, first, more) = >>=-eq-ok (normalized_payload_json c m.json_blob) _ h in
        decoded normalized first (decode_world_model c normalized) refl more,
    λ (normalized, model, first, second). (summary_of c m model, rw (first, second) refl),
  )
    where
      decoded :
          (normalized : Text)
          → normalized_payload_json c m.json_blob ≡ ok normalized
          → (o : Option WorldModel) → decode_world_model c normalized ≡ o
          → {s : WorldModelSummary}
          → ((or_decode_failed o) >>= λ model. ok (summary_of c m model)) ≡ ok s
          → Decodes m
      decoded normalized first none e h = cc
      decoded normalized first (some model) e h = (normalized, model, first, e)

  summaries_iff :
      (ms : List StoredWorldModel)
      → ((ss : List WorldModelSummary) × (summaries c ms ≡ ok ss)) ↔ All Summarized ms
  unfolding summaries
  summaries_iff [] = (λ h. tt, λ h. ([], refl))
  summaries_iff (m ∷ ms) = (
    λ (ss, h).
        let (s, first, more) = >>=-eq-ok (build_summary c m) _ h in
        let (rest, others, last) = >>=-eq-ok (summaries c ms) _ more in
        ((s, first), (summaries_iff ms).0 (rest, others)),
    λ ((s, first), hs).
        let (rest, others) = (summaries_iff ms).1 hs in (s ∷ rest, rw (first, others) refl),
  )

  -- On a database that answers, the list of the world models is answered exactly where the
  -- document of each stored row normalizes and decodes: one row that does not decode takes the whole
  -- list away.
  pub list_iff :
      (ctx : Context) (db : Db)
      → fails ctx db ≡ false
      → ((ss : List WorldModelSummary) × (Catalog.list c ctx db ≡ ok ss))
        ↔ All Decodes db.world_models
  unfolding Catalog.list Rows.list
  list_iff ctx db up =
      let sorted = All-order_by Summarized comes_before db.world_models in
      let both = summaries_iff (order_by comes_before db.world_models) in
      rw up (
        λ h.
            All-imp Summarized Decodes db.world_models (λ m. (summary_iff m).0)
              (sorted.0 (both.0 h)),
        λ h.
            both.1
              (sorted.1 (All-imp Decodes Summarized db.world_models (λ m. (summary_iff m).1) h)),
      )

find-set :
    (k j : Text) (f : StoredWorldModel → StoredWorldModel) (rows : List StoredWorldModel)
    → ((r : StoredWorldModel) → (f r).id ≡ r.id)
    → find (has_key world_model_key j) (update (has_key world_model_key k) f rows)
      ≡ elim (find (has_key world_model_key j) rows) [
        | none ↦ none
        | some r ↦ some (if text_eq k j then f r else r)
      ]
unfolding find update
find-set k j f [] same = refl
find-set k j f (r ∷ rows) same = ground (
  arith,
  find-set k j f rows same,
  same r,
  text_eq_iff r.id k,
  text_eq_iff r.id j,
  text_eq_iff k j,
)

pub get_found :
    (ctx : Context) (id : Text) (db : Db) (m : StoredWorldModel)
    → fails ctx db ≡ false
    → world_model_at db id ≡ some m
    → Rows.get ctx id db ≡ ok m
unfolding Rows.get or_not_found
get_found ctx id db m up found = rw (up, found) refl

-- the row that the table gains
module _ (ctx : Context) (m : StoredWorldModel) (db : Db) (up : fails ctx db ≡ false)
    (missing : world_model_at db m.id ≡ none) where
  abbrev pub gained : Db
  gained = record db { world_models = db.world_models ++ new_row m db.now ∷ [] }

  pub found-gained :
      (k : Text)
      → world_model_at gained k ≡ elim (world_model_at db k) [
        | none ↦ if text_eq m.id k then some (new_row m db.now) else none
        | some r ↦ some r
      ]
  unfolding find
  found-gained k = find-append (has_key world_model_key k) db.world_models (new_row m db.now ∷ [])

  pub create-gained : Rows.create ctx m db ≡ (ok (new_row m db.now), gained)
  unfolding Rows.create or_not_found
  create-gained =
      let zero_rows = (matching-zero (has_key world_model_key m.id) db.world_models).0 missing in
      let found : world_model_at gained m.id ≡ some (new_row m db.now) =
        found-gained m.id ∙ (rw (missing, text_eq_refl m.id) refl) in
      rw (up, zero_rows, found) refl

module _ (c : Codec) (ctx : Context) (id payload name description : Text) (db : Db)
    (up : fails ctx db ≡ false)
    (accepted : validate_payload c payload ≡ ok (name, description)) where
  abbrev row : StoredWorldModel
  row = row_for id payload (name, description)

  abbrev replaced : Db
  replaced = record db {
    world_models = update (has_key world_model_key id) (set_clause row db.now) db.world_models;
  }

  found_replaced :
      (k : Text)
      → world_model_at replaced k ≡ elim (world_model_at db k) [
        | none ↦ none
        | some r ↦ some (if text_eq id k then set_clause row db.now r else r)
      ]
  unfolding set_clause
  found_replaced k = find-set id k (set_clause row db.now) db.world_models (λ r. refl)

  update_answer :
      (old : StoredWorldModel)
      → world_model_at db id ≡ some old
      → Catalog.update c ctx id payload db ≡ (ok (set_clause row db.now old), replaced)
  unfolding Catalog.update update_validated update_row or_not_found
  update_answer old there =
      let found : world_model_at replaced id ≡ some (set_clause row db.now old) =
        found_replaced id ∙ (rw (there, text_eq_refl id) refl) in
      rw (accepted, up, there_row, found) refl
    where
      there_row : (matching (has_key world_model_key id) db.world_models == 0) ≡ false
      there_row = ground (arith, matching-zero (has_key world_model_key id) db.world_models)

  -- On a database that answers, an accepted document replaces the name, the description and the text of
  -- the row with the id, and its time of update; the row is returned, and each other row stays.
  pub update_lem :
      (old : StoredWorldModel)
      → world_model_at db id ≡ some old
      → let (answer, db') = Catalog.update c ctx id payload db in
        let new = record old {
          name = name;
          description = description;
          json_blob = payload;
          updated_at = db.now;
        } in
        (answer ≡ ok new)
        × ((k : Text)
            → world_model_at db' k ≡ (if text_eq id k then some new else world_model_at db k))
  unfolding set_clause
  update_lem old there =
      rw (update_answer old there) (refl, λ k. others k (world_model_at db k) refl)
    where
      others :
          (k : Text) (o : Option StoredWorldModel)
          → world_model_at db k ≡ o
          → world_model_at replaced k
            ≡ (if text_eq id k then some (set_clause row db.now old) else world_model_at db k)
      others k none e = found_replaced k ∙ (rw e (ground (arith, text_eq_iff id k)))
      others k (some r) e = found_replaced k ∙ (rw e (ground (arith, text_eq_iff id k)))
