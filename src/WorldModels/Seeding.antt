-- ===== src/WorldModels/Seeding.antt =====
-- worldmodels/service.go, EnsureSeedData: the demo world model enters the table once.
use honeygen.Prelude.{
  ◌≡◌, refl, sym, ap, ◌∙◌, inl, inr, false, if◌then◌else◌, Option, none, some, Bool-cases,
  Option-cases, Result, ok, err, err-ne-ok, some-eq_inv,
}
use honeygen.Text.{Text, text_eq}
use honeygen.Text.Equality.{text_eq_refl}
use honeygen.Database.{StoredWorldModel, Db, Context, fails}
use honeygen.Json.{Codec}
use honeygen.WorldModels.Payload.{WorldModelError, validate_payload}
use honeygen.WorldModels.Rows
use honeygen.WorldModels.Rows.{
  world_model_key, or_not_found, comes_before, new_row, set_clause, update_row,
}
use honeygen.WorldModels.Catalog.{
  demo_world_model_id, row_for, seeded, seed_validated, load_seed, seed_unless_found,
  ensure_seed_data,
}
use honeygen.WorldModels.Stored.{world_model_at, get_found, gained, found-gained, create-gained}

-- what a seeded table is like: the demo row is there, and the others are as before
pub record IsSeeded (before after : Db) : Type 0 where
  pub demo : StoredWorldModel
  pub found : world_model_at after demo_world_model_id ≡ some demo
  pub others :
      (k : Text)
      → text_eq demo_world_model_id k ≡ false
      → world_model_at after k ≡ world_model_at before k
  pub old : (m : StoredWorldModel) → world_model_at before demo_world_model_id ≡ some m → m ≡ demo

gained-IsSeeded :
    (ctx : Context) (seed : Text) (named : Text × Text) (db : Db) (up : fails ctx db ≡ false)
    (missing : world_model_at db demo_world_model_id ≡ none)
    → IsSeeded db (gained ctx (row_for demo_world_model_id seed named) db up missing)
gained-IsSeeded ctx seed named db up missing = record {
  demo = new_row m db.now;
  found =
      found-gained ctx m db up missing demo_world_model_id
      ∙ (rw (missing, text_eq_refl demo_world_model_id) refl);
  others = λ k other. found-gained ctx m db up missing k ∙ (kept k (world_model_at db k) other);
  old = λ r found. cc;
}
  where
    m : StoredWorldModel
    m = row_for demo_world_model_id seed named

    kept :
        (k : Text) (o : Option StoredWorldModel)
        → text_eq demo_world_model_id k ≡ false
        → (elim o [
          | none ↦ if text_eq demo_world_model_id k then some (new_row m db.now) else none
          | some r ↦ some r
        ])
          ≡ o
    kept k none other = rw other refl
    kept k (some r) other = refl

seed_validated-IsSeeded :
    (ctx : Context) (seed : Text) (db db' : Db) (named : Result WorldModelError (Text × Text))
    → fails ctx db ≡ false
    → world_model_at db demo_world_model_id ≡ none
    → seed_validated ctx seed db named ≡ (ok tt, db')
    → IsSeeded db db' × (fails ctx db' ≡ false)
unfolding seed_validated seeded
seed_validated-IsSeeded ctx seed db db' (err e) up missing h =
    absurd (err-ne-ok e tt (ap (λ r. r.0) h))
seed_validated-IsSeeded ctx seed db db' (ok named) up missing h =
    let e : gained ctx (row_for demo_world_model_id seed named) db up missing ≡ db' =
      ap (λ r. r.1)
        (sym (ap seeded (create-gained ctx (row_for demo_world_model_id seed named) db up missing))
          ∙ h) in
    rw (← e) (gained-IsSeeded ctx seed named db up missing, up)

module _ (c : Codec) (ctx : Context) (seed : Option Text) (db db' : Db) where
  loaded :
      (seed : Option Text)
      → fails ctx db ≡ false
      → world_model_at db demo_world_model_id ≡ none
      → load_seed c ctx seed db ≡ (ok tt, db')
      → IsSeeded db db' × (fails ctx db' ≡ false)
  unfolding load_seed
  loaded none up missing h = cc
  loaded (some s) up missing h =
      seed_validated-IsSeeded ctx s db db' (validate_payload c s) up missing h

  seeded_before :
      (m : StoredWorldModel)
      → fails ctx db ≡ false
      → world_model_at db demo_world_model_id ≡ some m
      → ensure_seed_data c ctx seed db ≡ (ok tt, db)
  unfolding ensure_seed_data seed_unless_found
  seeded_before m up found = rw (get_found ctx demo_world_model_id db m up found) refl

  ensured-cases :
      ensure_seed_data c ctx seed db ≡ (ok tt, db') → IsSeeded db db' × (fails ctx db' ≡ false)
  unfolding ensure_seed_data Rows.get or_not_found seed_unless_found
  ensured-cases h = elim (Bool-cases (fails ctx db)) [
    | inl down ↦ absurd (err-ne-ok _ tt (ap (λ r. r.0) (rw down at h)))
    | inr up ↦ elim (Option-cases (world_model_at db demo_world_model_id)) [
      | inl missing ↦ loaded seed up missing (rw (up, missing) at h)
      | inr (m, found) ↦
          let same : db ≡ db' = ap (λ r. r.1) (rw (up, found) at h) in
          rw (← same) (
            record {
              demo = m;
              found = found;
              others = λ k other. refl;
              old = λ r there. some-eq_inv (sym there ∙ found);
            },
            up,
          )
    ]
  ]

-- Where `EnsureSeedData` succeeds, the row of the demo world model is there; a row that was there
-- before is kept, and so is each other row. A second call then succeeds and changes nothing.
pub ensure_seed_data_lem :
    (c : Codec) (ctx : Context) (seed : Option Text) (db db' : Db)
    → ensure_seed_data c ctx seed db ≡ (ok tt, db')
    → IsSeeded db db' × (ensure_seed_data c ctx seed db' ≡ (ok tt, db'))
ensure_seed_data_lem c ctx seed db db' h =
    let (s, up) = ensured-cases c ctx seed db db' h in
    (s, seeded_before c ctx seed db' db' s.demo up s.found)
