-- ===== src/Assets/Undoing.antt =====
-- assets/repository.go, Create and Delete: a record that is created and deleted again leaves no trace.
use honeygen.Prelude.{
  Result, ok, err, ◌≡◌, refl, ap, ◌∙◌, inl, inr, false, true, not, ◌||◌, Option, none, some, List,
  [], ◌∷◌, ◌++◌, arith, ◌==◌, if◌then◌else◌, Bool-cases, All, ok, err,
}
use honeygen.Text.{Text, text_eq}
use honeygen.Text.Equality.{text_eq_refl, text_eq_iff}
use honeygen.Database.{Asset, Event, Db, Context, fails}
use honeygen.Database.Table
use honeygen.Database.Table.{find, matching, has_key, delete, matching-append, matching-zero}
use honeygen.Assets
use honeygen.Assets.{
  AssetError, asset_db_failed, path_conflict, asset_key, asset_path, insert_read, stored_row,
  delete_asset, clear_references, refers_to, cleared, has_owner,
}
use honeygen.Assets.References.{HasAsset}

pub find_new :
    (id : Text) (assets : List Asset) (a : Asset)
    → matching (has_key asset_key id) assets ≡ 0
    → text_eq a.id id ≡ true
    → find (has_key asset_key id) (assets ++ a ∷ []) ≡ some a
unfolding find matching
find_new id [] a free same = rw same refl
find_new id (b ∷ assets) a free same = ground (arith, find_new id assets a)

delete_new :
    (id : Text) (assets : List Asset) (a : Asset)
    → matching (has_key asset_key id) assets ≡ 0
    → text_eq a.id id ≡ true
    → delete (has_key asset_key id) (assets ++ a ∷ []) ≡ assets
unfolding delete matching
delete_new id [] a free same = rw same refl
delete_new id (b ∷ assets) a free same = ground (arith, delete_new id assets a)

-- the tables with a new row
abbrev pub with_row : Asset → Db → Db
with_row a db = record db { assets = db.assets ++ stored_row a db ∷ [] }

-- what `Create` does: it refuses and changes nothing, or it appends the row, and reads it back or not
pub data InsertCase (ctx at_get : Context) (a : Asset) (db : Db)
    : Result AssetError Asset × Db → Type 0 where
  refused_row : (e : AssetError) → InsertCase ctx at_get a db (err e, db)
  unread :
      fails at_get db ≡ true
      → find (has_key asset_path a.path) db.assets ≡ none
      → InsertCase ctx at_get a db (err asset_db_failed, with_row a db)
  inserted_row :
      db.down ≡ false
      → matching (has_key asset_key a.id) db.assets ≡ 0
      → find (has_key asset_path a.path) db.assets ≡ none
      → InsertCase ctx at_get a db (ok (stored_row a db), with_row a db)

pub insert_cases :
    (ctx at_get : Context) (a : Asset) (db : Db)
    → InsertCase ctx at_get a db (insert_read ctx at_get a db)
unfolding insert_read Assets.get
insert_cases ctx at_get a db =
    elim (Bool-cases (fails ctx db || not (matching (has_key asset_key a.id) db.assets == 0))) [
      | inl bad ↦ rw bad (refused_row asset_db_failed)
      | inr up ↦ elim (Bool-cases (not (matching (has_key asset_path a.path) db.assets == 0))) [
        | inl taken ↦ rw (up, taken) (refused_row path_conflict)
        | inr free ↦ elim (Bool-cases (has_owner a db)) [
          | inl owner ↦
              let none_at : find (has_key asset_path a.path) db.assets ≡ none =
                (matching-zero (has_key asset_path a.path) db.assets).1 (ground arith) in
              let here : find (has_key asset_key a.id) (with_row a db).assets
                  ≡ some (stored_row a db) =
                find_new a.id db.assets (stored_row a db) (ground arith) (text_eq_refl a.id) in
              elim (Bool-cases (fails at_get db)) [
                | inl lost ↦ rw (up, free, owner, lost) (unread lost none_at)
                | inr answers ↦
                    rw (up, free, owner, answers, here)
                      (inserted_row (ground arith) (ground arith) none_at)
              ]
          | inr orphan ↦ rw (up, free, orphan) (refused_row asset_db_failed)
        ]
      ]
    ]

-- no event names an asset that is not there
unreferred :
    (id : Text) (assets : List Asset) (events : List Event)
    → matching (has_key asset_key id) assets ≡ 0
    → All (λ e. HasAsset assets e.asset_id) events
    → clear_references (λ k. text_eq k id) events ≡ events
unfolding clear_references Table.update
unreferred id assets [] free h = refl
unreferred id assets (e ∷ events) free (h, hs) =
    ap (λ rest. (if refers_to (λ k. text_eq k id) e then cleared e else e) ∷ rest)
      (unreferred id assets events free hs)
    ∙ ap (λ b. (if b then cleared e else e) ∷ events) (other e.asset_id h)
  where
    other :
        (o : Option Text)
        → HasAsset assets o
        → (elim o [ none ↦ false | some k ↦ text_eq k id ]) ≡ false
    other none x = refl
    other (some k) x = elim (Bool-cases (text_eq k id)) [
      | inl same ↦
          let count : matching (has_key asset_key k) assets ≡ 0 =
            ap (λ j. matching (has_key asset_key j) assets) ((text_eq_iff k id).0 same) ∙ free in
          ground arith
      | inr ne ↦ ne
    ]

-- The deletion of a record that was just created gives back the tables as they were.
pub delete_asset-with_row :
    (ctx : Context) (a : Asset) (db : Db)
    → fails ctx db ≡ false
    → matching (has_key asset_key a.id) db.assets ≡ 0
    → All (λ e. HasAsset db.assets e.asset_id) db.events
    → (delete_asset ctx a.id (with_row a db)).1 ≡ db
unfolding delete_asset
delete_asset-with_row ctx a db up free there =
    rw
      (
        up,
        some_,
        unreferred a.id db.assets db.events free there,
        delete_new a.id db.assets (stored_row a db) free (text_eq_refl a.id),
      )
      refl
  where
    some_ : (matching (has_key asset_key a.id) (with_row a db).assets == 0) ≡ false
    some_ =
        rw (matching-append (has_key asset_key a.id) db.assets (stored_row a db ∷ []))
          (unfold matching in ground (arith, text_eq_refl a.id))

pub delete_asset_failed :
    (ctx : Context) (id : Text) (db : Db) → fails ctx db ≡ true → (delete_asset ctx id db).1 ≡ db
unfolding delete_asset
delete_asset_failed ctx id db lost = rw lost refl
