-- ===== src/Events/Ingest.antt =====
-- events/service.go, Ingest: what is stored for a reported request.
use honeygen.Prelude.{
  ℤ, pos, negsuc, ◌≡◌, refl, sym, ap, ◌∙◌, ◌⊎◌, inl, inr, Bool, true, false, not, ◌||◌, Option,
  none, some, [], ◌∷◌, ◌++◌, arith, ◌==◌, if◌then◌else◌, Bool-cases, All-append, Result, ok, err,
  ◌>>=◌, ok-injective,
}
use honeygen.Text.{Text, text_eq, trim_space, trim_prefix}
use honeygen.Text.Equality.{text_eq_refl, ne_of_text_eq}
use honeygen.Path.{slash, dot, clean}
use honeygen.Path.Rooted.{IsRooted, clean-IsRooted}
use honeygen.Database.{Event, Asset, Db, Context, fails}
use honeygen.Database.Table.{find, matching, has_key, find-append, matching-zero}
use honeygen.Assets
use honeygen.Assets.{
  AssetError, asset_not_found, path_conflict, asset_db_failed, out_of_fuel, asset_path,
}
use honeygen.Assets.References.{IsLinked, HasAsset}
use honeygen.Events.{
  EventError, event_key, IngestRequest, normalize_request_path, nullable_string, EventService,
  Draft, draft_of, checked_counts, attributed, look_up, with_world_model, enriched,
  put_intelligence, row_of, get, asset_exists, create, store, ingest,
}

-- A request path is normalized to nothing, where it is blank, or to "/" or an absolute path of names.
pub normalize_request_path-IsRooted :
    (raw : Text) → (normalize_request_path raw ≡ []) ⊎ IsRooted (normalize_request_path raw)
unfolding normalize_request_path
normalize_request_path-IsRooted raw = elim (Bool-cases (text_eq (trim_space raw) [])) [
  | inl blank ↦ inl (rw blank refl)
  | inr given ↦
      elim (Bool-cases (text_eq (clean (slash ∷ trim_prefix (trim_space raw) (slash ∷ []))) dot)) [
        | inl here ↦ inr (rw (given, here) (inl refl))
        | inr other ↦
            inr (rw (given, other) (clean-IsRooted (trim_prefix (trim_space raw) (slash ∷ []))))
      ]
]

module _ (service : EventService) (r : IngestRequest) (d : Draft) where
  draft_of-ok :
      draft_of service r ≡ ok d
      → (d.path ≡ normalize_request_path r.path) × (d.asset_id ≡ []) × (text_eq d.path [] ≡ false)
  unfolding draft_of
  draft_of-ok h = elim (Bool-cases (text_eq (trim_space r.method) [])) [
    | inl blank ↦ cc (rw blank at h)
    | inr named ↦ elim (Bool-cases (text_eq (normalize_request_path r.path) [])) [
      | inl nowhere ↦ cc (rw (named, nowhere) at h)
      | inr somewhere ↦ counts r.status_code r.bytes_sent somewhere (rw (named, somewhere) at h)
    ]
  ]
    where
      counts :
          (status bytes : ℤ)
          → text_eq (normalize_request_path r.path) [] ≡ false
          → checked_counts service r
              (trim_space r.method)
              (normalize_request_path r.path)
              status
              bytes
            ≡ ok d
          → (d.path ≡ normalize_request_path r.path)
            × (d.asset_id ≡ [])
            × (text_eq d.path [] ≡ false)
      counts (negsuc n) bytes somewhere k = cc
      counts (pos status) (negsuc n) somewhere k = cc
      counts (pos status) (pos bytes) somewhere k =
          let e = ok-injective k in
          (ap (λ x. x.path) (sym e), ap (λ x. x.asset_id) (sym e), rw (← e) somewhere)

-- the asset that the event of a path names
abbrev pub named_asset : Option Asset → Option Text
named_asset none = none
named_asset (some a) = nullable_string a.id

abbrev pub asset_at : EventService → Db → Text → Option Asset
asset_at service db path =
    if service.has_assets
    then find (has_key asset_path (trim_prefix path (slash ∷ []))) db.assets
    else none

look_up-ok :
    (service : EventService) (ctx : Context) (db : Db) (d d' : Draft)
    → d.asset_id ≡ []
    → look_up service ctx db d ≡ ok d'
    → (d'.path ≡ d.path) × (nullable_string d'.asset_id ≡ named_asset (asset_at service db d.path))
unfolding look_up attributed Assets.find_by_path text_eq trim_space
look_up-ok service ctx db d d' blank h = elim (Bool-cases service.has_assets) [
  | inr off ↦
      let e = ok-injective (rw off at h) in
      (ap (λ x. x.path) (sym e), rw (← e, blank, off) (unfold nullable_string in refl))
  | inl on ↦ elim (Bool-cases (fails ctx db)) [
    | inl down ↦ cc (rw (on, down) at h)
    | inr up ↦
        row on (find (has_key asset_path (trim_prefix d.path (slash ∷ []))) db.assets) refl
          (rw (on, up) at h)
  ]
]
  where
    row :
        service.has_assets ≡ true
        → (o : Option Asset)
        → find (has_key asset_path (trim_prefix d.path (slash ∷ []))) db.assets ≡ o
        → attributed d (Assets.asset_or_not_found o) ≡ ok d'
        → (d'.path ≡ d.path)
          × (nullable_string d'.asset_id ≡ named_asset (asset_at service db d.path))
    row on none e k =
        let same = ok-injective (unfold Assets.asset_or_not_found in k) in
        (ap (λ x. x.path) (sym same), rw (← same, blank, on, e) (unfold nullable_string in refl))
    row on (some a) e k =
        let same = ok-injective (unfold Assets.asset_or_not_found in k) in
        (ap (λ x. x.path) (sym same), rw (← same, on, e) refl)

enriched-same :
    (enrich : Option (Text → Option Text)) (d : Draft)
    → ((enriched enrich d).path ≡ d.path) × ((enriched enrich d).asset_id ≡ d.asset_id)
unfolding enriched put_intelligence
enriched-same none d = (refl, refl)
enriched-same (some enrich) d = elim (Bool-cases (text_eq d.source_ip [])) [
  | inl blank ↦ rw blank (refl, refl)
  | inr given ↦ rw given (known (enrich d.source_ip))
]
  where
    known :
        (o : Option Text)
        → ((put_intelligence o d).path ≡ d.path) × ((put_intelligence o d).asset_id ≡ d.asset_id)
    known none = (refl, refl)
    known (some json) = (refl, refl)

-- a new row is what its id finds
get_new :
    (ctx : Context) (db : Db) (row : Event)
    → fails ctx db ≡ false
    → matching (has_key event_key row.id) db.events ≡ 0
    → get ctx row.id (record db { events = db.events ++ row ∷ [] }) ≡ ok row
unfolding get find
get_new ctx db row up free =
    rw
      (
        up,
        find-append (has_key event_key row.id) db.events (row ∷ []),
        (matching-zero (has_key event_key row.id) db.events).1 free,
        text_eq_refl row.id,
      )
      refl

-- what the guards of the statement say
abbrev refused : Context → Text → Event → Db → Bool
refused ctx fresh row db =
    fails ctx db
    || not (matching (has_key event_key fresh) db.events == 0)
    || not (asset_exists row.asset_id db)

create-ok :
    (ctx : Context) (fresh : Text) (d : Draft) (db db' : Db) (e : Event)
    → create ctx fresh d db ≡ (ok e, db')
    → (e ≡ row_of fresh db.now d)
      × (db' ≡ record db { events = db.events ++ e ∷ [] })
      × (asset_exists e.asset_id db ≡ true)
unfolding create row_of
create-ok ctx fresh d db db' e h = elim (Bool-cases (refused ctx fresh row db)) [
  | inl bad ↦ cc (rw bad at h)
  | inr fine ↦
      let up : fails ctx db ≡ false = (ground (arith, fine)) in
      let free : matching (has_key event_key fresh) db.events ≡ 0 = (ground (arith, fine)) in
      let k : (ok row, record db { events = db.events ++ row ∷ [] }) ≡ (ok e, db') =
        (rw (fine, get_new ctx db row up free) at h) in
      let there : asset_exists row.asset_id db ≡ true = (ground (arith, fine)) in
      let same : row ≡ e = ok-injective (ap (λ x. x.0) k) in
      (sym same, sym (ap (λ x. x.1) k) ∙ (rw same refl), rw (← same) there)
]
  where
    row : Event
    row = row_of fresh db.now d

rooted : (p : Text) → text_eq p [] ≡ false → (p ≡ []) ⊎ IsRooted p → IsRooted p
rooted p somewhere (inl nowhere) = absurd (ne_of_text_eq p [] somewhere nowhere)
rooted p somewhere (inr h) = h

-- When `Ingest` succeeds it has stored one event behind the others and changed nothing else. The
-- event is at the normalized path of the request, which is "/" or an absolute path of names. It
-- names the asset that has this path, if the service has the assets, there is one and its id is
-- not blank, and otherwise none.
pub ingest_lem :
    (service : EventService) (ctx : Context) (fresh : Text) (r : IngestRequest) (db db' : Db)
    (e : Event)
    → ingest service ctx fresh r db ≡ (ok e, db')
    → (db' ≡ record db { events = db.events ++ e ∷ [] })
      × (e.path ≡ normalize_request_path r.path)
      × IsRooted e.path
      × (e.asset_id ≡ named_asset (asset_at service db e.path))
unfolding ingest store row_of with_world_model
ingest_lem service ctx fresh r db db' e h = drafted (draft_of service r) refl h
  where
    found :
        (d : Draft) (x : Result EventError Draft)
        → draft_of service r ≡ ok d
        → look_up service ctx db d ≡ x
        → store service ctx fresh db x ≡ (ok e, db')
        → (db' ≡ record db { events = db.events ++ e ∷ [] })
          × (e.path ≡ normalize_request_path r.path)
          × IsRooted e.path
          × (e.asset_id ≡ named_asset (asset_at service db e.path))
    found d (err x) a b k = cc
    found d (ok d') a b k =
        let (is_row, left, _) =
          create-ok ctx fresh (enriched service.enrich (with_world_model d')) db db' e k in
        let (at, unnamed, somewhere) = draft_of-ok service r d a in
        let (same_path, named) = look_up-ok service ctx db d d' unnamed b in
        let (enriched_path, enriched_id) = enriched-same service.enrich (with_world_model d') in
        let path : e.path ≡ d.path = (ap (λ x. x.path) is_row ∙ enriched_path ∙ same_path) in
        (
          left,
          path ∙ at,
          rw path (rooted d.path somewhere (rw (← at) at (normalize_request_path-IsRooted r.path))),
          ap (λ x. x.asset_id) is_row
              ∙ ap nullable_string enriched_id
              ∙ named
              ∙ ap (λ x. named_asset (asset_at service db x)) (sym path),
        )

    drafted :
        (x : Result EventError Draft)
        → draft_of service r ≡ x
        → store service ctx fresh db (x >>= λ d. look_up service ctx db d) ≡ (ok e, db')
        → (db' ≡ record db { events = db.events ++ e ∷ [] })
          × (e.path ≡ normalize_request_path r.path)
          × IsRooted e.path
          × (e.asset_id ≡ named_asset (asset_at service db e.path))
    drafted (err x) a k = cc
    drafted (ok d) a k = found d (look_up service ctx db d) a refl k

exists-HasAsset : (o : Option Text) (db : Db) → asset_exists o db ≡ true → HasAsset db.assets o
unfolding asset_exists
exists-HasAsset none db h = tt
exists-HasAsset (some id) db h = ground (arith, h)

-- `Ingest` keeps the links between the tables, whether it succeeds or not.
pub ingest-IsLinked :
    (service : EventService) (ctx : Context) (fresh : Text) (r : IngestRequest) (db : Db)
    → IsLinked db
    → IsLinked (ingest service ctx fresh r db).1
unfolding ingest store create
ingest-IsLinked service ctx fresh r db l =
    stored (draft_of service r >>= λ d. look_up service ctx db d)
  where
    stored : (x : Result EventError Draft) → IsLinked (store service ctx fresh db x).1
    stored (err e) = l
    stored (ok d) =
        let row = row_of fresh db.now (enriched service.enrich (with_world_model d)) in
        elim (Bool-cases (refused ctx fresh row db)) [
          | inl bad ↦ rw bad l
          | inr fine ↦ rw fine (record {
            one_id = l.one_id;
            one_path = l.one_path;
            job_there = l.job_there;
            asset_there =
                All-append (λ e. HasAsset db.assets e.asset_id) db.events (row ∷ []) l.asset_there
                  (exists-HasAsset row.asset_id db (ground (arith, fine)), tt);
          })
        ]
