-- ===== src/Events.antt =====
-- events/service.go and events/repository.go: the requests that the decoys report, stored as events.
pub mod Ingest
pub mod Links
use honeygen.Prelude.{
  ℤ, pos, negsuc, false, ◌&&◌, ltb, take, drop, ℕ, Bool, true, not, ◌||◌, Option, none, some, List,
  [], ◌∷◌, ◌++◌, ◌==◌, if◌then◌else◌, Result, ok, err, ◌>>=◌,
}
use honeygen.Text.{Text, text_eq, codes, trim, trim_space, trim_prefix, split}
use honeygen.Path.{slash, dot, clean}
use honeygen.Database.{Event, Asset, Db, Context, fails}
use honeygen.Database.Table.{find, select, order_by, matching, has_key}
use honeygen.Assets
use honeygen.Assets.{AssetError, asset_not_found, asset_key}

pub data EventError : Type 0 where
  method_required path_required negative_status negative_bytes : EventError
  event_not_found event_db_failed : EventError
  finder_failed : AssetError → EventError

abbrev pub event_key : Event → Text
event_key e = e.id

-- `IngestRequest`; a zero time is `none`
pub record IngestRequest : Type 0 where
  pub timestamp : Option ℕ
  pub event_type : Text
  pub method : Text
  pub path : Text
  pub query : Text
  pub source_ip : Text
  pub user_agent : Text
  pub referer : Text
  pub status_code : ℤ
  pub bytes_sent : ℤ
  pub metadata : List (Text × Text)

-- `normalizeRequestPath`
unfoldable pub normalize_request_path : Text → Text
normalize_request_path raw =
    let trimmed = trim_space raw in
    if text_eq trimmed []
    then []
    else let cleaned = clean (slash ∷ trim_prefix trimmed (slash ∷ [])) in
      if text_eq cleaned dot then slash ∷ [] else cleaned

-- `segments[1]` below "generated"
second_below_generated : List Text → Text
second_below_generated [] = []
second_below_generated (first ∷ []) = []
second_below_generated (first ∷ second ∷ more) =
    if text_eq first (codes "generated") then second else []

-- `worldModelIDFromPath`
unfoldable pub world_model_id_from_path : Text → Text
unfolding second_below_generated
world_model_id_from_path raw =
    second_below_generated (split slash (trim (λ c. c == slash) (normalize_request_path raw)))

-- `nullableString`
unfoldable pub nullable_string : Text → Option Text
nullable_string value = if text_eq (trim_space value) [] then none else some value

-- `map[key] = value`
put_entry : Text → Text → List (Text × Text) → List (Text × Text)
put_entry k v [] = (k, v) ∷ []
put_entry k v ((k', v') ∷ rest) =
    let more = put_entry k v rest in if text_eq k' k then (k, v) ∷ rest else (k', v') ∷ more

-- What the service is given: whether an asset repository is there, the clock, and the enricher, whose
-- answer is the JSON text of what is known about an address.
pub record EventService : Type 0 where
  pub has_assets : Bool
  pub now : ℕ
  pub enrich : Option (Text → Option Text)

-- the event of a request, before the look-ups; the record's `nullableString` fields are texts here
pub record Draft : Type 0 where
  pub asset_id : Text
  pub world_model_id : Text
  pub event_type : Text
  pub method : Text
  pub query : Text
  pub path : Text
  pub source_ip : Text
  pub user_agent : Text
  pub referer : Text
  pub status_code : ℕ
  pub bytes_sent : ℕ
  pub timestamp : ℕ
  pub metadata : List (Text × Text)

time_or : ℕ → Option ℕ → ℕ
time_or now none = now
time_or now (some t) = t

abbrev pub or_default : Text → Text → Text
or_default default given = if text_eq given [] then default else given

-- the guards of `Ingest`, and the event that passes them
checked_counts : EventService → IngestRequest → Text → Text → ℤ → ℤ → Result EventError Draft
unfolding time_or
checked_counts service r method path (negsuc n) bytes = err negative_status
checked_counts service r method path (pos status) (negsuc n) = err negative_bytes
checked_counts service r method path (pos status) (pos bytes) = ok (record {
  asset_id = [];
  world_model_id = [];
  event_type = or_default (codes "http_request") (trim_space r.event_type);
  method = method;
  query = trim_space r.query;
  path = path;
  source_ip = trim_space r.source_ip;
  user_agent = trim_space r.user_agent;
  referer = trim_space r.referer;
  status_code = status;
  bytes_sent = bytes;
  timestamp = time_or service.now r.timestamp;
  metadata = r.metadata;
})

unfoldable pub draft_of : EventService → IngestRequest → Result EventError Draft
unfolding checked_counts
draft_of service r =
    if text_eq (trim_space r.method) []
    then err method_required
    else if text_eq (normalize_request_path r.path) []
    then err path_required
    else checked_counts service r (trim_space r.method) (normalize_request_path r.path)
        r.status_code r.bytes_sent

-- the asset at the path, if there is one
unfoldable pub attributed : Draft → Result AssetError Asset → Result EventError Draft
attributed d (ok a) = ok (record d { asset_id = a.id; world_model_id = a.world_model_id })
attributed d (err asset_not_found) = ok d
attributed d (err e) = err (finder_failed e)

unfoldable pub look_up : EventService → Context → Db → Draft → Result EventError Draft
unfolding attributed
look_up service ctx db d =
    if service.has_assets
    then attributed d (Assets.find_by_path ctx (trim_prefix d.path (slash ∷ [])) db)
    else ok d

-- the world model that the path names, where no asset told it
unfoldable pub with_world_model : Draft → Draft
with_world_model d = record d {
  world_model_id = or_default (world_model_id_from_path d.path) d.world_model_id;
}

put_intelligence : Option Text → Draft → Draft
unfolding put_entry
put_intelligence none d = d
put_intelligence (some json) d = record d {
  metadata = put_entry (codes "ip_intelligence") json d.metadata;
}

-- the enrichment, which never fails the ingestion
unfoldable pub enriched : Option (Text → Option Text) → Draft → Draft
unfolding put_intelligence
enriched none d = d
enriched (some enrich) d =
    if text_eq d.source_ip [] then d else put_intelligence (enrich d.source_ip) d

-- the row of `Create`
unfoldable pub row_of : Text → ℕ → Draft → Event
unfolding nullable_string
row_of id now d = record {
  id = id;
  asset_id = nullable_string d.asset_id;
  world_model_id = nullable_string d.world_model_id;
  event_type = or_default (codes "http_request") d.event_type;
  method = d.method;
  query = d.query;
  path = d.path;
  source_ip = d.source_ip;
  user_agent = d.user_agent;
  referer = d.referer;
  status_code = d.status_code;
  bytes_sent = d.bytes_sent;
  timestamp = d.timestamp;
  level = codes "info";
  metadata = d.metadata;
  created_at = now;
}

event_or_not_found : Option Event → Result EventError Event
event_or_not_found none = err event_not_found
event_or_not_found (some e) = ok e

-- `Get`
unfoldable pub get : Context → Text → Db → Result EventError Event
unfolding event_or_not_found
get ctx id db =
    if fails ctx db
    then err event_db_failed
    else event_or_not_found (find (has_key event_key id) db.events)

-- an event names no asset, or one that is there
unfoldable pub asset_exists : Option Text → Db → Bool
asset_exists none db = true
asset_exists (some id) db = not (matching (has_key asset_key id) db.assets == 0)

-- `Create`, with the id that `newEventID` would give
unfoldable pub create : Context → Text → Draft → Db → Result EventError Event × Db
unfolding row_of get asset_exists
create ctx fresh d db =
    let row = row_of fresh db.now d in
    if fails ctx db
      || not (matching (has_key event_key fresh) db.events == 0)
      || not (asset_exists row.asset_id db)
    then (err event_db_failed, db)
    else let db' = record db { events = db.events ++ row ∷ [] } in (get ctx fresh db', db')

unfoldable pub store :
    EventService → Context → Text → Db → Result EventError Draft → Result EventError Event × Db
unfolding with_world_model enriched create
store service ctx fresh db (err e) = (err e, db)
store service ctx fresh db (ok d) =
    create ctx fresh (enriched service.enrich (with_world_model d)) db

-- `Ingest`
unfoldable pub ingest :
    EventService → Context → Text → IngestRequest → Db → Result EventError Event × Db
unfolding draft_of look_up store
ingest service ctx fresh r db =
    store service ctx fresh db (draft_of service r >>= λ d. look_up service ctx db d)

-- `ListOptions`; a negative limit or offset acts as 0 does
pub record EventListOptions : Type 0 where
  pub limit : ℕ
  pub offset : ℕ
  pub world_model_id : Text
  pub path : Text
  pub source_ip : Text
  pub status_code : ℕ

-- `normalizeLimit`
unfoldable pub normalize_limit : ℕ → ℕ
normalize_limit limit = if limit == 0 || ltb 1000 limit then 100 else limit

-- a column that is NULL equals nothing
abbrev is_text : Text → Option Text → Bool
is_text t none = false
is_text t (some u) = text_eq u t

-- the conditions of `List`; `like` is the engine's LIKE, with the pattern "%" path "%"
unfoldable pub wanted : (Text → Text → Bool) → EventListOptions → Event → Bool
wanted like o e =
    (text_eq (trim_space o.path) [] || like (codes "%" ++ trim_space o.path ++ codes "%") e.path)
    && (text_eq (trim_space o.world_model_id) []
        || is_text (trim_space o.world_model_id) e.world_model_id)
    && (text_eq (trim_space o.source_ip) [] || text_eq e.source_ip (trim_space o.source_ip))
    && (not (ltb 0 o.status_code) || e.status_code == o.status_code)

-- `ORDER BY datetime(timestamp) DESC, datetime(created_at) DESC`
unfoldable pub comes_before : Event → Event → Bool
comes_before a b =
    ltb b.timestamp a.timestamp || a.timestamp == b.timestamp && ltb b.created_at a.created_at

-- `List`
unfoldable pub list :
    (Text → Text → Bool) → Context → EventListOptions → Db → Result EventError (List Event)
unfolding wanted comes_before normalize_limit
list like ctx o db =
    if fails ctx db
    then err event_db_failed
    else ok (
        take (normalize_limit o.limit)
          (drop o.offset (order_by comes_before (select (wanted like o) db.events))))
