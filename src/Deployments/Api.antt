-- ===== src/Deployments/Api.antt =====
-- api/deployments.go: the handlers of deployments, behind the decoding of a request. An error is its
-- HTTP status with its code.
use honeygen.Prelude.{
  ℕ, ◌≡◌, refl, sym, ap, ◌∙◌, inl, inr, Bool, true, false, not, ◌||◌, Option, none, some, [], ◌∷◌,
  ltb, ◌==◌, if◌then◌else◌, Bool-cases, Result, ok, err,
}
use honeygen.Text.{Text, text_eq, codes, trim_space}
use honeygen.Text.Equality.{text_eq_refl}
use honeygen.Path.{slash}
use honeygen.Database.{Deployment, Db, Context, fails}
use honeygen.Database.Table.{find, matching, has_key, find-delete}
use honeygen.Deployments.{
  DeployError, not_found, port_conflict, NewDeployment, deployment_key, get, create, exists_port,
  delete_deployment, supported, or_default, Manager, Host, is_listening, start, stop,
}
use honeygen.Deployments.Running.{stop_lem}

abbrev pub ApiError : Type 0
ApiError = ℕ × Text

abbrev pub internal_error : ApiError
internal_error = (500, codes "internal_error")

abbrev pub validation_error : ApiError
validation_error = (400, codes "validation_error")

abbrev pub conflict : ApiError
conflict = (409, codes "port_conflict")

abbrev pub missing : ApiError
missing = (404, codes "not_found")

abbrev pub port_min : ℕ
port_min = 9000

abbrev pub port_max : ℕ
port_max = 9009

-- `createDeploymentRequest`; a negative port acts as 0 does
pub record CreateRequest : Type 0 where
  pub generation_job_id : Text
  pub world_model_id : Text
  pub protocol : Text
  pub port : ℕ
  pub root_path : Text

-- `validateDeploymentPort`
unfoldable pub is_valid_port : ℕ → Bool
is_valid_port port = not (ltb port port_min || ltb port_max port)

-- the answer to `Create`
unfoldable pub created : Result DeployError Deployment × Db → Result ApiError Deployment × Db
created (ok d, db) = (ok d, db)
created (err port_conflict, db) = (err conflict, db)
created (err _, db) = (err internal_error, db)

unfoldable pub new_deployment : CreateRequest → NewDeployment
new_deployment r = record {
  id = [];
  generation_job_id = trim_space r.generation_job_id;
  world_model_id = trim_space r.world_model_id;
  protocol = or_default r.protocol (codes "http");
  port = r.port;
  root_path = or_default r.root_path (slash ∷ []);
  status = none;
}

-- behind the look at the port
unfoldable pub create_on_port :
    Context → Text → CreateRequest → Db → Result DeployError Bool → Result ApiError Deployment × Db
unfolding created new_deployment
create_on_port ctx fresh r db (err e) = (err internal_error, db)
create_on_port ctx fresh r db (ok true) = (err conflict, db)
create_on_port ctx fresh r db (ok false) = created (create ctx fresh (new_deployment r) db)

-- `deploymentsCreateHandler`, with the id that `uuid.New` would give; a body that cannot be decoded is
-- `none`
unfoldable pub create_handler :
    Context → Text → Option CreateRequest → Db → Result ApiError Deployment × Db
unfolding is_valid_port create_on_port
create_handler ctx fresh none db = (err validation_error, db)
create_handler ctx fresh (some r) db =
    if text_eq (trim_space r.generation_job_id) []
      || text_eq (trim_space r.world_model_id) []
      || not (is_valid_port r.port)
      || not (supported (or_default r.protocol (codes "http")))
    then (err validation_error, db)
    else create_on_port ctx fresh r db (exists_port ctx r.port db)

-- the deletion of the record
unfoldable pub deleted :
    Manager → Result DeployError (Unit {0}) × Db → Result ApiError (Unit {0}) × Manager
deleted m (ok _, db) = (ok tt, record m { db = db })
deleted m (err not_found, db) = (err missing, record m { db = db })
deleted m (err _, db) = (err internal_error, record m { db = db })

-- behind the stop of a deployment that runs
unfoldable pub delete_stopped :
    Context → Text → Result DeployError (Unit {0}) × Manager → Result ApiError (Unit {0}) × Manager
unfolding deleted
delete_stopped ctx id (err e, m) = (err internal_error, m)
delete_stopped ctx id (ok _, m) = deleted m (delete_deployment ctx id m.db)

-- `deploymentItemHandler` for DELETE
unfoldable pub delete_handler : Context → Text → Manager → Result ApiError (Unit {0}) × Manager
unfolding delete_stopped deleted
delete_handler ctx id m =
    if is_listening id m.listeners
    then delete_stopped ctx id (stop ctx id m)
    else deleted m (delete_deployment ctx id m.db)

-- the answer to a start or a stop: the record, read back
unfoldable pub read_back :
    Context
    → Text
    → Text
    → Result DeployError (Unit {0}) × Manager
    → Result ApiError Deployment × Manager
read_back ctx id code (err not_found, m) = (err missing, m)
read_back ctx id code (err _, m) = (err (500, code), m)
read_back ctx id code (ok _, m) = elim (get ctx id m.db) [
  | ok d ↦ (ok d, m)
  | err e ↦ (err internal_error, m)
]

-- `deploymentStartHandler`
unfoldable pub start_handler :
    Host → Context → Text → Manager → Result ApiError Deployment × Manager
unfolding read_back
start_handler host ctx id m = read_back ctx id (codes "start_failed") (start host ctx id m)

-- `deploymentStopHandler`
unfoldable pub stop_handler : Context → Text → Manager → Result ApiError Deployment × Manager
unfolding read_back
stop_handler ctx id m = read_back ctx id (codes "stop_failed") (stop ctx id m)

deleted_ok :
    (ctx : Context) (id : Text) (m m' : Manager)
    → deleted m (delete_deployment ctx id m.db) ≡ (ok tt, m')
    → (m'.listeners ≡ m.listeners) × (find (has_key deployment_key id) m'.db.deployments ≡ none)
unfolding deleted delete_deployment
deleted_ok ctx id m m' h = elim (Bool-cases (fails ctx m.db)) [
  | inl down ↦ cc (rw down at h)
  | inr up ↦ elim (Bool-cases (matching (has_key deployment_key id) m.db.deployments == 0)) [
    | inl gone ↦ cc (rw (up, gone) at h)
    | inr there ↦
        let e = ap (λ r. r.1) (rw (up, there) at h) in
        (
          ap (λ x. x.listeners) (sym e),
          rw (← e)
              (find-delete deployment_key id id m.db.deployments ∙ (rw (text_eq_refl id) refl)),
        )
  ]
]

-- When the handler answers that a deployment is deleted, it does not listen and has no record.
pub delete_handler_lem :
    (ctx : Context) (id : Text) (m m' : Manager)
    → delete_handler ctx id m ≡ (ok tt, m')
    → (is_listening id m'.listeners ≡ false)
      × (find (has_key deployment_key id) m'.db.deployments ≡ none)
unfolding delete_handler delete_stopped
delete_handler_lem ctx id m m' h = elim (Bool-cases (is_listening id m.listeners)) [
  | inl on ↦ stopped_first (stop ctx id m).0 refl (rw on at h)
  | inr off ↦ let (same, gone) = deleted_ok ctx id m m' (rw off at h) in (rw same off, gone)
]
  where
    stopped_first :
        (r : Result DeployError (Unit {0}))
        → (stop ctx id m).0 ≡ r
        → delete_stopped ctx id (stop ctx id m) ≡ (ok tt, m')
        → (is_listening id m'.listeners ≡ false)
          × (find (has_key deployment_key id) m'.db.deployments ≡ none)
    stopped_first (err e) eq k = cc (rw eq at k)
    stopped_first (ok _) eq k =
        let (same, gone) = deleted_ok ctx id (stop ctx id m).1 m' (rw eq at k) in
        (rw same (stop_lem ctx id m id ∙ (rw (text_eq_refl id) refl)), gone)
