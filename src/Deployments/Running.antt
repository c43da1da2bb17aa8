-- ===== src/Deployments/Running.antt =====
-- The listeners of the manager and the status that the records show.
use honeygen.Prelude.{
  ◌≡◌, refl, sym, ◌∙◌, inl, inr, Bool, true, false, ◌&&◌, Option, none, some, List, [], ◌∷◌, arith,
  if◌then◌else◌, Bool-cases, Result, ok, err, err-ne-ok,
}
use honeygen.Text.{Text, text_eq}
use honeygen.Text.Equality.{text_eq_iff}
use honeygen.Database.{Deployment, DeploymentStatus, Db, Context, fails}
use honeygen.Database.Table.{find, has_key, find-update, matching-zero}
use honeygen.Deployments.{
  DeployError, already_running, no_directory, unsupported_protocol, listen_failed, not_found,
  deploy_db_failed, supported, resolve_file_path, deployment_key, get, is_running, set_status,
  update_status, Manager, Host, is_listening, without_listener, start_deployment, start_found,
  start, stop, found,
}

-- whether the record of a deployment says that it runs
abbrev pub shows : Option Deployment → Bool
shows none = false
shows (some d) = is_running d.status

unfoldable pub running_at : Db → Text → Bool
running_at db id = shows (find (has_key deployment_key id) db.deployments)

abbrev pub exists : Option Deployment → Bool
exists none = false
exists (some d) = true

module _ (ctx : Context) (id : Text) (status : DeploymentStatus) (db : Db) where
  pub running_at-update_status :
      (j : Text)
      → fails ctx db ≡ false
      → running_at (update_status ctx id status db).1 j ≡ (
          if text_eq id j
          then exists (find (has_key deployment_key j) db.deployments) && is_running status
          else running_at db j)
  unfolding update_status running_at set_status
  running_at-update_status j up = ground (
    arith,
    find-update deployment_key id j (λ d. true) (set_status status db.now) db.deployments
        (λ d. refl),
    matching-zero (has_key deployment_key id) db.deployments,
    text_eq_iff id j,
  )

  pub update_status_failed : fails ctx db ≡ true → (update_status ctx id status db).1 ≡ db
  unfolding update_status
  update_status_failed down = ground arith

  pub update_status_refused :
      fails ctx db ≡ true → update_status ctx id status db ≡ (err deploy_db_failed, db)
  unfolding update_status
  update_status_refused down = rw down refl

is_listening-without :
    (id : Text) (ks : List Text) (j : Text)
    → is_listening j (without_listener id ks) ≡ (if text_eq id j then false else is_listening j ks)
unfolding is_listening without_listener
is_listening-without id [] j = ground arith
is_listening-without id (k ∷ ks) j =
    ground
      (arith, is_listening-without id ks j, text_eq_iff k id, text_eq_iff k j, text_eq_iff id j)

-- Stopping a deployment removes its listener and no other, whatever the database answers.
pub stop_lem :
    (ctx : Context) (id : Text) (m : Manager) (j : Text)
    → is_listening j (stop ctx id m).1.listeners
      ≡ (if text_eq id j then false else is_listening j m.listeners)
unfolding stop
stop_lem ctx id m j = is_listening-without id m.listeners j

get-ok :
    (ctx : Context) (id : Text) (db : Db) (d : Deployment)
    → get ctx id db ≡ ok d
    → (fails ctx db ≡ false) × (exists (find (has_key deployment_key id) db.deployments) ≡ true)
unfolding get found
get-ok ctx id db d g = elim (Bool-cases (fails ctx db)) [
  | inl down ↦ absurd (err-ne-ok deploy_db_failed d (sym (rw down refl) ∙ g))
  | inr up ↦ (up, row (find (has_key deployment_key id) db.deployments) (sym (rw up refl) ∙ g))
]
  where
    row : (r : Option Deployment) → found r ≡ ok d → exists r ≡ true
    row none h = absurd (err-ne-ok not_found d h)
    row (some d') h = refl

update_status_ok :
    (ctx : Context) (id : Text) (status : DeploymentStatus) (db : Db)
    → fails ctx db ≡ false
    → exists (find (has_key deployment_key id) db.deployments) ≡ true
    → (update_status ctx id status db).0 ≡ ok tt
unfolding update_status
update_status_ok ctx id status db up there =
    ground (arith, matching-zero (has_key deployment_key id) db.deployments)

-- what `Start` does: it refuses and leaves the manager alone, or it adds the listener of a deployment
-- that has a record, and writes that record or fails to
pub data StartCase (host : Host) (ctx : Context) (id : Text) (m : Manager)
    : Result DeployError Unit × Manager → Type 0 where
  refused : (e : DeployError) → StartCase host ctx id m (err e, m)
  unrecorded :
      (d : Deployment)
      → is_listening id m.listeners ≡ false
      → fails (host.at_update d) m.db ≡ true
      → StartCase host ctx id m (err deploy_db_failed, record m { listeners = id ∷ m.listeners })
  started :
      (late : Context)
      → fails late m.db ≡ false
      → exists (find (has_key deployment_key id) m.db.deployments) ≡ true
      → StartCase host ctx id m (
        ok tt,
        record m {
          listeners = id ∷ m.listeners;
          db = (update_status late id DeploymentStatus.running m.db).1;
        },
      )

start_deployment_cases :
    (host : Host) (ctx : Context) (id : Text) (m : Manager) (d : Deployment)
    → is_listening id m.listeners ≡ false
    → exists (find (has_key deployment_key id) m.db.deployments) ≡ true
    → StartCase host ctx id m (start_deployment host ctx id m d)
unfolding start_deployment
start_deployment_cases host ctx id m d quiet there =
    elim (Bool-cases (host.directory_exists (resolve_file_path m.storage_root d))) [
      | inr none_there ↦ rw none_there (refused no_directory)
      | inl a ↦ elim (Bool-cases (supported d.protocol)) [
        | inr unknown ↦ rw (a, unknown) (refused unsupported_protocol)
        | inl b ↦ elim (Bool-cases (host.can_listen d)) [
          | inr refusal ↦ rw (a, b, refusal) (refused listen_failed)
          | inl c ↦ elim (Bool-cases (fails (host.at_update d) m.db)) [
            | inl late ↦
                rw
                  (
                    a,
                    b,
                    c,
                    update_status_refused (host.at_update d) id DeploymentStatus.running m.db late,
                  )
                  (unrecorded d quiet late)
            | inr up ↦
                rw
                  (
                    a,
                    b,
                    c,
                    update_status_ok (host.at_update d) id DeploymentStatus.running m.db up there,
                  )
                  (started (host.at_update d) up there)
          ]
        ]
      ]
    ]

pub start_cases :
    (host : Host) (ctx : Context) (id : Text) (m : Manager)
    → StartCase host ctx id m (start host ctx id m)
unfolding start start_found
start_cases host ctx id m = elim (Bool-cases (is_listening id m.listeners)) [
  | inl l ↦ rw l (refused already_running)
  | inr l ↦ looked_up l (get ctx id m.db) refl
]
  where
    looked_up :
        is_listening id m.listeners ≡ false
        → (r : Result DeployError Deployment) → get ctx id m.db ≡ r
        → StartCase host ctx id m (start host ctx id m)
    looked_up l (err e) g = rw (l, g) (refused e)
    looked_up l (ok d) g =
        let (up, there) = get-ok ctx id m.db d g in
        rw (l, g) (start_deployment_cases host ctx id m d l there)

pub down-update_status :
    (ctx : Context) (id : Text) (status : DeploymentStatus) (db : Db)
    → (update_status ctx id status db).1.down ≡ db.down
unfolding update_status
down-update_status ctx id status db = ground arith

pub update_status_up :
    (ctx : Context) (id : Text) (status : DeploymentStatus) (db : Db)
    → fails ctx (update_status ctx id status db).1 ≡ fails ctx db
unfolding update_status
update_status_up ctx id status db = ground arith
