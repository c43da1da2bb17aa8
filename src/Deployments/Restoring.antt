-- ===== src/Deployments/Restoring.antt =====
-- Deployments/manager.go, RestoreRunning: the listeners after a restart.
use honeygen.Prelude.{
  ◌≡◌, refl, sym, ap, ◌∙◌, inl, inr, Bool, true, false, not, ◌&&◌, ◌||◌, List, [], ◌∷◌, map, arith,
  Bool-cases, Result, ok,
}
use honeygen.Text.{Text}
use honeygen.Text.Equality.{text_eq_iff, text_eq_refl}
use honeygen.Database.{Deployment, DeploymentStatus, stopped, Db, Context, fails, is_done}
use honeygen.Database.Table.{find, select, has_key}
use honeygen.Deployments.{
  DeployError, deployment_key, is_running, list_running, Manager, Host, is_listening, start,
  after_restart, restore_one, restore_each, restore_running,
}
use honeygen.Deployments.Running.{
  running_at, shows, running_at-update_status, update_status_up, StartCase, refused, unrecorded,
  started, start_cases, down-update_status,
}

-- the ids that are still to be restored
abbrev pub ids : List Deployment → List Text
ids ds = map deployment_key ds

unfoldable pub are_distinct : List Text → Bool
unfolding is_listening
are_distinct [] = true
are_distinct (k ∷ ks) = not (is_listening k ks) && are_distinct ks

-- in the middle of `RestoreRunning`: what the records show is what listens or is to be started
record Balance (ctx : Context) (m : Manager) (ks : List Text) : Type 0 where
  up : fails ctx m.db ≡ false
  distinct : are_distinct ks ≡ true
  fresh : (j : Text) → is_listening j ks ≡ true → is_listening j m.listeners ≡ false
  shown : (j : Text) → running_at m.db j ≡ is_listening j m.listeners || is_listening j ks

module _ (host : Host) (ctx : Context) (k : Text) (ks : List Text) (m : Manager)
    (at_update : (d : Deployment) → host.at_update d ≡ ctx) (b : Balance ctx m (k ∷ ks)) where
  first_fresh : is_listening k m.listeners ≡ false
  unfolding is_listening
  first_fresh = b.fresh k (ground (arith, text_eq_refl k))

  first_once : is_listening k ks ≡ false
  unfolding are_distinct
  first_once = ground (arith, b.distinct)

  step :
      (o : Result DeployError Unit × Manager)
      → StartCase host ctx k m o
      → Balance ctx (after_restart ctx k o) ks
  unfolding after_restart is_listening are_distinct is_running
  step o (refused e) = record {
    up = update_status_up ctx k stopped m.db ∙ b.up;
    distinct = ground (arith, b.distinct);
    fresh = λ j h. b.fresh j (ground (arith, h));
    shown = λ j. ground (
      arith,
      running_at-update_status ctx k stopped m.db j b.up,
      text_eq_iff k j,
      first_fresh,
      first_once,
      b.shown j,
    );
  }
  step o (unrecorded d quiet late) = cc (ap (λ x. fails x m.db) (at_update d), b.up)
  step o (started late up there) = record {
    up =
        ap (λ down. is_done ctx || down) (down-update_status late k DeploymentStatus.running m.db)
        ∙ b.up;
    distinct = ground (arith, b.distinct);
    fresh = λ j h. ground (arith, h, b.fresh j, text_eq_iff k j, first_once);
    shown = λ j. ground (
      arith,
      running_at-update_status late k DeploymentStatus.running m.db j up,
      text_eq_iff k j,
      there,
      b.shown j,
    );
  }

restored :
    (host : Host) (ctx : Context) (ds : List Deployment) (m : Manager)
    → ((d : Deployment) → host.at_update d ≡ ctx)
    → Balance ctx m (ids ds)
    → (j : Text)
    → is_listening j (restore_each host ctx ds m).listeners
      ≡ running_at (restore_each host ctx ds m).db j
unfolding restore_each restore_one is_listening
restored host ctx [] m at_update b j = ground (arith, b.shown j)
restored host ctx (d ∷ ds) m at_update b j =
    restored host ctx ds (restore_one host ctx d.id m) at_update
      (step host ctx d.id (ids ds) m at_update b (start host ctx d.id m)
        (start_cases host ctx d.id m))
      j

absent :
    (rows : List Deployment) (j : Text)
    → is_listening j (ids rows) ≡ false
    → shows (find (has_key deployment_key j) rows) ≡ false
unfolding find is_listening
absent [] j h = refl
absent (d ∷ rows) j h = ground (arith, h, absent rows j)

-- the ids that are running are distinct, and show what the records say
selected :
    (rows : List Deployment) (j : Text)
    → are_distinct (ids rows) ≡ true
    → is_listening j (ids (select (λ d. is_running d.status) rows))
      ≡ shows (find (has_key deployment_key j) rows)
unfolding select find is_listening are_distinct
selected [] j h = refl
selected (d ∷ rows) j h = elim (Bool-cases (is_running d.status)) [
  | inl r ↦ rw r (ground (arith, h, r, selected rows j, absent rows j, text_eq_iff d.id j))
  | inr r ↦ rw r (ground (arith, h, r, selected rows j, absent rows j, text_eq_iff d.id j))
]

selected-are_distinct :
    (rows : List Deployment)
    → are_distinct (ids rows) ≡ true
    → are_distinct (ids (select (λ d. is_running d.status) rows)) ≡ true
unfolding select are_distinct
selected-are_distinct [] h = refl
selected-are_distinct (d ∷ rows) h = elim (Bool-cases (is_running d.status)) [
  | inl r ↦
      rw r (ground (arith, h, selected-are_distinct rows, selected rows d.id, absent rows d.id))
  | inr r ↦ rw r (ground (arith, h, selected-are_distinct rows))
]

list_running-ok :
    (ctx : Context) (db : Db)
    → fails ctx db ≡ false
    → list_running ctx db ≡ ok (select (λ d. is_running d.status) db.deployments)
unfolding list_running
list_running-ok ctx db up = rw up refl

-- From a manager without listeners, with a database that answers throughout, also when a server was
-- started, and deployments with distinct ids, RestoreRunning leaves a deployment listening exactly when its record says that it runs.
pub restore_running_lem :
    (host : Host) (ctx : Context) (m : Manager)
    → m.listeners ≡ []
    → are_distinct (ids m.db.deployments) ≡ true
    → fails ctx m.db ≡ false
    → ((d : Deployment) → host.at_update d ≡ ctx)
    → (j : Text)
    → is_listening j (restore_running host ctx m).listeners
      ≡ running_at (restore_running host ctx m).db j
unfolding restore_running is_listening running_at
restore_running_lem host ctx m no_listener distinct up at_update j =
    rw (list_running-ok ctx m.db up, restore_running)
      (restored host ctx (select (λ d. is_running d.status) m.db.deployments) m at_update balance j)
  where
    balance : Balance ctx m (ids (select (λ d. is_running d.status) m.db.deployments))
    balance = record {
      up = up;
      distinct = selected-are_distinct m.db.deployments distinct;
      fresh = λ j h. rw no_listener refl;
      shown = λ j. rw no_listener (sym (selected m.db.deployments j distinct));
    }
