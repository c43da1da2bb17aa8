-- ===== src/Deployments/Shown.antt =====
-- Deployments/manager.go, Start, Stop and StopAll: no deployment listens whose record says that it is
-- stopped.
use honeygen.Prelude.{
  ◌≡◌, refl, ◌⊎◌, inl, inr, true, false, not, ◌&&◌, List, [], ◌∷◌, arith, Bool-cases, Result, err,
}
use honeygen.Text.{Text}
use honeygen.Text.Equality.{text_eq_iff, text_eq_refl}
use honeygen.Database.{Deployment, DeploymentStatus, stopped, Context, fails}
use honeygen.Deployments.{
  DeployError, deploy_db_failed, is_running, Manager, Host, is_listening, start, stop, stop_each,
  stop_all,
}
use honeygen.Deployments.Running.{
  running_at, running_at-update_status, update_status_failed, StartCase, refused, unrecorded,
  started, start_cases, stop_lem,
}

-- every listener's record says that it runs
pub record IsShown (m : Manager) : Type 0 where
  pub shown : (id : Text) → is_listening id m.listeners ≡ true → running_at m.db id ≡ true

-- a call of `Start` that fails and yet leaves its listener
pub record IsLeaked (id : Text) (m : Manager) (o : Result DeployError Unit × Manager) : Type 0 where
  pub answer : o.0 ≡ err deploy_db_failed
  pub quiet : is_listening id m.listeners ≡ false
  pub listens : is_listening id o.1.listeners ≡ true
  pub kept : o.1.db ≡ m.db

module _ (host : Host) (ctx : Context) (id : Text) (m : Manager) (h : IsShown m) where
  start_case-IsShown :
      (o : Result DeployError Unit × Manager)
      → StartCase host ctx id m o
      → IsShown o.1 ⊎ IsLeaked id m o
  unfolding is_listening is_running
  start_case-IsShown o (refused e) = inl h
  start_case-IsShown o (unrecorded d quiet late) =
      inr
        (record { answer = refl; quiet = quiet; listens = rw (text_eq_refl id) refl; kept = refl })
  start_case-IsShown o (started late up there) = inl (record {
    shown = λ j l. ground (
      arith,
      running_at-update_status late id DeploymentStatus.running m.db j up,
      text_eq_iff id j,
      there,
      l,
      h.shown j,
    );
  })

  answered :
      (o : Result DeployError Unit × Manager)
      → StartCase host ctx id m o
      → ((d : Deployment) → fails (host.at_update d) m.db ≡ false)
      → IsShown o.1
  unfolding is_listening is_running
  answered o (refused e) up = h
  answered o (unrecorded d quiet late) up = cc (late, up d)
  answered o (started late ok_ there) up = record {
    shown = λ j l. ground (
      arith,
      running_at-update_status late id DeploymentStatus.running m.db j ok_,
      text_eq_iff id j,
      there,
      l,
      h.shown j,
    );
  }

  -- If the record of every listener says that it runs, then after Start this holds again, whatever Start
  -- answers, where the database still answers when the server was started. Else it holds again, or
  -- Start has failed and the deployment listens all the same, with its record as before.
  pub start_lem :
      (((d : Deployment) → fails (host.at_update d) m.db ≡ false) → IsShown (start host ctx id m).1)
      × (IsShown (start host ctx id m).1 ⊎ IsLeaked id m (start host ctx id m))
  start_lem = (
    answered (start host ctx id m) (start_cases host ctx id m),
    start_case-IsShown (start host ctx id m) (start_cases host ctx id m),
  )

-- If the record of every listener says that it runs, this holds after Stop, also when the database
-- does not answer.
pub stop-IsShown : (ctx : Context) (id : Text) (m : Manager) → IsShown m → IsShown (stop ctx id m).1
unfolding stop is_running
stop-IsShown ctx id m h = record {
  shown = λ j l. elim (Bool-cases (fails ctx m.db)) [
    | inl down ↦
        rw (update_status_failed ctx id stopped m.db down)
          (h.shown j (ground (arith, stop_lem ctx id m j, l)))
    | inr up ↦ ground (
      arith,
      running_at-update_status ctx id stopped m.db j up,
      stop_lem ctx id m j,
      l,
      h.shown j,
    )
  ];
}

stop_each_lem :
    (ctx : Context) (ids : List Text) (m : Manager) (j : Text)
    → is_listening j (stop_each ctx ids m).listeners
      ≡ is_listening j m.listeners && not (is_listening j ids)
unfolding stop_each is_listening
stop_each_lem ctx [] m j = ground arith
stop_each_lem ctx (id ∷ ids) m j =
    ground (arith, stop_each_lem ctx ids (stop ctx id m).1 j, stop_lem ctx id m j)

stop_each-IsShown :
    (ctx : Context) (ids : List Text) (m : Manager) → IsShown m → IsShown (stop_each ctx ids m)
unfolding stop_each
stop_each-IsShown ctx [] m h = h
stop_each-IsShown ctx (id ∷ ids) m h =
    stop_each-IsShown ctx ids (stop ctx id m).1 (stop-IsShown ctx id m h)

-- StopAll leaves no listener, whatever the database answers.
pub stop_all_lem :
    (ctx : Context) (m : Manager) (j : Text) → is_listening j (stop_all ctx m).listeners ≡ false
unfolding stop_all
stop_all_lem ctx m j = ground (arith, stop_each_lem ctx m.listeners m j)
