-- ===== src/Status/Manager.antt =====
-- internal/controller/status/manager.go: the conditions Ready, Progressing and Degraded, and how they
-- are written. Parameters: the client, the uncached reader, meta.SetStatusCondition (whether it
-- changed anything, and the conditions after it) and retry.RetryOnConflict with its backoff.
-- Children: Retrying (what RetryOnConflict does, and what an update has sent), Conditions.
pub mod Retrying
pub mod Conditions
use forge_operator.Prelude.{
  ℕ, String, Bool, false, not, ◌&&◌, List, Exec, Result, ok, err, Error, if◌then◌else◌, concat, [],
  ◌∷◌,
}
use forge_operator.Api.{Application, Condition, ConditionStatus, condition_true, condition_false}
use forge_operator.Cluster.{Client}

abbrev pub type_ready : String
type_ready = "Ready"

abbrev pub type_progressing : String
type_progressing = "Progressing"

abbrev pub type_degraded : String
type_degraded = "Degraded"

abbrev pub reason_reconciling : String
reason_reconciling = "Reconciling"

abbrev pub reason_available : String
reason_available = "ReconcileSuccess"

-- The Application that the caller holds, and the world.
abbrev pub Held : Type 0 → Type 0
Held W = Application × W

-- meta.SetStatusCondition
abbrev pub Setter : Type 0
Setter = List Condition → Condition → Bool × List Condition

-- application.Status.Conditions = cs; application.Status.ObservedGeneration = g
abbrev pub with_conditions : List Condition → Application → Application
with_conditions cs a = record a { status = record (a.status) { conditions = cs } }

abbrev pub with_observed : ℕ → Application → Application
with_observed g a = record a { status = record (a.status) { observed_generation = g } }

abbrev pub condition : Application → String → ConditionStatus → String → String → Condition
condition app type status reason message = record {
  type = type;
  status = status;
  reason = reason;
  message = message;
  observed_generation = app.generation;
}

-- The parameters, which all methods share.
pub record Tools (W : Type 0) : Type 0 where
  pub client : Client W
  pub api_reader : String → String → Exec W Application
  pub set_status_condition : Setter
  pub retry_on_conflict : Exec (Held W) (Unit {0}) → Exec (Held W) (Unit {0})

module _ {W : Type 0} (x : Tools W) where
  -- the reply of apiReader.Get after a conflict: the fresh copy takes the caller's place
  abbrev pub refetched :
      List Condition → ℕ → Error → Application → Result Application × W → Result (Unit {0}) × Held W
  refetched cs g e app (err get_error, w) = (err get_error, (app, w))
  refetched cs g e app (ok fresh, w) = (err e, (with_observed g (with_conditions cs fresh), w))

  abbrev pub updated :
      List Condition → ℕ → Application → Result Application × W → Result (Unit {0}) × Held W
  updated cs g app (ok answer, w) = (ok tt, (answer, w))
  updated cs g app (err e, w) =
      if not e.is_conflict
      then (err e, (app, w))
      else refetched cs g e app (x.api_reader app.namespace app.name w)

  -- the function that UpdateStatus retries
  unfoldable pub update_once : List Condition → ℕ → Exec (Held W) (Unit {0})
  update_once cs g (app, w) = updated cs g app (x.client.update_status app w)

  unfoldable pub update_status : Exec (Held W) (Unit {0})
  update_status (app, w) =
      x.retry_on_conflict (update_once app.status.conditions app.generation)
        (with_observed app.generation app, w)

  abbrev pub set_condition : Condition → List Condition → Bool × List Condition
  set_condition c cs = x.set_status_condition cs c

  -- skips the write if nothing has changed
  abbrev pub write_if : Bool → Exec (Held W) (Unit {0})
  write_if changed s = if changed then update_status s else (ok tt, s)

  abbrev pub reconciling : Application → String → Condition
  reconciling app message = condition app type_progressing condition_true reason_reconciling message

  abbrev pub not_yet_ready : Application → Condition
  not_yet_ready app =
      condition app type_ready condition_false reason_reconciling "Reconciliation in progress"

  unfoldable pub set_reconciling : String → Exec (Held W) (Unit {0})
  set_reconciling message (app, w) =
      let (progressing_changed, cs) =
        set_condition (reconciling app message) app.status.conditions in
      let (ready_changed, ds) = set_condition (not_yet_ready app) cs in
      write_if (not (not progressing_changed && not ready_changed)) (with_conditions ds app, w)

  abbrev pub available : Application → String → Condition
  available app message = condition app type_ready condition_true reason_available message

  abbrev pub settled : Application → Condition
  settled app =
      condition app type_progressing condition_false reason_available
        "Application is up to date and ready"

  abbrev pub healthy : Application → Condition
  healthy app = condition app type_degraded condition_false reason_available "No errors observed"

  unfoldable pub set_ready : String → Exec (Held W) (Unit {0})
  set_ready message (app, w) =
      let (ready_changed, cs) = set_condition (available app message) app.status.conditions in
      let (progressing_changed, ds) = set_condition (settled app) cs in
      let (degraded_changed, es) = set_condition (healthy app) ds in
      write_if (not (not ready_changed && (not progressing_changed && not degraded_changed)))
        (with_conditions es app, w)

  abbrev pub degraded : Application → String → Error → Condition
  degraded app reason e = condition app type_degraded condition_true reason e.text

  abbrev pub failed : Application → String → Error → Condition
  failed app reason e =
      condition app type_ready condition_false reason
        (concat ("Reconciliation failed: " ∷ e.text ∷ []))

  unfoldable pub set_failed : String → Error → Exec (Held W) (Unit {0})
  set_failed reason e (app, w) =
      let (degraded_changed, cs) = set_condition (degraded app reason e) app.status.conditions in
      let (ready_changed, ds) = set_condition (failed app reason e) cs in
      write_if (not (not degraded_changed && not ready_changed)) (with_conditions ds app, w)
