-- ===== src/Controller/Loop.antt =====
-- internal/controller/application_controller.go and desiredstate.go: Reconcile, which brings one
-- Application to its desired state and shows the outcome in its conditions.
-- Child Settled: when it leaves an Application alone.
pub mod Settled
use forge_operator.Prelude.{
  ℕ, ℤ, pos, is_positive, String, Bool, true, false, Option, none, some, List, Exec, pure, fail,
  try, ◌>>=◌, ◌>>◌, Result, ok, err, Error, if◌then◌else◌,
}
use forge_operator.Api.{Application, StorageSpec}
use forge_operator.ErrorClass.{reason_failed, reconcile_failure_reason}
use forge_operator.Status.Manager.{Held, set_reconciling, set_ready, set_failed}
use forge_operator.Status.Compute.{Verdict, evaluate_compute_readiness}
use forge_operator.S3.Session.{Session, Metric, increment, application_ready_set}
use forge_operator.Controller.Session.{Reconciler}
use forge_operator.Controller.Accounts.{reconcile_service_account}
use forge_operator.Controller.Storage.{reconcile_storage}
use forge_operator.Controller.Finalizer.{handle_finalizer}
use forge_operator.Controller.Deployment.{reconcile_deployment}
use forge_operator.Controller.Workload.{
  reconcile_config_map, reconcile_service, reconcile_ingress, reconcile_pdb, reconcile_hpa,
}

-- nanoseconds
abbrev pub readiness_requeue_interval : ℤ
readiness_requeue_interval = pos 10000000000

abbrev pub default_max_concurrent_reconciles : ℤ
default_max_concurrent_reconciles = pos 5

unfoldable pub resolve_max_concurrent_reconciles : ℤ → ℤ
resolve_max_concurrent_reconciles configured =
    if is_positive configured then configured else default_max_concurrent_reconciles

abbrev pub default_storage_resync_interval : ℤ
default_storage_resync_interval = pos 600000000000

unfoldable pub resolve_storage_resync_interval : ℤ → ℤ
resolve_storage_resync_interval configured =
    if is_positive configured then configured else default_storage_resync_interval

-- ctrl.Result by its RequeueAfter in nanoseconds. It asks for another reconcile where that is positive.
abbrev pub Requeue : Type 0
Requeue = ℤ

module _ {W : Type 0} (r : Reconciler W) where
  unfoldable pub ensure_desired_state : Exec (Session W) (Unit {0})
  ensure_desired_state =
      reconcile_service_account r
      >> (reconcile_config_map r
          >> (reconcile_storage r
              >> (reconcile_service r
                  >> (reconcile_deployment r
                      >> (reconcile_ingress r >> (reconcile_pdb r >> reconcile_hpa r))))))

  -- a method of the StatusManager, on the session's Application
  abbrev pub on_held : Exec (Held W) (Unit {0}) → Exec (Session W) (Unit {0})
  on_held m s = let (q, (app, w)) = m (s.app, s.world) in (q, record s { app = app; world = w })

  abbrev pub ready_gauge : ℕ → Exec (Session W) (Unit {0})
  ready_gauge n s = increment (application_ready_set s.app.namespace s.app.name n) s

  -- an error, shown with this reason
  abbrev pub show_failure : String → Error → Exec (Session W) Requeue
  show_failure reason e =
      on_held (set_failed r.status_manager reason e) >> (ready_gauge 0 >> fail e)

  unfoldable pub jittered_storage_resync_interval : W → ℤ → ℤ
  jittered_storage_resync_interval w configured =
      r.jitter w (resolve_storage_resync_interval configured)

  abbrev pub resync : Option StorageSpec → Session W → Requeue
  resync none s = pos 0
  resync (some storage) s = jittered_storage_resync_interval s.world r.storage_resync_interval

  abbrev pub resync_later : Exec (Session W) Requeue
  resync_later s = (ok (resync s.app.spec.storage s), s)

  abbrev pub show_readiness : Bool → String → Exec (Session W) Requeue
  show_readiness true reason =
      on_held (set_ready r.status_manager reason) >> (ready_gauge 1 >> resync_later)
  show_readiness false reason =
      on_held (set_reconciling r.status_manager reason)
      >> (ready_gauge 0 >> pure readiness_requeue_interval)

  abbrev pub show_verdict : Verdict → Exec (Session W) Requeue
  show_verdict v = elim v.error [
    | some e ↦ show_failure reason_failed e
    | none ↦ show_readiness v.ready v.message
  ]

  abbrev evaluate : Exec (Session W) Verdict
  evaluate s =
      let (v, w) = evaluate_compute_readiness r.platform.k8s s.app s.world in
      (ok v, record s { world = w })

  abbrev pub show_state : Result (Unit {0}) → Exec (Session W) Requeue
  show_state (err e) = show_failure (reconcile_failure_reason e) e
  show_state (ok a) = evaluate >>= show_verdict

  -- the part after handleFinalizer
  abbrev pub after_finalizer : (Bool × Result (Unit {0})) × Session W → Result Requeue × Session W
  after_finalizer ((deleting, err e), s) = (err e, s)
  after_finalizer ((true, ok a), s) = (ok (pos 0), s)
  after_finalizer ((false, ok a), s) = (try ensure_desired_state >>= show_state) s

  -- Reconcile, for the Application that was found
  unfoldable pub reconcile_found : Exec (Session W) Requeue
  reconcile_found =
      on_held (set_reconciling r.status_manager "Reconciling Application resources")
      >> (λ s. after_finalizer (handle_finalizer r s))

  abbrev pub Running : Type 0
  Running = W × List Metric

  abbrev leaving : Result Requeue × Session W → Result Requeue × Running
  leaving (q, s) = (q, (s.world, s.metrics))

  abbrev pub reconcile_answered : List Metric → Result Application × W → Result Requeue × Running
  reconcile_answered metrics (ok app, w) =
      leaving (reconcile_found (record { app = app; world = w; metrics = metrics }))
  reconcile_answered metrics (err e, w) =
      ((if e.is_not_found then ok (pos 0) else err e), (w, metrics))

  -- for a request with this namespace and name
  unfoldable pub reconcile : String → String → Exec Running Requeue
  reconcile namespace name (w, metrics) =
      reconcile_answered metrics (r.platform.k8s.get_application namespace name w)
