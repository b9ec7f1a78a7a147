-- ===== src/Controller/Session.antt =====
-- internal/controller/application_controller.go and storage.go: the fields of ApplicationReconciler, and
-- retryStatusUpdate, by which its methods write the status of the session's Application. What the
-- code takes from libraries is a field here: controllerutil, meta, uuid, retry and wait.
use forge_operator.Prelude.{
  ℤ, String, Bool, not, none, some, List, Exec, try, pure, ◌>>=◌, ok, err, Result, Error,
  if◌then◌else◌,
}
use forge_operator.Api.{Application, ApplicationStatus, Condition, StorageSpec}
use forge_operator.Cluster.{Platform, OwnedMeta}
use forge_operator.S3.Session.{Session, Metric, increment}
use forge_operator.S3.Connect.{AwsSettings}
use forge_operator.Akamai.Connect.{AkamaiSettings}
use forge_operator.Status.Manager.{Held, Setter, Tools}

-- ApplicationReconciler
pub record Reconciler (W : Type 0) : Type 0 where
  pub platform : Platform W
  pub aws : AwsSettings W
  pub akamai : AkamaiSettings W
  -- whether Recorder is set
  pub records : Bool
  -- meta.SetStatusCondition and meta.RemoveStatusCondition
  pub set_status_condition : Setter
  pub remove_status_condition : List Condition → String → List Condition
  -- retry.RetryOnConflict with retry.DefaultRetry
  pub retry_on_conflict : Exec (Held W) (Unit {0}) → Exec (Held W) (Unit {0})
  -- controllerutil.ContainsFinalizer, AddFinalizer and RemoveFinalizer
  pub contains_finalizer : List String → String → Bool
  pub add_finalizer : List String → String → List String
  pub remove_finalizer : List String → String → List String
  -- controllerutil.SetControllerReference and metav1.IsControlledBy
  pub set_controller_reference : Application → OwnedMeta → Result OwnedMeta
  pub is_controlled_by : OwnedMeta → Application → Bool
  -- uuid.NewString
  pub new_uuid : W → String × W
  pub status_manager : Tools W
  -- wait.Jitter with the factor 0.2, of a number of nanoseconds
  pub jitter : W → ℤ → ℤ
  pub storage_resync_interval : ℤ

module _ {W : Type 0} where
  -- a write to the Application in memory
  abbrev pub modify : (Application → Application) → Exec (Session W) (Unit {0})
  modify f s = (ok tt, record s { app = f s.app })

  -- the code's throwaway copy: what is done works on `copy`, and the Application stays as it was
  abbrev pub on_snapshot :
      {A : Type 0} → Application → (Session W → A × Session W) → Session W → A × Session W
  on_snapshot copy m s = let (r, t) = m (record s { app = copy }) in (r, record t { app = s.app })

abbrev pub with_status : ApplicationStatus → Application → Application
with_status status app = record app { status = status }

module _ {W : Type 0} (r : Reconciler W) where
  -- the reply of Get after a conflict
  abbrev pub status_refetched :
      Error → Application → Result Application × W → Result (Unit {0}) × Held W
  status_refetched e app (err get_error, w) = (err get_error, (app, w))
  status_refetched e app (ok fresh, w) = (err e, (fresh, w))

  abbrev pub status_answered : Application → Result Application × W → Result (Unit {0}) × Held W
  status_answered app (ok answer, w) = (ok tt, (answer, w))
  status_answered app (err e, w) =
      if not e.is_conflict
      then (err e, (app, w))
      else status_refetched e app (r.platform.k8s.get_application app.namespace app.name w)

  -- the function that retryStatusUpdate retries
  unfoldable pub status_once : ApplicationStatus → Exec (Held W) (Unit {0})
  status_once desired (app, w) =
      status_answered (with_status desired app)
        (r.platform.k8s.update_status (with_status desired app) w)

  unfoldable pub retry_status_update : Exec (Session W) (Unit {0})
  retry_status_update s =
      let (q, (app, w)) = r.retry_on_conflict (status_once s.app.status) (s.app, s.world) in
      (q, record s { app = app; world = w })

  -- a status write whose failure is only logged
  abbrev pub try_status_update : Exec (Session W) (Unit {0})
  try_status_update = try retry_status_update >>= (λ q. pure tt)

  -- Recorder.Eventf, with the type, the reason and the note
  abbrev pub emit : String → String → String → Exec (Session W) (Unit {0})
  emit type reason note = if r.records then increment (Metric.event type reason note) else pure tt

-- application.Spec.Storage where the code reads it again. An answer of the API server that has lost
-- the storage, between two steps of one reconcile, makes the code panic; the spec of the start
-- stands for it here.
abbrev pub current_spec : StorageSpec → Application → StorageSpec
current_spec storage app = elim app.spec.storage [ none ↦ storage | some now ↦ now ]
