-- ===== src/S3/Session.antt =====
-- internal/controller/s3/client.go: the AWS calls that the S3 manager makes (S3API, IAMAPI), which
-- are parameters of the model, the manager, and the state that its methods work on.
use forge_operator.Prelude.{ℕ, String, Option, List, [], ◌∷◌, ◌++◌, Exec, Result, ok}
use forge_operator.Api.{Application, StorageSpec, LifecycleTransition, Time}
use forge_operator.Cluster.{Client}

pub record Tag : Type 0 where
  pub key : String
  pub value : String

pub record ObjectIdentifier : Type 0 where
  pub key : String
  pub version_id : String

pub record Page : Type 0 where
  pub versions : List ObjectIdentifier
  pub delete_markers : List ObjectIdentifier

-- The SDK's paginator: it has no more pages, or fetches one. A fetch has a reply, a world and the
-- paginator that it leaves. A listing has finitely many pages, hence the inductive type.
pub data Paginator (P : Type 0) (W : Type 0) : Type 0 where
  finished : Paginator P W
  more : (W → Result P) → (W → W) → (W → Paginator P W) → Paginator P W

pub record Upload : Type 0 where
  pub key : String
  pub upload_id : String

-- s3types.LifecycleRule
pub record S3Rule : Type 0 where
  pub id : String
  pub status : String
  pub prefix : String
  pub expiration_days : Option ℕ
  pub noncurrent_days : Option ℕ
  pub days_after_initiation : Option ℕ
  pub transitions : List LifecycleTransition

-- The first argument of each call is the bucket.
pub record S3Api (W : Type 0) : Type 0 where
  pub head_bucket : String → Exec W (Unit {0})
  -- with the location constraint, if one is sent
  pub create_bucket : String → Option String → Exec W (Unit {0})
  pub put_bucket_versioning : String → String → Exec W (Unit {0})
  pub put_bucket_lifecycle_configuration : String → List S3Rule → Exec W (Unit {0})
  pub delete_bucket_lifecycle : String → Exec W (Unit {0})
  pub delete_bucket : String → Exec W (Unit {0})
  pub list_object_versions : String → Paginator Page W
  -- the messages of the per-object errors
  pub delete_objects : String → List ObjectIdentifier → Exec W (List String)
  pub list_multipart_uploads : String → Exec W (List Upload)
  pub abort_multipart_upload : String → Upload → Exec W (Unit {0})
  pub get_bucket_tagging : String → Exec W (List Tag)
  pub put_bucket_tagging : String → List Tag → Exec W (Unit {0})

-- The first argument of each call is the role. The calls that give a role give its ARN.
pub record IamApi (W : Type 0) : Type 0 where
  pub get_role : String → Exec W String
  pub create_role : String → String → String → Exec W String
  pub update_assume_role_policy : String → String → Exec W (Unit {0})
  pub put_role_policy : String → String → String → Exec W (Unit {0})
  pub delete_role_policy : String → String → Exec W (Unit {0})
  pub delete_role : String → Exec W (Unit {0})

-- What the manager stands on beside its own fields: the clients, time.Now and SHA-256.
pub record Env (W : Type 0) : Type 0 where
  pub k8s : Client W
  pub s3 : S3Api W
  pub iam : IamApi W
  pub now : W → Time
  pub sha256_hex : String → String

-- The counters and gauges of forgemetrics that the code writes, but for the durations, and the
-- events that it emits. Where there are several texts, the namespace and the name of the
-- Application come first, and the provider before an outcome.
pub data Metric : Type 0 where
  bucket_adopted : String → Metric  -- StorageBucketAdoptedTotal
  ownership_reclaimed : String → Metric  -- StorageOwnershipReclaimedTotal
  storage_reconcile_total : String → String → Metric
  storage_ready_set : String → String → String → ℕ → Metric
  storage_ready_deleted : String → String → String → Metric
  finalizer_cleanup_total : String → String → Metric
  application_ready_set : String → String → ℕ → Metric
  application_ready_deleted : String → String → Metric
  -- the type, the reason and the note of an event with the action Cleanup
  event : String → String → String → Metric

-- The Application that the manager points to, the world, and the metrics that were written.
pub record Session (W : Type 0) : Type 0 where
  pub app : Application
  pub world : W
  pub metrics : List Metric

module _ {W : Type 0} {A : Type 0} where
  abbrev pub on_world : Exec W A → Exec (Session W) A
  on_world m s = let (r, w) = m s.world in (r, record s { world = w })

module _ {W : Type 0} where
  abbrev pub increment : Metric → Exec (Session W) (Unit {0})
  increment x s = (ok tt, record s { metrics = s.metrics ++ x ∷ [] })

-- Manager. Its field app is the session's Application: reconcileAWSStorage passes the very object
-- that the callback `record_created` writes to. A manager for cleanup has no callback.
pub record Manager (W : Type 0) : Type 0 where
  pub storage : StorageSpec
  pub bucket : String
  pub region : String
  pub service_account_name : String
  pub oidc_provider_arn : String
  pub oidc_provider_url : String
  pub permissions_boundary_arn : String
  pub record_created : Option (Exec (Session W) (Unit {0}))
