-- ===== src/Lib.antt =====
-- Forge Operator: a Kubernetes operator that runs an application and provisions its object storage.
--
-- A user writes an Application (api/v1alpha1). The webhook (internal/webhook/v1alpha1) fills in its
-- defaults and rejects changes that would lose a bucket. The controller (internal/controller) makes
-- the workload, and the bucket with the credentials for it; the storage packages decide by tags on
-- the bucket (s3) or by a marker object in it (akamaiobjstr) whether it is the Application's,
-- before they write to it or delete it.
--
-- Files, with the code they model:
--   Prelude            Go idioms: errors as the observations made of them, fallible code over
--                      explicit state and what it leaves alone, maps, formatted text, lists measured
--                      by native numbers, integers
--   Api                api/v1alpha1/application_types.go: one record for each struct
--   Cluster            the controller-runtime client, a parameter: every call reads and may change
--                      an abstract world, and gives an object or an error
--   Naming             internal/controller/naming/naming.go: Names (resource names), Adoption
--                      (ApplicationExistsWithUID, CrossNamespaceAdoptionAllowed,
--                      EvaluateBucketAdoption), Text (strings.Split and strings.TrimSpace)
--   Webhook            internal/webhook/v1alpha1/application_webhook.go: default, validate_create,
--                      validate_update, validate_delete for Default and the Validate methods
--   S3                 internal/controller/s3: Session (client.go: S3API, IAMAPI and Manager, with
--                      the state that the methods work on), Ownership (claimOrVerifyOwnership of
--                      desireds3.go and verifyOwnership of cleanup.go), Role (ReconcileAppIRSA and
--                      cleanupAppIRSA), Bucket (ReconcileBucket), Cleanup (CleanupBucket)
--   Policy             docs/authentication-and-storage.md: who may own a bucket, for both backends;
--                      Visits and MarkerVisits: the runs of several Applications at one bucket as step
--                      relations, of S3 and of Akamai
--   Akamai             internal/controller/akamaiobjstr: Session (client.go: AKAMAIAPI, s3ObjectAPI,
--                      Manager), Ownership (claimOrVerifyOwnership), Keys (ensureAccessKey and the
--                      deletion of the key), Bucket (ReconcileBucket), Cleanup (DeleteBucket)
--   Status             internal/controller/status: Compute (EvaluateComputeReadiness and the
--                      readiness of each resource), Manager (manager.go: the conditions and their
--                      update)
--   StorageConditions  internal/controller/storagestatus/storagestatus.go: the condition
--                      StorageReady
--   Storage            internal/controller/storage.go and finalizer.go: the records of a storage in
--                      the status, and how they are read again
--   Controller         internal/controller: Session (ApplicationReconciler and retryStatusUpdate),
--                      Accounts (serviceaccount.go), Secrets (secret.go), Finalizer (finalizer.go:
--                      handle_finalizer, finalize_application), Storage (storage.go:
--                      reconcile_storage), Workload (configmap.go, service.go, ingress.go, hpa.go,
--                      pdb.go), Deployment (deployment.go), Loop (Reconcile of
--                      application_controller.go and desiredstate.go), Predicates (predicates.go),
--                      Keeping (shared lemmas)
--   ErrorClass         internal/controller/errorclass.go
--   RateLimit          internal/controller/ratelimit: new_limiter, aws_middleware, round_trip
--                      (ratelimit.go), Ramp (ramp_up for RampUp of rampup.go)
--   Settings           cmd/main.go: envFloat, envInt, envDuration, the limiters and the settings of the
--                      reconciler that main makes of the environment
--   Examples           the theorems on concrete Applications, buckets and clusters
--
-- The parts interact through Client, S3Api, IamApi, AkamaiApi and ObjectApi, whose calls are
-- parameters, and through the names of Naming, which the webhook and the controller share. The
-- SDKs' calls may do anything to the world and fail in any way. Where a theorem relies on AWS it
-- says so in a hypothesis: TagStore (a tag set that was accepted is what is read next, and its keys
-- are unique), PutsSucceed. WritesSucceed is the same for Akamai's markers, MarkerStore is what
-- Sharing is for them, and that reading a marker at the cluster of its bucket gives what is stored,
-- and Apart says that Kubernetes objects, IAM roles and access keys are apart from what a bucket
-- holds. In the same way IsSetter states what meta.SetStatusCondition documents, Setters, Tickers
-- and RateLaws what golang.org/x/time/rate and time.NewTicker do (Alone, that nobody else sets a
-- limiter meanwhile), Lengthens what wait.Jitter does, Sharing that reading a bucket and writing IAM
-- roles leave the replies on the bucket, its tags and the list of Applications alone,
-- SeesGeneration what predicate.GenerationChangedPredicate does, and Retries and RetriesStatus what
-- retry.RetryOnConflict does: it calls again after a conflict, unless its backoff is used up.
--
-- State is passed explicitly: what was written before a failure stays written, as in the code. The
-- object that a manager points to and the object that its callback recordCreated writes are one,
-- the Application of the session; where the code works on a deep copy, the copy takes its place for
-- a while. Metrics that the code counts, and events, are a list in the session; logging, durations,
-- tracing and, but in RateLimit, contexts are left out, so that a cancelled context is an error
-- that a call gives.
--
-- A select of RampUp is a call that may change the world, as others use the limiter meanwhile. The
-- type float64 is a parameter: its operations obey no law but that one is more than zero.
--
-- Numbers are natural, but for Go's int and time.Duration in Settings and in the loop, which are
-- integers: the API server admits no negative int32 or int64 in the fields concerned. Times are
-- nanoseconds. Names are ASCII, so that cutting bytes cuts no character. RampUp's loop runs on the
-- turns that it has left. The one loop on fuel, the batches of a deletion, has as much fuel as the
-- list has elements, and each turn takes at least one; a listing has finitely many pages, so that
-- its paginator is an inductive type.
--
-- Not modelled: the registration of watches, the flags and the wiring of cmd/main.go, metrics
-- registration, tracing and generated code, which hold no state of their own.
mod Prelude
pub mod Api
pub mod Cluster
pub mod Naming
pub mod Webhook
pub mod RateLimit
pub mod S3
pub mod Policy
pub mod Akamai
pub mod Status
pub mod ErrorClass
pub mod StorageConditions
pub mod Storage
pub mod Examples
pub mod Controller
pub mod Settings
