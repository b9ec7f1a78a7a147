-- ===== src/Controller/Finalizer/Retain.antt =====
-- finalizeApplication of internal/controller/finalizer.go under the deletion policy Retain.
use forge_operator.Prelude.{
  Keeps, String, true, none, some, ◌≡◌, refl, Result, ok, err, is_ok, arith,
}
use forge_operator.Api.{Application, StorageSpec}
use forge_operator.Storage.{is_retained}
use forge_operator.S3.Session.{Session, Env, Manager}
use forge_operator.S3.Connect.{new_s3_manager}
use forge_operator.S3.Cleanup.{cleanup_credentials_only}
use forge_operator.StorageConditions.{set_retained}
use forge_operator.Akamai.Session.{AkamaiEnv, AkamaiManager}
use forge_operator.Akamai.Connect.{new_akamai_manager}
use forge_operator.Controller.Accounts.{service_account_name_for}
use forge_operator.Akamai.Cleanup.{cleanup_akamai_credentials_only}
use forge_operator.Controller.Session.{Reconciler, on_snapshot}
use forge_operator.Controller.Keeping.{RetriesStatus}
use forge_operator.Controller.Finalizer.{
  storage_to_clean, drop_role, drop_access_key, warned, with_storage,
  cleanup_retained_storage_credentials, retain_storage, finalize_application,
}
use forge_operator.Controller.Finalizer.Apart.{Apart, retry-Keeps, credentials-Keeps}

module _ {W : Type 0} {O : Type 0} (r : Reconciler W) (see : W → O) (apart : Apart r see)
    (retries : RetriesStatus r) where
  retain-Keeps :
      (bucket : String) (s : Session W) → Keeps (λ u. see u.world) (retain_storage r bucket) s
  unfolding retain_storage
  retain-Keeps bucket s = ground (
    arith,
    retry-Keeps r see apart retries
        (record s { app = set_retained r.set_status_condition s.app bucket }),
  )

  warned-ok :
      (reason note : String) (q : Result (Unit {0})) (s : Session W)
      → is_ok (warned r reason note q s).0 ≡ true
  warned-ok reason note (ok a) s = refl
  warned-ok reason note (err e) s = ground arith

  drop_role-ok :
      (copy : Application) (q : Result (Env W × Manager W)) (s : Session W)
      → is_ok (drop_role r copy q s).0 ≡ true
  drop_role-ok copy (err e) s = refl
  drop_role-ok copy (ok (env, m)) s =
      let (q, t) = on_snapshot copy (cleanup_credentials_only env m) s in warned-ok _ _ q t

  drop_key-ok :
      (copy : Application) (q : Result (AkamaiEnv W × AkamaiManager W)) (s : Session W)
      → is_ok (drop_access_key r copy q s).0 ≡ true
  drop_key-ok copy (err e) s = refl
  drop_key-ok copy (ok (env, m)) s =
      let (q, t) = on_snapshot copy (cleanup_akamai_credentials_only env m) s in warned-ok _ _ q t

  credentials-ok :
      (storage : StorageSpec) (s : Session W)
      → is_ok (cleanup_retained_storage_credentials r storage s).0 ≡ true
  unfolding cleanup_retained_storage_credentials
  credentials-ok storage s =
      let copy = with_storage storage s.app in
      let (aws, t) =
        new_s3_manager r.platform r.aws (service_account_name_for s.app) none
          (record s { app = copy }) in
      let (linode, u) = new_akamai_manager r.platform r.akamai none (record s { app = copy }) in
      ground (
        arith,
        drop_role-ok copy aws (record t { app = s.app }),
        drop_key-ok copy linode (record u { app = s.app }),
      )

  retain-ok : (bucket : String) (s : Session W) → is_ok (retain_storage r bucket s).0 ≡ true
  unfolding retain_storage
  retain-ok bucket s = ground arith

  -- Under the deletion policy Retain the finalization succeeds, whatever the calls to the cluster and the
  -- cloud give, and leaves what is seen of the world as it is, if that is apart from the Kubernetes
  -- objects, from IAM roles and from access keys, and if the retrying is RetryOnConflict's.
  pub retained_untouched :
      (storage : StorageSpec) (s : Session W)
      → storage_to_clean s.app ≡ some storage
      → is_retained storage ≡ true
      → (is_ok (finalize_application r s).0 ≡ true)
        × (see (finalize_application r s).1.world ≡ see s.world)
  unfolding finalize_application
  retained_untouched storage s h k =
      let freed = cleanup_retained_storage_credentials r storage s in
      rw (h, k)
        (
          ground (arith, credentials-ok storage s, retain-ok storage.bucket freed.1),
          ground (
            arith,
            credentials-ok storage s,
            credentials-Keeps r see apart retries storage s,
            retain-Keeps storage.bucket freed.1,
          ),
        )
