-- ===== src/Controller/Secrets.antt =====
-- internal/controller/secret.go: the Secret that gives the workload its storage, and which Applications
-- a Secret concerns. Children: Keys (the secret key that is written and read again), Injected (the
-- variables that read the Secret).
pub mod Keys
pub mod Injected
use Prim.Native.String.{◌++◌}
use forge_operator.Prelude.{
  String, Bool, ◌&&◌, ◌||◌, not, Option, none, some, List, [], ◌∷◌, StringMap, insert, trim_prefix,
  Exec, pure, fail, try, ◌>>=◌, ◌>>◌, mapping_error, Result, ok, err, wrap, ◌==◌, if◌then◌else◌,
  concat,
}
use forge_operator.Api.{
  Application, StorageSpec, StorageStatus, AwsStorageStatus, AwsStorageSpec, provider_aws_s3,
  provider_akamai_object_storage,
}
use forge_operator.Cluster.{OwnedMeta, OwnedSecret}
use forge_operator.Naming.Names.{storage_secret, akamai_token_secret}
use forge_operator.S3.Session.{Session, on_world}
use forge_operator.Akamai.Session.{AkamaiResult}
use forge_operator.Controller.Session.{Reconciler}
use forge_operator.Controller.Accounts.{app_label_key, removed, is_stale, controlled}

abbrev pub secret_role_label : String
secret_role_label = "forge.ningendo7.github.io/secret-role"

abbrev pub secret_role_storage : String
secret_role_storage = "storage"

abbrev pub storage_keys : StorageSpec → StringMap
storage_keys storage =
    ("provider", storage.provider)
    ∷ ("bucket", storage.bucket)
    ∷ ("region", storage.region)
    ∷ ("endpoint", storage.endpoint)
    ∷ []

abbrev pub put_aws_role : Option AwsStorageStatus → StringMap → StringMap
put_aws_role none m = m
put_aws_role (some aws) m = insert m "role_arn" aws.role_arn

abbrev pub put_role : Option StorageStatus → StringMap → StringMap
put_role none m = m
put_role (some st) m = put_aws_role st.aws m

abbrev pub put_secret_key : String → StringMap → StringMap
put_secret_key key m = if not (key == "") then insert m "secret_key" key else m

abbrev pub put_credentials : String → Option AkamaiResult → StringMap → StringMap
put_credentials bucket none m = m
put_credentials bucket (some c) m =
    insert
      (insert (put_secret_key c.secret_key (insert m "access_key" c.access_key)) "endpoint"
        c.endpoint)
      "endpoint_url" ("https://" ++ trim_prefix c.endpoint (bucket ++ "."))

-- desiredStorage, for an Application with a storage spec
unfoldable pub desired_storage : Application → StorageSpec → Option AkamaiResult → OwnedSecret
desired_storage app storage akamai_creds = record {
  metadata = record {
    name = storage_secret app;
    namespace = app.namespace;
    labels = (app_label_key, app.name) ∷ (secret_role_label, secret_role_storage) ∷ [];
    annotations = [];
    controller = none;
  };
  string_data =
      put_credentials storage.bucket akamai_creds
        (put_role app.status.storage (storage_keys storage));
}

module _ {W : Type 0} (r : Reconciler W) where
  -- the loop of deleteStaleSecrets
  unfoldable pub delete_each_secret : String → List OwnedMeta → Exec (Session W) (Unit {0})
  delete_each_secret keep_name [] s = (ok tt, s)
  delete_each_secret keep_name (item ∷ items) s =
      ((if is_stale r s.app keep_name item
            then try (on_world (r.platform.k8s.delete_secret item))
              >>= removed (concat ("failed to delete stale Secret " ∷ item.name ∷ ": " ∷ []))
            else pure tt)
          >> delete_each_secret keep_name items)
        s

  unfoldable pub delete_stale_secrets : String → String → Exec (Session W) (Unit {0})
  delete_stale_secrets role keep_name s =
      (mapping_error (λ e. wrap "failed to list Secrets for cleanup: " e "")
            (on_world (
              r.platform.k8s.list_secrets s.app.namespace
                ((app_label_key, s.app.name) ∷ (secret_role_label, role) ∷ [])))
          >>= delete_each_secret keep_name)
        s

  abbrev pub apply_storage_secret : OwnedSecret → OwnedMeta → Exec (Session W) (Unit {0})
  apply_storage_secret desired metadata =
      mapping_error (λ e. wrap "failed to server-side apply Storage Secret: " e "")
        (on_world (r.platform.k8s.apply_secret (record desired { metadata = metadata })))
      >> mapping_error (λ e. wrap "failed to clean up stale Storage Secret: " e "")
          (delete_stale_secrets secret_role_storage metadata.name)

  abbrev pub reconcile_secret_of :
      Option StorageSpec → Option AkamaiResult → Exec (Session W) (Unit {0})
  reconcile_secret_of none akamai_creds s = delete_stale_secrets secret_role_storage "" s
  reconcile_secret_of (some storage) akamai_creds s =
      let desired = desired_storage s.app storage akamai_creds in
      (controlled r "failed to set controller reference for Storage Secret: " s.app desired.metadata
          >>= apply_storage_secret desired)
        s

  unfoldable pub reconcile_storage_secret : Option AkamaiResult → Exec (Session W) (Unit {0})
  reconcile_storage_secret akamai_creds s = reconcile_secret_of s.app.spec.storage akamai_creds s

abbrev uses_static : String → Option AwsStorageSpec → Bool
uses_static name none = Bool.false
uses_static name (some aws) = aws.credentials_secret_ref == name

-- the test in the loop of findApplicationsForSecret, for a Secret of this name
abbrev pub references : String → Application → StorageSpec → Bool
references name app storage =
    (storage.secret_name == name)
    || ((storage.provider == provider_akamai_object_storage) && (akamai_token_secret app == name)
        || (storage.provider == provider_aws_s3) && uses_static name storage.aws)

abbrev requested : String → Application → Option StorageSpec → List (String × String)
requested name app none = []
requested name app (some storage) =
    if references name app storage then (app.namespace, app.name) ∷ [] else []

abbrev join_requests : List (String × String) → List (String × String) → List (String × String)
join_requests [] rest = rest
join_requests (x ∷ xs) rest = x ∷ join_requests xs rest

-- the loop of findApplicationsForSecret: the namespace and the name of each request
unfoldable pub requests_for : String → List Application → List (String × String)
requests_for name [] = []
requests_for name (app ∷ apps) =
    join_requests (requested name app app.spec.storage) (requests_for name apps)
