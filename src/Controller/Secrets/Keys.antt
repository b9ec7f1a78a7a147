-- ===== src/Controller/Secrets/Keys.antt =====
-- The Secret of Akamai storage, which internal/controller/secret.go writes and
-- internal/controller/akamaiobjstr reads the secret key from again.
use Prim.Native.String.{◌++◌}
use forge_operator.Prelude.{
  false, ◌==◌, trim_prefix, some, ◌≡◌, ◌≢◌, refl, arith, eq_iff, lookup-insert, insert, ok,
}
use forge_operator.Api.{StorageSpec}
use forge_operator.Cluster.{Secret}
use forge_operator.S3.Session.{Session}
use forge_operator.Akamai.Session.{AkamaiEnv, AkamaiManager, AkamaiResult}
use forge_operator.Akamai.Keys.{recover_secret_key}
use forge_operator.Controller.Secrets.{desired_storage, put_role, storage_keys}

-- If the storage Secret reads as reconcileStorageSecret wrote it, with a secret key, then
-- recoverSecretKey gives this key.
pub recover-desired_storage :
    {W : Type 0} (env : AkamaiEnv W) (m : AkamaiManager W) (s : Session W) (storage : StorageSpec)
    (creds : AkamaiResult) (secret : Secret)
    → creds.secret_key ≢ ""
    → (env.k8s.get_secret s.app.namespace
        (desired_storage s.app storage (some creds)).metadata.name
        s.world).0
      ≡ ok secret
    → secret.entries ≡ (desired_storage s.app storage (some creds)).string_data
    → (recover_secret_key env m s).0 ≡ ok creds.secret_key
unfolding desired_storage recover_secret_key
recover-desired_storage env m s storage creds secret h found same =
    let base =
      insert (put_role s.app.status.storage (storage_keys storage)) "access_key" creds.access_key in
    let nonempty : (creds.secret_key == "") ≡ false = ground (arith, eq_iff creds.secret_key "") in
    let keyed = insert base "secret_key" creds.secret_key in
    let placed = insert keyed "endpoint" creds.endpoint in
    rw
      (
        found,
        same,
        nonempty,
        lookup-insert placed "endpoint_url" "secret_key"
            ("https://" ++ trim_prefix creds.endpoint (storage.bucket ++ ".")),
        lookup-insert keyed "endpoint" "secret_key" creds.endpoint,
        lookup-insert base "secret_key" "secret_key" creds.secret_key,
      )
      refl
