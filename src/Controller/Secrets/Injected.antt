-- ===== src/Controller/Secrets/Injected.antt =====
-- The variables that internal/controller/deployment.go injects, and the Secret that
-- internal/controller/secret.go writes.
use forge_operator.Prelude.{
  String, Bool, true, false, ◌||◌, some, none, Option, [], ◌∷◌, ◌≡◌, ◌≢◌, refl, StringMap, insert,
  All, ◌==◌, arith, eq_iff, eq_refl, Option-cases, Bool-cases, inl, inr, trim_prefix,
}
use Prim.Native.String.{◌++◌}
use forge_operator.Api.{Application, StorageSpec, StorageStatus, EnvVar, SecretKeySelector}
use forge_operator.Cluster.{OwnedSecret}
use forge_operator.Akamai.Session.{AkamaiResult}
use forge_operator.Controller.Secrets.{desired_storage, put_credentials, put_role, storage_keys}
use forge_operator.Controller.Deployment.{injected, storage_credential_env_vars}

unfoldable pub has_entry : String → StringMap → Bool
has_entry k [] = false
has_entry k ((j, v) ∷ m) = (j == k) || has_entry k m

has_entry-insert :
    (m : StringMap) (k v j : String) → has_entry j (insert m k v) ≡ ((k == j) || has_entry j m)
unfolding has_entry insert
has_entry-insert [] k v j = refl
has_entry-insert ((i, w) ∷ m) k v j = ground (arith, eq_iff i k, has_entry-insert m k v j)

-- A key that is put stays.
has_entry-own : (m : StringMap) (k v : String) → has_entry k (insert m k v) ≡ true
has_entry-own m k v = ground (arith, has_entry-insert m k v k, eq_refl k)

has_entry-kept :
    (m : StringMap) (k v j : String) → has_entry j m ≡ true → has_entry j (insert m k v) ≡ true
has_entry-kept m k v j h = ground (arith, has_entry-insert m k v j)

has_entry-put_role :
    (st : Option StorageStatus) (m : StringMap) (j : String)
    → has_entry j m ≡ true
    → has_entry j (put_role st m) ≡ true
has_entry-put_role none m j h = h
has_entry-put_role (some st) m j h = elim (Option-cases st.aws) [
  | inl without ↦ rw without h
  | inr (aws, recorded) ↦ rw recorded (has_entry-kept m "role_arn" aws.role_arn j h)
]

first_keys :
    (storage : StorageSpec)
    → (has_entry "region" (storage_keys storage) ≡ true)
      × (has_entry "bucket" (storage_keys storage) ≡ true)
unfolding has_entry
first_keys storage = (refl, refl)

-- A key that is there before the credentials are put.
has_entry-put_credentials :
    (bucket : String) (creds : AkamaiResult) (m : StringMap) (j : String)
    → has_entry j m ≡ true
    → has_entry j (put_credentials bucket (some creds) m) ≡ true
has_entry-put_credentials bucket creds m j h =
    let a = insert m "access_key" creds.access_key in
    let url = "https://" ++ trim_prefix creds.endpoint (bucket ++ ".") in
    let in_a = has_entry-kept m "access_key" creds.access_key j h in
    elim (Bool-cases (creds.secret_key == "")) [
      | inl empty ↦ rw empty (
          has_entry-kept (insert a "endpoint" creds.endpoint) "endpoint_url" url j
            (has_entry-kept a "endpoint" creds.endpoint j in_a))
      | inr given ↦
          let k = insert a "secret_key" creds.secret_key in
          rw given (
            has_entry-kept (insert k "endpoint" creds.endpoint) "endpoint_url" url j (
              has_entry-kept k "endpoint" creds.endpoint j
                (has_entry-kept a "secret_key" creds.secret_key j in_a)))
    ]

-- The variable reads an entry of this Secret.
abbrev pub ReadsFrom : OwnedSecret → EnvVar → Type 0
ReadsFrom secret v =
    (ref : SecretKeySelector) × (v.secret_key_ref ≡ some ref)
    × (ref.name ≡ secret.metadata.name)
    × (has_entry ref.key secret.string_data ≡ true)

-- Where Akamai gave a secret key, every variable that is injected into the container reads a key
-- that the storage Secret has, from that Secret.
pub storage_credential_env_vars-ReadsFrom :
    (app : Application) (storage : StorageSpec) (creds : AkamaiResult)
    → creds.secret_key ≢ ""
    → All (ReadsFrom (desired_storage app storage (some creds))) (storage_credential_env_vars app)
unfolding storage_credential_env_vars desired_storage
storage_credential_env_vars-ReadsFrom app storage creds given =
    elim (Bool-cases (injected app.spec.storage)) [
      | inr without ↦ rw without tt
      | inl with_them ↦
          let nonempty : (creds.secret_key == "") ≡ false =
            ground (arith, eq_iff creds.secret_key "") in
          let m = put_role app.status.storage (storage_keys storage) in
          let a = insert m "access_key" creds.access_key in
          let k = insert a "secret_key" creds.secret_key in
          let e = insert k "endpoint" creds.endpoint in
          let url = "https://" ++ trim_prefix creds.endpoint (storage.bucket ++ ".") in
          let before : (j : String)
              → has_entry j k ≡ true
              → has_entry j (insert e "endpoint_url" url) ≡ true =
            λ j h.
              has_entry-kept e "endpoint_url" url j
                (has_entry-kept k "endpoint" creds.endpoint j h) in
          let access = has_entry-own m "access_key" creds.access_key in
          let kept : (j : String)
              → has_entry j (storage_keys storage) ≡ true
              → has_entry j (put_credentials storage.bucket (some creds) m) ≡ true =
            λ j h.
              has_entry-put_credentials storage.bucket creds m j
                (has_entry-put_role app.status.storage (storage_keys storage) j h) in
          let region = kept "region" (first_keys storage).0 in
          let bucket = kept "bucket" (first_keys storage).1 in
          let access_kept = has_entry-kept a "secret_key" creds.secret_key "access_key" access in
          let secret_own = has_entry-own a "secret_key" creds.secret_key in
          rw with_them (
            (_, refl, refl, rw nonempty (before "access_key" access_kept)),
            (
              (_, refl, refl, rw nonempty (before "secret_key" secret_own)),
              (
                (_, refl, refl, rw nonempty (has_entry-own e "endpoint_url" url)),
                ((_, refl, refl, region), ((_, refl, refl, bucket), tt)),
              ),
            ),
          )
    ]
