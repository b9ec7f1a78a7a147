-- ===== src/Webhook.antt =====
-- internal/webhook/v1alpha1/application_webhook.go: the defaulting and the validating webhook.
-- Logging is left out. Children: Defaulting, Identity and Collision hold the proofs.
pub mod Defaulting
pub mod Identity
pub mod Collision
use forge_operator.Prelude.{
  String, Bool, true, false, not, ◌&&◌, Option, none, some, List, [], ◌∷◌, ◌++◌, Exec, pure, fail,
  try, ◌>>=◌, ◌>>◌, ok, err, Result, Error, new_error, ◌==◌, if◌then◌else◌, concat, quote, join,
  lookup, is_some,
}
use forge_operator.Api.{
  Application, StorageSpec, AkamaiStorageSpec, AwsStorageSpec, ConfigSpec, provider_aws_s3,
  provider_akamai_object_storage,
}
use forge_operator.Cluster.{Client, Secret}
use forge_operator.Naming.Names.{or_default, storage_secret, akamai_token_secret, app_config_map}

-- obj.Spec.Storage = s
abbrev pub with_storage : Application → StorageSpec → Application
with_storage obj s = record obj { spec = record (obj.spec) { storage = some s } }

abbrev empty_akamai : AkamaiStorageSpec
empty_akamai = record { access_key_secret_ref = ""; endpoint = ""; inject_credentials = false }

abbrev pub akamai_or_empty : Option AkamaiStorageSpec → AkamaiStorageSpec
akamai_or_empty none = empty_akamai
akamai_or_empty (some k) = k

-- The part of Default below the test for Akamai: `k` is obj.Spec.Storage.Akamai, made if it is nil.
abbrev with_token : AkamaiStorageSpec → String → AkamaiStorageSpec
with_token k token = record k { access_key_secret_ref = or_default k.access_key_secret_ref token }

abbrev with_secret_name : StorageSpec → String → StorageSpec
with_secret_name s name = record s { secret_name = or_default s.secret_name name }

default_storage : Application → StorageSpec → Application
default_storage obj s =
    let named = with_secret_name s (storage_secret obj) in
    let obj' = with_storage obj named in
    if not (s.provider == provider_akamai_object_storage)
    then obj'
    else with_storage obj' (record named {
      akamai = some (with_token (akamai_or_empty s.akamai) (akamai_token_secret obj'));
    })

default_from : Application → Option StorageSpec → Application
default_from obj none = obj
default_from obj (some s) = default_storage obj s

-- ApplicationCustomDefaulter.Default, which never fails
unfoldable pub default : Application → Application
unfolding default_storage default_from
default obj = default_from obj obj.spec.storage

-- Both are set, and they differ.
abbrev pub is_changed : String → String → Bool
is_changed old new = not (old == "") && (not (new == "") && not (old == new))

identity_error : String → String → String → String → Error
identity_error field old new why = new_error (
    concat (
      field
      ∷ " is immutable once set (was "
      ∷ quote old
      ∷ ", tried to change to "
      ∷ quote new
      ∷ "): "
      ∷ why
      ∷ []))

identity_check : Option StorageSpec → Option StorageSpec → Result (Unit {0})
unfolding identity_error
identity_check (some old) (some new) =
    if is_changed old.provider new.provider
    then err (
        identity_error "spec.storage.provider" old.provider new.provider
          "changing providers would silently orphan the old provider's bucket and credentials, since nothing cleans those up on a spec change -- delete and recreate the Application instead, which correctly cleans up the old provider's resources via its finalizer")
    else if is_changed old.bucket new.bucket
    then err (
        identity_error "spec.storage.bucket" old.bucket new.bucket
          "a bucket name is the identity of a real cloud resource, not just a label -- renaming it here would abandon the old bucket permanently (nothing cleans it up on a spec change) while claiming a new one under the new name -- delete and recreate the Application instead, which correctly cleans up the old bucket via its finalizer")
    else if is_changed old.region new.region
    then err (
        identity_error "spec.storage.region" old.region new.region
          "a bucket cannot be moved between regions in place -- this would silently start treating an entirely different (and likely nonexistent) bucket as this Application's storage -- delete and recreate the Application instead")
    else ok tt
identity_check _ _ = ok tt

unfoldable pub validate_storage_identity_immutable : Application → Application → Result (Unit {0})
unfolding identity_check
validate_storage_identity_immutable old new = identity_check old.spec.storage new.spec.storage

unfoldable pub validate_config_not_orphaned : Application → Application → Result (Unit {0})
validate_config_not_orphaned old new =
    if is_some old.spec.config_map
      && not (is_some new.spec.config_map)
      && (new.spec.container.config_map_name == app_config_map old)
    then err (
        new_error (
          concat (
            "spec.config cannot be removed while spec.container.configMapName still references "
            ∷ quote (app_config_map old)
            ∷ ": that ConfigMap would be deleted while the pod spec still mounts it by name, breaking the Deployment on its next pod restart -- clear or repoint spec.container.configMapName first"
            ∷ [])))
    else ok tt

abbrev pub Warnings : Type 0
Warnings = List String

-- The three warnings of a Secret that cannot be used.
abbrev warn : List String → Warnings
warn pieces = concat pieces ∷ []

collision_error : String → String → String → String → Error
collision_error output field input what = new_error (
    concat (
      "spec.storage.secretName ("
      ∷ quote output
      ∷ ") must not be the same Secret as "
      ∷ field
      ∷ " ("
      ∷ quote input
      ∷ "): the operator owns and overwrites the former (including deleting it when the Application is deleted), which would corrupt or destroy your "
      ∷ what
      ∷ []))

abbrev missing_key : Secret → String → List String
missing_key secret key = if lookup secret.entries key == "" then key ∷ [] else []

module _ {W : Type 0} (c : Client W) where
  -- the switch over the error of the Get and the contents of the Secret
  abbrev akamai_warnings : Application → String → Result Secret → Warnings
  akamai_warnings app token (err e) =
      if e.is_not_found
      then warn (
          "spec.storage.akamai.accessKeySecretRef Secret "
          ∷ quote token
          ∷ " not found in namespace "
          ∷ quote app.namespace
          ∷ [])
      else warn ("could not verify Akamai credentials Secret " ∷ quote token ∷ ": " ∷ e.text ∷ [])
  akamai_warnings app token (ok secret) =
      if lookup secret.entries "apiToken" == ""
      then warn (
          "secret "
          ∷ quote token
          ∷ " (spec.storage.akamai.accessKeySecretRef) is missing required key "
          ∷ quote "apiToken"
          ∷ [])
      else []

  unfoldable pub validate_akamai : Application → Exec W Warnings
  unfolding collision_error
  validate_akamai app =
      if storage_secret app == akamai_token_secret app
      then fail (
          collision_error (storage_secret app) "spec.storage.akamai.accessKeySecretRef"
            (akamai_token_secret app) "Akamai API token Secret")
      else do
        r ← try (c.get_secret app.namespace (akamai_token_secret app))
        pure (akamai_warnings app (akamai_token_secret app) r)

  abbrev aws_key_warnings : String → List String → Warnings
  aws_key_warnings name [] = []
  aws_key_warnings name (k ∷ ks) = warn (
      "secret "
      ∷ quote name
      ∷ " (spec.storage.aws.credentialsSecretRef) is missing required key(s): "
      ∷ join ", " (k ∷ ks)
      ∷ [])

  abbrev aws_warnings : Application → String → Result Secret → Warnings
  aws_warnings app name (err e) =
      if e.is_not_found
      then warn (
          "spec.storage.aws.credentialsSecretRef Secret "
          ∷ quote name
          ∷ " not found in namespace "
          ∷ quote app.namespace
          ∷ [])
      else warn ("could not verify AWS credentials Secret " ∷ quote name ∷ ": " ∷ e.text ∷ [])
  aws_warnings app name (ok secret) =
      aws_key_warnings name
        (missing_key secret "AWS_ACCESS_KEY_ID" ++ missing_key secret "AWS_SECRET_ACCESS_KEY")

  check_aws : Application → String → Exec W Warnings
  unfolding collision_error
  check_aws app name =
      if name == ""
      then pure []
      else if storage_secret app == name
      then fail (
          collision_error (storage_secret app) "spec.storage.aws.credentialsSecretRef" name
            "AWS credentials Secret")
      else do r ← try (c.get_secret app.namespace name); pure (aws_warnings app name r)

  unfoldable pub validate_aws : Application → Option AwsStorageSpec → Exec W Warnings
  unfolding check_aws
  validate_aws app none = pure []
  validate_aws app (some aws) = check_aws app aws.credentials_secret_ref

  validate_storage : Application → Option StorageSpec → Exec W Warnings
  validate_storage app none = pure []
  validate_storage app (some s) =
      if s.provider == provider_akamai_object_storage
      then validate_akamai app
      else if s.provider == provider_aws_s3
      then validate_aws app s.aws
      else pure []

  unfoldable pub validate : Application → Exec W Warnings
  unfolding validate_storage
  validate app = validate_storage app app.spec.storage

  unfoldable pub validate_create : Application → Exec W Warnings
  validate_create obj = validate obj

  abbrev checked : Result (Unit {0}) → Exec W (Unit {0})
  checked r w = (r, w)

  unfoldable pub validate_update : Application → Application → Exec W Warnings
  validate_update old new = if is_some new.deletion_timestamp then pure [] else do
    checked (validate_storage_identity_immutable old new)
    checked (validate_config_not_orphaned old new)
    validate new

  unfoldable pub validate_delete : Application → Exec W Warnings
  validate_delete obj = pure []
