-- ===== src/Webhook/Collision.antt =====
-- When the validating webhook (internal/webhook/v1alpha1/application_webhook.go) rejects an
-- Application, and that the state of the cluster never makes it reject one.
use forge_operator.Prelude.{
  String, true, ◌≡◌, ◌≢◌, refl, ◌↔◌, ◌⊎◌, none, some, Option, [], arith, eq_iff, ok, is_ok,
}
use forge_operator.Api.{
  Application, StorageSpec, AwsStorageSpec, Time, provider_aws_s3, provider_akamai_object_storage,
}
use forge_operator.Cluster.{Client}
use forge_operator.Naming.Names.{storage_secret, akamai_token_secret, app_config_map}
use forge_operator.Webhook.{
  validate_akamai, check_aws, validate_aws, validate_storage, validate, validate_update,
  validate_config_not_orphaned,
}
use forge_operator.Webhook.Identity.{KeepsSetIdentity, immutable-ok_iff}

-- The credentials Secret that the AWS part names, if there is one.
abbrev pub aws_ref : Option AwsStorageSpec → String
aws_ref none = ""
aws_ref (some aws) = aws.credentials_secret_ref

-- The Secret that the operator writes is the Secret that the user supplies.
abbrev pub Collides : Application → Option StorageSpec → Type 0
Collides a none = ⊥
Collides a (some s) =
    ((s.provider ≡ provider_akamai_object_storage) × (storage_secret a ≡ akamai_token_secret a))
    ⊎ ((s.provider ≡ provider_aws_s3) × (aws_ref s.aws ≢ "") × (storage_secret a ≡ aws_ref s.aws))

-- Removing spec.config would delete the ConfigMap that the container still mounts by name.
abbrev pub Orphans : Application → Application → Type 0
Orphans old new =
    (old.spec.config_map ≢ none)
    × (new.spec.config_map ≡ none)
    × (new.spec.container.config_map_name ≡ app_config_map old)

orphaned-ok_iff :
    (old new : Application) → (validate_config_not_orphaned old new ≡ ok tt) ↔ (¬ (Orphans old new))
unfolding validate_config_not_orphaned
orphaned-ok_iff old new =
    ground (arith, eq_iff new.spec.container.config_map_name (app_config_map old))

module _ {W : Type 0} (c : Client W) (a : Application) (w : W) where
  akamai_admits_iff :
      (is_ok (validate_akamai c a w).0 ≡ true) ↔ (storage_secret a ≢ akamai_token_secret a)
  unfolding validate_akamai
  akamai_admits_iff = ground (arith, eq_iff (storage_secret a) (akamai_token_secret a))

  check_aws_admits_iff :
      (name : String)
      → (is_ok (check_aws c a name w).0 ≡ true) ↔ (¬ ((name ≢ "") × (storage_secret a ≡ name)))
  unfolding check_aws
  check_aws_admits_iff name = ground (arith, eq_iff name "", eq_iff (storage_secret a) name)

  aws_admits_iff :
      (o : Option AwsStorageSpec)
      → (is_ok (validate_aws c a o w).0 ≡ true)
        ↔ (¬ ((aws_ref o ≢ "") × (storage_secret a ≡ aws_ref o)))
  unfolding validate_aws
  aws_admits_iff none = (λ _ p. p.0 refl, λ _. refl)
  aws_admits_iff (some aws) = check_aws_admits_iff aws.credentials_secret_ref

  storage_admits_iff :
      (o : Option StorageSpec) → (is_ok (validate_storage c a o w).0 ≡ true) ↔ (¬ (Collides a o))
  unfolding validate_storage
  storage_admits_iff none = (λ _ p. p, λ _. refl)
  storage_admits_iff (some s) = ground (
    arith,
    akamai_admits_iff,
    aws_admits_iff s.aws,
    eq_iff s.provider provider_akamai_object_storage,
    eq_iff s.provider provider_aws_s3,
    eq_iff provider_akamai_object_storage provider_aws_s3,
  )

  -- An Application is rejected exactly if the Secret that the operator writes for it is the token
  -- Secret (Akamai) or the credentials Secret that it sets (AWS), whatever the cluster answers
  -- about those Secrets.
  pub validate_admits_iff : (is_ok (validate c a w).0 ≡ true) ↔ (¬ (Collides a a.spec.storage))
  unfolding validate
  validate_admits_iff = storage_admits_iff a.spec.storage

-- Unless it is being deleted, an update is admitted exactly if, where both versions have storage, none
-- of its provider, bucket and region changes from one set value to another set value (setting one that
-- was empty, emptying one, and adding or removing the storage are admitted), the update does not remove
-- a ConfigMap that the container still mounts, and the new version's Secrets do not collide.
pub update_admits_iff :
    {W : Type 0} (c : Client W) (old new : Application) (w : W)
    → new.deletion_timestamp ≡ none
    → (is_ok (validate_update c old new w).0 ≡ true) ↔ (
        KeepsSetIdentity old.spec.storage new.spec.storage
        × (¬ (Orphans old new))
        × (¬ (Collides new new.spec.storage)))
unfolding validate_update
update_admits_iff c old new w live =
    ground (arith, immutable-ok_iff old new, orphaned-ok_iff old new, validate_admits_iff c new w)

-- An Application that is being deleted is updated without a check, a call or a warning.
pub update_deleting :
    {W : Type 0} (c : Client W) (old new : Application) (w : W) (t : Time)
    → new.deletion_timestamp ≡ some t
    → validate_update c old new w ≡ (ok [], w)
unfolding validate_update
update_deleting c old new w t e = ground arith
