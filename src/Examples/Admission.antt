-- ===== src/Examples/Admission.antt =====
-- The theorems on the webhook (internal/webhook/v1alpha1) on the sample Application.
use forge_operator.Prelude.{true, none, some, [], ◌≡◌, ◌↔◌, refl, ok, is_ok, arith, eq_iff}
use forge_operator.Api.{Application, provider_aws_s3}
use forge_operator.Naming.Names.{storage_secret}
use forge_operator.Webhook.{
  validate, validate_update, validate_storage_identity_immutable, validate_config_not_orphaned,
  validate_aws,
}
use forge_operator.Webhook.Identity.{
  KeepsSetIdentity, SameTarget, HasIdentity, Updates, Updates-SameTarget,
}
use forge_operator.Webhook.Collision.{Collides, Orphans, update_admits_iff}
use forge_operator.Examples.Samples.{sample_app, sample_metadata, sample_storage, sample_client}

abbrev leaving_app : Application
leaving_app = record sample_app {
  metadata = record sample_metadata { deletion_timestamp = some 9 };
}

update_admits_iff_example :
    (is_ok (validate_update sample_client sample_app sample_app none).0 ≡ true) ↔ (
      KeepsSetIdentity (some sample_storage) (some sample_storage)
      × (¬ (Orphans sample_app sample_app))
      × (¬ (Collides sample_app (some sample_storage))))
update_admits_iff_example = update_admits_iff sample_client sample_app sample_app none refl

sample-HasIdentity : HasIdentity sample_app sample_storage
sample-HasIdentity = record {
  storage = refl;
  provider_set = ground (arith, eq_iff provider_aws_s3 "");
  bucket_set = ground (arith, eq_iff "shop-data" "");
  region_set = ground (arith, eq_iff "eu-west-1" "");
}

sample_admitted : (validate_update sample_client sample_app sample_app none).0 ≡ ok []
unfolding validate_update validate storage_secret validate_storage_identity_immutable
    validate_config_not_orphaned validate_aws
sample_admitted = refl

Updates-SameTarget_example : SameTarget sample_storage sample_storage
Updates-SameTarget_example =
    Updates-SameTarget sample_client sample_storage sample_storage sample-HasIdentity
      sample-HasIdentity
      (Updates.next sample_storage none [] Updates.here refl sample_admitted sample-HasIdentity)
