-- ===== src/Examples/Sharers.antt =====
-- Three runs at one bucket: another Application asks for it, then cleans up, then the owner reconciles.
use forge_operator.Prelude.{[], some, refl, ok, lookup, ◌≡◌}
use forge_operator.Policy.Sharing.{of_bucket, Sharing}
use forge_operator.Policy.Runs.{HeldBy}
use forge_operator.Policy.Visits.{
  TagsAs, Visits, start, later, another_reconciles, another_cleans_up, owner_reconciles,
  Visits-HeldBy, owner_returns,
}
use forge_operator.S3.Session.{Session}
use forge_operator.S3.Ownership.{ownership_id, own_tags, claim_or_verify_ownership}
use forge_operator.S3.Ownership.Tags.{last_value}
use forge_operator.S3.Ownership.Claim.{after_reply}
use forge_operator.S3.Bucket.{reconcile_bucket}
use forge_operator.S3.Cleanup.{cleanup_bucket}
use forge_operator.Examples.Samples.{Tagged, facing, sample_env, sample_manager, sample_app}
use forge_operator.Examples.Policies.{claimant, claimant-IsAnother, owner-Lives}
use forge_operator.Examples.Buckets.{sample_store}

abbrev owned_world : Tagged
owned_world = some (own_tags sample_app)

abbrev asking : Tagged → Session Tagged
asking w = record { app = claimant; world = w; metrics = [] }

abbrev first_run : Tagged
first_run =
    (reconcile_bucket sample_env (of_bucket sample_env "shop-data" sample_manager)
      (asking owned_world)).1.world

abbrev second_run : Tagged
second_run =
    (cleanup_bucket sample_env (of_bucket sample_env "shop-data" sample_manager)
      (asking first_run)).1.world

abbrev third_run : Tagged
third_run =
    (reconcile_bucket sample_env (of_bucket sample_env "shop-data" sample_manager)
      (facing second_run)).1.world

own_id : ownership_id sample_app ≡ "oid-1"
unfolding lookup
own_id = refl

three_runs : Visits sample_env "shop-data" "uid-1" "prod" "oid-1" owned_world third_run
three_runs =
    later
      (later
        (later start
          (another_reconciles sample_manager (asking owned_world) refl claimant-IsAnother))
        (another_cleans_up sample_manager (asking first_run) refl claimant-IsAnother))
      (owner_reconciles sample_manager (facing second_run) refl (refl, refl, own_id))

sample-Sharing : Sharing sample_env "shop-data"
sample-Sharing = record {
  head_bucket = λ w. refl;
  get_tags = λ w. refl;
  reading = record { list = λ w. refl; get_namespace = λ name w. refl };
  put_versioning = λ status w. refl;
  put_lifecycle = λ rules w. refl;
  delete_lifecycle = λ w. refl;
  making = record {
    get_role = λ role w. refl;
    create_role = λ role trust boundary w. refl;
    update_assume_role_policy = λ role policy w. refl;
    put_role_policy = λ role name policy w. refl;
  };
  deleting = record { delete_role_policy = λ role name w. refl; delete_role = λ role w. refl };
}

owned-HeldBy : HeldBy sample_env "shop-data" "uid-1" "prod" "oid-1" owned_world
unfolding last_value lookup
owned-HeldBy = (refl, refl, owner-Lives owned_world)

Visits-HeldBy_example :
    TagsAs sample_env "shop-data" "uid-1" "prod" "oid-1" third_run owned_world
    × HeldBy sample_env "shop-data" "uid-1" "prod" "oid-1" third_run
Visits-HeldBy_example =
    Visits-HeldBy sample_env "shop-data" "uid-1" "prod" "oid-1" sample_store sample-Sharing
      owned-HeldBy three_runs

owner_returns_example :
    claim_or_verify_ownership sample_env
      (of_bucket sample_env "shop-data" sample_manager)
      (facing third_run)
    ≡ (
      ok tt,
      after_reply sample_env (of_bucket sample_env "shop-data" sample_manager) (facing third_run),
    )
owner_returns_example =
    owner_returns sample_env "shop-data" "uid-1" "prod" "oid-1" sample_store sample-Sharing
      sample_manager owned-HeldBy three_runs (facing third_run) refl (refl, refl, own_id)
