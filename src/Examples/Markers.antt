-- ===== src/Examples/Markers.antt =====
-- Two runs at one Akamai bucket: another Application asks for it, then deletes what it takes for its own.
use forge_operator.Prelude.{
  String, none, some, true, [], ◌∷◌, pure, is_ok, lookup, ◌≡◌, refl, ok, err, Error, arith,
}
use forge_operator.Policy.Markers.{MarkerStore, of_bucket}
use forge_operator.Policy.MarkerRuns.{HeldBy}
use forge_operator.Policy.MarkerVisits.{
  MarkerVisits, start, later, another_reconciles, another_deletes, MarkerVisits-HeldBy,
}
use forge_operator.S3.Session.{Session}
use forge_operator.Akamai.Ownership.{parse_owner_marker, claim_marker, claim_found, claim_marked}
use forge_operator.Akamai.Bucket.{
  reconcile_akamai_bucket, validate_storage_spec, ensure_linode_bucket,
}
use forge_operator.Akamai.Keys.{ensure_access_key, find_key, create_key}
use forge_operator.Naming.Names.{akamai_token_secret}
use forge_operator.Akamai.Cleanup.{delete_akamai_bucket}
use forge_operator.Cluster.{Secret}
use forge_operator.Status.Manager.Retrying.{Retried}
use forge_operator.Akamai.Connect.{new_akamai_manager}
use forge_operator.Controller.Session.{Reconciler, retry_status_update, status_once}
use forge_operator.Controller.Keeping.{RetriesStatus}
use forge_operator.Controller.Storage.Linode.{reconcile_akamai_storage, recover_result}
use forge_operator.Controller.Storage.Kept.{IsKept, reconcile_akamai_storage-IsKept}
use forge_operator.Examples.Samples.{Tagged, cluster, facing, sample_storage}
use forge_operator.Examples.Reconcilers.{
  sample_reconciler, sample_platform, sample_linode, no_objects,
}
use forge_operator.Examples.Linode.{sample_akamai, Marked, body_of, linode_env, linode_manager}
use forge_operator.Examples.Policies.{claimant, claimant-IsAnother, owner-Lives}

abbrev stored_marker : Marked → Marked
stored_marker w = w

abbrev owned_marker : Marked
owned_marker = some "uid-1/prod/oid-1"

abbrev asking : Marked → Session Marked
asking w = record { app = claimant; world = w; metrics = [] }

abbrev reconciled : Marked
reconciled =
    (reconcile_akamai_bucket linode_env
      (of_bucket linode_env "eu-west-1" "shop-data" stored_marker linode_manager)
      (asking owned_marker)).1.world

abbrev deleted : Marked
deleted =
    (delete_akamai_bucket linode_env
      (of_bucket linode_env "eu-west-1" "shop-data" stored_marker linode_manager)
      (asking reconciled)).1.world

two_runs :
    MarkerVisits linode_env "eu-west-1" "shop-data" stored_marker "uid-1" "prod" "oid-1"
      owned_marker deleted
two_runs =
    later
      (later start
        (another_reconciles linode_manager (asking owned_marker) refl claimant-IsAnother))
      (another_deletes linode_manager (asking reconciled) refl claimant-IsAnother)

read_stored : (w : Marked) (body : String) → (body_of w ≡ ok (ok body)) → w ≡ some body
read_stored none body h = absurd (ground arith)
read_stored (some text) body h = ground arith

read_missing : (w : Marked) (e : Error) → body_of w ≡ err e → w ≡ none
read_missing none e h = refl
read_missing (some text) e h = absurd (ground arith)

sample-MarkerStore : MarkerStore linode_env "eu-west-1" "shop-data" stored_marker
sample-MarkerStore = record {
  get_bucket = λ w. refl;
  get_marker = λ c w. refl;
  reading = record { list = λ w. refl; get_namespace = λ name w. refl };
  deleting = record { list = λ w. refl; delete = λ id w. refl };
  making = record { create = λ label region bucket w. refl; get_secret = λ ns name w. refl };
  read_body = λ c w body genuine h. read_stored w body h;
  read_none = λ c w e genuine h missing. read_missing w e h;
}

owned-HeldBy :
    HeldBy linode_env "eu-west-1" "shop-data" stored_marker "uid-1" "prod" "oid-1" owned_marker
unfolding parse_owner_marker
owned-HeldBy = (refl, refl, owner-Lives owned_marker)

MarkerVisits-HeldBy_example :
    (stored_marker deleted ≡ stored_marker owned_marker)
    × HeldBy linode_env "eu-west-1" "shop-data" stored_marker "uid-1" "prod" "oid-1" deleted
MarkerVisits-HeldBy_example =
    MarkerVisits-HeldBy linode_env "eu-west-1" "shop-data" stored_marker "uid-1" "prod" "oid-1"
      sample-MarkerStore owned-HeldBy two_runs

-- It stands for the token Secret and for the storage Secret.
abbrev both_secrets : Secret
both_secrets = record {
  entries = ("apiToken", "t") ∷ ("secret_key", "sk-kept") ∷ [];
  keys = "apiToken" ∷ "secret_key" ∷ [];
}

-- The Secrets are there, every bucket has the sample Application's marker, and Linode gives no secret
-- key with an access key that it makes.
abbrev linode_reconciler : Reconciler Tagged
linode_reconciler = record sample_reconciler {
  platform = record sample_platform {
    k8s = record cluster { get_secret = λ ns name. pure both_secrets };
  };
  akamai = record sample_linode {
    new_client = λ token. record sample_akamai {
      create_object_storage_key = λ label region bucket.
          pure (record { id = 7; label = "unseen"; access_key = "ak"; secret_key = "" });
    };
    objects = λ c. record no_objects { get_object = λ bucket key. pure (ok "marker") };
    unmarshal = λ body. some (record { uid = "uid-1"; namespace = "prod"; id = "oid-1" });
  };
}

linode_retries : RetriesStatus linode_reconciler
linode_retries f s = Retried.last refl

linode_reconciles :
    is_ok (reconcile_akamai_storage linode_reconciler sample_storage (facing none)).0 ≡ true
unfolding reconcile_akamai_storage new_akamai_manager akamai_token_secret reconcile_akamai_bucket
    validate_storage_spec ensure_linode_bucket ensure_access_key find_key create_key claim_marker
    claim_found parse_owner_marker claim_marked recover_result retry_status_update status_once
    lookup
linode_reconciles = refl

key_is_recovered :
    (reconcile_akamai_storage linode_reconciler sample_storage (facing none)).0
    ≡ ok (record {
      access_key = "ak";
      secret_key = "sk-kept";
      endpoint = "shop-data.eu-1.linodeobjects.com";
    })
unfolding reconcile_akamai_storage new_akamai_manager akamai_token_secret reconcile_akamai_bucket
    validate_storage_spec ensure_linode_bucket ensure_access_key find_key create_key claim_marker
    claim_found parse_owner_marker claim_marked recover_result retry_status_update status_once
    lookup
key_is_recovered = refl

reconcile_akamai_storage-IsKept_example :
    IsKept linode_reconciler sample_storage
      (facing none)
      (reconcile_akamai_storage linode_reconciler sample_storage (facing none)).0
      (reconcile_akamai_storage linode_reconciler sample_storage (facing none)).1
reconcile_akamai_storage-IsKept_example =
    reconcile_akamai_storage-IsKept linode_reconciler sample_storage (facing none) linode_retries
      linode_reconciles
