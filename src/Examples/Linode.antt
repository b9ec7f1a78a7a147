-- ===== src/Examples/Linode.antt =====
-- The theorems on Akamai buckets (internal/controller/akamaiobjstr) on a bucket under several markers.
use forge_operator.Prelude.{
  String, false, true, Option, none, some, [], ◌∷◌, ◌≡◌, ◌⊎◌, ◌↔◌, refl, pure, Result, ok, err,
  is_ok, Error, new_error, wrap, concat, if◌then◌else◌, ◌==◌, arith, eq_iff, lookup,
}
use forge_operator.S3.Session.{Session, finished, more}
use forge_operator.Akamai.Session.{
  LinodeBucket, LinodeKey, OwnerMarker, AkamaiApi, ObjectApi, AkamaiEnv, AkamaiManager,
  AccessKeyResult,
}
use forge_operator.Akamai.Ownership.{
  akamai_not_owned, parse_owner_marker, claim_ownership, claim_marker,
}
use forge_operator.Akamai.Ownership.Policy.{
  Allows, WritesSucceed, marker_evidence, marker_reply, after_marker, claim_marker_refines,
}
use forge_operator.Akamai.Keys.{
  find_key, ensure_access_key, create_key, delete_application_access_key,
}
use forge_operator.Akamai.Cleanup.{confirm_ownership, confirm_from, delete_akamai_bucket}
use forge_operator.Akamai.Cleanup.Guard.{after_lookup, client_of, delete_refused}
use forge_operator.Examples.Samples.{cluster, sample_app, sample_storage}

-- The world is the body of the one bucket's marker object, if it has one.
abbrev pub Marked : Type 0
Marked = Option String

abbrev encode : OwnerMarker → Result String
encode o = ok (concat (o.uid ∷ "/" ∷ o.namespace ∷ "/" ∷ o.id ∷ []))

abbrev foreign_marker : String
foreign_marker = "uid-2/other/oid-2"

abbrev decode : String → Option OwnerMarker
decode body =
    if body == "uid-1/prod/oid-1"
    then some (record { uid = "uid-1"; namespace = "prod"; id = "oid-1" })
    else if body == foreign_marker
    then some (record { uid = "uid-2"; namespace = "other"; id = "oid-2" })
    else none

abbrev sample_bucket : LinodeBucket
sample_bucket = record { hostname = "shop-data.eu-1.linodeobjects.com" }

abbrev sample_key : LinodeKey
sample_key = record { id = 7; label = "unseen"; access_key = "ak"; secret_key = "sk" }

abbrev pub sample_akamai : {W : Type 0} → AkamaiApi W
sample_akamai = record {
  get_object_storage_bucket = λ region bucket. pure sample_bucket;
  create_object_storage_bucket = λ region bucket. pure sample_bucket;
  delete_object_storage_bucket = λ region bucket. pure tt;
  list_object_storage_keys = pure [];
  create_object_storage_key = λ label region bucket. pure sample_key;
  delete_object_storage_key = λ id. pure tt;
}

abbrev no_such_key : Error
no_such_key = record (new_error "no such key") { as_no_such_key = true }

abbrev pub body_of : Marked → Result (Result String)
body_of none = err no_such_key
body_of (some body) = ok (ok body)

abbrev pub sample_objects : ObjectApi Marked
sample_objects = record {
  get_object = λ bucket key w. (body_of w, w);
  put_object = λ bucket key body w. (ok tt, some body);
  list_objects = λ bucket. more (λ w. ok ("a" ∷ [])) (λ w. w) (λ w. finished);
  delete_objects = λ bucket ids. pure [];
}

abbrev pub linode_env : AkamaiEnv Marked
linode_env = record {
  k8s = cluster;
  akamai = sample_akamai;
  objects = λ connection. sample_objects;
  marshal = encode;
  unmarshal = decode;
  now = λ w. 5;
  sha256_hex = λ t. "0123456789abcdef";
}

abbrev pub linode_manager : AkamaiManager Marked
linode_manager = record {
  storage = sample_storage;
  bucket = "shop-data";
  region = "eu-west-1";
  record_created = none;
}

-- The sample Application before a bucket with this marker.
abbrev pub before_marker : Marked → Session Marked
before_marker w = record { app = sample_app; world = w; metrics = [] }

sample_writes : WritesSucceed linode_env linode_manager sample_objects
unfolding claim_ownership
sample_writes s = refl

claim_marker_refines_example :
    (is_ok
        (claim_marker linode_env linode_manager sample_objects
          (before_marker (some foreign_marker))).0
      ≡ true)
    ↔ Allows linode_env linode_manager sample_objects
        (marker_evidence linode_env (
          marker_reply linode_env linode_manager sample_objects
            (before_marker (some foreign_marker))))
        (after_marker linode_env linode_manager sample_objects
          (before_marker (some foreign_marker)))
claim_marker_refines_example =
    claim_marker_refines linode_env linode_manager sample_objects
      (before_marker (some foreign_marker)) sample_writes

marker_not_allowed : ¬ (
    Allows linode_env linode_manager sample_objects
      (marker_evidence linode_env (
        marker_reply linode_env linode_manager sample_objects
          (before_marker (some foreign_marker))))
      (after_marker linode_env linode_manager sample_objects (before_marker (some foreign_marker))))
unfolding parse_owner_marker lookup
marker_not_allowed = ground (arith, eq_iff "uid-2" "uid-1", eq_iff "oid-2" "oid-1")

abbrev fresh_key : AccessKeyResult
fresh_key = record { access_key = "ak"; secret_key = "sk" }

key_is_made :
    ensure_access_key linode_env linode_manager
      (after_lookup linode_env linode_manager (before_marker (some foreign_marker)))
    ≡ (ok fresh_key, before_marker (some foreign_marker))
unfolding ensure_access_key create_key find_key
key_is_made = refl

abbrev another_owner : Error
another_owner = wrap "" akamai_not_owned ": marker names a different Application"

marker_is_foreign :
    (confirm_ownership linode_env linode_manager
      (client_of linode_env linode_manager sample_bucket fresh_key)
      (before_marker (some foreign_marker))).0
    ≡ err another_owner
unfolding confirm_ownership confirm_from parse_owner_marker
marker_is_foreign = refl

delete_refused_example :
    (is_ok
        (delete_akamai_bucket linode_env linode_manager (before_marker (some foreign_marker))).0.1
      ≡ false)
    × (((delete_akamai_bucket linode_env linode_manager (before_marker (some foreign_marker))).1
          ≡ after_marker linode_env linode_manager
              (client_of linode_env linode_manager sample_bucket fresh_key)
              (before_marker (some foreign_marker)))
        ⊎ ((delete_akamai_bucket linode_env linode_manager (before_marker (some foreign_marker))).1
            ≡ (delete_application_access_key linode_env linode_manager (
                after_marker linode_env linode_manager
                  (client_of linode_env linode_manager sample_bucket fresh_key)
                  (before_marker (some foreign_marker)))).1))
delete_refused_example =
    delete_refused linode_env linode_manager (before_marker (some foreign_marker))
      (before_marker (some foreign_marker)) sample_bucket fresh_key another_owner
      (ground (arith, eq_iff "shop-data" "")) refl key_is_made marker_is_foreign
