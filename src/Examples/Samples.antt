-- ===== src/Examples/Samples.antt =====
-- An Application with S3 storage, its cluster and its tag store: concrete values of the parameters
-- of the model.
use forge_operator.Prelude.{
  String, Bool, true, false, not, ◌&&◌, Option, none, some, List, [], ◌∷◌, Exec, pure, fail, Result,
  ok, err, Error, new_error, if◌then◌else◌, ◌==◌,
}
use forge_operator.Api.{
  Application, ApplicationSpec, ObjectMeta, StorageSpec, ContainerSpec, provider_aws_s3,
  deletion_policy_delete,
}
use forge_operator.Cluster.{Client, DeploymentState}
use forge_operator.Naming.Names.{storage_ownership_id_annotation}
use forge_operator.S3.Session.{Tag, finished, more, S3Api, IamApi, Env, Session, Manager}
use forge_operator.S3.Ownership.{owner_tag_key, no_such_tag_set_error_code}

abbrev pub sample_storage : StorageSpec
sample_storage = record {
  provider = provider_aws_s3;
  bucket = "shop-data";
  deletion_policy = deletion_policy_delete;
  region = "eu-west-1";
  endpoint = "";
  secret_name = "";
  aws = none;
  akamai = none;
}

abbrev pub sample_metadata : ObjectMeta
sample_metadata = record {
  name = "shop";
  namespace = "prod";
  uid = "uid-1";
  generation = 2;
  resource_version = "7";
  deletion_timestamp = none;
  finalizers = [];
  annotations = (storage_ownership_id_annotation, "oid-1") ∷ [];
}

abbrev pub sample_container : ContainerSpec
sample_container = record {
  port = 8080;
  config_map_name = "";
  secret_name = "";
  config_mount_path = "";
  secret_mount_path = "";
  security_context = none;
  liveness_probe = none;
  readiness_probe = none;
  startup_probe = none;
}

abbrev pub sample_spec : ApplicationSpec
sample_spec = record {
  image = "shop:1";
  replicas = some 2;
  container = sample_container;
  config_map = none;
  service = record { type = "ClusterIP"; port = 80; target_port = none };
  ingress = none;
  autoscaling = none;
  pdb = none;
  storage = some sample_storage;
  service_account = none;
  env = [];
  resources = record { requests = []; limits = [] };
  pod_security_context = none;
}

abbrev pub sample_app : Application
sample_app = record {
  metadata = sample_metadata;
  spec = sample_spec;
  status = record { conditions = []; observed_generation = 0; storage = none };
}

abbrev pub absent : Error
absent = record (new_error "not found") { is_not_found = true }

abbrev pub rolled_out : DeploymentState
rolled_out = record {
  generation = 3;
  spec_replicas = some 2;
  observed_generation = 3;
  conditions = [];
  updated_replicas = 2;
  available_replicas = 2;
  ready_replicas = 2;
}

-- The world is the tag set of the one bucket, if it has one.
abbrev pub Tagged : Type 0
Tagged = Option (List Tag)

-- The cluster has the sample Application, its Service and its Deployment, and nothing else.
abbrev pub cluster : {W : Type 0} → Client W
cluster = record {
  list_applications = pure (sample_app ∷ []);
  get_application = λ ns name. pure sample_app;
  get_namespace = λ name. fail absent;
  get_secret = λ ns name. fail absent;
  get_service = λ ns name. pure tt;
  get_deployment = λ ns name. pure rolled_out;
  get_ingress = λ ns name. fail absent;
  get_hpa = λ ns name. fail absent;
  get_pdb = λ ns name. fail absent;
  update = λ a. pure a;
  update_status = λ a. pure a;
  apply_annotation = λ ns name key value. pure tt;
  apply_secret = λ secret. pure tt;
  apply_service_account = λ account. pure tt;
  list_secrets = λ ns labels. pure [];
  list_service_accounts = λ ns labels. pure [];
  delete_secret = λ secret. pure tt;
  delete_service_account = λ account. pure tt;
  apply_workload = λ object. pure tt;
  list_config_maps = λ ns labels. pure [];
  delete_config_map = λ item. pure tt;
  delete_toggled = λ kind ns name. pure tt;
}

abbrev pub sample_client : Client Tagged
sample_client = cluster

-- the value of the last tag with this key
abbrev pub has_key : String → List Tag → Bool
has_key k [] = false
has_key k (t ∷ ts) = if t.key == k then true else has_key k ts

abbrev pub is_unique : List Tag → Bool
is_unique [] = true
is_unique (t ∷ ts) = not (has_key t.key ts) && is_unique ts

abbrev no_tags : Error
no_tags = record (new_error "no tags") { as_api_error = some no_such_tag_set_error_code }

abbrev checked : List Tag → Result (List Tag)
checked ts = if is_unique ts then ok ts else err (new_error "damaged")

abbrev pub read_tags : Tagged → Result (List Tag)
read_tags none = err no_tags
read_tags (some ts) = checked ts

abbrev pub write_tags : List Tag → Exec Tagged (Unit {0})
write_tags ts w = if is_unique ts then (ok tt, some ts) else (err (new_error "duplicate key"), w)

-- A bucket that is there, with one object and two uploads, one of which cannot be aborted.
abbrev pub sample_s3 : S3Api Tagged
sample_s3 = record {
  head_bucket = λ b. pure tt;
  create_bucket = λ b region. pure tt;
  put_bucket_versioning = λ b status. pure tt;
  put_bucket_lifecycle_configuration = λ b rules. pure tt;
  delete_bucket_lifecycle = λ b. pure tt;
  delete_bucket = λ b. pure tt;
  list_object_versions = λ b.
      more
        (λ w.
          ok (record {
            versions = record { key = "a"; version_id = "1" } ∷ [];
            delete_markers = [];
          }))
        (λ w. w) (λ w. finished);
  delete_objects = λ b ids. pure [];
  list_multipart_uploads = λ b.
      pure (record { key = "a"; upload_id = "stuck" } ∷ record { key = "b"; upload_id = "2" } ∷ []);
  abort_multipart_upload =
      λ b u. if u.upload_id == "stuck" then fail (new_error "denied") else pure tt;
  get_bucket_tagging = λ b w. (read_tags w, w);
  put_bucket_tagging = λ b tags. write_tags tags;
}

abbrev pub sample_iam : IamApi Tagged
sample_iam = record {
  get_role = λ role. pure "arn:aws:iam::1:role/app";
  create_role = λ role trust boundary. pure "arn:aws:iam::1:role/app";
  update_assume_role_policy = λ role policy. pure tt;
  put_role_policy = λ role name policy. pure tt;
  delete_role_policy = λ role name. pure tt;
  delete_role = λ role. pure tt;
}

abbrev pub sample_env : Env Tagged
sample_env = record {
  k8s = sample_client;
  s3 = sample_s3;
  iam = sample_iam;
  now = λ w. 5;
  sha256_hex = λ t. "0123456789abcdef";
}

-- A tag store that takes every tag set.
abbrev pub lenient_env : Env Tagged
lenient_env = record sample_env {
  s3 = record sample_s3 { put_bucket_tagging = λ b tags w. (ok tt, some tags) };
}

abbrev pub sample_manager : Manager Tagged
sample_manager = record {
  storage = sample_storage;
  bucket = "shop-data";
  region = "eu-west-1";
  service_account_name = "shop";
  oidc_provider_arn = "arn:aws:iam::1:oidc-provider/x";
  oidc_provider_url = "https://oidc.example/";
  permissions_boundary_arn = "arn:aws:iam::1:policy/b";
  record_created = none;
}

-- The sample Application before a bucket with these tags.
abbrev pub facing : Tagged → Session Tagged
facing w = record { app = sample_app; world = w; metrics = [] }

abbrev pub tagged_by : String → Tagged
tagged_by uid = some (record { key = owner_tag_key; value = uid } ∷ [])
