-- ===== src/Akamai/Session.antt =====
-- internal/controller/akamaiobjstr/client.go: the calls of the Linode API and of a bucket's own
-- S3-compatible endpoint (AKAMAIAPI, s3ObjectAPI), which are parameters of the model, and the
-- manager. The methods work on the session of the S3 package: the Application, the world and the
-- counters.
use forge_operator.Prelude.{ℕ, String, Option, List, Exec, Result, trim_prefix}
use Prim.Native.String.{◌++◌}
use forge_operator.Api.{StorageSpec, Time}
use forge_operator.Cluster.{Client}
use forge_operator.S3.Session.{ObjectIdentifier, Paginator, Session}

-- linodego.ObjectStorageBucket
pub record LinodeBucket : Type 0 where
  pub hostname : String

-- linodego.ObjectStorageKey. Linode gives the secret key in the answer to the creation only.
pub record LinodeKey : Type 0 where
  pub id : ℕ
  pub label : String
  pub access_key : String
  pub secret_key : String

-- Where a bucket is named, its region comes first.
pub record AkamaiApi (W : Type 0) : Type 0 where
  pub get_object_storage_bucket : String → String → Exec W LinodeBucket
  pub create_object_storage_bucket : String → String → Exec W LinodeBucket
  pub delete_object_storage_bucket : String → String → Exec W (Unit {0})
  pub list_object_storage_keys : Exec W (List LinodeKey)
  -- the label, and the bucket that the key may read and write
  pub create_object_storage_key : String → String → String → Exec W LinodeKey
  pub delete_object_storage_key : ℕ → Exec W (Unit {0})

-- The first argument is the bucket, the second the object's key.
pub record ObjectApi (W : Type 0) : Type 0 where
  -- the outcome of reading the body stands inside
  pub get_object : String → String → Exec W (Result String)
  pub put_object : String → String → String → Exec W (Unit {0})
  -- the keys of each page
  pub list_objects : String → Paginator (List String) W
  -- the messages of the per-object errors
  pub delete_objects : String → List ObjectIdentifier → Exec W (List String)

-- The arguments of newS3ObjectClient.
pub record Connection : Type 0 where
  pub region : String
  pub cluster_endpoint : String
  pub access_key : String
  pub secret_key : String

-- ownerMarker
pub record OwnerMarker : Type 0 where
  pub uid : String
  pub namespace : String
  pub id : String

-- What the manager stands on beside its own fields. `unmarshal` gives none for a text that is not
-- the JSON of a marker; a field that the JSON lacks is the empty text.
pub record AkamaiEnv (W : Type 0) : Type 0 where
  pub k8s : Client W
  pub akamai : AkamaiApi W
  pub objects : Connection → ObjectApi W
  pub marshal : OwnerMarker → Result String
  pub unmarshal : String → Option OwnerMarker
  pub now : W → Time
  pub sha256_hex : String → String

-- Manager; NewManager makes none without a storage spec.
pub record AkamaiManager (W : Type 0) : Type 0 where
  pub storage : StorageSpec
  pub bucket : String
  pub region : String
  pub record_created : Option (Exec (Session W) (Unit {0}))

-- StorageResult
pub record AkamaiResult : Type 0 where
  pub access_key : String
  pub secret_key : String
  pub endpoint : String

pub record AccessKeyResult : Type 0 where
  pub access_key : String
  pub secret_key : String

module _ {W : Type 0} (env : AkamaiEnv W) (m : AkamaiManager W) where
  -- s3ClientFor
  abbrev pub s3_client_for : String → AccessKeyResult → ObjectApi W
  s3_client_for bucket_hostname key = env.objects (record {
    region = m.region;
    cluster_endpoint = trim_prefix bucket_hostname (m.bucket ++ ".");
    access_key = key.access_key;
    secret_key = key.secret_key;
  })
