-- ===== src/S3/Connect.antt =====
-- internal/controller/s3/client.go: NewManager, which checks the settings, reads the static
-- credentials if the Application names a Secret with them, and makes the clients.
use forge_operator.Prelude.{
  String, Bool, true, ◌&&◌, Option, none, some, [], ◌∷◌, any, Exec, pure, fail, try, ◌>>=◌, ◌>>◌,
  mapping_error, Result, ok, err, Error, new_error, wrap, ◌==◌, if◌then◌else◌, concat, lookup,
}
use forge_operator.Api.{Application, StorageSpec, AwsStorageSpec}
use forge_operator.Cluster.{Platform, Secret}
use forge_operator.S3.Session.{S3Api, IamApi, Env, Session, Manager, on_world}
use forge_operator.S3.Bucket.{default_region}

-- credentials.NewStaticCredentialsProvider
pub record StaticCredentials : Type 0 where
  pub access_key_id : String
  pub secret_access_key : String
  pub session_token : String

-- aws.Config, as what NewFromConfig makes of it. The endpoint of the S3 client is empty for AWS's own.
pub record AwsConfig (W : Type 0) : Type 0 where
  pub s3_client : String → S3Api W
  pub iam_client : IamApi W

-- The settings of the operator for S3. `load_default_config` is config.LoadDefaultConfig, with the
-- region.
pub record AwsSettings (W : Type 0) : Type 0 where
  pub load_default_config : String → Option StaticCredentials → Exec W (AwsConfig W)
  pub oidc_provider_arn : String
  pub oidc_provider_url : String
  pub permissions_boundary_arn : String

-- ErrCredentialsSecretNotFound
abbrev pub credentials_secret_not_found : Error
credentials_secret_not_found = record (new_error "credentials secret not found") {
  is_credentials_secret_not_found = true;
}

abbrev pub has_data_key : String → Secret → Bool
has_data_key key secret = any (λ k. k == key) secret.keys

-- the reference, or the empty text where the code does not use one
abbrev pub static_ref : Option AwsStorageSpec → String
static_ref none = ""
static_ref (some aws) = aws.credentials_secret_ref

abbrev unset : String → String → Error
unset variable name = new_error (
    concat
      (variable ∷ " is not configured, required to create IRSA roles for application " ∷ name ∷ []))

module _ {W : Type 0} (p : Platform W) (x : AwsSettings W) where
  abbrev pub check_settings : String → Exec (Session W) (Unit {0})
  check_settings name =
      if x.oidc_provider_arn == ""
      then fail (unset "OIDC_PROVIDER_ARN" name)
      else if x.oidc_provider_url == ""
      then fail (unset "OIDC_PROVIDER_URL" name)
      else if x.permissions_boundary_arn == ""
      then fail (unset "APP_IRSA_PERMISSIONS_BOUNDARY_ARN" name)
      else pure tt

  -- a manager for a cleanup, which has no callback, needs none of the settings
  abbrev pub check_callback :
      String → Option (Exec (Session W) (Unit {0})) → Exec (Session W) (Unit {0})
  check_callback name none = pure tt
  check_callback name (some run) = check_settings name

  abbrev pub parse_credentials :
      String → Result Secret → Exec (Session W) (Option StaticCredentials)
  parse_credentials ref (err e) =
      if e.is_not_found
      then fail (wrap "" credentials_secret_not_found (concat (": " ∷ ref ∷ [])))
      else fail e
  parse_credentials ref (ok secret) =
      if has_data_key "AWS_ACCESS_KEY_ID" secret && has_data_key "AWS_SECRET_ACCESS_KEY" secret
      then pure (
          some (record {
            access_key_id = lookup secret.entries "AWS_ACCESS_KEY_ID";
            secret_access_key = lookup secret.entries "AWS_SECRET_ACCESS_KEY";
            session_token = lookup secret.entries "AWS_SESSION_TOKEN";
          }))
      else fail (new_error (concat ("AWS credentials not found in secret " ∷ ref ∷ [])))

  unfoldable pub static_credentials :
      String → StorageSpec → Exec (Session W) (Option StaticCredentials)
  static_credentials namespace storage =
      if static_ref storage.aws == ""
      then pure none
      else try (on_world (p.k8s.get_secret namespace (static_ref storage.aws)))
        >>= parse_credentials (static_ref storage.aws)

  abbrev pub region_of : StorageSpec → String
  region_of storage = if storage.region == "" then default_region else storage.region

  -- the value that NewManager returns, with its clients
  abbrev pub connected :
      String → Option (Exec (Session W) (Unit {0})) → StorageSpec → AwsConfig W → Env W × Manager W
  connected service_account record_created storage config = (
    record {
      k8s = p.k8s;
      s3 = config.s3_client storage.endpoint;
      iam = config.iam_client;
      now = p.now;
      sha256_hex = p.sha256_hex;
    },
    record {
      storage = storage;
      bucket = storage.bucket;
      region = region_of storage;
      service_account_name = service_account;
      oidc_provider_arn = x.oidc_provider_arn;
      oidc_provider_url = x.oidc_provider_url;
      permissions_boundary_arn = x.permissions_boundary_arn;
      record_created = record_created;
    },
  )

  abbrev pub connect :
      String
      → Option (Exec (Session W) (Unit {0}))
      → Application
      → Option StorageSpec
      → Exec (Session W) (Env W × Manager W)
  connect service_account record_created app none =
      fail (new_error (concat ("storage spec is nil for application " ∷ app.name ∷ [])))
  connect service_account record_created app (some storage) =
      check_callback app.name record_created
      >> (static_credentials app.namespace storage >>= (λ credentials.
          mapping_error (λ e. wrap "failed to load AWS config: " e "")
            (on_world (x.load_default_config (region_of storage) credentials))
          >>= (λ config. pure (connected service_account record_created storage config))))

  -- NewManager, for the session's Application
  unfoldable pub new_s3_manager :
      String → Option (Exec (Session W) (Unit {0})) → Exec (Session W) (Env W × Manager W)
  new_s3_manager service_account record_created s =
      connect service_account record_created s.app s.app.spec.storage s
