-- ===== src/Controller/Finalizer/Apart.antt =====
-- What the calls to the cluster, to IAM and for access keys leave alone, in the parts of
-- internal/controller/finalizer.go that make no others.
use forge_operator.Prelude.{
  Keeps, ℕ, String, Option, none, some, ◌≡◌, refl, ◌∙◌, Result, ok, err, Result-cases, Bool-cases,
  inl, inr, arith, ◌>>=◌, pure, lookup, ◌==◌,
}
use forge_operator.Api.{Application, ApplicationStatus, StorageSpec}
use forge_operator.Status.Manager.{Held}
use forge_operator.S3.Session.{Session, Env, Manager}
use forge_operator.S3.Connect.{
  AwsConfig, StaticCredentials, new_s3_manager, static_credentials, static_ref, connect, region_of,
}
use forge_operator.S3.Cleanup.{cleanup_credentials_only}
use forge_operator.S3.Role.Keeping.{RoleDeletion, cleanup_app_irsa-Keeps}
use forge_operator.Akamai.Session.{AkamaiEnv, AkamaiManager}
use forge_operator.Akamai.Connect.{
  new_akamai_manager, akamai_connect, akamai_connected, parse_token,
}
use forge_operator.Akamai.Keys.Keeping.{KeyDeletion, delete_application_access_key-Keeps}
use forge_operator.Naming.Names.{akamai_token_secret}
use forge_operator.Cluster.{Secret}
use forge_operator.Controller.Accounts.{service_account_name_for}
use forge_operator.Akamai.Cleanup.{cleanup_akamai_credentials_only}
use forge_operator.Controller.Session.{Reconciler, status_once, retry_status_update, with_status}
use forge_operator.Controller.Keeping.{RetriesStatus, Keeps-Retried}
use forge_operator.Controller.Finalizer.{
  aws_manager, akamai_manager, drop_role, drop_access_key, with_storage,
  cleanup_retained_storage_credentials,
}

-- What is seen of the world, such as the objects of the buckets, is apart from the Kubernetes objects,
-- from IAM roles and from Linode's access keys: reading and writing those leaves it as it is. Nothing is
-- said of the calls that concern buckets.
pub record Apart {W : Type 0} {O : Type 0} (r : Reconciler W) (see : W → O) : Type 0 where
  pub get_application :
      (ns name : String) (w : W) → Keeps see (r.platform.k8s.get_application ns name) w
  pub get_secret : (ns name : String) (w : W) → Keeps see (r.platform.k8s.get_secret ns name) w
  pub update_status : (app : Application) (w : W) → Keeps see (r.platform.k8s.update_status app) w
  pub load_config :
      (region : String) (c : Option StaticCredentials) (w : W)
      → Keeps see (r.aws.load_default_config region c) w
  pub deleting_roles :
      (region : String) (c : Option StaticCredentials) (w : W) (config : AwsConfig W)
      → (r.aws.load_default_config region c w).0 ≡ ok config
      → RoleDeletion see config.iam_client
  pub list_keys :
      (token : String) (w : W) → Keeps see (r.akamai.new_client token).list_object_storage_keys w
  pub delete_key :
      (token : String) (id : ℕ) (w : W)
      → Keeps see ((r.akamai.new_client token).delete_object_storage_key id) w

module _ {W : Type 0} {O : Type 0} (r : Reconciler W) (see : W → O) (apart : Apart r see)
    (retries : RetriesStatus r) where
  abbrev seen : Session W → O
  seen s = see s.world

  abbrev held : Held W → O
  held h = see h.1

  status_once-Keeps :
      (desired : ApplicationStatus) (h : Held W) → Keeps held (status_once r desired) h
  unfolding status_once
  status_once-Keeps desired (app, w) = ground (
    arith,
    apart.update_status (with_status desired app) w,
    apart.get_application app.namespace app.name
        (r.platform.k8s.update_status (with_status desired app) w).1,
  )

  pub retry-Keeps : (s : Session W) → Keeps seen (retry_status_update r) s
  unfolding retry_status_update
  retry-Keeps s =
      Keeps-Retried held (status_once r s.app.status) (status_once-Keeps s.app.status)
        (s.app, s.world) (retries (status_once r s.app.status) (s.app, s.world))

  static-Keeps :
      (namespace : String) (storage : StorageSpec) (s : Session W)
      → Keeps seen (static_credentials r.platform r.aws namespace storage) s
  unfolding static_credentials lookup
  static-Keeps namespace storage s =
      ground (arith, apart.get_secret namespace (static_ref storage.aws) s.world)

  -- the manager of a cleanup has the role calls of some configuration that was loaded
  abbrev HasRoleCalls : Result (Env W × Manager W) → Type 0
  HasRoleCalls (ok (env, m)) = RoleDeletion see env.iam
  HasRoleCalls (err e) = Unit

  connect-RoleCalls :
      (account : String) (app : Application) (storage : Option StorageSpec) (s : Session W)
      → Keeps seen (connect r.platform r.aws account none app storage) s
        × HasRoleCalls (connect r.platform r.aws account none app storage s).0
  connect-RoleCalls account app none s = (refl, tt)
  connect-RoleCalls account app (some storage) s =
      let secret = static_credentials r.platform r.aws app.namespace storage s in
      let same = static-Keeps app.namespace storage s in
      elim (Result-cases secret.0) [
        | inr (e, refused) ↦ rw refused (same, tt)
        | inl (c, given) ↦
            let region = region_of r.platform r.aws storage in
            let loaded = apart.load_config region c secret.1.world in
            elim (Result-cases (r.aws.load_default_config region c secret.1.world).0) [
              | inr (e, refused) ↦ rw (given, refused) (loaded ∙ same, tt)
              | inl (config, made) ↦
                  rw (given, made)
                    (loaded ∙ same, apart.deleting_roles region c secret.1.world config made)
            ]
      ]

  drop_role-Keeps :
      (copy : Application) (q : Result (Env W × Manager W)) (s : Session W)
      → HasRoleCalls q
      → Keeps seen (drop_role r copy q) s
  unfolding cleanup_credentials_only
  drop_role-Keeps copy (err e) s h = refl
  drop_role-Keeps copy (ok (env, m)) s calls =
      ground (arith, cleanup_app_irsa-Keeps see env m (record s { app = copy }) calls)

  aws-Keeps :
      (copy : Application) (s : Session W) → Keeps seen (aws_manager r copy >>= drop_role r copy) s
  unfolding new_s3_manager
  aws-Keeps copy s =
      let account = service_account_name_for s.app in
      let made = new_s3_manager r.platform r.aws account none (record s { app = copy }) in
      let (same, calls) =
        connect-RoleCalls account copy copy.spec.storage (record s { app = copy }) in
      drop_role-Keeps copy made.0 (record made.1 { app = s.app }) calls ∙ same

  abbrev HasKeyCalls : Result (AkamaiEnv W × AkamaiManager W) → Type 0
  HasKeyCalls (ok (env, m)) = KeyDeletion see env
  HasKeyCalls (err e) = Unit

  token-KeyCalls :
      (name : String) (storage : StorageSpec) (q : Result Secret) (s : Session W)
      → Keeps seen
          (parse_token r.platform r.akamai name q
            >>= (λ token. pure (akamai_connected r.platform r.akamai none storage token)))
          s
        × HasKeyCalls
            ((parse_token r.platform r.akamai name q
                >>= (λ token. pure (akamai_connected r.platform r.akamai none storage token)))
              s).0
  token-KeyCalls name storage (err e) s = elim (Bool-cases e.is_not_found) [
    | inl gone ↦ rw gone (refl, tt)
    | inr other ↦ rw other (refl, tt)
  ]
  token-KeyCalls name storage (ok secret) s =
      let token = lookup secret.entries "apiToken" in
      elim (Bool-cases (token == "")) [
        | inl empty ↦ rw empty (refl, tt)
        | inr given ↦
            rw given
              (refl, record { list = apart.list_keys token; delete = apart.delete_key token })
      ]

  akamai_connect-KeyCalls :
      (app : Application) (storage : Option StorageSpec) (s : Session W)
      → Keeps seen (akamai_connect r.platform r.akamai none app storage) s
        × HasKeyCalls (akamai_connect r.platform r.akamai none app storage s).0
  akamai_connect-KeyCalls app none s = (refl, tt)
  akamai_connect-KeyCalls app (some storage) s =
      let name = akamai_token_secret app in
      let secret = r.platform.k8s.get_secret app.namespace name s.world in
      let (same, calls) = token-KeyCalls name storage secret.0 (record s { world = secret.1 }) in
      (same ∙ apart.get_secret app.namespace name s.world, calls)

  drop_key-Keeps :
      (copy : Application) (q : Result (AkamaiEnv W × AkamaiManager W)) (s : Session W)
      → HasKeyCalls q
      → Keeps seen (drop_access_key r copy q) s
  unfolding cleanup_akamai_credentials_only
  drop_key-Keeps copy (err e) s h = refl
  drop_key-Keeps copy (ok (env, m)) s h =
      ground (arith, delete_application_access_key-Keeps see env m (record s { app = copy }) h)

  akamai-Keeps :
      (copy : Application) (s : Session W)
      → Keeps seen (akamai_manager r copy >>= drop_access_key r copy) s
  unfolding new_akamai_manager
  akamai-Keeps copy s =
      let made = new_akamai_manager r.platform r.akamai none (record s { app = copy }) in
      let (same, calls) =
        akamai_connect-KeyCalls copy copy.spec.storage (record s { app = copy }) in
      drop_key-Keeps copy made.0 (record made.1 { app = s.app }) calls ∙ same

  pub credentials-Keeps :
      (storage : StorageSpec) (s : Session W)
      → Keeps seen (cleanup_retained_storage_credentials r storage) s
  unfolding cleanup_retained_storage_credentials
  credentials-Keeps storage s =
      ground (
        arith,
        aws-Keeps (with_storage storage s.app) s,
        akamai-Keeps (with_storage storage s.app) s,
      )
