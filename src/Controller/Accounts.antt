-- ===== src/Controller/Accounts.antt =====
-- internal/controller/serviceaccount.go: the ServiceAccount of an Application.
-- Child Settled: its two writers.
pub mod Settled
use Prim.Native.String.{◌++◌}
use forge_operator.Prelude.{
  String, Bool, true, not, ◌&&◌, ◌||◌, Option, none, some, List, [], ◌∷◌, StringMap, insert, Exec,
  pure, fail, try, ◌>>=◌, ◌>>◌, mapping_error, Result, ok, err, Error, wrap, ◌==◌, if◌then◌else◌,
  concat,
}
use forge_operator.Api.{
  Application, ServiceAccountSpec, StorageStatus, AwsStorageStatus, provider_aws_s3,
}
use forge_operator.Cluster.{OwnedMeta}
use forge_operator.S3.Session.{Session, on_world}
use forge_operator.Controller.Session.{Reconciler}

abbrev pub app_label_key : String
app_label_key = "app"

abbrev pub role_arn_annotation : String
role_arn_annotation = "eks.amazonaws.com/role-arn"

abbrev pub creates : Option ServiceAccountSpec → Bool
creates none = true
creates (some account) = elim account.create [ none ↦ account.name == "" | some create ↦ create ]

unfoldable pub should_create_service_account : Application → Bool
should_create_service_account app = creates app.spec.service_account

abbrev pub account_name : Option ServiceAccountSpec → String
account_name none = ""
account_name (some account) = account.name

unfoldable pub service_account_name_for : Application → String
service_account_name_for app =
    if not (account_name app.spec.service_account == "")
    then account_name app.spec.service_account
    else app.name ++ "-sa"

abbrev pub is_declined : Option ServiceAccountSpec → Bool
is_declined none = Bool.false
is_declined (some account) = elim account.create [
  | none ↦ Bool.false
  | some create ↦ not create && (account.name == "")
]

unfoldable pub pod_service_account_name : Application → String
pod_service_account_name app =
    if is_declined app.spec.service_account then "" else service_account_name_for app

abbrev pub aws_role : Option AwsStorageStatus → String
aws_role none = ""
aws_role (some aws) = aws.role_arn

-- the role of the last reconcile, or the empty text
abbrev pub known_role : Option StorageStatus → String
known_role none = ""
known_role (some st) = if st.provider == provider_aws_s3 then aws_role st.aws else ""

abbrev pub carried : String → StringMap
carried role = if role == "" then [] else (role_arn_annotation, role) ∷ []

unfoldable pub desired_service_account : Application → OwnedMeta
desired_service_account app = record {
  name = service_account_name_for app;
  namespace = app.namespace;
  labels = (app_label_key, app.name) ∷ [];
  annotations = carried (known_role app.status.storage);
  controller = none;
}

abbrev pub with_role : String → OwnedMeta → OwnedMeta
with_role role meta = record meta { annotations = insert meta.annotations role_arn_annotation role }

-- The reply of a deletion: client.IgnoreNotFound.
abbrev pub removed : {S : Type 0} → String → Result (Unit {0}) → Exec S (Unit {0})
removed text (ok a) = pure tt
removed text (err e) = if e.is_not_found then pure tt else fail (wrap text e "")

module _ {W : Type 0} (r : Reconciler W) where
  abbrev pub is_stale : Application → String → OwnedMeta → Bool
  is_stale app keep_name item = not ((item.name == keep_name) || not (r.is_controlled_by item app))

  -- the loop of deleteStaleServiceAccounts
  unfoldable pub delete_each_account : String → List OwnedMeta → Exec (Session W) (Unit {0})
  delete_each_account keep_name [] s = (ok tt, s)
  delete_each_account keep_name (item ∷ items) s =
      ((if is_stale s.app keep_name item
            then try (on_world (r.platform.k8s.delete_service_account item))
              >>= removed
                  (concat ("failed to delete stale ServiceAccount " ∷ item.name ∷ ": " ∷ []))
            else pure tt)
          >> delete_each_account keep_name items)
        s

  unfoldable pub delete_stale_service_accounts : String → Exec (Session W) (Unit {0})
  delete_stale_service_accounts keep_name s =
      (mapping_error (λ e. wrap "failed to list ServiceAccounts for cleanup: " e "")
            (on_world (
              r.platform.k8s.list_service_accounts s.app.namespace
                ((app_label_key, s.app.name) ∷ [])))
          >>= delete_each_account keep_name)
        s

  abbrev pub controlled : String → Application → OwnedMeta → Exec (Session W) OwnedMeta
  controlled text app meta s =
      (mapping_error (λ e. wrap text e "") (λ t. (r.set_controller_reference app meta, t))) s

  abbrev pub apply_desired : Application → Exec (Session W) (Unit {0})
  apply_desired app =
      controlled "failed to set controller reference for ServiceAccount: " app
        (desired_service_account app)
      >>= (λ desired.
          mapping_error (λ e. wrap "failed to apply ServiceAccount: " e "")
            (on_world (r.platform.k8s.apply_service_account desired))
          >> mapping_error (λ e. wrap "failed to clean up stale ServiceAccount: " e "")
              (delete_stale_service_accounts desired.name))

  unfoldable pub reconcile_service_account : Exec (Session W) (Unit {0})
  reconcile_service_account s =
      if not (should_create_service_account s.app)
      then delete_stale_service_accounts "" s
      else apply_desired s.app s

  abbrev pub annotate_desired : String → Application → Exec (Session W) (Unit {0})
  annotate_desired role app =
      controlled "failed to set controller reference for ServiceAccount: " app
        (desired_service_account app)
      >>= (λ desired.
          mapping_error (λ e. wrap "failed to apply ServiceAccount with IRSA annotation: " e "")
            (on_world (r.platform.k8s.apply_service_account (with_role role desired))))

  unfoldable pub annotate_service_account_with_irsa : String → Exec (Session W) (Unit {0})
  annotate_service_account_with_irsa role s =
      if not (should_create_service_account s.app)
      then (ok tt, s)
      else annotate_desired role s.app s
