-- ===== src/S3/Role.antt =====
-- internal/controller/s3/desireds3.go and cleanup.go: the Application's IAM role, made and deleted
-- under one name. Child Keeping: what this leaves alone.
pub mod Keeping
use Prim.Native.String.{len, slice}
use text.Mathlib.Text.{starts_with}
use forge_operator.Prelude.{
  ℕ, ◌-◌, String, not, ◌&&◌, [], ◌∷◌, Exec, pure, fail, try, ◌>>=◌, ◌>>◌, mapping_error, ok, err,
  Result, Error, wrap, ◌==◌, if◌then◌else◌, concat,
}
use forge_operator.Api.{Application}
use forge_operator.Naming.Names.{cloud_resource_name}
use forge_operator.S3.Session.{Env, Session, on_world, Manager}

abbrev pub s3_bucket_access_policy_name : String
s3_bucket_access_policy_name = "S3BucketAccessPolicy"

-- awsIAMRoleNameMaxLen
abbrev pub aws_iam_role_name_max_len : ℕ
aws_iam_role_name_max_len = 64

unfoldable pub irsa_role_name : (String → String) → Application → String
irsa_role_name sha256_hex app =
    cloud_resource_name sha256_hex ("app-irsa" ∷ app.namespace ∷ app.name ∷ [])
      aws_iam_role_name_max_len

-- strings.TrimPrefix(s, "https://")
abbrev trim_https : String → String
trim_https s = if starts_with s "https://" then slice s 8 (len s) else s

-- strings.TrimSuffix(s, "/")
abbrev trim_slash : String → String
trim_slash s =
    if not (s == "") && (slice s (len s - 1) (len s) == "/") then slice s 0 (len s - 1) else s

abbrev pub oidc_host : String → String
oidc_host url = trim_slash (trim_https url)

module _ {W : Type 0} (env : Env W) (m : Manager W) where
  -- the format string of ReconcileAppIRSA
  abbrev pub trust_policy : Application → String
  trust_policy app = concat (
      "{\n\t\"Version\": \"2012-10-17\",\n\t\"Statement\": [\n\t\t{\n"
      ∷ "\t\t\t\"Effect\": \"Allow\",\n\t\t\t\"Principal\": {\n\t\t\t\t\"Federated\": \""
      ∷ m.oidc_provider_arn
      ∷ "\"\n\t\t\t},\n\t\t\t\"Action\": \"sts:AssumeRoleWithWebIdentity\",\n"
      ∷ "\t\t\t\"Condition\": {\n\t\t\t\t\"StringEquals\": {\n\t\t\t\t\t\""
      ∷ oidc_host m.oidc_provider_url
      ∷ ":sub\": \"system:serviceaccount:"
      ∷ app.namespace
      ∷ ":"
      ∷ m.service_account_name
      ∷ "\",\n\t\t\t\t\t\""
      ∷ oidc_host m.oidc_provider_url
      ∷ ":aud\": \"sts.amazonaws.com\"\n\t\t\t\t}\n\t\t\t}\n\t\t}]\n\t}"
      ∷ [])

  abbrev pub s3_policy : String
  s3_policy = concat (
      "{\n\t\"Version\": \"2012-10-17\",\n\t\"Statement\": [\n\t\t{\n"
      ∷ "\t\t\t\"Effect\": \"Allow\",\n\t\t\t\"Action\": [\n\t\t\t\t\"s3:ListBucket\",\n"
      ∷ "\t\t\t\t\"s3:GetObject\",\n\t\t\t\t\"s3:PutObject\",\n\t\t\t\t\"s3:DeleteObject\"\n"
      ∷ "\t\t\t],\n\t\t\t\"Resource\": [\n\t\t\t\t\"arn:aws:s3:::" ∷ m.bucket
      ∷ "\",\n\t\t\t\t\"arn:aws:s3:::" ∷ m.bucket ∷ "/*\"\n\t\t\t]\n\t\t}]\n\t}" ∷ [])

  abbrev pub role_of : Application → String
  role_of app = irsa_role_name env.sha256_hex app

  -- fmt.Errorf("<before> <role>: %w", err)
  abbrev about_role : String → String → Error → Error
  about_role before role e = wrap (concat (before ∷ " " ∷ role ∷ ": " ∷ [])) e ""

  -- the role's ARN: of a new role, or of the present one with its trust policy updated
  unfoldable pub role_from : String → String → Result String → Exec (Session W) String
  role_from role trust (err e) =
      if e.as_no_such_entity
      then mapping_error (about_role "failed to create app IRSA role" role)
          (on_world (env.iam.create_role role trust m.permissions_boundary_arn))
      else fail (about_role "failed to get app IRSA role" role e)
  role_from role trust (ok arn) =
      mapping_error (about_role "failed to update trust policy for app IRSA role" role)
        (on_world (env.iam.update_assume_role_policy role trust))
      >> pure arn

  unfoldable pub reconcile_app_irsa : Exec (Session W) String
  reconcile_app_irsa s =
      let role = role_of s.app in
      (try (on_world (env.iam.get_role role)) >>= (λ r.
          role_from role (trust_policy s.app) r >>= (λ arn.
            mapping_error (about_role "failed to attach S3 bucket access policy to role" role)
              (on_world (env.iam.put_role_policy role s3_bucket_access_policy_name s3_policy))
            >> pure arn)))
        s

  -- NoSuchEntity counts as deleted.
  abbrev pub unless_absent : (Error → Error) → Result (Unit {0}) → Exec (Session W) (Unit {0})
  unless_absent f (ok a) = pure tt
  unless_absent f (err e) = if e.as_no_such_entity then pure tt else fail (f e)

  unfoldable pub cleanup_app_irsa : Exec (Session W) (Unit {0})
  cleanup_app_irsa s =
      let role = role_of s.app in
      (try (on_world (env.iam.delete_role_policy role s3_bucket_access_policy_name)) >>= (λ r.
          unless_absent (about_role "failed to delete inline policy for role" role) r
          >> (try (on_world (env.iam.delete_role role))
              >>= (λ q. unless_absent (about_role "failed to delete IAM role" role) q))))
        s
