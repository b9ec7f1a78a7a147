-- ===== src/S3/Bucket.antt =====
-- internal/controller/s3/desireds3.go: ReconcileBucket: the bucket is created or claimed, then its
-- versioning, its lifecycle rules and the Application's role are set.
pub mod Gate
use forge_operator.Prelude.{
  ℕ, suc, ◌++◌, String, Bool, true, not, ◌&&◌, Option, none, some, List, [], ◌∷◌, Exec, pure, fail,
  try, ◌>>=◌, ◌>>◌, mapping_error, ok, err, Result, Error, new_error, wrap, nat_eq, ◌==◌,
  if◌then◌else◌, concat, decimal,
}
use forge_operator.Api.{StorageSpec, AwsStorageSpec, LifecycleRule}
use forge_operator.S3.Session.{Env, Session, on_world, Manager, S3Rule}
use forge_operator.S3.Ownership.{claim_or_verify_ownership}
use forge_operator.S3.Role.{reconcile_app_irsa}

abbrev pub default_region : String
default_region = "us-east-1"

abbrev pub default_lifecycle_rule_id : String
default_lifecycle_rule_id = "StandardLifecycleRule"

-- isNotFoundError: a missing bucket in its several forms
abbrev pub is_not_found_error : Error → Bool
is_not_found_error e =
    if e.as_no_such_bucket
    then true
    else elim e.as_response_error [ none ↦ Bool.false | some n ↦ nat_eq n 404 ]

abbrev pub aws_versioning : Option AwsStorageSpec → Bool
aws_versioning none = true
aws_versioning (some a) = elim a.versioning_enabled [ none ↦ true | some b ↦ b ]

abbrev pub versioning_enabled : StorageSpec → Bool
versioning_enabled st = aws_versioning st.aws

abbrev pub default_lifecycle_rules : List LifecycleRule
default_lifecycle_rules =
    record {
      id = default_lifecycle_rule_id;
      enabled = none;
      prefix = "";
      expiration_days = none;
      noncurrent_version_expiration_days = some 30;
      abort_incomplete_multipart_upload_days = some 7;
      transitions = record { days = 30; storage_class = "STANDARD_IA" } ∷ [];
    }
    ∷ []

abbrev pub aws_rules : Option AwsStorageSpec → List LifecycleRule
aws_rules none = default_lifecycle_rules
aws_rules (some a) = elim a.lifecycle_rules [ none ↦ default_lifecycle_rules | some rs ↦ rs ]

abbrev pub desired_lifecycle_rules : StorageSpec → List LifecycleRule
desired_lifecycle_rules st = aws_rules st.aws

abbrev rule_status : Option Bool → String
rule_status none = "Enabled"
rule_status (some b) = if b then "Enabled" else "Disabled"

-- the rule at index i
abbrev pub s3_rule : ℕ → LifecycleRule → S3Rule
s3_rule i rule = record {
  id = if rule.id == "" then concat ("rule-" ∷ decimal i ∷ []) else rule.id;
  status = rule_status rule.enabled;
  prefix = rule.prefix;
  expiration_days = rule.expiration_days;
  noncurrent_days = rule.noncurrent_version_expiration_days;
  days_after_initiation = rule.abort_incomplete_multipart_upload_days;
  transitions = rule.transitions;
}

-- the loop over the rules, at index i
unfoldable pub s3_rules : ℕ → List LifecycleRule → List S3Rule
s3_rules i [] = []
s3_rules i (r ∷ rs) = s3_rule i r ∷ s3_rules (suc i) rs

module _ {W : Type 0} (env : Env W) (m : Manager W) where
  -- fmt.Errorf("<before> <bucket><after>: %w", err)
  abbrev about_bucket : String → String → Error → Error
  about_bucket before after e = wrap (concat (before ∷ " " ∷ m.bucket ∷ after ∷ ": " ∷ [])) e ""

  unfoldable pub create_bucket : Exec (Session W) (Unit {0})
  create_bucket = mapping_error (about_bucket "failed to create bucket" "") (
      on_world (
        env.s3.create_bucket m.bucket
          (if not (m.region == default_region) then some m.region else none)))

  unfoldable pub record_bucket_created : Exec (Session W) (Unit {0})
  record_bucket_created = elim m.record_created [
    | none ↦ fail (new_error "recordCreated callback not configured")
    | some run ↦ mapping_error (about_bucket "failed to record bucket creation for" "") run
  ]

  -- the branch of ensureBucketExists for a missing bucket, in both of its forms
  abbrev pub create_and_claim : Exec (Session W) (Unit {0})
  create_and_claim = create_bucket >> (record_bucket_created >> claim_or_verify_ownership env m)

  abbrev unreachable : Error → ℕ → Error
  unreachable e code =
      if nat_eq code 403
      then about_bucket "access denied to bucket" "" e
      else if nat_eq code 301
      then about_bucket "bucket" " is in a different region" e
      else about_bucket "unexpected error checking bucket" "" e

  -- the reply of HeadBucket says that the bucket is not there
  abbrev pub is_missing : Error → Bool
  is_missing e =
      if e.as_s3_not_found
      then true
      else elim e.as_response_error [ none ↦ Bool.false | some code ↦ nat_eq code 404 ]

  unfoldable pub ensure_from : Result (Unit {0}) → Exec (Session W) (Unit {0})
  ensure_from (ok a) = claim_or_verify_ownership env m
  ensure_from (err e) =
      if is_missing e
      then create_and_claim
      else fail (elim e.as_response_error [ none ↦ e | some code ↦ unreachable e code ])

  unfoldable pub ensure_bucket_exists : Exec (Session W) (Unit {0})
  ensure_bucket_exists = do r ← try (on_world (env.s3.head_bucket m.bucket)); ensure_from r

  abbrev pub status_text : String
  status_text = if versioning_enabled m.storage then "Enabled" else "Suspended"

  unfoldable pub ensure_versioning : Exec (Session W) (Unit {0})
  ensure_versioning =
      mapping_error
        (about_bucket (concat ("failed to set versioning (" ∷ status_text ∷ ") for bucket" ∷ []))
          "")
        (on_world (env.s3.put_bucket_versioning m.bucket status_text))

  abbrev pub lifecycle_removed : Result (Unit {0}) → Exec (Session W) (Unit {0})
  lifecycle_removed (ok a) = pure tt
  lifecycle_removed (err e) =
      if is_not_found_error e
      then pure tt
      else fail (about_bucket "failed to remove lifecycle policy for bucket" "" e)

  abbrev pub apply_rules : List LifecycleRule → Exec (Session W) (Unit {0})
  apply_rules [] =
      try (on_world (env.s3.delete_bucket_lifecycle m.bucket)) >>= (λ r. lifecycle_removed r)
  apply_rules (r ∷ rs) =
      mapping_error (about_bucket "failed to set lifecycle policy for bucket" "")
        (on_world (env.s3.put_bucket_lifecycle_configuration m.bucket (s3_rules 0 (r ∷ rs))))

  unfoldable pub ensure_lifecycle_policy : Exec (Session W) (Unit {0})
  ensure_lifecycle_policy = apply_rules (desired_lifecycle_rules m.storage)

  -- The result is the role's ARN (StorageResult).
  unfoldable pub reconcile_bucket : Exec (Session W) String
  reconcile_bucket =
      mapping_error (λ e. wrap "failed to ensure bucket exists: " e "") ensure_bucket_exists
      >> (mapping_error (λ e. wrap "failed to ensure versioning: " e "") ensure_versioning
          >> (mapping_error (λ e. wrap "failed to ensure lifecycle policy: " e "")
                ensure_lifecycle_policy
              >> mapping_error (λ e. wrap "failed to reconcile app IRSA: " e "")
                  (reconcile_app_irsa env m)))
