-- ===== src/ErrorClass/Outcomes.antt =====
-- The label that internal/controller/errorclass.go gives to what ReconcileBucket and CleanupBucket
-- of internal/controller/s3 return when the ownership of the bucket is in doubt.
use forge_operator.Prelude.{
  String, true, ◌≡◌, Result, Error, err, is_ok, arith, Result-cases, inl, inr,
}
use forge_operator.S3.Session.{Env, Session, Manager}
use forge_operator.S3.Ownership.{verify_ownership}
use forge_operator.S3.Ownership.Refusal.{is_refusal}
use forge_operator.S3.Bucket.{reconcile_bucket}
use forge_operator.S3.Bucket.Gate.{IsThere, IsEntitled, reconcile_refused}
use forge_operator.S3.Cleanup.{cleanup_bucket}
use forge_operator.S3.Cleanup.Guard.{after_role, cleanup_refused}
use forge_operator.ErrorClass.{classify_aws_storage_error, outcome_not_owned}

module _ {A : Type 0} where
  -- The result is an error with this label.
  abbrev pub IsLabelled : String → Result A → Type 0
  IsLabelled label r = (e : Error) × (r ≡ err e) × (classify_aws_storage_error e ≡ label)

module _ {W : Type 0} (env : Env W) (m : Manager W) where
  refusal_label :
      {A : Type 0} (r : Result A) → is_refusal env m r ≡ true → IsLabelled outcome_not_owned r
  unfolding classify_aws_storage_error
  refusal_label r h = elim (Result-cases r) [
    | inl (a, e) ↦ absurd (ground arith)
    | inr (x, e) ↦ (x, e, ground arith)
  ]

  -- A reconcile of a bucket that is there and that the Application is not entitled to fails with an
  -- error that is counted as not_owned.
  pub reconcile_refused_outcome :
      (s : Session W)
      → IsThere env m s
      → ¬ (IsEntitled env m s)
      → IsLabelled outcome_not_owned (reconcile_bucket env m s).0
  reconcile_refused_outcome s there h = refusal_label _ (reconcile_refused env m s there h).0

  -- A cleanup of a bucket whose ownership verifyOwnership does not confirm fails with an error that
  -- is counted as not_owned.
  pub cleanup_refused_outcome :
      (s : Session W)
      → ¬ (is_ok (verify_ownership env m (after_role env m s)).0 ≡ true)
      → IsLabelled outcome_not_owned (cleanup_bucket env m s).0.1
  cleanup_refused_outcome s h = refusal_label _ (cleanup_refused env m s h).0
