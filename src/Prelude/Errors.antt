-- ===== src/Prelude/Errors.antt =====
-- Go error values, as the observations that the code makes of them: the text of err.Error(), and
-- what errors.Is, errors.As, apierrors.IsNotFound and apierrors.IsConflict answer. An error of a
-- third-party package is any such record. `fmt.Errorf` with one %w keeps every observation and
-- changes the text; `errors.New` and `fmt.Errorf` without %w have none.
use Prim.Native.Nat.{ℕ}
use Prim.Native.String.{String, ◌++◌}
use mathlib.Core.Path.{◌≡◌, refl}
use mathlib.Core.Logic.{◌⊎◌, inl, inr}
use mathlib.Core.Bool.{Bool, true, false}
use mathlib.Core.Option.{Option, none}

pub record Error : Type 0 where
  pub text : String
  -- errors.Is against the sentinel values
  pub is_bucket_not_owned : Bool  -- s3storage.ErrBucketNotOwned
  pub is_akamai_not_owned : Bool  -- akamaiobjstr.ErrBucketNotOwned
  pub is_credentials_secret_not_found : Bool  -- s3storage.ErrCredentialsSecretNotFound
  pub is_token_secret_not_found : Bool  -- akamaiobjstr.ErrTokenSecretNotFound
  pub is_deadline_exceeded : Bool  -- context.DeadlineExceeded
  -- apierrors
  pub is_not_found : Bool  -- apierrors.IsNotFound
  pub is_conflict : Bool  -- apierrors.IsConflict
  -- errors.As against the SDK error types
  pub as_response_error : Option ℕ  -- *awshttp.ResponseError, its HTTPStatusCode()
  pub as_api_error : Option String  -- smithy.APIError, its ErrorCode()
  pub as_s3_not_found : Bool  -- *s3types.NotFound
  pub as_no_such_bucket : Bool  -- *s3types.NoSuchBucket
  pub as_no_such_key : Bool  -- *s3types.NoSuchKey
  pub as_no_such_entity : Bool  -- *iamtypes.NoSuchEntityException
  pub as_linode_error : Option ℕ  -- *linodego.Error, its Code
  pub is_linode_not_found : Bool  -- linodego.IsNotFound

-- errors.New(text)
abbrev pub new_error : String → Error
new_error t = record {
  text = t;
  is_bucket_not_owned = false;
  is_akamai_not_owned = false;
  is_credentials_secret_not_found = false;
  is_token_secret_not_found = false;
  is_deadline_exceeded = false;
  is_not_found = false;
  is_conflict = false;
  as_response_error = none;
  as_api_error = none;
  as_s3_not_found = false;
  as_no_such_bucket = false;
  as_no_such_key = false;
  as_no_such_entity = false;
  as_linode_error = none;
  is_linode_not_found = false;
}

-- fmt.Errorf("<before>%w<after>", e)
abbrev pub wrap : String → Error → String → Error
wrap before e after = record e { text = before ++ e.text ++ after }

-- The result of a Go call that returns (A, error).
pub data Result {ℓ} (A : Type ℓ) : Type ℓ where
  ok : A → Result A
  err : Error → Result A

pub Result-cases {ℓ} :
    {A : Type ℓ} (r : Result A) → ((a : A) × (r ≡ ok a)) ⊎ ((e : Error) × (r ≡ err e))
Result-cases (ok a) = inl (a, refl)
Result-cases (err e) = inr (e, refl)

-- err == nil
abbrev pub is_ok {ℓ} : {A : Type ℓ} → Result A → Bool
is_ok (ok a) = true
is_ok (err e) = false
