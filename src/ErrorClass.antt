-- ===== src/ErrorClass.antt =====
-- internal/controller/errorclass.go: the outcome labels of the metrics, and the reason of a failed
-- reconcile. Child Outcomes: which label a refusal by ownership gets.
pub mod Outcomes
use forge_operator.Prelude.{
  ℕ, String, Bool, true, false, ◌||◌, Option, none, some, Error, nat_eq, ◌==◌, if◌then◌else◌,
}

abbrev pub outcome_ready : String
outcome_ready = "ready"

abbrev pub outcome_success : String
outcome_success = "success"

abbrev pub outcome_not_owned : String
outcome_not_owned = "not_owned"

abbrev pub outcome_timeout : String
outcome_timeout = "timeout"

abbrev pub outcome_access_denied : String
outcome_access_denied = "access_denied"

abbrev pub outcome_other : String
outcome_other = "other_error"

abbrev pub reason_failed : String
reason_failed = "ReconcileFailed"

abbrev pub reason_secret_not_found : String
reason_secret_not_found = "SecretNotFound"

abbrev is_code : ℕ → Option ℕ → Bool
is_code n none = false
is_code n (some k) = nat_eq k n

abbrev denied_code : Option String → Bool
denied_code none = false
denied_code (some c) =
    (c == "AccessDenied") || ((c == "AccessDeniedException") || (c == "UnauthorizedException"))

abbrev pub is_aws_access_denied : Error → Bool
is_aws_access_denied e = is_code 403 e.as_response_error || denied_code e.as_api_error

abbrev pub is_akamai_access_denied : Error → Bool
is_akamai_access_denied e = is_code 403 e.as_linode_error || is_code 401 e.as_linode_error

unfoldable pub classify_aws_storage_error : Error → String
classify_aws_storage_error e =
    if e.is_bucket_not_owned
    then outcome_not_owned
    else if e.is_deadline_exceeded
    then outcome_timeout
    else if is_aws_access_denied e
    then outcome_access_denied
    else outcome_other

unfoldable pub classify_akamai_storage_error : Error → String
classify_akamai_storage_error e =
    if e.is_akamai_not_owned
    then outcome_not_owned
    else if e.is_deadline_exceeded
    then outcome_timeout
    else if is_akamai_access_denied e
    then outcome_access_denied
    else outcome_other

unfoldable pub reconcile_failure_reason : Error → String
reconcile_failure_reason e =
    if e.is_credentials_secret_not_found || e.is_token_secret_not_found
    then reason_secret_not_found
    else reason_failed
