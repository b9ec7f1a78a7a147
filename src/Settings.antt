-- ===== src/Settings.antt =====
-- cmd/main.go: what the environment variables make of the operator: its limiters, the settings of the
-- reconciler, and which limiters are ramped up. Child Usable: what holds of them in every environment.
pub mod Usable
use forge_operator.Prelude.{
  ℕ, ◌*◌, ℤ, pos, String, Bool, not, Option, none, some, List, [], ◌∷◌, ◌==◌, if◌then◌else◌,
}
use forge_operator.RateLimit.{Floats, RateLibrary, new_limiter}

-- os.Getenv, and strconv.ParseFloat, strconv.Atoi and time.ParseDuration, with none for an error and
-- durations in nanoseconds
pub record Environment (F : Type 0) : Type 0 where
  pub getenv : String → String
  pub parse_float : String → Option F
  pub atoi : String → Option ℤ
  pub parse_duration : String → Option ℤ

abbrev pub parsed : {A : Type 0} → Option A → A → A
parsed none fallback = fallback
parsed (some a) fallback = a

-- time.Second and time.Minute
abbrev pub second : ℕ
second = 1000000000

abbrev pub minute : ℕ
minute = 60 * second

abbrev pub rate_limit_ramp_duration : ℕ
rate_limit_ramp_duration = 30 * second

pub record Limiters (L : Type 0) : Type 0 where
  pub s3_rate_limiter : L
  pub iam_rate_limiter : L
  pub akamai_account_rate_limiter : L
  pub akamai_object_rate_limiter : L

-- What main reads from the environment.
pub record Settings (L : Type 0) : Type 0 where
  pub oidc_provider_arn : String
  pub oidc_provider_url : String
  pub default_akamai_region : String
  pub permissions_boundary_arn : String
  pub limiters : Limiters L
  pub max_concurrent_reconciles : ℤ
  pub storage_resync_interval : ℤ
  pub webhooks_enabled : Bool

module _ {F : Type 0} (environment : Environment F) where
  abbrev variable : {A : Type 0} → (String → Option A) → String → A → A
  variable parse name fallback =
      let v = environment.getenv name in if v == "" then fallback else parsed (parse v) fallback

  unfoldable pub env_float : String → F → F
  env_float name fallback = variable environment.parse_float name fallback

  unfoldable pub env_int : String → ℤ → ℤ
  env_int name fallback = variable environment.atoi name fallback

  unfoldable pub env_duration : String → ℤ → ℤ
  env_duration name fallback = variable environment.parse_duration name fallback

  abbrev pub enables_webhooks : Bool
  enables_webhooks = not (environment.getenv "ENABLE_WEBHOOKS" == "false")

  module _ {L : Type 0} (floats : Floats F) (library : RateLibrary F L) where
    -- ratelimit.NewLimiter(envFloat(<qps>, q), envInt(<burst>, b))
    abbrev limiter_from : String → ℕ → String → ℕ → L
    limiter_from qps q burst b =
        new_limiter floats library (env_float qps (floats.from_int (pos q))) (env_int burst (pos b))

    unfoldable pub limiters : Limiters L
    limiters = record {
      s3_rate_limiter = limiter_from "AWS_S3_RATE_LIMIT_QPS" 20 "AWS_S3_RATE_LIMIT_BURST" 40;
      iam_rate_limiter = limiter_from "AWS_IAM_RATE_LIMIT_QPS" 8 "AWS_IAM_RATE_LIMIT_BURST" 16;
      akamai_account_rate_limiter =
          limiter_from "AKAMAI_ACCOUNT_RATE_LIMIT_QPS" 5 "AKAMAI_ACCOUNT_RATE_LIMIT_BURST" 10;
      akamai_object_rate_limiter =
          limiter_from "AKAMAI_OBJECT_RATE_LIMIT_QPS" 20 "AKAMAI_OBJECT_RATE_LIMIT_BURST" 40;
    }

    unfoldable pub settings : Settings L
    settings = record {
      oidc_provider_arn = environment.getenv "OIDC_PROVIDER_ARN";
      oidc_provider_url = environment.getenv "OIDC_PROVIDER_URL";
      default_akamai_region = environment.getenv "DEFAULT_AKAMAI_REGION";
      permissions_boundary_arn = environment.getenv "APP_IRSA_PERMISSIONS_BOUNDARY_ARN";
      limiters = limiters;
      max_concurrent_reconciles = env_int "MAX_CONCURRENT_RECONCILES" (pos 5);
      storage_resync_interval = env_duration "STORAGE_RESYNC_INTERVAL" (pos (10 * minute));
      webhooks_enabled = enables_webhooks;
    }

-- the limiters that RampUp is started for: by whether the manager was elected before the context ended
unfoldable pub ramped : {L : Type 0} → Bool → Limiters L → List L
ramped elected limiters =
    if elected
    then limiters.s3_rate_limiter ∷ limiters.iam_rate_limiter ∷ limiters.akamai_account_rate_limiter
      ∷ limiters.akamai_object_rate_limiter ∷ []
    else []
