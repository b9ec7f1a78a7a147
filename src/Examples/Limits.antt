-- ===== src/Examples/Limits.antt =====
-- A limiter over hundredths for floats, which counts the selects of its ramp, and an environment in which
-- one variable cannot be parsed and one is negative.
use Prim.Native.Nat.{◌/◌, ◌*◌}
use forge_operator.Prelude.{
  ℕ, zero, suc, ◌+◌, ◌≤◌, ℤ, pos, negsuc, IsPositive, String, true, false, none, some, Exec, ok,
  err, new_error, All, ◌≡◌, ◌↔◌, ◌≢◌, refl, subst, arith, nat_eq, if◌then◌else◌, ◌==◌,
}
use forge_operator.ErrorClass.{
  classify_aws_storage_error, classify_akamai_storage_error, outcome_timeout,
}
use forge_operator.RateLimit.{
  Floats, RateLibrary, Waiter, aws_middleware, new_round_tripper, round_trip,
}
use forge_operator.RateLimit.Ramp.{
  ramp_steps, Selection, done, tick, Limiter, NewTicker, returned, ramp_up,
}
use forge_operator.RateLimit.Levels.{Setters, Tickers, Alone, AtTarget, Climbed, ramp_up-Climbed}
use forge_operator.RateLimit.Ends.{Counts, ramp_up_returns_iff, ramp_up-AtTarget}
use forge_operator.RateLimit.Waiting.{PacedBy, calls-PacedBy, label_of, refused_wait_label}
use forge_operator.Controller.Loop.{
  resolve_max_concurrent_reconciles, resolve_storage_resync_interval,
}
use forge_operator.Settings.{Environment, settings, ramped, rate_limit_ramp_duration}
use forge_operator.Settings.Usable.{RateLaws, IsUsable, settings-IsUsable}

abbrev hundredths : Floats ℕ
hundredths = record {
  is_at_most_zero = λ x. nat_eq x 0;
  one = 100;
  tenth = 10;
  rest = 90;
  add = λ x y. x + y;
  multiply = λ x y. x * y / 100;
  divide = λ x y. x * 100 / y;
  from_int = λ z. elim z [ pos n ↦ n * 100 | negsuc n ↦ 0 ];
  to_int = λ x. pos (x / 100);
}

record Paced : Type 0 where
  limit : ℕ
  burst : ℤ
  selects : ℕ

abbrev paced_limiter : Limiter ℕ Paced
paced_limiter = record {
  limit = λ w. w.limit;
  burst = λ w. w.burst;
  set_limit = λ x w. record w { limit = x };
  set_burst = λ b w. record w { burst = b };
  set_limit_at = λ now x w. record w { limit = x };
  set_burst_at = λ now b w. record w { burst = b };
  now = λ w. 5;
}

abbrev next_tick : Paced → Selection × Paced
next_tick w = (tick w.selects, record w { selects = suc w.selects })

abbrev sample_ticker : NewTicker Paced
sample_ticker zero = none
sample_ticker (suc d) = some next_tick

sample_setters : Setters paced_limiter
sample_setters = record {
  limit-set_limit = λ x w. refl;
  limit-set_burst = λ b w. refl;
  burst-set_burst = λ b w. refl;
  limit-set_limit_at = λ now x w. refl;
  limit-set_burst_at = λ now b w. refl;
  burst-set_burst_at = λ now b w. refl;
}

some_ticker :
    (d : ℕ) → 1 ≤ d → (select : Paced → Selection × Paced) × (sample_ticker d ≡ some select)
some_ticker zero h = absurd (omega arith)
some_ticker (suc d) h = (next_tick, refl)

sample_tickers : Tickers paced_limiter sample_ticker
sample_tickers = record { no_ticker = refl; ticker = some_ticker }

sample-Alone : Alone paced_limiter sample_ticker
sample-Alone zero select e w = absurd cc
sample-Alone (suc d) select e w =
    subst
      (λ o. elim o [
        | none ↦ Unit {0}
        | some f ↦ ((f w).1.limit ≡ w.limit) × ((f w).1.burst ≡ w.burst)
      ])
      e (refl, refl)

counted_select :
    (d : ℕ) (select : Paced → Selection × Paced)
    → sample_ticker d ≡ some select
    → (w : Paced) → (select w).1.selects ≡ suc w.selects
counted_select zero select e w = absurd cc
counted_select (suc d) select e w =
    subst (λ o. elim o [ none ↦ Unit {0} | some f ↦ (f w).1.selects ≡ suc w.selects ]) e refl

abbrev at_rest : Paced
at_rest = record { limit = 2000; burst = pos 40; selects = 0 }

sample-Counts : Counts hundredths paced_limiter sample_ticker sample_tickers (λ w. w.selects)
sample-Counts = record {
  by_select = counted_select;
  by_set_limit = λ x w. refl;
  by_set_burst = λ b w. refl;
  by_set_limit_at = λ now x w. refl;
  by_set_burst_at = λ now b w. refl;
}

ramp_up-Climbed_example :
    (v : Paced) × (ramp_up hundredths paced_limiter sample_ticker 40 at_rest ≡ returned v)
    × Climbed paced_limiter hundredths 2000 (pos 40) v
ramp_up-Climbed_example =
    ramp_up-Climbed hundredths paced_limiter sample_ticker sample_setters sample_tickers
      sample-Alone 40 at_rest (omega arith)

ramp_up_returns_iff_example :
    ((v : Paced) × (ramp_up hundredths paced_limiter sample_ticker 40 at_rest ≡ returned v)
      × (v.selects ≤ 0 + ramp_steps))
    ↔ (ramp_steps ≤ 40)
ramp_up_returns_iff_example =
    ramp_up_returns_iff hundredths paced_limiter sample_ticker sample_tickers (λ w. w.selects)
      sample-Counts 40 at_rest

always_ticks :
    (select : Paced → Selection × Paced) (u : Paced)
    → sample_ticker 2 ≡ some select
    → (select u).0 ≢ done
always_ticks select u e =
    subst (λ o. elim o [ none ↦ Unit {0} | some f ↦ (f u).0 ≢ done ]) e (λ k. cc)

ramp_up-AtTarget_example :
    (v : Paced) × (ramp_up hundredths paced_limiter sample_ticker 40 at_rest ≡ returned v)
    × AtTarget paced_limiter hundredths 2000 (pos 40) v
ramp_up-AtTarget_example =
    ramp_up-AtTarget hundredths paced_limiter sample_ticker sample_tickers sample_setters 40 at_rest
      (omega arith) always_ticks

-- A limiter that refuses, because the wait would be too long or because the deadline has passed: the
-- context is the time that is left. The world is the number of observations.
abbrev refusing : Waiter ℕ ℕ
refusing = record {
  wait = λ left w. (
    err (
        if nat_eq left 0
        then record (new_error "context deadline exceeded") { is_deadline_exceeded = true }
        else new_error "would exceed context deadline"),
    w,
  );
  observe = λ name w. suc w;
}

abbrev bare_call : ℕ → String → Exec ℕ String
bare_call left request w = (ok request, w)

abbrev bare_transport : String → Exec ℕ String
bare_transport request w = (ok request, w)

calls-PacedBy_example :
    PacedBy
      (some refusing)
      "s3"
      3
      (bare_call 3 "put")
      0
      (aws_middleware (some refusing) "s3" bare_call 3 "put" 0)
    × PacedBy
        (some refusing)
        "s3"
        4
        (bare_transport "get")
        0
        (round_trip (λ r. 4) (new_round_tripper bare_transport (some refusing) none "s3") "get" 0)
calls-PacedBy_example =
    calls-PacedBy (some refusing) "s3" bare_call bare_transport none (λ r. 4) 3 "put" "get" 0

refused_wait_label_example :
    ((label_of classify_aws_storage_error (aws_middleware (some refusing) "s3" bare_call 3 "put" 0)
        ≡ some outcome_timeout)
      ↔ (false ≡ true))
    × ((label_of classify_akamai_storage_error
            (aws_middleware (some refusing) "s3" bare_call 3 "put" 0)
          ≡ some outcome_timeout)
        ↔ (false ≡ true))
refused_wait_label_example =
    refused_wait_label refusing "s3" bare_call 3 "put" 0 (new_error "would exceed context deadline")
      refl refl

abbrev sample_environment : Environment ℕ
sample_environment = record {
  getenv = λ name.
      if name == "AWS_S3_RATE_LIMIT_QPS"
      then "fast"
      else if name == "AWS_S3_RATE_LIMIT_BURST"
      then "-3"
      else "";
  parse_float = λ v. none;
  atoi = λ v. some (negsuc 2);
  parse_duration = λ v. none;
}

abbrev sample_library : RateLibrary ℕ (ℕ × ℤ)
sample_library = record { new_rate_limiter = λ q b. (q, b); limit = λ l. l.0; burst = λ l. l.1 }

sample_laws : RateLaws hundredths sample_library
sample_laws = record { limit-new = λ q b. refl; burst-new = λ q b. refl; one_positive = refl }

settings-IsUsable_example :
    All
      (IsUsable hundredths sample_library sample_laws)
      (ramped true (settings sample_environment hundredths sample_library).limiters)
    × IsPositive (
        resolve_max_concurrent_reconciles
          (settings sample_environment hundredths sample_library).max_concurrent_reconciles)
    × IsPositive (
        resolve_storage_resync_interval
          (settings sample_environment hundredths sample_library).storage_resync_interval)
    × (ramp_steps ≤ rate_limit_ramp_duration)
settings-IsUsable_example =
    settings-IsUsable hundredths sample_library sample_laws sample_environment
