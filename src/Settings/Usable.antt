-- ===== src/Settings/Usable.antt =====
-- Whatever the environment variables say, cmd/main.go starts the operator with limits that let calls
-- through and with intervals that are not empty.
use forge_operator.Prelude.{
  ◌≤◌, ℤ, pos, is_positive, if◌then◌else◌, IsPositive, IsPositive-iff, true, false, ◌≡◌, All, arith,
}
use forge_operator.RateLimit.{Floats, RateLibrary, new_limiter}
use forge_operator.RateLimit.Ramp.{ramp_steps}
use forge_operator.Controller.Loop.Settled.{resolve_storage_resync_interval-IsPositive}
use forge_operator.Controller.Loop.{
  resolve_max_concurrent_reconciles, resolve_storage_resync_interval,
}
use forge_operator.Settings.{Environment, limiters, settings, ramped, rate_limit_ramp_duration}

-- A new limiter has the limit and the burst that it was made with, and one is more than zero.
pub record RateLaws {F : Type 0} {L : Type 0} (floats : Floats F) (library : RateLibrary F L)
    : Type 0 where
  pub limit-new : (q : F) (b : ℤ) → library.limit (library.new_rate_limiter q b) ≡ q
  pub burst-new : (q : F) (b : ℤ) → library.burst (library.new_rate_limiter q b) ≡ b
  pub one_positive : floats.is_at_most_zero floats.one ≡ false

module _ {F : Type 0} {L : Type 0} (floats : Floats F) (library : RateLibrary F L)
    (laws : RateLaws floats library) where
  -- The limit is not at most zero and the burst at least one.
  abbrev pub IsUsable : L → Type 0
  IsUsable l = (floats.is_at_most_zero (library.limit l) ≡ false) × IsPositive (library.burst l)

  new_limiter-IsUsable : (qps : F) (burst : ℤ) → IsUsable (new_limiter floats library qps burst)
  unfolding new_limiter
  new_limiter-IsUsable qps burst =
      let q = if floats.is_at_most_zero qps then floats.one else qps in
      let b = if is_positive burst then burst else pos 1 in
      ground
        (arith, laws.limit-new q b, laws.burst-new q b, laws.one_positive, IsPositive-iff burst)

  resolved_reconciles : (n : ℤ) → IsPositive (resolve_max_concurrent_reconciles n)
  unfolding resolve_max_concurrent_reconciles
  resolved_reconciles n = ground (arith, IsPositive-iff n)

  -- If a new limiter has the limit and the burst that it was made with, and one is more than zero, then in
  -- every environment each of the four limiters that are ramped up after the election has a limit that
  -- is not at most zero and a burst of at least one; at least one Application is reconciled at a time;
  -- the interval of the resync is at least a nanosecond; and the ramp is as long as RampUp needs.
  pub settings-IsUsable :
      (environment : Environment F)
      → All IsUsable (ramped true (settings environment floats library).limiters)
        × IsPositive (
            resolve_max_concurrent_reconciles
              (settings environment floats library).max_concurrent_reconciles)
        × IsPositive (
            resolve_storage_resync_interval
              (settings environment floats library).storage_resync_interval)
        × (ramp_steps ≤ rate_limit_ramp_duration)
  unfolding settings limiters ramped
  settings-IsUsable environment = (
    (
      new_limiter-IsUsable _ _,
      (new_limiter-IsUsable _ _, (new_limiter-IsUsable _ _, (new_limiter-IsUsable _ _, tt))),
    ),
    resolved_reconciles _,
    resolve_storage_resync_interval-IsPositive _,
    omega arith,
  )
