-- ===== src/RateLimit/Ramp.antt =====
-- internal/controller/ratelimit/rampup.go: RampUp, which lowers a limiter and raises it again in steps.
use Prim.Native.Nat.{◌/◌}
use forge_operator.Prelude.{ℕ, zero, suc, ℤ, pos, at_least_one, Option, none, some}
use forge_operator.Api.{Time}
use forge_operator.RateLimit.{Floats}

abbrev pub ramp_steps : ℕ
ramp_steps = 20

-- What a select of RampUp finds: the context is done, or the ticker's next time.
pub data Selection : Type 0 where
  done : Selection
  tick : Time → Selection

-- The limiter's methods, and time.Now. While a select waits, others may use the limiter.
pub record Limiter (F : Type 0) (W : Type 0) : Type 0 where
  pub limit : W → F
  pub burst : W → ℤ
  pub set_limit : F → W → W
  pub set_burst : ℤ → W → W
  pub set_limit_at : Time → F → W → W
  pub set_burst_at : Time → ℤ → W → W
  pub now : W → Time

-- time.NewTicker, by the duration in nanoseconds, with the select on its channel and on ctx.Done();
-- none where it panics
abbrev pub NewTicker : Type 0 → Type 0
NewTicker W = ℕ → Option (W → Selection × W)

-- RampUp returns, or panics; both leave what was set before.
pub data Outcome (W : Type 0) : Type 0 where
  returned : W → Outcome W
  panicked : W → Outcome W

module _ {F : Type 0} {W : Type 0} (floats : Floats F) (limiter : Limiter F W) where
  -- rampStartFraction + (1-rampStartFraction)*float64(i)/float64(rampSteps)
  abbrev pub fraction : ℕ → F
  fraction i = floats.add floats.tenth (
      floats.divide (floats.multiply floats.rest (floats.from_int (pos i)))
        (floats.from_int (pos ramp_steps)))

  -- max(1, int(float64(targetBurst)*fraction))
  abbrev pub scaled_burst : ℤ → F → ℤ
  scaled_burst target part =
      at_least_one (floats.to_int (floats.multiply (floats.from_int target) part))

  abbrev pub lowered : F → ℤ → W → W
  lowered target_limit target_burst w =
      limiter.set_burst (scaled_burst target_burst floats.tenth)
        (limiter.set_limit (floats.multiply target_limit floats.tenth) w)

  -- the body of the loop after a tick
  abbrev pub raised : F → ℤ → ℕ → Time → W → W
  raised target_limit target_burst i now w =
      limiter.set_burst_at now (scaled_burst target_burst (fraction i))
        (limiter.set_limit_at now (floats.multiply target_limit (fraction i)) w)

  -- the settings after the loop
  abbrev pub restored : F → ℤ → W → W
  restored target_limit target_burst w =
      limiter.set_burst_at (limiter.now w) target_burst
        (limiter.set_limit_at (limiter.now w) target_limit w)

  -- The loop with the turns that are left and the index, and what follows it; the context ends it.
  unfoldable pub climb : (W → Selection × W) → F → ℤ → ℕ → ℕ → W → W
  climb select target_limit target_burst zero i w = restored target_limit target_burst w
  climb select target_limit target_burst (suc turns) i w =
      let (selection, v) = select w in
      elim selection [
        | done ↦ v
        | tick now ↦
            climb select target_limit target_burst turns (suc i)
              (raised target_limit target_burst i now v)
      ]

  abbrev pub climb_with : Option (W → Selection × W) → F → ℤ → W → Outcome W
  climb_with none target_limit target_burst w = panicked w
  climb_with (some select) target_limit target_burst w =
      returned (climb select target_limit target_burst ramp_steps 1 w)

  unfoldable pub ramp_up : NewTicker W → ℕ → W → Outcome W
  ramp_up new_ticker ramp_duration w =
      climb_with (new_ticker (ramp_duration / ramp_steps)) (limiter.limit w) (limiter.burst w)
        (lowered (limiter.limit w) (limiter.burst w) w)
