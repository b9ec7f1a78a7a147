-- ===== src/RateLimit/Levels.antt =====
-- The settings that RampUp of internal/controller/ratelimit/rampup.go goes through.
use Prim.Native.Nat.{◌/◌}
use forge_operator.Prelude.{
  ℕ, zero, suc, ◌+◌, ◌≤◌, ◌<◌, ℤ, pos, at_least_one, IsPositive, IsPositive-iff, none, some, ◌≡◌,
  ◌⊎◌, inl, inr, refl, ◌∙◌, arith,
}
use forge_operator.Api.{Time}
use forge_operator.RateLimit.{Floats}
use forge_operator.RateLimit.Ramp.{
  ramp_steps, Selection, done, tick, Limiter, NewTicker, returned, lowered, raised, restored, climb,
  ramp_up,
}

pub Selection-cases : (s : Selection) → (s ≡ done) ⊎ ((now : Time) × (s ≡ tick now))
Selection-cases done = inl refl
Selection-cases (tick now) = inr (now, refl)

-- The integer, or one where it is not positive.
abbrev pub AtLeastOne : ℤ → ℤ → Type 0
AtLeastOne raw b = (IsPositive raw × (b ≡ raw)) ⊎ ((¬ (IsPositive raw)) × (b ≡ pos 1))

AtLeastOne-set : (raw b : ℤ) → b ≡ at_least_one raw → AtLeastOne raw b
AtLeastOne-set raw b e = ground (arith, e, IsPositive-iff raw)

module _ {F : Type 0} {W : Type 0} (limiter : Limiter F W) where
  -- What is set is what is read next.
  pub record Setters : Type 0 where
    pub limit-set_limit : (x : F) (w : W) → limiter.limit (limiter.set_limit x w) ≡ x
    pub limit-set_burst : (b : ℤ) (w : W) → limiter.limit (limiter.set_burst b w) ≡ limiter.limit w
    pub burst-set_burst : (b : ℤ) (w : W) → limiter.burst (limiter.set_burst b w) ≡ b
    pub limit-set_limit_at :
        (now : Time) (x : F) (w : W) → limiter.limit (limiter.set_limit_at now x w) ≡ x
    pub limit-set_burst_at :
        (now : Time) (b : ℤ) (w : W)
        → limiter.limit (limiter.set_burst_at now b w) ≡ limiter.limit w
    pub burst-set_burst_at :
        (now : Time) (b : ℤ) (w : W) → limiter.burst (limiter.set_burst_at now b w) ≡ b

  -- While a select waits, nobody else sets the limiter.
  abbrev pub Unset : (W → Selection × W) → Type 0
  Unset select =
      (w : W)
      → (limiter.limit (select w).1 ≡ limiter.limit w)
        × (limiter.burst (select w).1 ≡ limiter.burst w)

  -- NewTicker panics exactly on the duration 0.
  pub record Tickers (new_ticker : NewTicker W) : Type 0 where
    pub no_ticker : new_ticker 0 ≡ none
    pub ticker : (d : ℕ) → 1 ≤ d → (select : W → Selection × W) × (new_ticker d ≡ some select)

  -- Nobody else sets the limiter while one of the ticker's selects waits.
  abbrev pub Alone : NewTicker W → Type 0
  Alone new_ticker =
      (d : ℕ) (select : W → Selection × W) → new_ticker d ≡ some select → Unset select

  module _ (floats : Floats F) (target_limit : F) (target_burst : ℤ) where
    -- after k steps: a tenth, and from the first step on also k twentieths of the rest
    abbrev part : ℕ → F
    part zero = floats.tenth
    part (suc k) = floats.add floats.tenth (
        floats.divide (floats.multiply floats.rest (floats.from_int (pos (suc k))))
          (floats.from_int (pos 20)))

    -- the settings after k of the twenty steps: a part of the target, and a burst of at least one
    abbrev pub AtLevel : ℕ → W → Type 0
    AtLevel k w =
        (limiter.limit w ≡ floats.multiply target_limit (part k))
        × AtLeastOne (floats.to_int (floats.multiply (floats.from_int target_burst) (part k)))
            (limiter.burst w)

    abbrev pub AtTarget : W → Type 0
    AtTarget w = (limiter.limit w ≡ target_limit) × (limiter.burst w ≡ target_burst)

    abbrev pub Climbed : W → Type 0
    Climbed v = AtTarget v ⊎ ((k : ℕ) × (k < 20) × AtLevel k v)

    module _ (setters : Setters) where
      lowered-AtLevel : (w : W) → AtLevel 0 (lowered floats limiter target_limit target_burst w)
      lowered-AtLevel w =
          let set = limiter.set_limit (floats.multiply target_limit floats.tenth) w in
          (
            setters.limit-set_burst _ set ∙ setters.limit-set_limit _ w,
            AtLeastOne-set _ _ (setters.burst-set_burst _ set),
          )

      raised-AtLevel :
          (k : ℕ) (now : Time) (w : W)
          → AtLevel (suc k) (raised floats limiter target_limit target_burst (suc k) now w)
      raised-AtLevel k now w =
          let set = limiter.set_limit_at now (floats.multiply target_limit (part (suc k))) w in
          (
            setters.limit-set_burst_at now _ set ∙ setters.limit-set_limit_at now _ w,
            AtLeastOne-set _ _ (setters.burst-set_burst_at now _ set),
          )

      pub restored-AtTarget :
          (w : W) → AtTarget (restored floats limiter target_limit target_burst w)
      restored-AtTarget w =
          let now = limiter.now w in
          let set = limiter.set_limit_at now target_limit w in
          (
            setters.limit-set_burst_at now _ set ∙ setters.limit-set_limit_at now _ w,
            setters.burst-set_burst_at now _ set,
          )

      climb-Climbed :
          (select : W → Selection × W)
          → Unset select
          → (turns k : ℕ) (w : W) → turns + k ≡ ramp_steps
          → AtLevel k w
          → Climbed (climb floats limiter select target_limit target_burst turns (suc k) w)
      unfolding climb
      climb-Climbed select alone zero k w e h = inl (restored-AtTarget w)
      climb-Climbed select alone (suc turns) k w e h = elim (Selection-cases (select w).0) [
        | inl ended ↦ rw (climb, ended) (inr (k, omega (arith, e), (ground (arith, h, alone w))))
        | inr (now, ticked) ↦
            rw (climb, ticked)
              (climb-Climbed select alone turns (suc k)
                (raised floats limiter target_limit target_burst (suc k) now (select w).1)
                (omega (arith, e)) (raised-AtLevel k now (select w).1))
      ]

pub step_positive : (d : ℕ) → ramp_steps ≤ d → 1 ≤ d / ramp_steps
step_positive d h = omega arith

module _ {F : Type 0} {W : Type 0} (floats : Floats F) (limiter : Limiter F W)
    (new_ticker : NewTicker W) where
  pub ramp_up-climbs :
      (d : ℕ) (w : W) (select : W → Selection × W)
      → new_ticker (d / ramp_steps) ≡ some select
      → ramp_up floats limiter new_ticker d w
        ≡ returned (
            climb floats limiter select
              (limiter.limit w)
              (limiter.burst w)
              ramp_steps
              1
              (lowered floats limiter (limiter.limit w) (limiter.burst w) w))
  unfolding ramp_up
  ramp_up-climbs d w select e = rw e refl

module _ {F : Type 0} {W : Type 0} (floats : Floats F) (limiter : Limiter F W)
    (new_ticker : NewTicker W) (setters : Setters limiter) (tickers : Tickers limiter new_ticker)
    (alone : Alone limiter new_ticker) where
  -- If a limiter reads as it was set, nobody else sets it while a select waits, and NewTicker
  -- panics exactly on the duration 0, then RampUp over at least twenty nanoseconds returns,
  -- whenever the context ends: with the limit and the burst that the limiter had, or, when it was
  -- cut short after k of the twenty steps, with the k-th part of the limit, and that part of the
  -- burst converted to an integer but at least one; the k-th part is a tenth and k twentieths of the
  -- rest.
  pub ramp_up-Climbed :
      (d : ℕ) (w : W)
      → ramp_steps ≤ d
      → (v : W) × (ramp_up floats limiter new_ticker d w ≡ returned v)
        × Climbed limiter floats (limiter.limit w) (limiter.burst w) v
  ramp_up-Climbed d w h =
      let (select, e) = tickers.ticker (d / ramp_steps) (step_positive d h) in
      (
        _,
        ramp_up-climbs floats limiter new_ticker d w select e,
        climb-Climbed limiter floats (limiter.limit w) (limiter.burst w) setters select
            (alone (d / ramp_steps) select e) ramp_steps 0 _ refl
            (lowered-AtLevel limiter floats (limiter.limit w) (limiter.burst w) setters w),
      )
