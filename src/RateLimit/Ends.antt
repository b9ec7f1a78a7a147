-- ===== src/RateLimit/Ends.antt =====
-- RampUp of internal/controller/ratelimit/rampup.go ends: after how many selects, and where, if its
-- context does not end.
use Prim.Native.Nat.{◌/◌}
use forge_operator.Prelude.{
  ℕ, zero, suc, ◌+◌, ◌≤◌, ℤ, none, some, ◌≡◌, ◌≢◌, inl, inr, ◌↔◌, ap, ◌∙◌, arith,
}
use native.Mathlib.Decide.{dec_le}
use forge_operator.Api.{Time}
use forge_operator.RateLimit.{Floats}
use forge_operator.RateLimit.Ramp.{
  ramp_steps, Selection, done, Limiter, NewTicker, returned, lowered, raised, restored, climb,
  ramp_up,
}
use forge_operator.RateLimit.Levels.{
  Selection-cases, Setters, Tickers, AtTarget, restored-AtTarget, ramp_up-climbs, step_positive,
}

module _ {F : Type 0} {W : Type 0} (floats : Floats F) (limiter : Limiter F W)
    (new_ticker : NewTicker W) (tickers : Tickers limiter new_ticker) where
  -- How many selects were made: each makes one more, and setting the limiter none.
  pub record Counts (selects : W → ℕ) : Type 0 where
    pub by_select :
        (d : ℕ) (select : W → Selection × W)
        → new_ticker d ≡ some select
        → (w : W) → selects (select w).1 ≡ suc (selects w)
    pub by_set_limit : (x : F) (w : W) → selects (limiter.set_limit x w) ≡ selects w
    pub by_set_burst : (b : ℤ) (w : W) → selects (limiter.set_burst b w) ≡ selects w
    pub by_set_limit_at :
        (now : Time) (x : F) (w : W) → selects (limiter.set_limit_at now x w) ≡ selects w
    pub by_set_burst_at :
        (now : Time) (b : ℤ) (w : W) → selects (limiter.set_burst_at now b w) ≡ selects w

  module _ (selects : W → ℕ) (counts : Counts selects) where
    restored-selects :
        (limit : F) (burst : ℤ) (w : W)
        → selects (restored floats limiter limit burst w) ≡ selects w
    restored-selects limit burst w =
        counts.by_set_burst_at (limiter.now w) burst _
        ∙ counts.by_set_limit_at (limiter.now w) limit w

    raised-selects :
        (limit : F) (burst : ℤ) (i : ℕ) (now : Time) (w : W)
        → selects (raised floats limiter limit burst i now w) ≡ selects w
    raised-selects limit burst i now w =
        counts.by_set_burst_at now _ _ ∙ counts.by_set_limit_at now _ w

    lowered-selects :
        (limit : F) (burst : ℤ) (w : W) → selects (lowered floats limiter limit burst w) ≡ selects w
    lowered-selects limit burst w = counts.by_set_burst _ _ ∙ counts.by_set_limit _ w

    climb-selects :
        (d : ℕ) (select : W → Selection × W)
        → new_ticker d ≡ some select
        → (limit : F) (burst : ℤ) (turns i : ℕ) (w : W)
        → selects (climb floats limiter select limit burst turns i w) ≤ selects w + turns
    unfolding climb
    climb-selects d select e limit burst zero i w = omega (arith, restored-selects limit burst w)
    climb-selects d select e limit burst (suc turns) i w = elim (Selection-cases (select w).0) [
      | inl ended ↦ rw (climb, ended) (omega (arith, counts.by_select d select e w))
      | inr (now, ticked) ↦
          let next = raised floats limiter limit burst i now (select w).1 in
          let ends = climb-selects d select e limit burst turns (suc i) next in
          let same = raised-selects limit burst i now (select w).1 in
          let one = counts.by_select d select e w in
          rw (climb, ticked) (omega (arith, ends, same, one))
    ]

    ramp_up_long :
        (d : ℕ) (w v : W) → ramp_up floats limiter new_ticker d w ≡ returned v → ramp_steps ≤ d
    unfolding ramp_up
    ramp_up_long d w v e = elim (dec_le ramp_steps d) [
      | yes h ↦ h
      | no h ↦
          let short : d / ramp_steps ≡ 0 = omega arith in
          let none_made : new_ticker (d / ramp_steps) ≡ none =
            ap new_ticker short ∙ tickers.no_ticker in
          absurd (cc)
    ]

    -- If NewTicker panics exactly on the duration 0, and only selects are counted, then RampUp
    -- returns, after at most twenty selects, exactly if its duration is at least twenty
    -- nanoseconds.
    pub ramp_up_returns_iff :
        (d : ℕ) (w : W)
        → ((v : W) × (ramp_up floats limiter new_ticker d w ≡ returned v)
            × (selects v ≤ selects w + ramp_steps))
          ↔ (ramp_steps ≤ d)
    ramp_up_returns_iff d w = (
      (λ (v, e, _). ramp_up_long d w v e),
      (λ h.
          let (select, e) = tickers.ticker (d / ramp_steps) (step_positive d h) in
          let low = lowered floats limiter (limiter.limit w) (limiter.burst w) w in
          let ends =
            climb-selects (d / ramp_steps) select e (limiter.limit w) (limiter.burst w) ramp_steps 1
              low in
          (
            _,
            ramp_up-climbs floats limiter new_ticker d w select e,
            omega (arith, ends, lowered-selects (limiter.limit w) (limiter.burst w) w),
          )),
    )

  climb-AtTarget :
      (setters : Setters limiter) (select : W → Selection × W)
      → ((w : W) → (select w).0 ≢ done)
      → (limit : F) (burst : ℤ) (turns i : ℕ) (w : W)
      → AtTarget limiter floats limit burst (climb floats limiter select limit burst turns i w)
  unfolding climb
  climb-AtTarget setters select alive limit burst zero i w =
      restored-AtTarget limiter floats limit burst setters w
  climb-AtTarget setters select alive limit burst (suc turns) i w =
      elim (Selection-cases (select w).0) [
        | inl ended ↦ absurd (alive w ended)
        | inr (now, ticked) ↦
            rw (climb, ticked) (climb-AtTarget setters select alive limit burst turns (suc i) _)
      ]

  -- If a limiter reads as it was set, NewTicker panics exactly on the duration 0, and no select of
  -- the ticker finds the context done, then RampUp over at least twenty nanoseconds
  -- returns, and the limiter has the limit and the burst that it had before.
  pub ramp_up-AtTarget :
      (setters : Setters limiter) (d : ℕ) (w : W)
      → ramp_steps ≤ d
      → ((select : W → Selection × W) (u : W)
          → new_ticker (d / ramp_steps) ≡ some select
          → (select u).0 ≢ done)
      → (v : W) × (ramp_up floats limiter new_ticker d w ≡ returned v)
        × AtTarget limiter floats (limiter.limit w) (limiter.burst w) v
  ramp_up-AtTarget setters d w h alive =
      let (select, e) = tickers.ticker (d / ramp_steps) (step_positive d h) in
      (
        _,
        ramp_up-climbs floats limiter new_ticker d w select e,
        climb-AtTarget setters select (λ u. alive select u e) (limiter.limit w) (limiter.burst w)
            ramp_steps 1 (lowered floats limiter (limiter.limit w) (limiter.burst w) w),
      )
