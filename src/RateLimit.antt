-- ===== src/RateLimit.antt =====
-- internal/controller/ratelimit/ratelimit.go: the token buckets that pace the calls to AWS and
-- Akamai. The bucket itself is golang.org/x/time/rate's, a parameter. Children: Ramp (rampup.go),
-- Levels (the settings that a ramp goes through), Waiting (a call and its wait).
pub mod Ramp
pub mod Levels
pub mod Ends
pub mod Waiting
use forge_operator.Prelude.{
  ℤ, pos, is_positive, String, Bool, Option, none, some, Exec, Result, ok, err, wrap, if◌then◌else◌,
}

-- The type float64: what the code does with its values. `tenth` is the constant rampStartFraction and
-- `rest` the constant 1-rampStartFraction.
pub record Floats (F : Type 0) : Type 0 where
  pub is_at_most_zero : F → Bool
  pub one : F
  pub tenth : F
  pub rest : F
  pub add : F → F → F
  pub multiply : F → F → F
  pub divide : F → F → F
  pub from_int : ℤ → F
  pub to_int : F → ℤ

-- rate.NewLimiter, over the floats F, with limits and bursts as they are read from a new limiter
pub record RateLibrary (F : Type 0) (L : Type 0) : Type 0 where
  pub new_rate_limiter : F → ℤ → L
  pub limit : L → F
  pub burst : L → ℤ

module _ {F : Type 0} {L : Type 0} (floats : Floats F) (library : RateLibrary F L) where
  unfoldable pub new_limiter : F → ℤ → L
  new_limiter qps burst =
      library.new_rate_limiter (if floats.is_at_most_zero qps then floats.one else qps)
        (if is_positive burst then burst else pos 1)

-- A limiter as a call meets it: Wait, in a context, and the observation of
-- RateLimitWaitDuration under a name.
pub record Waiter (C : Type 0) (W : Type 0) : Type 0 where
  pub wait : C → Exec W (Unit {0})
  pub observe : String → W → W

module _ {W : Type 0} {A : Type 0} where
  abbrev pub after_wait : Result (Unit {0}) → Exec W A → Exec W A
  after_wait (ok u) next w = next w
  after_wait (err e) next w = (err (wrap "rate limit wait: " e ""), w)

module _ {C : Type 0} {W : Type 0} where
  -- limiter.Wait and the observation, whatever Wait gives
  abbrev pub waited : Waiter C W → String → C → Exec W (Unit {0})
  waited limiter name context w = let (r, v) = limiter.wait context w in (r, limiter.observe name v)

  module _ {A : Type 0} where
    -- the wait, where there is a limiter, and what it lets through; none is a nil limiter
    abbrev pub paced : Option (Waiter C W) → String → C → Exec W A → Exec W A
    paced none name context next w = next w
    paced (some limiter) name context next w =
        let (r, v) = waited limiter name context w in after_wait r next v

    -- the handler of AWSMiddleware, with the rest of the stack
    unfoldable pub aws_middleware :
        {I : Type 0} → Option (Waiter C W) → String → (C → I → Exec W A) → C → I → Exec W A
    aws_middleware limiter name next context input = paced limiter name context (next context input)

-- RoundTripper, for requests R and responses P
pub record RoundTripper (C R P W : Type 0) : Type 0 where
  pub limiter : Option (Waiter C W)
  pub next : R → Exec W P
  pub name : String

module _ {C R P W : Type 0} where
  -- With http.DefaultTransport; a nil `next` is none.
  unfoldable pub new_round_tripper :
      (R → Exec W P) → Option (Waiter C W) → Option (R → Exec W P) → String → RoundTripper C R P W
  new_round_tripper default_transport limiter next name = record {
    limiter = limiter;
    next = elim next [ none ↦ default_transport | some transport ↦ transport ];
    name = name;
  }

  -- RoundTrip, with req.Context()
  unfoldable pub round_trip : (R → C) → RoundTripper C R P W → R → Exec W P
  round_trip context rt request = paced rt.limiter rt.name (context request) (rt.next request)
