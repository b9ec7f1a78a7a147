-- ===== src/RateLimit/Waiting.antt =====
-- A call of AWSMiddleware or RoundTripper of internal/controller/ratelimit/ratelimit.go and its wait, and
-- how internal/controller/errorclass.go labels a wait that fails.
use forge_operator.Prelude.{
  String, true, false, Option, none, some, Exec, Result, ok, err, Error, new_error, wrap, is_ok,
  ◌≡◌, ◌≢◌, refl, eq_iff, ◌⊎◌, inl, inr, ◌↔◌, arith, Result-cases,
}
use forge_operator.RateLimit.{Waiter, paced, aws_middleware, new_round_tripper, round_trip}
use forge_operator.ErrorClass.{
  classify_aws_storage_error, classify_akamai_storage_error, outcome_timeout, outcome_other,
}

module _ {C A W : Type 0} where
  -- The outcome of a call through AWSMiddleware: without a limiter it is that of the handler behind
  -- it; with one it is the handler's in the world after the wait and its observation, if the wait
  -- succeeds, and else the handler is not called and the wait's error comes back under a prefix.
  abbrev pub PacedBy : Option (Waiter C W) → String → C → Exec W A → W → Result A × W → Type 0
  PacedBy none name context next w r = r ≡ next w
  PacedBy (some limiter) name context next w r =
      ((is_ok (limiter.wait context w).0 ≡ true)
        × (r ≡ next (limiter.observe name (limiter.wait context w).1)))
      ⊎ ((e : Error) × ((limiter.wait context w).0 ≡ err e)
          × (r ≡ (
            err (wrap "rate limit wait: " e ""),
            limiter.observe name (limiter.wait context w).1,
          )))

  pub paced-PacedBy :
      (limiter : Option (Waiter C W)) (name : String) (context : C) (next : Exec W A) (w : W)
      → PacedBy limiter name context next w (paced limiter name context next w)
  paced-PacedBy none name context next w = refl
  paced-PacedBy (some limiter) name context next w =
      elim (Result-cases (limiter.wait context w).0) [
        | inl (_, given) ↦ rw given (inl (refl, refl))
        | inr (e, refused) ↦ rw refused (inr (e, refl, refl))
      ]

-- A call through AWSMiddleware and a request through a RoundTripper are paced alike: without a limiter
-- the handler or the transport behind it has its outcome; with one it has it in the world that the wait
-- and its observation leave, if the wait succeeds; and if the wait fails, nothing behind it is called,
-- and the wait's error comes back under a prefix. The transport is http.DefaultTransport where none was
-- given.
pub calls-PacedBy :
    {C I A R P W : Type 0} (limiter : Option (Waiter C W)) (name : String)
    (handler : C → I → Exec W A) (default_transport : R → Exec W P)
    (transport : Option (R → Exec W P)) (context_of : R → C) (context : C) (input : I) (request : R)
    (w : W)
    → PacedBy limiter name context
        (handler context input)
        w
        (aws_middleware limiter name handler context input w)
      × PacedBy limiter name
          (context_of request)
          (elim transport [ none ↦ default_transport request | some t ↦ t request ])
          w
          (round_trip context_of
            (new_round_tripper default_transport limiter transport name)
            request
            w)
unfolding aws_middleware round_trip new_round_tripper
calls-PacedBy limiter name handler default_transport none context_of context input request w =
    (paced-PacedBy _ _ _ _ w, paced-PacedBy _ _ _ _ w)
calls-PacedBy limiter name handler default_transport (some t) context_of context input request w =
    (paced-PacedBy _ _ _ _ w, paced-PacedBy _ _ _ _ w)

-- The label that a failed call gets by a classification.
abbrev pub label_of : {A W : Type 0} → (Error → String) → Result A × W → Option String
label_of classify (ok a, w) = none
label_of classify (err e, w) = some (classify e)

-- The error's only observation, beside its text, is whether it is context.DeadlineExceeded.
abbrev pub IsBare : Error → Type 0
IsBare e = e ≡ record (new_error e.text) { is_deadline_exceeded = e.is_deadline_exceeded }

IsBare-observations :
    (e : Error)
    → IsBare e
    → (e.is_bucket_not_owned ≡ false)
      × (e.is_akamai_not_owned ≡ false)
      × (e.as_response_error ≡ none)
      × (e.as_api_error ≡ none)
      × (e.as_linode_error ≡ none)
IsBare-observations e h = (
  (λ i. (h i).is_bucket_not_owned),
  (λ i. (h i).is_akamai_not_owned),
  (λ i. (h i).as_response_error),
  (λ i. (h i).as_api_error),
  (λ i. (h i).as_linode_error),
)

other_label : ◌≢◌ {A = Option String} (some outcome_other) (some outcome_timeout)
other_label = ground (arith, eq_iff outcome_other outcome_timeout)

aws_label :
    (e : Error)
    → IsBare e
    → (◌≡◌ {A = Option String} (some (classify_aws_storage_error e)) (some outcome_timeout))
      ↔ (e.is_deadline_exceeded ≡ true)
unfolding classify_aws_storage_error
aws_label e h = ground (arith, IsBare-observations e h, other_label)

akamai_label :
    (e : Error)
    → IsBare e
    → (◌≡◌ {A = Option String} (some (classify_akamai_storage_error e)) (some outcome_timeout))
      ↔ (e.is_deadline_exceeded ≡ true)
unfolding classify_akamai_storage_error
akamai_label e h = ground (arith, IsBare-observations e h, other_label)

-- If the wait fails with an error of which nothing can be observed, beside its text, but whether
-- it is context.DeadlineExceeded, then a call through AWSMiddleware is labelled timeout, by both
-- classifications, exactly if it is context.DeadlineExceeded.
pub refused_wait_label :
    {C I A W : Type 0} (limiter : Waiter C W) (name : String) (handler : C → I → Exec W A)
    (context : C) (input : I) (w : W) (e : Error)
    → (limiter.wait context w).0 ≡ err e
    → IsBare e
    → ((label_of classify_aws_storage_error
            (aws_middleware (some limiter) name handler context input w)
          ≡ some outcome_timeout)
        ↔ (e.is_deadline_exceeded ≡ true))
      × ((label_of classify_akamai_storage_error
              (aws_middleware (some limiter) name handler context input w)
            ≡ some outcome_timeout)
          ↔ (e.is_deadline_exceeded ≡ true))
unfolding aws_middleware classify_aws_storage_error classify_akamai_storage_error
refused_wait_label limiter name handler context input w e refused plain =
    rw refused (aws_label e plain, akamai_label e plain)
