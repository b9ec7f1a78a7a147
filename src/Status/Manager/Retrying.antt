-- ===== src/Status/Manager/Retrying.antt =====
-- What a status update of internal/controller/status/manager.go has sent, whatever conflicts it met.
use forge_operator.Prelude.{
  ℕ, true, List, ◌≡◌, refl, Exec, Result, ok, err, is_ok, Error, arith, Result-cases, Bool-cases,
  inl, inr, sym, subst,
}
use forge_operator.Api.{Application, Condition}
use forge_operator.Status.Manager.{Held, Tools, updated, update_once, update_status, with_observed}

-- retry.RetryOnConflict(backoff, f): it calls f again after a conflict, in the state that the call
-- left, unless the backoff is used up, and gives what the last call gave.
pub data Retried {S : Type 0} (f : Exec S (Unit {0})) : S → Result (Unit {0}) → S → Type 0 where
  last : {s s' : S} {r : Result (Unit {0})} → f s ≡ (r, s') → Retried f s r s'
  again :
      {s s' t : S} {r : Result (Unit {0})} {e : Error}
      → f s ≡ (err e, s')
      → e.is_conflict ≡ true
      → Retried f s' r t
      → Retried f s r t

abbrev pub Retries : {W : Type 0} → Tools W → Type 0
Retries {W} x =
    (f : Exec (Held W) (Unit {0})) (s : Held W)
    → Retried f s (x.retry_on_conflict f s).0 (x.retry_on_conflict f s).1

module _ {W : Type 0} (x : Tools W) where
  -- The Application carries these conditions and this generation.
  abbrev pub Carries : List Condition → ℕ → Application → Type 0
  Carries cs g app = (app.status.conditions ≡ cs) × (app.status.observed_generation ≡ g)

  -- The API server took an Application with these conditions and this generation, and what it
  -- answered, and the world that this left, are what the caller holds.
  abbrev pub WasSent : List Condition → ℕ → Held W → Type 0
  WasSent cs g t =
      (sent : Application) × (w : W) × (x.client.update_status sent w ≡ (ok t.0, t.1))
      × Carries cs g sent

  refused_step :
      (cs : List Condition) (g : ℕ) (s : Held W) (e : Error)
      → (update_once x cs g s).0 ≡ err e
      → Carries cs g s.0
      → Carries cs g (update_once x cs g s).1.0
  unfolding update_once
  refused_step cs g (app, w) e h k = elim (Result-cases (x.client.update_status app w).0) [
    | inl (answer, a) ↦ absurd (ground arith)
    | inr (d, failed) ↦ elim (Bool-cases d.is_conflict) [
      | inl conflict ↦
          elim (Result-cases
            (x.api_reader app.namespace app.name (x.client.update_status app w).1).0) [
              | inl (fresh, got) ↦ ground (arith, failed, conflict, got)
              | inr (f, missed) ↦ ground (arith, failed, conflict, missed)
            ]
      | inr other ↦ ground (arith, failed, other)
    ]
  ]

  accepted :
      (cs : List Condition) (g : ℕ) (app : Application) (p : Result Application × W)
      → is_ok p.0 ≡ true
      → p ≡ (ok (updated x cs g app p).1.0, (updated x cs g app p).1.1)
  accepted cs g app (ok answer, w) h = refl
  accepted cs g app (err e, w) h = absurd (ground arith)

  accepted_step :
      (cs : List Condition) (g : ℕ) (s : Held W)
      → is_ok (update_once x cs g s).0 ≡ true
      → Carries cs g s.0
      → WasSent cs g (update_once x cs g s).1
  unfolding update_once
  accepted_step cs g (app, w) h k = elim (Result-cases (x.client.update_status app w).0) [
    | inl (answer, a) ↦
        (app, w, accepted cs g app (x.client.update_status app w) (ground (arith, a)), k)
    | inr (d, failed) ↦ elim (Bool-cases d.is_conflict) [
      | inl conflict ↦
          elim (Result-cases
            (x.api_reader app.namespace app.name (x.client.update_status app w).1).0) [
              | inl (fresh, got) ↦ absurd (ground (arith, failed, conflict, got))
              | inr (f, missed) ↦ absurd (ground (arith, failed, conflict, missed))
            ]
      | inr other ↦ absurd (ground (arith, failed, other))
    ]
  ]

  Retried-WasSent :
      (cs : List Condition) (g : ℕ) (s : Held W) {t : Held W} {r : Result (Unit {0})}
      → Retried (update_once x cs g) s r t
      → Carries cs g s.0
      → is_ok r ≡ true
      → WasSent cs g t
  Retried-WasSent cs g s (Retried.last e) h k =
      subst (λ p. WasSent cs g p.1) e
        (accepted_step cs g s (subst (λ p. is_ok p.0 ≡ true) (sym e) k) h)
  Retried-WasSent cs g s (Retried.again {s' = u} {e = d} e c rest) h k =
      Retried-WasSent cs g u rest
        (subst (λ p. Carries cs g p.1.0) e (refused_step cs g s d (λ i. (e i).0) h)) k

  -- If the retrying is RetryOnConflict's, an UpdateStatus that succeeds has had the conditions that
  -- it was called with, and the Application's generation, accepted by the API server, however many
  -- conflicts came before; what the caller then holds is the server's answer.
  pub update_status-WasSent :
      Retries x
      → (s : Held W) → is_ok (update_status x s).0 ≡ true
      → WasSent s.0.status.conditions s.0.generation (update_status x s).1
  unfolding update_status
  update_status-WasSent retries (app, w) h =
      Retried-WasSent app.status.conditions app.generation (with_observed app.generation app, w)
        (retries (update_once x app.status.conditions app.generation)
          (with_observed app.generation app, w))
        (refl, refl) h
