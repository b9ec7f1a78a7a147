-- ===== src/Controller/Keeping.antt =====
-- What a run of fallible code leaves of the world when it is retried: the helpers of internal/controller
-- that the proofs on its control flow share.
use forge_operator.Prelude.{◌≡◌, sym, ap, ◌∙◌, Exec, Result, Keeps}
use forge_operator.Status.Manager.{Held}
use forge_operator.Status.Manager.Retrying.{Retried}
use forge_operator.Controller.Session.{Reconciler}

-- retry.RetryOnConflict does what it documents.
abbrev pub RetriesStatus : {W : Type 0} → Reconciler W → Type 0
RetriesStatus {W} r =
    (f : Exec (Held W) (Unit {0})) (s : Held W)
    → Retried f s (r.retry_on_conflict f s).0 (r.retry_on_conflict f s).1

module _ {S : Type 0} {O : Type 0} (see : S → O) where
  pub Keeps-Retried :
      (f : Exec S (Unit {0}))
      → ((s : S) → Keeps see f s)
      → (s : S) {t : S} {q : Result (Unit {0})} → Retried f s q t
      → see t ≡ see s
  Keeps-Retried f h s (Retried.last e) = sym (ap (λ p. see p.1) e) ∙ h s
  Keeps-Retried f h s (Retried.again {s' = u} e c rest) =
      Keeps-Retried f h u rest ∙ (sym (ap (λ p. see p.1) e) ∙ h s)
