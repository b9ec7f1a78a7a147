-- ===== src/Prelude/Keeping.antt =====
-- What a run of fallible code leaves of its state as it was.
use mathlib.Core.Path.{◌≡◌, sym, subst, ◌∙◌}
use mathlib.Core.Logic.{inl, inr}
use forge_operator.Prelude.Errors.{ok, Result-cases}
use forge_operator.Prelude.Actions.{Exec, ◌>>=◌, continue}

module _ {S : Type 0} {O : Type 0} (see : S → O) where
  -- The code changes nothing of what is seen, started in `s`.
  abbrev pub Keeps : {A : Type 0} → Exec S A → S → Type 0
  Keeps m s = see (m s).1 ≡ see s

  pub Keeps-bind :
      {A B : Type 0} (m : Exec S A) (f : A → Exec S B) (s : S)
      → Keeps m s
      → ((a : A) → (m s).0 ≡ ok a → Keeps (f a) (m s).1)
      → Keeps (m >>= f) s
  Keeps-bind m f s h k = elim (Result-cases (m s).0) [
    | inl (a, e) ↦ subst (λ q. see (continue q f (m s).1).1 ≡ see s) (sym e) (k a e ∙ h)
    | inr (d, e) ↦ subst (λ q. see (continue q f (m s).1).1 ≡ see s) (sym e) h
  ]
