-- ===== src/Prelude/Actions.antt =====
-- Code that reads and writes a state and may fail: what was written before a failure stays
-- written, so the state comes back beside the error too.
use forge_operator.Prelude.Errors.{Error, Result, ok, err}

-- `if err != nil { return f(err) }`
abbrev pub reword {ℓ} : {A : Type ℓ} → (Error → Error) → Result A → Result A
reword f (ok a) = ok a
reword f (err e) = err (f e)

abbrev pub Exec {ℓ} : Type 0 → Type ℓ → Type ℓ
Exec S A = S → Result A × S

module _ {ℓ} {S : Type 0} {A : Type ℓ} where
  abbrev pub pure : A → Exec S A
  pure a s = (ok a, s)

  -- return an error
  abbrev pub fail : Error → Exec S A
  fail e s = (err e, s)

module _ {ℓ κ} {S : Type 0} {A : Type ℓ} {B : Type κ} where
  abbrev pub continue : Result A → (A → Exec S B) → Exec S B
  continue (ok a) f s = f a s
  continue (err e) f s = (err e, s)

  -- `x, err := m; if err != nil { return err }`, then the rest
  infixl 5 ◌>>=◌
  abbrev pub ◌>>=◌ : Exec S A → (A → Exec S B) → Exec S B
  ◌>>=◌ m f s = let (r, s') = m s in continue r f s'

  infixl 5 ◌>>◌
  abbrev pub ◌>>◌ : Exec S A → Exec S B → Exec S B
  m >> n = m >>= λ _. n

module _ {ℓ} {S : Type 0} {A : Type ℓ} where
  -- `x, err := m`, where the code looks at err itself
  abbrev pub try : Exec S A → Exec S (Result A)
  try m s = let (r, s') = m s in (ok r, s')

  -- `if err := m; err != nil { return f(err) }`
  abbrev pub mapping_error : (Error → Error) → Exec S A → Exec S A
  mapping_error f m s = let (r, s') = m s in (reword f r, s')
