-- ===== src/S3/Cleanup/Batches.antt =====
-- The chunks in which deleteAllObjectVersions of internal/controller/s3/cleanup.go deletes objects.
use forge_operator.Prelude.{
  ℕ, zero, suc, ◌≤◌, ◌<◌, List, [], ◌∷◌, ◌++◌, ◌≡◌, refl, ap, length, take, drop, All,
  take-append-drop, length-drop, arith,
}
use forge_operator.S3.Cleanup.{batches_from, batches}

module _ {A : Type 0} where
  abbrev pub concatenation : List (List A) → List A
  concatenation [] = []
  concatenation (xs ∷ xss) = xs ++ concatenation xss

  -- What DeleteObjects takes.
  abbrev pub IsBatch : List A → Type 0
  IsBatch b = (0 < length b) × (length b ≤ 1000)

  length-take : (n : ℕ) (xs : List A) → (length (take n xs) ≤ n) × (length (take n xs) ≤ length xs)
  length-take zero xs = omega arith
  length-take (suc n) [] = omega arith
  length-take (suc n) (x ∷ xs) =
      let (a, b) = length-take n xs in (omega (arith, a), omega (arith, b))

  batches_from_all :
      (fuel : ℕ) (xs : List A) → length xs ≤ fuel → concatenation (batches_from fuel xs) ≡ xs
  unfolding batches_from
  batches_from_all zero [] h = refl
  batches_from_all zero (x ∷ xs) h = absurd (omega (arith, h))
  batches_from_all (suc fuel) [] h = refl
  batches_from_all (suc fuel) (x ∷ xs) h =
      let rest = batches_from_all fuel (drop 999 xs) (omega (arith, h, length-drop 999 xs)) in
      rw rest (ap (λ ys. x ∷ ys) (take-append-drop 999 xs))

  batches_from-IsBatch : (fuel : ℕ) (xs : List A) → All IsBatch (batches_from fuel xs)
  unfolding batches_from
  batches_from-IsBatch zero xs = tt
  batches_from-IsBatch (suc fuel) [] = tt
  batches_from-IsBatch (suc fuel) (x ∷ xs) = (
    (omega arith, omega (arith, (length-take 999 xs).0)),
    batches_from-IsBatch fuel (drop 999 xs),
  )

  -- The batches of a list of objects are the list, cut into pieces of one to 1000 objects.
  pub batches_lem : (xs : List A) → All IsBatch (batches xs) × (concatenation (batches xs) ≡ xs)
  unfolding batches
  batches_lem xs =
      (batches_from-IsBatch (length xs) xs, batches_from_all (length xs) xs (omega arith))
