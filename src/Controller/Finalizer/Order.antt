-- ===== src/Controller/Finalizer/Order.antt =====
-- finalizeApplication of internal/controller/finalizer.go: what comes before a finalization that succeeds.
use forge_operator.Prelude.{
  true, false, none, some, ◌≡◌, refl, subst, Result, ok, err, is_ok, Bool-cases, inl, inr, arith,
  eq_iff, ◌==◌,
}
use forge_operator.Api.{Application, StorageSpec, provider_aws_s3}
use forge_operator.Storage.{is_retained}
use forge_operator.S3.Session.{Session, Env, Manager}
use forge_operator.S3.Connect.{new_s3_manager}
use forge_operator.S3.Ownership.{verify_ownership}
use forge_operator.S3.Cleanup.{cleanup_bucket}
use forge_operator.S3.Cleanup.Guard.{after_role, cleanup_refused}
use forge_operator.Controller.Session.{Reconciler}
use forge_operator.Controller.Accounts.{service_account_name_for}
use forge_operator.Controller.Finalizer.{
  storage_to_clean, with_storage, show_cleanup, clean_aws, delete_storage, finalize_aws,
  finalize_storage, finalize_application,
}

module _ {W : Type 0} (r : Reconciler W) where
  -- the session after the condition that shows the cleanup
  abbrev pub begun : Session W → Session W
  begun s = (show_cleanup r s).1

  -- what NewManager makes for the cleanup
  abbrev pub made : StorageSpec → Session W → Result (Env W × Manager W) × Session W
  made storage s =
      new_s3_manager r.platform r.aws (service_account_name_for (begun s).app) none
        (record (begun s) { app = with_storage storage s.app })

  -- the session in which the cleanup of the bucket starts
  abbrev pub before_cleanup : StorageSpec → Session W → Session W
  before_cleanup storage s = record (made storage s).1 { app = with_storage storage s.app }

  -- The manager was made, the bucket was verified as the Application's, and its cleanup succeeded.
  abbrev pub IsCleaned : StorageSpec → Session W → Type 0
  IsCleaned storage s =
      (env : Env W) × (m : Manager W) × ((made storage s).0 ≡ ok (env, m))
      × (is_ok (verify_ownership env m (after_role env m (before_cleanup storage s))).0 ≡ true)
      × (is_ok (cleanup_bucket env m (before_cleanup storage s)).0.1 ≡ true)

  cleanup_verified :
      (env : Env W) (m : Manager W) (s : Session W)
      → is_ok (cleanup_bucket env m s).0.1 ≡ true
      → is_ok (verify_ownership env m (after_role env m s)).0 ≡ true
  cleanup_verified env m s h =
      elim (Bool-cases (is_ok (verify_ownership env m (after_role env m s)).0)) [
        | inl verified ↦ verified
        | inr unverified ↦
            let (refused, _) = cleanup_refused env m s (λ v. ground arith) in absurd (ground arith)
      ]

  clean_aws-ok :
      (copy : Application) (env : Env W) (m : Manager W) (t : Session W)
      → is_ok (clean_aws r copy (ok (env, m)) t).0 ≡ true
      → is_ok (cleanup_bucket env m (record t { app = copy })).0.1 ≡ true
  clean_aws-ok copy env m t h = ground arith

  finalize_aws_lem :
      (storage : StorageSpec) (s : Session W)
      → finalize_aws r (with_storage storage s.app) s
        ≡ clean_aws r
            (with_storage storage s.app)
            (made storage s).0
            (record (made storage s).1 { app = (begun s).app })
  unfolding finalize_aws
  finalize_aws_lem storage s = refl

  finalize_storage-ok :
      (storage : StorageSpec) (s : Session W)
      → (storage.provider == provider_aws_s3) ≡ true
      → is_retained storage ≡ false
      → is_ok (finalize_storage r (some storage) s).0 ≡ true
      → is_ok (finalize_aws r (with_storage storage s.app) s).0 ≡ true
  unfolding delete_storage
  finalize_storage-ok storage s aws k h = ground arith

  clean_aws-IsCleaned :
      (storage : StorageSpec) (s : Session W) (q : Result (Env W × Manager W))
      → (made storage s).0 ≡ q
      → is_ok
          (clean_aws r
            (with_storage storage s.app)
            q
            (record (made storage s).1 { app = (begun s).app })).0
        ≡ true
      → IsCleaned storage s
  clean_aws-IsCleaned storage s (err e) q h = absurd (ground arith)
  clean_aws-IsCleaned storage s (ok (env, m)) connected h =
      let cleaned =
        clean_aws-ok (with_storage storage s.app) env m
          (record (made storage s).1 { app = (begun s).app }) h in
      (env, m, connected, cleanup_verified env m (before_cleanup storage s) cleaned, cleaned)

  -- If the finalization of S3 storage succeeds under another policy than Retain, then ownership of the
  -- bucket was verified, and the cleanup of the bucket succeeded.
  pub finalized-IsCleaned :
      (storage : StorageSpec) (s : Session W)
      → storage_to_clean s.app ≡ some storage
      → is_retained storage ≡ false
      → storage.provider ≡ provider_aws_s3
      → is_ok (finalize_application r s).0 ≡ true
      → IsCleaned storage s
  unfolding finalize_application
  finalized-IsCleaned storage s h k aws done =
      let started : (storage.provider == provider_aws_s3) ≡ true =
        ground (arith, eq_iff storage.provider provider_aws_s3) in
      let copy = with_storage storage s.app in
      let cleaned : is_ok (finalize_aws r copy s).0 ≡ true =
        finalize_storage-ok storage s started k (rw h at done) in
      clean_aws-IsCleaned storage s (made storage s).0 refl
        (subst (λ p. is_ok p.0 ≡ true) (finalize_aws_lem storage s) cleaned)
