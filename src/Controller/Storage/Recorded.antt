-- ===== src/Controller/Storage/Recorded.antt =====
-- reconcileAWSStorage of internal/controller/storage.go: what stands behind a success.
use forge_operator.Controller.Storage.Sent.{HasSent, shown_status, show_ready-HasSent}
use forge_operator.Controller.Storage.Annotated.{IsAnnotated, annotate_role-IsAnnotated}
use forge_operator.Prelude.{
  none, String, true, some, ◌≡◌, refl, sym, subst, Result, ok, is_ok, Result-cases, inl, inr, arith,
}
use forge_operator.Api.{
  Application, ApplicationStatus, StorageSpec, StorageStatus, AwsStorageStatus, provider_aws_s3,
}
use forge_operator.Storage.{configured_status}
use forge_operator.StorageConditions.{set_storage_ready}
use forge_operator.S3.Session.{Session, Env, Manager}
use forge_operator.S3.Connect.{new_s3_manager}
use forge_operator.S3.Bucket.{reconcile_bucket}
use forge_operator.Controller.Session.{Reconciler}
use forge_operator.Controller.Keeping.{RetriesStatus}
use forge_operator.Controller.Accounts.{service_account_name_for}
use forge_operator.Controller.Storage.Aws.{
  record_created_as, annotate_role, aws_record, show_ready, reconcile_aws_storage,
}

-- The storage that the Application has, or this one where it has none.
abbrev pub storage_or : StorageSpec → Application → StorageSpec
storage_or storage app = elim app.spec.storage [ none ↦ storage | some now ↦ now ]

module _ {W : Type 0} (r : Reconciler W) where
  -- the manager, and the session in which the bucket is reconciled
  abbrev pub aws_made : StorageSpec → Session W → Result (Env W × Manager W) × Session W
  aws_made storage s =
      new_s3_manager r.platform r.aws (service_account_name_for s.app)
        (some (record_created_as r provider_aws_s3 storage)) s

  -- the status that is written at the end, from the session `u`
  abbrev pub ready_status : StorageSpec → String → Session W → ApplicationStatus
  ready_status storage role u =
      shown_status r "S3 bucket and IRSA role provisioned" (aws_record r storage role) u

  -- The status has the record of this storage, created, with this role.
  abbrev pub HasRecord : StorageSpec → String → ApplicationStatus → Type 0
  HasRecord spec role st =
      (kept : StorageStatus) × (aws : AwsStorageStatus) × (st.storage ≡ some kept)
      × (kept.provider ≡ "AWS")
      × (kept.bucket ≡ spec.bucket)
      × (kept.region ≡ spec.region)
      × (kept.secret_name ≡ spec.secret_name)
      × (kept.deletion_policy ≡ spec.deletion_policy)
      × (kept.created ≡ true)
      × (kept.aws ≡ some aws)
      × (aws.role_arn ≡ role)

  -- The bucket was reconciled, the ServiceAccount annotated with its role, and the record of both was
  -- accepted.
  abbrev pub IsRecorded : StorageSpec → Session W → Session W → Type 0
  IsRecorded storage s t =
      (env : Env W) × (m : Manager W) × (role : String) × (u : Session W) × (st : ApplicationStatus)
      × ((aws_made storage s).0 ≡ ok (env, m))
      × ((reconcile_bucket env m (aws_made storage s).1).0 ≡ ok role)
      × IsAnnotated r role (reconcile_bucket env m (aws_made storage s).1).1 u
      × HasRecord (storage_or storage u.app) role st
      × HasSent r st t.app t.world

  ready_status-HasRecord :
      (storage : StorageSpec) (role : String) (u : Session W)
      → HasRecord (storage_or storage u.app) role (ready_status storage role u)
  unfolding set_storage_ready configured_status
  ready_status-HasRecord storage role u =
      (_, _, refl, refl, refl, refl, refl, refl, refl, refl, refl)

  -- If the retrying is RetryOnConflict's, a reconcile of S3 storage that succeeds has reconciled the
  -- bucket with the manager that it made; then, if that gave a role and the operator makes the
  -- Application's ServiceAccount, a ServiceAccount with the role in its annotation
  -- eks.amazonaws.com/role-arn was accepted, and nothing was done otherwise; and then the API server
  -- has accepted, whatever conflicts it met, a status whose record has the provider AWS, the bucket,
  -- region, Secret name and deletion policy of the storage that the Application had by then (of the
  -- storage at the start if it had none), created, and the role; what is then held is the server's
  -- answer.
  pub reconcile_aws_storage-IsRecorded :
      (storage : StorageSpec) (s : Session W)
      → RetriesStatus r
      → is_ok (reconcile_aws_storage r storage s).0 ≡ true
      → IsRecorded storage s (reconcile_aws_storage r storage s).1
  unfolding reconcile_aws_storage
  reconcile_aws_storage-IsRecorded storage s retries h =
      elim (Result-cases (aws_made storage s).0) [
        | inr (e, refused) ↦ absurd (ground (arith, refused))
        | inl ((env, m), connected) ↦
            let bucket = reconcile_bucket env m (aws_made storage s).1 in
            elim (Result-cases bucket.0) [
              | inr (e, failed) ↦ absurd (ground (arith, connected, failed))
              | inl (role, done) ↦
                  let noted = annotate_role r role bucket.1 in
                  elim (Result-cases noted.0) [
                    | inr (e, failed) ↦ absurd (ground (arith, connected, done, failed))
                    | inl (_, annotated) ↦
                        let runs : reconcile_aws_storage r storage s
                            ≡ show_ready r provider_aws_s3 "S3 bucket and IRSA role provisioned"
                                (aws_record r storage role) noted.1 =
                          rw (connected, done, annotated) refl in
                        (
                          env,
                          m,
                          role,
                          noted.1,
                          ready_status storage role noted.1,
                          connected,
                          done,
                          annotate_role-IsAnnotated r role bucket.1 annotated,
                          ready_status-HasRecord storage role noted.1,
                          subst
                              (λ p. HasSent r (ready_status storage role noted.1) p.1.app p.1.world)
                              (sym runs)
                              (show_ready-HasSent r retries provider_aws_s3 _
                                (aws_record r storage role) noted.1
                                (subst (λ p. is_ok p.0 ≡ true) runs h)),
                        )
                  ]
            ]
      ]
