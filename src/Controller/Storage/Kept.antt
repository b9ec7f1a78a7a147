-- ===== src/Controller/Storage/Kept.antt =====
-- reconcileAkamaiStorage of internal/controller/storage.go: what stands behind a success.
use forge_operator.Prelude.{
  String, ◌⊎◌, ◌≢◌, ◌==◌, lookup, eq_iff, Bool-cases, err, true, some, ◌≡◌, refl, sym, ap, subst,
  Exec, Result, ok, is_ok, Result-cases, inl, inr, arith, pure, ◌>>◌, ◌∙◌,
}
use forge_operator.Api.{
  ApplicationStatus, StorageSpec, StorageStatus, AkamaiStorageStatus,
  provider_akamai_object_storage,
}
use forge_operator.Cluster.{Secret}
use forge_operator.Naming.Names.{storage_secret}
use forge_operator.Storage.{configured_akamai_status}
use forge_operator.StorageConditions.{set_storage_ready}
use forge_operator.S3.Session.{Session}
use forge_operator.Akamai.Session.{AkamaiEnv, AkamaiManager, AkamaiResult}
use forge_operator.Akamai.Connect.{new_akamai_manager}
use forge_operator.Akamai.Bucket.{reconcile_akamai_bucket}
use forge_operator.Controller.Session.{Reconciler}
use forge_operator.Controller.Keeping.{RetriesStatus}
use forge_operator.Controller.Storage.Aws.{record_created_as, show_ready}
use forge_operator.Controller.Storage.Linode.{
  recover_result, akamai_record, reconcile_akamai_storage,
}
use forge_operator.Controller.Storage.Sent.{HasSent, shown_status, show_ready-HasSent}
use forge_operator.Controller.Storage.Recorded.{storage_or}

module _ {W : Type 0} (r : Reconciler W) where
  -- the manager, and the session in which the bucket is reconciled
  abbrev pub akamai_made :
      StorageSpec → Session W → Result (AkamaiEnv W × AkamaiManager W) × Session W
  akamai_made storage s =
      new_akamai_manager r.platform r.akamai
        (some (record_created_as r provider_akamai_object_storage storage)) s

  -- the status that is written at the end, from the session `u`
  abbrev pub kept_status : StorageSpec → AkamaiResult → Session W → ApplicationStatus
  kept_status storage result u =
      shown_status r "Akamai bucket and access key provisioned" (akamai_record r storage result) u

  -- What the reply of reading the Secret makes of the result: its entry secret_key is the secret key.
  abbrev pub IsRestored : AkamaiResult → AkamaiResult → Result Secret → Type 0
  IsRestored result kept (err e) = kept ≡ result
  IsRestored result kept (ok secret) =
      (kept.secret_key ≡ lookup secret.entries "secret_key")
      × (kept.access_key ≡ result.access_key)
      × (kept.endpoint ≡ result.endpoint)

  -- A secret key that was given stays, and nothing is done from `v` to `u`; one that was not given is
  -- what the storage Secret has, which is read in between.
  abbrev pub IsRecovered : AkamaiResult → AkamaiResult → Session W → Session W → Type 0
  IsRecovered result kept v u =
      ((result.secret_key ≢ "") × (kept ≡ result) × (u ≡ v))
      ⊎ ((result.secret_key ≡ "")
          × IsRestored result kept
              (r.platform.k8s.get_secret v.app.namespace (storage_secret v.app) v.world).0
          × (u ≡ record v {
            world = (r.platform.k8s.get_secret v.app.namespace (storage_secret v.app) v.world).1;
          }))

  -- The status has the record of this storage, created, with this endpoint.
  abbrev pub HasEndpointRecord : StorageSpec → String → ApplicationStatus → Type 0
  HasEndpointRecord spec endpoint st =
      (held : StorageStatus) × (akamai : AkamaiStorageStatus) × (st.storage ≡ some held)
      × (held.provider ≡ "Akamai")
      × (held.bucket ≡ spec.bucket)
      × (held.region ≡ spec.region)
      × (held.secret_name ≡ spec.secret_name)
      × (held.deletion_policy ≡ spec.deletion_policy)
      × (held.created ≡ true)
      × (held.akamai ≡ some akamai)
      × (akamai.endpoint ≡ endpoint)

  -- The bucket was reconciled, the secret key recovered where it was not given, and the record of the
  -- bucket accepted; the result is what is kept.
  abbrev pub IsKept : StorageSpec → Session W → Result AkamaiResult → Session W → Type 0
  IsKept storage s q t =
      (env : AkamaiEnv W) × (m : AkamaiManager W) × (result kept : AkamaiResult) × (u : Session W)
      × (st : ApplicationStatus) × ((akamai_made storage s).0 ≡ ok (env, m))
      × ((reconcile_akamai_bucket env m (akamai_made storage s).1).0 ≡ ok result)
      × IsRecovered result kept (reconcile_akamai_bucket env m (akamai_made storage s).1).1 u
      × HasEndpointRecord (storage_or storage u.app) kept.endpoint st
      × (q ≡ ok kept)
      × HasSent r st t.app t.world

  recover_result-IsRecovered :
      (result kept : AkamaiResult) (v : Session W)
      → (recover_result r result v).0 ≡ ok kept
      → IsRecovered result kept v (recover_result r result v).1
  unfolding recover_result
  recover_result-IsRecovered result kept v h = elim (Bool-cases (result.secret_key == "")) [
    | inr given ↦ inl (
      ground (arith, given, eq_iff result.secret_key ""),
      ground (arith, given),
      ground (arith, given),
    )
    | inl missing ↦
        elim (Result-cases
          (r.platform.k8s.get_secret v.app.namespace (storage_secret v.app) v.world).0) [
            | inl (secret, read) ↦ inr (
              ground (arith, missing, eq_iff result.secret_key ""),
              rw read (ground (arith, missing, read)),
              ground (arith, missing, read),
            )
            | inr (e, unread) ↦ inr (
              ground (arith, missing, eq_iff result.secret_key ""),
              rw unread (ground (arith, missing, unread)),
              ground (arith, missing, unread),
            )
          ]
  ]

  kept_status-HasEndpointRecord :
      (storage : StorageSpec) (kept : AkamaiResult) (u : Session W)
      → HasEndpointRecord (storage_or storage u.app) kept.endpoint (kept_status storage kept u)
  unfolding set_storage_ready configured_akamai_status
  kept_status-HasEndpointRecord storage kept u =
      (_, _, refl, refl, refl, refl, refl, refl, refl, refl, refl)

  abbrev shown_last : StorageSpec → AkamaiResult → Exec (Session W) (Unit {0})
  shown_last storage kept =
      show_ready r provider_akamai_object_storage "Akamai bucket and access key provisioned"
        (akamai_record r storage kept)

  -- a run `p` that ends with showing the record, and succeeds
  ending-HasSent :
      RetriesStatus r
      → (storage : StorageSpec) (kept : AkamaiResult) (u : Session W)
        (p : Result AkamaiResult × Session W)
      → p ≡ (shown_last storage kept >> pure kept) u
      → is_ok p.0 ≡ true
      → (p.0 ≡ ok kept) × HasSent r (kept_status storage kept u) p.1.app p.1.world
  ending-HasSent retries storage kept u p runs h =
      elim (Result-cases (shown_last storage kept u).0) [
        | inr (e, failed) ↦ absurd (ground (arith, runs, failed))
        | inl (_, shown) ↦
            let ends : p ≡ (ok kept, (shown_last storage kept u).1) = runs ∙ rw shown refl in
            (
              ap (λ q. q.0) ends,
              subst (λ q. HasSent r (kept_status storage kept u) q.1.app q.1.world) (sym ends)
                  (show_ready-HasSent r retries provider_akamai_object_storage _
                    (akamai_record r storage kept) u (ap is_ok shown)),
            )
      ]

  -- If the retrying is RetryOnConflict's, a reconcile of Akamai storage that succeeds has reconciled the
  -- bucket with the manager that it made; then, where that gave no secret key, it has read the storage
  -- Secret, and the result has the secret key of that Secret if it could be read; and then the API
  -- server has accepted, whatever conflicts it met, a status whose record has the provider Akamai, the
  -- bucket, region, Secret name and deletion policy of the storage that the Application had by then (of
  -- the storage at the start if it had none), created, and the bucket's endpoint; what is then held is
  -- the server's answer.
  pub reconcile_akamai_storage-IsKept :
      (storage : StorageSpec) (s : Session W)
      → RetriesStatus r
      → is_ok (reconcile_akamai_storage r storage s).0 ≡ true
      → IsKept storage s
          (reconcile_akamai_storage r storage s).0
          (reconcile_akamai_storage r storage s).1
  unfolding reconcile_akamai_storage
  reconcile_akamai_storage-IsKept storage s retries h =
      elim (Result-cases (akamai_made storage s).0) [
        | inr (e, refused) ↦ absurd (ground (arith, refused))
        | inl ((env, m), connected) ↦
            let bucket = reconcile_akamai_bucket env m (akamai_made storage s).1 in
            elim (Result-cases bucket.0) [
              | inr (e, failed) ↦ absurd (ground (arith, connected, failed))
              | inl (result, done) ↦
                  let recovered = recover_result r result bucket.1 in
                  elim (Result-cases recovered.0) [
                    | inr (e, failed) ↦ absurd (ground (arith, connected, done, failed))
                    | inl (kept, found) ↦
                        let runs : reconcile_akamai_storage r storage s
                            ≡ (shown_last storage kept >> pure kept) recovered.1 =
                          rw (connected, done, found) refl in
                        let (same, sent) =
                          ending-HasSent retries storage kept recovered.1
                            (reconcile_akamai_storage r storage s) runs h in
                        (
                          env,
                          m,
                          result,
                          kept,
                          recovered.1,
                          kept_status storage kept recovered.1,
                          connected,
                          done,
                          recover_result-IsRecovered result kept bucket.1 found,
                          kept_status-HasEndpointRecord storage kept recovered.1,
                          same,
                          sent,
                        )
                  ]
            ]
      ]
