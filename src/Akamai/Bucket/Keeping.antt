-- ===== src/Akamai/Bucket/Keeping.antt =====
-- ReconcileBucket and DeleteBucket of internal/controller/akamaiobjstr at a bucket that is there: what they
-- leave alone, by what their calls leave alone.
use forge_operator.Prelude.{
  false, ◌≡◌, refl, ◌∙◌, inl, inr, Result, ok, err, is_ok, Keeps, arith, Result-cases,
}
use forge_operator.S3.Session.{Session}
use forge_operator.Akamai.Session.{
  LinodeBucket, AccessKeyResult, AkamaiResult, AkamaiEnv, AkamaiManager,
}
use forge_operator.Akamai.Ownership.{claim_marker}
use forge_operator.Akamai.Ownership.Policy.{after_marker}
use forge_operator.Akamai.Keys.{ensure_access_key}
use forge_operator.Akamai.Keys.Keeping.{
  KeyDeletion, KeyCreation, ensure_access_key-Keeps, delete_application_access_key-Keeps,
}
use forge_operator.Akamai.Bucket.{
  settle, resolve_endpoint, with_access, validate_storage_spec, ensure_linode_bucket,
  reconcile_akamai_bucket,
}
use forge_operator.Akamai.Cleanup.{
  confirm_ownership, verify_ownership_and_empty_bucket, delete_akamai_bucket,
}
use forge_operator.Akamai.Cleanup.Guard.{after_lookup, client_of, unconfirmed}

module _ {W : Type 0} {O : Type 0} (see : W → O) (env : AkamaiEnv W) (m : AkamaiManager W)
    (deletes : KeyDeletion see env) (makes : KeyCreation see env) where
  abbrev seen : Session W → O
  seen s = see s.world

  settle-Keeps :
      {A : Type 0} (result : A) (r : Result (Unit {0})) (s : Session W)
      → Keeps seen (settle env m result r) s
  settle-Keeps result (ok a) s = refl
  settle-Keeps result (err e) s =
      ground (arith, delete_application_access_key-Keeps see env m s deletes)

  with_access-Keeps :
      (found : LinodeBucket) (key : AccessKeyResult) (s : Session W)
      → Keeps seen (claim_marker env m (client_of env m found key)) s
      → Keeps seen (with_access env m found key) s
  with_access-Keeps found key s h =
      let (r, t) = claim_marker env m (client_of env m found key) s in
      let result : AkamaiResult = record {
        access_key = key.access_key;
        secret_key = key.secret_key;
        endpoint = resolve_endpoint env m found;
      } in
      settle-Keeps result r t ∙ h

  -- the session after the access key was ensured
  abbrev pub with_key : Session W → Session W
  with_key s = (ensure_access_key env m (after_lookup env m s)).1

  pub with_key-seen :
      (s : Session W)
      → Keeps see (env.akamai.get_object_storage_bucket m.region m.bucket) s.world
      → seen (with_key s) ≡ seen s
  with_key-seen s looked =
      ensure_access_key-Keeps see env m (after_lookup env m s) deletes makes ∙ looked

  pub reconcile_akamai_bucket-Keeps :
      (s : Session W) (found : LinodeBucket)
      → (env.akamai.get_object_storage_bucket m.region m.bucket s.world).0 ≡ ok found
      → Keeps see (env.akamai.get_object_storage_bucket m.region m.bucket) s.world
      → ((key : AccessKeyResult)
          → Keeps seen (claim_marker env m (client_of env m found key)) (with_key s))
      → Keeps seen (reconcile_akamai_bucket env m) s
  unfolding reconcile_akamai_bucket validate_storage_spec ensure_linode_bucket
  reconcile_akamai_bucket-Keeps s found there looked claims =
      let same = with_key-seen s looked in
      elim (Result-cases (ensure_access_key env m (after_lookup env m s)).0) [
        | inl (key, had) ↦
            ground (arith, there, had, same, with_access-Keeps found key (with_key s) (claims key))
        | inr (e, failed) ↦ ground (arith, there, failed, same)
      ]

  pub delete_akamai_bucket-Keeps :
      (s : Session W) (found : LinodeBucket)
      → (env.akamai.get_object_storage_bucket m.region m.bucket s.world).0 ≡ ok found
      → Keeps see (env.akamai.get_object_storage_bucket m.region m.bucket) s.world
      → ((key : AccessKeyResult)
          → (is_ok (confirm_ownership env m (client_of env m found key) (with_key s)).0 ≡ false)
            × (see (after_marker env m (client_of env m found key) (with_key s)).world
                ≡ seen (with_key s)))
      → see (delete_akamai_bucket env m s).1.world ≡ seen s
  unfolding delete_akamai_bucket verify_ownership_and_empty_bucket
  delete_akamai_bucket-Keeps s found there looked doubt =
      let same = with_key-seen s looked in
      elim (Result-cases (ensure_access_key env m (after_lookup env m s)).0) [
        | inr (e, failed) ↦ ground (arith, there, failed, same)
        | inl (key, had) ↦
            let objects = client_of env m found key in
            let (refused, read) = doubt key in
            elim (Result-cases (confirm_ownership env m objects (with_key s)).0) [
              | inl (_, confirmed) ↦ absurd (ground arith)
              | inr (e, why) ↦
                  let last = after_marker env m objects (with_key s) in
                  ground (
                    arith,
                    there,
                    had,
                    same,
                    read,
                    unconfirmed env m objects (with_key s) e why,
                    delete_application_access_key-Keeps see env m last deletes,
                  )
            ]
      ]
