-- ===== src/Akamai/Cleanup/Guard.antt =====
-- DeleteBucket of internal/controller/akamaiobjstr/cleanup.go for a bucket whose ownership is in doubt.
use forge_operator.Prelude.{
  false, ◌≡◌, ◌≢◌, refl, ◌⊎◌, inl, inr, ◌==◌, Error, ok, err, is_ok, arith, eq_iff, Bool-cases,
}
use forge_operator.S3.Session.{Session}
use forge_operator.Akamai.Session.{
  LinodeBucket, ObjectApi, AkamaiEnv, AkamaiManager, AccessKeyResult, s3_client_for,
}
use forge_operator.Akamai.Ownership.Policy.{after_marker}
use forge_operator.Akamai.Keys.{ensure_access_key, delete_application_access_key}
use forge_operator.Akamai.Bucket.{resolve_endpoint}
use forge_operator.Akamai.Cleanup.{
  confirm_from, confirm_ownership, confirm_and_empty, verify_ownership_and_empty_bucket,
  delete_akamai_bucket,
}

module _ {W : Type 0} (env : AkamaiEnv W) (m : AkamaiManager W) where
  -- the session after the bucket was looked up
  abbrev pub after_lookup : Session W → Session W
  after_lookup s = record s {
    world = (env.akamai.get_object_storage_bucket m.region m.bucket s.world).1;
  }

  -- the endpoint's calls, with the bucket's host and the access key
  abbrev pub client_of : LinodeBucket → AccessKeyResult → ObjectApi W
  client_of bucket key = s3_client_for env m (resolve_endpoint env m bucket) key

  pub confirm_reads :
      (objects : ObjectApi W) (t : Session W)
      → (confirm_ownership env m objects t).1 ≡ after_marker env m objects t
  unfolding confirm_ownership confirm_from
  confirm_reads objects t = ground arith

  pub unconfirmed :
      (objects : ObjectApi W) (t : Session W) (e : Error)
      → (confirm_ownership env m objects t).0 ≡ err e
      → confirm_and_empty env m objects t ≡ (err e, after_marker env m objects t)
  unfolding confirm_and_empty
  unconfirmed objects t e h = ground (arith, confirm_reads objects t)

  -- If the bucket is there and its access key could be had, but the ownership is not confirmed, then
  -- DeleteBucket fails, and after reading the marker it has changed nothing, but that it may have
  -- deleted the access key.
  pub delete_refused :
      (s t : Session W) (bucket : LinodeBucket) (key : AccessKeyResult) (e : Error)
      → m.bucket ≢ ""
      → (env.akamai.get_object_storage_bucket m.region m.bucket s.world).0 ≡ ok bucket
      → ensure_access_key env m (after_lookup s) ≡ (ok key, t)
      → (confirm_ownership env m (client_of bucket key) t).0 ≡ err e
      → (is_ok (delete_akamai_bucket env m s).0.1 ≡ false)
        × (((delete_akamai_bucket env m s).1 ≡ after_marker env m (client_of bucket key) t)
            ⊎ ((delete_akamai_bucket env m s).1
                ≡ (delete_application_access_key env m
                    (after_marker env m (client_of bucket key) t)).1))
  unfolding delete_akamai_bucket verify_ownership_and_empty_bucket
  delete_refused s t bucket key e named found had doubt =
      let stopped = unconfirmed (client_of bucket key) t e doubt in
      let nonempty : (m.bucket == "") ≡ false = ground (arith, eq_iff m.bucket "") in
      elim (Bool-cases e.is_akamai_not_owned) [
        | inl foreign ↦ simp (nonempty, found, had, stopped, foreign) (refl, inr refl)
        | inr other ↦ simp (nonempty, found, had, stopped, other) (refl, inl refl)
      ]
