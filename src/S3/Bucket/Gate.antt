-- ===== src/S3/Bucket/Gate.antt =====
-- Ownership stands before every write of ReconcileBucket (internal/controller/s3/desireds3.go) to a
-- bucket that is already there.
use forge_operator.Prelude.{true, ◌≡◌, ◌⊎◌, inl, inr, is_ok, arith, Result-cases, Bool-cases}
use forge_operator.S3.Session.{Env, Session, Manager}
use forge_operator.S3.Ownership.{claim_or_verify_ownership}
use forge_operator.S3.Ownership.Claim.{Entitled, reply, after_reply, claim_sound}
use forge_operator.S3.Ownership.Refusal.{is_refusal, OnlyReads, claim_refused}
use forge_operator.S3.Bucket.{
  ensure_bucket_exists, ensure_from, reconcile_bucket, is_missing, create_bucket, create_and_claim,
  record_bucket_created,
}

module _ {W : Type 0} (env : Env W) (m : Manager W) where
  -- the session after HeadBucket
  abbrev pub after_head : Session W → Session W
  after_head s = record s { world = (env.s3.head_bucket m.bucket s.world).1 }

  -- HeadBucket finds the bucket.
  abbrev pub IsThere : Session W → Type 0
  IsThere s = is_ok (env.s3.head_bucket m.bucket s.world).0 ≡ true

  -- what reading the tags gives, after HeadBucket, and whether it entitles the Application
  abbrev pub after_looking : Session W → Session W
  after_looking s = after_reply env m (after_head s)

  abbrev pub IsEntitled : Session W → Type 0
  IsEntitled s = Entitled env m (reply env m (after_head s)) (after_looking s)

  pub ensure_present :
      (s : Session W)
      → IsThere s
      → ensure_bucket_exists env m s ≡ claim_or_verify_ownership env m (after_head s)
  unfolding ensure_bucket_exists ensure_from
  ensure_present s h = ground arith

  ensure_failed :
      (s : Session W)
      → is_refusal env m (ensure_bucket_exists env m s).0 ≡ true
      → (is_refusal env m (reconcile_bucket env m s).0 ≡ true)
        × ((reconcile_bucket env m s).1 ≡ (ensure_bucket_exists env m s).1)
  unfolding reconcile_bucket
  ensure_failed s h = ground arith

  -- If the bucket is there and the Application is not entitled to it, ReconcileBucket fails with
  -- ErrBucketNotOwned, and it has only read: no tag, versioning, lifecycle rule, role, status or
  -- counter is written.
  pub reconcile_refused :
      (s : Session W)
      → IsThere s
      → ¬ (IsEntitled s)
      → (is_refusal env m (reconcile_bucket env m s).0 ≡ true)
        × OnlyReads env m (after_looking s) (reconcile_bucket env m s).1
  reconcile_refused s there h =
      let (refused, reads) = claim_refused env m (after_head s) h in
      let same = ensure_present s there in
      let (failed, last) = ensure_failed s (rw same refused) in (failed, rw (last, same) reads)

  ensure_succeeded :
      (s : Session W)
      → is_ok (reconcile_bucket env m s).0 ≡ true
      → is_ok (ensure_bucket_exists env m s).0 ≡ true
  unfolding reconcile_bucket
  ensure_succeeded s h = ground arith

  -- The bucket was missing: CreateBucket and the record of the creation succeeded, one after the
  -- other, and the Application is entitled by what they left.
  abbrev pub CreatedBefore : Session W → Type 0
  CreatedBefore t =
      (is_ok (create_bucket env m t).0 ≡ true)
      × (is_ok (record_bucket_created env m (create_bucket env m t).1).0 ≡ true)
      × Entitled env m (reply env m (record_bucket_created env m (create_bucket env m t).1).1)
          (after_reply env m (record_bucket_created env m (create_bucket env m t).1).1)

  create_and_claim_gate :
      (t : Session W) → is_ok (create_and_claim env m t).0 ≡ true → CreatedBefore t
  create_and_claim_gate t h =
      let recorded = (record_bucket_created env m (create_bucket env m t).1).1 in
      ground (arith, claim_sound env m recorded)

  -- A reconcile of the bucket that succeeds is an entitled Application's: of a bucket that is there,
  -- or of one that it has created and durably recorded first.
  pub reconcile-IsEntitled :
      (s : Session W)
      → is_ok (reconcile_bucket env m s).0 ≡ true
      → (IsThere s × IsEntitled s) ⊎ CreatedBefore (after_head s)
  unfolding ensure_bucket_exists ensure_from
  reconcile-IsEntitled s h =
      let ensured = ensure_succeeded s h in
      elim (Result-cases (env.s3.head_bucket m.bucket s.world).0) [
        | inl (tt, there) ↦
            inl (ground arith, claim_sound env m (after_head s) (rw there at ensured))
        | inr (e, failed) ↦ elim (Bool-cases (is_missing env m e)) [
          | inl missing ↦
              inr (create_and_claim_gate (after_head s) (simp (failed, missing) at ensured))
          | inr other ↦ absurd (ground arith)
        ]
      ]
