-- ===== src/S3/Cleanup/Guard.antt =====
-- CleanupBucket of internal/controller/s3/cleanup.go deletes no bucket whose ownership is in doubt.
use forge_operator.Prelude.{List, true, ◌≡◌, Result, ok, err, is_ok, arith}
use forge_operator.S3.Session.{Tag, Env, Session, Manager}
use forge_operator.S3.Ownership.{verify_ownership, verify_from}
use forge_operator.S3.Ownership.Claim.{reply, after_reply}
use forge_operator.S3.Ownership.Refusal.{is_refusal}
use forge_operator.S3.Role.{cleanup_app_irsa}
use forge_operator.S3.Cleanup.{cleanup_bucket, cleanup_contents}

module _ {W : Type 0} (env : Env W) (m : Manager W) where
  verify_from_refuses :
      (r : Result (List Tag)) (s : Session W)
      → ¬ (is_ok (verify_from env m r s) ≡ true)
      → is_refusal env m (verify_from env m r s) ≡ true
  unfolding verify_from
  verify_from_refuses (ok tags) s h = ground arith
  verify_from_refuses (err e) s h = ground arith

  contents_refused :
      (t : Session W)
      → ¬ (is_ok (verify_ownership env m t).0 ≡ true)
      → (is_refusal env m (cleanup_contents env m t).0 ≡ true)
        × ((cleanup_contents env m t).1 ≡ after_reply env m t)
  unfolding cleanup_contents verify_ownership
  contents_refused t h = ground (arith, verify_from_refuses (reply env m t) (after_reply env m t))

  -- the session after the deletion of the role
  abbrev pub after_role : Session W → Session W
  after_role s = (cleanup_app_irsa env m s).1

  -- If verifyOwnership does not confirm the ownership, CleanupBucket fails with ErrBucketNotOwned,
  -- and it has deleted nothing but the role: it leaves the session that reading the tags leaves.
  pub cleanup_refused :
      (s : Session W)
      → ¬ (is_ok (verify_ownership env m (after_role s)).0 ≡ true)
      → (is_refusal env m (cleanup_bucket env m s).0.1 ≡ true)
        × ((cleanup_bucket env m s).1 ≡ after_reply env m (after_role s))
  unfolding cleanup_bucket
  cleanup_refused s h = contents_refused (after_role s) h
