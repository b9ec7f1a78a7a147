-- ===== src/Policy/Runs.antt =====
-- ReconcileBucket and CleanupBucket of internal/controller/s3 at a bucket whose tags name an owner that
-- lives: what a run by the owner, or by another Application, leaves of what is seen.
use forge_operator.Prelude.{String, true, ◌≡◌, ◌≢◌, ap, ◌∙◌, is_ok, Keeps, arith}
use forge_operator.Policy.{marked}
use forge_operator.Policy.Holder.{owner_claims, verify_turns_away}
use forge_operator.Policy.Living.{Lives, IsAnother, living_keeps_s3}
use forge_operator.Policy.Sharing.{
  seen, in_session, of_bucket, Sharing, OnlyReads-seen, reconcile_bucket-seen,
}
use forge_operator.S3.Session.{Env, Session, Manager}
use forge_operator.S3.Ownership.{ownership_id, claim_or_verify_ownership}
use forge_operator.S3.Ownership.Claim.{after_reply}
use forge_operator.S3.Ownership.Stable.{TagStore}
use forge_operator.S3.Ownership.Refines.{tag_evidence}
use forge_operator.S3.Role.{cleanup_app_irsa}
use forge_operator.S3.Role.Keeping.{cleanup_app_irsa-Keeps, app-cleanup_app_irsa}
use forge_operator.S3.Bucket.{reconcile_bucket}
use forge_operator.S3.Bucket.Gate.{after_head, ensure_present}
use forge_operator.S3.Cleanup.{cleanup_bucket}
use forge_operator.S3.Cleanup.Guard.{cleanup_refused}

module _ {W : Type 0} (env : Env W) (bucket uid ns id : String) where
  -- The bucket is there, its tags name this owner, and the owner is listed.
  abbrev pub HeldBy : W → Type 0
  HeldBy w =
      (is_ok (env.s3.head_bucket bucket w).0 ≡ true)
      × (tag_evidence (env.s3.get_bucket_tagging bucket w).0 ≡ marked uid ns id)
      × Lives env.k8s uid w

  -- The Application is the owner, with the namespace and the ownership ID of the tags.
  abbrev pub IsOwner : Session W → Type 0
  IsOwner s = (s.app.uid ≡ uid) × (s.app.namespace ≡ ns) × (ownership_id s.app ≡ id)

  pub HeldBy-seen : (v w : W) → seen env bucket v ≡ seen env bucket w → HeldBy w → HeldBy v
  HeldBy-seen v w e (there, named, (owner, items, listed, member, same, some_uid)) = (
    (λ i. is_ok (e i).0) ∙ there,
    (λ i. tag_evidence (e i).1) ∙ named,
    (owner, items, (λ i. (e i).2) ∙ listed, member, same, some_uid),
  )

  module _ (store : TagStore env) (shared : Sharing env bucket) where
    after_head-HeldBy : (w : W) → HeldBy w → HeldBy (env.s3.head_bucket bucket w).1
    after_head-HeldBy w h = HeldBy-seen (env.s3.head_bucket bucket w).1 w (shared.head_bucket w) h

    after_tags-HeldBy : (w : W) → HeldBy w → HeldBy (env.s3.get_bucket_tagging bucket w).1
    after_tags-HeldBy w h =
        HeldBy-seen (env.s3.get_bucket_tagging bucket w).1 w (shared.get_tags w) h

    -- What another Application's claim leaves.
    another_claim-seen :
        (m : Manager W) (s : Session W)
        → HeldBy s.world
        → IsAnother uid id s.app
        → Keeps (in_session env bucket) (claim_or_verify_ownership env (of_bucket env bucket m)) s
    another_claim-seen m s held another =
        let n = of_bucket env bucket m in
        let (there, named, lives) = after_tags-HeldBy s.world held in
        let (refused, reads) = living_keeps_s3 env n s uid ns id held.1 lives another in
        OnlyReads-seen env bucket shared n (after_reply env n s)
          (claim_or_verify_ownership env n s).1 reads
        ∙ shared.get_tags s.world

    owner_claim-seen :
        (m : Manager W) (s : Session W)
        → HeldBy s.world
        → IsOwner s
        → Keeps (in_session env bucket) (claim_or_verify_ownership env (of_bucket env bucket m)) s
    owner_claim-seen m s held (same, place, ticket) = ground (
      arith,
      owner_claims env (of_bucket env bucket m) s (ground (arith, held, same, place, ticket)),
      shared.get_tags s.world,
    )

    ensure-seen :
        (m : Manager W) (s : Session W)
        → HeldBy s.world
        → Keeps
            (in_session env bucket)
            (claim_or_verify_ownership env (of_bucket env bucket m))
            (after_head env (of_bucket env bucket m) s)
        → Keeps (in_session env bucket) (reconcile_bucket env (of_bucket env bucket m)) s
    ensure-seen m s held h =
        let n = of_bucket env bucket m in
        reconcile_bucket-seen env bucket shared m s
          (ground (arith, ensure_present env n s held.0, h, shared.head_bucket s.world))

    pub cleanup-seen :
        (m : Manager W) (s : Session W)
        → HeldBy s.world
        → IsAnother uid id s.app
        → seen env bucket (cleanup_bucket env (of_bucket env bucket m) s).1.world
          ≡ seen env bucket s.world
    cleanup-seen m s held another =
        let n = of_bucket env bucket m in
        let t = (cleanup_app_irsa env n s).1 in
        let kept = cleanup_app_irsa-Keeps (seen env bucket) env n s shared.deleting in
        let (there, named, _) = HeldBy-seen t.world s.world kept held in
        let other : uid ≢ t.app.uid = ground (arith, another, app-cleanup_app_irsa env n s) in
        let (refused, last) =
          cleanup_refused env n s (verify_turns_away env n store t uid ns id named other) in
        ap (in_session env bucket) last ∙ (shared.get_tags t.world ∙ kept)

    pub visit-seen :
        (m : Manager W) (s : Session W)
        → HeldBy s.world
        → IsAnother uid id s.app
        → Keeps (in_session env bucket) (reconcile_bucket env (of_bucket env bucket m)) s
    visit-seen m s held another =
        let t = after_head env (of_bucket env bucket m) s in
        ensure-seen m s held (another_claim-seen m t (after_head-HeldBy s.world held) another)

    pub owner_visit-seen :
        (m : Manager W) (s : Session W)
        → HeldBy s.world
        → IsOwner s
        → Keeps (in_session env bucket) (reconcile_bucket env (of_bucket env bucket m)) s
    owner_visit-seen m s held own =
        let t = after_head env (of_bucket env bucket m) s in
        ensure-seen m s held (owner_claim-seen m t (after_head-HeldBy s.world held) own)
