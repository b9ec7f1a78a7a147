-- ===== src/Policy/Visits.antt =====
-- Several Applications at one S3 bucket: their reconciles and cleanups, and what happens elsewhere, one
-- after the other in any order, while the one that the bucket's tags name lives.
use forge_operator.Prelude.{String, ◌≡◌, refl, sym, ap, subst, ◌∙◌, ok, is_ok, arith}
use forge_operator.Policy.Holder.{owner_claims}
use forge_operator.Policy.Living.{Lives, IsAnother}
use forge_operator.Policy.Sharing.{seen, of_bucket, Sharing}
use forge_operator.S3.Session.{Env, Session, Manager}
use forge_operator.S3.Ownership.{claim_or_verify_ownership}
use forge_operator.S3.Ownership.Claim.{after_reply}
use forge_operator.S3.Ownership.Stable.{TagStore}
use forge_operator.S3.Ownership.Refines.{tag_evidence}
use forge_operator.S3.Role.Keeping.{cleanup_app_irsa-Keeps}
use forge_operator.S3.Bucket.{reconcile_bucket}
use forge_operator.S3.Cleanup.{cleanup_bucket, cleanup_credentials_only}
use forge_operator.Policy.Runs.{
  HeldBy, IsOwner, HeldBy-seen, visit-seen, owner_visit-seen, cleanup-seen,
}

module _ {W : Type 0} (env : Env W) (bucket uid ns id : String) where
  -- One step of the world: a run of ReconcileBucket by the owner or by another Application, a run of
  -- CleanupBucket or CleanupCredentialsOnly by another one, each with any manager of the bucket and in
  -- any state of its Application, or anything that leaves the bucket, its tags and the owner's life.
  pub data Visit (w : W) : W → Type 0 where
    owner_reconciles :
        (m : Manager W) (s : Session W)
        → s.world ≡ w
        → IsOwner env bucket uid ns id s
        → Visit w (reconcile_bucket env (of_bucket env bucket m) s).1.world
    another_reconciles :
        (m : Manager W) (s : Session W)
        → s.world ≡ w
        → IsAnother uid id s.app
        → Visit w (reconcile_bucket env (of_bucket env bucket m) s).1.world
    another_cleans_up :
        (m : Manager W) (s : Session W)
        → s.world ≡ w
        → IsAnother uid id s.app
        → Visit w (cleanup_bucket env (of_bucket env bucket m) s).1.world
    another_drops_role :
        (m : Manager W) (s : Session W)
        → s.world ≡ w
        → IsAnother uid id s.app
        → Visit w (cleanup_credentials_only env (of_bucket env bucket m) s).1.world
    elsewhere :
        (v : W)
        → (env.s3.head_bucket bucket v).0 ≡ (env.s3.head_bucket bucket w).0
        → (env.s3.get_bucket_tagging bucket v).0 ≡ (env.s3.get_bucket_tagging bucket w).0
        → Lives env.k8s uid v
        → Visit w v

  pub data Visits (w : W) : W → Type 0 where
    start : Visits w w
    later : {u v : W} → Visits w u → Visit u v → Visits w v

  -- Reading the tags gives the same in both worlds.
  abbrev pub TagsAs : W → W → Type 0
  TagsAs v w = (env.s3.get_bucket_tagging bucket v).0 ≡ (env.s3.get_bucket_tagging bucket w).0

  abbrev Held : W → Type 0
  Held w = HeldBy env bucket uid ns id w

  module _ (store : TagStore env) (shared : Sharing env bucket) where
    seen-HeldBy : (v w : W) → Held w → seen env bucket v ≡ seen env bucket w → TagsAs v w × Held v
    seen-HeldBy v w held e = ((λ i. (e i).1), HeldBy-seen env bucket uid ns id v w e held)

    -- a run from the world `w` that changes nothing of what is seen
    run-HeldBy :
        (v w : W) (s : Session W)
        → s.world ≡ w
        → Held w
        → (Held s.world → seen env bucket v ≡ seen env bucket s.world)
        → TagsAs v w × Held v
    run-HeldBy v w s at held kept =
        seen-HeldBy v w held (kept (subst Held (sym at) held) ∙ ap (seen env bucket) at)

    Visit-HeldBy : {w v : W} → Held w → Visit w v → TagsAs v w × Held v
    unfolding cleanup_credentials_only
    Visit-HeldBy {w} held (owner_reconciles m s at own) =
        run-HeldBy _ w s at held (λ h. owner_visit-seen env bucket uid ns id store shared m s h own)
    Visit-HeldBy {w} held (another_reconciles m s at another) =
        run-HeldBy _ w s at held (λ h. visit-seen env bucket uid ns id store shared m s h another)
    Visit-HeldBy {w} held (another_cleans_up m s at another) =
        run-HeldBy _ w s at held (λ h. cleanup-seen env bucket uid ns id store shared m s h another)
    Visit-HeldBy {w} held (another_drops_role m s at another) = run-HeldBy _ w s at held (λ h.
        cleanup_app_irsa-Keeps (seen env bucket) env (of_bucket env bucket m) s shared.deleting)
    Visit-HeldBy {w} held (elsewhere v head tags lives) =
        (tags, ((λ i. is_ok (head i)) ∙ held.0, (λ i. tag_evidence (tags i)) ∙ held.1, lives))

    -- Of a bucket that is there and whose tags name an owner (UID, namespace and ownership ID) that
    -- is listed: if the replies of HeadBucket, of GetBucketTagging and of the listing of
    -- Applications, errors included, stay what they are through reading and through writing roles,
    -- versioning and lifecycle rules, and if the tag store keeps its laws, then after whatever
    -- runs of ReconcileBucket by the owner, with the UID, the namespace and the ownership ID of
    -- the tags, and runs of ReconcileBucket, CleanupBucket and CleanupCredentialsOnly by other
    -- Applications, whose UID is not the one in the tags and which have no ownership ID or another
    -- one than the tags, one after the other in any order, with whatever happens
    -- elsewhere that leaves the replies of HeadBucket and GetBucketTagging as they are and the
    -- owner listed, the bucket is there, its tags are what they were and name the owner, and the
    -- owner is listed.
    pub Visits-HeldBy : {w v : W} → Held w → Visits w v → TagsAs v w × Held v
    Visits-HeldBy held start = (refl, held)
    Visits-HeldBy held (later vs step) =
        let (before, between) = Visits-HeldBy held vs in
        let (after, last) = Visit-HeldBy between step in (after ∙ before, last)

    -- Of a bucket that is there and whose tags name an owner (UID, namespace and ownership ID) that
    -- is listed: if the replies of HeadBucket, of GetBucketTagging and of the listing of
    -- Applications, errors included, stay what they are through reading and through writing roles,
    -- versioning and lifecycle rules, and if the tag store keeps its laws, then after any runs at
    -- the bucket by the owner, with the UID, the namespace and the ownership ID of the tags, and by
    -- other Applications, whose UID is not the one in the tags and which have no ownership ID or
    -- another one than the tags, with whatever happens elsewhere that leaves the replies of
    -- HeadBucket and GetBucketTagging as they are and the owner listed, the next claim of an
    -- Application that still has the UID, the namespace and the ownership ID of the tags succeeds
    -- and writes nothing: it leaves the session with the world that reading the tags leaves.
    pub owner_returns :
        {w v : W} (m : Manager W)
        → Held w
        → Visits w v
        → (s : Session W) → s.world ≡ v
        → IsOwner env bucket uid ns id s
        → claim_or_verify_ownership env (of_bucket env bucket m) s
          ≡ (ok tt, after_reply env (of_bucket env bucket m) s)
    owner_returns m held vs s at (same, place, ticket) =
        let (_, (there, named, lives)) = Visits-HeldBy held vs in
        owner_claims env (of_bucket env bucket m) s (ground (arith, named, at, same, place, ticket))
