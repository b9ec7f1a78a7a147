-- ===== src/Policy/MarkerVisits.antt =====
-- Several Applications at one Akamai bucket: their reconciles and cleanups, and what happens elsewhere, one
-- after the other in any order, while the one that the bucket's marker names lives.
use forge_operator.Prelude.{String, ◌≡◌, refl, sym, ap, subst, ◌∙◌, Option, is_ok}
use forge_operator.Policy.Living.{Lives, IsAnother}
use forge_operator.Policy.Markers.{Names, MarkerStore, Sight, seen, of_bucket}
use forge_operator.Policy.MarkerClaims.{IsOwner}
use forge_operator.Policy.MarkerRuns.{
  HeldBy, HeldBy-seen, another_claim-seen, owner_claim-seen, reconcile-seen, delete-seen,
}
use forge_operator.S3.Session.{Session}
use forge_operator.Akamai.Session.{AkamaiEnv, AkamaiManager}
use forge_operator.Akamai.Keys.Keeping.{delete_application_access_key-Keeps}
use forge_operator.Akamai.Bucket.{reconcile_akamai_bucket}
use forge_operator.Akamai.Cleanup.{delete_akamai_bucket, cleanup_akamai_credentials_only}

module _ {W : Type 0} (env : AkamaiEnv W) (region bucket : String) (stored : W → Option String)
    (uid ns id : String) where
  -- One step of the world: a run of ReconcileBucket by the owner or by another Application, a run of
  -- DeleteBucket or CleanupCredentialsOnly by another one, each with any manager of the bucket and in
  -- any state of its Application, or anything that leaves the bucket, its marker and the owner's life.
  pub data MarkerVisit (w : W) : W → Type 0 where
    owner_reconciles :
        (m : AkamaiManager W) (s : Session W)
        → s.world ≡ w
        → IsOwner env region bucket stored uid ns id s
        → MarkerVisit w
            (reconcile_akamai_bucket env (of_bucket env region bucket stored m) s).1.world
    another_reconciles :
        (m : AkamaiManager W) (s : Session W)
        → s.world ≡ w
        → IsAnother uid id s.app
        → MarkerVisit w
            (reconcile_akamai_bucket env (of_bucket env region bucket stored m) s).1.world
    another_deletes :
        (m : AkamaiManager W) (s : Session W)
        → s.world ≡ w
        → IsAnother uid id s.app
        → MarkerVisit w (delete_akamai_bucket env (of_bucket env region bucket stored m) s).1.world
    another_drops_key :
        (m : AkamaiManager W) (s : Session W)
        → s.world ≡ w
        → IsAnother uid id s.app
        → MarkerVisit w
            (cleanup_akamai_credentials_only env (of_bucket env region bucket stored m) s).1.world
    elsewhere :
        (v : W)
        → (env.akamai.get_object_storage_bucket region bucket v).0
          ≡ (env.akamai.get_object_storage_bucket region bucket w).0
        → stored v ≡ stored w
        → Lives env.k8s uid v
        → MarkerVisit w v

  pub data MarkerVisits (w : W) : W → Type 0 where
    start : MarkerVisits w w
    later : {u v : W} → MarkerVisits w u → MarkerVisit u v → MarkerVisits w v

  abbrev Held : W → Type 0
  Held w = HeldBy env region bucket stored uid ns id w

  abbrev look : W → Sight env region bucket stored
  look = seen env region bucket stored

  module _ (store : MarkerStore env region bucket stored) where
    run-HeldBy :
        (v w : W) (s : Session W)
        → s.world ≡ w
        → Held w
        → (Held s.world → look v ≡ look s.world)
        → (stored v ≡ stored w) × Held v
    run-HeldBy v w s e held kept =
        let same = kept (subst Held (sym e) held) ∙ ap look e in
        ((λ i. (same i).1), HeldBy-seen env region bucket stored uid ns id v w same held)

    MarkerVisit-HeldBy : {w v : W} → Held w → MarkerVisit w v → (stored v ≡ stored w) × Held v
    unfolding cleanup_akamai_credentials_only
    MarkerVisit-HeldBy {w} held (owner_reconciles m s e own) = run-HeldBy _ w s e held (λ h.
        reconcile-seen env region bucket stored uid ns id store m s h
          (owner_claim-seen env region bucket stored uid ns id store m s own))
    MarkerVisit-HeldBy {w} held (another_reconciles m s e another) = run-HeldBy _ w s e held (λ h.
        reconcile-seen env region bucket stored uid ns id store m s h
          (another_claim-seen env region bucket stored uid ns id store m s another))
    MarkerVisit-HeldBy {w} held (another_deletes m s e another) =
        run-HeldBy _ w s e held
          (λ h. delete-seen env region bucket stored uid ns id store m s h another)
    MarkerVisit-HeldBy {w} held (another_drops_key m s e another) = run-HeldBy _ w s e held (λ h.
        delete_application_access_key-Keeps look env (of_bucket env region bucket stored m) s
          store.deleting)
    MarkerVisit-HeldBy {w} held (elsewhere v there same lives) = (
      same,
      (
        (λ i. is_ok (there i)) ∙ held.0,
        subst (Names env region bucket stored uid ns id) (sym same) held.1,
        lives,
      ),
    )

    -- Of an Akamai bucket that is there and whose marker names an owner (UID, namespace and
    -- ownership ID) that is listed: if Linode's description of the bucket, its marker and the
    -- reply of the listing of Applications, errors included, stay what they are through reading
    -- and through making and deleting access keys, and if a read of the marker at the cluster of
    -- the bucket that gives a body gives what is stored, and one that says that there is no
    -- marker says so only if none is stored, then after whatever runs of ReconcileBucket by the owner, with the UID, the namespace and the ownership ID of the
    -- marker, and runs of ReconcileBucket, DeleteBucket and CleanupCredentialsOnly by other
    -- Applications, whose UID is not the one in the marker and which have no ownership ID or
    -- another one than the marker, each with a storage spec that sets no endpoint of its own, one
    -- after the other in any order, with whatever happens elsewhere that leaves the description of
    -- the bucket and its marker as they are and the owner listed, the bucket is there, its marker
    -- is what it was and names the owner, and the owner is listed.
    pub MarkerVisits-HeldBy :
        {w v : W}
        → HeldBy env region bucket stored uid ns id w
        → MarkerVisits w v
        → (stored v ≡ stored w) × HeldBy env region bucket stored uid ns id v
    MarkerVisits-HeldBy held start = (refl, held)
    MarkerVisits-HeldBy held (later vs step) =
        let (before, between) = MarkerVisits-HeldBy held vs in
        let (after, last) = MarkerVisit-HeldBy between step in (after ∙ before, last)
