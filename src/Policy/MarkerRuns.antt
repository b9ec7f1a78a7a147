-- ===== src/Policy/MarkerRuns.antt =====
-- ReconcileBucket and DeleteBucket of internal/controller/akamaiobjstr at a bucket whose marker names an
-- owner that lives: what a run by the owner, or by another Application, leaves of what is seen.
use forge_operator.Prelude.{
  String, true, false, ◌≡◌, refl, sym, ap, subst, ◌∙◌, inl, inr, is_ok, arith, Result-cases, Option,
  trim_prefix,
}
use Prim.Native.String.{◌++◌}
use forge_operator.Policy.Living.{Lives, IsAnother}
use forge_operator.Policy.Markers.{
  Names, MarkerStore, IsGenuine, read-IsReading, Sight, seen, of_bucket, ReadsOnly-seen,
}
use forge_operator.Policy.MarkerClaims.{IsOwner, another_claims, owner_claims, another_confirms}
use forge_operator.S3.Session.{Session}
use forge_operator.S3.Ownership.{ownership_id}
use forge_operator.Akamai.Session.{
  Connection, LinodeBucket, AkamaiEnv, AkamaiManager, AccessKeyResult,
}
use forge_operator.Akamai.Ownership.{claim_marker}
use forge_operator.Akamai.Ownership.Policy.{after_marker}
use forge_operator.Akamai.Keys.Keeping.{app-ensure_access_key}
use forge_operator.Akamai.Bucket.{resolve_endpoint, reconcile_akamai_bucket}
use forge_operator.Akamai.Cleanup.{confirm_ownership, delete_akamai_bucket}
use forge_operator.Akamai.Cleanup.Guard.{after_lookup}
use forge_operator.Akamai.Bucket.Keeping.{
  with_key, with_key-seen, reconcile_akamai_bucket-Keeps, delete_akamai_bucket-Keeps,
}

module _ {W : Type 0} (env : AkamaiEnv W) (region bucket : String) (stored : W → Option String)
    (uid ns id : String) where
  -- The bucket is there, its marker names this owner, and the owner is listed.
  abbrev pub HeldBy : W → Type 0
  HeldBy w =
      (is_ok (env.akamai.get_object_storage_bucket region bucket w).0 ≡ true)
      × Names env region bucket stored uid ns id (stored w)
      × Lives env.k8s uid w

  abbrev seen_at : W → Sight env region bucket stored
  seen_at = seen env region bucket stored

  abbrev at : AkamaiManager W → AkamaiManager W
  at = of_bucket env region bucket stored

  pub HeldBy-seen : (v w : W) → seen_at v ≡ seen_at w → HeldBy w → HeldBy v
  HeldBy-seen v w e (there, named, (owner, items, listed, member, same, some_uid)) = (
    (λ i. is_ok (e i).0) ∙ there,
    subst (Names env region bucket stored uid ns id) (sym (ap (λ p. p.1) e)) named,
    (owner, items, (λ i. (e i).2) ∙ listed, member, same, some_uid),
  )

  module _ (store : MarkerStore env region bucket stored) where
    -- A claim through any connection, of the session's Application in a world that is held.
    abbrev Claims : AkamaiManager W → Session W → Type 0
    Claims m s =
        (c : Connection) (t : Session W)
        → IsGenuine env region bucket stored c
        → t.app ≡ s.app
        → HeldBy t.world
        → seen_at (claim_marker env (at m) (env.objects c) t).1.world ≡ seen_at t.world

    abbrev with_key_at : AkamaiManager W → Session W → Session W
    with_key_at m s = with_key seen_at env (at m) store.deleting store.making s

    pub another_claim-seen :
        (m : AkamaiManager W) (s : Session W) → IsAnother uid id s.app → Claims m s
    another_claim-seen m s another c t genuine same held =
        let objects = env.objects c in
        let u = after_marker env (at m) objects t in
        let kept = store.get_marker c t.world in
        let (_, _, lives) = HeldBy-seen u.world t.world kept held in
        let reads =
          read-IsReading env region bucket stored store c t.world uid ns id genuine held.1 _ refl in
        ReadsOnly-seen env region bucket stored store (at m) objects u
          (claim_marker env (at m) objects t).1
          (another_claims env region bucket stored uid ns id m objects (stored t.world) t held.1
            reads lives (subst (IsAnother uid id) (sym same) another))
        ∙ kept

    pub owner_claim-seen :
        (m : AkamaiManager W) (s : Session W)
        → IsOwner env region bucket stored uid ns id s
        → Claims m s
    owner_claim-seen m s own c t genuine same held =
        let objects = env.objects c in
        let reads =
          read-IsReading env region bucket stored store c t.world uid ns id genuine held.1 _ refl in
        let mine : IsOwner env region bucket stored uid ns id t =
          subst (λ a. (a.uid ≡ uid) × (a.namespace ≡ ns) × (ownership_id a ≡ id)) (sym same) own in
        ap (λ u. seen_at u.world)
          (owner_claims env region bucket stored uid ns id m objects (stored t.world) t held.1 reads
            mine)
        ∙ store.get_marker c t.world

    -- the connection that the manager makes with a key to a bucket that was found
    abbrev connection : AkamaiManager W → LinodeBucket → AccessKeyResult → Connection
    connection m found key = record {
      region = region;
      cluster_endpoint = trim_prefix (resolve_endpoint env (at m) found) (bucket ++ ".");
      access_key = key.access_key;
      secret_key = key.secret_key;
    }

    with_key-HeldBy :
        (m : AkamaiManager W) (s : Session W) → HeldBy s.world → HeldBy (with_key_at m s).world
    with_key-HeldBy m s held =
        HeldBy-seen (with_key_at m s).world s.world
          (with_key-seen seen_at env (at m) store.deleting store.making s
            (store.get_bucket s.world))
          held

    pub reconcile-seen :
        (m : AkamaiManager W) (s : Session W)
        → HeldBy s.world
        → Claims m s
        → seen_at (reconcile_akamai_bucket env (at m) s).1.world ≡ seen_at s.world
    reconcile-seen m s held claims =
        elim (Result-cases (env.akamai.get_object_storage_bucket region bucket s.world).0) [
          | inl (found, there) ↦
              reconcile_akamai_bucket-Keeps seen_at env (at m) store.deleting store.making s found
                there (store.get_bucket s.world)
                (λ key.
                  claims (connection m found key) (with_key_at m s)
                    (refl, (found, s.world, there, refl))
                    (app-ensure_access_key env (at m) (after_lookup env (at m) s))
                    (with_key-HeldBy m s held))
          | inr (e, missing) ↦ absurd (ground (arith, held.0))
        ]

    doubt :
        (m : AkamaiManager W) (s : Session W)
        → HeldBy s.world
        → IsAnother uid id s.app
        → (c : Connection) → IsGenuine env region bucket stored c
        → (is_ok (confirm_ownership env (at m) (env.objects c) (with_key_at m s)).0 ≡ false)
          × (seen_at (after_marker env (at m) (env.objects c) (with_key_at m s)).world
              ≡ seen_at (with_key_at m s).world)
    doubt m s held another c genuine =
        let t = with_key_at m s in
        let (_, names, _) = with_key-HeldBy m s held in
        let reads =
          read-IsReading env region bucket stored store c t.world uid ns id genuine names _ refl in
        let same = app-ensure_access_key env (at m) (after_lookup env (at m) s) in
        (
          (another_confirms env region bucket stored uid ns id m (env.objects c) (stored t.world) t
              names reads (subst (IsAnother uid id) (sym same) another)).0,
          store.get_marker c t.world,
        )

    pub delete-seen :
        (m : AkamaiManager W) (s : Session W)
        → HeldBy s.world
        → IsAnother uid id s.app
        → seen_at (delete_akamai_bucket env (at m) s).1.world ≡ seen_at s.world
    delete-seen m s held another =
        elim (Result-cases (env.akamai.get_object_storage_bucket region bucket s.world).0) [
          | inl (found, there) ↦
              delete_akamai_bucket-Keeps seen_at env (at m) store.deleting store.making s found
                there (store.get_bucket s.world)
                (λ key.
                  doubt m s held another (connection m found key)
                    (refl, (found, s.world, there, refl)))
          | inr (e, missing) ↦ absurd (ground (arith, held.0))
        ]
