-- ===== src/Akamai/Ownership/Policy.antt =====
-- claimOrVerifyOwnership of internal/controller/akamaiobjstr/obj_storage.go against the ownership
-- policy, on the evidence of the marker object.
use forge_operator.Prelude.{
  String, true, false, Bool, ◌≡◌, ◌↔◌, Result, ok, err, is_ok, ◌++◌, ◌∷◌, [], if◌then◌else◌, arith,
  eq_iff, Bool-cases, inl, inr,
}
use forge_operator.Api.{provider_akamai_object_storage}
use forge_operator.Naming.Adoption.{evaluate_bucket_adoption}
use forge_operator.Naming.Adoption.Entitlement.{evaluate-ok_iff}
use forge_operator.Policy.{Evidence, unmarked, marked, unknown, MayOwn}
use forge_operator.S3.Session.{Session, bucket_adopted, ownership_reclaimed}
use forge_operator.S3.Ownership.{ownership_id}
use forge_operator.S3.Ownership.Claim.{recently_created_iff}
use forge_operator.Akamai.Session.{ObjectApi, OwnerMarker, AkamaiEnv, AkamaiManager}
use forge_operator.Akamai.Ownership.{
  owner_marker_key, parse_owner_marker, claim_ownership, claim_unmarked, claim_marked, claim_found,
  claim_marker,
}

-- A bare UID names no namespace and no ownership ID.
abbrev pub owner_of : OwnerMarker × Bool → Evidence
owner_of (owner, true) = marked owner.uid "" ""
owner_of (owner, false) = marked owner.uid owner.namespace owner.id

module _ {W : Type 0} (env : AkamaiEnv W) where
  abbrev pub marker_evidence : Result (Result String) → Evidence
  marker_evidence (err e) = if e.as_no_such_key then unmarked else unknown
  marker_evidence (ok (err e)) = unknown
  marker_evidence (ok (ok body)) = owner_of (parse_owner_marker env body)

module _ {W : Type 0} (env : AkamaiEnv W) (m : AkamaiManager W) (objects : ObjectApi W) where
  -- A marker can be encoded and written.
  abbrev pub WritesSucceed : Type 0
  WritesSucceed = (s : Session W) → is_ok (claim_ownership env m objects s).0 ≡ true

  -- The policy, at the time of the session.
  abbrev pub Allows : Evidence → Session W → Type 0
  Allows e t = MayOwn env.k8s m.bucket (env.now t.world) e t

  claim_unmarked_sound :
      (t : Session W) → is_ok (claim_unmarked env m objects t).0 ≡ true → Allows unmarked t
  unfolding claim_unmarked
  claim_unmarked_sound t h =
      ground (arith, recently_created_iff m.bucket (env.now t.world) t.app.status.storage)

  claim_marked_sound :
      (o : OwnerMarker × Bool) (t : Session W)
      → is_ok (claim_marked env m objects o t).0 ≡ true
      → Allows (owner_of o) t
  unfolding claim_marked
  claim_marked_sound (o, true) t h =
      ground
        (arith, eq_iff o.uid t.app.uid, evaluate-ok_iff env.k8s o.uid "" t.app.namespace t.world)
  claim_marked_sound (o, false) t h = ground (
    arith,
    eq_iff o.uid t.app.uid,
    eq_iff (ownership_id t.app) "",
    eq_iff o.id (ownership_id t.app),
    evaluate-ok_iff env.k8s o.uid o.namespace t.app.namespace t.world,
  )

  abbrev reclaimed : Session W → Session W
  reclaimed t = record t {
    metrics = t.metrics ++ ownership_reclaimed provider_akamai_object_storage ∷ [];
  }

  abbrev adopted : Session W → Session W
  adopted t = record t { metrics = t.metrics ++ bucket_adopted provider_akamai_object_storage ∷ [] }

  abbrev adopting : String → String → Session W → Session W
  adopting uid ns t =
      adopted
        (record t { world = (evaluate_bucket_adoption env.k8s uid ns t.app.namespace t.world).1 })

  claim_unmarked_complete :
      (t : Session W)
      → Allows unmarked t
      → WritesSucceed
      → is_ok (claim_unmarked env m objects t).0 ≡ true
  unfolding claim_unmarked
  claim_unmarked_complete t h w = ground (
    arith,
    recently_created_iff m.bucket (env.now t.world) t.app.status.storage,
    w t,
    w (adopted t),
  )

  claim_marked_complete :
      (o : OwnerMarker × Bool) (t : Session W)
      → Allows (owner_of o) t
      → WritesSucceed
      → is_ok (claim_marked env m objects o t).0 ≡ true
  unfolding claim_marked
  claim_marked_complete (o, true) t h w = ground (
    arith,
    eq_iff o.uid t.app.uid,
    eq_iff (ownership_id t.app) "",
    eq_iff o.id (ownership_id t.app),
    evaluate-ok_iff env.k8s o.uid "" t.app.namespace t.world,
    w t,
    w (reclaimed t),
    w (adopting o.uid "" t),
  )
  claim_marked_complete (o, false) t h w = ground (
    arith,
    eq_iff o.uid t.app.uid,
    eq_iff (ownership_id t.app) "",
    eq_iff o.id (ownership_id t.app),
    evaluate-ok_iff env.k8s o.uid o.namespace t.app.namespace t.world,
    w t,
    w (reclaimed t),
    w (adopting o.uid o.namespace t),
  )

  claim_found_iff :
      (r : Result (Result String)) (t : Session W)
      → WritesSucceed
      → (is_ok (claim_found env m objects r t).0 ≡ true) ↔ Allows (marker_evidence env r) t
  unfolding claim_found
  claim_found_iff (err e) t w = elim (Bool-cases e.as_no_such_key) [
    | inl missing ↦ rw missing (claim_unmarked_sound t, λ h. claim_unmarked_complete t h w)
    | inr other ↦ rw other (ground arith)
  ]
  claim_found_iff (ok (err e)) t w = ground arith
  claim_found_iff (ok (ok body)) t w = (
    claim_marked_sound (parse_owner_marker env body) t,
    λ h. claim_marked_complete (parse_owner_marker env body) t h w,
  )

  -- what reading the marker gives, and the session after it
  abbrev pub marker_reply : Session W → Result (Result String)
  marker_reply s = (objects.get_object m.bucket owner_marker_key s.world).0

  abbrev pub after_marker : Session W → Session W
  after_marker s = record s { world = (objects.get_object m.bucket owner_marker_key s.world).1 }

  -- If markers can be encoded and written, a claim succeeds exactly if the policy lets the
  -- Application own the bucket, by the evidence of the marker and at the time that reading it leaves.
  pub claim_marker_refines :
      (s : Session W)
      → WritesSucceed
      → (is_ok (claim_marker env m objects s).0 ≡ true)
        ↔ Allows (marker_evidence env (marker_reply s)) (after_marker s)
  unfolding claim_marker
  claim_marker_refines s w = claim_found_iff (marker_reply s) (after_marker s) w
