-- ===== src/Akamai/Ownership/Refusal.antt =====
-- What claimOrVerifyOwnership of internal/controller/akamaiobjstr/obj_storage.go does for an
-- Application that the policy does not let own its bucket.
use forge_operator.Prelude.{
  String, true, false, Bool, ◌≡◌, refl, ◌⊎◌, inl, inr, Result, Error, ok, err, is_ok, not, ◌&&◌,
  arith, eq_iff, Result-cases, Bool-cases, ◌==◌,
}
use forge_operator.Naming.Adoption.{evaluate_bucket_adoption}
use forge_operator.Naming.Adoption.Entitlement.{MayAdopt, evaluate-ok_iff}
use forge_operator.Policy.{unmarked}
use forge_operator.S3.Session.{Session}
use forge_operator.S3.Ownership.{adopt_bucket_requested, ownership_id}
use forge_operator.S3.Ownership.Claim.{recently_created_iff}
use forge_operator.Akamai.Session.{ObjectApi, OwnerMarker, AkamaiEnv, AkamaiManager}
use forge_operator.Akamai.Ownership.{
  parse_owner_marker, was_created_by_us, claim_unmarked, claim_marked, claim_found, claim_marker,
}
use forge_operator.Akamai.Ownership.Policy.{
  Allows, owner_of, marker_evidence, marker_reply, after_marker,
}

module _ {W : Type 0} (env : AkamaiEnv W) (m : AkamaiManager W) (objects : ObjectApi W) where
  -- Nothing was written: the session is that after the reading of the marker, or after the checks of
  -- naming.EvaluateBucketAdoption too.
  abbrev pub ReadsOnly : Session W → Session W → Type 0
  ReadsOnly t u =
      (u ≡ t)
      ⊎ ((uid : String) × (ns : String) × (u ≡ record t {
        world = (evaluate_bucket_adoption env.k8s uid ns t.app.namespace t.world).1;
      }))

  -- The claim of `t` failed and has written nothing.
  abbrev Refused : Session W → Result (Unit {0}) × Session W → Type 0
  Refused t p = (is_ok p.0 ≡ false) × ReadsOnly t p.1

  claim_unmarked-Refused :
      (t : Session W)
      → ¬ (Allows env m objects unmarked t)
      → Refused t (claim_unmarked env m objects t)
  unfolding claim_unmarked
  claim_unmarked-Refused t h =
      let old : was_created_by_us env m t ≡ false =
        ground (arith, recently_created_iff m.bucket (env.now t.world) t.app.status.storage) in
      let unasked : adopt_bucket_requested t.app ≡ false = ground arith in
      simp (old, unasked) (refl, inl refl)

  -- The same owner, with the adoption evaluated for this namespace.
  abbrev adoption : String → String → Session W → Result (Unit {0}) × W
  adoption uid ns t = evaluate_bucket_adoption env.k8s uid ns t.app.namespace t.world

  adoption_refused :
      (uid ns : String) (t : Session W)
      → ¬ (MayAdopt env.k8s uid ns t.app.namespace t.world)
      → (e : Error) × ((adoption uid ns t).0 ≡ err e)
  adoption_refused uid ns t h = elim (Result-cases (adoption uid ns t).0) [
    | inl (tt, allowed) ↦
        absurd (h ((evaluate-ok_iff env.k8s uid ns t.app.namespace t.world).0 allowed))
    | inr refused ↦ refused
  ]

  claim_marked-Refused :
      (o : OwnerMarker × Bool) (t : Session W)
      → ¬ (Allows env m objects (owner_of o) t)
      → Refused t (claim_marked env m objects o t)
  unfolding claim_marked
  claim_marked-Refused (o, true) t h =
      let foreign : (o.uid == t.app.uid) ≡ false = ground (arith, eq_iff o.uid t.app.uid) in
      elim (Bool-cases (adopt_bucket_requested t.app)) [
        | inl asked ↦
            let (e, failed) = adoption_refused o.uid "" t (λ a. h (inr (inr (asked, a)))) in
            (rw (foreign, asked, failed), inr (o.uid, "", rw (foreign, asked, failed)))
        | inr unasked ↦ rw (foreign, unasked) (refl, inl refl)
      ]
  claim_marked-Refused (o, false) t h =
      let foreign : (o.uid == t.app.uid) ≡ false = ground (arith, eq_iff o.uid t.app.uid) in
      let unmatched : (not (ownership_id t.app == "") && (o.id == ownership_id t.app)) ≡ false =
        ground (arith, eq_iff (ownership_id t.app) "", eq_iff o.id (ownership_id t.app)) in
      elim (Bool-cases (adopt_bucket_requested t.app)) [
        | inl asked ↦
            let (e, failed) =
              adoption_refused o.uid o.namespace t (λ a. h (inr (inr (asked, a)))) in
            (
              rw (foreign, unmatched, asked, failed),
              inr (o.uid, o.namespace, rw (foreign, unmatched, asked, failed)),
            )
        | inr unasked ↦ rw (foreign, unmatched, unasked) (refl, inl refl)
      ]

  claim_found-Refused :
      (r : Result (Result String)) (t : Session W)
      → ¬ (Allows env m objects (marker_evidence env r) t)
      → Refused t (claim_found env m objects r t)
  unfolding claim_found
  claim_found-Refused (err e) t h = elim (Bool-cases e.as_no_such_key) [
    | inl missing ↦ rw missing (claim_unmarked-Refused t (rw missing at h))
    | inr other ↦ rw other (refl, inl refl)
  ]
  claim_found-Refused (ok (err e)) t h = (refl, inl refl)
  claim_found-Refused (ok (ok body)) t h = claim_marked-Refused (parse_owner_marker env body) t h

  -- If the policy does not let the Application own the bucket, by the evidence of the marker, the
  -- claim fails, and no marker, status or counter is written.
  pub claim_marker_refused :
      (s : Session W)
      → ¬ (
          Allows env m objects
            (marker_evidence env (marker_reply env m objects s))
            (after_marker env m objects s))
      → (is_ok (claim_marker env m objects s).0 ≡ false)
        × ReadsOnly (after_marker env m objects s) (claim_marker env m objects s).1
  unfolding claim_marker
  claim_marker_refused s h =
      claim_found-Refused (marker_reply env m objects s) (after_marker env m objects s) h
