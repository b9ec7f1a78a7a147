-- ===== src/S3/Ownership/Refusal.antt =====
-- What happens to an Application that is not entitled to its bucket: claimOrVerifyOwnership of
-- internal/controller/s3/desireds3.go refuses it and writes nothing.
use forge_operator.Prelude.{
  List, [], String, Bool, true, false, not, ◌&&◌, ◌≡◌, refl, ◌⊎◌, inl, inr, Result, Error, ok, err,
  arith, eq_iff, Bool-cases, Result-cases, Option-cases, ◌==◌,
}
use forge_operator.Naming.Adoption.{evaluate_bucket_adoption}
use forge_operator.Naming.Adoption.Entitlement.{evaluate-ok_iff}
use forge_operator.S3.Session.{Tag, Env, Session, Manager}
use forge_operator.S3.Ownership.{
  owner_tag_key, no_such_tag_set_error_code, has_code, adopt_bucket_requested, ownership_id,
  OwnerTags, note_tags, no_owner, claim_untagged, claim_tagged, claim_from,
  claim_or_verify_ownership,
}
use forge_operator.S3.Ownership.Tags.{last_value, note_tags_lem}
use forge_operator.S3.Ownership.Claim.{
  MayClaim, TakesBy, Entitled, takes_iff, recently_created_iff, code_iff, reply, after_reply,
}

module _ {W : Type 0} (env : Env W) (m : Manager W) where
  -- ErrBucketNotOwned
  abbrev pub is_refusal : {A : Type 0} → Result A → Bool
  is_refusal (ok a) = false
  is_refusal (err e) = e.is_bucket_not_owned

  -- Nothing was written: the session is that after the reading of the tags, or after the checks of
  -- naming.EvaluateBucketAdoption too.
  abbrev pub OnlyReads : Session W → Session W → Type 0
  OnlyReads t u =
      (u ≡ t)
      ⊎ ((uid : String) × (ns : String) × (u ≡ record t {
        world = (evaluate_bucket_adoption env.k8s uid ns t.app.namespace t.world).1;
      }))

  claim_untagged_refused :
      (tags : List Tag) (t : Session W)
      → ¬ (MayClaim env m t)
      → (is_refusal (claim_untagged env m tags t).0 ≡ true) × ((claim_untagged env m tags t).1 ≡ t)
  unfolding claim_untagged
  claim_untagged_refused tags t h =
      ground (arith, recently_created_iff m.bucket (env.now t.world) t.app.status.storage)

  adoption_refused :
      (o : OwnerTags) (t : Session W)
      → adopt_bucket_requested t.app ≡ true
      → ¬ (TakesBy env m o t)
      → (e : Error) × ((evaluate_bucket_adoption env.k8s o.uid o.namespace t.app.namespace
            t.world).0
          ≡ err e)
  adoption_refused o t asked h =
      elim (Result-cases
        (evaluate_bucket_adoption env.k8s o.uid o.namespace t.app.namespace t.world).0) [
          | inl (tt, allowed) ↦ absurd (
              h (
                inr (
                  inr (
                    asked,
                    (evaluate-ok_iff env.k8s o.uid o.namespace t.app.namespace t.world).0 allowed,
                  ))))
          | inr refused ↦ refused
        ]

  claim_tagged_refused :
      (o : OwnerTags) (tags : List Tag) (t : Session W)
      → ¬ (TakesBy env m o t)
      → (is_refusal (claim_tagged env m o tags t).0 ≡ true)
        × OnlyReads t (claim_tagged env m o tags t).1
  unfolding claim_tagged
  claim_tagged_refused o tags t h =
      let foreign : (o.uid == t.app.uid) ≡ false = ground (arith, eq_iff o.uid t.app.uid) in
      let unmatched : (not (ownership_id t.app == "") && (o.id == ownership_id t.app)) ≡ false =
        ground (arith, eq_iff (ownership_id t.app) "", eq_iff o.id (ownership_id t.app)) in
      elim (Bool-cases (adopt_bucket_requested t.app)) [
        | inl asked ↦
            let (e, failed) = adoption_refused o t asked h in
            (
              rw (foreign, unmatched, asked, failed),
              inr (o.uid, o.namespace, rw (foreign, unmatched, asked, failed)),
            )
        | inr unasked ↦ rw (foreign, unmatched, unasked) (refl, inl refl)
      ]

  claim_from_refused :
      (r : Result (List Tag)) (t : Session W)
      → ¬ (Entitled env m r t)
      → (is_refusal (claim_from env m r t).0 ≡ true) × OnlyReads t (claim_from env m r t).1
  unfolding claim_from
  claim_from_refused (err e) t h = elim (Bool-cases (has_code e no_such_tag_set_error_code)) [
    | inl untagged ↦
        let (refused, same) =
          claim_untagged_refused [] t
            (λ c. h ((code_iff e no_such_tag_set_error_code).0 untagged, c)) in
        rw untagged (refused, inl same)
    | inr other ↦ rw other (refl, inl refl)
  ]
  claim_from_refused (ok tags) t h = elim (Option-cases (last_value owner_tag_key tags)) [
    | inl e ↦
        let unowned : (note_tags no_owner tags).has_owner_tag ≡ false =
          ground (arith, note_tags_lem no_owner tags) in
        let (refused, same) = claim_untagged_refused tags t (rw e at h) in
        rw unowned (refused, inl same)
    | inr (uid, e) ↦
        let owned : (note_tags no_owner tags).has_owner_tag ≡ true =
          ground (arith, note_tags_lem no_owner tags) in
        simp owned (
          claim_tagged_refused (note_tags no_owner tags) tags t
            (λ n. (rw e at h) ((takes_iff env m uid tags t e).0 n)))
  ]

  -- An Application that is not entitled is refused with ErrBucketNotOwned, and no tag, status or
  -- counter is written.
  pub claim_refused :
      (s : Session W)
      → ¬ (Entitled env m (reply env m s) (after_reply env m s))
      → (is_refusal (claim_or_verify_ownership env m s).0 ≡ true)
        × OnlyReads (after_reply env m s) (claim_or_verify_ownership env m s).1
  unfolding claim_or_verify_ownership
  claim_refused s h = claim_from_refused (reply env m s) (after_reply env m s) h
