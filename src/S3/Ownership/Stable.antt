-- ===== src/S3/Ownership/Stable.antt =====
-- A claim of internal/controller/s3/desireds3.go holds: the next reconcile finds nothing to write,
-- and the check of cleanup.go before a deletion passes. The tag store is AWS's: a tag set that was
-- accepted is what is read next, reading changes nothing, and the keys of a tag set are unique.
use forge_operator.Prelude.{
  String, true, false, not, ◌&&◌, ◌||◌, none, some, List, [], ◌∷◌, ◌++◌, ◌≡◌, ◌≢◌, refl, inl, inr,
  Result, ok, err, is_ok, arith, eq_iff, eq_refl, Bool-cases, Result-cases, Option-cases, ◌==◌,
}
use forge_operator.Api.{provider_aws_s3}
use forge_operator.Naming.Adoption.{evaluate_bucket_adoption}
use forge_operator.S3.Session.{
  Metric, bucket_adopted, ownership_reclaimed, Tag, Env, Session, Manager,
}
use forge_operator.S3.Ownership.{
  has_code, no_such_tag_set_error_code, owner_tag_key, owner_namespace_tag_key,
  ownership_id_tag_key, ownership_id, OwnerTags, note_tags, no_owner, owned_tags, tag_as_owned,
  claim_untagged, claim_tagged, claim_from, claim_or_verify_ownership, tags_excluding_owner,
  first_owner, previously_created_by_us, adopt_bucket_requested, verify_from, verify_ownership,
}
use forge_operator.S3.Ownership.Claim.{reply, after_reply}
use forge_operator.S3.Ownership.Tags.{
  last_value, value_or, note_tags_lem, last_value-owned_uid, last_value-owned_namespace,
  last_value-owned_id, first_owner-owned, first_owner-excluding, first_owner-none,
}

abbrev pub UniqueKeys : List Tag → Type 0
UniqueKeys [] = Unit
UniqueKeys (t ∷ ts) = (last_value t.key ts ≡ none) × UniqueKeys ts

pub first_owner-last :
    (ts : List Tag) → UniqueKeys ts → first_owner ts ≡ last_value owner_tag_key ts
unfolding first_owner last_value
first_owner-last [] h = refl
first_owner-last (t ∷ ts) (h, hs) =
    ground (arith, first_owner-last ts hs, eq_iff t.key owner_tag_key)

pub record TagStore {W : Type 0} (env : Env W) : Type 0 where
  pub get-put :
      (b : String) (tags : List Tag) (w : W)
      → is_ok (env.s3.put_bucket_tagging b tags w).0 ≡ true
      → (env.s3.get_bucket_tagging b (env.s3.put_bucket_tagging b tags w).1).0 ≡ ok tags
  pub get-get :
      (b : String) (w : W)
      → (env.s3.get_bucket_tagging b (env.s3.get_bucket_tagging b w).1).0
        ≡ (env.s3.get_bucket_tagging b w).0
  pub unique :
      (b : String) (w : W) (tags : List Tag)
      → (env.s3.get_bucket_tagging b w).0 ≡ ok tags
      → UniqueKeys tags

-- the session after a counter was incremented
abbrev counted : {W : Type 0} → Session W → Metric → Session W
counted t x = record t { metrics = t.metrics ++ x ∷ [] }

module _ {W : Type 0} (env : Env W) (m : Manager W) (store : TagStore env) where
  -- The bucket's tags say all that the Application would write.
  abbrev Marks : Session W → List Tag → Type 0
  Marks t tags =
      ((env.s3.get_bucket_tagging m.bucket t.world).0 ≡ ok tags)
      × (first_owner tags ≡ some t.app.uid)
      × (last_value owner_tag_key tags ≡ some t.app.uid)
      × (value_or (last_value owner_namespace_tag_key tags) "" ≡ t.app.namespace)
      × (value_or (last_value ownership_id_tag_key tags) "" ≡ ownership_id t.app)

  IsMarked : Session W → Type 0
  IsMarked t = (tags : List Tag) × Marks t tags

  tag_as_owned-Marks :
      (tags : List Tag) (t : Session W)
      → ownership_id t.app ≢ ""
      → first_owner tags ≡ none
      → is_ok (tag_as_owned env m tags t).0 ≡ true
      → ((tag_as_owned env m tags t).1.app ≡ t.app)
        × Marks (tag_as_owned env m tags t).1 (owned_tags t.app tags)
  unfolding tag_as_owned
  tag_as_owned-Marks tags t id h k = ground (
    arith,
    store.get-put m.bucket (owned_tags t.app tags) t.world,
    last_value-owned_uid t.app tags,
    last_value-owned_namespace t.app tags,
    last_value-owned_id t.app tags,
    first_owner-owned t.app tags h,
    eq_iff (ownership_id t.app) "",
  )

  -- A claim of `t` that succeeds leaves its Application alone and the bucket marked.
  abbrev LeavesMarked : Session W → Session W → Type 0
  LeavesMarked t u = (u.app ≡ t.app) × IsMarked u

  claim_untagged_marks :
      (tags : List Tag) (t : Session W)
      → ownership_id t.app ≢ ""
      → first_owner tags ≡ none
      → is_ok (claim_untagged env m tags t).0 ≡ true
      → LeavesMarked t (claim_untagged env m tags t).1
  unfolding claim_untagged IsMarked
  claim_untagged_marks tags t id h k = elim (Bool-cases (previously_created_by_us env m t)) [
    | inl recent ↦
        let (same, marks) = tag_as_owned-Marks tags t id h (ground arith) in
        rw recent (same, (owned_tags t.app tags, marks))
    | inr old ↦ elim (Bool-cases (adopt_bucket_requested t.app)) [
      | inl asked ↦
          let (same, marks) =
            tag_as_owned-Marks tags (counted t (bucket_adopted provider_aws_s3)) id h
              (ground arith) in
          rw (old, asked) (same, (owned_tags t.app tags, marks))
      | inr unasked ↦ absurd (ground arith)
    ]
  ]

  retag_marks :
      (tags : List Tag) (t : Session W)
      → ownership_id t.app ≢ ""
      → is_ok (tag_as_owned env m (tags_excluding_owner tags) t).0 ≡ true
      → LeavesMarked t (tag_as_owned env m (tags_excluding_owner tags) t).1
  unfolding IsMarked
  retag_marks tags t id k =
      let (same, marks) =
        tag_as_owned-Marks (tags_excluding_owner tags) t id (first_owner-excluding tags) k in
      (same, (owned_tags t.app (tags_excluding_owner tags), marks))

  adopted_marks :
      (o : OwnerTags) (tags : List Tag) (t : Session W)
      → ownership_id t.app ≢ ""
      → (o.uid == t.app.uid) ≡ false
      → (not (ownership_id t.app == "") && (o.id == ownership_id t.app)) ≡ false
      → adopt_bucket_requested t.app ≡ true
      → is_ok (claim_tagged env m o tags t).0 ≡ true
      → LeavesMarked t (claim_tagged env m o tags t).1
  unfolding claim_tagged
  adopted_marks o tags t id other foreign asked k =
      let evaluated = evaluate_bucket_adoption env.k8s o.uid o.namespace t.app.namespace t.world in
      elim (Result-cases evaluated.0) [
        | inl (tt, allowed) ↦
            rw (other, foreign, asked, allowed)
              (retag_marks tags
                (counted (record t { world = evaluated.1 }) (bucket_adopted provider_aws_s3)) id
                (rw (other, foreign, asked, allowed) at k))
        | inr (e, refused) ↦ absurd (ground arith)
      ]

  claim_tagged_marks :
      (o : OwnerTags) (tags : List Tag) (t : Session W)
      → ownership_id t.app ≢ ""
      → (o.uid ≡ t.app.uid → o.namespace ≡ t.app.namespace → o.id ≡ ownership_id t.app → IsMarked t)
      → is_ok (claim_tagged env m o tags t).0 ≡ true
      → LeavesMarked t (claim_tagged env m o tags t).1
  unfolding claim_tagged
  claim_tagged_marks o tags t id already k = elim (Bool-cases (o.uid == t.app.uid)) [
    | inl mine ↦
        elim (Bool-cases
          (not (o.namespace == t.app.namespace) || not (o.id == ownership_id t.app))) [
            | inl stale ↦ rw (mine, stale) (retag_marks tags t id (rw (mine, stale) at k))
            | inr complete ↦
                let unchanged : IsMarked t =
                  already ((eq_iff _ _).0 mine) (ground (arith, eq_iff o.namespace t.app.namespace))
                    (ground (arith, eq_iff o.id (ownership_id t.app))) in
                rw (mine, complete) (refl, unchanged)
          ]
    | inr other ↦
        elim (Bool-cases (not (ownership_id t.app == "") && (o.id == ownership_id t.app))) [
          | inl restored ↦
              rw (other, restored)
                (retag_marks tags (counted t (ownership_reclaimed provider_aws_s3)) id
                  (rw (other, restored) at k))
          | inr foreign ↦ elim (Bool-cases (adopt_bucket_requested t.app)) [
            | inl asked ↦ adopted_marks o tags t id other foreign asked k
            | inr unasked ↦ absurd (ground arith)
          ]
        ]
  ]

  noted_marks :
      (uid : String) (tags : List Tag) (t : Session W)
      → (env.s3.get_bucket_tagging m.bucket t.world).0 ≡ ok tags
      → last_value owner_tag_key tags ≡ some uid
      → (note_tags no_owner tags).uid ≡ t.app.uid
      → (note_tags no_owner tags).namespace ≡ t.app.namespace
      → (note_tags no_owner tags).id ≡ ownership_id t.app
      → IsMarked t
  unfolding IsMarked
  noted_marks uid tags t found e p q r =
      let keys = first_owner-last tags (store.unique m.bucket t.world tags found) in
      let (noted_uid, noted_ns, noted_id, _) = note_tags_lem no_owner tags in
      (
        tags,
        (
          found,
          ground (arith, keys, noted_uid),
          ground (arith, noted_uid),
          ground (arith, noted_ns),
          ground (arith, noted_id),
        ),
      )

  claim_from_marks :
      (r : Result (List Tag)) (t : Session W)
      → (env.s3.get_bucket_tagging m.bucket t.world).0 ≡ r
      → ownership_id t.app ≢ ""
      → is_ok (claim_from env m r t).0 ≡ true
      → LeavesMarked t (claim_from env m r t).1
  unfolding claim_from
  claim_from_marks (err e) t found id k =
      elim (Bool-cases (has_code e no_such_tag_set_error_code)) [
        | inl untagged ↦ rw untagged (
            claim_untagged_marks [] t id (first_owner-none [] (unfold last_value in refl))
              (rw untagged at k))
        | inr other ↦ absurd (ground arith)
      ]
  claim_from_marks (ok tags) t found id k = elim (Option-cases (last_value owner_tag_key tags)) [
    | inl e ↦
        let unowned : (note_tags no_owner tags).has_owner_tag ≡ false =
          ground (arith, note_tags_lem no_owner tags) in
        simp unowned (claim_untagged_marks tags t id (first_owner-none tags e) (simp unowned at k))
    | inr (uid, e) ↦
        let owned : (note_tags no_owner tags).has_owner_tag ≡ true =
          ground (arith, note_tags_lem no_owner tags) in
        simp owned (
          claim_tagged_marks (note_tags no_owner tags) tags t id (noted_marks uid tags t found e)
            (simp owned at k))
  ]

  claim_marks :
      (s : Session W)
      → ownership_id s.app ≢ ""
      → is_ok (claim_or_verify_ownership env m s).0 ≡ true
      → LeavesMarked s (claim_or_verify_ownership env m s).1
  unfolding claim_or_verify_ownership
  claim_marks s id k =
      claim_from_marks (reply env m s) (after_reply env m s) (store.get-get m.bucket s.world) id k

  -- If the tag store keeps its laws and the Application has an ownership ID, the check before a
  -- deletion passes after a claim that succeeded.
  pub verify_after_claim :
      (s : Session W)
      → ownership_id s.app ≢ ""
      → is_ok (claim_or_verify_ownership env m s).0 ≡ true
      → is_ok (verify_ownership env m (claim_or_verify_ownership env m s).1).0 ≡ true
  unfolding verify_ownership verify_from IsMarked
  verify_after_claim s id k =
      let (same, (tags, marks)) = claim_marks s id k in
      ground (arith, same, marks, eq_refl s.app.uid)

  marked_stable :
      (u : Session W)
      → IsMarked u
      → claim_or_verify_ownership env m u ≡ (ok tt, after_reply env m u)
  unfolding claim_or_verify_ownership claim_from claim_tagged IsMarked
  marked_stable u (tags, marks) = ground (
    arith,
    marks,
    note_tags_lem no_owner tags,
    eq_refl u.app.uid,
    eq_refl u.app.namespace,
    eq_refl (ownership_id u.app),
  )

  -- If the tag store keeps its laws and the Application has an ownership ID, the next claim after a
  -- claim that succeeded succeeds too and writes nothing: it leaves the session with the world that
  -- reading the tags leaves.
  pub claim_stable :
      (s : Session W)
      → ownership_id s.app ≢ ""
      → is_ok (claim_or_verify_ownership env m s).0 ≡ true
      → claim_or_verify_ownership env m (claim_or_verify_ownership env m s).1
        ≡ (ok tt, after_reply env m (claim_or_verify_ownership env m s).1)
  claim_stable s id k =
      let (same, marked) = claim_marks s id k in
      marked_stable (claim_or_verify_ownership env m s).1 marked
