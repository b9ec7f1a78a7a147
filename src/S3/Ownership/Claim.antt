-- ===== src/S3/Ownership/Claim.antt =====
-- Who may claim a bucket: claimOrVerifyOwnership of internal/controller/s3/desireds3.go against a
-- description of the entitled Application that names no branch of it.
use forge_operator.Prelude.{
  ℕ, ◌+◌, ◌<◌, String, true, Option, none, some, List, ◌≡◌, ◌≢◌, ◌⊎◌, inl, inr, ◌↔◌, Result, Error,
  ok, err, is_ok, arith, eq_iff, Option-cases,
}
use forge_operator.Api.{StorageStatus}
use forge_operator.Naming.Adoption.{evaluate_bucket_adoption}
use forge_operator.Naming.Adoption.Entitlement.{MayAdopt, evaluate-ok_iff}
use forge_operator.S3.Session.{Tag, Env, Session, Manager}
use forge_operator.S3.Ownership.{
  owner_tag_key, owner_namespace_tag_key, ownership_id_tag_key, no_such_tag_set_error_code,
  bucket_creation_claim_window, has_code, adopt_bucket_requested, ownership_id, recently_created,
  OwnerTags, note_tags, no_owner, tag_as_owned, claim_untagged, claim_tagged, claim_from,
  claim_or_verify_ownership, owned_tags, tags_excluding_owner,
}
use forge_operator.S3.Ownership.Tags.{last_value, value_or, note_tags_lem}

-- The status records that the operator created this bucket less than the window ago.
abbrev pub CreatedWithin : String → ℕ → Option StorageStatus → Type 0
CreatedWithin bucket now none = ⊥
CreatedWithin bucket now (some st) =
    (st.bucket ≡ bucket)
    × (st.created ≡ true)
    × (now < st.created_at + bucket_creation_claim_window)

pub recently_created_iff :
    (bucket : String) (now : ℕ) (o : Option StorageStatus)
    → (recently_created bucket now o ≡ true) ↔ CreatedWithin bucket now o
recently_created_iff bucket now none = ground arith
recently_created_iff bucket now (some st) = ground (arith, eq_iff st.bucket bucket)

pub code_iff : (e : Error) (code : String) → (has_code e code ≡ true) ↔ (e.as_api_error ≡ some code)
code_iff e code = elim (Option-cases e.as_api_error) [
  | inl absent ↦ ground arith
  | inr (c, e') ↦ ground (arith, eq_iff c code)
]

module _ {W : Type 0} (env : Env W) (m : Manager W) where
  -- Without an owner tag: the operator created the bucket just now, or the user asked to adopt it.
  abbrev pub MayClaim : Session W → Type 0
  MayClaim t =
      CreatedWithin m.bucket (env.now t.world) t.app.status.storage
      ⊎ (adopt_bucket_requested t.app ≡ true)

  -- With an owner tag: it names this Application, or the ownership ID is this Application's, or
  -- the user asked to adopt the bucket and the owner's namespace does not stand against it.
  abbrev pub MayTake : String → List Tag → Session W → Type 0
  MayTake uid tags t =
      (uid ≡ t.app.uid)
      ⊎ ((ownership_id t.app ≢ "")
          × (value_or (last_value ownership_id_tag_key tags) "" ≡ ownership_id t.app))
      ⊎ ((adopt_bucket_requested t.app ≡ true)
          × MayAdopt env.k8s uid (value_or (last_value owner_namespace_tag_key tags) "")
              t.app.namespace t.world)

  -- MayTake, of what the loop over the tags has noted.
  abbrev pub TakesBy : OwnerTags → Session W → Type 0
  TakesBy o t =
      (o.uid ≡ t.app.uid)
      ⊎ ((ownership_id t.app ≢ "") × (o.id ≡ ownership_id t.app))
      ⊎ ((adopt_bucket_requested t.app ≡ true)
          × MayAdopt env.k8s o.uid o.namespace t.app.namespace t.world)

  abbrev pub EntitledBy : Option String → List Tag → Session W → Type 0
  EntitledBy none tags t = MayClaim t
  EntitledBy (some uid) tags t = MayTake uid tags t

  -- By the reply of GetBucketTagging; of several tags of one key the last one counts.
  abbrev pub Entitled : Result (List Tag) → Session W → Type 0
  Entitled (err e) t = (e.as_api_error ≡ some no_such_tag_set_error_code) × MayClaim t
  Entitled (ok tags) t = EntitledBy (last_value owner_tag_key tags) tags t

  claim_untagged_sound :
      (tags : List Tag) (t : Session W) → is_ok (claim_untagged env m tags t).0 ≡ true → MayClaim t
  unfolding claim_untagged
  claim_untagged_sound tags t h =
      ground (arith, recently_created_iff m.bucket (env.now t.world) t.app.status.storage)

  claim_tagged_sound :
      (o : OwnerTags) (tags : List Tag) (t : Session W)
      → is_ok (claim_tagged env m o tags t).0 ≡ true
      → TakesBy o t
  unfolding claim_tagged
  claim_tagged_sound o tags t h = ground (
    arith,
    eq_iff o.uid t.app.uid,
    eq_iff (ownership_id t.app) "",
    eq_iff o.id (ownership_id t.app),
    evaluate-ok_iff env.k8s o.uid o.namespace t.app.namespace t.world,
  )

  -- What claimOrVerifyOwnership finds before it decides: the reply, and the session after it.
  abbrev pub reply : Session W → Result (List Tag)
  reply s = (env.s3.get_bucket_tagging m.bucket s.world).0

  abbrev pub after_reply : Session W → Session W
  after_reply s = record s { world = (env.s3.get_bucket_tagging m.bucket s.world).1 }

  claim_from_sound :
      (r : Result (List Tag)) (t : Session W) → is_ok (claim_from env m r t).0 ≡ true → Entitled r t
  unfolding claim_from
  claim_from_sound (err e) t h =
      ground (arith, claim_untagged_sound List.[] t, code_iff e no_such_tag_set_error_code)
  claim_from_sound (ok tags) t h = ground (
    arith,
    claim_untagged_sound tags t,
    claim_tagged_sound (note_tags no_owner tags) tags t,
    note_tags_lem no_owner tags,
  )

  -- A claim that succeeds is an entitled Application's. Of a bucket without an owner tag: the status
  -- records its creation less than an hour ago, or the adoption is asked for. Of one with an owner
  -- tag: it is the Application's UID, or the ownership IDs are equal and not empty, or the adoption is
  -- asked for and EvaluateBucketAdoption has nothing against it.
  pub claim_sound :
      (s : Session W)
      → is_ok (claim_or_verify_ownership env m s).0 ≡ true
      → Entitled (reply s) (after_reply s)
  unfolding claim_or_verify_ownership
  claim_sound s h = claim_from_sound (reply s) (after_reply s) h

  -- The SDK accepts every tag set.
  abbrev pub PutsSucceed : Type 0
  PutsSucceed =
      (tags : List Tag) (w : W) → is_ok (env.s3.put_bucket_tagging m.bucket tags w).0 ≡ true

  tag_as_owned-ok :
      (tags : List Tag) (t : Session W)
      → is_ok (env.s3.put_bucket_tagging m.bucket (owned_tags t.app tags) t.world).0 ≡ true
      → is_ok (tag_as_owned env m tags t).0 ≡ true
  unfolding tag_as_owned
  tag_as_owned-ok tags t h = ground arith

  claim_untagged_complete :
      (tags : List Tag) (t : Session W)
      → MayClaim t
      → PutsSucceed
      → is_ok (claim_untagged env m tags t).0 ≡ true
  unfolding claim_untagged tag_as_owned
  claim_untagged_complete tags t h puts = ground (
    arith,
    recently_created_iff m.bucket (env.now t.world) t.app.status.storage,
    puts (owned_tags t.app tags) t.world,
  )

  claim_tagged_complete :
      (o : OwnerTags) (tags : List Tag) (t : Session W)
      → TakesBy o t
      → PutsSucceed
      → is_ok (claim_tagged env m o tags t).0 ≡ true
  unfolding claim_tagged tag_as_owned
  claim_tagged_complete o tags t h puts = ground (
    arith,
    eq_iff o.uid t.app.uid,
    eq_iff (ownership_id t.app) "",
    eq_iff o.id (ownership_id t.app),
    evaluate-ok_iff env.k8s o.uid o.namespace t.app.namespace t.world,
    puts (owned_tags t.app (tags_excluding_owner tags)) t.world,
    puts (owned_tags t.app (tags_excluding_owner tags))
        (evaluate_bucket_adoption env.k8s o.uid o.namespace t.app.namespace t.world).1,
  )

  pub takes_iff :
      (uid : String) (tags : List Tag) (t : Session W)
      → last_value owner_tag_key tags ≡ some uid
      → TakesBy (note_tags no_owner tags) t ↔ MayTake uid tags t
  takes_iff uid tags t e =
      let (noted_uid, noted_ns, noted_id, _) = note_tags_lem no_owner tags in
      rw (noted_uid, noted_ns, noted_id, e) (λ h. h, λ h. h)

  claim_from_complete :
      (r : Result (List Tag)) (t : Session W)
      → Entitled r t
      → PutsSucceed
      → is_ok (claim_from env m r t).0 ≡ true
  unfolding claim_from
  claim_from_complete (err e) t h puts =
      ground
        (arith, claim_untagged_complete List.[] t h.1 puts, code_iff e no_such_tag_set_error_code)
  claim_from_complete (ok tags) t h puts = elim (Option-cases (last_value owner_tag_key tags)) [
    | inl e ↦
        ground (arith, claim_untagged_complete tags t (rw e at h) puts, note_tags_lem no_owner tags)
    | inr (uid, e) ↦ ground (
      arith,
      note_tags_lem no_owner tags,
      claim_tagged_complete (note_tags no_owner tags) tags t
          ((takes_iff uid tags t e).1 (rw e at h)) puts,
    )
  ]

  -- If the SDK accepts every tag set, every entitled Application's claim succeeds.
  pub claim_complete :
      (s : Session W)
      → Entitled (reply s) (after_reply s)
      → PutsSucceed
      → is_ok (claim_or_verify_ownership env m s).0 ≡ true
  unfolding claim_or_verify_ownership
  claim_complete s h puts = claim_from_complete (reply s) (after_reply s) h puts
