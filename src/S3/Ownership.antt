-- ===== src/S3/Ownership.antt =====
-- internal/controller/s3/desireds3.go and cleanup.go: whether the Application owns its bucket, by
-- the bucket's tags: claimOrVerifyOwnership on the way up, verifyOwnership before a deletion.
-- Children: Tags (what is read from and written to a tag set), Claim (who may claim), Refines (the
-- same as a policy), Refusal (what becomes of others), Stable (a claim holds on the next visit and on
-- deletion).
pub mod Tags
pub mod Claim
pub mod Refusal
pub mod Stable
pub mod Refines
use Prim.Native.String
use forge_operator.Prelude.{
  ℕ, ◌-◌, ◌*◌, String, Bool, true, false, not, ◌&&◌, ◌||◌, Option, none, some, List, [], ◌∷◌, ◌++◌,
  Exec, pure, fail, try, ◌>>=◌, ◌>>◌, mapping_error, ok, err, Result, Error, new_error, wrap, ltb,
  ◌==◌, if◌then◌else◌, concat, lookup,
}
use forge_operator.Api.{Application, StorageStatus, provider_aws_s3}
use forge_operator.Naming.Names.{
  adopt_bucket_annotation, adopt_bucket_annotation_value, storage_ownership_id_annotation,
}
use forge_operator.Naming.Adoption.{evaluate_bucket_adoption}
use forge_operator.S3.Session.{
  Tag, Env, Metric, bucket_adopted, ownership_reclaimed, Session, on_world, increment, Manager,
}

abbrev pub owner_tag_key : String
owner_tag_key = "forge-operator.ningendo7.github.io/owner-uid"

abbrev pub owner_namespace_tag_key : String
owner_namespace_tag_key = "forge-operator.ningendo7.github.io/owner-namespace"

abbrev pub ownership_id_tag_key : String
ownership_id_tag_key = "forge-operator.ningendo7.github.io/ownership-id"

abbrev pub no_such_tag_set_error_code : String
no_such_tag_set_error_code = "NoSuchTagSet"

abbrev pub no_such_bucket_error_code : String
no_such_bucket_error_code = "NoSuchBucket"

-- time.Hour, in nanoseconds
abbrev pub bucket_creation_claim_window : ℕ
bucket_creation_claim_window = 3600 * 1000000000

-- ErrBucketNotOwned
abbrev pub bucket_not_owned : Error
bucket_not_owned = record (new_error "bucket already exists and is not owned by forge-operator") {
  is_bucket_not_owned = true;
}

-- errors.As(err, &apiErr) && apiErr.ErrorCode() == code
abbrev pub has_code : Error → String → Bool
has_code e code = elim e.as_api_error [ none ↦ false | some c ↦ c == code ]

abbrev pub adopt_bucket_requested : Application → Bool
adopt_bucket_requested app =
    lookup app.annotations adopt_bucket_annotation == adopt_bucket_annotation_value

abbrev pub ownership_id : Application → String
ownership_id app = lookup app.annotations storage_ownership_id_annotation

-- With `now` for time.Now(). A record of the future counts as recent, as a negative duration does.
abbrev pub recently_created : String → ℕ → Option StorageStatus → Bool
recently_created bucket now none = false
recently_created bucket now (some st) =
    (st.bucket == bucket) && (st.created && ltb (now - st.created_at) bucket_creation_claim_window)

unfoldable pub tags_excluding_owner : List Tag → List Tag
tags_excluding_owner [] = []
tags_excluding_owner (t ∷ ts) =
    let rest = tags_excluding_owner ts in
    if not (t.key == owner_tag_key)
      && (not (t.key == owner_namespace_tag_key) && not (t.key == ownership_id_tag_key))
    then t ∷ rest
    else rest

-- The variables that claimOrVerifyOwnership sets from the tags.
pub record OwnerTags : Type 0 where
  pub uid : String
  pub namespace : String
  pub id : String
  pub has_owner_tag : Bool

-- the switch in the loop over the tags
unfoldable pub note_tag : OwnerTags → Tag → OwnerTags
note_tag o t =
    if t.key == owner_tag_key
    then record o { uid = t.value; has_owner_tag = true }
    else if t.key == owner_namespace_tag_key
    then record o { namespace = t.value }
    else if t.key == ownership_id_tag_key
    then record o { id = t.value }
    else o

unfoldable pub note_tags : OwnerTags → List Tag → OwnerTags
note_tags o [] = o
note_tags o (t ∷ ts) = note_tags (note_tag o t) ts

abbrev pub no_owner : OwnerTags
no_owner = record { uid = ""; namespace = ""; id = ""; has_owner_tag = false }

-- the tags that tagAsOwned appends, and the tag set that it sends
abbrev pub own_tags : Application → List Tag
own_tags app =
    record { key = owner_tag_key; value = app.uid }
    ∷ record { key = owner_namespace_tag_key; value = app.namespace }
    ∷ (if ownership_id app == ""
        then []
        else record { key = ownership_id_tag_key; value = ownership_id app } ∷ [])

unfoldable pub owned_tags : Application → List Tag → List Tag
owned_tags app other_tags = other_tags ++ own_tags app

-- the test of verifyOwnership on the first owner tag: none without one
unfoldable pub first_owner : List Tag → Option String
first_owner [] = none
first_owner (t ∷ ts) = if t.key == owner_tag_key then some t.value else first_owner ts

module _ {W : Type 0} (env : Env W) (m : Manager W) where
  abbrev pub previously_created_by_us : Session W → Bool
  previously_created_by_us s = recently_created m.bucket (env.now s.world) s.app.status.storage

  unfoldable pub tag_as_owned : List Tag → Exec (Session W) (Unit {0})
  tag_as_owned other_tags s =
      mapping_error
        (λ e. wrap (concat ("failed to tag bucket " ∷ m.bucket ∷ " as owned: " ∷ [])) e "")
        (on_world (env.s3.put_bucket_tagging m.bucket (owned_tags s.app other_tags))) s

  -- the two tails of claimOrVerifyOwnership for a bucket with no ownership tag
  unfoldable pub claim_untagged : List Tag → Exec (Session W) (Unit {0})
  claim_untagged tags s =
      if previously_created_by_us s
      then tag_as_owned tags s
      else if adopt_bucket_requested s.app
      then (increment (bucket_adopted provider_aws_s3) >> tag_as_owned tags) s
      else (err bucket_not_owned, s)

  -- the branch of claimOrVerifyOwnership for a bucket with an ownership tag
  unfoldable pub claim_tagged : OwnerTags → List Tag → Exec (Session W) (Unit {0})
  claim_tagged o tags s =
      if o.uid == s.app.uid
      then (if not (o.namespace == s.app.namespace) || not (o.id == ownership_id s.app)
          then tag_as_owned (tags_excluding_owner tags) s
          else (ok tt, s))
      else if not (ownership_id s.app == "") && (o.id == ownership_id s.app)
      then (increment (ownership_reclaimed provider_aws_s3)
            >> tag_as_owned (tags_excluding_owner tags))
          s
      else if not (adopt_bucket_requested s.app)
      then (err bucket_not_owned, s)
      else (mapping_error (λ e. wrap "" bucket_not_owned (concat (": " ∷ e.text ∷ [])))
              (on_world (evaluate_bucket_adoption env.k8s o.uid o.namespace s.app.namespace))
            >> (increment (bucket_adopted provider_aws_s3)
                >> tag_as_owned (tags_excluding_owner tags)))
          s

  unfoldable pub claim_from : Result (List Tag) → Exec (Session W) (Unit {0})
  claim_from (err e) =
      if has_code e no_such_tag_set_error_code
      then claim_untagged []
      else fail
          (wrap "" bucket_not_owned (concat (": could not verify ownership tag: " ∷ e.text ∷ [])))
  claim_from (ok tags) =
      let o = note_tags no_owner tags in
      if o.has_owner_tag then claim_tagged o tags else claim_untagged tags

  unfoldable pub claim_or_verify_ownership : Exec (Session W) (Unit {0})
  claim_or_verify_ownership = do
    r ← try (on_world (env.s3.get_bucket_tagging m.bucket))
    claim_from r

  abbrev unrecorded : Error
  unrecorded =
      wrap "" bucket_not_owned ": no ownership tag and no durable record of creating or adopting it"

  abbrev pub verify_untagged : Session W → Result (Unit {0})
  verify_untagged s =
      if previously_created_by_us s || adopt_bucket_requested s.app then ok tt else err unrecorded

  unfoldable pub verify_from : Result (List Tag) → Session W → Result (Unit {0})
  verify_from (err e) s =
      if has_code e no_such_bucket_error_code
      then ok tt
      else if has_code e no_such_tag_set_error_code
      then verify_untagged s
      else err (
          wrap "" bucket_not_owned
            (concat (": could not verify ownership tag before deletion: " ∷ e.text ∷ [])))
  verify_from (ok tags) s = elim (first_owner tags) [
    | none ↦ verify_untagged s
    | some uid ↦
        if uid == s.app.uid
        then ok tt
        else err (wrap "" bucket_not_owned ": ownership tag names a different Application")
  ]

  unfoldable pub verify_ownership : Exec (Session W) (Unit {0})
  verify_ownership = do
    r ← try (on_world (env.s3.get_bucket_tagging m.bucket))
    λ s. (verify_from r s, s)
