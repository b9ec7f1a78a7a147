-- ===== src/Examples/Buckets.antt =====
-- The theorems on buckets (internal/controller/s3) on the sample bucket under several tag sets.
use forge_operator.Prelude.{
  String, true, false, none, List, [], ◌∷◌, ◌≡◌, ◌≢◌, ◌⊎◌, inl, inr, Option-cases, ◌↔◌, refl, ok,
  is_ok, arith, eq_iff, lookup,
}
use forge_operator.S3.Session.{Tag, Upload}
use forge_operator.S3.Ownership.{
  claim_or_verify_ownership, claim_from, claim_tagged, note_tags, note_tag, verify_ownership,
  verify_from, first_owner, tag_as_owned, owned_tags, tags_excluding_owner, ownership_id,
}
use forge_operator.S3.Ownership.Tags.{last_value}
use forge_operator.S3.Ownership.Claim.{Entitled, reply, after_reply}
use forge_operator.S3.Ownership.Refusal.{is_refusal, OnlyReads, claim_refused}
use forge_operator.S3.Ownership.Stable.{TagStore, UniqueKeys, verify_after_claim, claim_stable}
use forge_operator.S3.Role.{cleanup_app_irsa, role_from, reconcile_app_irsa}
use forge_operator.S3.Bucket.{
  reconcile_bucket, ensure_bucket_exists, ensure_from, ensure_versioning, ensure_lifecycle_policy,
}
use forge_operator.S3.Bucket.Gate.{
  IsThere, IsEntitled, CreatedBefore, after_head, after_looking, reconcile_refused,
  reconcile-IsEntitled,
}
use forge_operator.S3.Cleanup.{delete_all_object_versions, cleanup_bucket, abort_multipart_uploads}
use forge_operator.S3.Cleanup.Guard.{after_role, cleanup_refused}
use forge_operator.S3.Cleanup.Objects.{PagesDeleted, delete_all_object_versions_iff}
use forge_operator.S3.Cleanup.Uploads.{after_aborts, after_list, AllAborted, abort_all}
use forge_operator.Examples.Samples.{
  has_key, is_unique, facing, tagged_by, sample_env, sample_manager,
}

own_is_claimed :
    is_ok (claim_or_verify_ownership sample_env sample_manager (facing (tagged_by "uid-1"))).0
    ≡ true
unfolding claim_or_verify_ownership claim_from claim_tagged note_tags note_tag tag_as_owned
    owned_tags tags_excluding_owner lookup
own_is_claimed = refl

pub not-Entitled : ¬ (
    Entitled sample_env sample_manager
      (reply sample_env sample_manager (facing (tagged_by "uid-2")))
      (after_reply sample_env sample_manager (facing (tagged_by "uid-2"))))
unfolding last_value lookup
not-Entitled = ground (arith, eq_iff "uid-2" "uid-1")

claim_refused_example :
    (is_refusal sample_env sample_manager
        (claim_or_verify_ownership sample_env sample_manager (facing (tagged_by "uid-2"))).0
      ≡ true)
    × OnlyReads sample_env sample_manager
        (after_reply sample_env sample_manager (facing (tagged_by "uid-2")))
        (claim_or_verify_ownership sample_env sample_manager (facing (tagged_by "uid-2"))).1
claim_refused_example =
    claim_refused sample_env sample_manager (facing (tagged_by "uid-2")) not-Entitled

has_key-none : (k : String) (ts : List Tag) → has_key k ts ≡ false → last_value k ts ≡ none
unfolding last_value
has_key-none k [] h = refl
has_key-none k (t ∷ ts) h = ground (arith, has_key-none k ts)

is_unique_iff : (ts : List Tag) → is_unique ts ≡ true → UniqueKeys ts
unfolding last_value
is_unique_iff [] h = tt
is_unique_iff (t ∷ ts) h = (has_key-none t.key ts (ground arith), is_unique_iff ts (ground arith))

-- The sample tag store keeps the laws.
pub sample_store : TagStore sample_env
sample_store = record {
  get-put = λ b tags w h. ground arith;
  get-get = λ b w. refl;
  unique = λ b w tags h. elim (Option-cases w) [
    | inl e ↦ absurd (ground arith)
    | inr (ts, e) ↦ is_unique_iff tags (ground arith)
  ];
}

has_ownership_id : ownership_id (facing (tagged_by "uid-1")).app ≢ ""
unfolding lookup
has_ownership_id = ground (arith, eq_iff "oid-1" "")

verify_after_claim_example :
    is_ok
      (verify_ownership sample_env sample_manager
        (claim_or_verify_ownership sample_env sample_manager (facing (tagged_by "uid-1"))).1).0
    ≡ true
verify_after_claim_example =
    verify_after_claim sample_env sample_manager sample_store (facing (tagged_by "uid-1"))
      has_ownership_id own_is_claimed

claim_stable_example :
    claim_or_verify_ownership sample_env sample_manager
      (claim_or_verify_ownership sample_env sample_manager (facing (tagged_by "uid-1"))).1
    ≡ (
      ok tt,
      after_reply sample_env sample_manager
          (claim_or_verify_ownership sample_env sample_manager (facing (tagged_by "uid-1"))).1,
    )
claim_stable_example =
    claim_stable sample_env sample_manager sample_store (facing (tagged_by "uid-1"))
      has_ownership_id own_is_claimed

reconcile_refused_example :
    (is_refusal sample_env sample_manager
        (reconcile_bucket sample_env sample_manager (facing (tagged_by "uid-2"))).0
      ≡ true)
    × OnlyReads sample_env sample_manager
        (after_looking sample_env sample_manager (facing (tagged_by "uid-2")))
        (reconcile_bucket sample_env sample_manager (facing (tagged_by "uid-2"))).1
reconcile_refused_example =
    reconcile_refused sample_env sample_manager (facing (tagged_by "uid-2")) refl not-Entitled

own_is_reconciled :
    is_ok (reconcile_bucket sample_env sample_manager (facing (tagged_by "uid-1"))).0 ≡ true
unfolding reconcile_bucket ensure_bucket_exists ensure_from claim_or_verify_ownership claim_from
    note_tags note_tag claim_tagged tag_as_owned owned_tags tags_excluding_owner lookup
    ensure_versioning ensure_lifecycle_policy reconcile_app_irsa role_from
own_is_reconciled = refl

reconcile-IsEntitled_example :
    (IsThere sample_env sample_manager (facing (tagged_by "uid-1"))
      × IsEntitled sample_env sample_manager (facing (tagged_by "uid-1")))
    ⊎ CreatedBefore sample_env sample_manager
        (after_head sample_env sample_manager (facing (tagged_by "uid-1")))
reconcile-IsEntitled_example =
    reconcile-IsEntitled sample_env sample_manager (facing (tagged_by "uid-1")) own_is_reconciled

not_verified : ¬ (
    is_ok
      (verify_ownership sample_env sample_manager
        (after_role sample_env sample_manager (facing (tagged_by "uid-2")))).0
    ≡ true)
unfolding verify_ownership verify_from first_owner cleanup_app_irsa lookup
not_verified = ground arith

cleanup_refused_example :
    (is_refusal sample_env sample_manager
        (cleanup_bucket sample_env sample_manager (facing (tagged_by "uid-2"))).0.1
      ≡ true)
    × ((cleanup_bucket sample_env sample_manager (facing (tagged_by "uid-2"))).1
        ≡ after_reply sample_env sample_manager
            (after_role sample_env sample_manager (facing (tagged_by "uid-2"))))
cleanup_refused_example =
    cleanup_refused sample_env sample_manager (facing (tagged_by "uid-2")) not_verified

abbrev two_uploads : List Upload
two_uploads = record { key = "a"; upload_id = "stuck" } ∷ record { key = "b"; upload_id = "2" } ∷ []

abort_all_example :
    ((abort_multipart_uploads sample_env sample_manager (facing none)).1
      ≡ after_aborts sample_env sample_manager two_uploads
          (after_list sample_env sample_manager (facing none)))
    × ((is_ok (abort_multipart_uploads sample_env sample_manager (facing none)).0 ≡ true)
        ↔ AllAborted sample_env sample_manager two_uploads
            (after_list sample_env sample_manager (facing none)))
abort_all_example = abort_all sample_env sample_manager two_uploads (facing none) refl

delete_all_object_versions_iff_example :
    (is_ok (delete_all_object_versions sample_env sample_manager (facing none)).0 ≡ true)
    ↔ PagesDeleted sample_env sample_manager
        (sample_env.s3.list_object_versions "shop-data")
        (facing none)
delete_all_object_versions_iff_example =
    delete_all_object_versions_iff sample_env sample_manager (facing none)
