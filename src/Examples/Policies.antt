-- ===== src/Examples/Policies.antt =====
-- The ownership policy in both backends, on an Application that asks for the bucket of another one.
use forge_operator.Prelude.{
  true, false, some, [], ◌∷◌, ◌≡◌, ◌↔◌, refl, inl, is_ok, arith, eq_iff, lookup,
}
use mathlib.Core.List.{Memᴰ}
use forge_operator.Api.{Application}
use forge_operator.Naming.Names.{adopt_bucket_annotation, adopt_bucket_annotation_value}
use forge_operator.Policy.{MayOwn, marked}
use forge_operator.Policy.Living.{Lives, IsAnother, living_keeps_s3, living_keeps_akamai}
use forge_operator.S3.Session.{Session}
use forge_operator.S3.Ownership.{claim_or_verify_ownership}
use forge_operator.S3.Ownership.Tags.{last_value}
use forge_operator.S3.Ownership.Claim.{reply, after_reply}
use forge_operator.S3.Ownership.Refusal.{is_refusal, OnlyReads}
use forge_operator.S3.Ownership.Refines.{tag_evidence, claim_refines}
use forge_operator.Akamai.Ownership.{claim_marker, parse_owner_marker}
use forge_operator.Akamai.Ownership.Policy.{marker_evidence, marker_reply, after_marker}
use forge_operator.Akamai.Ownership.Refusal.{ReadsOnly}
use forge_operator.Examples.Samples.{
  Tagged, facing, tagged_by, lenient_env, sample_manager, sample_app, sample_metadata, cluster,
}
use forge_operator.Examples.Linode.{Marked, linode_env, linode_manager, sample_objects}

claim_refines_example :
    (is_ok (claim_or_verify_ownership lenient_env sample_manager (facing (tagged_by "uid-2"))).0
      ≡ true)
    ↔ MayOwn lenient_env.k8s sample_manager.bucket
        (lenient_env.now
          (after_reply lenient_env sample_manager (facing (tagged_by "uid-2"))).world)
        (tag_evidence (reply lenient_env sample_manager (facing (tagged_by "uid-2"))))
        (after_reply lenient_env sample_manager (facing (tagged_by "uid-2")))
claim_refines_example =
    claim_refines lenient_env sample_manager (facing (tagged_by "uid-2")) (λ tags w. refl)

-- It asks to adopt the bucket.
abbrev pub claimant : Application
claimant = record sample_app {
  metadata = record sample_metadata {
    uid = "uid-3";
    annotations = (adopt_bucket_annotation, adopt_bucket_annotation_value) ∷ [];
  };
}

abbrev over_tags : Session Tagged
over_tags = record { app = claimant; world = tagged_by "uid-1"; metrics = [] }

abbrev over_marker : Session Marked
over_marker = record { app = claimant; world = some "uid-1/prod/oid-1"; metrics = [] }

pub owner-Lives : {W : Type 0} (w : W) → Lives cluster "uid-1" w
owner-Lives w =
    (sample_app, sample_app ∷ [], refl, Memᴰ.head refl, refl, ground (arith, eq_iff "uid-1" ""))

pub claimant-IsAnother : IsAnother "uid-1" "oid-1" claimant
unfolding lookup
claimant-IsAnother = (ground (arith, eq_iff "uid-1" "uid-3"), inl refl)

IsAnother-untagged : IsAnother "uid-1" "" claimant
unfolding lookup
IsAnother-untagged = (ground (arith, eq_iff "uid-1" "uid-3"), inl refl)

tags_name_owner : tag_evidence (reply lenient_env sample_manager over_tags) ≡ marked "uid-1" "" ""
unfolding last_value lookup
tags_name_owner = refl

marker_names_owner :
    marker_evidence linode_env (marker_reply linode_env linode_manager sample_objects over_marker)
    ≡ marked "uid-1" "prod" "oid-1"
unfolding parse_owner_marker
marker_names_owner = refl

living_keeps_s3_example :
    (is_refusal lenient_env sample_manager
        (claim_or_verify_ownership lenient_env sample_manager over_tags).0
      ≡ true)
    × OnlyReads lenient_env sample_manager
        (after_reply lenient_env sample_manager over_tags)
        (claim_or_verify_ownership lenient_env sample_manager over_tags).1
living_keeps_s3_example =
    living_keeps_s3 lenient_env sample_manager over_tags "uid-1" "" "" tags_name_owner
      (owner-Lives (tagged_by "uid-1")) IsAnother-untagged

living_keeps_akamai_example :
    (is_ok (claim_marker linode_env linode_manager sample_objects over_marker).0 ≡ false)
    × ReadsOnly linode_env linode_manager sample_objects
        (after_marker linode_env linode_manager sample_objects over_marker)
        (claim_marker linode_env linode_manager sample_objects over_marker).1
living_keeps_akamai_example =
    living_keeps_akamai linode_env linode_manager sample_objects over_marker "uid-1" "prod" "oid-1"
      marker_names_owner (owner-Lives {W = Marked} (some "uid-1/prod/oid-1")) claimant-IsAnother
