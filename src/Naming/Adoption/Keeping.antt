-- ===== src/Naming/Adoption/Keeping.antt =====
-- EvaluateBucketAdoption of internal/controller/naming/naming.go changes nothing that reading Applications
-- and namespaces leaves alone.
use forge_operator.Prelude.{String, Keeps, arith}
use forge_operator.Cluster.{Client}
use forge_operator.Naming.Adoption.{
  evaluate_bucket_adoption, application_exists_with_uid, cross_namespace_adoption_allowed,
}

module _ {W : Type 0} {O : Type 0} (see : W → O) where
  -- Reading Applications and namespaces leaves what is seen as it is.
  pub record ClusterReads (k8s : Client W) : Type 0 where
    pub list : (w : W) → Keeps see k8s.list_applications w
    pub get_namespace : (name : String) (w : W) → Keeps see (k8s.get_namespace name) w

  module _ (k8s : Client W) (reads : ClusterReads k8s) where
    exists-Keeps : (uid : String) (w : W) → Keeps see (application_exists_with_uid k8s uid) w
    unfolding application_exists_with_uid
    exists-Keeps uid w = ground (arith, reads.list w)

    grant-Keeps :
        (owner adopter : String) (w : W)
        → Keeps see (cross_namespace_adoption_allowed k8s owner adopter) w
    unfolding cross_namespace_adoption_allowed
    grant-Keeps owner adopter w = ground (arith, reads.get_namespace owner w)

    pub evaluate_bucket_adoption-Keeps :
        (uid owner adopter : String) (w : W)
        → Keeps see (evaluate_bucket_adoption k8s uid owner adopter) w
    unfolding evaluate_bucket_adoption
    evaluate_bucket_adoption-Keeps uid owner adopter w =
        let after = (application_exists_with_uid k8s uid w).1 in
        ground (arith, exists-Keeps uid w, grant-Keeps owner adopter after)
