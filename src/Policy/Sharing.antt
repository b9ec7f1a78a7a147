-- ===== src/Policy/Sharing.antt =====
-- What the managers of several Applications, which share one S3 bucket, leave alone of it: HeadBucket's
-- answer, the tags and the list of Applications.
use forge_operator.Prelude.{String, List, [], ◌∷◌, ◌≡◌, inl, inr, Result, Keeps, arith}
use forge_operator.Api.{Application, LifecycleRule}
use forge_operator.Naming.Adoption.Keeping.{ClusterReads, evaluate_bucket_adoption-Keeps}
use forge_operator.S3.Session.{Tag, S3Rule, Env, Session, Manager}
use forge_operator.S3.Ownership.Refusal.{OnlyReads}
use forge_operator.S3.Role.Keeping.{RoleCreation, RoleDeletion, reconcile_app_irsa-Keeps}
use forge_operator.S3.Bucket.{
  desired_lifecycle_rules, s3_rules, apply_rules, status_text, ensure_versioning,
  ensure_lifecycle_policy, ensure_bucket_exists, reconcile_bucket,
}

module _ {W : Type 0} (env : Env W) (bucket : String) where
  abbrev pub Sight : Type 0
  Sight = Result (Unit {0}) × Result (List Tag) × Result (List Application)

  abbrev pub seen : W → Sight
  seen w = (
    (env.s3.head_bucket bucket w).0,
    (env.s3.get_bucket_tagging bucket w).0,
    (env.k8s.list_applications w).0,
  )

  -- Reading changes none of the three, and neither do IAM's roles and the bucket's versioning and
  -- lifecycle rules.
  pub record Sharing : Type 0 where
    pub head_bucket : (w : W) → Keeps seen (env.s3.head_bucket bucket) w
    pub get_tags : (w : W) → Keeps seen (env.s3.get_bucket_tagging bucket) w
    pub reading : ClusterReads seen env.k8s
    pub put_versioning :
        (status : String) (w : W) → Keeps seen (env.s3.put_bucket_versioning bucket status) w
    pub put_lifecycle :
        (rules : List S3Rule) (w : W)
        → Keeps seen (env.s3.put_bucket_lifecycle_configuration bucket rules) w
    pub delete_lifecycle : (w : W) → Keeps seen (env.s3.delete_bucket_lifecycle bucket) w
    pub making : RoleCreation seen env.iam
    pub deleting : RoleDeletion seen env.iam

  abbrev pub in_session : Session W → Sight
  in_session s = seen s.world

  -- the manager, with this bucket for its own
  abbrev pub of_bucket : Manager W → Manager W
  of_bucket m = record m { bucket = bucket }

  module _ (apart : Sharing) where
    pub OnlyReads-seen :
        (m : Manager W) (t u : Session W) → OnlyReads env m t u → in_session u ≡ in_session t
    OnlyReads-seen m t u (inl e) = ground arith
    OnlyReads-seen m t u (inr (uid, ns, e)) = ground (
      arith,
      evaluate_bucket_adoption-Keeps seen env.k8s apart.reading uid ns t.app.namespace t.world,
    )

    ensure_versioning-Keeps :
        (m : Manager W) (s : Session W) → Keeps in_session (ensure_versioning env (of_bucket m)) s
    unfolding ensure_versioning
    ensure_versioning-Keeps m s =
        ground (arith, apart.put_versioning (status_text env (of_bucket m)) s.world)

    apply_rules-Keeps :
        (m : Manager W) (rules : List LifecycleRule) (s : Session W)
        → Keeps in_session (apply_rules env (of_bucket m) rules) s
    apply_rules-Keeps m [] s = ground (arith, apart.delete_lifecycle s.world)
    apply_rules-Keeps m (r ∷ rs) s =
        ground (arith, apart.put_lifecycle (s3_rules 0 (r ∷ rs)) s.world)

    ensure_lifecycle_policy-Keeps :
        (m : Manager W) (s : Session W)
        → Keeps in_session (ensure_lifecycle_policy env (of_bucket m)) s
    unfolding ensure_lifecycle_policy
    ensure_lifecycle_policy-Keeps m s = apply_rules-Keeps m (desired_lifecycle_rules m.storage) s

    -- Of a bucket that is there, ReconcileBucket changes at most what its claim changes.
    pub reconcile_bucket-seen :
        (m : Manager W) (s : Session W)
        → Keeps in_session (ensure_bucket_exists env (of_bucket m)) s
        → Keeps in_session (reconcile_bucket env (of_bucket m)) s
    unfolding reconcile_bucket
    reconcile_bucket-seen m s h =
        let t = (ensure_bucket_exists env (of_bucket m) s).1 in
        let u = (ensure_versioning env (of_bucket m) t).1 in
        let v = (ensure_lifecycle_policy env (of_bucket m) u).1 in
        ground (
          arith,
          h,
          ensure_versioning-Keeps m t,
          ensure_lifecycle_policy-Keeps m u,
          reconcile_app_irsa-Keeps seen env (of_bucket m) v apart.making,
        )
