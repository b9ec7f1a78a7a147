-- ===== src/S3/Role/Keeping.antt =====
-- The roles of internal/controller/s3/desireds3.go and cleanup.go touch nothing of the world that is apart
-- from IAM's roles.
use forge_operator.Prelude.{String, ◌≡◌, Keeps, arith}
use forge_operator.S3.Session.{IamApi, Env, Session, Manager}
use forge_operator.S3.Role.{
  irsa_role_name, s3_bucket_access_policy_name, cleanup_app_irsa, reconcile_app_irsa, role_from,
  trust_policy, s3_policy,
}

module _ {W : Type 0} (env : Env W) (m : Manager W) where
  pub app-cleanup_app_irsa : (s : Session W) → (cleanup_app_irsa env m s).1.app ≡ s.app
  unfolding cleanup_app_irsa
  app-cleanup_app_irsa s = ground arith

module _ {W : Type 0} {O : Type 0} (see : W → O) where
  -- The deletion of a role leaves what is seen as it is.
  pub record RoleDeletion (iam : IamApi W) : Type 0 where
    pub delete_role_policy :
        (role name : String) (w : W) → Keeps see (iam.delete_role_policy role name) w
    pub delete_role : (role : String) (w : W) → Keeps see (iam.delete_role role) w

  -- Making a role leaves what is seen as it is.
  pub record RoleCreation (iam : IamApi W) : Type 0 where
    pub get_role : (role : String) (w : W) → Keeps see (iam.get_role role) w
    pub create_role :
        (role trust boundary : String) (w : W) → Keeps see (iam.create_role role trust boundary) w
    pub update_assume_role_policy :
        (role policy : String) (w : W) → Keeps see (iam.update_assume_role_policy role policy) w
    pub put_role_policy :
        (role name policy : String) (w : W) → Keeps see (iam.put_role_policy role name policy) w

  module _ (env : Env W) (m : Manager W) where
    pub cleanup_app_irsa-Keeps :
        (s : Session W) → RoleDeletion env.iam → Keeps (λ u. see u.world) (cleanup_app_irsa env m) s
    unfolding cleanup_app_irsa
    cleanup_app_irsa-Keeps s calls =
        let name = irsa_role_name env.sha256_hex s.app in
        let after = (env.iam.delete_role_policy name s3_bucket_access_policy_name s.world).1 in
        ground (
          arith,
          calls.delete_role_policy name s3_bucket_access_policy_name s.world,
          calls.delete_role name after,
        )

    pub reconcile_app_irsa-Keeps :
        (s : Session W)
        → RoleCreation env.iam
        → Keeps (λ u. see u.world) (reconcile_app_irsa env m) s
    unfolding reconcile_app_irsa role_from
    reconcile_app_irsa-Keeps s calls =
        let name = irsa_role_name env.sha256_hex s.app in
        let trust = trust_policy env m s.app in
        let found = (env.iam.get_role name s.world).1 in
        let made = (env.iam.create_role name trust m.permissions_boundary_arn found).1 in
        let updated = (env.iam.update_assume_role_policy name trust found).1 in
        ground (
          arith,
          calls.get_role name s.world,
          calls.create_role name trust m.permissions_boundary_arn found,
          calls.update_assume_role_policy name trust found,
          calls.put_role_policy name s3_bucket_access_policy_name (s3_policy env m) made,
          calls.put_role_policy name s3_bucket_access_policy_name (s3_policy env m) updated,
        )
