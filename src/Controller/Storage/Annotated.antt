-- ===== src/Controller/Storage/Annotated.antt =====
-- annotateServiceAccountWithIRSA of internal/controller/serviceaccount.go, as reconcileAWSStorage calls it:
-- what stands behind a success.
use forge_operator.Prelude.{
  Option, none, ◌↔◌, Option-cases, String, true, false, some, ◌≡◌, ◌≢◌, ◌⊎◌, ◌==◌, eq_iff, lookup,
  lookup-insert, ok, Result-cases, Bool-cases, inl, inr, arith,
}
use forge_operator.Api.{Application, ServiceAccountSpec}
use forge_operator.Cluster.{OwnedMeta}
use forge_operator.S3.Session.{Session}
use forge_operator.Controller.Session.{Reconciler}
use forge_operator.Controller.Accounts.{
  creates, role_arn_annotation, should_create_service_account, desired_service_account, with_role,
  annotate_service_account_with_irsa,
}
use forge_operator.Controller.Storage.Aws.{annotate_role}

-- The operator makes the Application's ServiceAccount: nothing is said of it, or that it is to be made, or
-- neither that nor its name.
abbrev pub MakesAccount : Option ServiceAccountSpec → Type 0
MakesAccount none = Unit
MakesAccount (some account) =
    (account.create ≡ some true) ⊎ ((account.create ≡ none) × (account.name ≡ ""))

creates_iff : (o : Option ServiceAccountSpec) → (creates o ≡ true) ↔ MakesAccount o
creates_iff none = ground arith
creates_iff (some account) = elim (Option-cases account.create) [
  | inl unset ↦ ground (arith, unset, eq_iff account.name "")
  | inr (true, set) ↦ ground (arith, set)
  | inr (false, set) ↦ ground (arith, set)
]

makes_iff :
    (app : Application)
    → (should_create_service_account app ≡ true) ↔ MakesAccount app.spec.service_account
unfolding should_create_service_account
makes_iff app = creates_iff app.spec.service_account

module _ {W : Type 0} (r : Reconciler W) where
  -- Nothing was done from `v` to `u`; or there is a role, the operator makes the Application's
  -- ServiceAccount, and one with the role in its annotation was accepted in between.
  abbrev pub IsAnnotated : String → Session W → Session W → Type 0
  IsAnnotated role v u =
      (((role ≡ "") ⊎ (¬ (MakesAccount v.app.spec.service_account))) × (u ≡ v))
      ⊎ ((role ≢ "")
          × MakesAccount v.app.spec.service_account
          × ((sent : OwnedMeta) × (lookup sent.annotations "eks.amazonaws.com/role-arn" ≡ role)
              × (r.platform.k8s.apply_service_account sent v.world ≡ (ok tt, u.world)))
          × (u ≡ record v { world = u.world }))

  annotate_account-IsAnnotated :
      (role : String) (v : Session W)
      → role ≢ ""
      → (annotate_service_account_with_irsa r role v).0 ≡ ok tt
      → IsAnnotated role v (annotate_service_account_with_irsa r role v).1
  unfolding annotate_service_account_with_irsa
  annotate_account-IsAnnotated role v set h =
      elim (Bool-cases (should_create_service_account v.app)) [
        | inr theirs ↦ inl (inr (ground (arith, theirs, makes_iff v.app)), ground (arith, theirs))
        | inl ours ↦
            elim (Result-cases (r.set_controller_reference v.app (desired_service_account v.app))) [
              | inr (e, refused) ↦ absurd (ground (arith, ours, refused))
              | inl (desired, controlled) ↦
                  elim (Result-cases
                    (r.platform.k8s.apply_service_account (with_role role desired) v.world).0) [
                      | inr (e, failed) ↦ absurd (ground (arith, ours, controlled, failed))
                      | inl (_, applied) ↦ inr (
                        set,
                        (makes_iff v.app).0 ours,
                        (
                          with_role role desired,
                          ground (
                            arith,
                            lookup-insert desired.annotations role_arn_annotation
                                role_arn_annotation role,
                          ),
                          ground (arith, ours, controlled, applied),
                        ),
                        ground (arith, ours, controlled, applied),
                      )
                    ]
            ]
      ]

  pub annotate_role-IsAnnotated :
      (role : String) (v : Session W)
      → (annotate_role r role v).0 ≡ ok tt
      → IsAnnotated role v (annotate_role r role v).1
  annotate_role-IsAnnotated role v h = elim (Bool-cases (role == "")) [
    | inl empty ↦ inl (inl (ground (arith, empty, eq_iff role "")), ground (arith, empty))
    | inr set ↦
        rw set
          (annotate_account-IsAnnotated role v (ground (arith, set, eq_iff role "")) (rw set at h))
  ]
