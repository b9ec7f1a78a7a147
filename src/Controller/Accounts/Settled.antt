-- ===== src/Controller/Accounts/Settled.antt =====
-- The two writers of a ServiceAccount in internal/controller/serviceaccount.go, once the role is in the
-- status.
use forge_operator.Prelude.{String, false, Option, ◌≡◌, ◌≢◌, refl, arith, eq_iff, insert, ◌==◌}
use forge_operator.Api.{Application, StorageSpec, StorageStatus, Time}
use forge_operator.Storage.{configured_status}
use forge_operator.Controller.Accounts.{desired_service_account, with_role}
use forge_operator.Controller.Storage.Aws.{with_record}

-- Once a reconcile of S3 storage has recorded its role, the ServiceAccount that reconcileServiceAccount
-- applies is the one that annotateServiceAccountWithIRSA applies for this role, so that the two do not
-- undo each other's writes.
pub annotation_settled :
    (app : Application) (spec : StorageSpec) (before : Option StorageStatus) (role : String)
    (now : Time)
    → role ≢ ""
    → with_role role
        (desired_service_account (with_record (configured_status spec before role now) app))
      ≡ desired_service_account (with_record (configured_status spec before role now) app)
unfolding desired_service_account configured_status insert
annotation_settled app spec before role now h =
    let nonempty : (role == "") ≡ false = ground (arith, eq_iff role "") in rw nonempty refl
