-- ===== src/Examples/Names.antt =====
-- The theorems on names and on adoption (internal/controller/naming) on concrete names.
use Prim.Native.String.{len}
use forge_operator.Prelude.{◌≤◌, String, none, [], ◌∷◌, ◌≡◌, ◌↔◌, ok, arith}
use forge_operator.Naming.Names.{cloud_resource_name}
use forge_operator.Naming.Names.RoleNames.{len-cloud_resource_name}
use forge_operator.Naming.Adoption.{evaluate_bucket_adoption}
use forge_operator.Naming.Adoption.Entitlement.{MayAdopt, evaluate-ok_iff}
use forge_operator.Examples.Samples.{sample_client}

abbrev digest : String → String
digest t = "0123456789abcdef"

len-cloud_resource_name_example :
    len (cloud_resource_name digest ("app-irsa" ∷ "prod" ∷ "shop" ∷ []) 64) ≤ 64
len-cloud_resource_name_example =
    len-cloud_resource_name digest ("app-irsa" ∷ "prod" ∷ "shop" ∷ []) 64 (omega arith)

evaluate-ok_iff_example :
    ((evaluate_bucket_adoption sample_client "gone" "dev" "prod" none).0 ≡ ok tt)
    ↔ MayAdopt sample_client "gone" "dev" "prod" none
evaluate-ok_iff_example = evaluate-ok_iff sample_client "gone" "dev" "prod" none
