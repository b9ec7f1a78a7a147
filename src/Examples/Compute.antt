-- ===== src/Examples/Compute.antt =====
-- The readiness of the sample Application (internal/controller/status) in the sample cluster.
use forge_operator.Prelude.{none, ◌↔◌}
use forge_operator.Status.Compute.{evaluate_compute_readiness}
use forge_operator.Status.Compute.Readiness.{Passes, IsComputeReady, evaluate_compute_readiness_iff}
use forge_operator.Examples.Samples.{sample_app, sample_client}

evaluate_compute_readiness_iff_example :
    Passes (evaluate_compute_readiness sample_client sample_app none).0
    ↔ IsComputeReady sample_client sample_app none
evaluate_compute_readiness_iff_example =
    evaluate_compute_readiness_iff sample_client sample_app none
