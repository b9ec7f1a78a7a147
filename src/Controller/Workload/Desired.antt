-- ===== src/Controller/Workload/Desired.antt =====
-- The autoscaler that internal/controller/hpa.go builds, and the rules of the API server.
use forge_operator.Prelude.{◌≤◌, arith}
use forge_operator.Api.{Application, AutoscalingSpec}
use forge_operator.Cluster.{HpaObject}
use forge_operator.Controller.Workload.{desired_hpa}

-- What the API server asks of an autoscaler: its replicas are in order, and its target is a percentage.
abbrev pub IsScalable : HpaObject → Type 0
IsScalable h =
    (1 ≤ h.min_replicas)
    × (h.min_replicas ≤ h.max_replicas)
    × (1 ≤ h.average_utilization)
    × (h.average_utilization ≤ 100)

-- Whatever numbers the autoscaling spec has, the autoscaler has at least one replica, no
-- smaller maximum than minimum, and a target between 1 and 100 percent.
pub desired_hpa-IsScalable :
    (app : Application) (autoscaling : AutoscalingSpec) → IsScalable (desired_hpa app autoscaling)
unfolding desired_hpa
desired_hpa-IsScalable app autoscaling = ground arith
