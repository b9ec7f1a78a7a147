-- ===== src/Status/Compute/Readiness.antt =====
-- When EvaluateComputeReadiness (internal/controller/status/computeReady.go) says that an
-- Application is ready: a description of the cluster's objects that names no branch of it.
use forge_operator.Prelude.{
  ℕ, ◌≤◌, ◌<◌, String, true, Option, none, some, List, [], ◌∷◌, ◌≡◌, ◌⊎◌, ◌↔◌, refl, Result, ok,
  err, is_ok, All, arith, eq_iff, Option-cases, inl, inr,
}
use forge_operator.Api.{
  Application, Condition, ConditionStatus, condition_true, condition_false, condition_unknown,
}
use forge_operator.Cluster.{
  Client, DeploymentState, LoadBalancerIngress, IngressState, HpaState, PdbState,
}
use forge_operator.Naming.Names
use forge_operator.Status.Compute.{
  is_true, is_false, Verdict, Check, rollout_issue, scaling_issue, deployment_verdict,
  ingress_verdict, hpa_verdict, pdb_verdict, service_verdict, if_set, ◌then_check◌,
  evaluate_compute_readiness, is_deployment_ready, is_ingress_ready, is_hpa_ready, is_pdb_ready,
  all_ready, check_service,
}

-- a condition of a Deployment that does not stop its rollout
abbrev pub IsHealthy : Condition → Type 0
IsHealthy c =
    ¬ ((c.type ≡ "Progressing") × (c.status ≡ condition_false))
    × ¬ ((c.type ≡ "ReplicaFailure") × (c.status ≡ condition_true))

-- As many as the spec says, or one where it says nothing.
abbrev pub Enough : Option ℕ → ℕ → Type 0
Enough none n = 1 ≤ n
Enough (some k) n = k ≤ n

-- The controller has seen the newest generation, nothing stops the rollout, and every desired
-- replica is updated, available and ready.
abbrev pub IsRolledOut : DeploymentState → Type 0
IsRolledOut d =
    (d.generation ≤ d.observed_generation)
    × All IsHealthy d.conditions
    × Enough d.spec_replicas d.updated_replicas
    × Enough d.spec_replicas d.available_replicas
    × Enough d.spec_replicas d.ready_replicas

-- The ingress status has an entry of a load balancer, whether or not with an IP or a hostname.
abbrev pub HasEntry : IngressState → Type 0
HasEntry i =
    (lb : LoadBalancerIngress) × (lbs : List LoadBalancerIngress) × (i.endpoints ≡ some (lb ∷ lbs))

abbrev pub Observed : ℕ → Option ℕ → Type 0
Observed generation none = Unit
Observed generation (some n) = generation ≤ n

-- The newest generation is observed, if any is, and nothing hinders the scaling.
abbrev pub IsScaling : HpaState → Type 0
IsScaling h =
    Observed h.generation h.observed_generation
    × All (λ c. ¬ ((c.type ≡ "AbleToScale") × (c.status ≡ condition_false))) h.conditions

-- A disruption is allowed, or there are as many healthy pods as desired.
abbrev pub IsKept : PdbState → Type 0
IsKept p = (0 < p.disruptions_allowed) ⊎ (p.desired_healthy ≤ p.current_healthy)

-- The object was found and is as described.
abbrev pub Found : {A : Type 0} → (A → Type 0) → Result A → Type 0
Found P (ok a) = P a
Found P (err e) = ⊥

-- the verdict that lets the evaluation go on
abbrev pub Passes : Verdict → Type 0
Passes v = (v.ready ≡ true) × (v.error ≡ none)

is_false_iff : (c : ConditionStatus) → (is_false c ≡ true) ↔ (c ≡ condition_false)
is_false_iff condition_true = ground arith
is_false_iff condition_false = ground arith
is_false_iff condition_unknown = ground arith

is_true_iff : (c : ConditionStatus) → (is_true c ≡ true) ↔ (c ≡ condition_true)
is_true_iff condition_true = ground arith
is_true_iff condition_false = ground arith
is_true_iff condition_unknown = ground arith

rollout_issue_iff : (cs : List Condition) → (rollout_issue cs ≡ none) ↔ All IsHealthy cs
unfolding rollout_issue
rollout_issue_iff [] = ground arith
rollout_issue_iff (c ∷ cs) = ground (
  arith,
  rollout_issue_iff cs,
  is_false_iff c.status,
  is_true_iff c.status,
  eq_iff c.type "Progressing",
  eq_iff c.type "ReplicaFailure",
)

scaling_issue_iff :
    (cs : List Condition)
    → (scaling_issue cs ≡ none)
      ↔ All (λ c. ¬ ((c.type ≡ "AbleToScale") × (c.status ≡ condition_false))) cs
unfolding scaling_issue
scaling_issue_iff [] = ground arith
scaling_issue_iff (c ∷ cs) =
    ground (arith, scaling_issue_iff cs, is_false_iff c.status, eq_iff c.type "AbleToScale")

service_iff :
    (app : Application) (r : Result (Unit {0})) → Passes (service_verdict app r) ↔ (is_ok r ≡ true)
service_iff app (ok a) = ground arith
service_iff app (err e) = ground arith

deployment_iff :
    (ns name : String) (r : Result DeploymentState)
    → Passes (deployment_verdict ns name r) ↔ Found IsRolledOut r
unfolding deployment_verdict
deployment_iff ns name (err e) = ground arith
deployment_iff ns name (ok d) = elim (Option-cases (rollout_issue d.conditions)) [
  | inl e ↦ elim (Option-cases d.spec_replicas) [
    | inl one ↦ ground (arith, e, one, rollout_issue_iff d.conditions)
    | inr (n, many) ↦ ground (arith, e, many, rollout_issue_iff d.conditions)
  ]
  | inr (t, e) ↦ ground (arith, e, rollout_issue_iff d.conditions)
]

pdb_iff : (ns name : String) (r : Result PdbState) → Passes (pdb_verdict ns name r) ↔ Found IsKept r
unfolding pdb_verdict
pdb_iff ns name (err e) = ground arith
pdb_iff ns name (ok p) = ground arith

ingress_iff :
    (ns name : String) (r : Result IngressState)
    → Passes (ingress_verdict ns name r) ↔ Found HasEntry r
unfolding ingress_verdict
ingress_iff ns name (err e) = ground arith
ingress_iff ns name (ok i) = elim (Option-cases i.endpoints) [
  | inl e ↦ rw e (ground arith)
  | inr ([], e) ↦ rw e (ground arith)
  | inr (lb ∷ lbs, e) ↦ ((λ h. (lb, lbs, e)), λ h. rw e (refl, refl))
]

hpa_iff :
    (ns name : String) (r : Result HpaState) → Passes (hpa_verdict ns name r) ↔ Found IsScaling r
unfolding hpa_verdict
hpa_iff ns name (err e) = ground arith
hpa_iff ns name (ok h) = elim (Option-cases h.observed_generation) [
  | inl e ↦ elim (Option-cases (scaling_issue h.conditions)) [
    | inl f ↦ ground (arith, e, f, scaling_issue_iff h.conditions)
    | inr (t, f) ↦ ground (arith, e, f, scaling_issue_iff h.conditions)
  ]
  | inr (n, e) ↦ elim (Option-cases (scaling_issue h.conditions)) [
    | inl f ↦ ground (arith, e, f, scaling_issue_iff h.conditions)
    | inr (t, f) ↦ ground (arith, e, f, scaling_issue_iff h.conditions)
  ]
]

-- Where the part of the spec is set, P.
abbrev pub Asked : {A : Type 0} → Option A → Type 0 → Type 0
Asked none P = Unit
Asked (some a) P = P

Asked-map : {A : Type 0} (o : Option A) {P Q : Type 0} → P ↔ Q → Asked o P ↔ Asked o Q
Asked-map none h = ((λ x. x), λ x. x)
Asked-map (some a) h = h

module _ {W : Type 0} where
  then_check_iff :
      (f next : Check W) (w : W)
      → Passes ((f then_check next) w).0 ↔ (Passes (f w).0 × Passes (next (f w).1).0)
  then_check_iff f next w = elim (Option-cases (f w).0.error) [
    | inl e ↦ ground (arith, e)
    | inr (x, e) ↦ ground (arith, e)
  ]

  -- the world after a question that is asked where the part of the spec is set
  abbrev pub asked : {A : Type 0} → Option A → (W → W) → W → W
  asked none step w = w
  asked (some a) step w = step w

  if_set_iff :
      {A : Type 0} (o : Option A) (f next : Check W) (w : W)
      → Passes (if_set o f next w).0
        ↔ (Asked o (Passes (f w).0) × Passes (next (asked o (λ v. (f v).1) w)).0)
  if_set_iff none f next w = ground arith
  if_set_iff (some a) f next w = then_check_iff f next w

module _ {W : Type 0} (k : Client W) where
  -- The worlds in which the objects are read, one after the other.
  abbrev after_service : Application → W → W
  after_service app w = (k.get_service app.namespace (Names.service app) w).1

  abbrev after_deployment : Application → W → W
  after_deployment app w = (k.get_deployment app.namespace (Names.deployment app) w).1

  abbrev after_ingress : Application → W → W
  after_ingress app w =
      asked app.spec.ingress (λ v. (k.get_ingress app.namespace (Names.ingress app) v).1) w

  abbrev after_hpa : Application → W → W
  after_hpa app w =
      asked app.spec.autoscaling (λ v. (k.get_hpa app.namespace (Names.hpa app) v).1) w

  -- The Service is there, the Deployment rolled out, and of the ingress, the autoscaler and the
  -- disruption budget those that the spec asks for are there and in order.
  abbrev pub IsComputeReady : Application → W → Type 0
  IsComputeReady app w =
      let ns = app.namespace in
      let w1 = after_service app w in
      let w2 = after_deployment app w1 in
      let w3 = after_ingress app w2 in
      let w4 = after_hpa app w3 in
      (is_ok (k.get_service ns (Names.service app) w).0 ≡ true)
      × Found IsRolledOut (k.get_deployment ns (Names.deployment app) w1).0
      × Asked app.spec.ingress (Found HasEntry (k.get_ingress ns (Names.ingress app) w2).0)
      × Asked app.spec.autoscaling (Found IsScaling (k.get_hpa ns (Names.hpa app) w3).0)
      × Asked app.spec.pdb (Found IsKept (k.get_pdb ns (Names.pdb app) w4).0)

  pdb_part :
      (app : Application) (w : W)
      → Passes
          (if_set app.spec.pdb (is_pdb_ready k app.namespace (Names.pdb app)) (all_ready k) w).0
        ↔ Asked app.spec.pdb (Found IsKept (k.get_pdb app.namespace (Names.pdb app) w).0)
  pdb_part app w = ground (
    arith,
    if_set_iff app.spec.pdb (is_pdb_ready k app.namespace (Names.pdb app)) (all_ready k) w,
    Asked-map app.spec.pdb
        (pdb_iff app.namespace (Names.pdb app) (k.get_pdb app.namespace (Names.pdb app) w).0),
  )

  -- EvaluateComputeReadiness says ready, with no error, exactly if the Service is there, the
  -- Deployment is rolled out, and, of those that the spec asks for, the status of the ingress has an
  -- entry of a load balancer (whether or not with an IP or a hostname), the autoscaler can scale, and
  -- the disruption budget allows a disruption or has as many healthy pods as it desires.
  pub evaluate_compute_readiness_iff :
      (app : Application) (w : W)
      → Passes (evaluate_compute_readiness k app w).0 ↔ IsComputeReady app w
  unfolding evaluate_compute_readiness
  evaluate_compute_readiness_iff app w =
      let ns = app.namespace in
      let w1 = after_service app w in
      let w2 = after_deployment app w1 in
      let w3 = after_ingress app w2 in
      let w4 = after_hpa app w3 in
      let pdb_rest = if_set app.spec.pdb (is_pdb_ready k ns (Names.pdb app)) (all_ready k) in
      let hpa_rest = if_set app.spec.autoscaling (is_hpa_ready k ns (Names.hpa app)) pdb_rest in
      let ingress_rest =
        if_set app.spec.ingress (is_ingress_ready k ns (Names.ingress app)) hpa_rest in
      let deployment_rest =
        is_deployment_ready k ns (Names.deployment app) then_check ingress_rest in
      let c1 = then_check_iff (check_service k app) deployment_rest w in
      let c2 = then_check_iff (is_deployment_ready k ns (Names.deployment app)) ingress_rest w1 in
      let c3 =
        if_set_iff app.spec.ingress (is_ingress_ready k ns (Names.ingress app)) hpa_rest w2 in
      let c4 = if_set_iff app.spec.autoscaling (is_hpa_ready k ns (Names.hpa app)) pdb_rest w3 in
      let c5 = pdb_part app w4 in
      let d1 = service_iff app (k.get_service ns (Names.service app) w).0 in
      let d2 =
        deployment_iff ns (Names.deployment app)
          (k.get_deployment ns (Names.deployment app) w1).0 in
      let d3 =
        Asked-map app.spec.ingress
          (ingress_iff ns (Names.ingress app) (k.get_ingress ns (Names.ingress app) w2).0) in
      let d4 =
        Asked-map app.spec.autoscaling
          (hpa_iff ns (Names.hpa app) (k.get_hpa ns (Names.hpa app) w3).0) in
      (
        (λ p.
            let (a, p1) = c1.0 p in
            let (b, p2) = c2.0 p1 in
            let (i, p3) = c3.0 p2 in
            let (h, p4) = c4.0 p3 in (d1.0 a, d2.0 b, d3.0 i, d4.0 h, c5.0 p4)),
        λ (a, b, i, h, q). c1.1 (d1.1 a, c2.1 (d2.1 b, c3.1 (d3.1 i, c4.1 (d4.1 h, c5.1 q)))),
      )
