-- ===== src/Status/Compute.antt =====
-- internal/controller/status/{computeReady,deployment,ingress,hpa,pdb}.go: whether the compute
-- resources of an Application are ready. Child Readiness: when EvaluateComputeReadiness says so.
pub mod Readiness
use forge_operator.Prelude.{
  ℕ, String, Bool, true, false, not, ◌&&◌, ◌||◌, Option, none, some, List, [], ◌∷◌, Result, ok, err,
  Error, ltb, nat_eq, is_some, ◌==◌, if◌then◌else◌, concat, decimal,
}
use forge_operator.Api.{Application, Condition, ConditionStatus, condition_true, condition_false}
use forge_operator.Cluster.{
  Client, DeploymentState, LoadBalancerIngress, IngressState, HpaState, PdbState,
}
use forge_operator.Naming.Names

-- the three results of the functions
pub record Verdict : Type 0 where
  pub ready : Bool
  pub message : String
  pub error : Option Error

abbrev pub says : Bool → String → Verdict
says b t = record { ready = b; message = t; error = none }

-- client.IgnoreNotFound(err)
abbrev pub ignore_not_found : Error → Option Error
ignore_not_found e = if e.is_not_found then none else some e

abbrev missing : String → Error → Verdict
missing t e = record { ready = false; message = t; error = ignore_not_found e }

abbrev pub is_false : ConditionStatus → Bool
is_false condition_false = true
is_false _ = false

abbrev pub is_true : ConditionStatus → Bool
is_true condition_true = true
is_true _ = false

-- the loop over a Deployment's conditions: the message of the first one that stops the rollout
unfoldable pub rollout_issue : List Condition → Option String
rollout_issue [] = none
rollout_issue (c ∷ cs) =
    if (c.type == "Progressing") && is_false c.status
    then some (concat ("Deployment rollout issue: " ∷ c.message ∷ []))
    else if (c.type == "ReplicaFailure") && is_true c.status
    then some (concat ("Deployment failed creating pods: " ∷ c.message ∷ []))
    else rollout_issue cs

abbrev pub desired_replicas : Option ℕ → ℕ
desired_replicas none = 1
desired_replicas (some n) = n

abbrev of_desired : String → ℕ → ℕ → String → Verdict
of_desired before n desired after =
    says false (concat (before ∷ decimal n ∷ "/" ∷ decimal desired ∷ after ∷ []))

abbrev lags : String → ℕ → ℕ → Verdict
lags kind observed generation = says false (
    concat (
      kind
      ∷ " rollout in progress: status generation ("
      ∷ decimal observed
      ∷ ") lags spec generation "
      ∷ decimal generation
      ∷ []))

-- the checks of the replicas
abbrev pub replicas_verdict : ℕ → DeploymentState → Verdict
replicas_verdict desired d =
    if ltb d.updated_replicas desired
    then of_desired "Deployment rollout in progress: " d.updated_replicas desired " updated"
    else if ltb d.available_replicas desired
    then of_desired "Waiting for pod availability: " d.available_replicas desired " available"
    else if ltb d.ready_replicas desired
    then of_desired "Deployment pods are not ready: " d.ready_replicas desired " ready"
    else says true "Deployment pods are fully ready"

abbrev issue_or_replicas : Option String → DeploymentState → Verdict
issue_or_replicas (some t) d = says false t
issue_or_replicas none d = replicas_verdict (desired_replicas d.spec_replicas) d

unfoldable pub deployment_verdict : String → String → Result DeploymentState → Verdict
deployment_verdict ns name (err e) =
    missing (concat ("Deployment " ∷ ns ∷ " " ∷ name ∷ " not found:" ∷ [])) e
deployment_verdict ns name (ok d) =
    if ltb d.observed_generation d.generation
    then lags "Deployment" d.observed_generation d.generation
    else issue_or_replicas (rollout_issue d.conditions) d

-- lb[0].IP, or lb[0].Hostname
abbrev endpoint : LoadBalancerIngress → String
endpoint lb = if lb.ip == "" then lb.hostname else lb.ip

abbrev endpoints_verdict : Option (List LoadBalancerIngress) → Verdict
endpoints_verdict none = says false "Ingress pending controller reconciliation"
endpoints_verdict (some []) = says false "Ingress reconciled: (pending IP/Hostname from controller)"
endpoints_verdict (some (lb ∷ lbs)) =
    says true (concat ("Ingress assigned endpoint: " ∷ endpoint lb ∷ []))

unfoldable pub ingress_verdict : String → String → Result IngressState → Verdict
ingress_verdict ns name (err e) =
    missing (concat ("Ingress " ∷ ns ∷ " " ∷ name ∷ " not found:" ∷ [])) e
ingress_verdict ns name (ok i) = endpoints_verdict i.endpoints

-- the loop over an HPA's conditions
unfoldable pub scaling_issue : List Condition → Option String
scaling_issue [] = none
scaling_issue (c ∷ cs) =
    if (c.type == "AbleToScale") && is_false c.status
    then some (concat ("HPA scaling issue: " ∷ c.message ∷ []))
    else scaling_issue cs

abbrev issue_or_active : Option String → HpaState → Verdict
issue_or_active (some t) h = says false t
issue_or_active none h =
    says true (concat ("HPA active(current replicas: " ∷ decimal h.current_replicas ∷ ")" ∷ []))

abbrev observed_verdict : Option ℕ → HpaState → Verdict
observed_verdict none h = issue_or_active (scaling_issue h.conditions) h
observed_verdict (some n) h =
    if ltb n h.generation
    then lags "HPA" n h.generation
    else issue_or_active (scaling_issue h.conditions) h

unfoldable pub hpa_verdict : String → String → Result HpaState → Verdict
hpa_verdict ns name (err e) = missing (concat ("HPA " ∷ ns ∷ " " ∷ name ∷ " not found:" ∷ [])) e
hpa_verdict ns name (ok h) = observed_verdict h.observed_generation h

unfoldable pub pdb_verdict : String → String → Result PdbState → Verdict
pdb_verdict ns name (err e) = missing (concat ("PDB " ∷ ns ∷ "/" ∷ name ∷ " not found:" ∷ [])) e
pdb_verdict ns name (ok p) =
    if nat_eq p.disruptions_allowed 0 && ltb p.current_healthy p.desired_healthy
    then of_desired "PDB unhealthy: " p.current_healthy p.desired_healthy " healthy pods"
    else says true "PDB active and healthy"

abbrev pub service_verdict : Application → Result (Unit {0}) → Verdict
service_verdict app (ok a) = says true ""
service_verdict app (err e) =
    let place = concat (app.namespace ∷ "/" ∷ app.name ∷ []) in
    if e.is_not_found
    then says false (concat ("Service " ∷ place ∷ " not found" ∷ []))
    else record {
      ready = false;
      message = concat ("Error fetching Service " ∷ place ∷ ": " ∷ e.text ∷ []);
      error = some e;
    }

-- A check reads the world; the clients' reads may change it.
abbrev pub Check : Type 0 → Type 0
Check W = W → Verdict × W

module _ {W : Type 0} where
  -- `ready, msg, err := f; if !ready || err != nil { return ready, msg, err }`
  abbrev pub unless_ready : Verdict → Check W → Check W
  unless_ready v next w = if not v.ready || is_some v.error then (v, w) else next w

  infixr 5 ◌then_check◌
  abbrev pub ◌then_check◌ : Check W → Check W → Check W
  f then_check next = λ w. let (v, w') = f w in unless_ready v next w'

  -- `if spec != nil { ... }` around such a check
  abbrev pub if_set : {A : Type 0} → Option A → Check W → Check W → Check W
  if_set none f next = next
  if_set (some a) f next = f then_check next

module _ {W : Type 0} (k : Client W) where
  abbrev pub check_service : Application → Check W
  check_service app w =
      let (r, w') = k.get_service app.namespace (Names.service app) w in (service_verdict app r, w')

  abbrev pub is_deployment_ready : String → String → Check W
  is_deployment_ready ns name w =
      let (r, w') = k.get_deployment ns name w in (deployment_verdict ns name r, w')

  abbrev pub is_ingress_ready : String → String → Check W
  is_ingress_ready ns name w =
      let (r, w') = k.get_ingress ns name w in (ingress_verdict ns name r, w')

  abbrev pub is_hpa_ready : String → String → Check W
  is_hpa_ready ns name w = let (r, w') = k.get_hpa ns name w in (hpa_verdict ns name r, w')

  abbrev pub is_pdb_ready : String → String → Check W
  is_pdb_ready ns name w = let (r, w') = k.get_pdb ns name w in (pdb_verdict ns name r, w')

  abbrev pub all_ready : Check W
  all_ready w = (says true "All Compute resources are ready", w)

  unfoldable pub evaluate_compute_readiness : Application → Check W
  evaluate_compute_readiness app =
      let ns = app.namespace in
      check_service app
      then_check (is_deployment_ready ns (Names.deployment app)
          then_check (if_set app.spec.ingress (is_ingress_ready ns (Names.ingress app)) (
              if_set app.spec.autoscaling (is_hpa_ready ns (Names.hpa app))
                (if_set app.spec.pdb (is_pdb_ready ns (Names.pdb app)) all_ready))))
