-- ===== src/Controller/Workload/Fitting.antt =====
-- The objects that internal/controller builds of one Application fit each other: service.go, ingress.go,
-- hpa.go, pdb.go and deployment.go.
use forge_operator.Prelude.{String, Bool, none, [], ◌∷◌, StringMap, lookup, All, ◌≡◌, ◌≢◌, refl}
use forge_operator.Api.{Application, IngressSpec, AutoscalingSpec, PdbSpec}
use forge_operator.Controller.Workload.{
  app_labels, desired_service, desired_ingress, desired_hpa, desired_pdb,
}
use forge_operator.Controller.Deployment.{desired_deployment, desired_pod_spec}

-- Each label of the selector is on the object, with its value.
abbrev pub Selects : StringMap → StringMap → Type 0
Selects selector labels =
    All (λ (entry : String × String). lookup labels entry.0 ≡ entry.1) selector

own_labels : (app : Application) → Selects (app_labels app) (app_labels app)
unfolding lookup
own_labels app = (refl, tt)

foreign_labels :
    (app other : Application)
    → app.name ≢ other.name
    → ¬ (Selects (app_labels app) (app_labels other))
unfolding lookup
foreign_labels app other differ (same, _) = differ (cc)

module _ (app other : Application) (exists : Bool) (ingress : IngressSpec)
    (autoscaling : AutoscalingSpec) (pdb : PdbSpec) where
  -- The Deployment, the Service and the disruption budget select the Deployment's pods, and the last two
  -- none of the other Application; the autoscaler targets the Deployment, the Ingress the Service at its
  -- port; all are in the Application's namespace; the Service leads to the port of the container.
  abbrev pub Fit : Type 0
  Fit =
      Selects (desired_deployment app exists).match_labels
        (desired_deployment app exists).pod_labels
      × Selects (desired_service app).selector (desired_deployment app exists).pod_labels
      × Selects (desired_pdb app pdb).match_labels (desired_deployment app exists).pod_labels
      × (¬ (Selects (desired_service app).selector (desired_deployment other exists).pod_labels))
      × (¬ (
          Selects (desired_pdb app pdb).match_labels (desired_deployment other exists).pod_labels))
      × ((desired_hpa app autoscaling).target_kind ≡ "Deployment")
      × ((desired_hpa app autoscaling).target_name ≡ (desired_deployment app exists).metadata.name)
      × ((desired_ingress app ingress).backend_name ≡ (desired_service app).metadata.name)
      × ((desired_ingress app ingress).backend_port ≡ (desired_service app).port)
      × All (λ namespace. namespace ≡ app.namespace)
          ((desired_deployment app exists).metadata.namespace
            ∷ (desired_service app).metadata.namespace
            ∷ (desired_ingress app ingress).metadata.namespace
            ∷ (desired_hpa app autoscaling).metadata.namespace
            ∷ (desired_pdb app pdb).metadata.namespace
            ∷ [])
      × ((desired_service app).target_port ≡ (desired_deployment app exists).pod.container_port)

  -- The objects of one Application fit each other, if its Service has no target port of its own, beside
  -- an Application of another name: the Deployment, the Service and the disruption budget select the
  -- Deployment's pods, and the last two none of the other Application; the autoscaler targets the
  -- Deployment, and the Ingress the Service at its port; all are in the Application's namespace; and
  -- the Service leads to the port of the container.
  pub workload_fits : app.name ≢ other.name → app.spec.service.target_port ≡ none → Fit
  unfolding desired_service desired_ingress desired_hpa desired_pdb desired_deployment
      desired_pod_spec
  workload_fits differ plain = (
    own_labels app,
    own_labels app,
    own_labels app,
    foreign_labels app other differ,
    foreign_labels app other differ,
    refl,
    refl,
    refl,
    refl,
    (refl, (refl, (refl, (refl, (refl, tt))))),
    rw plain refl,
  )
