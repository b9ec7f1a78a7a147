-- ===== src/Controller.antt =====
-- internal/controller: the ApplicationReconciler, its status writes and what it does with storage.
-- Children: Session (the reconciler and its status writes), Keeping (lemmas on what code leaves of
-- the world), Accounts (serviceaccount.go), Secrets (secret.go), Finalizer (finalizer.go), Storage
-- (storage.go), Workload (configmap.go, service.go, ingress.go, hpa.go, pdb.go), Deployment (deployment.go), Loop
-- (application_controller.go and desiredstate.go), Predicates (predicates.go).
pub mod Session
pub mod Keeping
pub mod Accounts
pub mod Secrets
pub mod Finalizer
pub mod Storage
pub mod Workload
pub mod Deployment
pub mod Loop
pub mod Predicates
