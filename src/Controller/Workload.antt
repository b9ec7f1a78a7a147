-- ===== src/Controller/Workload.antt =====
-- internal/controller/configmap.go, service.go, ingress.go, hpa.go and pdb.go: the objects that an
-- Application's workload needs beside its Deployment, how they are applied, and how they are deleted
-- when their part of the spec is gone. Children: Desired (the
-- autoscaler and the rules of the API server), Fitting (how the objects fit each other).
pub mod Desired
pub mod Fitting
use forge_operator.Prelude.{
  ℕ, String, not, ltb, nat_eq, Option, none, some, List, [], ◌∷◌, StringMap, Exec, pure, try, ◌>>=◌,
  ◌>>◌, mapping_error, ok, err, wrap, ◌==◌, if◌then◌else◌, concat,
}
use forge_operator.Api.{
  Application, ConfigSpec, ServiceSpec, IngressSpec, PdbSpec, AutoscalingSpec, IntOrString,
}
use forge_operator.Cluster.{
  OwnedMeta, ConfigMapObject, ServiceObject, IngressObject, HpaObject, PdbObject, Workload, Toggled,
  config_map_object, service_object, ingress_object, hpa_object, pdb_object, ingress_kind, hpa_kind,
  pdb_kind,
}
use forge_operator.Naming.Names
use forge_operator.Naming.Names.{app_config_map}
use forge_operator.S3.Session.{Session, on_world}
use forge_operator.Controller.Session.{Reconciler}
use forge_operator.Controller.Accounts.{app_label_key, removed, is_stale, controlled}

abbrev pub app_labels : Application → StringMap
app_labels app = (app_label_key, app.name) ∷ []

abbrev pub owned : Application → String → StringMap → OwnedMeta
owned app name annotations = record {
  name = name;
  namespace = app.namespace;
  labels = app_labels app;
  annotations = annotations;
  controller = none;
}

abbrev default_entries : Application → StringMap
default_entries app = ("app-name", app.name) ∷ ("image", app.spec.image) ∷ []

abbrev given_entries : Application → StringMap → StringMap
given_entries app [] = default_entries app
given_entries app (e ∷ es) = e ∷ es

abbrev pub config_entries : Application → Option ConfigSpec → StringMap
config_entries app none = default_entries app
config_entries app (some config) = given_entries app config.entries

unfoldable pub desired_config_map : Application → ConfigMapObject
desired_config_map app = record {
  metadata = owned app (app_config_map app) [];
  entries = config_entries app app.spec.config_map;
}

unfoldable pub service_port_for : Application → ℕ
service_port_for app = if not (nat_eq app.spec.service.port 0) then app.spec.service.port else 80

abbrev pub container_port : Application → ℕ
container_port app =
    if not (nat_eq app.spec.container.port 0) then app.spec.container.port else 8080

abbrev target_or : ℕ → Option ℕ → ℕ
target_or port none = port
target_or port (some target) = target

unfoldable pub desired_service : Application → ServiceObject
desired_service app = record {
  metadata = owned app (Names.service app) [];
  type = if app.spec.service.type == "" then "ClusterIP" else app.spec.service.type;
  selector = app_labels app;
  port_name = "http";
  port = service_port_for app;
  target_port = target_or (container_port app) app.spec.service.target_port;
}

-- desiredIngress, for an Application with this ingress spec
unfoldable pub desired_ingress : Application → IngressSpec → IngressObject
desired_ingress app ingress = record {
  metadata = owned app (Names.ingress app) ingress.annotations;
  class_name = ingress.class_name;
  host = ingress.host;
  path = if ingress.path == "" then "/" else ingress.path;
  path_type = ingress.path_type;
  backend_name = Names.service app;
  backend_port = service_port_for app;
  tls = ingress.tls;
}

abbrev pub at_least : ℕ → ℕ → ℕ
at_least low n = if ltb n low then low else n

abbrev pub positive_or : ℕ → ℕ → ℕ
positive_or default_value n = if ltb 0 n then n else default_value

abbrev utilization_or : ℕ → Option ℕ → ℕ
utilization_or default_value none = default_value
utilization_or default_value (some n) = n

-- the two limits of the utilization, in the order of the code
abbrev pub clamped : ℕ → ℕ
clamped n = let m = at_least 1 n in if ltb 100 m then 100 else m

-- desiredHPA, for an Application with this autoscaling spec
unfoldable pub desired_hpa : Application → AutoscalingSpec → HpaObject
desired_hpa app autoscaling = record {
  metadata = owned app (Names.hpa app) [];
  target_kind = "Deployment";
  target_name = Names.deployment app;
  min_replicas = positive_or 1 autoscaling.min_replicas;
  max_replicas =
      at_least (positive_or 1 autoscaling.min_replicas) (positive_or 3 autoscaling.max_replicas);
  average_utilization = clamped (utilization_or 80 autoscaling.cpu_utilization);
}

abbrev min_of : PdbSpec → Option IntOrString
min_of pdb = pdb.min_available

-- used only where minAvailable is not set
abbrev pub max_unless : Option IntOrString → Option IntOrString → Option IntOrString
max_unless none max = max
max_unless (some min) max = none

-- desiredPDB, for an Application with this PDB spec
unfoldable pub desired_pdb : Application → PdbSpec → PdbObject
desired_pdb app pdb = record {
  metadata = owned app (Names.pdb app) [];
  match_labels = app_labels app;
  min_available = min_of pdb;
  max_unavailable = max_unless pdb.min_available pdb.max_unavailable;
}

module _ {W : Type 0} (r : Reconciler W) where
  -- SetControllerReference and Patch, with the kind as the errors name it
  abbrev pub apply_owned :
      String → String → OwnedMeta → (OwnedMeta → Workload) → Exec (Session W) (Unit {0})
  apply_owned kind applying meta object s =
      (controlled r (concat ("failed to set controller reference for " ∷ kind ∷ ": " ∷ [])) s.app
            meta
          >>= (λ owned_meta.
              mapping_error (λ e. wrap (concat (applying ∷ ": " ∷ [])) e "")
                (on_world (r.platform.k8s.apply_workload (object owned_meta)))))
        s

  abbrev pub delete_disabled : Toggled → String → String → Exec (Session W) (Unit {0})
  delete_disabled kind name text s =
      (try (on_world (r.platform.k8s.delete_toggled kind s.app.namespace name)) >>= removed text) s

  -- the loop of deleteStaleConfigMaps
  unfoldable pub delete_each_config_map : String → List OwnedMeta → Exec (Session W) (Unit {0})
  delete_each_config_map keep_name [] s = (ok tt, s)
  delete_each_config_map keep_name (item ∷ items) s =
      ((if is_stale r s.app keep_name item
            then try (on_world (r.platform.k8s.delete_config_map item))
              >>= removed (concat ("failed to delete stale ConfigMap " ∷ item.name ∷ ": " ∷ []))
            else pure tt)
          >> delete_each_config_map keep_name items)
        s

  unfoldable pub delete_stale_config_maps : String → Exec (Session W) (Unit {0})
  delete_stale_config_maps keep_name s =
      (mapping_error (λ e. wrap "failed to list ConfigMaps for cleanup: " e "")
            (on_world (r.platform.k8s.list_config_maps s.app.namespace (app_labels s.app)))
          >>= delete_each_config_map keep_name)
        s

  abbrev with_config_meta : ConfigMapObject → OwnedMeta → Workload
  with_config_meta object meta = config_map_object (record object { metadata = meta })

  abbrev reconcile_config_of : Option ConfigSpec → Exec (Session W) (Unit {0})
  reconcile_config_of none s = delete_stale_config_maps "" s
  reconcile_config_of (some config) s =
      let desired = desired_config_map s.app in
      (apply_owned "ConfigMap" "failed to server-side apply ConfigMap" desired.metadata
            (with_config_meta desired)
          >> mapping_error (λ e. wrap "failed to clean up stale ConfigMap: " e "")
              (delete_stale_config_maps desired.metadata.name))
        s

  unfoldable pub reconcile_config_map : Exec (Session W) (Unit {0})
  reconcile_config_map s = reconcile_config_of s.app.spec.config_map s

  abbrev with_service_meta : ServiceObject → OwnedMeta → Workload
  with_service_meta object meta = service_object (record object { metadata = meta })

  unfoldable pub reconcile_service : Exec (Session W) (Unit {0})
  reconcile_service s =
      let desired = desired_service s.app in
      apply_owned "Service" "failed to server-side apply Service" desired.metadata
        (with_service_meta desired) s

  abbrev with_ingress_meta : IngressObject → OwnedMeta → Workload
  with_ingress_meta object meta = ingress_object (record object { metadata = meta })

  abbrev reconcile_ingress_of : Option IngressSpec → Exec (Session W) (Unit {0})
  reconcile_ingress_of none s =
      delete_disabled ingress_kind (Names.ingress s.app) "failed to delete disabled Ingress: " s
  reconcile_ingress_of (some ingress) s =
      let desired = desired_ingress s.app ingress in
      apply_owned "Ingress" "failed to server-side apply Ingress" desired.metadata
        (with_ingress_meta desired) s

  unfoldable pub reconcile_ingress : Exec (Session W) (Unit {0})
  reconcile_ingress s = reconcile_ingress_of s.app.spec.ingress s

  abbrev with_pdb_meta : PdbObject → OwnedMeta → Workload
  with_pdb_meta object meta = pdb_object (record object { metadata = meta })

  abbrev reconcile_pdb_of : Option PdbSpec → Exec (Session W) (Unit {0})
  reconcile_pdb_of none s =
      delete_disabled pdb_kind (Names.pdb s.app) "failed to delete disabled PDB: " s
  reconcile_pdb_of (some pdb) s =
      let desired = desired_pdb s.app pdb in
      apply_owned "PodDisruptionBudget" "failed to apply PodDisruptionBudget" desired.metadata
        (with_pdb_meta desired) s

  unfoldable pub reconcile_pdb : Exec (Session W) (Unit {0})
  reconcile_pdb s = reconcile_pdb_of s.app.spec.pdb s

  abbrev with_hpa_meta : HpaObject → OwnedMeta → Workload
  with_hpa_meta object meta = hpa_object (record object { metadata = meta })

  abbrev reconcile_hpa_of : Option AutoscalingSpec → Exec (Session W) (Unit {0})
  reconcile_hpa_of none s =
      delete_disabled hpa_kind (Names.hpa s.app) "failed to delete disabled HPA: " s
  reconcile_hpa_of (some autoscaling) s =
      let desired = desired_hpa s.app autoscaling in
      apply_owned "HPA" "failed to server-side apply HPA" desired.metadata (with_hpa_meta desired) s

  unfoldable pub reconcile_hpa : Exec (Session W) (Unit {0})
  reconcile_hpa s = reconcile_hpa_of s.app.spec.autoscaling s
