-- ===== src/Controller/Predicates.antt =====
-- internal/controller/predicates.go: which events of watched objects lead to a reconcile.
-- predicate.Funcs lets every event pass for which it has no function, so that only updates are
-- decided. Parameters: predicate.GenerationChangedPredicate, and equality.Semantic.DeepEqual.
-- Child Wakes: what wakes an Application.
pub mod Wakes
use forge_operator.Prelude.{
  ℕ, String, Bool, true, false, not, ◌&&◌, ◌||◌, is_some, List, StringMap, nat_eq, ◌==◌, lookup,
  Option,
}
use forge_operator.Api.{Application}
use forge_operator.Cluster.{DeploymentState, IngressState, HpaState, PdbState, ServiceObject}
use forge_operator.Naming.Names.{adopt_bucket_annotation}

-- The objects before and after an update; a creation, a deletion and a generic event have one.
pub data Event (A : Type 0) : Type 0 where
  created : A → Event A
  deleted : A → Event A
  generic : A → Event A
  updated : A → A → Event A

module _ {A : Type 0} where
  -- predicate.Funcs with an UpdateFunc
  abbrev pub on_update : (A → A → Bool) → Event A → Bool
  on_update f (updated old new) = f old new
  on_update f _ = true

abbrev pub deletion_started : Application → Application → Bool
deletion_started old new = not (is_some old.deletion_timestamp) && is_some new.deletion_timestamp

abbrev pub adoption_changed : Application → Application → Bool
adoption_changed old new = not (
    lookup old.annotations adopt_bucket_annotation
    == lookup new.annotations adopt_bucket_annotation)

module _ (generation_changed : Event Application → Bool) where
  -- applicationChangePredicate
  unfoldable pub application_change_predicate : Event Application → Bool
  application_change_predicate e =
      generation_changed e || (on_update deletion_started e || on_update adoption_changed e)

-- The owned resources whose status the readiness depends on; another type passes.
pub data StatusObject : Type 0 where
  deployment_seen : ℕ → DeploymentState → StatusObject
  ingress_seen : ℕ → IngressState → StatusObject
  hpa_seen : ℕ → HpaState → StatusObject
  pdb_seen : ℕ → PdbState → StatusObject
  other_seen : ℕ → StatusObject

abbrev pub generation_of : StatusObject → ℕ
generation_of (deployment_seen g s) = g
generation_of (ingress_seen g s) = g
generation_of (hpa_seen g s) = g
generation_of (pdb_seen g s) = g
generation_of (other_seen g) = g

-- The owned resources without a generation, as the fields that the code compares.
pub record AccountContent : Type 0 where
  pub annotations : StringMap
  pub secrets : List String
  pub image_pull_secrets : List String
  pub automount_token : Option Bool

pub data ContentObject : Type 0 where
  config_map_seen : StringMap → StringMap → ContentObject
  secret_seen : StringMap → ContentObject
  service_account_seen : AccountContent → ContentObject
  service_seen : ServiceObject → ContentObject
  unknown_seen : ContentObject

module _ (deep_equal : (A : Type 0) → A → A → Bool) where
  abbrev pub status_changed : StatusObject → StatusObject → Bool
  status_changed (deployment_seen g s) (deployment_seen h t) = not (deep_equal _ s t)
  status_changed (ingress_seen g s) (ingress_seen h t) = not (deep_equal _ s t)
  status_changed (hpa_seen g s) (hpa_seen h t) = not (deep_equal _ s t)
  status_changed (pdb_seen g s) (pdb_seen h t) = not (deep_equal _ s t)
  status_changed _ _ = true

  unfoldable pub owned_status_or_generation_changed_predicate : Event StatusObject → Bool
  owned_status_or_generation_changed_predicate =
      on_update
        (λ old new. not (nat_eq (generation_of old) (generation_of new)) || status_changed old new)

  abbrev pub account_changed : AccountContent → AccountContent → Bool
  account_changed old new =
      not (deep_equal _ old.annotations new.annotations)
      || (not (deep_equal _ old.secrets new.secrets)
          || (not (deep_equal _ old.image_pull_secrets new.image_pull_secrets)
              || not (deep_equal _ old.automount_token new.automount_token)))

  -- the one port of a Service with its name and its target
  abbrev ports : ServiceObject → String × ℕ × ℕ
  ports s = (s.port_name, s.port, s.target_port)

  abbrev pub service_changed : ServiceObject → ServiceObject → Bool
  service_changed old new =
      not (old.type == new.type)
      || (not (deep_equal _ old.selector new.selector)
          || not (deep_equal _ (ports old) (ports new)))

  abbrev pub content_changed : ContentObject → ContentObject → Bool
  content_changed (config_map_seen d b) (config_map_seen e c) =
      not (deep_equal _ d e) || not (deep_equal _ b c)
  content_changed (secret_seen d) (secret_seen e) = not (deep_equal _ d e)
  content_changed (service_account_seen a) (service_account_seen b) = account_changed a b
  content_changed (service_seen a) (service_seen b) = service_changed a b
  content_changed _ _ = true

  unfoldable pub owned_content_changed_predicate : Event ContentObject → Bool
  owned_content_changed_predicate = on_update content_changed
