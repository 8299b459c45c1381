-- ===== src/Platform/Reads/Methods/Scoped.antt =====
-- internal/platform/service.go: the read methods on a namespace.
use k8s_panel.Base.{ℕ, ◌&&◌, none, leb, if◌then◌else◌, Text, runes, is_empty}
use k8s_panel.Domain.{Cluster, Failure, Result}
use k8s_panel.Governor.{Floats}
use k8s_panel.Validation.Names.{require, validate_namespace}
use k8s_panel.Validation.Inputs.{validate_workload_list, validate_kubernetes_event_list}
use k8s_panel.Platform.{Panel, Visit}
use k8s_panel.Platform.Reads.{
  Query, Outcome, read, asks_events, asks_workloads, asks_services, asks_ingresses,
  asks_endpoint_slices, asks_network_policies, asks_config_maps, asks_persistent_volume_claims,
  asks_csi_storage_capacities, asks_resource_quotas, asks_limit_ranges,
  asks_horizontal_pod_autoscalers, asks_pod_disruption_budgets,
}

-- `if namespace != "" { ... ValidateNamespace ... }`
unfoldable pub optional_namespace : Text → Failure
optional_namespace namespace = if is_empty namespace then none else validate_namespace namespace

-- The test on how many events are asked for, with 0 also for negative limits.
unfoldable pub event_limit : ℕ → Failure
unfolding runes
event_limit limit =
    require (leb 1 limit && leb limit 100) (runes "limit") (runes "must be between 1 and 100")

module _ (floats : Floats) (fingerprint : Cluster → Text) {C Reply : Type 0}
    (ask : ℕ → Query → Result Reply) where
  open floats use {Float}

  unfoldable pub events :
      Visit Float C → Text → Text → Text → ℕ → Panel Float C → Outcome Float C Reply
  events v id namespace event_type limit =
      read floats fingerprint ask v id (validate_kubernetes_event_list namespace event_type limit)
        (asks_events namespace event_type limit)

  unfoldable pub workloads :
      Visit Float C → Text → Text → Text → Panel Float C → Outcome Float C Reply
  workloads v id namespace kind =
      read floats fingerprint ask v id (validate_workload_list namespace kind)
        (asks_workloads namespace kind)

  unfoldable pub services : Visit Float C → Text → Text → Panel Float C → Outcome Float C Reply
  services v id namespace =
      read floats fingerprint ask v id (optional_namespace namespace) (asks_services namespace)

  unfoldable pub ingresses : Visit Float C → Text → Text → Panel Float C → Outcome Float C Reply
  ingresses v id namespace =
      read floats fingerprint ask v id (optional_namespace namespace) (asks_ingresses namespace)

  unfoldable pub endpoint_slices :
      Visit Float C → Text → Text → Panel Float C → Outcome Float C Reply
  endpoint_slices v id namespace =
      read floats fingerprint ask v id (optional_namespace namespace)
        (asks_endpoint_slices namespace)

  unfoldable pub network_policies :
      Visit Float C → Text → Text → Panel Float C → Outcome Float C Reply
  network_policies v id namespace =
      read floats fingerprint ask v id (optional_namespace namespace)
        (asks_network_policies namespace)

  unfoldable pub config_maps : Visit Float C → Text → Text → Panel Float C → Outcome Float C Reply
  config_maps v id namespace =
      read floats fingerprint ask v id (optional_namespace namespace) (asks_config_maps namespace)

  unfoldable pub persistent_volume_claims :
      Visit Float C → Text → Text → Panel Float C → Outcome Float C Reply
  persistent_volume_claims v id namespace =
      read floats fingerprint ask v id (optional_namespace namespace)
        (asks_persistent_volume_claims namespace)

  unfoldable pub csi_storage_capacities :
      Visit Float C → Text → Text → Panel Float C → Outcome Float C Reply
  csi_storage_capacities v id namespace =
      read floats fingerprint ask v id (optional_namespace namespace)
        (asks_csi_storage_capacities namespace)

  unfoldable pub resource_quotas :
      Visit Float C → Text → Text → Panel Float C → Outcome Float C Reply
  resource_quotas v id namespace =
      read floats fingerprint ask v id (validate_namespace namespace)
        (asks_resource_quotas namespace)

  unfoldable pub limit_ranges : Visit Float C → Text → Text → Panel Float C → Outcome Float C Reply
  limit_ranges v id namespace =
      read floats fingerprint ask v id (validate_namespace namespace) (asks_limit_ranges namespace)

  unfoldable pub horizontal_pod_autoscalers :
      Visit Float C → Text → Text → Panel Float C → Outcome Float C Reply
  horizontal_pod_autoscalers v id namespace =
      read floats fingerprint ask v id (validate_namespace namespace)
        (asks_horizontal_pod_autoscalers namespace)

  unfoldable pub pod_disruption_budgets :
      Visit Float C → Text → Text → Panel Float C → Outcome Float C Reply
  pod_disruption_budgets v id namespace =
      read floats fingerprint ask v id (validate_namespace namespace)
        (asks_pod_disruption_budgets namespace)
