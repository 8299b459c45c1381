-- ===== src/Platform/Reads.antt =====
-- internal/platform/service.go: a read of a cluster. `Query` holds the calls of a gateway that the
-- read methods make, which are those of `KubeGateway` in internal/platform/contracts.go.
pub mod Methods
pub mod Serve
pub mod Slots
pub mod Paths
pub mod Segments
pub mod Asked
use k8s_panel.Base.{
  ℕ, zero, suc, ◌+◌, ◌-◌, ◌*◌, ◌/◌, ◌%◌, ◌^◌, ◌≤◌, ◌<◌, ◌≡◌, refl, sym, ap, ◌∙◌, ◌≢◌, ◌↔◌, ◌⊎◌, inl,
  inr, Bool, true, false, not, ◌&&◌, ◌||◌, Option, none, some, List, [], ◌∷◌, ◌++◌, map, arith,
  ℕ_discrete, ltb, leb, ◌==◌, if◌then◌else◌, holds, Bool-cases, Option-cases, length, take, drop,
  length-append, length-take, length-drop, All, keep, Text, runes, text_dec, same, is_empty, utf8,
  byte_length, is_space, is_control, trim_space, contains_rune, has_prefix, fold, equal_fold,
  Absent, AllDistinct, map_option, Holds,
}
use k8s_panel.Domain.{Cluster, Failure, Result, Error, ok, err}
use k8s_panel.Governor.{Floats}
use k8s_panel.Validation.Access.{AccessResourceReference}
use k8s_panel.Validation.Inputs.{WorkloadReference}
use k8s_panel.Platform.{Panel, Visit, released, acquire_kubernetes_read, kube_gateway}

pub data Query : Type 0 where
  asks_summary : Query
  asks_namespaces : Query
  asks_nodes : Query
  asks_node_detail : Text → Query
  asks_node_events : Text → ℕ → Query
  asks_custom_resource_definitions : Query
  asks_custom_resource_definition : Text → Query
  asks_certificate_signing_requests : Query
  asks_certificate_signing_request : Text → Query
  asks_priority_classes : Query
  asks_priority_class : Text → Query
  asks_runtime_classes : Query
  asks_runtime_class : Text → Query
  asks_api_services : Query
  asks_admission_webhook_configurations : Text → Query
  asks_admission_webhook_configuration : Text → Text → Query
  asks_validating_admission_policies : Query
  asks_validating_admission_policy : Text → Query
  asks_validating_admission_policy_bindings : Query
  asks_validating_admission_policy_binding : Text → Query
  asks_events : Text → Text → ℕ → Query
  asks_workloads : Text → Text → Query
  asks_services : Text → Query
  asks_ingresses : Text → Query
  asks_endpoint_slices : Text → Query
  asks_network_policies : Text → Query
  asks_config_maps : Text → Query
  asks_persistent_volume_claims : Text → Query
  asks_persistent_volumes : Query
  asks_storage_classes : Query
  asks_volume_attachments : Query
  asks_csi_storage_capacities : Text → Query
  asks_volume_attributes_classes : Query
  asks_csi_drivers : Query
  asks_csi_driver : Text → Query
  asks_csi_nodes : Query
  asks_csi_node : Text → Query
  asks_resource_quotas : Text → Query
  asks_pod_security_admission_namespaces : Query
  asks_node_version_skew : Query
  asks_deprecated_api_requests : Query
  asks_endpoint_certificate : Query
  asks_api_server_readiness : Query
  asks_disruption_budgets : Query
  asks_limit_ranges : Text → Query
  asks_horizontal_pod_autoscalers : Text → Query
  asks_pod_disruption_budgets : Text → Query
  asks_access_resources : Text → Text → Query
  asks_access_resource_detail : AccessResourceReference → Query
  asks_workload_detail : WorkloadReference → Query
  asks_deployment_revision_history : WorkloadReference → Query
  asks_workload_events : WorkloadReference → ℕ → Query

-- What a read leads to: the panel, the gateway that was asked, and what for, and the answer, `none`
-- where it still waits for a gateway.
pub record Outcome (F C Reply : Type 0) : Type 0 where
  pub panel : Panel F C
  pub asked : Option (ℕ × Query)
  pub answer : Option (Result Reply)

module _ (floats : Floats) (fingerprint : Cluster → Text) {C Reply : Type 0}
    (ask : ℕ → Query → Result Reply) where
  open floats use {Float}

  -- A read that has its slot, which it gives back when it returns.
  unfoldable pub admitted : Visit Float C → Text → Query → Panel Float C → Outcome Float C Reply
  admitted v id q p =
      let (p', gateway) = kube_gateway fingerprint v id (v.meanwhile p) in
      elim gateway [
        | none ↦ record { panel = p'; asked = none; answer = none }
        | some (err e) ↦ record { panel = released p'; asked = none; answer = some (err e) }
        | some (ok g) ↦ record {
          panel = released (v.during p');
          asked = some (g, q);
          answer = some (ask g q);
        }
      ]

  -- The body of the read methods, behind the test on their arguments.
  unfoldable pub read :
      Visit Float C → Text → Failure → Query → Panel Float C → Outcome Float C Reply
  unfolding admitted
  read v id (some e) q p = record { panel = p; asked = none; answer = some (err e) }
  read v id none q p =
      let (p', failure) = acquire_kubernetes_read floats v.at_read v.sample v.sampled_at p in
      elim failure [
        | some e ↦ record { panel = p'; asked = none; answer = some (err e) }
        | none ↦ admitted v id q p'
      ]
