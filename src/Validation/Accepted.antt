-- ===== src/Validation/Accepted.antt =====
-- internal/domain/validation.go: what an accepted request is known to satisfy.
use k8s_panel.Base.{
  ℕ, ◌≤◌, ◌≡◌, refl, ◌⊎◌, inl, inr, Bool, true, false, Option, none, some, arith, Text, runes,
  is_empty, trim_space,
}
use k8s_panel.Domain.{Failure, OperationKind, workload_scale, workload_restart}
use k8s_panel.Names.{valid_dns_label, valid_dns_subdomain}
use k8s_panel.Validation.Names.{require, ◌then_check◌}
use k8s_panel.Validation.Inputs.{
  is_scale_or_restart, WorkloadOperationInput, Replicas, at_least, negative, max_workload_replicas,
  normal_kind, valid_resource_version, validate_workload_reference, validate_replicas,
  validate_workload_operation_input,
}

-- Two checks pass exactly where both do.
pub then_check-none : (a b : Failure) → (a then_check b) ≡ none → (a ≡ none) × (b ≡ none)
then_check-none none b h = (refl, h)
then_check-none (some e) b h = cc

pub require-true : (b : Bool) (f m : Text) → require b f m ≡ none → b ≡ true
require-true true f m h = refl
require-true false f m h = cc

-- The replicas of an accepted request: a number up to the maximum for scaling, none for restarting.
abbrev pub Fitting : OperationKind → Option Replicas → Type 0
Fitting kind r =
    ((n : ℕ) × (kind ≡ workload_scale) × (r ≡ some (at_least n)) × (n ≤ max_workload_replicas))
    ⊎ ((kind ≡ workload_restart) × (r ≡ none))

validate_replicas-none :
    (kind : OperationKind) (r : Option Replicas)
    → is_scale_or_restart kind ≡ true
    → validate_replicas kind r ≡ none
    → Fitting kind r
unfolding validate_replicas
validate_replicas-none workload_scale none k h = cc
validate_replicas-none workload_scale (some negative) k h = cc
validate_replicas-none workload_scale (some (at_least n)) k h = inl (n, refl, refl, ground arith)
validate_replicas-none workload_restart none k h = inr (refl, refl)
validate_replicas-none workload_restart (some r) k h = cc
validate_replicas-none _ r k h = cc

-- An accepted request to scale or restart is one of these two, for a Deployment with a valid namespace
-- and name, with a cluster and a usable resource version, and with a number of replicas up to 1000
-- exactly where it scales.
pub validate_workload_operation_input-none :
    (kind : OperationKind) (input : WorkloadOperationInput)
    → validate_workload_operation_input kind input ≡ none
    → Fitting kind input.replicas
      × (is_empty (trim_space input.cluster_id) ≡ false)
      × (normal_kind input.reference.kind ≡ runes "deployment")
      × (valid_dns_label input.reference.namespace ≡ true)
      × (valid_dns_subdomain input.reference.name ≡ true)
      × (valid_resource_version (trim_space input.resource_version) ≡ true)
unfolding validate_workload_operation_input validate_workload_reference
validate_workload_operation_input-none kind input h =
    let (h, r) = then_check-none _ (validate_replicas kind input.replicas) h in
    let (h, v) = then_check-none _ _ h in
    let (h, d) = then_check-none _ _ h in
    let (h, w) = then_check-none _ (validate_workload_reference input.reference) h in
    let (k, c) = then_check-none _ _ h in
    let (w, name) = then_check-none _ _ w in
    let (_, namespace) = then_check-none _ _ w in
    (
      validate_replicas-none kind input.replicas (require-true _ _ _ k) r,
      ground (arith, require-true _ _ _ c),
      ground (arith, require-true _ _ _ d),
      require-true _ _ _ namespace,
      require-true _ _ _ name,
      require-true _ _ _ v,
    )
