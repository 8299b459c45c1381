-- ===== src/Platform/Reads/Segments.antt =====
-- internal/domain/validation.go: which texts the tests on names and namespaces let through.
use k8s_panel.Base.{
  ◌≡◌, refl, inl, inr, Bool, true, false, not, ◌&&◌, ◌||◌, none, some, [], ◌∷◌, arith, leb, ◌==◌,
  if◌then◌else◌, Option-cases, Text, runes, same, is_empty, byte_length, is_control, trim_space,
  contains_rune,
}
use k8s_panel.Domain.{Error}
use k8s_panel.Names.{
  valid_dns_label, valid_dns_subdomain, lower_alnum, subdomain_rune, runes_then, bracketed,
  dns_subdomain_pattern,
}
use k8s_panel.Names.Labels.{label-subdomain}
use k8s_panel.Validation.Names.{
  require, cut, validate_namespace, validate_node_name, validate_custom_resource_definition_name,
  validate_certificate_signing_request_name, validate_priority_class_name,
  validate_runtime_class_name, validate_csi_driver_name,
  validate_admission_webhook_configuration_name, validate_admission_policy_resource_name,
  valid_rbac_resource_name,
}
use k8s_panel.Validation.Inputs.{WorkloadReference, validate_workload_reference}
use k8s_panel.Validation.Access.{
  AccessResourceReference, validate_access_resource_scope, validate_access_resource_reference,
  service_accounts,
}
use k8s_panel.Validation.Accepted.{then_check-none, require-true}
use k8s_panel.Platform.Reads.Methods.Scoped.{optional_namespace}
use k8s_panel.Platform.Reads.Paths.{is_segment, Segments}

runes_then-clean :
    (s : Text)
    → runes_then subdomain_rune lower_alnum s ≡ true
    → contains_rune (λ c. c == b'/' || c == b'%') s ≡ false
unfolding runes_then contains_rune
runes_then-clean [] h = refl
runes_then-clean (c ∷ []) h = ground arith
runes_then-clean (c ∷ d ∷ s) h = ground (arith, runes_then-clean (d ∷ s))

pattern-segment : (s : Text) → dns_subdomain_pattern s ≡ true → is_segment s ≡ true
unfolding bracketed is_segment contains_rune
pattern-segment [] h = cc
pattern-segment (c ∷ []) h = ground arith
pattern-segment (c ∷ d ∷ s) h = ground (arith, runes_then-clean (d ∷ s))

subdomain-segment : (s : Text) → valid_dns_subdomain s ≡ true → is_segment s ≡ true
unfolding valid_dns_subdomain
subdomain-segment s h = pattern-segment s (ground arith)

label-segment : (s : Text) → valid_dns_label s ≡ true → is_segment s ≡ true
label-segment s h = pattern-segment s (label-subdomain s h)

conjuncts : (a b c d e f g : Bool) → (a && b && c && d && e && f && g) ≡ true → (f && c && d) ≡ true
conjuncts a b c d e f g h = ground arith

rbac-segment : (s : Text) → valid_rbac_resource_name s ≡ true → is_segment s ≡ true
unfolding valid_rbac_resource_name is_segment runes
rbac-segment s h =
    conjuncts (not (is_empty s)) (leb (byte_length s) 253) (not (same s (runes ".")))
      (not (same s (runes ".."))) (same s (trim_space s))
      (not (contains_rune (λ c. c == b'/' || c == b'%') s)) (not (contains_rune is_control s)) h

pub namespace-segment : (s : Text) → validate_namespace s ≡ none → is_segment s ≡ true
unfolding validate_namespace
namespace-segment s h = label-segment s (require-true _ _ _ h)

pub if_empty-segment :
    (s : Text) → (if is_empty s then none else validate_namespace s) ≡ none → is_segment s ≡ true
unfolding is_segment contains_rune
if_empty-segment [] h = ground arith
if_empty-segment (c ∷ s) h = namespace-segment (c ∷ s) h

pub optional_namespace-segment : (s : Text) → optional_namespace s ≡ none → is_segment s ≡ true
unfolding optional_namespace
optional_namespace-segment s h = if_empty-segment s h

pub node_name-segment : (s : Text) → validate_node_name s ≡ none → is_segment s ≡ true
unfolding validate_node_name
node_name-segment s h = subdomain-segment s (require-true _ _ _ h)

pub certificate_signing_request_name-segment :
    (s : Text) → validate_certificate_signing_request_name s ≡ none → is_segment s ≡ true
unfolding validate_certificate_signing_request_name
certificate_signing_request_name-segment s h = subdomain-segment s (require-true _ _ _ h)

pub priority_class_name-segment :
    (s : Text) → validate_priority_class_name s ≡ none → is_segment s ≡ true
unfolding validate_priority_class_name
priority_class_name-segment s h = subdomain-segment s (require-true _ _ _ h)

pub runtime_class_name-segment :
    (s : Text) → validate_runtime_class_name s ≡ none → is_segment s ≡ true
unfolding validate_runtime_class_name
runtime_class_name-segment s h = subdomain-segment s (require-true _ _ _ h)

pub csi_driver_name-segment : (s : Text) → validate_csi_driver_name s ≡ none → is_segment s ≡ true
unfolding validate_csi_driver_name
csi_driver_name-segment s h = subdomain-segment s (require-true _ _ _ h)

pub admission_webhook_configuration_name-segment :
    (s : Text) → validate_admission_webhook_configuration_name s ≡ none → is_segment s ≡ true
unfolding validate_admission_webhook_configuration_name
admission_webhook_configuration_name-segment s h = subdomain-segment s (require-true _ _ _ h)

pub admission_policy_resource_name-segment :
    (s : Text) → validate_admission_policy_resource_name s ≡ none → is_segment s ≡ true
unfolding validate_admission_policy_resource_name
admission_policy_resource_name-segment s h = subdomain-segment s (require-true _ _ _ h)

pub crd_name-segment :
    (s : Text) → validate_custom_resource_definition_name s ≡ none → is_segment s ≡ true
unfolding validate_custom_resource_definition_name
crd_name-segment s h = elim (Option-cases (cut b'.' s)) [
  | inl e ↦ cc
  | inr ((r, g), e) ↦ subdomain-segment s (ground arith)
]

pub workload-Segments :
    (r : WorkloadReference)
    → validate_workload_reference r ≡ none
    → Segments (r.namespace ∷ r.name ∷ [])
unfolding validate_workload_reference
workload-Segments r h =
    let (h, n) = then_check-none _ _ h in
    let (_, s) = then_check-none _ _ h in
    (
      label-segment r.namespace (require-true _ _ _ s),
      (subdomain-segment r.name (require-true _ _ _ n), _),
    )

empty-segment : (s : Text) → is_empty s ≡ true → is_segment s ≡ true
unfolding is_segment contains_rune
empty-segment [] h = ground arith
empty-segment (c ∷ s) h = cc

either-segment :
    (a b : Bool) (s f m : Text) (e : Error)
    → (if a then validate_namespace s else if b then require (is_empty s) f m else some e) ≡ none
    → is_segment s ≡ true
either-segment true b s f m e h = namespace-segment s h
either-segment false true s f m e h = empty-segment s (require-true _ _ _ h)
either-segment false false s f m e h = cc

pub scope-segment :
    (kind namespace : Text)
    → validate_access_resource_scope kind namespace ≡ none
    → is_segment namespace ≡ true
unfolding validate_access_resource_scope
scope-segment kind namespace h = either-segment _ _ namespace _ _ _ h

name-segment :
    (a : Bool) (s : Text)
    → (if a then valid_dns_subdomain s else valid_rbac_resource_name s) ≡ true
    → is_segment s ≡ true
name-segment true s h = subdomain-segment s h
name-segment false s h = rbac-segment s h

pub access-Segments :
    (r : AccessResourceReference)
    → validate_access_resource_reference r ≡ none
    → Segments (r.namespace ∷ r.name ∷ [])
unfolding validate_access_resource_reference
access-Segments r h =
    let (s, n) = then_check-none _ _ h in
    (
      scope-segment r.kind r.namespace s,
      (name-segment (same r.kind service_accounts) r.name (require-true _ _ _ n), _),
    )
