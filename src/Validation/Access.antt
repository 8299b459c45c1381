-- ===== src/Validation/Access.antt =====
-- internal/domain/validation.go: the tests on requests for access resources, for reviews of the access of
-- a service account, and for admission webhooks.
use k8s_panel.Base.{
  Bool, false, ◌||◌, some, List, [], ◌∷◌, if◌then◌else◌, Text, runes, same, is_empty,
}
use k8s_panel.Domain.{Failure, invalid}
use k8s_panel.Names.{valid_dns_label, valid_dns_subdomain}
use k8s_panel.Validation.Names.{require, ◌then_check◌, validate_namespace, valid_rbac_resource_name}

-- Is a text one of a list?
unfoldable pub one_of : Text → List Text → Bool
one_of s [] = false
one_of s (t ∷ ts) = same s t || one_of s ts

abbrev pub service_accounts : Text
unfolding runes
service_accounts = runes "serviceaccounts"

unfoldable pub validate_access_resource_scope : Text → Text → Failure
unfolding runes one_of
validate_access_resource_scope kind namespace =
    if one_of kind (service_accounts ∷ runes "roles" ∷ runes "rolebindings" ∷ [])
    then validate_namespace namespace
    else if one_of kind (runes "clusterroles" ∷ runes "clusterrolebindings" ∷ [])
    then require (is_empty namespace) (runes "namespace")
        (runes "must be empty for a cluster-scoped access resource")
    else some (
        invalid (runes "kind") (
          runes
            "must be serviceaccounts, roles, rolebindings, clusterroles or clusterrolebindings"))

pub record AccessResourceReference : Type 0 where
  pub kind : Text
  pub namespace : Text
  pub name : Text

unfoldable pub validate_access_resource_reference : AccessResourceReference → Failure
unfolding runes
validate_access_resource_reference reference =
    validate_access_resource_scope reference.kind reference.namespace
    then_check require
        (if same reference.kind service_accounts
          then valid_dns_subdomain reference.name
          else valid_rbac_resource_name reference.name)
        (runes "name") (runes "must be a valid Kubernetes resource name")

pub record ResourceAttributes : Type 0 where
  pub group : Text
  pub resource : Text
  pub subresource : Text
  pub verb : Text
  pub namespace : Text
  pub name : Text

pub record ServiceAccountAccessReviewInput : Type 0 where
  pub account_namespace : Text
  pub account_name : Text
  pub attributes : ResourceAttributes

unfoldable pub valid_access_review_verb : Text → Bool
unfolding runes one_of
valid_access_review_verb value = one_of value (
    runes "get"
    ∷ runes "list"
    ∷ runes "watch"
    ∷ runes "create"
    ∷ runes "update"
    ∷ runes "patch"
    ∷ runes "delete"
    ∷ runes "deletecollection"
    ∷ runes "proxy"
    ∷ runes "use"
    ∷ runes "bind"
    ∷ runes "escalate"
    ∷ runes "impersonate"
    ∷ runes "approve"
    ∷ runes "sign"
    ∷ [])

unfoldable pub validate_service_account_access_review_input :
    ServiceAccountAccessReviewInput → Failure
unfolding runes
validate_service_account_access_review_input input =
    require (valid_dns_label input.account_namespace) (runes "service_account.namespace")
      (runes "must be a valid Kubernetes namespace")
    then_check require (valid_dns_subdomain input.account_name) (runes "service_account.name")
        (runes "must be a valid Kubernetes resource name")
    then_check require
        (is_empty input.attributes.group || valid_dns_subdomain input.attributes.group)
        (runes "resource_attributes.group") (runes "must be empty or a valid Kubernetes API group")
    then_check require (valid_dns_label input.attributes.resource)
        (runes "resource_attributes.resource") (runes "must be a valid Kubernetes API resource")
    then_check require
        (is_empty input.attributes.subresource || valid_dns_label input.attributes.subresource)
        (runes "resource_attributes.subresource")
        (runes "must be empty or a valid Kubernetes subresource")
    then_check require (valid_access_review_verb input.attributes.verb)
        (runes "resource_attributes.verb") (runes "must be an allowed Kubernetes resource verb")
    then_check require
        (is_empty input.attributes.namespace || valid_dns_label input.attributes.namespace)
        (runes "resource_attributes.namespace")
        (runes "must be empty or a valid Kubernetes namespace")
    then_check require
        (is_empty input.attributes.name || valid_rbac_resource_name input.attributes.name)
        (runes "resource_attributes.name")
        (runes "must be empty or a safe Kubernetes resource name")

unfoldable pub validate_admission_webhook_configuration_kind : Text → Failure
unfolding runes one_of
validate_admission_webhook_configuration_kind kind =
    require (one_of kind (runes "validating" ∷ runes "mutating" ∷ [])) (runes "kind")
      (runes "must be validating or mutating")
