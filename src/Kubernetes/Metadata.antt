-- ===== src/Kubernetes/Metadata.antt =====
-- internal/kubernetes/configuration.go and access.go: the metadata of the items of a list. What `encoding/json`
-- makes of a payload or of an item is an argument.
use k8s_panel.Base.{
  ℕ, Bool, true, false, not, ◌&&◌, ◌||◌, Option, none, some, List, [], ◌∷◌, leb, ◌==◌, Text, runes,
  same, is_empty, byte_length, trim_space, contains_rune, is_control,
}
use k8s_panel.Domain.{Result, Error, ok, err, wrapped, upstream, guard, ◌>>=◌, ◌>>◌}
use k8s_panel.Validation.Names.{validate_namespace}
use k8s_panel.Validation.Access.{one_of}

-- `partialObjectMetadataList`, its items of a type.
pub record Page (Raw : Type 0) : Type 0 where
  pub api_version : Text
  pub kind : Text
  pub continue : Text
  pub items : List Raw

-- What an item is unmarshalled to: a zero time is 0.
pub record Envelope : Type 0 where
  pub api_version : Text
  pub kind : Text
  pub name : Text
  pub namespace : Text
  pub created_at : ℕ
  pub deleted_at : Option ℕ

-- `json.Unmarshal` at the three types, and the length of a payload; `fields` are the names of an object's fields.
pub record Json (Payload Raw : Type 0) : Type 0 where
  pub size : Payload → ℕ
  pub page : Payload → Option (Page Raw)
  pub fields : Raw → Option (List Text)
  pub envelope : Raw → Option Envelope

pub record PartialObjectMetadata : Type 0 where
  pub name : Text
  pub namespace : Text
  pub created_at : ℕ
  pub deleted_at : Option ℕ

abbrev pub upstream_error : Text → Error
upstream_error message = wrapped message upstream

unfoldable pub valid_kubernetes_metadata_string : Text → Bool
valid_kubernetes_metadata_string value =
    not (is_empty value)
    && leb (byte_length value) 253
    && same value (trim_space value)
    && not (contains_rune is_control value)

unfoldable pub only_metadata_fields : List Text → Bool
unfolding runes one_of
only_metadata_fields [] = true
only_metadata_fields (f ∷ fs) =
    one_of f (runes "apiVersion" ∷ runes "kind" ∷ runes "metadata" ∷ []) && only_metadata_fields fs

abbrev pub is_zero_time : Option ℕ → Bool
is_zero_time none = false
is_zero_time (some t) = t == 0

abbrev pub is_none {ℓ} : {A : Type ℓ} → Option A → Bool
is_none none = true
is_none (some a) = false

abbrev pub or_upstream {ℓ} : {A : Type ℓ} → Text → Option A → Result A
or_upstream message none = err (upstream_error message)
or_upstream message (some a) = ok a

unfoldable pub valid_scope : Bool → Text → Result (Unit {0})
unfolding runes
valid_scope true namespace =
    guard (is_none (validate_namespace namespace))
      (upstream_error (runes "invalid Kubernetes table namespace"))
valid_scope false namespace =
    guard (is_empty namespace)
      (upstream_error (runes "cluster-scoped Kubernetes table row contains a namespace"))

module _ {Payload Raw : Type 0} (json : Json Payload Raw) where
  open json use {fields, envelope}

  unfoldable pub decode_partial_object_metadata_for_scope :
      Raw → Bool → Result PartialObjectMetadata
  unfolding runes
  decode_partial_object_metadata_for_scope raw namespaced = do
    names ← or_upstream (runes "decode Kubernetes table metadata") (fields raw)
    guard (only_metadata_fields names) (upstream_error (runes "unsafe Kubernetes table row object"))
    e ← or_upstream (runes "unsupported Kubernetes table row object") (envelope raw)
    guard
        (same e.api_version (runes "meta.k8s.io/v1") && same e.kind (runes "PartialObjectMetadata"))
        (upstream_error (runes "unsupported Kubernetes table row object"))
    guard
        (not (
          not (valid_kubernetes_metadata_string e.name)
          || e.created_at == 0
          || is_zero_time e.deleted_at))
        (upstream_error (runes "invalid Kubernetes table metadata"))
    valid_scope namespaced e.namespace
    ok (record {
      name = e.name;
      namespace = e.namespace;
      created_at = e.created_at;
      deleted_at = e.deleted_at;
    })
