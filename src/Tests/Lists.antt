-- ===== src/Tests/Lists.antt =====
-- internal/kubernetes at a concrete cluster: the list of its runtime classes, in two pages.
use k8s_panel.Cache.{text_lt}
use k8s_panel.Kubernetes.Classes.{
  insert_by_name, sort_by_name, valid_continue, read_items, decode_page, read_pages, Listed,
  Request, runtime_class_collection, read_list,
}
use k8s_panel.Store.Items.{contains}
use k8s_panel.Names.{valid_dns_subdomain}
use k8s_panel.Validation.Names.{validate_runtime_class_name}
use k8s_panel.Kubernetes.Metadata.{
  valid_scope, valid_kubernetes_metadata_string, only_metadata_fields,
  decode_partial_object_metadata_for_scope, Page, Json, Envelope,
}
use k8s_panel.Base.{
  is_control, contains_rune, trim_space, byte_length, ℕ, ◌≡◌, refl, none, some, List, [], ◌∷◌,
  text_dec, Text, runes, Option,
}
use k8s_panel.Domain.{Result, ok}
use k8s_panel.Kubernetes.Listed.{IsSafe}
use k8s_panel.Kubernetes.Answers.{Follows}
use k8s_panel.Kubernetes.Listed
use k8s_panel.Kubernetes.Answers

abbrev json : Json (Page Envelope) Envelope
unfolding runes
json = record {
  size = λ p. 100;
  page = λ p. some p;
  fields = λ e. some (runes "kind" ∷ runes "metadata" ∷ []);
  envelope = λ e. some e;
}

abbrev envelope : Text → ℕ → Envelope
unfolding runes
envelope name at = record {
  api_version = runes "meta.k8s.io/v1";
  kind = runes "PartialObjectMetadata";
  name = name;
  namespace = [];
  created_at = at;
  deleted_at = none;
}

abbrev page : Text → List Envelope → Page Envelope
unfolding runes
page continue items = record {
  api_version = runes "meta.k8s.io/v1";
  kind = runes "PartialObjectMetadataList";
  continue = continue;
  items = items;
}

abbrev answer : Option Text → Page Envelope
answer none = page (b'x' ∷ []) (envelope (b'k' ∷ []) 5 ∷ envelope (b'g' ∷ []) 3 ∷ [])
answer (some t) = page [] (envelope (b'h' ∷ []) 4 ∷ [])

abbrev server : Request → Result (Page Envelope)
server r = ok (answer r.continue)

abbrev class : Text → ℕ → Listed
class name at = record { name = name; created_at = at }

abbrev classes : List Listed
classes = class (b'g' ∷ []) 3 ∷ class (b'h' ∷ []) 4 ∷ class (b'k' ∷ []) 5 ∷ []

classes_read : read_list json server runtime_class_collection ≡ ok classes
unfolding read_list json read_pages decode_page text_dec read_items
    decode_partial_object_metadata_for_scope only_metadata_fields valid_kubernetes_metadata_string
    byte_length trim_space contains_rune is_control valid_scope validate_runtime_class_name
    valid_dns_subdomain contains valid_continue sort_by_name insert_by_name text_lt
classes_read = refl

read_list-IsSafe_example : IsSafe runtime_class_collection classes
read_list-IsSafe_example =
    Listed.read_list-IsSafe runtime_class_collection json server classes classes_read

read_list-Follows_example : Follows json server runtime_class_collection 4 none [] classes
read_list-Follows_example =
    Answers.read_list-Follows json server runtime_class_collection classes classes_read
