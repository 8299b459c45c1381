-- ===== src/Kubernetes/Classes.antt =====
-- internal/kubernetes/priority_class.go, runtime_class.go, csi_driver.go and certificate_signing_request.go:
-- the lists, which are read page by page in the same way. Requests and answers are arguments.
use k8s_panel.Base.{
  ℕ, zero, suc, ◌+◌, ◌-◌, Bool, true, false, not, ◌&&◌, Option, none, some, List, [], ◌∷◌, ◌++◌,
  ltb, leb, Text, runes, same, is_empty, byte_length, trim_space, contains_rune, is_control, length,
  if◌then◌else◌,
}
use k8s_panel.Domain.{Failure, Result, Error, ok, err, guard, ◌>>=◌, ◌>>◌}
use k8s_panel.Validation.Names.{
  validate_priority_class_name, validate_runtime_class_name, validate_csi_driver_name,
  validate_certificate_signing_request_name,
}
use k8s_panel.Validation.Access.{one_of}
use k8s_panel.Store.Items.{contains}
use k8s_panel.Cache.{text_lt}
use k8s_panel.Kubernetes.Metadata.{
  Page, Json, PartialObjectMetadata, upstream_error, is_none, or_upstream,
  decode_partial_object_metadata_for_scope,
}

abbrev pub max_list_pages : ℕ
max_list_pages = 4

abbrev pub max_list_items : ℕ
max_list_items = 1000

abbrev pub max_list_bytes : ℕ
max_list_bytes = 4_194_304

abbrev pub max_continue_bytes : ℕ
max_continue_bytes = 16384

-- An item of a list.
pub record Listed : Type 0 where
  pub name : Text
  pub created_at : ℕ

abbrev pub listed_name : Listed → Text
listed_name i = i.name

-- What tells the four lists apart: the path, the word in the messages, and the test on a name.
pub record Collection : Type 0 where
  pub path : Text
  pub noun : Text
  pub valid_name : Text → Failure

abbrev pub priority_class_collection : Collection
unfolding runes
priority_class_collection = record {
  path = runes "/apis/scheduling.k8s.io/v1/priorityclasses";
  noun = runes "PriorityClass";
  valid_name = validate_priority_class_name;
}

abbrev pub runtime_class_collection : Collection
unfolding runes
runtime_class_collection = record {
  path = runes "/apis/node.k8s.io/v1/runtimeclasses";
  noun = runes "RuntimeClass";
  valid_name = validate_runtime_class_name;
}

abbrev pub csi_driver_collection : Collection
unfolding runes
csi_driver_collection = record {
  path = runes "/apis/storage.k8s.io/v1/csidrivers";
  noun = runes "CSIDriver";
  valid_name = validate_csi_driver_name;
}

abbrev pub certificate_signing_request_collection : Collection
unfolding runes
certificate_signing_request_collection = record {
  path = runes "/apis/certificates.k8s.io/v1/certificatesigningrequests";
  noun = runes "CSR";
  valid_name = validate_certificate_signing_request_name;
}

-- What a request asks for: at most so many bytes, of the path, from a continuation on.
pub record Request : Type 0 where
  pub path : Text
  pub continue : Option Text
  pub max_bytes : ℕ

-- `validPriorityClassContinue`, and its like.
unfoldable pub valid_continue : Text → Bool
valid_continue value =
    not (is_empty value)
    && leb (byte_length value) max_continue_bytes
    && same value (trim_space value)
    && not (contains_rune is_control value)

unfoldable pub insert_by_name : Listed → List Listed → List Listed
insert_by_name x [] = x ∷ []
insert_by_name x (y ∷ ys) =
    let later = insert_by_name x ys in if text_lt y.name x.name then y ∷ later else x ∷ y ∷ ys

-- `sort.Slice` by name; no two items have the same.
unfoldable pub sort_by_name : List Listed → List Listed
sort_by_name [] = []
sort_by_name (x ∷ xs) = insert_by_name x (sort_by_name xs)

-- "Kubernetes …" and what is wrong.
unfoldable pub message : Text → Text → Error
unfolding runes
message noun what = upstream_error (runes "Kubernetes " ++ noun ++ what)

-- The same behind a word.
unfoldable pub message_on : Text → Text → Text → Error
unfolding runes
message_on word noun what = upstream_error (word ++ runes " Kubernetes " ++ noun ++ what)

abbrev pub listed : PartialObjectMetadata → Listed
listed m = record { name = m.name; created_at = m.created_at }

module _ {Payload Raw : Type 0} (json : Json Payload Raw) (get_payload : Request → Result Payload)
    (c : Collection) where
  -- The items of a page behind those that were read before.
  unfoldable pub read_items : List Raw → List Listed → Result (List Listed)
  unfolding runes
  read_items [] items = ok items
  read_items (raw ∷ raws) items = do
    m ← decode_partial_object_metadata_for_scope json raw false
    guard (is_none (c.valid_name m.name))
        (message_on (runes "invalid") c.noun (runes " metadata identity"))
    guard (not (contains listed_name m.name items))
        (message_on (runes "duplicate") c.noun (runes " metadata identity"))
    read_items raws (items ++ listed m ∷ [])

  -- The page of a payload.
  unfoldable pub decode_page : Payload → Result (Page Raw)
  unfolding runes
  decode_page payload = do
    page ←
        or_upstream (runes "decode Kubernetes " ++ c.noun ++ runes " metadata list")
          (json.page payload)
    guard
        (same page.api_version (runes "meta.k8s.io/v1")
          && same page.kind (runes "PartialObjectMetadataList"))
        (message_on (runes "unsupported") c.noun (runes " metadata list"))
    ok page

  -- The pages left to read, the continuations seen, the bytes and the items read so far, and the
  -- continuation to ask for.
  unfoldable pub read_pages : ℕ → List Text → ℕ → List Listed → Option Text → Result (List Listed)
  unfolding runes
  read_pages zero seen total items token =
      err (message c.noun (runes " list exceeded safe page limit"))
  read_pages (suc n) seen total items token = do
    guard (ltb total max_list_bytes) (message c.noun (runes " list exceeded safe byte limit"))
    payload ←
        get_payload (record { path = c.path; continue = token; max_bytes = max_list_bytes - total })
    page ← decode_page payload
    guard (leb (length page.items) (max_list_items - length items))
        (message c.noun (runes " list exceeded safe item limit"))
    items' ← read_items page.items items
    elim (is_empty page.continue) [
      | true ↦ ok (sort_by_name items')
      | false ↦
          guard (valid_continue page.continue)
            (message_on (runes "invalid") c.noun (runes " continuation token"))
          >> (guard (not (one_of page.continue seen))
                (message_on (runes "repeated") c.noun (runes " continuation token"))
              >> read_pages n (page.continue ∷ seen) (total + json.size payload) items'
                  (some page.continue))
    ]

  -- The list as a whole.
  unfoldable pub read_list : Result (List Listed)
  read_list = read_pages max_list_pages [] 0 [] none

module _ {Payload Raw : Type 0} (json : Json Payload Raw)
    (get_payload : Request → Result Payload) where
  unfoldable pub priority_classes : Result (List Listed)
  priority_classes = read_list json get_payload priority_class_collection

  unfoldable pub runtime_classes : Result (List Listed)
  runtime_classes = read_list json get_payload runtime_class_collection

  unfoldable pub csi_drivers : Result (List Listed)
  csi_drivers = read_list json get_payload csi_driver_collection

  unfoldable pub certificate_signing_requests : Result (List Listed)
  certificate_signing_requests = read_list json get_payload certificate_signing_request_collection
