-- ===== src/Platform/Watched/Secrets.antt =====
-- internal/platform/service.go: `Secrets`, the list of the metadata of secrets, which is audited.
use k8s_panel.Base.{ℕ, Option, none, some, List, ◌++◌, length, Text, runes}
use k8s_panel.Domain.{Cluster, AuditEvent, Result, ok, err, wrapped}
use k8s_panel.Governor.{Floats}
use k8s_panel.Validation.Names.{validate_namespace}
use k8s_panel.Store.Disk.{Codec}
use k8s_panel.Operations.{audit}
use k8s_panel.Platform.{Panel, Visit, released, acquire_kubernetes_read, kube_gateway}
use k8s_panel.Platform.Clusters.{Caller, Note, cluster_event}
use k8s_panel.Platform.Watched.{decimal, result_of}

-- The summary of a list, or of its failure.
unfoldable pub list_summary : {A : Type 0} → Result (List A) → Text
unfolding runes
list_summary (ok items) = runes "count=" ++ decimal (length items)
list_summary (err e) = runes "secret metadata list failed"

unfoldable pub list_event :
    {A : Type 0} → Caller → Text → Text → Result (List A) → ℕ → Text → AuditEvent
unfolding runes
list_event caller id namespace items now audit_id =
    record (cluster_event caller (runes "secret.metadata.list")
      (result_of items (runes "succeeded") (runes "failed")) id (runes "secrets")
      (list_summary items) now audit_id) { namespace = namespace }

module _ (codec : Codec) {F Secret : Type 0} where
  open codec use {Contents}

  -- The list, or its failure, once it is recorded; the slot is given back.
  unfoldable pub recorded_list :
      Note
      → Caller
      → Text
      → Text
      → Result (List Secret)
      → Panel F Contents
      → Panel F Contents × Option (Result (List Secret))
  unfolding runes
  recorded_list n caller id namespace items p =
      let (file, failure) =
        audit codec n.at_audit n.audit_id n.audit_fails
          (list_event caller id namespace items n.audited_at) p.file in
      let p' = released (record p { file = file }) in
      elim failure [
        | some e ↦ (p', some (err (wrapped (runes "write secret metadata audit") e)))
        | none ↦ (p', some items)
      ]

  -- `Secrets` from its slot on: the panel, and the answer, `none` where it waits for a gateway.
  unfoldable pub list_admitted :
      (Cluster → Text)
      → (ℕ → Text → Result (List Secret))
      → Visit F Contents
      → Note
      → Caller
      → Text
      → Text
      → Panel F Contents
      → Panel F Contents × Option (Result (List Secret))
  unfolding recorded_list
  list_admitted fingerprint ask v n caller id namespace p =
      let (p', gateway) = kube_gateway fingerprint v id (v.meanwhile p) in
      elim gateway [
        | none ↦ (p', none)
        | some (err e) ↦ recorded_list n caller id namespace (err e) p'
        | some (ok g) ↦ recorded_list n caller id namespace (ask g namespace) (v.during p')
      ]

module _ (floats : Floats) (fingerprint : Cluster → Text) (codec : Codec) {Secret : Type 0} where
  open codec use {Contents}
  open floats use {Float}

  unfoldable pub secrets :
      (ℕ → Text → Result (List Secret))
      → Visit Float Contents
      → Note
      → Caller
      → Text
      → Text
      → Panel Float Contents
      → Panel Float Contents × Option (Result (List Secret))
  unfolding list_admitted
  secrets ask v n caller id namespace p = elim (validate_namespace namespace) [
    | some e ↦ (p, some (err e))
    | none ↦
        let (p', failure) = acquire_kubernetes_read floats v.at_read v.sample v.sampled_at p in
        elim failure [
          | some e ↦ (p', some (err e))
          | none ↦ list_admitted codec fingerprint ask v n caller id namespace p'
        ]
  ]
