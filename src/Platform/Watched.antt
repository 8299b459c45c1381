-- ===== src/Platform/Watched.antt =====
-- internal/platform/service.go: the reads that are recorded in the audit trail, of the logs of a pod and of
-- the access of a service account, and the scan of the capabilities of the panel.
pub mod Recorded
pub mod Secrets
pub mod Admitted
pub mod Slots
use k8s_panel.Base.{
  ℕ, zero, suc, ◌+◌, ◌/◌, ◌%◌, Bool, true, false, not, ◌&&◌, ◌||◌, Option, none, some, List, [],
  ◌∷◌, ◌++◌, if◌then◌else◌, ltb, Text, runes, same, is_empty,
}
use k8s_panel.Domain.{
  Cluster, AuditEvent, Failure, Result, Error, ok, err, wrapped, upstream, ◌>>=◌,
}
use k8s_panel.Governor.{Floats}
use k8s_panel.Validation.Names.{validate_namespace}
use k8s_panel.Validation.Inputs.{PodLogRequest, validate_pod_log_request}
use k8s_panel.Validation.Access.{
  ServiceAccountAccessReviewInput, ResourceAttributes, validate_service_account_access_review_input,
}
use k8s_panel.Store.Disk.{Codec}
use k8s_panel.Operations.{audit}
use k8s_panel.Platform.{Panel, Visit, released, acquire_kubernetes_read, kube_gateway}
use k8s_panel.Platform.Locks.{Locks, target_lock, set_lock, try_acquire_target_lock}
use k8s_panel.Platform.Clusters.{Caller, Note, cluster_event}
use k8s_panel.Platform.Clusters.Rotation.{Desk}

-- The verb %d, for numbers below 10 ^ 20.
unfoldable pub digits : ℕ → ℕ → Text
digits zero n = []
digits (suc f) n =
    let rest = digits f (n / 10) in
    if ltb n 10 then (b'0' + n) ∷ [] else rest ++ (b'0' + n % 10) ∷ []

unfoldable pub decimal : ℕ → Text
decimal n = digits 20 n

-- The verb %t.
unfoldable pub bool_text : Bool → Text
unfolding runes
bool_text true = runes "true"
bool_text false = runes "false"

unfoldable pub log_summary : PodLogRequest → Text
unfolding runes
log_summary input =
    runes "container="
    ++ input.container
    ++ runes ", previous="
    ++ bool_text input.previous
    ++ runes ", tail_lines="
    ++ decimal input.tail_lines

abbrev pub result_of {ℓ} : {A : Type ℓ} → Result A → Text → Text → Text
result_of (ok a) yes_text no_text = yes_text
result_of (err e) yes_text no_text = no_text

unfoldable pub log_event :
    {Logs : Type 0} → Caller → Text → PodLogRequest → Result Logs → ℕ → Text → AuditEvent
unfolding runes
log_event caller id input logs now audit_id =
    record (cluster_event caller (runes "pod.logs.read")
      (result_of logs (runes "succeeded") (runes "failed")) id
      (input.pod ++ runes "/" ++ input.container)
      (result_of logs (log_summary input) (runes "pod log request failed")) now audit_id) {
        namespace = input.namespace;
      }

unfoldable pub access_review_audit_value : Text → Text → Text
access_review_audit_value value empty = if is_empty value then empty else value

-- The states that a review may have.
unfoldable pub known_state : Text → Bool
unfolding runes
known_state state =
    same state (runes "allowed")
    || same state (runes "denied")
    || same state (runes "indeterminate")

unfoldable pub review_state : Result Text → Result Text
unfolding runes
review_state r = do
  state ← r
  if known_state state
      then ok state
      else err (wrapped (runes "invalid Kubernetes service account access review state") upstream)

unfoldable pub review_summary : Text → ResourceAttributes → Text
unfolding runes
review_summary state a =
    runes "state="
    ++ state
    ++ runes ", verb="
    ++ a.verb
    ++ runes ", group="
    ++ access_review_audit_value a.group (runes "core")
    ++ runes ", resource="
    ++ a.resource
    ++ runes ", subresource="
    ++ access_review_audit_value a.subresource (runes "-")
    ++ runes ", target_namespace="
    ++ access_review_audit_value a.namespace (runes "cluster")

abbrev pub summary_of : Result Text → ResourceAttributes → Text
unfolding runes
summary_of (ok state) a = review_summary state a
summary_of (err e) a = runes "service account access review failed"

unfoldable pub review_event :
    Caller → Text → ServiceAccountAccessReviewInput → Result Text → ℕ → Text → AuditEvent
unfolding runes
review_event caller id input r now audit_id =
    record (cluster_event caller (runes "service_account.access_review")
      (result_of r (runes "succeeded") (runes "failed")) id
      (input.account_namespace ++ runes "/" ++ input.account_name) (summary_of r input.attributes)
      now audit_id) { namespace = input.account_namespace }

module _ (fingerprint : Cluster → Text) (codec : Codec) {F : Type 0} where
  open codec use {Contents}

  module _ {Logs : Type 0} (ask : ℕ → PodLogRequest → Result Logs) where
    -- The logs that the gateway gave, once they are recorded; the slot is given back.
    unfoldable pub recorded_logs :
        Note
        → Caller
        → Text
        → PodLogRequest
        → Result Logs
        → Panel F Contents
        → Panel F Contents × Option (Result Logs)
    unfolding runes
    recorded_logs n caller id input logs p =
        let (file, failure) =
          audit codec n.at_audit n.audit_id n.audit_fails
            (log_event caller id input logs n.audited_at) p.file in
        let p' = released (record p { file = file }) in
        elim failure [
          | some e ↦ (p', some (err (wrapped (runes "write pod log audit") e)))
          | none ↦ (p', some logs)
        ]

    -- `PodLogs` from its slot on: the panel, and the answer, `none` where it waits for a gateway.
    unfoldable pub logs_admitted :
        Visit F Contents
        → Note
        → Caller
        → Text
        → PodLogRequest
        → Panel F Contents
        → Panel F Contents × Option (Result Logs)
    unfolding recorded_logs
    logs_admitted v n caller id input p =
        let (p', gateway) = kube_gateway fingerprint v id (v.meanwhile p) in
        elim gateway [
          | none ↦ (p', none)
          | some (err e) ↦ (released p', some (err e))
          | some (ok g) ↦ recorded_logs n caller id input (ask g input) (v.during p')
        ]

  module _ (ask : ℕ → ServiceAccountAccessReviewInput → Result Text) where
    -- `ReviewServiceAccountAccess` once its review is done and its slot given back.
    unfoldable pub recorded_review :
        Note
        → Caller
        → Text
        → ServiceAccountAccessReviewInput
        → ℕ
        → Result Text
        → Panel F Contents
        → Panel F Contents × Option (Result (Text × ℕ))
    unfolding runes
    recorded_review n caller id input checked_at r p =
        let (file, failure) =
          audit codec n.at_audit n.audit_id n.audit_fails
            (review_event caller id input r n.audited_at) p.file in
        let p' = record p { file = file } in
        elim failure [
          | some e ↦
              (p', some (err (wrapped (runes "write service account access review audit") e)))
          | none ↦ (p', some (do state ← r; ok (state, checked_at)))
        ]

    unfoldable pub review_admitted :
        Visit F Contents
        → Note
        → Caller
        → Text
        → ServiceAccountAccessReviewInput
        → ℕ
        → Panel F Contents
        → Panel F Contents × Option (Result (Text × ℕ))
    unfolding recorded_review
    review_admitted v n caller id input checked_at p =
        let (p', gateway) = kube_gateway fingerprint v id (v.meanwhile p) in
        elim gateway [
          | none ↦ (p', none)
          | some (err e) ↦ recorded_review n caller id input checked_at (err e) (released p')
          | some (ok g) ↦
              recorded_review n caller id input checked_at (review_state (ask g input))
                (released (v.during p'))
        ]

module _ (floats : Floats) (fingerprint : Cluster → Text) (codec : Codec) where
  open codec use {Contents}
  open floats use {Float}

  unfoldable pub pod_logs :
      {Logs : Type 0}
      → (ℕ → PodLogRequest → Result Logs)
      → Visit Float Contents
      → Note
      → Caller
      → Text
      → PodLogRequest
      → Panel Float Contents
      → Panel Float Contents × Option (Result Logs)
  unfolding logs_admitted
  pod_logs ask v n caller id input p = elim (validate_pod_log_request input) [
    | some e ↦ (p, some (err e))
    | none ↦
        let (p', failure) = acquire_kubernetes_read floats v.at_read v.sample v.sampled_at p in
        elim failure [
          | some e ↦ (p', some (err e))
          | none ↦ logs_admitted fingerprint codec ask v n caller id input p'
        ]
  ]

  -- The answer is the state and the time of the review; the rest of it repeats the input.
  unfoldable pub review_service_account_access :
      (ℕ → ServiceAccountAccessReviewInput → Result Text)
      → Visit Float Contents
      → Note
      → Caller
      → Text
      → ServiceAccountAccessReviewInput
      → ℕ
      → Panel Float Contents
      → Panel Float Contents × Option (Result (Text × ℕ))
  unfolding review_admitted
  review_service_account_access ask v n caller id input checked_at p =
      elim (validate_service_account_access_review_input input) [
        | some e ↦ (p, some (err e))
        | none ↦
            let (p', failure) = acquire_kubernetes_read floats v.at_read v.sample v.sampled_at p in
            elim failure [
              | some e ↦ (p', some (err e))
              | none ↦ review_admitted fingerprint codec ask v n caller id input checked_at p'
            ]
      ]

  -- The lock, the slot and the gateway of a scan; `none` where it waits for the gateway. The answer is
  -- the time of the scan and what the gateway found.
  unfoldable pub cluster_capabilities :
      {Check : Type 0}
      → (ℕ → Text → Result (List Check))
      → Failure
      → Visit Float Contents
      → Text
      → Text
      → ℕ
      → Desk Float Contents
      → Desk Float Contents × Option (Result (ℕ × List Check))
  unfolding runes
  cluster_capabilities ask at_lock v id namespace checked_at d =
      elim (validate_namespace namespace) [
        | some e ↦ (d, some (err e))
        | none ↦
            let lock = target_lock id namespace (runes "cluster-capabilities") in
            let (locks, refused) = try_acquire_target_lock at_lock lock d.locks in
            let unlocked = set_lock lock false locks in
            elim refused [
              | some e ↦ (d, some (err e))
              | none ↦
                  let (p, failure) =
                    acquire_kubernetes_read floats v.at_read v.sample v.sampled_at d.panel in
                  let (p', gateway) = kube_gateway fingerprint v id (v.meanwhile p) in
                  elim failure [
                    | some e ↦ (record { panel = p; locks = unlocked }, some (err e))
                    | none ↦ elim gateway [
                      | none ↦ (record { panel = p'; locks = locks }, none)
                      | some (err e) ↦
                          (record { panel = released p'; locks = unlocked }, some (err e))
                      | some (ok g) ↦ (
                        record { panel = released (v.during p'); locks = unlocked },
                        some (do checks ← ask g namespace; ok (checked_at, checks)),
                      )
                    ]
                  ]
            ]
      ]
