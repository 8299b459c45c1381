-- ===== src/Platform/Watched/Recorded.antt =====
-- internal/platform/service.go: the logs of a pod and their record in the audit trail.
use k8s_panel.Base.{ℕ, ◌≡◌, some, [], ◌∷◌, ◌++◌, Text}
use k8s_panel.Domain.{Cluster, Result, ok}
use k8s_panel.Validation.Inputs.{PodLogRequest}
use k8s_panel.Store.Disk.{Codec}
use k8s_panel.Store.History.{trim_audit_history}
use k8s_panel.Platform.{Panel, Visit, kube_gateway}
use k8s_panel.Platform.Clusters.{Caller, Note}
use k8s_panel.Platform.Watched.{log_event}

module _ (fingerprint : Cluster → Text) (codec : Codec) {F Logs : Type 0}
    (ask : ℕ → PodLogRequest → Result Logs) where
  open codec use {Contents}

  -- A gateway was asked, and its answer is what the caller gets; the trail that the read leaves is the one that it
  -- found, with its event as the last.
  pub IsRecorded :
      Visit F Contents
      → Note
      → Caller
      → Text
      → PodLogRequest
      → Panel F Contents
      → Panel F Contents
      → Logs
      → Type 0
  IsRecorded v n caller id input p q logs =
      let r = kube_gateway fingerprint v id (v.meanwhile p) in
      (g : ℕ) × (k : Text) × (r.1 ≡ some (ok g))
      × (ask g input ≡ ok logs)
      × (q.file.state.audit_events
          ≡ trim_audit_history (
              (v.during r.0).file.state.audit_events
              ++ log_event caller id input (ok logs) n.audited_at k ∷ []))
