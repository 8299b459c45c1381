-- ===== src/Tests/Slots.antt =====
-- internal/platform/service.go at a concrete state: the slots of the reads of a cluster.
use k8s_panel.Base.{ℕ, refl, false, none, List, [], ◌∷◌, Text}
use k8s_panel.Domain.{Failure, Result, ok}
use k8s_panel.Validation.Inputs.{PodLogRequest}
use k8s_panel.Validation.Access.{ServiceAccountAccessReviewInput}
use k8s_panel.Store.Open.{never}
use k8s_panel.Store.State.{State}
use k8s_panel.Platform.Clusters.{Caller, Note}
use k8s_panel.Platform.Clusters.Rotation.{Desk}
use k8s_panel.Platform.Reads.{Query}
use k8s_panel.Platform.Reads.Serve.{serve}
use k8s_panel.Platform.Reads.Slots.{Balances}
use k8s_panel.Platform.Watched.{pod_logs, review_service_account_access, cluster_capabilities}
use k8s_panel.Platform.Watched.Secrets.{secrets}
use k8s_panel.Platform.Watched.Admitted.{Returns}
use k8s_panel.Platform.Watched.Slots
use k8s_panel.Tests.Governors.{percent}
use k8s_panel.Tests.Stores.{plain}
use k8s_panel.Tests.Reads.{panel, visit, fingerprint}

abbrev ask : ℕ → Query → Result ℕ
ask g q = ok g

abbrev ask_secrets : ℕ → Text → Result (List ℕ)
ask_secrets g s = ok (5 ∷ [])

abbrev ask_logs : ℕ → PodLogRequest → Result Text
ask_logs g i = ok (b'l' ∷ [])

abbrev ask_review : ℕ → ServiceAccountAccessReviewInput → Result Text
ask_review g i = ok (b'x' ∷ [])

abbrev caller : Caller
caller = record { actor = b'a' ∷ []; request_id = b'r' ∷ [] }

abbrev note : Note
note = record { at_audit = none; audit_id = ok (b'n' ∷ []); audited_at = 30; audit_fails = never }

abbrev desk : Desk ℕ State
desk = record { panel = panel; locks = λ k. false }

abbrev id : Text
id = 1 ∷ []

reads-Return_example :
    ((q : Query)
      → Balances percent fingerprint ask 0 (serve percent fingerprint ask visit id q panel))
    × ((s : Text)
        → Returns 0 (secrets percent fingerprint plain ask_secrets visit note caller id s panel))
    × ((i : PodLogRequest)
        → Returns 0 (pod_logs percent fingerprint plain ask_logs visit note caller id i panel))
    × ((i : ServiceAccountAccessReviewInput) (at : ℕ)
        → Returns 0 (
            review_service_account_access percent fingerprint plain ask_review visit note caller id
              i at panel))
    × ((at_lock : Failure) (s : Text) (at : ℕ)
        → let t =
            cluster_capabilities percent fingerprint plain ask_secrets at_lock visit id s at desk in
          Returns 0 (t.0.panel, t.1))
reads-Return_example =
    Slots.reads-Return percent fingerprint plain ask ask_secrets ask_logs ask_review ask_secrets
      visit note caller id desk (λ p. refl) (λ p. refl)
