-- ===== src/Platform/Watched/Admitted.antt =====
-- internal/platform/service.go: the slots of the audited reads of a cluster, from the slot on.
use k8s_panel.Base.{
  ℕ, ◌+◌, ◌≡◌, refl, ◌∙◌, ◌⊎◌, inl, inr, Option, none, some, List, arith, Option-cases, Text,
}
use k8s_panel.Domain.{Cluster, Result, ok, err}
use k8s_panel.Governor.{give_back}
use k8s_panel.Validation.Inputs.{PodLogRequest}
use k8s_panel.Validation.Access.{ServiceAccountAccessReviewInput}
use k8s_panel.Store.Disk.{Codec}
use k8s_panel.Platform.{Panel, Visit, released, kube_gateway}
use k8s_panel.Operations.{audit}
use k8s_panel.Platform.Clusters.{Caller, Note}
use k8s_panel.Platform.Reads.Slots.{Quiet, kube_gateway-active}
use k8s_panel.Platform.Watched.{
  log_event, review_event, recorded_logs, logs_admitted, recorded_review, review_state,
  review_admitted,
}
use k8s_panel.Platform.Watched.Secrets.{list_event, recorded_list, list_admitted}

-- How many slots are taken, of as many before: as many where there is an answer, and one more where the
-- read still waits for its gateway.
abbrev pub Returns : {F C A : Type 0} → ℕ → Panel F C × Option (Result A) → Type 0
Returns {A = A} n r =
    ((answer : Result A) × (r.1 ≡ some answer) × (r.0.governor.active ≡ n))
    ⊎ ((r.1 ≡ none) × (r.0.governor.active ≡ n + 1))

released-active :
    {F C : Type 0} (p : Panel F C) {n : ℕ}
    → p.governor.active ≡ n + 1
    → (released p).governor.active ≡ n
unfolding released give_back
released-active p h = ground arith

module _ (fingerprint : Cluster → Text) {F C : Type 0} where
  -- The slot that a read has is there once it has its gateway, where the others leave the slots alone.
  pub gateway-active :
      (v : Visit F C) (id : Text) (p : Panel F C) (n : ℕ)
      → Quiet v.meanwhile
      → p.governor.active ≡ n + 1
      → (kube_gateway fingerprint v id (v.meanwhile p)).0.governor.active ≡ n + 1
  gateway-active v id p n quiet h =
      kube_gateway-active fingerprint v id (v.meanwhile p) ∙ quiet p ∙ h

module _ (codec : Codec) {F : Type 0} where
  open codec use {Contents}

  recorded_list-Returns :
      {Secret : Type 0} (n : Note) (caller : Caller) (id namespace : Text)
      (items : Result (List Secret)) (p : Panel F Contents) {k : ℕ}
      → p.governor.active ≡ k + 1
      → Returns k (recorded_list codec n caller id namespace items p)
  unfolding recorded_list released give_back
  recorded_list-Returns n caller id namespace items p h =
      let t =
        audit codec n.at_audit n.audit_id n.audit_fails
          (list_event caller id namespace items n.audited_at) p.file in
      elim (Option-cases t.1) [
        | inl e ↦ rw (e, recorded_list) (inl (items, refl, ground arith))
        | inr (x, e) ↦ rw (e, recorded_list) (inl (err _, refl, ground arith))
      ]

  module _ (fingerprint : Cluster → Text) (v : Visit F Contents) (quiet : Quiet v.meanwhile)
      (quiet' : Quiet v.during) (n : Note) (caller : Caller) (id : Text) where
    pub list_admitted-Returns :
        {Secret : Type 0} (ask : ℕ → Text → Result (List Secret)) (namespace : Text)
        (p : Panel F Contents) {k : ℕ}
        → p.governor.active ≡ k + 1
        → Returns k (list_admitted codec fingerprint ask v n caller id namespace p)
    unfolding list_admitted
    list_admitted-Returns ask namespace p h =
        let r = kube_gateway fingerprint v id (v.meanwhile p) in
        let q = gateway-active fingerprint v id p _ quiet h in
        elim (Option-cases r.1) [
          | inl e ↦ rw (e, list_admitted) (inr (refl, q))
          | inr (err x, e) ↦
              rw (e, list_admitted) (recorded_list-Returns n caller id namespace (err x) r.0 q)
          | inr (ok g, e) ↦
              rw (e, list_admitted)
                (recorded_list-Returns n caller id namespace (ask g namespace) (v.during r.0)
                  (quiet' r.0 ∙ q))
        ]

    pub logs_admitted-Returns :
        {Logs : Type 0} (ask : ℕ → PodLogRequest → Result Logs) (input : PodLogRequest)
        (p : Panel F Contents) {k : ℕ}
        → p.governor.active ≡ k + 1
        → Returns k (logs_admitted fingerprint codec ask v n caller id input p)
    unfolding logs_admitted recorded_logs released give_back
    logs_admitted-Returns ask input p h =
        let r = kube_gateway fingerprint v id (v.meanwhile p) in
        let q = gateway-active fingerprint v id p _ quiet h in
        elim (Option-cases r.1) [
          | inl e ↦ rw (e, logs_admitted) (inr (refl, q))
          | inr (err x, e) ↦ rw (e, logs_admitted) (inl (err x, refl, ground arith))
          | inr (ok g, e) ↦
              let a = ask g input in
              let t =
                audit codec n.at_audit n.audit_id n.audit_fails
                  (log_event caller id input a n.audited_at) (v.during r.0).file in
              let q' = quiet' r.0 ∙ q in
              elim (Option-cases t.1) [
                | inl f ↦ rw (e, f, recorded_logs, logs_admitted) (inl (a, refl, ground arith))
                | inr (x, f) ↦
                    rw (e, f, recorded_logs, logs_admitted) (inl (err _, refl, ground arith))
              ]
        ]

    recorded_review-Returns :
        (ask : ℕ → ServiceAccountAccessReviewInput → Result Text)
        (input : ServiceAccountAccessReviewInput) (at : ℕ) (r : Result Text) (p : Panel F Contents)
        {k : ℕ}
        → p.governor.active ≡ k
        → Returns k (recorded_review fingerprint codec ask n caller id input at r p)
    unfolding recorded_review
    recorded_review-Returns ask input at r p h =
        let t =
          audit codec n.at_audit n.audit_id n.audit_fails
            (review_event caller id input r n.audited_at) p.file in
        elim (Option-cases t.1) [
          | inl f ↦ rw (f, recorded_review) (inl (_, refl, h))
          | inr (x, f) ↦ rw (f, recorded_review) (inl (err _, refl, h))
        ]

    pub review_admitted-Returns :
        (ask : ℕ → ServiceAccountAccessReviewInput → Result Text)
        (input : ServiceAccountAccessReviewInput) (at : ℕ) (p : Panel F Contents) {k : ℕ}
        → p.governor.active ≡ k + 1
        → Returns k (review_admitted fingerprint codec ask v n caller id input at p)
    unfolding review_admitted
    review_admitted-Returns ask input at p h =
        let r = kube_gateway fingerprint v id (v.meanwhile p) in
        let q = gateway-active fingerprint v id p _ quiet h in
        elim (Option-cases r.1) [
          | inl e ↦ rw (e, review_admitted) (inr (refl, q))
          | inr (err x, e) ↦
              rw (e, review_admitted)
                (recorded_review-Returns ask input at (err x) (released r.0)
                  (released-active r.0 q))
          | inr (ok g, e) ↦
              rw (e, review_admitted)
                (recorded_review-Returns ask input at (review_state (ask g input))
                  (released (v.during r.0)) (released-active (v.during r.0) (quiet' r.0 ∙ q)))
        ]
