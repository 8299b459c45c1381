-- ===== src/Platform/Watched/Slots.antt =====
-- internal/platform/service.go: the slots of all reads of a cluster.
use k8s_panel.Base.{ℕ, refl, inl, inr, List, arith, Option-cases, Text, runes}
use k8s_panel.Domain.{Cluster, Failure, Result, ok, err}
use k8s_panel.Governor.{Floats, give_back}
use k8s_panel.Validation.Names.{validate_namespace}
use k8s_panel.Validation.Inputs.{PodLogRequest, validate_pod_log_request}
use k8s_panel.Validation.Access.{
  ServiceAccountAccessReviewInput, validate_service_account_access_review_input,
}
use k8s_panel.Store.Disk.{Codec}
use k8s_panel.Platform.{Panel, Visit, released, acquire_kubernetes_read, kube_gateway}
use k8s_panel.Platform.Locks.{target_lock, try_acquire_target_lock}
use k8s_panel.Platform.Clusters.{Caller, Note}
use k8s_panel.Platform.Clusters.Rotation.{Desk}
use k8s_panel.Platform.Reads.{Query}
use k8s_panel.Platform.Reads.Serve.{serve}
use k8s_panel.Platform.Reads.Slots.{Quiet, acquire-active, Balances, serve-Balances}
use k8s_panel.Platform.Watched.{pod_logs, review_service_account_access, cluster_capabilities}
use k8s_panel.Platform.Watched.Secrets.{secrets}
use k8s_panel.Platform.Watched.Admitted.{
  Returns, gateway-active, list_admitted-Returns, logs_admitted-Returns, review_admitted-Returns,
}

module _ (floats : Floats) (fingerprint : Cluster → Text) (codec : Codec)
    (v : Visit floats.Float (codec.Contents)) (quiet : Quiet v.meanwhile) (quiet' : Quiet v.during)
    (id : Text) where
  open codec use {Contents}
  open floats use {Float}

  secrets-Returns :
      {Secret : Type 0} (ask : ℕ → Text → Result (List Secret)) (n : Note) (caller : Caller)
      (namespace : Text) (p : Panel Float Contents)
      → Returns p.governor.active (secrets floats fingerprint codec ask v n caller id namespace p)
  unfolding secrets
  secrets-Returns ask n caller namespace p =
      let r = acquire_kubernetes_read floats v.at_read v.sample v.sampled_at p in
      elim (Option-cases (validate_namespace namespace)) [
        | inr (x, e) ↦ rw (e, secrets) (inl (err x, refl, refl))
        | inl e ↦ elim (acquire-active floats v.at_read v.sample v.sampled_at p) [
          | inr (x, a, k) ↦ rw (e, a, secrets) (inl (err x, refl, k))
          | inl (a, k) ↦
              rw (e, a, secrets)
                (list_admitted-Returns codec fingerprint v quiet quiet' n caller id ask namespace
                  r.0 k)
        ]
      ]

  pod_logs-Returns :
      {Logs : Type 0} (ask : ℕ → PodLogRequest → Result Logs) (n : Note) (caller : Caller)
      (input : PodLogRequest) (p : Panel Float Contents)
      → Returns p.governor.active (pod_logs floats fingerprint codec ask v n caller id input p)
  unfolding pod_logs
  pod_logs-Returns ask n caller input p =
      let r = acquire_kubernetes_read floats v.at_read v.sample v.sampled_at p in
      elim (Option-cases (validate_pod_log_request input)) [
        | inr (x, e) ↦ rw (e, pod_logs) (inl (err x, refl, refl))
        | inl e ↦ elim (acquire-active floats v.at_read v.sample v.sampled_at p) [
          | inr (x, a, k) ↦ rw (e, a, pod_logs) (inl (err x, refl, k))
          | inl (a, k) ↦
              rw (e, a, pod_logs)
                (logs_admitted-Returns codec fingerprint v quiet quiet' n caller id ask input r.0 k)
        ]
      ]

  review-Returns :
      (ask : ℕ → ServiceAccountAccessReviewInput → Result Text) (n : Note) (caller : Caller)
      (input : ServiceAccountAccessReviewInput) (at : ℕ) (p : Panel Float Contents)
      → Returns p.governor.active
          (review_service_account_access floats fingerprint codec ask v n caller id input at p)
  unfolding review_service_account_access
  review-Returns ask n caller input at p =
      let r = acquire_kubernetes_read floats v.at_read v.sample v.sampled_at p in
      elim (Option-cases (validate_service_account_access_review_input input)) [
        | inr (x, e) ↦ rw (e, review_service_account_access) (inl (err x, refl, refl))
        | inl e ↦ elim (acquire-active floats v.at_read v.sample v.sampled_at p) [
          | inr (x, a, k) ↦ rw (e, a, review_service_account_access) (inl (err x, refl, k))
          | inl (a, k) ↦
              rw (e, a, review_service_account_access)
                (review_admitted-Returns codec fingerprint v quiet quiet' n caller id ask input at
                  r.0 k)
        ]
      ]

  capabilities-Returns :
      {Check : Type 0} (ask : ℕ → Text → Result (List Check)) (at_lock : Failure) (namespace : Text)
      (at : ℕ) (d : Desk Float Contents)
      → let t = cluster_capabilities floats fingerprint codec ask at_lock v id namespace at d in
        Returns d.panel.governor.active (t.0.panel, t.1)
  unfolding cluster_capabilities released give_back
  capabilities-Returns ask at_lock namespace at d =
      let lock = target_lock id namespace (runes "cluster-capabilities") in
      let r = acquire_kubernetes_read floats v.at_read v.sample v.sampled_at d.panel in
      let g = kube_gateway fingerprint v id (v.meanwhile r.0) in
      elim (Option-cases (validate_namespace namespace)) [
        | inr (x, e) ↦ rw (e, cluster_capabilities) (inl (err x, refl, refl))
        | inl e ↦ elim (Option-cases (try_acquire_target_lock at_lock lock d.locks).1) [
          | inr (x, l) ↦ rw (e, l, cluster_capabilities) (inl (err x, refl, refl))
          | inl l ↦ elim (acquire-active floats v.at_read v.sample v.sampled_at d.panel) [
            | inr (x, a, k) ↦ rw (e, l, a, cluster_capabilities) (inl (err x, refl, k))
            | inl (a, k) ↦
                let q = gateway-active fingerprint v id r.0 _ quiet k in
                elim (Option-cases g.1) [
                  | inl m ↦ rw (e, l, a, m, cluster_capabilities) (inr (refl, q))
                  | inr (err x, m) ↦
                      rw (e, l, a, m, cluster_capabilities) (inl (err x, refl, ground arith))
                  | inr (ok w, m) ↦
                      rw (e, l, a, m, cluster_capabilities)
                        (inl (_, refl, ground (arith, quiet' g.0)))
                ]
          ]
        ]
      ]

module _ (floats : Floats) (fingerprint : Cluster → Text) (codec : Codec) where
  open codec use {Contents}
  open floats use {Float}

  -- A read gives its slot back, be it one of the 52 that `serve` dispatches, the list of secrets, the logs of a pod, the review of
  -- the access of a service account, or the scan of capabilities: whether its arguments are refused, the lock of a scan is
  -- taken, the governor is busy, the cluster cannot be reached or is asked, and whether the audit of the read fails, where the others leave the count of
  -- slots as it is and an answer comes, as many slots are taken as before; where none comes, the read waits for
  -- its gateway with one slot more.
  pub reads-Return :
      {Reply Secret Logs Check : Type 0} (ask : ℕ → Query → Result Reply)
      (ask_secrets : ℕ → Text → Result (List Secret)) (ask_logs : ℕ → PodLogRequest → Result Logs)
      (ask_review : ℕ → ServiceAccountAccessReviewInput → Result Text)
      (ask_checks : ℕ → Text → Result (List Check)) (v : Visit Float Contents) (n : Note)
      (caller : Caller) (id : Text) (d : Desk Float Contents)
      → Quiet v.meanwhile
      → Quiet v.during
      → let p = d.panel in
        let k = p.governor.active in
        ((q : Query) → Balances floats fingerprint ask k (serve floats fingerprint ask v id q p))
        × ((namespace : Text)
            → Returns k (secrets floats fingerprint codec ask_secrets v n caller id namespace p))
        × ((input : PodLogRequest)
            → Returns k (pod_logs floats fingerprint codec ask_logs v n caller id input p))
        × ((input : ServiceAccountAccessReviewInput) (at : ℕ)
            → Returns k (
                review_service_account_access floats fingerprint codec ask_review v n caller id
                  input at p))
        × ((at_lock : Failure) (namespace : Text) (at : ℕ)
            → let t =
                cluster_capabilities floats fingerprint codec ask_checks at_lock v id namespace at
                  d in
              Returns k (t.0.panel, t.1))
  reads-Return ask ask_secrets ask_logs ask_review ask_checks v n caller id d quiet quiet' = (
    λ q. serve-Balances floats fingerprint ask v id q d.panel quiet quiet',
    λ s. secrets-Returns floats fingerprint codec v quiet quiet' id ask_secrets n caller s d.panel,
    λ i. pod_logs-Returns floats fingerprint codec v quiet quiet' id ask_logs n caller i d.panel,
    λ i at.
        review-Returns floats fingerprint codec v quiet quiet' id ask_review n caller i at d.panel,
    λ l s at. capabilities-Returns floats fingerprint codec v quiet quiet' id ask_checks l s at d,
  )
