-- ===== src/Platform/Clusters/Created.antt =====
-- internal/platform/service.go: the creation of a cluster.
use k8s_panel.Base.{
  ◌≡◌, refl, ap, ◌∙◌, inl, inr, false, Option, none, some, [], ◌∷◌, ◌++◌, arith, Bool-cases,
  Option-cases, Text, runes, List,
}
use k8s_panel.Domain.{Cluster, Failure, Result, Result-cases, ok}
use k8s_panel.Validation.Origins.{Url, ClusterInput, validate_cluster_input}
use k8s_panel.Store.Items.{find, clashes}
use k8s_panel.Store.Changes.{cluster_id, cluster_name, create_cluster}
use k8s_panel.Store.Disk.{Codec}
use k8s_panel.Store.State.{State}
use k8s_panel.Store.File.{write, change, creates_cluster}
use k8s_panel.Operations.{audit}
use k8s_panel.Platform.{Panel}
use k8s_panel.Platform.Clusters.{ClusterView, Caller, cluster_event, seal_credentials}
use k8s_panel.Platform.Clusters.Probing.{test_connection}
use k8s_panel.Platform.Clusters.Lifecycle.{Creation, new_cluster, known, view_of, create_stored}
use k8s_panel.Platform.Clusters.Lifecycle
use k8s_panel.Platform.Clusters.Stored.{write-none, audit-clusters}
use k8s_panel.Platform.Clusters.Refused.{clusters, LeavesClusters}

find-snoc :
    (c : Cluster) (cs : List Cluster)
    → clashes cluster_id cluster_name c cs ≡ false
    → find cluster_id c.id (cs ++ c ∷ []) ≡ some c
unfolding find clashes
find-snoc c [] h = ground arith
find-snoc c (x ∷ cs) h = ground (arith, find-snoc c cs)

create_cluster-find :
    (ctx : Failure) (c : Cluster) (s : State) {s' : State}
    → create_cluster ctx c s ≡ ok s'
    → find cluster_id c.id s'.clusters ≡ some c
unfolding create_cluster
create_cluster-find (some e) c s h = cc
create_cluster-find none c s h = elim (Bool-cases (clashes cluster_id cluster_name c s.clusters)) [
  | inl e ↦ absurd (ground arith)
  | inr e ↦ ground (arith, e, find-snoc c s.clusters e)
]

view_of-ok :
    (o : Option (Option ClusterView × Failure)) (view : Option ClusterView)
    → view_of o ≡ some (ok view)
    → (failure : Failure) × (o ≡ some (view, failure))
view_of-ok none view h = cc
view_of-ok (some (v, f)) view h = (f, ground (arith, h))

module _ (fingerprint : Cluster → Text) (codec : Codec) {F : Type 0}
    (parse_request_uri : Text → Result Url) (seal : Text → Text → Result Text) where
  open codec use {Contents}

  -- A cluster is stored in a panel, on which the test of its connection then gives the view and leads to the other panel.
  pub IsTested :
      Creation F Contents → Caller → Cluster → Option ClusterView → Panel F Contents → Type 0
  IsTested a caller c view q =
      (p : Panel F Contents) × (failure : Failure) × (find cluster_id c.id (clusters p) ≡ some c)
      × ((test_connection fingerprint codec a.probe caller c.id p).1 ≡ some (view, failure))
      × (q ≡ (test_connection fingerprint codec a.probe caller c.id p).0)

  create_stored-ok :
      (a : Creation F Contents) (caller : Caller) (c : Cluster) (p : Panel F Contents)
      (view : Option ClusterView)
      → let t = create_stored fingerprint codec parse_request_uri seal a caller c.id c p in
        LeavesClusters a.between → t.1 ≡ some (ok view) → IsTested a caller c view t.0
  unfolding create_stored IsTested change
  create_stored-ok a caller c p view quiet h =
      let w = write codec a.create_fails (creates_cluster a.at_create c) p.file in
      let p' = record p { file = w.0 } in
      let event =
        cluster_event caller (runes "cluster.create") (runes "succeeded") c.id c.name
          (runes "connection metadata created") a.note.audited_at in
      let t =
        audit codec a.note.at_audit a.note.audit_id a.note.audit_fails event (a.between p').file in
      let q : Panel F Contents = record (a.between p') { file = t.0 } in
      elim (Option-cases w.1) [
        | inr (x, e) ↦ absurd (ground (arith, e))
        | inl e ↦ elim (Option-cases t.1) [
          | inr (x, f) ↦ absurd (ground (arith, e, f))
          | inl f ↦
              let l : clusters q ≡ clusters p' =
                audit-clusters codec a.note.at_audit a.note.audit_id a.note.audit_fails event
                  (a.between p').file
                ∙ quiet p' in
              let s =
                create_cluster-find a.at_create c p.file.state
                  (write-none codec a.create_fails (creates_cluster a.at_create c) p.file e) in
              let (failure, g) =
                view_of-ok (test_connection fingerprint codec a.probe caller c.id q).1 view
                  (ground (arith, e, f, h)) in
              (q, failure, ap (find cluster_id c.id) l ∙ s, g, rw (e, f, create_stored) refl)
        ]
      ]

  -- A creation that is answered without an error has had its input and its target accepted, and its token and
  -- certificate sealed for the new identifier; the new cluster was stored, where the others change no cluster before its audit; and the answer is the view
  -- that the test of its connection gave, whether that test failed or not.
  pub create_cluster-ok :
      (a : Creation F Contents) (caller : Caller) (input : ClusterInput) (p : Panel F Contents)
      (view : Option ClusterView)
      → let t =
          Lifecycle.create_cluster fingerprint codec parse_request_uri seal a caller input p in
        LeavesClusters a.between
        → t.1 ≡ some (ok view)
        → (id : Text) × (token : Text) × (ca : Text) × (validate_cluster_input parse_request_uri
              input
            ≡ none)
          × (a.target_failure ≡ none)
          × (a.cluster_id ≡ ok id)
          × (seal_credentials seal id input.bearer_token input.ca_cert ≡ ok (token, ca))
          × IsTested a caller
              (new_cluster id input (known input.environment) token ca a.created_at)
              view
              t.0
  unfolding Lifecycle.create_cluster new_cluster IsTested
  create_cluster-ok a caller input p view quiet h =
      elim (Option-cases (validate_cluster_input parse_request_uri input)) [
        | inr (x, e) ↦ absurd (ground (arith, e))
        | inl e ↦ elim (Option-cases (a.target_failure)) [
          | inr (x, f) ↦ absurd (ground (arith, e, f))
          | inl f ↦ elim (Result-cases (a.cluster_id)) [
            | inr (x, g) ↦ absurd (ground (arith, e, f, g))
            | inl (id, g) ↦
                elim (Result-cases (seal_credentials seal id input.bearer_token input.ca_cert)) [
                  | inr (x, k) ↦ absurd (ground (arith, e, f, g, k))
                  | inl ((token, ca), k) ↦
                      let c =
                        new_cluster id input (known input.environment) token ca a.created_at in
                      (
                        id,
                        token,
                        ca,
                        e,
                        f,
                        g,
                        k,
                        rw (e, f, g, k, Lifecycle.create_cluster)
                            (create_stored-ok a caller c p view quiet
                              (ground (arith, e, f, g, k, h))),
                      )
                ]
          ]
        ]
      ]
