-- ===== src/Platform/Clusters/Lifecycle.antt =====
-- internal/platform/service.go: creating, enabling, disabling, deleting and reading a cluster.
use k8s_panel.Base.{
  ℕ, Bool, true, false, not, ◌&&◌, Option, none, some, [], ◌∷◌, if◌then◌else◌, ◌==◌, Text, runes,
  same, is_empty,
}
use k8s_panel.Domain.{
  Cluster, Environment, AuditEvent, Failure, Result, ok, err, wrapped, invalid, pending, disabled,
  development,
}
use k8s_panel.Cache.{invalidate}
use k8s_panel.Validation.Origins.{Url, ClusterInput, validate_cluster_input}
use k8s_panel.Store.Disk.{Codec, Call}
use k8s_panel.Store.File.{write, get_cluster, creates_cluster, updates_cluster, deletes_cluster}
use k8s_panel.Store.State.{State}
use k8s_panel.Operations.{audit}
use k8s_panel.Platform.{Panel}
use k8s_panel.Platform.Clusters.{
  ClusterView, cluster_view, Caller, Note, cluster_event, seal_credentials,
}
use k8s_panel.Platform.Clusters.Probing.{Probe, test_connection}

-- `strings.TrimRight(s, cutset)` at a cutset of one character.
unfoldable pub trim_right : ℕ → Text → Text
trim_right c [] = []
trim_right c (x ∷ s) = let rest = trim_right c s in if is_empty rest && x == c then [] else x ∷ rest

-- What a creation is answered: the check of the target, the identifier, the clock, the store, the
-- audit, what others do between the two, and the test of the connection.
pub record Creation (F C : Type 0) : Type 0 where
  pub target_failure : Failure
  pub cluster_id : Result Text
  pub created_at : ℕ
  pub at_create : Failure
  pub create_fails : Call → Bool
  pub between : Panel F C → Panel F C
  pub note : Note
  pub probe : Probe F C

unfoldable pub new_cluster : Text → ClusterInput → Environment → Text → Text → ℕ → Cluster
new_cluster id input environment token ca now = record {
  id = id;
  name = input.name;
  environment = environment;
  server = trim_right b'/' input.server;
  status = pending;
  version = [];
  last_error_code = [];
  ca_cert_ciphertext = ca;
  bearer_token_ciphertext = token;
  last_checked_at = 0;
  created_at = now;
  updated_at = now;
}

-- The environment of an input that passed its test.
abbrev pub known : Option Environment → Environment
known none = development
known (some e) = e

-- What a change of `enabled` is answered.
pub record Switch (F C : Type 0) : Type 0 where
  pub at_store : Failure
  pub meanwhile : Panel F C → Panel F C
  pub updated_at : ℕ
  pub at_update : Failure
  pub update_fails : Call → Bool
  pub between : Panel F C → Panel F C
  pub note : Note
  pub probe : Probe F C

-- What a deletion is answered.
pub record Deletion (F C : Type 0) : Type 0 where
  pub at_store : Failure
  pub meanwhile : Panel F C → Panel F C
  pub note : Note
  pub between : Panel F C → Panel F C
  pub at_delete : Failure
  pub delete_fails : Call → Bool

unfoldable pub enabled_text : Bool → Text
unfolding runes
enabled_text true = runes "enabled=true"
enabled_text false = runes "enabled=false"

unfoldable pub switched : Bool → ℕ → Cluster → Cluster
switched enabled now c = record c {
  status = if enabled then pending else disabled;
  updated_at = now;
}

-- The event that a deletion is audited with.
unfoldable pub deletion_event : Caller → Text → Cluster → ℕ → Text → AuditEvent
unfolding runes
deletion_event caller id cluster now audit_id =
    cluster_event caller (runes "cluster.delete") (runes "succeeded") id cluster.name
      (runes "connection metadata deleted") now audit_id

unfoldable pub get_cluster_view : Failure → Text → State → Result ClusterView
get_cluster_view ctx id s = elim (get_cluster ctx id s) [
  | err e ↦ err e
  | ok c ↦ ok (cluster_view c)
]

-- The view of a test of the connection, whatever its error: `view, _ := s.testClusterConnection(…)`.
abbrev pub view_of : Option (Option ClusterView × Failure) → Option (Result (Option ClusterView))
view_of none = none
view_of (some (view, failure)) = some (ok view)

module _ (fingerprint : Cluster → Text) (codec : Codec) {F : Type 0} where
  open codec use {Contents}

  module _ (parse_request_uri : Text → Result Url) (seal : Text → Text → Result Text) where
    -- A creation once its cluster is made.
    unfoldable pub create_stored :
        Creation F Contents
        → Caller
        → Text
        → Cluster
        → Panel F Contents
        → Panel F Contents × Option (Result (Option ClusterView))
    unfolding runes
    create_stored a caller id cluster p =
        let (file, failure) =
          write codec a.create_fails (creates_cluster a.at_create cluster) p.file in
        elim failure [
          | some e ↦ (record p { file = file }, some (err e))
          | none ↦
              let q = a.between (record p { file = file }) in
              let (file', failure') =
                audit codec a.note.at_audit a.note.audit_id a.note.audit_fails
                  (cluster_event caller (runes "cluster.create") (runes "succeeded") id cluster.name
                    (runes "connection metadata created") a.note.audited_at)
                  q.file in
              elim failure' [
                | some e ↦ (
                  record q { file = file' },
                  some (err (wrapped (runes "write cluster audit") e)),
                )
                | none ↦
                    let (q', answer) =
                      test_connection fingerprint codec a.probe caller id
                        (record q { file = file' }) in
                    (q', view_of answer)
              ]
        ]

    -- `CreateCluster`: the panel, and the answer, `none` where it still waits for a gateway; a view of
    -- `none` is the empty one.
    unfoldable pub create_cluster :
        Creation F Contents
        → Caller
        → ClusterInput
        → Panel F Contents
        → Panel F Contents × Option (Result (Option ClusterView))
    unfolding runes create_stored
    create_cluster a caller input p = elim (validate_cluster_input parse_request_uri input) [
      | some e ↦ (p, some (err e))
      | none ↦ elim (a.target_failure) [
        | some e ↦ (
          p,
          some (err (invalid (runes "server") (runes "target is blocked or cannot be resolved"))),
        )
        | none ↦ elim (a.cluster_id) [
          | err e ↦ (p, some (err (wrapped (runes "create cluster ID") e)))
          | ok id ↦ elim (seal_credentials seal id input.bearer_token input.ca_cert) [
            | err e ↦ (p, some (err e))
            | ok (token, ca) ↦
                create_stored a caller id
                  (new_cluster id input (known input.environment) token ca a.created_at) p
          ]
        ]
      ]
    ]

  unfoldable pub set_cluster_enabled :
      Switch F Contents
      → Caller
      → Text
      → Bool
      → Panel F Contents
      → Panel F Contents × Option (Result (Option ClusterView))
  unfolding runes switched enabled_text
  set_cluster_enabled a caller id enabled p = elim (get_cluster a.at_store id p.file.state) [
    | err e ↦ (p, some (err e))
    | ok read ↦
        let cluster = switched enabled a.updated_at read in
        let p' = a.meanwhile p in
        let (file, failure) =
          write codec a.update_fails (updates_cluster a.at_update cluster) p'.file in
        elim failure [
          | some e ↦ (record p' { file = file }, some (err e))
          | none ↦
              let q = a.between (record p' {
                file = file;
                cache = if enabled then p'.cache else (invalidate id p'.cache).0;
              }) in
              let (file', failure') =
                audit codec a.note.at_audit a.note.audit_id a.note.audit_fails
                  (cluster_event caller (runes "cluster.update") (runes "succeeded") id cluster.name
                    (enabled_text enabled) a.note.audited_at)
                  q.file in
              elim failure' [
                | some e ↦ (record q { file = file' }, some (err e))
                | none ↦ elim enabled [
                  | true ↦
                      let (q', answer) =
                        test_connection fingerprint codec a.probe caller id
                          (record q { file = file' }) in
                      (q', view_of answer)
                  | false ↦ (record q { file = file' }, some (ok (some (cluster_view cluster))))
                ]
              ]
        ]
  ]

module _ (codec : Codec) {F : Type 0} where
  open codec use {Contents}

  unfoldable pub delete_cluster :
      Deletion F Contents → Caller → Text → Text → Panel F Contents → Panel F Contents × Failure
  unfolding runes deletion_event
  delete_cluster a caller id expected_name p = elim (get_cluster a.at_store id p.file.state) [
    | err e ↦ (p, some e)
    | ok cluster ↦
        if not (same expected_name cluster.name)
        then (p, some (invalid (runes "confirmation") (runes "must match the cluster name")))
        else let p' = a.meanwhile p in
          let (file, failure) =
            audit codec a.note.at_audit a.note.audit_id a.note.audit_fails
              (deletion_event caller id cluster a.note.audited_at) p'.file in
          elim failure [
            | some e ↦ (record p' { file = file }, some e)
            | none ↦
                let q = a.between (record p' { file = file }) in
                let (file', failure') =
                  write codec a.delete_fails (deletes_cluster a.at_delete id) q.file in
                elim failure' [
                  | some e ↦ (record q { file = file' }, some e)
                  | none ↦ (record q { file = file'; cache = (invalidate id q.cache).0 }, none)
                ]
          ]
  ]
