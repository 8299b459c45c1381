-- ===== src/Platform/Clusters/Files.antt =====
-- internal/store/file.go: the clusters that the file of the store holds.
use k8s_panel.Base.{
  ◌≡◌, refl, ap, sym, ◌∙◌, ◌⊎◌, inl, inr, Bool, true, false, Option, none, some, List, arith,
  Bool-cases, Option-cases, Text, map_option,
}
use k8s_panel.Domain.{Cluster, AuditEvent, Error, Failure, Result, Result-cases, ok, err}
use k8s_panel.Store.State.{State}
use k8s_panel.Store.Disk.{Codec, Call, Stored, absent, partial, whole}
use k8s_panel.Store.Disk.Atomic.{early, late, reported}
use k8s_panel.Store.Durable.{commit_lem, persist_unencodable}
use k8s_panel.Store.File.{File, Write, write, commit, change, creates_audit_event}
use k8s_panel.Operations.{audit}
use k8s_panel.Platform.Clusters.Stored.{create_audit_event-clusters}

-- Every call of `persist` up to the renaming succeeds, and a later one fails.
abbrev pub FailsLate : (Call → Bool) → Type 0
FailsLate fails = (early fails ≡ false) × (late fails ≡ true)

module _ (codec : Codec) where
  open codec use {Contents, unmarshal}

  unfoldable pub readable : Stored Contents → Option State
  readable absent = none
  readable partial = none
  readable (whole c) = unmarshal c

  -- The clusters that are read back from the file, `none` where it cannot be read.
  unfoldable pub file_clusters : File Contents → Option (List Cluster)
  unfolding readable
  file_clusters f = map_option (λ s. s.clusters) (readable f.disk.panel)

  commit-file :
      (fails : Call → Bool) (next : State) (f : File Contents)
      → let r = commit codec fails next f in
        (file_clusters r.0 ≡ file_clusters f)
        ⊎ ((file_clusters r.0 ≡ some next.clusters)
            × (early fails ≡ false)
            × (reported r.1 ≡ late fails))
  unfolding file_clusters readable commit
  commit-file fails next f = elim (Option-cases (codec.marshal next)) [
    | inl e ↦ inl (ground (arith, e, persist_unencodable codec fails next f.disk e))
    | inr (c, e) ↦
        let (_, panel, failed, back) = commit_lem codec fails next f e in
        elim (Bool-cases (early fails)) [
          | inl b ↦ inl (ground (arith, panel, b))
          | inr b ↦ inr (ground (arith, panel, b, back), b, ground (arith, failed, b))
        ]
  ]

  -- A write that fails leaves the clusters in the file as they were, unless it fails late.
  pub write-some-file :
      (fails : Call → Bool) (w : Write) (f : File Contents) {e : Error}
      → let r = write codec fails w f in
        r.1 ≡ some e → (file_clusters r.0 ≡ file_clusters f) ⊎ FailsLate fails
  unfolding write
  write-some-file fails w f {e} h = elim (Result-cases (change w f.state)) [
    | inr (_, c) ↦ inl (rw (c, write) refl)
    | inl (next, c) ↦ elim (commit-file fails next f) [
      | inl k ↦ inl (rw (c, write) k)
      | inr (_, b, l) ↦
          let g : (commit codec fails next f).1 ≡ some e = ground (arith, c, h) in
          inr (b, sym l ∙ ap reported g)
    ]
  ]

  write-event-file :
      (ctx : Failure) (event : AuditEvent) (fails : Call → Bool) (f : File Contents)
      → file_clusters f ≡ some f.state.clusters
      → file_clusters (write codec fails (creates_audit_event ctx event) f).0
        ≡ some f.state.clusters
  unfolding write change
  write-event-file ctx event fails f h =
      let w = creates_audit_event ctx event in
      elim (Result-cases (change w f.state)) [
        | inr (x, e) ↦ rw (e, write) h
        | inl (next, e) ↦ elim (commit-file fails next f) [
          | inl k ↦ rw (e, write) (k ∙ h)
          | inr (k, _, _) ↦
              rw (e, write)
                (k
                  ∙ ap (λ (cs : List Cluster). some cs)
                      (create_audit_event-clusters codec ctx event f.state e).0)
        ]
      ]

  -- An audit leaves the clusters in the file as they are, where they are those in memory.
  pub audit-file :
      (ctx : Failure) (id : Result Text) (fails : Call → Bool) (event : Text → AuditEvent)
      (f : File Contents)
      → file_clusters f ≡ some f.state.clusters
      → file_clusters (audit codec ctx id fails event f).0 ≡ some f.state.clusters
  unfolding audit
  audit-file ctx (err e) fails event f h = h
  audit-file ctx (ok id) fails event f h = write-event-file ctx (event id) fails f h
