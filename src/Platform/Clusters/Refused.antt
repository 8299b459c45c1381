-- ===== src/Platform/Clusters/Refused.antt =====
-- internal/platform/service.go: a rotation of credentials that fails.
use mathlib.Core.Path.{subst}
use k8s_panel.Base.{
  Bool, ◌⊎◌, ℕ, ◌≡◌, refl, sym, ap, ◌∙◌, inl, inr, true, false, none, some, [], arith, Bool-cases,
  Option-cases, Text, runes, List, ◌==◌,
}
use k8s_panel.Domain.{Cluster, Error, Failure, Result, Result-cases, err}
use k8s_panel.Governor.{Floats, Sample}
use k8s_panel.Validation.Inputs.{validate_cluster_credential_rotation_input}
use k8s_panel.Store.Disk.{Codec, Call}
use k8s_panel.Store.State.{State}
use k8s_panel.Store.File.{File, write, get_cluster, rotates_credentials}
use k8s_panel.Platform.{Panel, released, acquire_kubernetes_read}
use k8s_panel.Platform.Locks.{Locks, target_lock, set_lock, try_acquire_target_lock}
use k8s_panel.Platform.Clusters.{Caller, Note, cluster_event}
use k8s_panel.Platform.Clusters.Rotation.{
  Rotation, RotationInput, Desk, may_rotate, candidate_credentials, rotated, rotation_event,
  store_rotation, rotate_admitted, rotate_cluster_credentials, credential_rotation_lock,
  record_credential_rotation_failure,
}
use k8s_panel.Platform.Clusters.Rotated.{try_acquire-free}
use k8s_panel.Platform.Clusters.Files.{FailsLate, file_clusters, write-some-file, audit-file}
use k8s_panel.Platform.Clusters.Stored.{write-some, audit-clusters}

abbrev pub clusters : {F C : Type 0} → Panel F C → List Cluster
clusters p = p.file.state.clusters

-- What others do leaves the clusters as they are.
abbrev pub LeavesClusters : {F C : Type 0} → (Panel F C → Panel F C) → Type 0
LeavesClusters {F} {C} others = (p : Panel F C) → clusters (others p) ≡ clusters p

-- What others do leaves the clusters, in memory and in the file, and the locks as they are.
abbrev pub LeavesDesk :
    (codec : Codec) → {F : Type 0} → (Desk F (codec.Contents) → Desk F (codec.Contents)) → Type 0
LeavesDesk codec {F} others =
    (x : Desk F (codec.Contents))
    → (clusters (others x).panel ≡ clusters x.panel)
      × (file_clusters codec (others x).panel.file ≡ file_clusters codec x.panel.file)
      × ((k : ℕ) → (others x).locks k ≡ x.locks k)

-- The clusters in memory are some, and so are those in the file, unless a write failed late.
abbrev pub Keeps :
    (codec : Codec)
    → {F : Type 0} → (Call → Bool)
    → List Cluster
    → Panel F (codec.Contents)
    → Type 0
Keeps codec fails cs p =
    (clusters p ≡ cs) × ((file_clusters codec p.file ≡ some cs) ⊎ FailsLate fails)

Keeps-along :
    (codec : Codec) {F : Type 0} (fails : Call → Bool) {cs cs' : List Cluster}
    (p : Panel F (codec.Contents))
    → cs ≡ cs'
    → Keeps codec fails cs p
    → Keeps codec fails cs' p
Keeps-along codec fails p q h = subst (λ (l : List Cluster). Keeps codec fails l p) q h

acquire-file :
    (floats : Floats) {C : Type 0} (ctx : Failure) (sample : Sample floats.Float) (now : ℕ)
    (p : Panel floats.Float C)
    → (acquire_kubernetes_read floats ctx sample now p).0.file ≡ p.file
unfolding acquire_kubernetes_read
acquire-file floats (some e) sample now p = refl
acquire-file floats none sample now p = refl

unlocked :
    (n : ℕ) (locks locks' : Locks) (k : ℕ)
    → locks n ≡ false
    → locks' k ≡ set_lock n true locks k
    → set_lock n false locks' k ≡ locks k
unfolding set_lock
unlocked n locks locks' k h q = elim (Bool-cases (k == n)) [
  | inl e ↦ let p : k ≡ n = ground arith in rw (e, p) (sym h)
  | inr e ↦ ground arith
]

module _ (seal : Text → Text → Result Text) (codec : Codec) {F : Type 0} where
  open codec use {Contents}

  failure-Keeps :
      (fails : Call → Bool) (n : Note) (caller : Caller) (c : Cluster) (cause : Error)
      (p : Panel F Contents)
      → file_clusters codec p.file ≡ some (clusters p)
      → Keeps codec fails
          (clusters p)
          (record_credential_rotation_failure seal codec n caller c cause p).0
  unfolding record_credential_rotation_failure
  failure-Keeps fails n caller c cause p h =
      let event =
        cluster_event caller (runes "cluster.credentials.rotate") (runes "failed") c.id c.name
          (runes "candidate credential validation failed") n.audited_at in
      (
        ground (arith, audit-clusters codec n.at_audit n.audit_id n.audit_fails event p.file),
        inl (ground (arith, audit-file codec n.at_audit n.audit_id n.audit_fails event p.file h)),
      )

  store_rotation-err :
      (r : Rotation F Contents) (caller : Caller) (id : Text) (current updated : Cluster)
      (p : Panel F Contents) (e : Error)
      → let t = store_rotation seal codec r caller id current updated p in
        t.1 ≡ err e
        → file_clusters codec p.file ≡ some (clusters p)
        → Keeps codec r.rotate_fails (clusters p) t.0
  unfolding store_rotation
  store_rotation-err r caller id current updated p e h held =
      elim (Result-cases (r.note.audit_id)) [
        | inr (x, k) ↦ rw (k, store_rotation) (refl, inl held)
        | inl (a, k) ↦
            let w =
              rotates_credentials r.at_rotate current updated
                (rotation_event seal codec r caller id current a) in
            elim (Option-cases (write codec r.rotate_fails w p.file).1) [
              | inl q ↦ absurd (ground arith)
              | inr (x, q) ↦
                  rw (k, q, store_rotation)
                    (
                      ap (λ (s : State). s.clusters) (write-some codec r.rotate_fails w p.file q),
                      elim (write-some-file codec r.rotate_fails w p.file q) [
                        | inl f ↦ inl (f ∙ held)
                        | inr l ↦ inr l
                      ],
                    )
            ]
      ]

  rotate_admitted-err :
      (r : Rotation F Contents) (caller : Caller) (id : Text) (input : RotationInput)
      (d : Desk F Contents) (e : Error) (k : ℕ)
      → let t = rotate_admitted seal codec r caller id input d in
        t.1 ≡ err e
        → LeavesDesk codec r.during
        → file_clusters codec d.panel.file ≡ some (clusters d.panel)
        → Keeps codec r.rotate_fails (clusters d.panel) t.0.panel × (t.0.locks k ≡ d.locks k)
  unfolding rotate_admitted
  rotate_admitted-err r caller id input d e k h quiet held =
      elim (Result-cases (get_cluster r.at_store id d.panel.file.state)) [
        | inr (x, g) ↦ rw (g, rotate_admitted) ((refl, inl held), refl)
        | inl (current, g) ↦ elim (Option-cases (may_rotate input.confirmation current)) [
          | inr (x, m) ↦ rw (g, m, rotate_admitted) ((refl, inl held), refl)
          | inl m ↦
              let (memory, file, locks) = quiet d in
              let held' : file_clusters codec (r.during d).panel.file
                  ≡ some (clusters (r.during d).panel) =
                file ∙ held ∙ ap (λ (cs : List Cluster). some cs) (sym memory) in
              elim (Result-cases (candidate_credentials seal codec r id input)) [
                | inr (x, c) ↦
                    rw (g, m, c, rotate_admitted)
                      (
                        Keeps-along codec r.rotate_fails
                            (record_credential_rotation_failure seal codec r.note caller current x
                              (r.during d).panel).0
                            memory
                            (failure-Keeps r.rotate_fails r.note caller current x (r.during d).panel
                              held'),
                        locks k,
                      )
                | inl ((version, token, ca), c) ↦
                    rw (g, m, c, rotate_admitted)
                      (
                        Keeps-along codec r.rotate_fails
                            (store_rotation seal codec r caller id current
                              (rotated version token ca r.checked_at current) (r.during d).panel).0
                            memory
                            (store_rotation-err r caller id current
                              (rotated version token ca r.checked_at current) (r.during d).panel e
                              (ground (arith, h)) held'),
                        locks k,
                      )
              ]
        ]
      ]

module _ (floats : Floats) (seal : Text → Text → Result Text) (codec : Codec) where
  open codec use {Contents}
  open floats use {Float}

  -- A rotation of credentials that fails, at whatever step, leaves every lock as it found it and changes no cluster in memory, and,
  -- unless all calls of its write up to the renaming of the file succeeded and a later one failed, it changes none in the file either,
  -- which held the clusters of the memory before; the others leave the clusters and the locks alone meanwhile.
  pub rotate_cluster_credentials-err :
      (r : Rotation Float Contents) (caller : Caller) (id : Text) (input : RotationInput)
      (d : Desk Float Contents) (e : Error) (k : ℕ)
      → let t = rotate_cluster_credentials floats seal codec r caller id input d in
        t.1 ≡ err e
        → LeavesDesk codec r.during
        → file_clusters codec d.panel.file ≡ some (clusters d.panel)
        → Keeps codec r.rotate_fails (clusters d.panel) t.0.panel × (t.0.locks k ≡ d.locks k)
  unfolding rotate_cluster_credentials try_acquire_target_lock released
  rotate_cluster_credentials-err r caller id input d e k h quiet held =
      let lock = target_lock id [] credential_rotation_lock in
      let g = acquire_kubernetes_read floats r.at_read r.sample r.sampled_at d.panel in
      let c : g.0.file ≡ d.panel.file =
        acquire-file floats r.at_read r.sample r.sampled_at d.panel in
      let held' : file_clusters codec g.0.file ≡ some (g.0.file.state.clusters) =
        subst (λ (f : File Contents). file_clusters codec f ≡ some f.state.clusters) (sym c) held in
      let same_clusters : clusters g.0 ≡ clusters d.panel =
        ap (λ (f : File Contents). f.state.clusters) c in
      elim (Option-cases (
        validate_cluster_credential_rotation_input input.ca_cert input.bearer_token
          input.confirmation)) [
            | inr (x, v) ↦ rw (v, rotate_cluster_credentials) ((refl, inl held), refl)
            | inl v ↦ elim (Option-cases r.at_lock) [
              | inr (x, l) ↦
                  rw (v, l, try_acquire_target_lock, rotate_cluster_credentials)
                    ((refl, inl held), refl)
              | inl l ↦ elim (Bool-cases (d.locks lock)) [
                | inl b ↦
                    rw (v, l, b, try_acquire_target_lock, rotate_cluster_credentials)
                      ((refl, inl held), refl)
                | inr b ↦
                    let f = try_acquire-free r.at_lock lock d.locks l b in
                    elim (Option-cases g.1) [
                      | inr (x, a) ↦
                          rw (v, f, a, f, rotate_cluster_credentials)
                            (
                              Keeps-along codec r.rotate_fails g.0 same_clusters (refl, inl held'),
                              unlocked lock d.locks (set_lock lock true d.locks) k b refl,
                            )
                      | inl a ↦
                          let desk : Desk Float Contents = record {
                            panel = g.0;
                            locks = set_lock lock true d.locks;
                          } in
                          let t = rotate_admitted seal codec r caller id input desk in
                          let (q, l') =
                            rotate_admitted-err seal codec r caller id input desk e k
                              (ground (arith, h)) quiet held' in
                          rw (v, f, a, f, rotate_cluster_credentials)
                            (
                              Keeps-along codec r.rotate_fails t.0.panel same_clusters q,
                              unlocked lock d.locks t.0.locks k b l',
                            )
                    ]
              ]
            ]
          ]
