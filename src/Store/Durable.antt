-- ===== src/Store/Durable.antt =====
-- internal/store/file.go: the memory and the file of the store over any run of its methods.
use mathlib.Core.Path.{subst}
use k8s_panel.Base.{
  none, All, ◌≡◌, refl, sym, ◌∙◌, inl, inr, Bool, true, false, ◌||◌, some, List, [], ◌∷◌,
  if◌then◌else◌, Option-cases, fold,
}
use k8s_panel.Domain.{Failure, Result, ok, err}
use k8s_panel.Store.State.{State}
use k8s_panel.Store.Disk.{Codec, Call, Disk, whole, persist}
use k8s_panel.Store.Disk.Atomic.{early, late, persist_lem, reported}
use k8s_panel.Store.Consistent.{IsConsistent, Consistent}
use k8s_panel.Store.Consistent.Methods.{
  create_cluster-Consistent, update_cluster-Consistent, rotate-Consistent,
  delete_cluster-Consistent, create_repository-Consistent, update_repository-Consistent,
  delete_repository-Consistent, create_operation-Consistent, update_operation-Consistent,
  transition_operation-Consistent, create_audit_event-Consistent,
}
use k8s_panel.Store.File.{
  File, Write, creates_cluster, updates_cluster, rotates_credentials, deletes_cluster,
  creates_repository, updates_repository, deletes_repository, creates_operation, updates_operation,
  transitions_operation, creates_audit_event, change, commit, write, run,
}

-- A rotation of credentials keeps the cluster's name.
abbrev pub KeepsName : Write → Type 0
KeepsName (rotates_credentials ctx expected updated a) = fold updated.name ≡ fold expected.name
KeepsName (creates_cluster ctx c) = Unit
KeepsName (updates_cluster ctx c) = Unit
KeepsName (deletes_cluster ctx id) = Unit
KeepsName (creates_repository ctx r) = Unit
KeepsName (updates_repository ctx r) = Unit
KeepsName (deletes_repository ctx id) = Unit
KeepsName (creates_operation ctx o) = Unit
KeepsName (updates_operation ctx o) = Unit
KeepsName (transitions_operation ctx expected o a) = Unit
KeepsName (creates_audit_event ctx e) = Unit

pub change-Consistent :
    (w : Write) (s : State) → KeepsName w → IsConsistent s → Consistent (change w s)
unfolding change
change-Consistent (creates_cluster ctx c) s k v = create_cluster-Consistent ctx s v c
change-Consistent (updates_cluster ctx c) s k v = update_cluster-Consistent ctx s v c
change-Consistent (rotates_credentials ctx e u a) s k v = rotate-Consistent ctx s v e u a k
change-Consistent (deletes_cluster ctx id) s k v = delete_cluster-Consistent ctx s v id
change-Consistent (creates_repository ctx r) s k v = create_repository-Consistent ctx s v r
change-Consistent (updates_repository ctx r) s k v = update_repository-Consistent ctx s v r
change-Consistent (deletes_repository ctx id) s k v = delete_repository-Consistent ctx s v id
change-Consistent (creates_operation ctx o) s k v = create_operation-Consistent ctx s v o
change-Consistent (updates_operation ctx o) s k v = update_operation-Consistent ctx s v o
change-Consistent (transitions_operation ctx e o a) s k v =
    transition_operation-Consistent ctx s v e o a
change-Consistent (creates_audit_event ctx e) s k v = create_audit_event-Consistent ctx s v e

if-both {ℓ} :
    {A : Type 0} (P : A → Type ℓ) (b : Bool) {x y : A} → P x → P y → P (if b then x else y)
if-both P true p q = p
if-both P false p q = q

module _ (codec : Codec) where
  open codec use {Contents, marshal, unmarshal, round_trip}

  -- After a commit of an encodable state: without a failure memory and file both hold the new state;
  -- where a call up to the renaming fails, both are as they were; where only a later one fails, the
  -- memory is as it was, yet the file holds the new state. A failure is reported exactly where some
  -- call fails, and the new contents of the file read back as the new state.
  pub commit_lem :
      (fails : Call → Bool) (next : State) (f : File Contents) {c : Contents}
      → marshal next ≡ some c
      → let r = commit codec fails next f in
        (r.0.state ≡ (if early fails || late fails then f.state else next))
        × (r.0.disk.panel ≡ (if early fails then f.disk.panel else whole c))
        × (reported r.1 ≡ (early fails || late fails))
        × (unmarshal c ≡ some next)
  unfolding commit
  commit_lem fails next f {c} m =
      let p = persist_lem codec fails next f.disk m in
      elim (Option-cases (persist codec fails next f.disk).1) [
        | inl e ↦
            let none_fails : (early fails || late fails) ≡ false = sym p.2 ∙ (rw e) in
            rw (e, commit) (rw none_fails, p.0, sym none_fails, round_trip next c m)
        | inr (x, e) ↦
            let some_fails : (early fails || late fails) ≡ true = sym p.2 ∙ (rw e) in
            rw (e, commit) (rw some_fails, p.0, sym some_fails, round_trip next c m)
      ]

  -- The store's file is whole, and reads back as a consistent state.
  abbrev pub IsReadable : Disk Contents → Type 0
  IsReadable d =
      (c : Contents) × (s : State) × (d.panel ≡ whole c) × (unmarshal c ≡ some s) × IsConsistent s

  pub record IsSound (f : File Contents) : Type 0 where
    pub memory : IsConsistent f.state
    pub file : IsReadable f.disk

  pub persist_unencodable :
      (fails : Call → Bool) (next : State) (d : Disk Contents)
      → marshal next ≡ none
      → (persist codec fails next d).0 ≡ d
  unfolding persist
  persist_unencodable fails next d e = rw (e, persist)

  commit-IsSound :
      (fails : Call → Bool) (next : State) (f : File Contents)
      → IsConsistent next
      → IsSound f
      → IsSound (commit codec fails next f).0
  unfolding commit persist
  commit-IsSound fails next f v h = elim (Option-cases (marshal next)) [
    | inl e ↦
        rw (e, persist, commit)
          (record { memory = h.memory; file = rw (persist_unencodable fails next f.disk e) h.file })
    | inr (c, e) ↦
        let r = commit_lem fails next f e in
        record {
          memory =
              subst IsConsistent (sym r.0)
                (if-both IsConsistent (early fails || late fails) h.memory v);
          file =
              subst
                (λ p.
                  (c : Contents) × (s : State) × (p ≡ whole c)
                  × (unmarshal c ≡ some s)
                  × IsConsistent s)
                (sym r.1)
                (if-both
                  (λ p.
                    (c : Contents) × (s : State) × (p ≡ whole c)
                    × (unmarshal c ≡ some s)
                    × IsConsistent s)
                  (early fails) h.file (c, next, refl, r.3, v));
        }
  ]

  write-IsSound :
      (fails : Call → Bool) (w : Write) (f : File Contents)
      → KeepsName w
      → IsSound f
      → IsSound (write codec fails w f).0
  unfolding write
  write-IsSound fails w f k h = sound (change w f.state) (change-Consistent w f.state k h.memory)
    where
      sound :
          (r : Result State)
          → Consistent r
          → IsSound
              (elim r as (λ _. File Contents × Failure) [
                | ok next ↦ commit codec fails next f
                | err e ↦ (f, some e)
              ]).0
      sound (ok next) v = commit-IsSound fails next f v h
      sound (err e) v = h

  -- From a store that has these properties, any run of calls of the methods that write, in which
  -- no rotation of credentials renames its cluster, keeps them, whatever calls of the operating
  -- system fail: the identifiers of each kind and the names of clusters and of repositories, up
  -- to case, are distinct, the audit trail is bounded, and the file is whole and reads back as
  -- such a state too.
  pub run-IsSound :
      (ws : List ((Call → Bool) × Write)) (f : File Contents)
      → All (λ w. KeepsName w.1) ws
      → IsSound f
      → IsSound (run codec ws f)
  unfolding run
  run-IsSound [] f k h = h
  run-IsSound ((fails, w) ∷ ws) f k h =
      run-IsSound ws (write codec fails w f).0 k.1 (write-IsSound fails w f k.0 h)
