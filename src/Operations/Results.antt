-- ===== src/Operations/Results.antt =====
-- internal/platform/operations.go: how an execution leaves its operation in the store.
use k8s_panel.Base.{
  ℕ, ◌≡◌, refl, sym, ap, ◌∙◌, inl, inr, Bool, ◌&&◌, none, some, List, [], ◌∷◌, arith, if◌then◌else◌,
  Bool-cases, Text, same,
}
use k8s_panel.Domain.{
  Result-cases, Operation, OperationState, AuditEvent, Failure, Result, ok, err, succeeded, failed,
  unknown,
}
use k8s_panel.Store.Items.{find, replace}
use k8s_panel.Store.State.{State}
use k8s_panel.Store.Changes.{update_operation, create_audit_event, operation_id}
use k8s_panel.Store.Disk.{Codec, Call, persist}
use k8s_panel.Store.File.{File, write, commit, change, updates_operation}
use k8s_panel.Store.Open.{never}
use k8s_panel.Store.Transitions.{find-replace}
use k8s_panel.Operations.{
  Answers, settle, audit, audited, outcome, is_canceled, result_audit, interrupted_operation,
  failed_operation,
}

-- An operation that is stored can be replaced.
replace-some :
    (o : Operation) (os : List Operation) {s : Operation}
    → find operation_id o.id os ≡ some s
    → (ys : List Operation) × (replace operation_id o os ≡ some ys)
unfolding find replace
replace-some o [] h = cc
replace-some o (x ∷ os) {s} h = elim (Bool-cases (same x.id o.id)) [
  | inl e ↦ (o ∷ os, rw e)
  | inr e ↦ let (ys, p) = replace-some o os {s = s} (ground arith) in (x ∷ ys, rw (e, p))
]

create_audit_event-operations :
    (ctx : Failure) (e : AuditEvent) (s : State) {s' : State}
    → create_audit_event ctx e s ≡ ok s'
    → s'.operations ≡ s.operations
unfolding create_audit_event
create_audit_event-operations ctx e s h = ground arith

-- How the state that an execution ends in follows from the audit, the job and the service.
abbrev pub final_state : Failure → Failure → Bool → OperationState
final_state (some e) job stopping = failed
final_state none none stopping = succeeded
final_state none (some e) stopping = if is_canceled e && stopping then unknown else failed

outcome-state :
    (now : ℕ) (stopping : Bool) (job : Failure) (o : Operation) (r : Failure)
    → ((audited r (outcome now stopping job o).0).id ≡ o.id)
      × ((audited r (outcome now stopping job o).0).state ≡ final_state r job stopping)
      × ((audited r (outcome now stopping job o).0).finished_at ≡ now)
unfolding outcome audited interrupted_operation failed_operation
outcome-state now stopping none o none = (refl, refl, refl)
outcome-state now stopping none o (some e) = (refl, refl, refl)
outcome-state now stopping (some x) o none = ground arith
outcome-state now stopping (some x) o (some e) = ground arith

module _ (codec : Codec) where
  open codec use {Contents}

  commit-operations :
      (fails : Call → Bool) (next : State) (f : File Contents)
      → next.operations ≡ f.state.operations
      → (commit codec fails next f).0.state.operations ≡ f.state.operations
  unfolding commit
  commit-operations fails next f h = ground arith

  -- The audit of a result leaves the operations as they are.
  audit-operations :
      (ctx : Failure) (id : Result Text) (fails : Call → Bool) (event : Text → AuditEvent)
      (f : File Contents)
      → (audit codec ctx id fails event f).0.state.operations ≡ f.state.operations
  unfolding audit write change
  audit-operations ctx (err e) fails event f = refl
  audit-operations ctx (ok id) fails event f =
      elim (Result-cases (create_audit_event ctx (event id) f.state)) [
        | inl (next, p) ↦ ground (
          arith,
          p,
          commit-operations fails next f (create_audit_event-operations ctx (event id) f.state p),
        )
        | inr (x, p) ↦ ground arith
      ]

  -- What others do keeps the operation of an identifier stored, if perhaps changed.
  abbrev pub KeepsStored : Text → (File Contents → File Contents) → Type 0
  KeepsStored id others =
      (g : File Contents) (o : Operation)
      → find operation_id id g.state.operations ≡ some o
      → (o' : Operation) × (find operation_id id (others g).state.operations ≡ some o')

  module _ (encodable : (s : State) → (c : Contents) × (codec.marshal s ≡ some c)) where
    commit-never : (next : State) (f : File Contents) → (commit codec never next f).0.state ≡ next
    unfolding commit persist
    commit-never next f = let (c, e) = encodable next in rw (e, persist, commit)

    update-stored :
        (o : Operation) (f : File Contents) {s : Operation}
        → find operation_id o.id f.state.operations ≡ some s
        → find operation_id o.id (write codec never (updates_operation none o) f).0.state.operations
          ≡ some o
    unfolding write change update_operation
    update-stored o f {s} h =
        let (ys, p) = replace-some o f.state.operations {s = s} h in
        ground (
          arith,
          p,
          find-replace operation_id o.id o f.state.operations p,
          commit-never (record f.state { operations = ys }) f,
        )

    -- Where every state can be encoded, the operation is stored when its job ends, the others keep it stored between the audit and the update, and no system call of
    -- the last write fails, the operation is stored at the end with the time at which it ended: as
    -- failed where its result could not be audited, else as succeeded where the job gave no error, as
    -- unknown where the job was canceled and the service is stopping, and as failed otherwise.
    pub settle-stored :
        (a : Answers) (between : File Contents → File Contents) (o : Operation) (f : File Contents)
        {s : Operation}
        → a.update_fails ≡ never
        → KeepsStored o.id between
        → find operation_id o.id f.state.operations ≡ some s
        → let (o', result) = outcome a.finished_at a.stopping a.job o in
          let r =
            audit codec none a.audit_id a.audit_fails
              (λ id. result_audit id result a.audited_at o')
              f in
          (final : Operation) × (find operation_id o.id
              (settle codec a between o f).state.operations
            ≡ some final)
          × (final.state ≡ final_state r.1 a.job a.stopping)
          × (final.finished_at ≡ a.finished_at)
    unfolding settle
    settle-stored a between o f {s} n keeps h =
        let p = outcome a.finished_at a.stopping a.job o in
        let event : Text → AuditEvent = λ id. result_audit id p.1 a.audited_at p.0 in
        let r = audit codec none a.audit_id a.audit_fails event f in
        let (i, st, t) = outcome-state a.finished_at a.stopping a.job o r.1 in
        let (s', k') =
          keeps r.0 s (rw (audit-operations none a.audit_id a.audit_fails event f) h) in
        let k : find operation_id (audited r.1 p.0).id (between r.0).state.operations ≡ some s' =
          rw i k' in
        (
          audited r.1 p.0,
          rw n (
              ap
                (λ k'.
                  find operation_id k'
                    (write codec never (updates_operation none (audited r.1 p.0))
                      (between r.0)).0.state.operations)
                (sym i)
              ∙ update-stored (audited r.1 p.0) (between r.0) {s = s'} k),
          st,
          t,
        )
