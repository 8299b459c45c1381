-- ===== src/Store/Transitions.antt =====
-- internal/store/file.go: `TransitionOperation` as a compare-and-set on one operation.
use k8s_panel.Base.{
  ◌≡◌, ◌≢◌, true, false, Option, none, some, List, [], ◌∷◌, if◌then◌else◌, Text, same, arith,
  Bool-cases, Option-cases, inl, inr, Holds, Holds-map_option, is_empty,
}
use k8s_panel.Domain.{Operation, OperationState, AuditEvent, Failure, ok, err, invalid_state}
use k8s_panel.Store.Items.{find, replace}
use k8s_panel.Store.State.{State}
use k8s_panel.Store.Changes.{transition_operation, operation_id, valid_audit, with_audit}

module _ {A : Type 0} (id : A → Text) where
  -- A lookup after a replacement.
  find-replace-Holds :
      (k : Text) (new : A) (xs : List A)
      → Holds
          (λ ys. find id k ys ≡ (if same (id new) k then some new else find id k xs))
          (replace id new xs)
  unfolding find replace
  find-replace-Holds k new [] = tt
  find-replace-Holds k new (x ∷ xs) = elim (Bool-cases (same (id x) (id new))) [
    | inl e ↦ rw e (ground arith)
    | inr e ↦ rw e (
        Holds-map_option _ (◌∷◌ x) (replace id new xs) (find-replace-Holds k new xs)
          (λ ys h. ground arith))
  ]

  pub find-replace :
      (k : Text) (new : A) (xs : List A) {ys : List A}
      → replace id new xs ≡ some ys
      → find id k ys ≡ (if same (id new) k then some new else find id k xs)
  find-replace k new xs h = rw h at (find-replace-Holds k new xs)

-- A successful transition found the operation in the expected state, and it replaces that operation
-- and no other; clusters and repositories stay; the audit event, where one comes with it, is the
-- last of the trail, which is then trimmed.
pub transition_operation-ok :
    (ctx : Failure) (expected : OperationState) (o : Operation) (a : Option AuditEvent) (s : State)
    (k : Text) {s' : State}
    → transition_operation ctx expected o a s ≡ ok s'
    → ((stored : Operation) × (find operation_id o.id s.operations ≡ some stored)
        × (stored.state ≡ expected))
      × (find operation_id k s'.operations
          ≡ (if same o.id k then some o else find operation_id k s.operations))
      × (s'.clusters ≡ s.clusters)
      × (s'.repositories ≡ s.repositories)
      × (s'.audit_events ≡ with_audit a s.audit_events)
unfolding transition_operation
transition_operation-ok ctx expected o a s k h =
    elim (Option-cases (replace operation_id o s.operations)) [
      | inl e ↦ absurd (ground arith)
      | inr (ys, e) ↦ ground (arith, find-replace operation_id k o s.operations e)
    ]

-- Where the context is in force, the operation has an identifier and the audit event is well formed,
-- a transition of a stored operation that is in another state than the expected one is refused as an
-- invalid state.
transition_operation-refused :
    (expected : OperationState) (o : Operation) (a : Option AuditEvent) (s : State)
    {stored : Operation}
    → is_empty o.id ≡ false
    → valid_audit o a ≡ true
    → find operation_id o.id s.operations ≡ some stored
    → stored.state ≢ expected
    → transition_operation none expected o a s ≡ err invalid_state
unfolding transition_operation
transition_operation-refused expected o a s e v f n = ground arith
