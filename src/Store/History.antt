-- ===== src/Store/History.antt =====
-- internal/store/file.go: how much history is kept, and how much of it is listed.
pub mod Kept
pub mod Keys
use k8s_panel.Base.{
  ℕ, zero, suc, ◌-◌, Bool, true, false, ◌||◌, ◌&&◌, not, List, [], ◌∷◌, ltb, leb, ◌==◌,
  if◌then◌else◌, length, take, drop,
}
use k8s_panel.Domain.{
  Operation, OperationState, AuditEvent, queued, running, succeeded, failed, canceled, unknown,
}

abbrev pub max_stored_operations : ℕ
max_stored_operations = 2000

abbrev pub max_stored_audit_events : ℕ
max_stored_audit_events = 5000

-- `State == OperationQueued || State == OperationRunning`
abbrev pub is_in_flight : OperationState → Bool
is_in_flight queued = true
is_in_flight running = true
is_in_flight succeeded = false
is_in_flight failed = false
is_in_flight canceled = false
is_in_flight unknown = false

abbrev pub in_flight : Operation → Bool
in_flight o = is_in_flight o.state

-- The loop of `trimOperationHistory`: the first `overflow` items that are not in flight go.
unfoldable pub trim_loop : ℕ → List Operation → List Operation
trim_loop overflow [] = []
trim_loop overflow (o ∷ os) =
    if ltb 0 overflow && not (in_flight o)
    then trim_loop (overflow - 1) os
    else o ∷ trim_loop overflow os

-- A slice within the limit has no overflow, and is returned whole.
unfoldable pub trim_operations : ℕ → List Operation → List Operation
trim_operations limit os = if leb (length os) limit then os else trim_loop (length os - limit) os

unfoldable pub trim_operation_history : List Operation → List Operation
unfolding trim_operations
trim_operation_history os = trim_operations max_stored_operations os

unfoldable pub trim_events : ℕ → List AuditEvent → List AuditEvent
trim_events limit es = if leb (length es) limit then es else drop (length es - limit) es

unfoldable pub trim_audit_history : List AuditEvent → List AuditEvent
unfolding trim_events
trim_audit_history es = trim_events max_stored_audit_events es

module _ {ℓ} {A : Type ℓ} where
  unfoldable pub limit_slice : List A → ℕ → List A
  limit_slice items limit =
      let limit' = if limit == 0 || ltb 100 limit then 100 else limit in
      if ltb limit' (length items) then take limit' items else items
