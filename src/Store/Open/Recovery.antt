-- ===== src/Store/Open/Recovery.antt =====
-- internal/store/file.go: what the store holds after `Open`.
use k8s_panel.Store.Disk.{Disk}
use k8s_panel.Store.Open.{interrupt}
use k8s_panel.Domain.{Operation}
use k8s_panel.Store.File.{File}
use k8s_panel.Base.{ℕ, ◌≡◌, refl, List, [], ◌∷◌, map, keep, arith}
use k8s_panel.Store.State.{State}
use k8s_panel.Store.History.{in_flight, trim_operation_history, trim_audit_history}

-- The state after a restart: the history within its limits, and no operation in flight.
unfoldable pub settle : ℕ → State → State
settle now s = record s {
  operations = map (interrupt now) (trim_operation_history s.operations);
  audit_events = trim_audit_history s.audit_events;
}

-- No operation is in flight after the interruption.
pub keep-interrupt : (now : ℕ) (os : List Operation) → keep in_flight (map (interrupt now) os) ≡ []
unfolding interrupt
keep-interrupt now [] = refl
keep-interrupt now (o ∷ os) = ground (arith, keep-interrupt now os)
