-- ===== src/Store/State.antt =====
-- internal/store/file.go: `state`, what the file holds.
use k8s_panel.Base.{ℕ, List, []}
use k8s_panel.Domain.{Cluster, Repository, Operation, AuditEvent}

abbrev pub current_schema_version : ℕ
current_schema_version = 1

pub record State : Type 0 where
  pub schema_version : ℕ
  pub clusters : List Cluster
  pub repositories : List Repository
  pub operations : List Operation
  pub audit_events : List AuditEvent

-- `state{SchemaVersion: schemaVersion}`
abbrev pub empty_state : State
empty_state = record {
  schema_version = current_schema_version;
  clusters = [];
  repositories = [];
  operations = [];
  audit_events = [];
}
