-- ===== src/Tests/Stores.antt =====
-- internal/store/file.go at concrete states.
use k8s_panel.Store.Disk.{Codec, absent, whole, Call, sync_directory}
use k8s_panel.Store.History.{trim_audit_history, in_flight, trim_operations}
use k8s_panel.Store.Items.{contains, replace, find}
use k8s_panel.Base.{
  ◌≤◌, ◌≡◌, refl, sym, Bool, true, false, Option, none, some, List, [], ◌∷◌, ◌++◌, arith,
  if◌then◌else◌, length, All, keep, text_dec, same,
}
use k8s_panel.Store.Listing.{list_operations, IsNewestFirst}
use k8s_panel.Store.Listing
use mathlib.Core.List.{Sublist}
use k8s_panel.Domain.{
  Cluster, Operation, AuditEvent, ok, development, pending, connected, helm_install, queued,
  succeeded, canceled, State-dec,
}
use k8s_panel.Store.State.{State, empty_state}
use k8s_panel.Store.History.Kept.{settled}
use k8s_panel.Store.Disk.Atomic.{reported}
use k8s_panel.Store.Changes.{transition_operation, operation_id, with_audit}
use k8s_panel.Store.Consistent.{IsConsistent}
use k8s_panel.Store.File.{File, Write, rotates_credentials, transitions_operation, commit, run}
use k8s_panel.Store.Durable.{IsSound}
use k8s_panel.Store.Open.{never}
use k8s_panel.Store.History.Kept
use k8s_panel.Store.Durable
use k8s_panel.Store.Transitions
use k8s_panel.Store.Open.Recovery

-- An encoding that keeps the state as it is.
abbrev pub plain : Codec
plain = record {
  Contents = State;
  marshal = λ s. some s;
  unmarshal = λ s. some s;
  round_trip = λ s c e. sym e;
}

abbrev pub cluster : Cluster
cluster = record {
  id = 1 ∷ [];
  name = 65 ∷ [];
  environment = development;
  server = [];
  status = pending;
  version = [];
  last_error_code = [];
  ca_cert_ciphertext = [];
  bearer_token_ciphertext = 7 ∷ [];
  last_checked_at = 0;
  created_at = 5;
  updated_at = 5;
}

abbrev pub operation : Operation
operation = record {
  id = 2 ∷ [];
  request_id = [];
  kind = helm_install;
  state = queued;
  cluster_id = 1 ∷ [];
  namespace = 3 ∷ [];
  target = 4 ∷ [];
  submitted_by = [];
  summary = [];
  error_code = [];
  error_message = [];
  created_at = 6;
  started_at = 0;
  finished_at = 0;
  updated_at = 6;
}

abbrev event : AuditEvent
event = record {
  id = 8 ∷ [];
  request_id = [];
  operation_id = 2 ∷ [];
  actor = [];
  action = [];
  result = [];
  cluster_id = 1 ∷ [];
  namespace = [];
  target = [];
  summary = [];
  created_at = 6;
}

abbrev pub stored : State
stored = record empty_state { clusters = cluster ∷ []; operations = operation ∷ [] }

stored-IsConsistent : IsConsistent stored
stored-IsConsistent = record {
  clusters = ((tt, tt), (tt, tt));
  repositories = (tt, tt);
  operations = (tt, tt);
  events = (tt, omega arith);
}

abbrev pub saved : File State
saved = record { state = stored; disk = record { panel = whole stored; temporary = absent } }

abbrev sync_fails : Call → Bool
sync_fails sync_directory = true
sync_fails _ = false

abbrev canceled_operation : Operation
canceled_operation = record operation { state = canceled; finished_at = 9; updated_at = 9 }

abbrev history : List ((Call → Bool) × Write)
history =
    (never, transitions_operation none queued canceled_operation (some event))
    ∷ (
      sync_fails,
      rotates_credentials none cluster (record cluster { status = connected })
          (record event { id = 9 ∷ [] }),
    )
    ∷ []

run-IsSound_example : IsSound plain (run plain history saved)
run-IsSound_example =
    Durable.run-IsSound plain history saved (tt, (refl, tt))
      (record {
        memory = stored-IsConsistent;
        file = (stored, stored, refl, refl, stored-IsConsistent);
      })

-- A directory that cannot be synchronised: the old state in memory, the new one on disk.
commit_lem_example :
    ((commit plain sync_fails empty_state saved).0.state ≡ stored)
    × ((commit plain sync_fails empty_state saved).0.disk.panel ≡ whole empty_state)
    × (reported (commit plain sync_fails empty_state saved).1 ≡ true)
    × (◌≡◌ {A = Option State} (some empty_state) (some empty_state))
commit_lem_example = Durable.commit_lem plain sync_fails empty_state saved refl

canceled_now :
    transition_operation none queued canceled_operation (some event) stored
    ≡ ok (record stored { operations = canceled_operation ∷ []; audit_events = event ∷ [] })
unfolding transition_operation find replace contains text_dec State-dec trim_audit_history
canceled_now = refl

transition_operation-ok_example :
    ((o : Operation) × (find operation_id (2 ∷ []) stored.operations ≡ some o) × (o.state ≡ queued))
    × (find operation_id (2 ∷ []) (canceled_operation ∷ []) ≡ (
        if same (2 ∷ []) (2 ∷ [])
        then some canceled_operation
        else find operation_id (2 ∷ []) stored.operations))
    × (stored.clusters ≡ stored.clusters)
    × (stored.repositories ≡ stored.repositories)
    × (event ∷ [] ≡ with_audit (some event) [])
unfolding transition_operation
transition_operation-ok_example =
    Transitions.transition_operation-ok none queued canceled_operation (some event) stored (2 ∷ [])
      {s' = record stored { operations = canceled_operation ∷ []; audit_events = event ∷ [] }}
      canceled_now

abbrev past : List Operation
past =
    record operation { state = succeeded } ∷ operation ∷ record operation { state = canceled } ∷ []

trim_operations_kept_example :
    (keep in_flight (trim_operations 2 past) ≡ operation ∷ [])
    × (keep settled (trim_operations 2 past) ≡ record operation { state = canceled } ∷ [])
    × Sublist (trim_operations 2 past) past
    × (length (trim_operations 2 past) ≤ 2)
    × (2 ≤ length (trim_operations 2 past))
trim_operations_kept_example = Kept.trim_operations_kept 2 past

abbrev later_operation : Operation
later_operation = record operation { id = 5 ∷ []; updated_at = 9 }

abbrev busy_state : State
busy_state = record stored { operations = operation ∷ later_operation ∷ [] }

-- Of two operations the one that was updated last.
list_operations-newest_example :
    (shown rest : List Operation) × (list_operations none 1 busy_state ≡ ok shown)
    × (length shown ≡ 1)
    × (length (shown ++ rest) ≡ 2)
    × All (λ o. o.cluster_id ≡ 1 ∷ []) (shown ++ rest)
    × IsNewestFirst (λ o. o.updated_at) (shown ++ rest)
list_operations-newest_example =
    Listing.list_operations-newest (λ o. o.cluster_id ≡ 1 ∷ []) 1 busy_state (refl, (refl, tt))
