-- ===== src/Tests/Jobs.antt =====
-- internal/platform/operations.go at concrete states.
use k8s_panel.Names.{bounded_pattern}
use k8s_panel.Operations.{
  audit, execute_operation, execute_read, cancel_operation, cancel_read, started,
  cancellation_audit,
}
use k8s_panel.Store.Changes.{create_audit_event, transition_operation}
use k8s_panel.Base.{text_dec}
use k8s_panel.Domain.{State-dec}
use k8s_panel.Store.Items.{find, replace, contains}
use k8s_panel.Store.File.{write, change, get_operation}
use k8s_panel.Store.Disk.{persist}
use k8s_panel.Base.{◌≡◌, refl, true, false, none, some, [], ◌∷◌, Text, text_dec}
use k8s_panel.Domain.{Operation, ok, queued, succeeded, canceled, State-dec}
use k8s_panel.Store.Items.{find, replace, contains}
use k8s_panel.Store.State.{State}
use k8s_panel.Store.Changes.{operation_id, transition_operation}
use k8s_panel.Store.File.{File, write, change, get_operation}
use k8s_panel.Store.Disk.{persist, whole, absent}
use k8s_panel.Store.Open.{never}
use k8s_panel.Validation.Names.{validate_operation_id}
use k8s_panel.Operations.{
  Answers, execute_operation, execute_read, cancel_operation, cancel_read, canceled_at, started,
  settle, cancellation_audit,
}
use k8s_panel.Operations.Races.{Stands}
use k8s_panel.Operations.Submissions.{Replies, Desk, create_and_enqueue_operation}
use k8s_panel.Operations.Submissions.Queue.{Enqueues}
use k8s_panel.Tests.Stores.{plain, operation, stored}
use k8s_panel.Operations.Races
use k8s_panel.Operations.Results
use k8s_panel.Operations.Submissions.Queue

abbrev id : Text
id = b'o' ∷ b'p' ∷ b'_' ∷ b'1' ∷ []

abbrev job_operation : Operation
job_operation = record operation { id = id }

abbrev file : File State
file =
    let s : State = record stored { operations = job_operation ∷ [] } in
    record { state = s; disk = record { panel = whole s; temporary = absent } }

abbrev answers : Answers
answers = record {
  at_read = none;
  at_lock = none;
  at_slot = none;
  at_start = none;
  start_fails = never;
  started_at = 10;
  job = none;
  stopping = false;
  finished_at = 15;
  audit_id = ok (8 ∷ []);
  audited_at = 16;
  audit_fails = never;
  update_fails = never;
}

abbrev alone : File State → File State
alone f = f

canceled_alone :
    (cancel_operation plain none none never (ok (9 ∷ [])) 20 alone [] [] id file).1
    ≡ ok (canceled_at 20 job_operation)
unfolding cancel_operation validate_operation_id bounded_pattern get_operation find text_dec
    State-dec cancel_read write change transition_operation canceled_at cancellation_audit contains
    replace persist
canceled_alone = refl

cancel_operation-ok_example :
    (canceled ≡ canceled)
    × Stands id queued file.state
    × (find operation_id id
          (cancel_operation plain none none never
            (ok (9 ∷ []))
            20
            alone
            []
            []
            id
            file).0.state.operations
        ≡ some (canceled_at 20 job_operation))
unfolding canceled_at
cancel_operation-ok_example =
    Races.cancel_operation-ok plain none none never (ok (9 ∷ [])) 20 alone [] [] id file
      canceled_alone

-- The cancellation comes while the execution waits for a slot.
execute_operation-canceled_example :
    (execute_operation plain answers
      (λ g. (cancel_operation plain none none never (ok (9 ∷ [])) 20 alone [] [] id g).0)
      alone
      alone
      id
      file).1
    ≡ false
execute_operation-canceled_example =
    Races.execute_operation-canceled plain answers alone alone none none never (ok (9 ∷ [])) 20
      alone [] [] id file canceled_alone

executed : (execute_operation plain answers alone alone alone id file).1 ≡ true
unfolding execute_operation get_operation find text_dec State-dec execute_read write change
    transition_operation started replace persist
executed = refl

execute_operation-ran_example : Stands id queued file.state × Stands id queued file.state
execute_operation-ran_example =
    Races.execute_operation-ran plain answers alone alone alone id file executed

settle-stored_example :
    (final : Operation) × (find operation_id id
        (settle plain answers alone job_operation file).state.operations
      ≡ some final)
    × (final.state ≡ succeeded)
    × (final.finished_at ≡ 15)
unfolding find text_dec audit write change create_audit_event contains persist
settle-stored_example =
    Results.settle-stored plain (λ s. (s, refl)) answers alone job_operation file
      {s = job_operation} refl (λ g o h. (o, h)) refl

abbrev desk : Desk plain
desk = record { file = file; queue = []; capacity = 1 }

abbrev replies : Replies
replies = record {
  at_create = none;
  create_fails = never;
  at_audit = none;
  audit_id = ok (8 ∷ []);
  audited_at = 7;
  audit_fails = never;
  failed_at = 7;
  mark_fails = never;
  note_id = ok (9 ∷ []);
  noted_at = 7;
  note_fails = never;
}

create_and_enqueue_operation-Enqueues_example :
    Enqueues plain operation desk
      (create_and_enqueue_operation plain replies (λ d. d) (λ d. d) operation desk)
create_and_enqueue_operation-Enqueues_example =
    Queue.create_and_enqueue_operation-Enqueues plain replies (λ d. d) (λ d. d) operation desk
      (λ d. (refl, refl)) (λ d. (refl, refl))
