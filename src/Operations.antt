-- ===== src/Operations.antt =====
-- internal/platform/operations.go: cancelling and executing an operation. What the clock, the random
-- identifiers, the cluster and the operating system answer are arguments, and so is what other
-- goroutines do to the store between two of its calls.
pub mod Races
pub mod Results
pub mod Submissions
use k8s_panel.Base.{
  ℕ, zero, suc, ◌+◌, ◌-◌, ◌*◌, ◌/◌, ◌%◌, ◌^◌, ◌≤◌, ◌<◌, ◌≡◌, refl, sym, ap, ◌∙◌, ◌≢◌, ◌↔◌, ◌⊎◌, inl,
  inr, Bool, true, false, not, ◌&&◌, ◌||◌, Option, none, some, List, [], ◌∷◌, ◌++◌, map, arith,
  ℕ_discrete, ltb, leb, ◌==◌, if◌then◌else◌, holds, Bool-cases, Option-cases, length, take, drop,
  length-append, length-take, length-drop, All, keep, Text, runes, text_dec, same, is_empty, utf8,
  byte_length, is_space, is_control, trim_space, contains_rune, has_prefix, fold, equal_fold,
  Absent, AllDistinct, map_option, Holds,
}
use k8s_panel.Domain.{
  Operation, OperationKind, OperationState, AuditEvent, Error, Failure, Result, ok, err, root,
  helm_install, helm_upgrade, helm_rollback, helm_uninstall, workload_scale, workload_restart,
  workload_image, queued, running, succeeded, failed, canceled, unknown, State-dec, not_found,
  conflict, unauthorized, forbidden, invalid_state, timeout, context_canceled, wrapped,
  deadline_exceeded,
}
use k8s_panel.Store.Disk.{Codec, Call}
use k8s_panel.Store.File.{
  File, Write, write, get_operation, creates_audit_event, transitions_operation, updates_operation,
}
use k8s_panel.Validation.Names.{validate_operation_id}

unfoldable pub kind_text : OperationKind → Text
unfolding runes
kind_text helm_install = runes "helm.install"
kind_text helm_upgrade = runes "helm.upgrade"
kind_text helm_rollback = runes "helm.rollback"
kind_text helm_uninstall = runes "helm.uninstall"
kind_text workload_scale = runes "workload.scale"
kind_text workload_restart = runes "workload.restart"
kind_text workload_image = runes "workload.image_update"

unfoldable pub is_workload_operation : OperationKind → Bool
is_workload_operation workload_scale = true
is_workload_operation workload_restart = true
is_workload_operation workload_image = true
is_workload_operation helm_install = false
is_workload_operation helm_upgrade = false
is_workload_operation helm_rollback = false
is_workload_operation helm_uninstall = false

-- The cases of `operationErrorCode`, at the error under the wrappings.
unfoldable pub code_of : OperationKind → Error → Text
unfolding runes is_workload_operation
code_of kind forbidden = runes "permission_denied"
code_of kind unauthorized = runes "credentials_rejected"
code_of kind timeout = runes "upstream_timeout"
code_of kind deadline_exceeded = runes "upstream_timeout"
code_of kind conflict =
    if is_workload_operation kind
    then runes "resource_version_conflict"
    else runes "release_conflict"
code_of kind not_found = runes "target_not_found"
code_of kind _ =
    if is_workload_operation kind
    then runes "workload_operation_failed"
    else runes "helm_operation_failed"

unfoldable pub operation_error_code : OperationKind → Error → Text
operation_error_code kind e = code_of kind (root e)

unfoldable pub operation_failure_message : OperationKind → Text
unfolding runes
operation_failure_message kind =
    if is_workload_operation kind
    then runes "工作负载操作执行失败，请刷新资源并检查错误码"
    else runes "Helm 操作执行失败，请查看错误码和目标集群状态"

-- `errors.Is(err, context.Canceled)`
unfoldable pub is_canceled : Error → Bool
is_canceled (wrapped m e) = is_canceled e
is_canceled context_canceled = true
is_canceled _ = false

-- The operation once its job began, at a time.
unfoldable pub started : ℕ → Operation → Operation
started now o = record o { state = running; started_at = now; updated_at = now }

unfoldable pub interrupted_operation : Operation → Operation
unfolding runes
interrupted_operation o = record o {
  state = unknown;
  error_code = runes "operation_interrupted";
  error_message = runes "操作执行被服务关闭中断，结果需要人工确认";
}

unfoldable pub failed_operation : Error → Operation → Operation
failed_operation e o = record o {
  state = failed;
  error_code = operation_error_code o.kind e;
  error_message = operation_failure_message o.kind;
}

-- The operation once its job ended, and the result for the audit trail; `stopping` says whether the
-- context of the service is done.
unfoldable pub outcome : ℕ → Bool → Failure → Operation → Operation × Text
unfolding runes
outcome now stopping none o =
    (record o { state = succeeded; finished_at = now; updated_at = now }, runes "succeeded")
outcome now stopping (some e) o =
    let o' = record o { finished_at = now; updated_at = now } in
    if is_canceled e && stopping
    then (interrupted_operation o', runes "unknown")
    else (failed_operation e o', runes "failed")

unfoldable pub audited : Failure → Operation → Operation
unfolding runes
audited none o = o
audited (some e) o = record o {
  state = failed;
  error_code = runes "audit_failed";
  error_message = runes "操作结果审计写入失败，请人工确认目标状态";
}

unfoldable pub canceled_at : ℕ → Operation → Operation
canceled_at now o = record o {
  state = canceled;
  error_code = [];
  error_message = [];
  finished_at = now;
  updated_at = now;
}

unfoldable pub cancellation_audit : Text → Text → Text → ℕ → Operation → AuditEvent
unfolding runes
cancellation_audit id actor request_id now o = record {
  id = id;
  request_id = request_id;
  operation_id = o.id;
  actor = actor;
  action = runes "operation.cancel";
  result = runes "succeeded";
  cluster_id = o.cluster_id;
  namespace = o.namespace;
  target = o.target;
  summary = runes "kind=" ++ kind_text o.kind;
  created_at = now;
}

-- The event that `executeOperation` audits.
unfoldable pub result_audit : Text → Text → ℕ → Operation → AuditEvent
result_audit id result now o = record {
  id = id;
  request_id = o.request_id;
  operation_id = o.id;
  actor = o.submitted_by;
  action = kind_text o.kind;
  result = result;
  cluster_id = o.cluster_id;
  namespace = o.namespace;
  target = o.target;
  summary = o.error_code;
  created_at = now;
}

-- What an execution is answered: the context at each of its waits and calls, the job, the identifier
-- of the audit event, the system calls of each write, the clock.
pub record Answers : Type 0 where
  pub at_read : Failure
  pub at_lock : Failure
  pub at_slot : Failure
  pub at_start : Failure
  pub start_fails : Call → Bool
  pub started_at : ℕ
  pub job : Failure
  pub stopping : Bool
  pub finished_at : ℕ
  pub audit_id : Result Text
  pub audited_at : ℕ
  pub audit_fails : Call → Bool
  pub update_fails : Call → Bool

module _ (codec : Codec) where
  open codec use {Contents}

  -- `audit`, behind the identifier that it got.
  unfoldable pub audit :
      Failure
      → Result Text
      → (Call → Bool)
      → (Text → AuditEvent)
      → File Contents
      → File Contents × Failure
  audit ctx (err e) fails event f = (f, some (wrapped (runes "create audit ID") e))
  audit ctx (ok id) fails event f = write codec fails (creates_audit_event ctx (event id)) f

  -- `executeOperation` after its job; `between` is what others do to the store after the audit.
  unfoldable pub settle :
      Answers → (File Contents → File Contents) → Operation → File Contents → File Contents
  unfolding outcome audited result_audit
  settle a between o f =
      let (o', result) = outcome a.finished_at a.stopping a.job o in
      let (f', failure) =
        audit none a.audit_id a.audit_fails (λ id. result_audit id result a.audited_at o') f in
      (write codec a.update_fails (updates_operation none (audited failure o')) (between f')).0

  -- `executeOperation` from its transition on: the store, and whether the job was run.
  unfoldable pub execute_read :
      Answers
      → (File Contents → File Contents)
      → (File Contents → File Contents)
      → Operation
      → File Contents
      → File Contents × Bool
  execute_read a during between o f =
      let o' = started a.started_at o in
      let (f', failure) =
        write codec a.start_fails (transitions_operation a.at_start queued o' none) f in
      elim failure [ some e ↦ (f', false) | none ↦ (settle a between o' (during f'), true) ]

  abbrev pub granted : Failure → Bool
  granted none = true
  granted (some e) = false

  -- `executeOperation`: `meanwhile` is what others do to the store while it waits for the lock of the
  -- target and for a slot, `during` what they do while the job runs, `between` what they do between the
  -- audit of the result and the update.
  unfoldable pub execute_operation :
      Answers
      → (File Contents → File Contents)
      → (File Contents → File Contents)
      → (File Contents → File Contents)
      → Text
      → File Contents
      → File Contents × Bool
  execute_operation a meanwhile during between id f = elim (get_operation a.at_read id f.state) [
    | err e ↦ (f, false)
    | ok o ↦
        if not (holds (State-dec o.state queued))
        then (f, false)
        else if granted a.at_lock && granted a.at_slot
        then execute_read a during between o (meanwhile f)
        else (meanwhile f, false)
  ]

  -- `CancelOperation` from its transition on.
  unfoldable pub cancel_read :
      Failure
      → (Call → Bool)
      → Operation
      → AuditEvent
      → File Contents
      → File Contents × Result Operation
  cancel_read ctx fails o event f =
      let (f', failure) = write codec fails (transitions_operation ctx queued o (some event)) f in
      elim failure [ none ↦ (f', ok o) | some e ↦ (f', err e) ]

  -- `CancelOperation`: `meanwhile` is what others do to the store after it read the operation.
  unfoldable pub cancel_operation :
      Failure
      → Failure
      → (Call → Bool)
      → Result Text
      → ℕ
      → (File Contents → File Contents)
      → Text
      → Text
      → Text
      → File Contents
      → File Contents × Result Operation
  cancel_operation at_read at_cancel fails audit_id now meanwhile actor request_id id f =
      elim (validate_operation_id id) [
        | some e ↦ (f, err e)
        | none ↦ elim (get_operation at_read id f.state) [
          | err e ↦ (f, err e)
          | ok o ↦
              if not (holds (State-dec o.state queued))
              then (f, err invalid_state)
              else elim audit_id [
                | err e ↦ (f, err (wrapped (runes "create cancellation audit ID") e))
                | ok audit ↦
                    cancel_read at_cancel fails (canceled_at now o)
                      (cancellation_audit audit actor request_id now o) (meanwhile f)
              ]
        ]
      ]
