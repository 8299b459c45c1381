-- ===== src/Operations/Submissions.antt =====
-- internal/platform/operations.go: `createAndEnqueueOperation`, which stores an operation, audits it
-- and hands it to the workers. The queue holds the identifiers of the operations to execute.
pub mod Queue
use k8s_panel.Base.{
  ℕ, Bool, none, some, List, [], ◌∷◌, ◌++◌, ltb, if◌then◌else◌, length, Text, runes,
}
use k8s_panel.Domain.{
  Operation, AuditEvent, Failure, Result, ok, err, wrapped, busy, queued, failed,
}
use k8s_panel.Store.Disk.{Codec, Call}
use k8s_panel.Store.File.{File, write, creates_operation, transitions_operation}
use k8s_panel.Operations.{kind_text, audit}

-- What a submission is answered: the context at its calls, the identifiers of its audit events, the
-- clock, and the system calls of each write.
pub record Replies : Type 0 where
  pub at_create : Failure
  pub create_fails : Call → Bool
  pub at_audit : Failure
  pub audit_id : Result Text
  pub audited_at : ℕ
  pub audit_fails : Call → Bool
  pub failed_at : ℕ
  pub mark_fails : Call → Bool
  pub note_id : Result Text
  pub noted_at : ℕ
  pub note_fails : Call → Bool

-- The event that a submission audits, with its result and its summary.
unfoldable pub submission_audit : Text → Text → Text → ℕ → Operation → AuditEvent
submission_audit id result summary now o = record {
  id = id;
  request_id = o.request_id;
  operation_id = o.id;
  actor = o.submitted_by;
  action = kind_text o.kind;
  result = result;
  cluster_id = o.cluster_id;
  namespace = o.namespace;
  target = o.target;
  summary = summary;
  created_at = now;
}

unfoldable pub audit_failed_at : ℕ → Operation → Operation
unfolding runes
audit_failed_at now o = record o {
  state = failed;
  error_code = runes "audit_failed";
  error_message = runes "操作审计写入失败，任务未执行";
  finished_at = now;
  updated_at = now;
}

unfoldable pub queue_full_at : ℕ → Operation → Operation
unfolding runes
queue_full_at now o = record o {
  state = failed;
  error_code = runes "queue_full";
  error_message = runes "操作队列已满，请稍后重试";
  finished_at = now;
  updated_at = now;
}

module _ (codec : Codec) where
  open codec use {Contents}

  -- A channel with a buffer, and the store beside it.
  pub record Desk : Type 0 where
    pub file : File (codec.Contents)
    pub queue : List Text
    pub capacity : ℕ

  -- The `select` on the queue, and what follows where it is full.
  unfoldable pub enqueue : Replies → Operation → Desk → Desk × Result Operation
  unfolding runes submission_audit
  enqueue a o d =
      if ltb (length d.queue) d.capacity
      then (record d { queue = d.queue ++ o.id ∷ [] }, ok o)
      else let o' = queue_full_at a.failed_at o in
        let (f, failure) =
          write codec a.mark_fails (transitions_operation none queued o' none) d.file in
        elim failure [
          | some e ↦ (record d { file = f }, err e)
          | none ↦
              let (f', _) =
                audit codec none a.note_id a.note_fails
                  (λ id. submission_audit id (runes "failed") o'.error_code a.noted_at o') f in
              (record d { file = f' }, err (wrapped (runes "operation queue is full") busy))
        ]

  -- `createAndEnqueueOperation` from its audit on.
  unfoldable pub audit_and_enqueue :
      Replies → (Desk → Desk) → Operation → Desk → Desk × Result Operation
  unfolding runes submission_audit
  audit_and_enqueue a later o d =
      let (f, failure) =
        audit codec a.at_audit a.audit_id a.audit_fails
          (λ id. submission_audit id (runes "submitted") o.summary a.audited_at o) d.file in
      elim failure [
        | none ↦ enqueue a o (later (record d { file = f }))
        | some e ↦
            let d' = later (record d { file = f }) in
            let (f', _) =
              write codec a.mark_fails
                (transitions_operation none queued (audit_failed_at a.failed_at o) none) d'.file in
            (record d' { file = f' }, err (wrapped (runes "write operation audit") e))
      ]

  -- `createAndEnqueueOperation`: `meanwhile` and `later` are what other goroutines do between the
  -- creation and the audit, and after the audit.
  unfoldable pub create_and_enqueue_operation :
      Replies → (Desk → Desk) → (Desk → Desk) → Operation → Desk → Desk × Result Operation
  create_and_enqueue_operation a meanwhile later o d =
      let (f, failure) = write codec a.create_fails (creates_operation a.at_create o) d.file in
      elim failure [
        | some e ↦ (record d { file = f }, err e)
        | none ↦ audit_and_enqueue a later o (meanwhile (record d { file = f }))
      ]
