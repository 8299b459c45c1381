-- ===== src/Operations/Races.antt =====
-- internal/platform/operations.go: an execution and a cancellation of one operation.
use k8s_panel.Base.{
  ℕ, ◌≡◌, sym, ap, ◌∙◌, inl, inr, Bool, true, false, Option, none, some, List, [], ◌∷◌, arith,
  holds, Bool-cases, Option-cases, Text,
}
use k8s_panel.Domain.{
  Result-cases, Operation, OperationState, AuditEvent, Failure, Result, ok, queued, canceled,
  State-dec,
}
use k8s_panel.Store.Items.{find}
use k8s_panel.Store.State.{State}
use k8s_panel.Store.Changes.{transition_operation, operation_id}
use k8s_panel.Store.Disk.{Codec, Call}
use k8s_panel.Store.File.{File, write, commit, change, transitions_operation, get_operation}
use k8s_panel.Store.Transitions.{transition_operation-ok}
use k8s_panel.Operations.{
  Answers, execute_operation, execute_read, cancel_operation, cancel_read, started, canceled_at,
  cancellation_audit,
}
use k8s_panel.Validation.Names.{validate_operation_id}

find-id :
    (k : Text) (os : List Operation) {o : Operation} → find operation_id k os ≡ some o → o.id ≡ k
unfolding find
find-id k [] h = cc
find-id k (x ∷ os) {o} h = ground (arith, find-id k os {o = o})

-- The operation of an identifier is stored, in a state.
abbrev pub Stands : Text → OperationState → State → Type 0
Stands k e s = (o : Operation) × (find operation_id k s.operations ≡ some o) × (o.state ≡ e)

get_operation-ok :
    (ctx : Failure) (k : Text) (s : State) {o : Operation}
    → get_operation ctx k s ≡ ok o
    → (find operation_id k s.operations ≡ some o) × (o.id ≡ k)
unfolding get_operation
get_operation-ok (some e) k s h = cc
get_operation-ok none k s {o} h = elim (Option-cases (find operation_id k s.operations)) [
  | inl e ↦ absurd (ground arith)
  | inr (x, e) ↦
      let p : find operation_id k s.operations ≡ some o = ground arith in
      (p, find-id k s.operations p)
]

module _ (codec : Codec) where
  open codec use {Contents}

  commit-none :
      (fails : Call → Bool) (next : State) (f : File Contents)
      → (commit codec fails next f).1 ≡ none
      → (commit codec fails next f).0.state ≡ next
  unfolding commit
  commit-none fails next f h = ground arith

  -- A transition that reports no failure found the expected state, and stored the operation.
  write_transition-none :
      (fails : Call → Bool) (ctx : Failure) (e : OperationState) (o : Operation)
      (a : Option AuditEvent) (f : File Contents)
      → (write codec fails (transitions_operation ctx e o a) f).1 ≡ none
      → Stands o.id e f.state
        × (find operation_id o.id
              (write codec fails (transitions_operation ctx e o a) f).0.state.operations
            ≡ some o)
  unfolding write change
  write_transition-none fails ctx e o a f h =
      elim (Result-cases (transition_operation ctx e o a f.state)) [
        | inl (next, p) ↦
            let q = transition_operation-ok ctx e o a f.state o.id p in
            (q.0, ground (arith, q, commit-none fails next f))
        | inr (x, p) ↦ absurd (ground arith)
      ]

  execute_read-ran :
      (a : Answers) (during between : File Contents → File Contents) (o : Operation)
      (f : File Contents)
      → (execute_read codec a during between o f).1 ≡ true
      → Stands o.id queued f.state
  unfolding execute_read started
  execute_read-ran a during between o f h =
      (write_transition-none a.start_fails a.at_start queued (started a.started_at o) none f
        (ground arith)).0

  -- Where the job of an operation is run, the operation was queued when it was read, and again when
  -- it was marked as running, after all that others did to the store in between.
  pub execute_operation-ran :
      (a : Answers) (meanwhile during between : File Contents → File Contents) (id : Text)
      (f : File Contents)
      → (execute_operation codec a meanwhile during between id f).1 ≡ true
      → Stands id queued f.state × Stands id queued (meanwhile f).state
  unfolding execute_operation
  execute_operation-ran a meanwhile during between id f h =
      elim (Result-cases (get_operation a.at_read id f.state)) [
        | inr (x, p) ↦ absurd (ground arith)
        | inl (o, p) ↦
            let (q, i) = get_operation-ok a.at_read id f.state p in
            let t : holds (State-dec o.state queued) ≡ true = ground arith in
            let r : (execute_read codec a during between o (meanwhile f)).1 ≡ true = ground arith in
            ((o, q, ground arith), rw i at (execute_read-ran a during between o (meanwhile f) r))
      ]

  cancel_read-ok :
      (ctx : Failure) (fails : Call → Bool) (o : Operation) (event : AuditEvent) (f : File Contents)
      {o' : Operation}
      → (cancel_read codec ctx fails o event f).1 ≡ ok o'
      → (o' ≡ o)
        × Stands o.id queued f.state
        × (find operation_id o.id (cancel_read codec ctx fails o event f).0.state.operations
            ≡ some o)
  unfolding cancel_read
  cancel_read-ok ctx fails o event f {o'} h =
      let r = write codec fails (transitions_operation ctx queued o (some event)) f in
      elim (Option-cases r.1) [
        | inl e ↦
            let q = write_transition-none fails ctx queued o (some event) f e in
            (ground arith, q.0, ground (arith, q.1))
        | inr (x, e) ↦ absurd (ground arith)
      ]

  -- A cancellation that succeeds, whatever others did to the store after it read the operation, found
  -- it queued when it took effect, and left it stored as canceled.
  pub cancel_operation-ok :
      (at_read at_cancel : Failure) (fails : Call → Bool) (audit_id : Result Text) (now : ℕ)
      (meanwhile : File Contents → File Contents) (actor request_id id : Text) (f : File Contents)
      {o : Operation}
      → let r =
          cancel_operation codec at_read at_cancel fails audit_id now meanwhile actor request_id id
            f in
        r.1 ≡ ok o
        → (o.state ≡ canceled)
          × Stands id queued (meanwhile f).state
          × (find operation_id id r.0.state.operations ≡ some o)
  unfolding cancel_operation canceled_at
  cancel_operation-ok at_read at_cancel fails audit_id now meanwhile actor request_id id f {o} h =
      elim (Option-cases (validate_operation_id id)) [
        | inr (x, e) ↦ absurd (ground arith)
        | inl e ↦ elim (Result-cases (get_operation at_read id f.state)) [
          | inr (x, p) ↦ absurd (ground arith)
          | inl (o', p) ↦ elim (Result-cases audit_id) [
            | inr (x, q) ↦ absurd (ground arith)
            | inl (audit, q) ↦ elim (Bool-cases (holds (State-dec o'.state queued))) [
              | inr t ↦ absurd (ground arith)
              | inl t ↦
                  let (_, i) = get_operation-ok at_read id f.state p in
                  let c = canceled_at now o' in
                  let event = cancellation_audit audit actor request_id now o' in
                  let s : (cancel_read codec at_cancel fails c event (meanwhile f)).1 ≡ ok o =
                    ground arith in
                  let r = cancel_read-ok at_cancel fails c event (meanwhile f) s in
                  (
                    ap (λ (x : Operation). x.state) r.0,
                    rw i at r.1,
                    rw (e, p, t, q, cancel_operation)
                        (ap
                            (λ k.
                              find operation_id k
                                (cancel_read codec at_cancel fails c event
                                  (meanwhile f)).0.state.operations)
                            (sym i)
                          ∙ r.2
                          ∙ ap some (sym r.0)),
                  )
            ]
          ]
        ]
      ]

  -- Where what others do to the store while an execution waits is a cancellation of its operation that
  -- succeeds, whatever was done before that took effect, the job is not run.
  pub execute_operation-canceled :
      (a : Answers) (during between : File Contents → File Contents) (at_read at_cancel : Failure)
      (fails : Call → Bool) (audit_id : Result Text) (now : ℕ)
      (meanwhile : File Contents → File Contents) (actor request_id id : Text) (f : File Contents)
      {o : Operation}
      → (cancel_operation codec at_read at_cancel fails audit_id now meanwhile actor request_id id
          f).1
        ≡ ok o
      → (execute_operation codec a
          (λ g.
            (cancel_operation codec at_read at_cancel fails audit_id now meanwhile actor request_id
              id g).0)
          during
          between
          id
          f).1
        ≡ false
  execute_operation-canceled a during between at_read at_cancel fails audit_id now meanwhile actor
        request_id id f {o} h =
      let cancels : File Contents → File Contents = λ g.
        (cancel_operation codec at_read at_cancel fails audit_id now meanwhile actor request_id id
          g).0 in
      elim (Bool-cases (execute_operation codec a cancels during between id f).1) [
        | inr e ↦ e
        | inl e ↦
            let c =
              cancel_operation-ok at_read at_cancel fails audit_id now meanwhile actor request_id id
                f h in
            let r = execute_operation-ran a cancels during between id f e in
            absurd (ground (arith, c, r))
      ]
