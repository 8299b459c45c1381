-- ===== src/Operations/Submissions/Queue.antt =====
-- internal/platform/operations.go: what a submission does to the queue.
use k8s_panel.Operations.Submissions.{
  submission_audit, audit_and_enqueue, create_and_enqueue_operation, Replies, Desk, enqueue,
  queue_full_at,
}
use k8s_panel.Operations.{audit}
use k8s_panel.Base.{
  ◌<◌, ◌≡◌, refl, inl, inr, Bool, true, false, none, [], ◌∷◌, ◌++◌, arith, ltb, if◌then◌else◌,
  Bool-cases, Option-cases, length, runes,
}
use k8s_panel.Domain.{Operation, Result, ok, err, queued}
use k8s_panel.Store.Disk.{Codec}
use k8s_panel.Store.File.{creates_operation, write, transitions_operation}

abbrev pub is_accepted : Result Operation → Bool
is_accepted (ok o) = true
is_accepted (err e) = false

module _ (codec : Codec) where
  -- What is done to the queue of a desk: an operation enters it exactly where it is accepted, and
  -- there was room for it.
  pub record Enqueues (o : Operation) (d : Desk codec) (r : Desk codec × Result Operation)
      : Type 0 where
    pub entered : r.0.queue ≡ (if is_accepted r.1 then d.queue ++ o.id ∷ [] else d.queue)
    pub room : is_accepted r.1 ≡ true → length d.queue < d.capacity
    pub capacity : r.0.capacity ≡ d.capacity

  enqueue-Enqueues :
      (a : Replies) (o : Operation) (d : Desk codec) → Enqueues o d (enqueue codec a o d)
  unfolding enqueue
  enqueue-Enqueues a o d = elim (Bool-cases (ltb (length d.queue) d.capacity)) [
    | inl e ↦ rw (e, enqueue) (record { entered = refl; room = λ _. ground arith; capacity = refl })
    | inr e ↦
        elim (Option-cases
          (write codec a.mark_fails
            (transitions_operation none queued (queue_full_at a.failed_at o) none) d.file).1) [
              | inl p ↦
                  rw (e, enqueue)
                    (rw (p, enqueue)
                      (record { entered = refl; room = λ h. absurd cc; capacity = refl }))
              | inr (x, p) ↦
                  rw (e, enqueue)
                    (rw (p, enqueue)
                      (record { entered = refl; room = λ h. absurd cc; capacity = refl }))
            ]
  ]

  -- What others do to the store leaves the queue as it is.
  abbrev pub Quiet : (Desk codec → Desk codec) → Type 0
  Quiet others =
      (d : Desk codec) → ((others d).queue ≡ d.queue) × ((others d).capacity ≡ d.capacity)

  Enqueues-moved :
      (o : Operation) (d d' : Desk codec) (r : Desk codec × Result Operation)
      → d'.queue ≡ d.queue
      → d'.capacity ≡ d.capacity
      → Enqueues o d' r
      → Enqueues o d r
  Enqueues-moved o d d' r p q v = record {
    entered = rw (← p) v.entered;
    room = rw (← p, ← q) v.room;
    capacity = rw (← q) v.capacity;
  }

  audit_and_enqueue-Enqueues :
      (a : Replies) (later : Desk codec → Desk codec) (o : Operation) (d : Desk codec)
      → Quiet later
      → Enqueues o d (audit_and_enqueue codec a later o d)
  unfolding audit_and_enqueue
  audit_and_enqueue-Enqueues a later o d w =
      let r =
        audit codec a.at_audit a.audit_id a.audit_fails
          (λ id. submission_audit id (runes "submitted") o.summary a.audited_at o) d.file in
      let m = w (record d { file = r.0 }) in
      elim (Option-cases r.1) [
        | inl p ↦
            rw (p, audit_and_enqueue)
              (Enqueues-moved o d (later (record d { file = r.0 })) _ m.0 m.1
                (enqueue-Enqueues a o (later (record d { file = r.0 }))))
        | inr (x, p) ↦
            rw (p, audit_and_enqueue)
              (record { entered = m.0; room = λ h. absurd cc; capacity = m.1 })
      ]

  -- Where what others do in between leaves the queue as it is, an operation enters the queue exactly
  -- where its submission succeeds, and it only does where there was room for it; the capacity stays.
  pub create_and_enqueue_operation-Enqueues :
      (a : Replies) (meanwhile later : Desk codec → Desk codec) (o : Operation) (d : Desk codec)
      → Quiet meanwhile
      → Quiet later
      → Enqueues o d (create_and_enqueue_operation codec a meanwhile later o d)
  unfolding create_and_enqueue_operation
  create_and_enqueue_operation-Enqueues a meanwhile later o d w w' =
      let r = write codec a.create_fails (creates_operation a.at_create o) d.file in
      let m = w (record d { file = r.0 }) in
      elim (Option-cases r.1) [
        | inl p ↦
            rw (p, create_and_enqueue_operation)
              (Enqueues-moved o d (meanwhile (record d { file = r.0 })) _ m.0 m.1
                (audit_and_enqueue-Enqueues a later o (meanwhile (record d { file = r.0 })) w'))
        | inr (x, p) ↦
            rw (p, create_and_enqueue_operation)
              (record { entered = refl; room = λ h. absurd cc; capacity = refl })
      ]
