-- ===== src/Store/History/Keys.antt =====
-- internal/store/file.go: the trimming of the history, and the identifiers in it.
use k8s_panel.Base.{
  ℕ, ◌-◌, ◌≤◌, Text, List, [], ◌∷◌, map, Absent, AllDistinct, AllDistinct-drop, arith, leb, ltb,
  Bool-cases, inl, inr, ◌&&◌, not, length, length-drop,
}
use k8s_panel.Domain.{Operation, AuditEvent}
use k8s_panel.Store.History.{
  in_flight, trim_loop, trim_events, trim_operation_history, trim_audit_history,
  max_stored_operations, max_stored_audit_events,
}

ids : List Operation → List Text
ids = map (λ o. o.id)

Absent-trim_loop :
    (k : Text) (n : ℕ) (os : List Operation)
    → Absent k (map (λ o. o.id) os)
    → Absent k (map (λ o. o.id) (trim_loop n os))
unfolding trim_loop
Absent-trim_loop k n [] a = tt
Absent-trim_loop k n (o ∷ os) a = elim (Bool-cases (ltb 0 n && not (in_flight o))) [
  | inl drops ↦ rw drops (Absent-trim_loop k (n - 1) os a.1)
  | inr stays ↦ rw stays (a.0, Absent-trim_loop k n os a.1)
]

AllDistinct-trim_loop :
    (n : ℕ) (os : List Operation)
    → AllDistinct (map (λ o. o.id) os)
    → AllDistinct (map (λ o. o.id) (trim_loop n os))
unfolding trim_loop
AllDistinct-trim_loop n [] d = tt
AllDistinct-trim_loop n (o ∷ os) d = elim (Bool-cases (ltb 0 n && not (in_flight o))) [
  | inl drops ↦ rw drops (AllDistinct-trim_loop (n - 1) os d.1)
  | inr stays ↦ rw stays (Absent-trim_loop o.id n os d.0, AllDistinct-trim_loop n os d.1)
]

pub AllDistinct-trim_operation_history :
    (os : List Operation)
    → AllDistinct (map (λ o. o.id) os)
    → AllDistinct (map (λ o. o.id) (trim_operation_history os))
unfolding trim_operation_history
AllDistinct-trim_operation_history os d =
    elim (Bool-cases (leb (length os) max_stored_operations)) [
      | inl fits ↦ rw fits d
      | inr over ↦ rw over (AllDistinct-trim_loop _ os d)
    ]

pub AllDistinct-trim_audit_history :
    (es : List AuditEvent)
    → AllDistinct (map (λ e. e.id) es)
    → AllDistinct (map (λ e. e.id) (trim_audit_history es))
unfolding trim_audit_history
AllDistinct-trim_audit_history es d = elim (Bool-cases (leb (length es) max_stored_audit_events)) [
  | inl fits ↦ rw fits d
  | inr over ↦ rw over (AllDistinct-drop (λ (e : AuditEvent). e.id) _ es d)
]

pub length-trim_events-le :
    (limit : ℕ) (es : List AuditEvent) → length (trim_events limit es) ≤ limit
unfolding trim_events
length-trim_events-le limit es = ground (arith, length-drop (length es - limit) es)

pub length-trim_audit_history-le :
    (es : List AuditEvent) → length (trim_audit_history es) ≤ max_stored_audit_events
unfolding trim_audit_history
length-trim_audit_history-le es = length-trim_events-le max_stored_audit_events es
