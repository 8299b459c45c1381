-- ===== src/Store/Consistent.antt =====
-- The invariant of the state that internal/store/file.go keeps, and how it passes through the
-- parts of a method.
pub mod Methods
use k8s_panel.Base.{
  is_empty, same, holds, ◌||◌, Bool, true, false, not, Text, fold, List, [], ◌∷◌, ◌++◌, map, Option,
  none, some, ◌≡◌, ◌≤◌, refl, sym, ap, arith, length, AllDistinct, Absent, AllDistinct-snoc,
  map-snoc, Option-cases, inl, inr, Bool-cases, ◌∙◌,
}
use k8s_panel.Domain.{
  State-dec, Cluster, Repository, Operation, AuditEvent, Failure, Result, ok, err, OperationState,
  ◌>>=◌, ◌>>◌, conflict, not_found, guard, Error,
}
use k8s_panel.Store.Items.{find, replace, remove, contains, clashes, update}
use k8s_panel.Store.Items.Keys.{
  contains-Absent, clashes-Absent, map-replace, map-replace_found, AllDistinct-remove, map-update,
  AllDistinct-update,
}
use k8s_panel.Store.History.{trim_operation_history, trim_audit_history, max_stored_audit_events}
use k8s_panel.Store.History.Keys.{
  AllDistinct-trim_operation_history, AllDistinct-trim_audit_history, length-trim_audit_history-le,
}
use k8s_panel.Store.State.{State}
use k8s_panel.Store.Changes.{
  Cluster-dec, valid_audit, create_cluster, update_cluster, rotate_cluster_credentials,
  delete_cluster, create_repository, update_repository, delete_repository, create_operation,
  update_operation, transition_operation, create_audit_event, live, or_not_found, cluster_id,
  cluster_name, repository_id, repository_name, operation_id, event_id, with_audit, fresh_audit,
}

-- Identifiers are distinct, and so are names up to their case.
abbrev pub Named : {A : Type 0} → (A → Text) → (A → Text) → List A → Type 0
Named id name xs = AllDistinct (map id xs) × AllDistinct (map (λ x. fold (name x)) xs)

abbrev pub Bounded : List AuditEvent → Type 0
Bounded es = AllDistinct (map event_id es) × (length es ≤ max_stored_audit_events)

pub record IsConsistent (s : State) : Type 0 where
  pub clusters : Named cluster_id cluster_name s.clusters
  pub repositories : Named repository_id repository_name s.repositories
  pub operations : AllDistinct (map operation_id s.operations)
  pub events : Bounded s.audit_events

-- The next state, where there is one, is consistent.
abbrev pub Consistent : Result State → Type 0
Consistent (ok s) = IsConsistent s
Consistent (err e) = Unit {0}

pub bind-Consistent :
    {A : Type 0} (m : Result A) (f : A → Result State)
    → ((a : A) → m ≡ ok a → Consistent (f a))
    → Consistent (m >>= f)
bind-Consistent (ok a) f h = h a refl
bind-Consistent (err e) f h = tt

pub guard-Consistent :
    (b : Bool) (e : Error) (m : Result State)
    → (b ≡ true → Consistent m)
    → Consistent (guard b e >> m)
guard-Consistent true e m h = h refl
guard-Consistent false e m h = tt

pub found-Consistent :
    {A : Type 0} (o : Option A) (f : A → Result State)
    → ((a : A) → o ≡ some a → Consistent (f a))
    → Consistent (or_not_found o >>= f)
found-Consistent none f h = tt
found-Consistent (some a) f h = h a refl

pub not-true : (b : Bool) → not b ≡ true → b ≡ false
not-true true h = cc
not-true false h = refl

module _ {A : Type 0} (key : A → Text) where
  pub AllDistinct-added :
      (xs : List A) (x : A)
      → Absent (key x) (map key xs)
      → AllDistinct (map key xs)
      → AllDistinct (map key (xs ++ x ∷ []))
  AllDistinct-added xs x a d = rw (map-snoc key xs x) (AllDistinct-snoc (key x) (map key xs) a d)

module _ {A : Type 0} (id name : A → Text) where
  pub Named-added :
      (x : A) (xs : List A)
      → clashes id name x xs ≡ false
      → Named id name xs
      → Named id name (xs ++ x ∷ [])
  Named-added x xs h n =
      let a = clashes-Absent id name x xs h in
      (AllDistinct-added id xs x a.0 n.0, AllDistinct-added (λ y. fold (name y)) xs x a.1 n.1)

  pub Named-update :
      (x : A) (xs : List A) {found : Bool} {ys : List A}
      → update id name x xs ≡ ok (found, ys)
      → Named id name xs
      → Named id name ys
  Named-update x xs e n =
      (rw (map-update id name x xs e) n.0, AllDistinct-update id name x xs e n.0 n.1)

  pub Named-remove :
      (i : Text) (xs : List A) {ys : List A}
      → remove id i xs ≡ some ys
      → Named id name xs
      → Named id name ys
  Named-remove i xs e n =
      (AllDistinct-remove id id i xs e n.0, AllDistinct-remove id (λ y. fold (name y)) i xs e n.1)

pub Bounded-added :
    (a : AuditEvent) (es : List AuditEvent)
    → contains event_id a.id es ≡ false
    → Bounded es
    → Bounded (trim_audit_history (es ++ a ∷ []))
Bounded-added a es h b = (
  AllDistinct-trim_audit_history (es ++ a ∷ [])
      (AllDistinct-added event_id es a (contains-Absent event_id a.id es h) b.0),
  length-trim_audit_history-le (es ++ a ∷ []),
)

pub Bounded-with_audit :
    (a : Option AuditEvent) (es : List AuditEvent)
    → fresh_audit a es ≡ true
    → Bounded es
    → Bounded (with_audit a es)
Bounded-with_audit none es h b = b
Bounded-with_audit (some a) es h b = Bounded-added a es (not-true _ h) b
