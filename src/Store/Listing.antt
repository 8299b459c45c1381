-- ===== src/Store/Listing.antt =====
-- internal/store/file.go: the lists that are shown, newest first. `sort.Slice` leaves open in which
-- order equal items come; here it is an insertion sort.
use k8s_panel.Base.{
  ℕ, zero, suc, ◌+◌, ◌≤◌, ◌≡◌, refl, sym, ap, inl, inr, ◌||◌, none, List, [], ◌∷◌, ◌++◌, arith, ltb,
  leb, ◌==◌, if◌then◌else◌, Bool-cases, length, take, drop, length-take, All,
}
use mathlib.Core.List.{append-nil}
use Prim.Native.Nat.{min}
use k8s_panel.Domain.{Repository, Operation, AuditEvent, Failure, Result, ok, ◌>>◌}
use k8s_panel.Store.State.{State}
use k8s_panel.Store.Changes.{live}
use k8s_panel.Store.History.{limit_slice}

module _ {A : Type 0} (time : A → ℕ) where
  unfoldable pub insert_newest : A → List A → List A
  insert_newest x [] = x ∷ []
  insert_newest x (y ∷ ys) =
      let later = insert_newest x ys in if leb (time y) (time x) then x ∷ y ∷ ys else y ∷ later

  -- `sort.Slice`, an item coming before another where its time is after.
  unfoldable pub sort_newest : List A → List A
  sort_newest [] = []
  sort_newest (x ∷ xs) = insert_newest x (sort_newest xs)

  -- Each item is no older than those behind it.
  abbrev pub IsNewestFirst : List A → Type 0
  IsNewestFirst [] = Unit {0}
  IsNewestFirst (x ∷ xs) = All (λ y. time y ≤ time x) xs × IsNewestFirst xs

  All-insert_newest :
      (P : A → Type 0) (x : A) (xs : List A) → P x → All P xs → All P (insert_newest x xs)
  unfolding insert_newest
  All-insert_newest P x [] p a = (p, tt)
  All-insert_newest P x (y ∷ ys) p a = elim (Bool-cases (leb (time y) (time x))) [
    | inl e ↦ rw (e, insert_newest) (p, a)
    | inr e ↦ rw (e, insert_newest) (a.0, All-insert_newest P x ys p a.1)
  ]

  All-sort_newest : (P : A → Type 0) (xs : List A) → All P xs → All P (sort_newest xs)
  unfolding sort_newest
  All-sort_newest P [] a = tt
  All-sort_newest P (x ∷ xs) a =
      All-insert_newest P x (sort_newest xs) a.0 (All-sort_newest P xs a.1)

  All-le : (xs : List A) (m n : ℕ) → m ≤ n → All (λ y. time y ≤ m) xs → All (λ y. time y ≤ n) xs
  All-le [] m n h a = tt
  All-le (x ∷ xs) m n h a = (omega (arith, h, a.0), All-le xs m n h a.1)

  insert_newest-IsNewestFirst :
      (x : A) (xs : List A) → IsNewestFirst xs → IsNewestFirst (insert_newest x xs)
  unfolding insert_newest
  insert_newest-IsNewestFirst x [] s = (tt, tt)
  insert_newest-IsNewestFirst x (y ∷ ys) s = elim (Bool-cases (leb (time y) (time x))) [
    | inl e ↦
        let l : time y ≤ time x = ground arith in
        rw (e, insert_newest) ((l, All-le ys (time y) (time x) l s.0), s)
    | inr e ↦
        let l : time x ≤ time y = ground arith in
        rw (e, insert_newest)
          (
            All-insert_newest (λ z. time z ≤ time y) x ys l s.0,
            insert_newest-IsNewestFirst x ys s.1,
          )
  ]

  sort_newest-IsNewestFirst : (xs : List A) → IsNewestFirst (sort_newest xs)
  unfolding sort_newest
  sort_newest-IsNewestFirst [] = tt
  sort_newest-IsNewestFirst (x ∷ xs) =
      insert_newest-IsNewestFirst x (sort_newest xs) (sort_newest-IsNewestFirst xs)

unfoldable pub list_repositories : Failure → State → Result (List Repository)
unfolding sort_newest
list_repositories ctx s = do live ctx; ok (sort_newest (λ r. r.updated_at) s.repositories)

unfoldable pub list_operations : Failure → ℕ → State → Result (List Operation)
unfolding sort_newest limit_slice
list_operations ctx limit s = do
  live ctx
  ok (limit_slice (sort_newest (λ o. o.updated_at) s.operations) limit)

unfoldable pub list_audit_events : Failure → ℕ → State → Result (List AuditEvent)
unfolding sort_newest limit_slice
list_audit_events ctx limit s = do
  live ctx
  ok (limit_slice (sort_newest (λ e. e.created_at) s.audit_events) limit)

length-insert_newest :
    {A : Type 0} (time : A → ℕ) (x : A) (xs : List A)
    → length (insert_newest time x xs) ≡ length xs + 1
unfolding insert_newest
length-insert_newest time x [] = refl
length-insert_newest time x (y ∷ ys) = ground (arith, length-insert_newest time x ys)

length-sort_newest :
    {A : Type 0} (time : A → ℕ) (xs : List A) → length (sort_newest time xs) ≡ length xs
unfolding sort_newest
length-sort_newest time [] = refl
length-sort_newest time (x ∷ xs) =
    omega (arith, length-insert_newest time x (sort_newest time xs), length-sort_newest time xs)

take-drop : {A : Type 0} (n : ℕ) (xs : List A) → xs ≡ take n xs ++ drop n xs
take-drop zero xs = refl
take-drop (suc n) [] = refl
take-drop (suc n) (x ∷ xs) = ap (◌∷◌ x) (take-drop n xs)

limit_slice-split :
    {A : Type 0} (xs : List A) (limit : ℕ)
    → (rest : List A) × (xs ≡ limit_slice xs limit ++ rest)
      × (length (limit_slice xs limit)
          ≡ min (if limit == 0 || ltb 100 limit then 100 else limit) (length xs))
unfolding limit_slice
limit_slice-split xs limit =
    let n = if limit == 0 || ltb 100 limit then 100 else limit in
    elim (Bool-cases (ltb n (length xs))) [
      | inl e ↦ rw (e, limit_slice) (drop n xs, take-drop n xs, length-take n xs)
      | inr e ↦ rw (e, limit_slice) ([], sym (append-nil xs), ground arith)
    ]

-- Where the context is in force, the operations that are listed are as many as the limit, or 100
-- where that is 0 or more than 100, or as many as there are; with those left out they are as many
-- as the stored ones, have what all stored ones have, and each is no older than those behind it
-- and those left out.
pub list_operations-newest :
    (P : Operation → Type 0) (limit : ℕ) (s : State)
    → All P s.operations
    → (shown rest : List Operation) × (list_operations none limit s ≡ ok shown)
      × (length shown
          ≡ min (if limit == 0 || ltb 100 limit then 100 else limit) (length s.operations))
      × (length (shown ++ rest) ≡ length s.operations)
      × All P (shown ++ rest)
      × IsNewestFirst (λ o. o.updated_at) (shown ++ rest)
unfolding list_operations
list_operations-newest P limit s a =
    let sorted = sort_newest (λ (o : Operation). o.updated_at) s.operations in
    let (rest, e, n) = limit_slice-split sorted limit in
    let l : length sorted ≡ length s.operations = length-sort_newest _ s.operations in
    (
      limit_slice sorted limit,
      rest,
      refl,
      rw (← l) n,
      rw (← e) l,
      rw (← e) (All-sort_newest _ P s.operations a),
      rw (← e) (sort_newest-IsNewestFirst _ s.operations),
    )
