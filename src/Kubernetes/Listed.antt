-- ===== src/Kubernetes/Listed.antt =====
-- internal/kubernetes: what the lists read page by page are made of.
use mathlib.Core.Path.{subst}
use k8s_panel.Base.{
  ℕ, zero, suc, ◌+◌, ◌-◌, ◌≤◌, ◌≡◌, ◌≢◌, refl, sym, inl, inr, true, false, Option, none, some, List,
  [], ◌∷◌, ◌++◌, map, arith, ltb, leb, Bool-cases, length, length-append, Text, is_empty, All,
  Absent, AllDistinct, AllDistinct-snoc, map-snoc,
}
use k8s_panel.Domain.{Failure, Result, Result-cases, ok}
use k8s_panel.Store.Items.{contains}
use k8s_panel.Store.Items.Keys.{contains-Absent}
use k8s_panel.Cache.{text_lt}
use k8s_panel.Kubernetes.Metadata.{Json, is_none, decode_partial_object_metadata_for_scope}
use k8s_panel.Kubernetes.Classes.{
  Listed, listed_name, Collection, Request, insert_by_name, sort_by_name, listed, read_items,
  decode_page, read_pages, read_list, max_list_items, max_list_bytes, max_list_pages,
}

All-snoc :
    {A : Type 0} (P : A → Type 0) (xs : List A) (x : A) → All P xs → P x → All P (xs ++ x ∷ [])
All-snoc P [] x a p = (p, tt)
All-snoc P (y ∷ xs) x a p = (a.0, All-snoc P xs x a.1 p)

All-insert_by_name :
    (P : Listed → Type 0) (x : Listed) (xs : List Listed)
    → P x
    → All P xs
    → All P (insert_by_name x xs)
unfolding insert_by_name
All-insert_by_name P x [] p a = (p, tt)
All-insert_by_name P x (y ∷ ys) p a = elim (Bool-cases (text_lt y.name x.name)) [
  | inl e ↦ rw (e, insert_by_name) (a.0, All-insert_by_name P x ys p a.1)
  | inr e ↦ rw (e, insert_by_name) (p, a)
]

All-sort_by_name : (P : Listed → Type 0) (xs : List Listed) → All P xs → All P (sort_by_name xs)
unfolding sort_by_name
All-sort_by_name P [] a = tt
All-sort_by_name P (x ∷ xs) a =
    All-insert_by_name P x (sort_by_name xs) a.0 (All-sort_by_name P xs a.1)

Absent-map :
    (k : Text) (xs : List Listed) → Absent k (map listed_name xs) → All (λ i. i.name ≢ k) xs
Absent-map k [] a = tt
Absent-map k (x ∷ xs) a = (a.0, Absent-map k xs a.1)

map-Absent :
    (k : Text) (xs : List Listed) → All (λ i. i.name ≢ k) xs → Absent k (map listed_name xs)
map-Absent k [] a = tt
map-Absent k (x ∷ xs) a = (a.0, map-Absent k xs a.1)

insert-AllDistinct :
    (x : Listed) (xs : List Listed)
    → Absent x.name (map listed_name xs)
    → AllDistinct (map listed_name xs)
    → AllDistinct (map listed_name (insert_by_name x xs))
unfolding insert_by_name
insert-AllDistinct x [] a d = (tt, tt)
insert-AllDistinct x (y ∷ ys) a d = elim (Bool-cases (text_lt y.name x.name)) [
  | inl e ↦
      rw (e, insert_by_name)
        (
          map-Absent y.name (insert_by_name x ys) (
              All-insert_by_name (λ i. i.name ≢ y.name) x ys (λ p. a.0 (sym p))
                (Absent-map y.name ys d.0)),
          insert-AllDistinct x ys a.1 d.1,
        )
  | inr e ↦ rw (e, insert_by_name) (a, d)
]

sort-AllDistinct :
    (xs : List Listed)
    → AllDistinct (map listed_name xs)
    → AllDistinct (map listed_name (sort_by_name xs))
unfolding sort_by_name
sort-AllDistinct [] d = tt
sort-AllDistinct (x ∷ xs) d =
    insert-AllDistinct x (sort_by_name xs)
      (map-Absent x.name (sort_by_name xs)
        (All-sort_by_name (λ i. i.name ≢ x.name) xs (Absent-map x.name xs d.0)))
      (sort-AllDistinct xs d.1)

length-insert : (x : Listed) (xs : List Listed) → length (insert_by_name x xs) ≡ suc (length xs)
unfolding insert_by_name
length-insert x [] = refl
length-insert x (y ∷ ys) = ground (arith, length-insert x ys)

length-sort : (xs : List Listed) → length (sort_by_name xs) ≡ length xs
unfolding sort_by_name
length-sort [] = refl
length-sort (x ∷ xs) = omega (arith, length-insert x (sort_by_name xs), length-sort xs)

is_none-eq : (f : Failure) → is_none f ≡ true → f ≡ none
is_none-eq none h = refl
is_none-eq (some e) h = cc

module _ (c : Collection) where
  -- At most 1000 items, of distinct names that pass the test.
  pub IsSafe : List Listed → Type 0
  IsSafe xs =
      (length xs ≤ max_list_items)
      × AllDistinct (map listed_name xs)
      × All (λ i. c.valid_name i.name ≡ none) xs

  IsSafe-length : (xs : List Listed) → IsSafe xs → length xs ≤ max_list_items
  unfolding IsSafe
  IsSafe-length xs s = s.0

  sort-IsSafe : (xs : List Listed) → IsSafe xs → IsSafe (sort_by_name xs)
  unfolding IsSafe
  sort-IsSafe xs (l, d, a) = (
    omega (arith, length-sort xs, l),
    sort-AllDistinct xs d,
    All-sort_by_name (λ i. c.valid_name i.name ≡ none) xs a,
  )

  snoc-IsSafe :
      (xs : List Listed) (x : Listed)
      → suc (length xs) ≤ max_list_items
      → contains listed_name x.name xs ≡ false
      → c.valid_name x.name ≡ none
      → IsSafe xs
      → IsSafe (xs ++ x ∷ [])
  unfolding IsSafe
  snoc-IsSafe xs x h n v (l, d, a) = (
    omega (arith, length-append xs (x ∷ []), h),
    rw (map-snoc listed_name xs x)
        (AllDistinct-snoc x.name (map listed_name xs) (contains-Absent listed_name x.name xs n) d),
    All-snoc (λ i. c.valid_name i.name ≡ none) xs x a v,
  )

  module _ {Payload Raw : Type 0} (json : Json Payload Raw)
      (get_payload : Request → Result Payload) where
    read_items-IsSafe :
        (raws : List Raw) (xs : List Listed) {ys : List Listed}
        → length xs + length raws ≤ max_list_items
        → IsSafe xs
        → read_items json get_payload c raws xs ≡ ok ys
        → IsSafe ys
    unfolding read_items
    read_items-IsSafe [] xs {ys} l s h =
        let e : xs ≡ ys = ground arith in subst (λ (zs : List Listed). IsSafe zs) e s
    read_items-IsSafe (raw ∷ raws) xs {ys} l s h =
        elim (Result-cases (decode_partial_object_metadata_for_scope json raw false)) [
          | inr (x, e) ↦ absurd (ground (arith, e))
          | inl (m, e) ↦ elim (Bool-cases (is_none (c.valid_name m.name))) [
            | inr v ↦ absurd (ground (arith, e, v))
            | inl v ↦ elim (Bool-cases (contains listed_name m.name xs)) [
              | inl d ↦ absurd (ground (arith, e, v, d))
              | inr d ↦
                  read_items-IsSafe raws (xs ++ listed m ∷ [])
                    (omega (arith, length-append xs (listed m ∷ []), l))
                    (snoc-IsSafe xs (listed m) (omega (arith, l)) d
                      (is_none-eq (c.valid_name m.name) v) s)
                    (ground (arith, e, v, d))
            ]
          ]
        ]

    read_pages-IsSafe :
        (n : ℕ) (seen : List Text) (total : ℕ) (xs : List Listed) (token : Option Text)
        {ys : List Listed}
        → IsSafe xs
        → read_pages json get_payload c n seen total xs token ≡ ok ys
        → IsSafe ys
    unfolding read_pages
    read_pages-IsSafe zero seen total xs token s h = absurd (ground arith)
    read_pages-IsSafe (suc n) seen total xs token {ys} s h =
        let request : Request = record {
          path = c.path;
          continue = token;
          max_bytes = max_list_bytes - total;
        } in
        elim (Bool-cases (ltb total max_list_bytes)) [
          | inr b ↦ absurd (ground (arith, b))
          | inl b ↦ elim (Result-cases (get_payload request)) [
            | inr (x, g) ↦ absurd (ground (arith, b, g))
            | inl (payload, g) ↦ elim (Result-cases (decode_page json get_payload c payload)) [
              | inr (x, d) ↦ absurd (ground (arith, b, g, d))
              | inl (page, d) ↦
                  elim (Bool-cases (leb (length page.items) (max_list_items - length xs))) [
                    | inr k ↦ absurd (ground (arith, b, g, d, k))
                    | inl k ↦ elim (Result-cases (read_items json get_payload c page.items xs)) [
                      | inr (x, r) ↦ absurd (ground (arith, b, g, d, k, r))
                      | inl (zs, r) ↦
                          let l : length xs ≤ max_list_items = IsSafe-length xs s in
                          let t : IsSafe zs =
                            read_items-IsSafe page.items xs (ground (arith, k, l)) s r in
                          elim (Bool-cases (is_empty page.continue)) [
                            | inl e ↦
                                let q : sort_by_name zs ≡ ys = ground (arith, b, g, d, k, r, e) in
                                subst (λ (zs : List Listed). IsSafe zs) q (sort-IsSafe zs t)
                            | inr e ↦
                                read_pages-IsSafe n (page.continue ∷ seen)
                                  (total + json.size payload) zs (some page.continue) t
                                  (ground (arith, b, g, d, k, r, e))
                          ]
                    ]
                  ]
            ]
          ]
        ]

    -- Whatever the cluster answers, a list that is read has at most 1000 items, no two of one name, and each
    -- name passes the test of its kind.
    pub read_list-IsSafe : (ys : List Listed) → read_list json get_payload c ≡ ok ys → IsSafe ys
    unfolding read_list IsSafe
    read_list-IsSafe ys h = read_pages-IsSafe max_list_pages [] 0 [] none (omega arith, tt, tt) h
