-- ===== src/Kubernetes/Answers.antt =====
-- internal/kubernetes: how a list that is read page by page follows from the answers of the cluster.
use k8s_panel.Kubernetes.Classes.{
  sort_by_name, max_list_items, max_list_pages, max_list_bytes, read_pages, read_list, Listed,
  listed_name, Collection, Request, listed, read_items, decode_page,
}
use k8s_panel.Base.{
  ◌≤◌, ◌-◌, zero, suc, ◌+◌, leb, ltb, length, none, ℕ, ◌≡◌, refl, sym, ap, ◌∙◌, inl, inr, true,
  false, Option, some, List, [], ◌∷◌, ◌++◌, map, arith, Bool-cases, Option-cases, Text, is_empty,
}
use mathlib.Core.List.{append_assoc, append-nil}
use k8s_panel.Domain.{Result, Result-cases, ok}
use k8s_panel.Store.Items.{contains}
use k8s_panel.Kubernetes.Metadata.{
  Page, Json, PartialObjectMetadata, is_none, decode_partial_object_metadata_for_scope,
}

append-map-ok :
    {A B : Type 0} (f : A → Result B) (xs ys : List A) (ms ns : List B)
    → map f xs ≡ map (λ b. ok b) ms
    → map f ys ≡ map (λ b. ok b) ns
    → map f (xs ++ ys) ≡ map (λ b. ok b) (ms ++ ns)
append-map-ok f [] ys [] ns h k = k
append-map-ok f [] ys (m ∷ ms) ns h k = absurd (ground arith)
append-map-ok f (x ∷ xs) ys [] ns h k = absurd (ground arith)
append-map-ok f (x ∷ xs) ys (m ∷ ms) ns h k =
    let e : f x ≡ ok m = ground arith in
    rw e (ap (◌∷◌ (ok m)) (append-map-ok f xs ys ms ns (ground arith) k))

map-append_listed :
    (ms ns : List PartialObjectMetadata) → map listed (ms ++ ns) ≡ map listed ms ++ map listed ns
map-append_listed [] ns = refl
map-append_listed (m ∷ ms) ns = ap (◌∷◌ (listed m)) (map-append_listed ms ns)

module _ {Payload Raw : Type 0} (json : Json Payload Raw) (get_payload : Request → Result Payload)
    (c : Collection) where
  -- The cluster answers a request for a continuation, of some number of bytes at most, with a page.
  pub IsAnswered : Option Text → Page Raw → Type 0
  IsAnswered token page =
      (bytes : ℕ) × (payload : Payload) × (get_payload
          (record { path = c.path; continue = token; max_bytes = bytes })
        ≡ ok payload)
      × (json.page payload ≡ some page)

  -- A page and those that follow it, each asked for by the continuation of the one before, up to one
  -- with no continuation.
  abbrev pub IsChain : Option Text → Page Raw → List (Page Raw) → Type 0
  IsChain token page [] = IsAnswered token page × (is_empty page.continue ≡ true)
  IsChain token page (p ∷ ps) =
      IsAnswered token page × (is_empty page.continue ≡ false) × IsChain (some page.continue) p ps

  abbrev pub all_items : Page Raw → List (Page Raw) → List Raw
  all_items page [] = page.items
  all_items page (p ∷ ps) = page.items ++ all_items p ps

  abbrev pub decode : Raw → Result PartialObjectMetadata
  decode raw = decode_partial_object_metadata_for_scope json raw false

  abbrev pub Decodes : List Raw → List PartialObjectMetadata → Type 0
  Decodes raws ms = map decode raws ≡ map (λ m. ok m) ms

  decode_page-ok :
      (payload : Payload) (page : Page Raw)
      → decode_page json get_payload c payload ≡ ok page
      → json.page payload ≡ some page
  unfolding decode_page
  decode_page-ok payload page h = elim (Option-cases (json.page payload)) [
    | inl e ↦ absurd (ground (arith, e))
    | inr (p, e) ↦ ground (arith, e)
  ]

  read_items-Decodes :
      (raws : List Raw) (xs : List Listed) {ys : List Listed}
      → read_items json get_payload c raws xs ≡ ok ys
      → (ms : List PartialObjectMetadata) × Decodes raws ms × (ys ≡ xs ++ map listed ms)
  unfolding read_items
  read_items-Decodes [] xs {ys} h =
      let e : xs ≡ ys = ground arith in ([], refl, sym e ∙ sym (append-nil xs))
  read_items-Decodes (raw ∷ raws) xs {ys} h = elim (Result-cases (decode raw)) [
    | inr (x, e) ↦ absurd (ground (arith, e))
    | inl (m, e) ↦ elim (Bool-cases (is_none (c.valid_name m.name))) [
      | inr v ↦ absurd (ground (arith, e, v))
      | inl v ↦ elim (Bool-cases (contains listed_name m.name xs)) [
        | inl d ↦ absurd (ground (arith, e, v, d))
        | inr d ↦
            let (ms, k, l) =
              read_items-Decodes raws (xs ++ listed m ∷ []) {ys = ys} (ground (arith, e, v, d)) in
            (m ∷ ms, rw e (ap (◌∷◌ (ok m)) k), l ∙ append_assoc xs (listed m ∷ []) (map listed ms))
      ]
    ]
  ]

  -- The pages that a list was read from, and what their items decode to.
  abbrev pub Follows : ℕ → Option Text → List Listed → List Listed → Type 0
  Follows n token xs ys =
      (page : Page Raw) × (ps : List (Page Raw)) × (ms : List PartialObjectMetadata) × IsChain token
        page ps
      × (suc (length ps) ≤ n)
      × Decodes (all_items page ps) ms
      × (ys ≡ sort_by_name (xs ++ map listed ms))

  read_pages-Follows :
      (n : ℕ) (seen : List Text) (total : ℕ) (xs : List Listed) (token : Option Text)
      {ys : List Listed}
      → read_pages json get_payload c n seen total xs token ≡ ok ys
      → Follows n token xs ys
  unfolding read_pages IsAnswered
  read_pages-Follows zero seen total xs token h = absurd (ground arith)
  read_pages-Follows (suc n) seen total xs token {ys} h =
      let request : Request = record {
        path = c.path;
        continue = token;
        max_bytes = max_list_bytes - total;
      } in
      elim (Bool-cases (ltb total max_list_bytes)) [
        | inr b ↦ absurd (ground (arith, b))
        | inl b ↦ elim (Result-cases (get_payload request)) [
          | inr (x, g) ↦ absurd (ground (arith, b, g))
          | inl (payload, g) ↦ elim (Result-cases (decode_page json get_payload c payload)) [
            | inr (x, d) ↦ absurd (ground (arith, b, g, d))
            | inl (page, d) ↦
                elim (Bool-cases (leb (length page.items) (max_list_items - length xs))) [
                  | inr k ↦ absurd (ground (arith, b, g, d, k))
                  | inl k ↦ elim (Result-cases (read_items json get_payload c page.items xs)) [
                    | inr (x, r) ↦ absurd (ground (arith, b, g, d, k, r))
                    | inl (zs, r) ↦
                        let (ms, q, l) = read_items-Decodes page.items xs {ys = zs} r in
                        let a : IsAnswered token page =
                          (max_list_bytes - total, payload, g, decode_page-ok payload page d) in
                        elim (Bool-cases (is_empty page.continue)) [
                          | inl e ↦
                              let f : ys ≡ sort_by_name zs = ground (arith, b, g, d, k, r, e) in
                              (page, [], ms, (a, e), omega arith, q, f ∙ ap sort_by_name l)
                          | inr e ↦
                              let (p, ps, ns, ch, m, q', l') =
                                read_pages-Follows n (page.continue ∷ seen)
                                  (total + json.size payload) zs (some page.continue) {ys = ys}
                                  (ground (arith, b, g, d, k, r, e)) in
                              (
                                page,
                                p ∷ ps,
                                ms ++ ns,
                                (a, e, ch),
                                omega (arith, m),
                                append-map-ok decode page.items (all_items p ps) ms ns q q',
                                l'
                                    ∙ ap sort_by_name (
                                        ap (λ (t : List Listed). t ++ map listed ns) l
                                        ∙ append_assoc xs (map listed ms) (map listed ns)
                                        ∙ ap (◌++◌ xs) (sym (map-append_listed ms ns))),
                              )
                        ]
                  ]
                ]
          ]
        ]
      ]

  -- A list that is read is all that the cluster has told, and nothing else: it is the sorted list of the names
  -- and times of all items, each of them decoded, of a chain of at most four pages, of which the first answers a request
  -- with no continuation, each other one a request with the continuation of the page before, and the last has none.
  pub read_list-Follows :
      (ys : List Listed) → read_list json get_payload c ≡ ok ys → Follows max_list_pages none [] ys
  unfolding read_list
  read_list-Follows ys h = read_pages-Follows max_list_pages [] 0 [] none h
