-- ===== src/Store/Items/Keys.antt =====
-- What the loops over a slice do to the identifiers and to the names of its items.
use k8s_panel.Base.{
  Bool, true, false, Text, same, fold, List, [], ◌∷◌, some, ◌≡◌, ◌≢◌, refl, arith, Absent,
  AllDistinct, map, sym, ap, text_dec, Bool-cases, inl, inr, Holds, Holds-map_option,
}
use k8s_panel.Domain.{Result, ok, err, ◌>>=◌}
use k8s_panel.Store.Items.{find, replace, remove, contains, clashes, update}

found : {a b : Text} → a ≡ b → same a b ≡ true
found p = ground arith

missed : {a b : Text} → a ≢ b → same a b ≡ false
missed p = ground arith

module _ {A : Type 0} (id : A → Text) where
  pub contains-Absent : (k : Text) (xs : List A) → contains id k xs ≡ false → Absent k (map id xs)
  unfolding contains
  contains-Absent k [] h = tt
  contains-Absent k (x ∷ xs) h = (ground arith, contains-Absent k xs (ground arith))

  replace-Holds : (new : A) (xs : List A) → Holds (λ ys. map id ys ≡ map id xs) (replace id new xs)
  unfolding replace
  replace-Holds new [] = tt
  replace-Holds new (x ∷ xs) = elim (Bool-cases (same (id x) (id new))) [
    | inl e ↦ rw e (ground arith)
    | inr e ↦ rw e (
        Holds-map_option _ (◌∷◌ x) (replace id new xs) (replace-Holds new xs)
          (λ ys h. ap (◌∷◌ (id x)) h))
  ]

  module _ (key : A → Text) where
    -- Replacing keeps every key of which the new item has the value of the old one.
    replace_found-Holds :
        (new old : A) (xs : List A)
        → find id (id new) xs ≡ some old
        → key new ≡ key old
        → Holds (λ ys. map key ys ≡ map key xs) (replace id new xs)
    unfolding find replace
    replace_found-Holds new old [] f e = tt
    replace_found-Holds new old (x ∷ xs) f e = elim (Bool-cases (same (id x) (id new))) [
      | inl h ↦ rw h (ground arith)
      | inr h ↦ rw h (
          Holds-map_option _ (◌∷◌ x) (replace id new xs)
            (replace_found-Holds new old xs (ground arith) e) (λ ys p. ap (◌∷◌ (key x)) p))
    ]

    remove-Holds :
        (i : Text) (xs : List A)
        → AllDistinct (map key xs)
        → Holds
            (λ ys.
              AllDistinct (map key ys)
              × ((k : Text) → Absent k (map key xs) → Absent k (map key ys)))
            (remove id i xs)
    unfolding remove
    remove-Holds i [] d = tt
    remove-Holds i (x ∷ xs) d = elim (Bool-cases (same (id x) i)) [
      | inl h ↦ rw h (d.1, λ k a. a.1)
      | inr h ↦ rw h (
          Holds-map_option _ (◌∷◌ x) (remove id i xs) (remove-Holds i xs d.1)
            (λ ys p. ((p.1 (key x) d.0, p.0), λ k a. (a.0, p.1 k a.1))))
    ]

    pub map-replace_found :
        (new old : A) (xs : List A) {ys : List A}
        → find id (id new) xs ≡ some old
        → key new ≡ key old
        → replace id new xs ≡ some ys
        → map key ys ≡ map key xs
    map-replace_found new old xs f e h = rw h at (replace_found-Holds new old xs f e)

    pub AllDistinct-remove :
        (i : Text) (xs : List A) {ys : List A}
        → remove id i xs ≡ some ys
        → AllDistinct (map key xs)
        → AllDistinct (map key ys)
    AllDistinct-remove i xs {ys} h d =
        let r : AllDistinct (map key ys)
            × ((k : Text) → Absent k (map key xs) → Absent k (map key ys)) =
          rw h at (remove-Holds i xs d) in
        r.0

  pub map-replace :
      (new : A) (xs : List A) {ys : List A} → replace id new xs ≡ some ys → map id ys ≡ map id xs
  map-replace new xs h = rw h at (replace-Holds new xs)

  module _ (name : A → Text) where
    abbrev names : List A → List Text
    names = map (λ x. fold (name x))

    pub clashes-Absent :
        (new : A) (xs : List A)
        → clashes id name new xs ≡ false
        → Absent (id new) (map id xs) × Absent (fold (name new)) (names xs)
    unfolding clashes
    clashes-Absent new [] h = (tt, tt)
    clashes-Absent new (x ∷ xs) h =
        let rest = clashes-Absent new xs (ground arith) in
        ((ground arith, rest.0), (ground arith, rest.1))

    -- A successful `update` names no other item's name, and leaves the identifiers as they were.
    abbrev Updated : A → List A → Result (Bool × List A) → Type 0
    Updated new xs (err e) = Unit {0}
    Updated new xs (ok (found, ys)) =
        (map id ys ≡ map id xs)
        × (Absent (id new) (map id xs) → (ys ≡ xs) × Absent (fold (name new)) (names xs))
        × ((k : Text) → k ≢ fold (name new) → Absent k (names xs) → Absent k (names ys))
        × (AllDistinct (map id xs) → AllDistinct (names xs) → AllDistinct (names ys))

    replaced-Updated :
        (new x : A) (xs : List A) (r : Result (Bool × List A))
        → Updated new xs r
        → id x ≡ id new
        → Updated new (x ∷ xs) (do (_, ys) ← r; ok (true, new ∷ ys))
    replaced-Updated new x xs (err e) u h = tt
    replaced-Updated new x xs (ok (f, ys)) u h = (
      cc (u.0),
      λ a. absurd (a.0 h),
      λ k n a. (λ e. n (sym e), u.2 k n a.1),
      λ d e.
          let a : Absent (id new) (map id xs) = rw h at (d.0) in
          let p = u.1 a in (rw p.0 p.1, u.3 d.1 e.1),
    )

    passed-Updated :
        (new x : A) (xs : List A) (r : Result (Bool × List A))
        → Updated new xs r
        → fold (name x) ≢ fold (name new)
        → Updated new (x ∷ xs) (do (found, ys) ← r; ok (found, x ∷ ys))
    passed-Updated new x xs (err e) u h = tt
    passed-Updated new x xs (ok (f, ys)) u h = (
      ap (◌∷◌ (id x)) (u.0),
      λ a. let p = u.1 a.1 in (ap (◌∷◌ x) p.0, (h, p.1)),
      λ k n a. (a.0, u.2 k n a.1),
      λ d e. (u.2 (fold (name x)) h e.0, u.3 d.1 e.1),
    )

    update-Updated : (new : A) (xs : List A) → Updated new xs (update id name new xs)
    unfolding update
    update-Updated new [] = (refl, λ a. (refl, tt), λ k n a. tt, λ d e. tt)
    update-Updated new (x ∷ xs) = elim (text_dec (id x) (id new)) [
      | yes p ↦ rw (found p) (replaced-Updated new x xs _ (update-Updated new xs) p)
      | no p ↦ elim (text_dec (fold (name x)) (fold (name new))) [
        | yes q ↦ rw (missed p, found q) tt
        | no q ↦ rw (missed p, missed q) (passed-Updated new x xs _ (update-Updated new xs) q)
      ]
    ]

    -- A successful update keeps the identifiers, and keeps the names distinct.
    pub map-update :
        (new : A) (xs : List A) {found : Bool} {ys : List A}
        → update id name new xs ≡ ok (found, ys)
        → map id ys ≡ map id xs
    map-update new xs {found} {ys} h =
        let u : Updated new xs (ok (found, ys)) = rw h at (update-Updated new xs) in u.0

    pub AllDistinct-update :
        (new : A) (xs : List A) {found : Bool} {ys : List A}
        → update id name new xs ≡ ok (found, ys)
        → AllDistinct (map id xs)
        → AllDistinct (names xs)
        → AllDistinct (names ys)
    AllDistinct-update new xs {found} {ys} h =
        let u : Updated new xs (ok (found, ys)) = rw h at (update-Updated new xs) in u.3
