-- ===== src/Base/Distinct.antt =====
-- Lists of texts in which no text occurs twice, as predicates that compute.
use Prim.Native.Nat.{ℕ, zero, suc}
use mathlib.Core.Path.{◌≡◌, refl, sym}
use mathlib.Core.Logic.{◌≢◌}
use mathlib.Core.List.{List, [], ◌∷◌, ◌++◌, map}
use k8s_panel.Base.Lists.{All, drop}
use k8s_panel.Base.Texts.{Text}

abbrev pub Absent : Text → List Text → Type 0
Absent k = All (λ x. x ≢ k)

abbrev pub AllDistinct : List Text → Type 0
AllDistinct [] = Unit {0}
AllDistinct (k ∷ ks) = Absent k ks × AllDistinct ks

pub Absent-snoc : (k l : Text) (ks : List Text) → Absent k ks → l ≢ k → Absent k (ks ++ l ∷ [])
Absent-snoc k l [] a h = (h, tt)
Absent-snoc k l (x ∷ ks) a h = (a.0, Absent-snoc k l ks a.1 h)

pub AllDistinct-snoc :
    (k : Text) (ks : List Text) → Absent k ks → AllDistinct ks → AllDistinct (ks ++ k ∷ [])
AllDistinct-snoc k [] a d = (tt, tt)
AllDistinct-snoc k (x ∷ ks) a d =
    (Absent-snoc x k ks d.0 (λ e. a.0 (sym e)), AllDistinct-snoc k ks a.1 d.1)

module _ {A : Type 0} (key : A → Text) where
  pub Absent-drop :
      (k : Text) (n : ℕ) (xs : List A) → Absent k (map key xs) → Absent k (map key (drop n xs))
  Absent-drop k zero xs a = a
  Absent-drop k (suc n) [] a = tt
  Absent-drop k (suc n) (x ∷ xs) a = Absent-drop k n xs a.1

  pub AllDistinct-drop :
      (n : ℕ) (xs : List A) → AllDistinct (map key xs) → AllDistinct (map key (drop n xs))
  AllDistinct-drop zero xs d = d
  AllDistinct-drop (suc n) [] d = tt
  AllDistinct-drop (suc n) (x ∷ xs) d = AllDistinct-drop n xs d.1

  pub map-snoc : (xs : List A) (x : A) → map key (xs ++ x ∷ []) ≡ map key xs ++ key x ∷ []
  map-snoc [] x = refl
  map-snoc (y ∷ xs) x = rw (map-snoc xs x)
