-- ===== src/Base/Maps.antt =====
-- A Go map keyed by strings, as the list of its entries in the order in which `range` meets them.
use mathlib.Core.Bool.{Bool, true, false}
use mathlib.Core.Option.{Option, none, some}
use mathlib.Core.Path.{◌≡◌, refl}
use mathlib.Core.List.{List, [], ◌∷◌}
use native.Mathlib.Omega.{arith}
use k8s_panel.Base.Tests.{if◌then◌else◌}
use k8s_panel.Base.Lists.{length}
use k8s_panel.Base.Texts.{Text, same}
use Prim.Native.Nat.{◌+◌, ◌≤◌}

module _ {V : Type 0} where
  unfoldable pub lookup : Text → List (Text × V) → Option V
  lookup k [] = none
  lookup k ((j, v) ∷ m) = if same j k then some v else lookup k m

  -- `delete(m, key)`
  unfoldable pub delete : Text → List (Text × V) → List (Text × V)
  delete k [] = []
  delete k ((j, v) ∷ m) = if same j k then m else (j, v) ∷ delete k m

  -- `m[key] = value`; a new key is met last.
  unfoldable pub store : Text → V → List (Text × V) → List (Text × V)
  store k v [] = (k, v) ∷ []
  store k v ((j, w) ∷ m) = if same j k then (k, v) ∷ m else (j, w) ∷ store k v m

  abbrev pub is_present : Option V → Bool
  is_present none = false
  is_present (some v) = true

  abbrev pub Occurs : Text → List (Text × V) → Type 0
  Occurs k m = is_present (lookup k m) ≡ true

  pub Occurs-here : (k : Text) (v : V) (m : List (Text × V)) → Occurs k ((k, v) ∷ m)
  unfolding lookup
  Occurs-here k v m = ground arith

  pub Occurs-later : (x k : Text) (v : V) (m : List (Text × V)) → Occurs x m → Occurs x ((k, v) ∷ m)
  unfolding lookup
  Occurs-later x k v m h = ground arith

  pub length-delete-le : (k : Text) (m : List (Text × V)) → length (delete k m) ≤ length m
  unfolding delete
  length-delete-le k [] = omega arith
  length-delete-le k ((j, v) ∷ m) = ground (arith, length-delete-le k m)

  pub length-delete :
      (k : Text) (m : List (Text × V))
      → is_present (lookup k m) ≡ true
      → length (delete k m) + 1 ≡ length m
  unfolding delete lookup
  length-delete k [] h = cc
  length-delete k ((j, v) ∷ m) h = ground (arith, length-delete k m)

  pub length-store :
      (k : Text) (v : V) (m : List (Text × V))
      → length (store k v m) ≡ (if is_present (lookup k m) then length m else length m + 1)
  unfolding store lookup
  length-store k v [] = refl
  length-store k v ((j, w) ∷ m) = ground (arith, length-store k v m)

  pub lookup-store :
      (k j : Text) (v : V) (m : List (Text × V))
      → lookup j (store k v m) ≡ (if same k j then some v else lookup j m)
  unfolding store lookup
  lookup-store k j v [] = refl
  lookup-store k j v ((i, w) ∷ m) = ground (arith, lookup-store k j v m)
