-- ===== src/Store/Items.antt =====
-- The loops of internal/store/file.go over a slice whose items carry an identifier.
pub mod Keys
use k8s_panel.Base.{
  Bool, true, false, ◌||◌, Text, same, equal_fold, List, [], ◌∷◌, Option, none, some, if◌then◌else◌,
}
use k8s_panel.Base.{map_option}
use k8s_panel.Domain.{Result, ok, err, conflict, ◌>>=◌}

module _ {A : Type 0} (id : A → Text) where
  -- `for _, item := range items { if item.ID == key { return item } }`
  unfoldable pub find : Text → List A → Option A
  find key [] = none
  find key (x ∷ xs) = if same (id x) key then some x else find key xs

  -- The items with the first one of that identifier replaced; `none` where there is none.
  unfoldable pub replace : A → List A → Option (List A)
  replace new [] = none
  replace new (x ∷ xs) =
      if same (id x) (id new) then some (new ∷ xs) else map_option (λ ys. x ∷ ys) (replace new xs)

  -- The items without the first one of that identifier; `none` where there is none.
  unfoldable pub remove : Text → List A → Option (List A)
  remove key [] = none
  remove key (x ∷ xs) =
      if same (id x) key then some xs else map_option (λ ys. x ∷ ys) (remove key xs)

  unfoldable pub contains : Text → List A → Bool
  contains key [] = false
  contains key (x ∷ xs) = same (id x) key || contains key xs

  module _ (name : A → Text) where
    -- Is an identifier or a name, up to its case, taken?
    unfoldable pub clashes : A → List A → Bool
    clashes new [] = false
    clashes new (x ∷ xs) =
        (same (id x) (id new) || equal_fold (name x) (name new)) || clashes new xs

    -- The loop of `UpdateCluster` and `UpdateRepository`: every item of the identifier is replaced,
    -- an item of another identifier with the new name is a conflict; and whether one was found.
    unfoldable pub update : A → List A → Result (Bool × List A)
    update new [] = ok (false, [])
    update new (x ∷ xs) =
        if same (id x) (id new)
        then (do (_, ys) ← update new xs; ok (true, new ∷ ys))
        else if equal_fold (name x) (name new)
        then err conflict
        else (do (found, ys) ← update new xs; ok (found, x ∷ ys))
