-- ===== src/Base/Options.antt =====
-- `Option.map`, open to every tactic.
use mathlib.Core.Option.{Option, none, some}

abbrev pub map_option {ℓ κ} : {A : Type ℓ} {B : Type κ} → (A → B) → Option A → Option B
map_option f none = none
map_option f (some a) = some (f a)

-- `P` holds of the value, if there is one.
abbrev pub Holds {ℓ κ} : {A : Type ℓ} → (A → Type κ) → Option A → Type κ
Holds P none = Unit
Holds P (some a) = P a

pub Holds-map_option {ℓ κ} :
    {A B : Type ℓ} {P : A → Type κ} (Q : B → Type κ) (f : A → B) (o : Option A)
    → Holds P o
    → ((a : A) → P a → Q (f a))
    → Holds Q (map_option f o)
Holds-map_option Q f none h g = tt
Holds-map_option Q f (some a) h g = g a h
