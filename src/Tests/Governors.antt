-- ===== src/Tests/Governors.antt =====
-- internal/resourceguard/governor.go at concrete states, with percentages for the ratios.
use k8s_panel.Base.{
  ℕ, ◌≤◌, ◌<◌, ◌≡◌, refl, true, false, ◌||◌, none, some, List, [], ◌∷◌, ◌++◌, arith, ltb, leb,
}
use k8s_panel.Domain.{Result, ok, context_canceled}
use k8s_panel.Governor.{Snapshot, give_back, pressure_constrained}
use k8s_panel.Governor.Waiting.{Round, acquire}
use k8s_panel.Governor.Waiting
use Prim.Native.Nat.{max}
use k8s_panel.Governor.{safe_ratio, capacity, Floats, Governor, Sample, snapshot, try_acquire}
use k8s_panel.Governor.Slots.{Event, Slots, tries, releases, run, IsAccounted}
use k8s_panel.Governor.Slots

pub leb-max : (c a b : ℕ) → leb c (max a b) ≡ (leb c a || leb c b)
leb-max c a b = ground arith

abbrev pub percent : Floats
percent = record {
  Float = ℕ;
  zero_float = 0;
  one_float = 100;
  is_nan = λ v. false;
  is_inf = λ v. false;
  float_le = leb;
  float_lt = ltb;
  float_max = max;
  le-max = λ c a b _ _. leb-max c a b;
}

abbrev pub governor : Governor ℕ
governor = record {
  enabled = true;
  max_concurrent = 3;
  high_watermark = 80;
  critical_watermark = 95;
  retry_interval = 1;
  active = 0;
}

abbrev pub busy : Sample ℕ
busy = record { memory_ratio = some 40; load_ratio = some 85 }

-- Two slots are granted and the third is refused; a slot is given back twice.
abbrev history : List (Event ℕ)
history = tries busy 1 ∷ tries busy 2 ∷ tries busy 3 ∷ releases 0 ∷ releases 0 ∷ []

run-IsAccounted_example :
    IsAccounted percent (run percent history (record { governor = governor; handles = [] }))
unfolding Slots.held
run-IsAccounted_example =
    Slots.run-IsAccounted percent history (record { governor = governor; handles = [] })
      (record { counted = refl; bounded = omega arith; positive = omega arith })

abbrev full : Governor ℕ
full = record governor { active = 2 }

-- The first try is refused; then another slot is given back, and the second is granted.
abbrev rounds : List (Round ℕ)
rounds =
    record { sample = busy; now = 4; others = give_back; ended = none }
    ∷ record { sample = busy; now = 5; others = λ g. g; ended = none }
    ∷ []

abbrev granted_snapshot : Snapshot ℕ
granted_snapshot = record {
  adaptive = true;
  pressure = pressure_constrained;
  memory_ratio = some 40;
  load_ratio = some 85;
  active_operations = 2;
  operation_limit = 2;
  maximum_operations = 3;
  sampled_at = 5;
}

waited : (acquire percent rounds full).1 ≡ some (ok granted_snapshot)
unfolding acquire try_acquire snapshot capacity safe_ratio give_back
waited = refl

acquire-ok_example : (2 ≤ 2) × ((acquire percent rounds full).0.active ≡ 2) × (0 < 2)
acquire-ok_example = Waiting.acquire-ok percent rounds full {s = granted_snapshot} waited

-- The first try is refused, and the context ends in the second round, whose try is refused too.
abbrev given_up : List (Round ℕ)
given_up =
    record { sample = busy; now = 4; others = λ g. g; ended = none }
    ∷ record { sample = busy; now = 5; others = λ g. g; ended = some context_canceled }
    ∷ []

acquire-ends_example :
    (rs : List (Round ℕ)) × (r : Round ℕ) × (rest : List (Round ℕ)) × (answer : Result (Snapshot ℕ))
    × (given_up ≡ rs ++ r ∷ rest)
    × Waiting.Waits percent rs full
    × ((acquire percent given_up full).1 ≡ some answer)
    × Waiting.Decides percent r
        (Waiting.after percent rs full)
        answer
        (acquire percent given_up full).0
acquire-ends_example = Waiting.acquire-ends percent given_up full refl
