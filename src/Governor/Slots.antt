-- ===== src/Governor/Slots.antt =====
-- internal/resourceguard/governor.go: the slots of a governor over any sequence of calls of
-- `TryAcquire` and of the releases that they handed out, a release called any number of times.
use k8s_panel.Base.{
  ℕ, zero, suc, ◌+◌, ◌≤◌, ◌<◌, ◌≡◌, refl, Bool, true, false, Option, List, [], ◌∷◌, ◌++◌, arith,
  ltb, if◌then◌else◌,
}
use k8s_panel.Governor.{
  Floats, Governor, Sample, safe_ratio, capacity, snapshot, try_acquire, give_back,
}

-- One flag for each release handed out: has its `once` yet to run?
pub record Slots (F : Type 0) : Type 0 where
  pub governor : Governor F
  pub handles : List Bool

pub data Event (F : Type 0) : Type 0 where
  tries : Sample F → ℕ → Event F
  releases : ℕ → Event F

unfoldable pub is_held : ℕ → List Bool → Bool
is_held n [] = false
is_held zero (h ∷ hs) = h
is_held (suc n) (h ∷ hs) = is_held n hs

unfoldable pub spend : ℕ → List Bool → List Bool
spend n [] = []
spend zero (h ∷ hs) = false ∷ hs
spend (suc n) (h ∷ hs) = h ∷ spend n hs

-- How many slots are taken and not given back.
unfoldable pub held : List Bool → ℕ
held [] = 0
held (h ∷ hs) = (if h then 1 else 0) + held hs

held-append : (hs : List Bool) → held (hs ++ true ∷ []) ≡ held hs + 1
unfolding held
held-append [] = refl
held-append (h ∷ hs) = omega (arith, held-append hs)

held-spend : (n : ℕ) (hs : List Bool) → is_held n hs ≡ true → held (spend n hs) + 1 ≡ held hs
unfolding held spend is_held
held-spend n [] e = cc
held-spend zero (h ∷ hs) e = ground arith
held-spend (suc n) (h ∷ hs) e = ground (arith, held-spend n hs e)

module _ (floats : Floats) where
  open floats use {Float}

  unfoldable pub step : Event Float → Slots Float → Slots Float
  step (tries sample now) s =
      let (g, _, granted) = try_acquire floats s.governor sample now in
      record { governor = g; handles = if granted then s.handles ++ true ∷ [] else s.handles }
  step (releases n) s =
      if is_held n s.handles
      then record { governor = give_back s.governor; handles = spend n s.handles }
      else s

  unfoldable pub run : List (Event Float) → Slots Float → Slots Float
  run [] s = s
  run (e ∷ es) s = run es (step e s)

  pub record IsAccounted (s : Slots Float) : Type 0 where
    pub counted : s.governor.active ≡ held s.handles
    pub bounded : s.governor.active ≤ s.governor.max_concurrent
    pub positive : 0 < s.governor.max_concurrent

  capacity-le :
      (g : Governor Float) (m l : Option Float)
      → 0 < g.max_concurrent
      → (capacity floats g m l).1 ≤ g.max_concurrent
  unfolding capacity
  capacity-le g m l p = ground arith

  step-IsAccounted : (e : Event Float) (s : Slots Float) → IsAccounted s → IsAccounted (step e s)
  unfolding step try_acquire snapshot give_back
  step-IsAccounted (tries sample now) s v = ground (
    arith,
    capacity-le s.governor (safe_ratio floats sample.memory_ratio)
        (safe_ratio floats sample.load_ratio),
    held-append s.handles,
  )
  step-IsAccounted (releases n) s v = ground (arith, held-spend n s.handles)

  -- Any sequence of calls keeps this: the governor counts exactly the slots that were granted and
  -- not yet given back, a release that is called again giving nothing back, they are no more than
  -- the maximum, and the maximum is positive.
  pub run-IsAccounted :
      (es : List (Event Float)) (s : Slots Float) → IsAccounted s → IsAccounted (run es s)
  unfolding run
  run-IsAccounted [] s v = v
  run-IsAccounted (e ∷ es) s v = run-IsAccounted es (step e s) (step-IsAccounted e s v)

  -- A slot is granted exactly where fewer are taken than the limit of the moment; the count then
  -- grows by one, and else stays; and the snapshot that is returned shows the count.
  try_acquire_granted :
      (g : Governor Float) (sample : Sample Float) (now : ℕ)
      → let r = try_acquire floats g sample now in
        (r.2 ≡ ltb g.active (snapshot floats g sample now).operation_limit)
        × (r.0.active ≡ (if r.2 then g.active + 1 else g.active))
        × (r.1.active_operations ≡ r.0.active)
  unfolding try_acquire snapshot
  try_acquire_granted g sample now = ground arith
