-- ===== src/Governor/Capacity.antt =====
-- internal/resourceguard/governor.go: the limit that a governor sets under a sample of the host.
use k8s_panel.Base.{
  ℕ, ◌+◌, ◌/◌, ◌≡◌, inl, inr, Bool, false, not, ◌||◌, Option, none, some, arith, if◌then◌else◌,
  Option-cases,
}
use Prim.Native.Nat.{max}
use k8s_panel.Governor.{Floats, Governor, Sample, safe_ratio, maximum_ratio, capacity, snapshot}

module _ (floats : Floats) where
  open floats use {Float, is_nan, float_le, float_max, le-max}

  -- Does a ratio that is a finite number of at least 0 reach the bound?
  abbrev pub reaches : Float → Option Float → Bool
  reaches c none = false
  reaches c (some v) = float_le c v

  safe_ratio-number :
      (o : Option Float) {v : Float} → safe_ratio floats o ≡ some v → is_nan v ≡ false
  unfolding safe_ratio
  safe_ratio-number none h = cc
  safe_ratio-number (some x) h = ground arith

  reaches-maximum_ratio :
      (c : Float) (m l : Option Float)
      → reaches c (maximum_ratio floats (safe_ratio floats m) (safe_ratio floats l))
        ≡ (reaches c (safe_ratio floats m) || reaches c (safe_ratio floats l))
  unfolding maximum_ratio
  reaches-maximum_ratio c m l = elim (Option-cases (safe_ratio floats m)) [
    | inl e ↦ rw e
    | inr (x, e) ↦ elim (Option-cases (safe_ratio floats l)) [
      | inl e' ↦ rw (e, e') (ground arith)
      | inr (y, e') ↦ rw (e, e') (le-max c x y (safe_ratio-number m e) (safe_ratio-number l e'))
    ]
  ]

  -- The limit of an adaptive governor: 0 where a usable ratio reaches the critical watermark, else
  -- half of the maximum, rounded up, where one reaches the high watermark, else the maximum; of a
  -- governor that does not adapt, the maximum.
  operation_limit-snapshot :
      (g : Governor Float) (sample : Sample Float) (now : ℕ)
      → let memory = safe_ratio floats sample.memory_ratio in
        let load = safe_ratio floats sample.load_ratio in
        (snapshot floats g sample now).operation_limit ≡ (
          if not g.enabled
          then g.max_concurrent
          else if reaches g.critical_watermark memory || reaches g.critical_watermark load
          then 0
          else if reaches g.high_watermark memory || reaches g.high_watermark load
          then max 1 ((g.max_concurrent + 1) / 2)
          else g.max_concurrent)
  unfolding snapshot capacity
  operation_limit-snapshot g sample now = ground (
    arith,
    reaches-maximum_ratio g.critical_watermark sample.memory_ratio sample.load_ratio,
    reaches-maximum_ratio g.high_watermark sample.memory_ratio sample.load_ratio,
  )
