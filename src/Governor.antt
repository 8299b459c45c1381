-- ===== src/Governor.antt =====
-- internal/resourceguard/governor.go: how many operations, or reads, may run under the pressure on
-- the host. The floating-point numbers of Go are a parameter; an `int` is a natural number, 0 standing
-- for those below it too.
pub mod Capacity
pub mod Slots
pub mod Waiting
use k8s_panel.Base.{
  ℕ, ◌+◌, ◌-◌, ◌/◌, Bool, true, false, ◌&&◌, ◌||◌, not, Option, none, some, List, [], ◌∷◌,
  if◌then◌else◌, ltb, leb, ◌==◌, ◌≡◌, runes,
}
use k8s_panel.Domain.{Result, ok, err, other}
use Prim.Native.Nat.{max}

-- `float64`: the tests that the code makes; `max` of two numbers reaches a bound exactly where one of
-- them does.
pub record Floats : Type 1 where
  pub Float : Type 0
  pub zero_float : Float
  pub one_float : Float
  pub is_nan : Float → Bool
  pub is_inf : Float → Bool
  pub float_le : Float → Float → Bool
  pub float_lt : Float → Float → Bool
  pub float_max : Float → Float → Float
  pub le-max :
      (c a b : Float)
      → is_nan a ≡ false
      → is_nan b ≡ false
      → float_le c (float_max a b) ≡ (float_le c a || float_le c b)

pub data Pressure : Type 0 where
  pressure_unknown pressure_normal pressure_constrained pressure_critical : Pressure

pub record Sample (F : Type 0) : Type 0 where
  pub memory_ratio : Option F
  pub load_ratio : Option F

pub record Snapshot (F : Type 0) : Type 0 where
  pub adaptive : Bool
  pub pressure : Pressure
  pub memory_ratio : Option F
  pub load_ratio : Option F
  pub active_operations : ℕ
  pub operation_limit : ℕ
  pub maximum_operations : ℕ
  pub sampled_at : ℕ

-- `Config` without the sampler and the clock, whose answers are arguments of the operations.
pub record Config (F : Type 0) : Type 0 where
  pub enabled : Bool
  pub max_concurrent : ℕ
  pub high_watermark : F
  pub critical_watermark : F
  pub retry_interval : ℕ

pub record Governor (F : Type 0) : Type 0 where
  pub enabled : Bool
  pub max_concurrent : ℕ
  pub high_watermark : F
  pub critical_watermark : F
  pub retry_interval : ℕ
  pub active : ℕ

-- The body of the `once` that a granted slot hands out.
unfoldable pub give_back : {F : Type 0} → Governor F → Governor F
give_back g = if ltb 0 g.active then record g { active = g.active - 1 } else g

module _ (floats : Floats) where
  open floats use {Float, zero_float, one_float, is_nan, is_inf, float_le, float_lt, float_max}

  unfoldable pub new : Config Float → Result (Governor Float)
  unfolding runes
  new c =
      if ltb c.max_concurrent 1
      then err (other (runes "maximum concurrent operations must be positive"))
      else if float_le c.high_watermark zero_float || float_le one_float c.high_watermark
      then err (other (runes "high watermark must be between zero and one"))
      else if float_le c.critical_watermark c.high_watermark
          || float_lt one_float c.critical_watermark
      then err (other (runes "critical watermark must be above the high watermark and at most one"))
      else ok (record {
        enabled = c.enabled;
        max_concurrent = c.max_concurrent;
        high_watermark = c.high_watermark;
        critical_watermark = c.critical_watermark;
        retry_interval = if c.retry_interval == 0 then 2_000_000_000 else c.retry_interval;
        active = 0;
      })

  unfoldable pub safe_ratio : Option Float → Option Float
  safe_ratio none = none
  safe_ratio (some v) = if is_nan v || is_inf v || float_lt v zero_float then none else some v

  unfoldable pub maximum_ratio : Option Float → Option Float → Option Float
  maximum_ratio none right = right
  maximum_ratio (some l) none = some l
  maximum_ratio (some l) (some r) = some (float_max l r)

  -- `capacity` past the tests of whether it adapts and whether a ratio is known.
  unfoldable pub graded : Governor Float → Float → Pressure × ℕ
  graded g maximum =
      if float_le g.critical_watermark maximum
      then (pressure_critical, 0)
      else if float_le g.high_watermark maximum
      then (pressure_constrained, max 1 ((g.max_concurrent + 1) / 2))
      else (pressure_normal, g.max_concurrent)

  unfoldable pub capacity : Governor Float → Option Float → Option Float → Pressure × ℕ
  unfolding graded maximum_ratio
  capacity g memory load =
      if not g.enabled
      then (pressure_normal, g.max_concurrent)
      else elim (maximum_ratio memory load) [
        | none ↦ (pressure_unknown, g.max_concurrent)
        | some maximum ↦ graded g maximum
      ]

  unfoldable pub snapshot : Governor Float → Sample Float → ℕ → Snapshot Float
  snapshot g sample now =
      let memory = safe_ratio sample.memory_ratio in
      let load = safe_ratio sample.load_ratio in
      let (pressure, limit) = capacity g memory load in
      record {
        adaptive = g.enabled;
        pressure = pressure;
        memory_ratio = memory;
        load_ratio = load;
        active_operations = g.active;
        operation_limit = limit;
        maximum_operations = g.max_concurrent;
        sampled_at = now;
      }

  -- `TryAcquire`, with whether it granted a slot.
  unfoldable pub try_acquire :
      Governor Float → Sample Float → ℕ → Governor Float × Snapshot Float × Bool
  try_acquire g sample now =
      let s = snapshot g sample now in
      if leb s.operation_limit g.active
      then (g, s, false)
      else (record g { active = g.active + 1 }, record s { active_operations = g.active + 1 }, true)
