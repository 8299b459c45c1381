-- ===== src/Limiter.antt =====
-- internal/httpapi/rate_limit.go: the failures to sign in, counted for each client in a window of
-- time. The map is a list of its entries in the order in which `range` meets them.
pub mod Bounds
pub mod Lockout
use k8s_panel.Base.Maps.{lookup, delete, store, is_present}
use k8s_panel.Base.{
  ℕ, zero, suc, ◌+◌, ◌-◌, ◌*◌, ◌/◌, ◌%◌, ◌^◌, ◌≤◌, ◌<◌, ◌≡◌, refl, sym, ap, ◌∙◌, ◌≢◌, ◌↔◌, ◌⊎◌, inl,
  inr, Bool, true, false, not, ◌&&◌, ◌||◌, Option, none, some, List, [], ◌∷◌, ◌++◌, map, arith,
  ℕ_discrete, ltb, leb, ◌==◌, if◌then◌else◌, holds, Bool-cases, Option-cases, length, take, drop,
  length-append, length-take, length-drop, All, keep, Text, runes, text_dec, same, is_empty, utf8,
  byte_length, is_space, is_control, trim_space, contains_rune, has_prefix, fold, equal_fold,
  Absent, AllDistinct, map_option, Holds,
}

pub record FailureWindow : Type 0 where
  pub count : ℕ
  pub reset_at : ℕ

abbrev pub Entries : Type 0
Entries = List (Text × FailureWindow)

pub record Limiter : Type 0 where
  pub entries : Entries
  pub max_failure : ℕ
  pub window : ℕ
  pub max_entries : ℕ

unfoldable pub new_failure_limiter : ℕ → ℕ → ℕ → Limiter
new_failure_limiter max_failure window max_entries = record {
  entries = [];
  max_failure = max_failure;
  window = window;
  max_entries = max_entries;
}

-- The loop of `evictOldest`, with its two variables.
unfoldable pub oldest : Text → ℕ → Entries → Text
oldest key reset [] = key
oldest key reset ((k, w) ∷ es) =
    let first = is_empty key || ltb w.reset_at reset in
    oldest (if first then k else key) (if first then w.reset_at else reset) es

unfoldable pub evict_oldest : Entries → Entries
evict_oldest es = delete (oldest [] 0 es) es

-- `blocked`: the limiter, how long the client must wait, and whether it must.
unfoldable pub blocked : ℕ → Text → Limiter → Limiter × ℕ × Bool
blocked now key l = elim (lookup key l.entries) [
  | none ↦ (l, 0, false)
  | some w ↦
      if not (ltb now w.reset_at)
      then (record l { entries = delete key l.entries }, 0, false)
      else if ltb w.count l.max_failure
      then (l, 0, false)
      else (l, w.reset_at - now, true)
]

-- Is the window of the entry open?
abbrev pub is_open : ℕ → Option FailureWindow → Bool
is_open now none = false
is_open now (some w) = ltb now w.reset_at

abbrev pub one_more : Option FailureWindow → FailureWindow
one_more none = record { count = 1; reset_at = 0 }
one_more (some w) = record w { count = w.count + 1 }

unfoldable pub failed : ℕ → Text → Limiter → Limiter
failed now key l =
    let entry = lookup key l.entries in
    if is_open now entry
    then record l { entries = store key (one_more entry) l.entries }
    else let room =
        if not (is_present entry) && leb l.max_entries (length l.entries)
        then evict_oldest l.entries
        else l.entries in
      record l { entries = store key (record { count = 1; reset_at = now + l.window }) room }

unfoldable pub reset : Text → Limiter → Limiter
reset key l = record l { entries = delete key l.entries }
