-- ===== src/Limiter/Bounds.antt =====
-- internal/httpapi/rate_limit.go: the size of the table of failures.
use k8s_panel.Base.Maps.{
  lookup, delete, Occurs, Occurs-here, Occurs-later, length-delete-le, length-delete, length-store,
}
use k8s_panel.Base.{
  ℕ, ◌+◌, ◌≤◌, ◌<◌, ◌≡◌, refl, ◌⊎◌, inl, inr, Bool, true, false, ◌||◌, List, [], ◌∷◌, arith, ltb,
  if◌then◌else◌, length, Text, is_empty,
}
use k8s_panel.Limiter.{
  FailureWindow, Entries, Limiter, oldest, evict_oldest, blocked, failed, reset, one_more,
}

-- The loop ends at a key that it started with or met.
oldest-Occurs :
    (key : Text) (r : ℕ) (es : Entries) → (oldest key r es ≡ key) ⊎ Occurs (oldest key r es) es
unfolding oldest
oldest-Occurs key r [] = inl refl
oldest-Occurs key r ((k, w) ∷ es) =
    pick (is_empty key || ltb w.reset_at r) (oldest-Occurs k w.reset_at es) (oldest-Occurs key r es)
  where
    pick :
        (b : Bool)
        → (oldest k w.reset_at es ≡ k) ⊎ Occurs (oldest k w.reset_at es) es
        → (oldest key r es ≡ key) ⊎ Occurs (oldest key r es) es
        → (oldest (if b then k else key) (if b then w.reset_at else r) es ≡ key)
          ⊎ Occurs (oldest (if b then k else key) (if b then w.reset_at else r) es) ((k, w) ∷ es)
    pick true (inl p) _ = inr (rw p (Occurs-here k w es))
    pick true (inr p) _ = inr (Occurs-later _ k w es p)
    pick false _ (inl p) = inl p
    pick false _ (inr p) = inr (Occurs-later _ k w es p)

-- Of a table that is not empty one entry is evicted.
length-evict_oldest :
    (k : Text) (w : FailureWindow) (es : Entries)
    → length (evict_oldest ((k, w) ∷ es)) + 1 ≡ length ((k, w) ∷ es)
unfolding evict_oldest oldest
length-evict_oldest k w es =
    length-delete (oldest k w.reset_at es) ((k, w) ∷ es) (elim (oldest-Occurs k w.reset_at es) [
      | inl p ↦ rw p (Occurs-here k w es)
      | inr p ↦ Occurs-later _ k w es p
    ])

length-evict_oldest-lt :
    (n : ℕ) (es : Entries) → length es ≤ n → 0 < n → length (evict_oldest es) < n
unfolding evict_oldest oldest delete
length-evict_oldest-lt n [] h p = p
length-evict_oldest-lt n ((k, w) ∷ es) h p = omega (arith, length-evict_oldest k w es)

pub data Call : Type 0 where
  asks fails : ℕ → Text → Call
  resets : Text → Call

unfoldable pub step : Call → Limiter → Limiter
step (asks now key) l = (blocked now key l).0
step (fails now key) l = failed now key l
step (resets key) l = reset key l

unfoldable pub run : List Call → Limiter → Limiter
run [] l = l
run (c ∷ cs) l = run cs (step c l)

pub record IsBounded (l : Limiter) : Type 0 where
  pub fits : length l.entries ≤ l.max_entries
  pub positive : 0 < l.max_entries

failed-IsBounded : (now : ℕ) (key : Text) (l : Limiter) → IsBounded l → IsBounded (failed now key l)
unfolding failed
failed-IsBounded now key l v = ground (
  arith,
  length-store key (one_more (lookup key l.entries)) l.entries,
  length-store key (record { count = 1; reset_at = now + l.window }) l.entries,
  length-store key (record { count = 1; reset_at = now + l.window }) (evict_oldest l.entries),
  length-evict_oldest-lt l.max_entries l.entries,
)

-- From a table with no more entries than its limit, which is positive, any run of calls leads to
-- such a table.
pub run-IsBounded : (cs : List Call) (l : Limiter) → IsBounded l → IsBounded (run cs l)
unfolding run step blocked reset
run-IsBounded [] l v = v
run-IsBounded (asks now key ∷ cs) l v =
    run-IsBounded cs _ (ground (arith, length-delete-le key l.entries))
run-IsBounded (fails now key ∷ cs) l v = run-IsBounded cs _ (failed-IsBounded now key l v)
run-IsBounded (resets key ∷ cs) l v =
    run-IsBounded cs _ (ground (arith, length-delete-le key l.entries))
