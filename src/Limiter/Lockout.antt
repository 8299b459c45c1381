-- ===== src/Limiter/Lockout.antt =====
-- internal/httpapi/rate_limit.go: the failures of one client in a window.
use k8s_panel.Base.{
  ℕ, ◌+◌, ◌-◌, ◌<◌, ◌≡◌, refl, false, ◌&&◌, some, List, [], ◌∷◌, arith, ltb, leb, if◌then◌else◌,
  length, All, Text,
}
use k8s_panel.Base.Maps.{lookup, lookup-store}
use k8s_panel.Limiter.{FailureWindow, Limiter, blocked, failed, evict_oldest, is_open}

-- Failures of one client, one after another.
unfoldable pub fail_all : Text → List ℕ → Limiter → Limiter
fail_all key [] l = l
fail_all key (t ∷ ts) l = fail_all key ts (failed t key l)

abbrev counted : ℕ → ℕ → FailureWindow
counted n r = record { count = n; reset_at = r }

failed_open :
    (t : ℕ) (key : Text) (l : Limiter) (n r : ℕ)
    → lookup key l.entries ≡ some (counted n r)
    → t < r
    → (lookup key (failed t key l).entries ≡ some (counted (n + 1) r))
      × ((failed t key l).max_failure ≡ l.max_failure)
unfolding failed
failed_open t key l n r e h = ground (arith, lookup-store key key (counted (n + 1) r) l.entries)

failed_new :
    (t : ℕ) (key : Text) (l : Limiter)
    → is_open t (lookup key l.entries) ≡ false
    → (lookup key (failed t key l).entries ≡ some (counted 1 (t + l.window)))
      × ((failed t key l).max_failure ≡ l.max_failure)
unfolding failed
failed_new t key l e = ground (
  arith,
  lookup-store key key (counted 1 (t + l.window)) l.entries,
  lookup-store key key (counted 1 (t + l.window)) (evict_oldest l.entries),
)

fail_all-count :
    (key : Text) (ts : List ℕ) (l : Limiter) (n r : ℕ)
    → lookup key l.entries ≡ some (counted n r)
    → All (λ t. t < r) ts
    → (lookup key (fail_all key ts l).entries ≡ some (counted (n + length ts) r))
      × ((fail_all key ts l).max_failure ≡ l.max_failure)
unfolding fail_all
fail_all-count key [] l n r e a = (ground arith, refl)
fail_all-count key (t ∷ ts) l n r e a =
    ground (arith, failed_open t key l n r e a.0, fail_all-count key ts (failed t key l) (n + 1) r)

-- A client whose first failure opens a window, and that fails again in it, is blocked exactly while the
-- window lasts and the failures reach the maximum; it is told to wait for the rest of the window.
pub blocked-fail_all :
    (key : Text) (t : ℕ) (ts : List ℕ) (now : ℕ) (l : Limiter)
    → is_open t (lookup key l.entries) ≡ false
    → All (λ u. u < t + l.window) ts
    → let r = blocked now key (fail_all key (t ∷ ts) l) in
      (r.2 ≡ (ltb now (t + l.window) && leb l.max_failure (1 + length ts)))
      × (r.1 ≡ (if r.2 then t + l.window - now else 0))
unfolding fail_all blocked
blocked-fail_all key t ts now l e a =
    let p = failed_new t key l e in
    ground (arith, p, fail_all-count key ts (failed t key l) 1 (t + l.window) p.0 a)
