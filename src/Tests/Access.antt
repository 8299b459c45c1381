-- ===== src/Tests/Access.antt =====
-- internal/auth/session.go and internal/httpapi/rate_limit.go at concrete states.
use k8s_panel.Base.{
  ◌≡◌, refl, true, none, List, [], ◌∷◌, arith, if◌then◌else◌, Text, runes, text_dec,
}
use k8s_panel.Base.Maps.{lookup}
use k8s_panel.Domain.{ok}
use k8s_panel.Sessions.{Manager, authenticate, login}
use k8s_panel.Sessions.History.{history, note, Call, logs_in, authenticates, logs_out, run}
use k8s_panel.Limiter.{Limiter, blocked}
use k8s_panel.Limiter.Lockout.{fail_all}
use k8s_panel.Limiter.Bounds.{fails, asks, IsBounded}
use k8s_panel.Sessions.History
use k8s_panel.Limiter.Bounds
use k8s_panel.Limiter.Lockout

abbrev hash : Text → Text
hash token = 0 ∷ token

abbrev manager : Manager
manager = record { username = 65 ∷ []; password_hash = []; ttl = 10; sessions = λ d. none }

-- Two sign-ins, at 1 and at 5, and a sign-out of the first.
abbrev calls : List Call
calls =
    logs_in (ok true) (ok (7 ∷ [])) 1 1 (65 ∷ [])
    ∷ logs_in (ok true) (ok (8 ∷ [])) 5 5 (65 ∷ [])
    ∷ logs_out (7 ∷ [])
    ∷ []

authenticate-run_example :
    (authenticate hash 14 (8 ∷ []) (run hash calls manager)).1
    ≡ ok (record { username = 65 ∷ []; role = runes "system-admin"; expires_at = 15 })
unfolding history note text_dec login History.step
authenticate-run_example =
    History.authenticate-run hash calls manager 0 14 (8 ∷ [])
      (omega arith, (omega arith, (omega arith, tt))) (omega arith)

abbrev limiter : Limiter
limiter = record { entries = []; max_failure = 3; window = 100; max_entries = 1 }

-- Three failures in the window: blocked at 50 for another 60 nanoseconds.
blocked-fail_all_example :
    ((blocked 50 (1 ∷ []) (fail_all (1 ∷ []) (10 ∷ 20 ∷ 30 ∷ []) limiter)).2 ≡ true)
    × ((blocked 50 (1 ∷ []) (fail_all (1 ∷ []) (10 ∷ 20 ∷ 30 ∷ []) limiter)).1 ≡ (
        if (blocked 50 (1 ∷ []) (fail_all (1 ∷ []) (10 ∷ 20 ∷ 30 ∷ []) limiter)).2 then 60 else 0))
unfolding lookup
blocked-fail_all_example =
    Lockout.blocked-fail_all (1 ∷ []) 10 (20 ∷ 30 ∷ []) 50 limiter refl
      (omega arith, (omega arith, tt))

abbrev limiter_calls : List Bounds.Call
limiter_calls = fails 1 (1 ∷ []) ∷ fails 2 (2 ∷ []) ∷ asks 3 (1 ∷ []) ∷ []

run-IsBounded_example : IsBounded (Bounds.run limiter_calls limiter)
run-IsBounded_example =
    Bounds.run-IsBounded limiter_calls limiter
      (record { fits = omega arith; positive = omega arith })
