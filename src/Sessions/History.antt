-- ===== src/Sessions/History.antt =====
-- internal/auth/session.go: the sessions against the history of the calls, which knows no clean-up.
use k8s_panel.Base.{
  ℕ, ◌≤◌, ◌≡◌, refl, Bool, Option, none, some, List, [], ◌∷◌, arith, ltb, if◌then◌else◌, Text, same,
  is_empty,
}
use k8s_panel.Domain.{Result, ok, err}
use k8s_panel.Domain.{unauthorized}
use k8s_panel.Sessions.{
  Principal, Sessions, Manager, insert, delete, remove_expired, login, authenticate, logout,
}

pub data Call : Type 0 where
  logs_in : Result Bool → Result Text → ℕ → ℕ → Text → Call
  authenticates : ℕ → Text → Call
  logs_out : Text → Call

-- A session that is in force at a time.
abbrev pub in_force : ℕ → Option Principal → Option Principal
in_force now none = none
in_force now (some p) = if ltb now p.expires_at then some p else none

module _ (digest : Text → Text) where
  unfoldable pub step : Call → Manager → Manager
  unfolding login authenticate logout
  step (logs_in verified random now later username) m =
      (login digest verified random now later username m).0
  step (authenticates now token) m = (authenticate digest now token m).0
  step (logs_out token) m = logout digest token m

  -- What the history says of a digest, with no clean-up: the last session granted to it, unless it
  -- was given up since.
  unfoldable pub note : Call → Manager → Sessions → Sessions
  note (logs_in verified random now later username) m h k =
      elim (login digest verified random now later username m).1 [
        | ok (token, p) ↦ if same (digest token) k then some p else h k
        | err e ↦ h k
      ]
  note (authenticates now token) m h k = h k
  note (logs_out token) m h k = if same (digest token) k then none else h k

  -- The latest reading of the clock in a call.
  abbrev pub clock : Call → ℕ → ℕ
  clock (logs_in verified random now later username) t = later
  clock (authenticates now token) t = now
  clock (logs_out token) t = t

  -- From a time on the map and the history agree on what is in force.
  abbrev pub Agrees : ℕ → Sessions → Sessions → Type 0
  Agrees t m h = (k : Text) (now : ℕ) → t ≤ now → in_force now (m k) ≡ in_force now (h k)

  step-Agrees :
      (c : Call) (m : Manager) (h : Sessions) (t : ℕ)
      → t ≤ clock c t
      → Agrees t m.sessions h
      → Agrees (clock c t) (step c m).sessions (note c m h)
  unfolding step note insert delete remove_expired
  step-Agrees (logs_in verified random now later username) m h t le a k n l = ground (arith, a k n)
  step-Agrees (authenticates now token) m h t le a k n l = ground (arith, a k n)
  step-Agrees (logs_out token) m h t le a k n l = ground (arith, a k n)

  unfoldable pub run : List Call → Manager → Manager
  run [] m = m
  run (c ∷ cs) m = run cs (step c m)

  unfoldable pub history : List Call → Manager → Sessions → Sessions
  history [] m h = h
  history (c ∷ cs) m h = history cs (step c m) (note c m h)

  abbrev pub last_clock : List Call → ℕ → ℕ
  last_clock [] t = t
  last_clock (c ∷ cs) t = last_clock cs (clock c t)

  -- The clock does not go backwards.
  abbrev pub Monotone : List Call → ℕ → Type 0
  Monotone [] t = Unit {0}
  Monotone (c ∷ cs) t = (t ≤ clock c t) × Monotone cs (clock c t)

  run-Agrees :
      (cs : List Call) (m : Manager) (h : Sessions) (t : ℕ)
      → Monotone cs t
      → Agrees t m.sessions h
      → Agrees (last_clock cs t) (run cs m).sessions (history cs m h)
  unfolding run history
  run-Agrees [] m h t o a = a
  run-Agrees (c ∷ cs) m h t o a =
      run-Agrees cs (step c m) (note c m h) (clock c t) o.1 (step-Agrees c m h t o.0 a)

  abbrev pub authenticated : Option Principal → Result Principal
  authenticated none = err unauthorized
  authenticated (some p) = ok p

  authenticate-in_force :
      (now : ℕ) (token : Text) (m : Manager)
      → (authenticate digest now token m).1 ≡ (
          if is_empty token
          then err unauthorized
          else authenticated (in_force now (m.sessions (digest token))))
  unfolding authenticate
  authenticate-in_force now token m = ground arith

  -- After any run of calls under a clock that does not go backwards, and no earlier than its last
  -- reading, a token is accepted exactly where it is not empty and the last session that its
  -- digest got, in the run or before it, was neither signed out since nor has run out; and then
  -- as the principal of that session.
  pub authenticate-run :
      (cs : List Call) (m : Manager) (t now : ℕ) (token : Text)
      → Monotone cs t
      → last_clock cs t ≤ now
      → (authenticate digest now token (run cs m)).1 ≡ (
          if is_empty token
          then err unauthorized
          else authenticated (in_force now (history cs m m.sessions (digest token))))
  authenticate-run cs m t now token o l =
      let a = run-Agrees cs m m.sessions t o (λ k n _. refl) (digest token) now l in
      rw (← a) (authenticate-in_force now token (run cs m))
