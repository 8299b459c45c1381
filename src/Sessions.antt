-- ===== src/Sessions.antt =====
-- internal/auth/session.go: the sessions of the administrator. SHA-256, the random tokens and the
-- verifier of passwords are parameters; a clock reading is an argument.
pub mod History
use k8s_panel.Base.{
  ℕ, zero, suc, ◌+◌, ◌-◌, ◌*◌, ◌/◌, ◌%◌, ◌^◌, ◌≤◌, ◌<◌, ◌≡◌, refl, sym, ap, ◌∙◌, ◌≢◌, ◌↔◌, ◌⊎◌, inl,
  inr, Bool, true, false, not, ◌&&◌, ◌||◌, Option, none, some, List, [], ◌∷◌, ◌++◌, map, arith,
  ℕ_discrete, ltb, leb, ◌==◌, if◌then◌else◌, holds, Bool-cases, Option-cases, length, take, drop,
  length-append, length-take, length-drop, All, keep, Text, runes, text_dec, same, is_empty, utf8,
  byte_length, is_space, is_control, trim_space, contains_rune, has_prefix, fold, equal_fold,
  Absent, AllDistinct, map_option, Holds,
}
use k8s_panel.Domain.{Result, ok, err, other, unauthorized, wrapped, Error, ◌>>=◌, ◌>>◌, guard}

pub record Principal : Type 0 where
  pub username : Text
  pub role : Text
  pub expires_at : ℕ

-- The map of sessions, by digest.
abbrev pub Sessions : Type 0
Sessions = Text → Option Principal

pub record Manager : Type 0 where
  pub username : Text
  pub password_hash : Text
  pub ttl : ℕ
  pub sessions : Sessions

-- `24 * time.Hour`
abbrev pub maximum_ttl : ℕ
maximum_ttl = 86_400_000_000_000

unfoldable pub new_session_manager : Text → Text → ℕ → Result Manager
unfolding runes
new_session_manager username password_hash ttl = do
  guard (not (is_empty (trim_space username))) (other (runes "admin username must not be empty"))
  guard (has_prefix password_hash (runes "$argon2id$"))
      (other (runes "admin password hash must use Argon2id"))
  guard (not (ttl == 0 || ltb maximum_ttl ttl))
      (other (runes "session TTL must be between zero and 24 hours"))
  ok (record {
    username = username;
    password_hash = password_hash;
    ttl = ttl;
    sessions = λ d. none;
  })

unfoldable pub insert : Text → Principal → Sessions → Sessions
insert d p m k = if same d k then some p else m k

unfoldable pub delete : Text → Sessions → Sessions
delete d m k = if same d k then none else m k

unfoldable pub remove_expired : ℕ → Sessions → Sessions
remove_expired now m k = elim (m k) [
  | none ↦ none
  | some p ↦ if ltb now p.expires_at then some p else none
]

module _ (digest : Text → Text) where
  -- `verified` is what the verifier answers for the password, `random` the encoded random token,
  -- `now` and `later` the two readings of the clock.
  unfoldable pub login :
      Result Bool → Result Text → ℕ → ℕ → Text → Manager → Manager × Result (Text × Principal)
  unfolding runes
  login verified random now later username m = elim verified [
    | err e ↦ (m, err (wrapped (runes "verify configured password hash") e))
    | ok matched ↦
        if not (same username m.username) || not matched
        then (m, err unauthorized)
        else elim random [
          | err e ↦ (m, err (wrapped (runes "create session token") e))
          | ok token ↦
              let p : Principal = record {
                username = m.username;
                role = runes "system-admin";
                expires_at = now + m.ttl;
              } in
              (
                record m { sessions = insert (digest token) p (remove_expired later m.sessions) },
                ok (token, p),
              )
        ]
  ]

  unfoldable pub authenticate : ℕ → Text → Manager → Manager × Result Principal
  authenticate now token m =
      if is_empty token then (m, err unauthorized) else elim (m.sessions (digest token)) [
        | none ↦ (m, err unauthorized)
        | some p ↦
            if not (ltb now p.expires_at)
            then (record m { sessions = delete (digest token) m.sessions }, err unauthorized)
            else (m, ok p)
      ]

  unfoldable pub logout : Text → Manager → Manager
  logout token m = record m { sessions = delete (digest token) m.sessions }
