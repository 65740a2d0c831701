-- ===== src/Auth/Handler/Refusals.antt =====
-- The error answers of Login in internal/auth/handler.go.
use pairly.Prelude.{
  String, ◌≡◌, refl, ◌⊎◌, inl, inr, true, some, arith, string_eq, nat_eq, Bool-cases, Option-cases,
  find,
}
use pairly.Outcome.{row, no_rows, failed}
use pairly.Postgres.Schema.{User}
use pairly.Postgres.Users.{get_user_by_email, has_email}
use pairly.World.Env.{Env}
use pairly.World.State.{World, query, fault, called}
use pairly.World.Action.{stop, attempt, stop_if, ◌>>=◌}
use pairly.Rooms.Shared.{fail, bind}
use pairly.Auth.Tokens.{Crypto}
use pairly.Auth.Handler.{LoginRequest, valid_login, clean_email, no_password, login}

-- What the query finds: an error, or an account without the password.
query_lem :
    (crypto : Crypto) (email password : String) (w : World)
    → ((u : User)
        → find (has_email email) w.db.users ≡ some u
        → no_password crypto password u ≡ true)
    → ((query (get_user_by_email email) w ≡ (no_rows, called w))
        ⊎ (query (get_user_by_email email) w ≡ (failed, called w)))
      ⊎ ((u : User) × (query (get_user_by_email email) w ≡ (row u, called w))
          × (no_password crypto password u ≡ true))
unfolding query get_user_by_email
query_lem crypto email password w h = elim (Bool-cases (fault w)) [
  | inl e ↦ inl (inr (ground arith))
  | inr e ↦ elim (Option-cases (find (has_email email) w.db.users)) [
    | inl n ↦ inl (inl (ground arith))
    | inr (u, s) ↦ elim (Option-cases u.password_hash) [
      | inl n ↦ inl (inr (ground arith))
      | inr (p, q) ↦ inr (u, ground arith, h u s)
    ]
  ]
]

-- A Login with a valid body, for an address of no account or with a password that is not the
-- account's, answers 401 with one and the same message and sets no cookie, whether or not the
-- query fails; it changes nothing of the world but the count of its calls.
pub login-fail :
    (env : Env) (crypto : Crypto) (req : LoginRequest) (w : World)
    → valid_login env req ≡ true
    → ((u : User)
        → find (has_email (clean_email env req.email)) w.db.users ≡ some u
        → no_password crypto req.password u ≡ true)
    → login env crypto (some req) w ≡ (stop (fail 401 "invalid email or password"), called w)
unfolding login bind attempt stop_if ◌>>=◌
login-fail env crypto req w valid wrong =
    elim (query_lem crypto (clean_email env req.email) req.password w wrong) [
      | inl (inl e) ↦ rw (valid, e) refl
      | inl (inr e) ↦ rw (valid, e) refl
      | inr (u, e, p) ↦ rw (valid, e, p) refl
    ]
