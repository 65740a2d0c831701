-- ===== src/Auth/Handler.antt =====
-- internal/auth/handler.go: Register, Login, Logout and Me.
pub mod RoundTrip
pub mod Refusals
use pairly.Prelude.{
  ℕ, zero, suc, ◌+◌, ◌-◌, ◌*◌, ◌≤◌, ◌<◌, String, ◌≡◌, refl, sym, ap, subst, ◌∙◌, ◌≢◌, ◌↔◌, ◌⊎◌, inl,
  inr, Bool, true, false, not, ◌&&◌, ◌||◌, Option, none, some, List, [], ◌∷◌, ◌++◌, map, arith, ltb,
  leb, if◌then◌else◌, Comparable, string_eq, nat_eq, Bool-cases, ◌==◌, ==_iff, ==_refl,
  Option-cases, length, keep, any, find, update, All, length-append, All-keep, All-append,
}
use pairly.Text.{rune_count, trim_space}
use pairly.Outcome.{Outcome, row, no_rows, failed, hang}
use pairly.Postgres.Schema.{User}
use pairly.Postgres.Users.{create_user, get_user_by_email, get_user_by_id}
use pairly.World.Env.{Env}
use pairly.World.Message.{Response, respond, Body}
use pairly.World.State.{World, query}
use pairly.World.Action.{Result, ok, stop, hangs, Action, pure, attempt, stop_if, ◌>>=◌, ◌>>◌}
use pairly.Rooms.Shared.{fail, said, bind}
use pairly.Auth.Tokens.{
  Crypto, SetCookie, clear_token, hash_password, check_password, issue_or_stop,
}

-- A response with the cookies that it sets.
pub record Reply : Type 0 where
  pub response : Response
  pub cookies : List SetCookie

abbrev pub reply : Response → List SetCookie → Reply
reply response cookies = record { response = response; cookies = cookies }

pub record RegisterRequest : Type 0 where
  pub email : String
  pub name : String
  pub password : String

-- binding:"required,email", "required,min=2,max=255" and "required,min=8"
unfoldable pub valid_register : Env → RegisterRequest → Bool
valid_register env r =
    not (r.email == "")
    && env.is_email r.email
    && leb 2 (rune_count r.name)
    && leb (rune_count r.name) 255
    && leb 8 (rune_count r.password)

pub record LoginRequest : Type 0 where
  pub email : String
  pub password : String

unfoldable pub valid_login : Env → LoginRequest → Bool
valid_login env r = not (r.email == "") && env.is_email r.email && leb 1 (rune_count r.password)

abbrev pub clean_email : Env → String → String
clean_email env email = env.to_lower (trim_space email)

-- The two tests after GetUserByEmail in Register.
unfoldable pub none_existing : Outcome User → Result (Unit {0})
none_existing (row u) = stop (fail 409 "email already registered")
none_existing no_rows = ok tt
none_existing failed = stop (fail 500 "database error")
none_existing hang = hangs

unfoldable pub reject_existing : String → Action (Unit {0})
reject_existing email w = let (o, w') = query (get_user_by_email email) w in (none_existing o, w')

unfoldable pub hash_or_stop : Crypto → String → Action String
hash_or_stop crypto password w = (
  elim (hash_password crypto password w) [
    | none ↦ stop (fail 500 "could not hash password")
    | some hashed ↦ ok hashed
  ],
  w,
)

unfoldable pub user_body : Env → User → Body
user_body env u = Body.user u.id u.email u.name (some (env.format_time u.created_at))

-- Register
unfoldable pub register_user : Env → Crypto → Option RegisterRequest → Action Reply
register_user env crypto body = do
  req ← bind (valid_register env) body
  reject_existing (clean_email env req.email)
  hashed ← hash_or_stop crypto req.password
  user ←
      attempt (fail 500 "could not create user")
        (query (create_user (clean_email env req.email) (trim_space req.name) hashed))
  cookie ← issue_or_stop crypto user.id user.email
  pure (reply (respond 201 (user_body env user)) (cookie ∷ []))

abbrev pub no_password : Crypto → String → User → Bool
no_password crypto password u = elim u.password_hash [
  | none ↦ true
  | some hashed ↦ not (check_password crypto password hashed)
]

-- Login
unfoldable pub login : Env → Crypto → Option LoginRequest → Action Reply
login env crypto body = do
  req ← bind (valid_login env) body
  user ←
      attempt (fail 401 "invalid email or password")
        (query (get_user_by_email (clean_email env req.email)))
  stop_if (no_password crypto req.password user) (fail 401 "invalid email or password")
  cookie ← issue_or_stop crypto user.id user.email
  pure (reply (respond 200 (user_body env user)) (cookie ∷ []))

-- Logout
unfoldable pub logout : Action Reply
logout = pure (reply (said "logged out") (clear_token ∷ []))

-- Me, behind RequireAuth
unfoldable pub me : ℕ → Action Response
me user_id = do
  user ← attempt (fail 401 "user not found") (query (get_user_by_id user_id))
  pure (respond 200 (Body.user user.id user.email user.name none))
