-- ===== src/Auth/Tokens.antt =====
-- internal/auth/jwt.go and Password.go, and internal/middleware/auth.go.
use pairly.Prelude.{ℕ, ◌+◌, ◌*◌, String, Bool, Option, none, some, string_eq, nat_eq}
use pairly.World.Message.{Response}
use pairly.World.State.{World}
use pairly.World.Action.{ok, stop, Action}
use pairly.Rooms.Shared.{fail}

pub record Claims : Type 0 where
  pub user_id : ℕ
  pub email : String
  pub issued_at : ℕ
  pub expires_at : ℕ

-- bcrypt, golang-jwt with the secret of the configuration, crypto/rand and Google's servers.
-- `hash` takes the salt's randomness and fails on a password that is too long; `verify` takes the
-- time; `numeric_date` is jwt.NewNumericDate; `exchange` is exchangeCode.
pub record GoogleUserInfo : Type 0 where
  pub id : String
  pub email : String
  pub name : String

pub record Crypto : Type 0 where
  pub hash : ℕ → String → Option String
  pub compare : String → String → Bool
  pub sign : Claims → Option String
  pub verify : ℕ → String → Option Claims
  pub numeric_date : ℕ → ℕ
  pub random_state : ℕ → Option String
  pub auth_url : String → String
  pub exchange : ℕ → String → Option GoogleUserInfo
  pub expiry_hours : ℕ

-- http.SetCookie: the token with the time at which it expires, or its deletion; the same for the
-- state of a Google login.
pub data SetCookie : Type 0 where
  set_token : String → ℕ → SetCookie
  clear_token : SetCookie
  set_oauth_state : String → SetCookie
  clear_oauth_state : SetCookie

-- HashPassword, on the randomness of the moment.
unfoldable pub hash_password : Crypto → String → World → Option String
hash_password crypto plain w = crypto.hash w.calls plain

-- CheckPassword: `true` is no error.
unfoldable pub check_password : Crypto → String → String → Bool
check_password crypto plain hashed = crypto.compare hashed plain

-- time.Now().Add(expiryHours * time.Hour); the clock counts milliseconds.
abbrev pub expiry_of : Crypto → ℕ → ℕ
expiry_of crypto now = now + crypto.expiry_hours * 3600000

unfoldable pub claims_of : Crypto → ℕ → ℕ → String → Claims
claims_of crypto now user_id email = record {
  user_id = user_id;
  email = email;
  issued_at = crypto.numeric_date now;
  expires_at = crypto.numeric_date (expiry_of crypto now);
}

-- IssueToken: the cookie, or none if signing fails.
unfoldable pub issue_token : Crypto → ℕ → ℕ → String → Option SetCookie
issue_token crypto now user_id email = elim (crypto.sign (claims_of crypto now user_id email)) [
  | none ↦ none
  | some signed ↦ some (set_token signed (expiry_of crypto now))
]

-- if err := IssueToken(...); err != nil { 500 }
unfoldable pub issue_or_stop : Crypto → ℕ → String → Action SetCookie
issue_or_stop crypto user_id email w = (
  elim (issue_token crypto w.db.now user_id email) [
    | none ↦ stop (fail 500 "could not issue token")
    | some cookie ↦ ok cookie
  ],
  w,
)

-- ParseToken on the cookie of the request.
unfoldable pub parse_token : Crypto → ℕ → Option String → Option Claims
parse_token crypto now none = none
parse_token crypto now (some raw) = crypto.verify now raw

-- ClearToken
abbrev pub cleared_token : SetCookie
cleared_token = clear_token

-- RequireAuth around a handler that takes the user's id.
unfoldable pub require_auth : Crypto → Option String → (ℕ → Action Response) → Action Response
require_auth crypto cookie handler w = elim (parse_token crypto w.db.now cookie) [
  | none ↦ (stop (fail 401 "unauthorized"), w)
  | some claims ↦ handler claims.user_id w
]
