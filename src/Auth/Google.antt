-- ===== src/Auth/Google.antt =====
-- GoogleLogin and GoogleCallback of internal/auth/handler.go, on oauth.go.
use pairly.Prelude.{
  String, Bool, true, not, Option, none, some, [], ◌∷◌, if◌then◌else◌, string_eq, nat_eq, ◌==◌,
}
use pairly.Postgres.Users.{upsert_google_user}
use pairly.World.Message.{respond, Body}
use pairly.World.State.{query}
use pairly.World.Action.{Result, ok, stop, hangs, Action, pure, attempt, stop_if, ◌>>=◌, ◌>>◌}
use pairly.Rooms.Shared.{fail}
use pairly.Auth.Tokens.{
  Crypto, GoogleUserInfo, SetCookie, set_oauth_state, clear_oauth_state, issue_or_stop,
}
use pairly.Auth.Handler.{Reply, reply}

-- GoogleLogin
unfoldable pub google_login : Crypto → Action Reply
google_login crypto w = (
  elim (crypto.random_state w.calls) [
    | none ↦ stop (fail 500 "could not generate state")
    | some state ↦
        ok
          (reply (respond 307 (Body.redirect (crypto.auth_url state))) (set_oauth_state state ∷ []))
  ],
  w,
)

-- err != nil || stateCookie != c.Query("state")
abbrev pub bad_state : Option String → String → Bool
bad_state none state = true
bad_state (some cookie) state = not (cookie == state)

unfoldable pub exchange_code : Crypto → String → Action GoogleUserInfo
exchange_code crypto code w = (
  elim (crypto.exchange w.calls code) [
    | none ↦ stop (fail 500 "could not exchange code")
    | some info ↦ ok info
  ],
  w,
)

-- GoogleCallback after the state cookie was cleared.
unfoldable pub callback_code : Crypto → String → Action Reply
callback_code crypto code = do
  stop_if (code == "") (fail 400 "missing code")
  info ← exchange_code crypto code
  user ←
      attempt (fail 500 "could not create user")
        (query (upsert_google_user info.id info.email info.name))
  cookie ← issue_or_stop crypto user.id user.email
  pure (reply (respond 307 (Body.redirect "http://localhost:5173/dashboard")) (cookie ∷ []))

-- The cookie that was set before is sent with an early return too.
unfoldable pub with_cookie : SetCookie → Result Reply → Result Reply
with_cookie cookie (ok r) = ok (reply r.response (cookie ∷ r.cookies))
with_cookie cookie (stop r) = ok (reply r (cookie ∷ []))
with_cookie cookie hangs = hangs

-- GoogleCallback
unfoldable pub google_callback : Crypto → Option String → String → String → Action Reply
google_callback crypto cookie state code w =
    if bad_state cookie state
    then (stop (fail 400 "invalid state"), w)
    else let (r, w') = callback_code crypto code w in (with_cookie clear_oauth_state r, w')
