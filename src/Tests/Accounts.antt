-- ===== src/Tests/Accounts.antt =====
-- The theorems of accounts and tokens, with a toy cryptography.
use pairly.Prelude.{
  ℕ, zero, suc, String, ◌≡◌, refl, sym, subst, true, none, some, [], ◌∷◌, arith, if◌then◌else◌,
  string_eq, nat_eq, ◌==◌, any, find,
}
use Prim.Native.Char.{code}
use pairly.Text.{trim_space}
use pairly.Postgres.Schema.{User}
use pairly.Postgres.Users.{create_user, get_user_by_email, has_email}
use pairly.World.Message.{respond}
use pairly.World.State.{World, query, called}
use pairly.World.Action.{ok, stop, attempt, pure, ◌>>=◌}
use pairly.Rooms.Shared.{fail, bind}
use pairly.Auth.Tokens.{
  Crypto, Claims, set_token, parse_token, check_password, hash_password, issue_or_stop, issue_token,
  claims_of,
}
use pairly.Auth.Handler.{
  Reply, RegisterRequest, LoginRequest, valid_register, valid_login, reject_existing, none_existing,
  hash_or_stop, user_body, register_user, login, no_password, reply, clean_email,
}
use pairly.Auth.Handler.RoundTrip.{login-register_user}
use pairly.Auth.Handler.Refusals.{login-fail}
use pairly.Tests.Fixtures.{env, world, db}

abbrev wrong : LoginRequest
wrong = record { email = "bob@x.org"; password = "guess" }

-- A token is the three numbers of the claims, in strokes, and the address.
strokes : ℕ → String → String
strokes zero rest = String.◌∷◌ "|" rest
strokes (suc n) rest = String.◌∷◌ "1" (strokes n rest)

read : String → ℕ × String
read String.[] = (0, "")
read (String.◌∷◌ c s) = let (n, rest) = read s in if code c == 49 then (suc n, rest) else (0, s)

read-strokes : (n : ℕ) (s : String) → read (strokes n s) ≡ (n, s)
unfolding read strokes
read-strokes zero s = refl
read-strokes (suc n) s = rw (read-strokes n s) refl

encode : Claims → String
encode c = strokes c.user_id (strokes c.issued_at (strokes c.expires_at c.email))

decode : String → Claims
decode s =
    let (user_id, a) = read s in
    let (issued_at, b) = read a in
    let (expires_at, email) = read b in
    record { user_id = user_id; email = email; issued_at = issued_at; expires_at = expires_at }

decode-encode : (c : Claims) → decode (encode c) ≡ c
unfolding decode encode
decode-encode c =
    rw
      (
        read-strokes c.user_id (strokes c.issued_at (strokes c.expires_at c.email)),
        read-strokes c.issued_at (strokes c.expires_at c.email),
        read-strokes c.expires_at c.email,
      )
      refl

-- The hash of a password is the password.
abbrev toy : Crypto
toy = record {
  hash = λ salt p. some p;
  compare = λ h p. h == p;
  sign = λ c. some (encode c);
  verify = λ now s. some (decode s);
  numeric_date = λ t. t;
  random_state = λ n. some "state";
  auth_url = λ s. s;
  exchange = λ n code. none;
  expiry_hours = 1;
}

some-injective : {A : Type 0} {a b : A} → some a ≡ some b → a ≡ b
some-injective e = cc

abbrev cy : RegisterRequest
cy = record { email = "bob@x.org"; name = "Cy"; password = "correct horse" }

-- Nobody has an account.
abbrev nobody : World
nobody = record world { db = record db { users = [] } }

abbrev cy_row : User
cy_row = record {
  id = 100;
  email = "bob@x.org";
  name = "Cy";
  password_hash = some "correct horse";
  google_id = none;
  created_at = 5;
}

abbrev registered : World
registered = record nobody {
  db = record nobody.db { users = cy_row ∷ []; next_id = 101 };
  calls = 2;
}

abbrev cy_reply : Reply
cy_reply =
    reply (respond 201 (user_body env cy_row))
      (set_token (encode (claims_of toy 5 100 "bob@x.org")) 3600005 ∷ [])

registers : register_user env toy (some cy) nobody ≡ (ok cy_reply, registered)
unfolding register_user bind valid_register reject_existing none_existing query get_user_by_email
    find hash_or_stop hash_password attempt create_user any trim_space issue_or_stop issue_token
    pure ◌>>=◌
registers = refl

login-register_user_example :
    (u : User) × (s : String) × (c : Claims) × (cy_reply.response ≡ respond 201 (user_body env u))
    × ((login env toy
          (some (record { email = "bob@x.org"; password = "correct horse" }))
          registered).0
        ≡ ok (reply (respond 200 (user_body env u)) (set_token s 3600005 ∷ [])))
    × (parse_token toy 7 (some s) ≡ some c)
    × (c.user_id ≡ u.id)
    × (c.email ≡ u.email)
login-register_user_example =
    login-register_user env toy cy nobody registered cy_reply 7
      (λ salt p h e. (string_eq.same_iff h p).1 (ground arith)) (λ c. (encode c, refl))
      (λ c s now e lt. rw (sym (some-injective e), decode-encode c) refl) registers refl
      (omega arith)

-- The address of user 2, with a password that is not his.
wrong_password :
    (u : User)
    → find (has_email (clean_email env "bob@x.org")) db.users ≡ some u
    → no_password toy "guess" u ≡ true
unfolding find trim_space check_password
wrong_password u e = subst (λ v. no_password toy "guess" v ≡ true) (some-injective e) refl

valid_wrong : valid_login env wrong ≡ true
unfolding valid_login
valid_wrong = refl

login-fail_example :
    login env toy (some wrong) world ≡ (stop (fail 401 "invalid email or password"), called world)
login-fail_example = login-fail env toy wrong world valid_wrong wrong_password
