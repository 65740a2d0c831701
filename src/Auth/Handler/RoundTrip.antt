-- ===== src/Auth/Handler/RoundTrip.antt =====
-- Register of internal/auth/handler.go, then Login, then a request with the token.
use pairly.Prelude.{
  ℕ, ◌<◌, String, ◌≡◌, refl, sym, ap, subst, ◌∙◌, inl, inr, Bool, true, false, ◌&&◌, ◌==◌, not,
  none, some, [], ◌∷◌, arith, leb, string_eq, nat_eq, Option-cases, find, find-append_new,
}
use pairly.Text.{rune_count, trim_space}
use pairly.Outcome.{row}
use pairly.Postgres.Schema.{User}
use pairly.Postgres.Users.{create_user, get_user_by_email, has_email}
use pairly.World.Env.{Env}
use pairly.World.Message.{Response, respond}
use pairly.World.State.{World, query, fault, called}
use pairly.World.Action.{ok, pure, attempt, stop_if, ◌>>=◌}
use pairly.World.Action.Inversion.{>>=-ok}
use pairly.Rooms.Shared.{bind}
use pairly.Auth.Tokens.{
  Crypto, Claims, SetCookie, set_token, hash_password, check_password, expiry_of, claims_of,
  issue_token, issue_or_stop, parse_token,
}
use pairly.Auth.Handler.{
  Reply, reply, RegisterRequest, valid_register, valid_login, clean_email, none_existing,
  reject_existing, hash_or_stop, user_body, register_user, no_password, login,
}

ok-injective : {A : Type 0} {a b : A} → ok a ≡ ok b → a ≡ b
ok-injective e = cc

bind_valid :
    {A : Type 0} (valid : A → Bool) (a b : A) (w : World)
    → (bind valid (some a) w).0 ≡ ok b
    → (a ≡ b) × (valid a ≡ true) × ((bind valid (some a) w).1 ≡ w)
unfolding bind
bind_valid valid a b w e = ground arith

reject_found :
    (email : String) (w : World)
    → (reject_existing email w).0 ≡ ok tt
    → (find (has_email email) w.db.users ≡ none) × ((reject_existing email w).1 ≡ called w)
unfolding reject_existing none_existing query get_user_by_email
reject_found email w e = elim (Option-cases (find (has_email email) w.db.users)) [
  | inl n ↦ ground arith
  | inr (u, s) ↦ ground arith
]

hash_found :
    (crypto : Crypto) (password : String) (w : World) (h : String)
    → (hash_or_stop crypto password w).0 ≡ ok h
    → (crypto.hash w.calls password ≡ some h) × ((hash_or_stop crypto password w).1 ≡ w)
unfolding hash_or_stop hash_password
hash_found crypto password w h e = elim (Option-cases (crypto.hash w.calls password)) [
  | inl n ↦ ground arith
  | inr (u, s) ↦ ground arith
]

-- A user that was created is the one that the address finds from then on.
create_found :
    (email name h : String) (b : Response) (w : World) (u : User)
    → find (has_email email) w.db.users ≡ none
    → (attempt b (query (create_user email name h)) w).0 ≡ ok u
    → (find (has_email email) (attempt b (query (create_user email name h)) w).1.db.users ≡ some u)
      × (u.password_hash ≡ some h)
      × (u.email ≡ email)
unfolding attempt query create_user find
create_found email name h b w u n e =
    ground (
      arith,
      find-append_new (has_email email) w.db.users (u ∷ []) n,
      string_eq.same_iff email email,
    )

issue_found :
    (crypto : Crypto) (id : ℕ) (email : String) (w : World) (c : SetCookie)
    → (issue_or_stop crypto id email w).0 ≡ ok c
    → (issue_or_stop crypto id email w).1 ≡ w
unfolding issue_or_stop
issue_found crypto id email w c e = refl

-- What Register has done when it answers with an account.
record IsRegistered (env : Env) (crypto : Crypto) (req : RegisterRequest) (r : Reply) (v : World)
    (u : User) : Type 0 where
  hashed : String
  valid : valid_register env req ≡ true
  salt : ℕ
  hash : crypto.hash salt req.password ≡ some hashed
  found : find (has_email (clean_email env req.email)) v.db.users ≡ some u
  stored : u.password_hash ≡ some hashed
  answer : r.response ≡ respond 201 (user_body env u)

register_found :
    (env : Env) (crypto : Crypto) (req : RegisterRequest) (w : World) (r : Reply)
    → (register_user env crypto (some req) w).0 ≡ ok r
    → (u : User) × IsRegistered env crypto req r (register_user env crypto (some req) w).1 u
unfolding register_user pure
register_found env crypto req w r e =
    let (a, ea, qa, ra) = >>=-ok (bind (valid_register env) (some req)) _ w r e in
    let (same, valid, wa) = bind_valid (valid_register env) req a w ea in
    let (b, eb, qb, rb) = >>=-ok (reject_existing (clean_email env a.email)) _ _ r ra in
    let (free, wb) = reject_found (clean_email env a.email) _ eb in
    let (h, ec, qc, rc) = >>=-ok (hash_or_stop crypto a.password) _ _ r rb in
    let (hash, wc) = hash_found crypto a.password _ h ec in
    let (u, ed, qd, rd) =
      >>=-ok (attempt _ (query (create_user (clean_email env a.email) (trim_space a.name) h))) _ _ r
        rc in
    let (c, ee, qe, re) = >>=-ok (issue_or_stop crypto u.id u.email) _ _ r rd in
    let email = clean_email env a.email in
    let none_found = ap (λ x. find (has_email email) x.db.users) (wc ∙ wb) ∙ free in
    let (found, stored, has) = create_found email (trim_space a.name) h _ _ u none_found ed in
    let last = ap (λ v. v.1) (qa ∙ qb ∙ qc ∙ qd ∙ qe) ∙ issue_found crypto u.id u.email _ c ee in
    subst
      (λ q. (u : User) × IsRegistered env crypto q r (register_user env crypto (some req) w).1 u)
      (sym same)
      (
        u,
        record {
          hashed = h;
          valid = sym (ap (valid_register env) same) ∙ valid;
          salt = _;
          hash = hash;
          found = ap (λ x. find (has_email email) x.db.users) last ∙ found;
          stored = stored;
          answer = ap (λ x. x.response) (ok-injective (sym re));
        },
      )

query_found :
    (email : String) (u : User) (v : World) (h : String)
    → find (has_email email) v.db.users ≡ some u
    → u.password_hash ≡ some h
    → fault v ≡ false
    → query (get_user_by_email email) v ≡ (row u, called v)
unfolding query get_user_by_email
query_found email u v h found stored fine = ground arith

no_password_lem :
    (crypto : Crypto) (password : String) (u : User) (h : String)
    → u.password_hash ≡ some h
    → crypto.compare h password ≡ true
    → no_password crypto password u ≡ false
unfolding check_password
no_password_lem crypto password u h stored same = ground arith

issue_lem :
    (crypto : Crypto) (id : ℕ) (email : String) (w : World) (c : SetCookie)
    → issue_token crypto w.db.now id email ≡ some c
    → issue_or_stop crypto id email w ≡ (ok c, w)
unfolding issue_or_stop
issue_lem crypto id email w c e = ground arith

login_found :
    (env : Env) (crypto : Crypto) (req : RegisterRequest) (u : User) (v : World) (h : String)
    → valid_register env req ≡ true
    → find (has_email (clean_email env req.email)) v.db.users ≡ some u
    → u.password_hash ≡ some h
    → crypto.compare h req.password ≡ true
    → fault v ≡ false
    → (c : SetCookie) → issue_token crypto v.db.now u.id u.email ≡ some c
    → (login env crypto (some (record { email = req.email; password = req.password })) v).0
      ≡ ok (reply (respond 200 (user_body env u)) (c ∷ []))
unfolding login bind valid_login valid_register attempt stop_if pure ◌>>=◌
login_found env crypto req u v h valid found stored same fine c issued =
    let ready : (not (req.email == "") && env.is_email req.email && leb 1 (rune_count req.password))
        ≡ true =
      ground arith in
    let checked = no_password_lem crypto req.password u h stored same in
    rw
      (
        ready,
        query_found (clean_email env req.email) u v h found stored fine,
        checked,
        issue_lem crypto u.id u.email (called v) c issued,
      )
      refl

-- If bcrypt accepts a password against a hash that it made of it, and signing never fails, then
-- after a Register that answers with an account, a Login with the same address and password whose
-- query does not fail answers 200 with the same account and a token. If the token is verified
-- before the time in its claims, to the claims that were signed, then ParseToken gives a request
-- with it the id and the address of the account.
pub login-register_user :
    (env : Env) (crypto : Crypto) (req : RegisterRequest) (w v : World) (r : Reply) (t : ℕ)
    → ((salt : ℕ) (p h : String) → crypto.hash salt p ≡ some h → crypto.compare h p ≡ true)
    → ((c : Claims) → (s : String) × (crypto.sign c ≡ some s))
    → ((c : Claims) (s : String) (now : ℕ)
        → crypto.sign c ≡ some s
        → now < c.expires_at
        → crypto.verify now s ≡ some c)
    → register_user env crypto (some req) w ≡ (ok r, v)
    → fault v ≡ false
    → t < crypto.numeric_date (expiry_of crypto v.db.now)
    → (u : User) × (s : String) × (c : Claims) × (r.response ≡ respond 201 (user_body env u))
      × ((login env crypto (some (record { email = req.email; password = req.password })) v).0
          ≡ ok (
              reply (respond 200 (user_body env u)) (set_token s (expiry_of crypto v.db.now) ∷ [])))
      × (parse_token crypto t (some s) ≡ some c)
      × (c.user_id ≡ u.id)
      × (c.email ≡ u.email)
unfolding issue_token parse_token claims_of
login-register_user env crypto req w v r t checks signs verifies e fine live =
    let (u, done) = register_found env crypto req w r (ap (λ x. x.0) e) in
    let found =
      ap (λ x. find (has_email (clean_email env req.email)) x.1.db.users) (sym e) ∙ done.found in
    let c = claims_of crypto v.db.now u.id u.email in
    let (s, signed) = signs c in
    (
      u,
      s,
      c,
      done.answer,
      login_found env crypto req u v done.hashed done.valid found done.stored
          (checks done.salt req.password done.hashed done.hash) fine
          (set_token s (expiry_of crypto v.db.now)) (ground (arith, signed)),
      verifies c s t signed live,
      refl,
      refl,
    )
