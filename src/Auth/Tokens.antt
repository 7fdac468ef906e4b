-- ===== src/Auth/Tokens.antt =====
-- The sessions of src/auth: logout and issueNewJwt of auth.service.ts, the strategy of
-- strategies/jwt.strategy.ts and the guard of guards/jwt-auth.guard.ts. What passport-jwt and
-- jsonwebtoken find in the header of a request is a parameter.
mod Listed
pub mod Revoked
mod Tests
use mathlib.Core.Option
use meridian_backend.Prelude.{
  ℕ, ◌+◌, ◌-◌, ◌*◌, ◌/◌, ◌<◌, String, Bool, true, false, Option, none, some, ◌⊎◌, inl, inr, ◌≡◌,
  Action, Result, ok, err, Exception, pure, gets, modify, or_throw, throw, throw_if, find_where,
  ◌>>=◌, ◌>>◌, unauthorized, internal_error, leb, if◌then◌else◌, ◌==◌,
}
use meridian_backend.Schema.{Database}
use meridian_backend.Users.{SafeUser, has_id, safe_user_columns}
use meridian_backend.Auth.{JwtClaims}
use meridian_backend.Redis.{Redis, blacklist_token, is_token_blacklisted}

-- The payload of a token; a field that is missing or empty is `none`.
pub record JwtPayload : Type 0 where
  pub user_id : Option ℕ
  pub email : Option String
  pub jti : Option ℕ
  pub exp : Option ℕ

pub record AuthenticatedUser : Type 0 where
  pub user_id : ℕ
  pub email : String
  pub jti : ℕ
  pub exp : Option ℕ

-- A payload with these fields, checked.
abbrev pub user_of : Option ℕ → Option ℕ → Option String → Option ℕ → Result AuthenticatedUser
user_of exp (some user_id) (some email) (some jti) =
    ok (record { user_id = user_id; email = email; jti = jti; exp = exp })
user_of exp _ _ _ = err (unauthorized "Invalid authentication token")

abbrev pub validate : JwtPayload → Result AuthenticatedUser
validate payload = user_of payload.exp payload.user_id payload.email payload.jti

-- `handleRequest`: an error, a user, and what passport says of a refusal.
abbrev pub handle_request :
    Option Exception → Option AuthenticatedUser → Option String → Result AuthenticatedUser
handle_request (some e) user info = err e
handle_request none user (some message) = err (unauthorized message)
handle_request none none none = err (unauthorized "Authentication required")
handle_request none (some user) none = ok user

-- An `exp` that counts as given.
abbrev pub given : Option ℕ → Option ℕ
given none = none
given (some exp) = if exp == 0 then none else some exp

-- What passport-jwt finds at a time in the header of a request: why it refuses, or the payload of
-- the token.
abbrev pub Verifier : Type 0
Verifier = ℕ → Option String → String ⊎ JwtPayload

-- What is documented of it: the payload of a token is always the same, and a token is refused from
-- the second of its `exp` on.
pub record IsVerifier (verifier : Verifier) : Type 0 where
  pub same_payload :
      (t u : ℕ) (header : Option String) (p q : JwtPayload)
      → verifier t header ≡ inr p
      → verifier u header ≡ inr q
      → p ≡ q
  pub refused_from_exp :
      (t : ℕ) (header : Option String) (p : JwtPayload) (exp : ℕ)
      → verifier t header ≡ inr p
      → p.exp ≡ some exp
      → t / 1000 < exp

-- `super.canActivate`: passport runs the strategy, then `handleRequest`.
abbrev pub after_validation : Result AuthenticatedUser → Result AuthenticatedUser
after_validation (ok user) = handle_request none (some user) none
after_validation (err e) = handle_request (some e) none none

abbrev pub authenticate : String ⊎ JwtPayload → Result AuthenticatedUser
authenticate (inl message) = handle_request none none (some message)
authenticate (inr payload) = after_validation (validate payload)

-- `getUserById`
abbrev pub user_by_id : ℕ → Database → Option SafeUser
user_by_id id db = Option.map safe_user_columns (find_where (has_id id) db.users)

-- The user that the guard lets through, none on a public route.
abbrev pub some_result : Result AuthenticatedUser → Result (Option AuthenticatedUser)
some_result (ok user) = ok (some user)
some_result (err e) = err e

module _ (R : Redis) where
  -- `canActivate` behind the test of `@Public`. The user of a strategy always has a `jti`.
  abbrev pub admit : ℕ → R.State → Result AuthenticatedUser → Result AuthenticatedUser
  admit t s (err e) = err e
  admit t s (ok user) =
      if is_token_blacklisted R t user.jti s
      then err (unauthorized "Authentication token has been revoked")
      else ok user

  unfoldable pub can_activate :
      Verifier → Bool → ℕ → Option String → R.State → Result (Option AuthenticatedUser)
  can_activate verifier is_public t header s =
      if is_public then ok none else some_result (admit t s (authenticate (verifier t header)))

  unfoldable pub logout : ℕ → AuthenticatedUser → Action R.State (Unit {0})
  logout now user = do
    exp ← or_throw (given user.exp) (unauthorized "Invalid authentication token")
    modify (blacklist_token R now user.jti (exp - now / 1000))

  -- `issueNewJwt` behind its guards; a failure of the signature is reported.
  abbrev pub replace_jwt :
      (JwtClaims → Option String) → ℕ → ℕ → ℕ → ℕ → SafeUser → Action R.State String
  replace_jwt sign now new_jti jti exp user = do
    token ←
        or_throw (sign (record { user_id = user.id; email = user.email; jti = new_jti }))
          (internal_error "Token refresh failed")
    modify (blacklist_token R now jti (exp - now / 1000))
    pure token

  -- `issueNewJwt` for an account that is there.
  abbrev pub replace_unrevoked :
      (JwtClaims → Option String) → ℕ → ℕ → ℕ → ℕ → SafeUser → Action R.State String
  replace_unrevoked sign now new_jti jti exp user s =
      (throw_if (is_token_blacklisted R now jti s) (unauthorized "Token has been revoked")
          >> replace_jwt sign now new_jti jti exp user)
        s

  -- `issueNewJwt` for a token with an `exp`.
  abbrev pub replace_unexpired :
      (JwtClaims → Option String) → ℕ → ℕ → ℕ → Option SafeUser → ℕ → Action R.State String
  replace_unexpired sign now new_jti jti found exp = do
    throw_if (leb exp (now / 1000)) (unauthorized "Authentication token has expired")
    user ← or_throw found (unauthorized "User not found")
    replace_unrevoked sign now new_jti jti exp user

  unfoldable pub issue_new_jwt :
      (JwtClaims → Option String) → ℕ → ℕ → AuthenticatedUser → Database → Action R.State String
  issue_new_jwt sign now new_jti data_ db = do
    exp ← or_throw (given data_.exp) (unauthorized "Invalid authentication token")
    replace_unexpired sign now new_jti data_.jti (user_by_id data_.user_id db) exp
