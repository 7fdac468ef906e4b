-- ===== src/Auth/Tokens/Listed.antt =====
-- What the guard lets through, and the state that a revocation leaves.
use mathlib.Core.Bool.{true≢false}
use meridian_backend.Prelude.{
  ℕ, ◌-◌, ◌/◌, String, Bool, true, false, Option, none, some, ◌⊎◌, inl, inr, ◌≡◌, ap, sym, refl,
  Result, ok, err, arith, leb, if◌then◌else◌, modify, pure, ◌>>◌, ◌>>=◌, Checks-imp, internal_error,
  or_throw, throw_if, is_ok, Checks_cases, or_throw-Checks, throw_if-Checks, OnSuccess, leb,
  or_throw-Checks, unauthorized, get_or,
}
use meridian_backend.Schema.{Database}
use meridian_backend.Users.{SafeUser}
use meridian_backend.Auth.{JwtClaims}
use meridian_backend.Redis.{Redis, blacklist_token, is_token_blacklisted}
use meridian_backend.Auth.Tokens.{
  JwtPayload, AuthenticatedUser, user_of, given, after_validation, authenticate, admit, some_result,
  logout, replace_jwt, replace_unrevoked, replace_unexpired, user_by_id, issue_new_jwt,
}

-- An authenticated user is what validation makes of a payload.
pub authenticate-inr :
    (a : String ⊎ JwtPayload) (u : AuthenticatedUser)
    → authenticate a ≡ ok u
    → (p : JwtPayload) × ((a ≡ inr p) × (authenticate (inr p) ≡ ok u))
authenticate-inr (inl m) u h = absurd (true≢false (sym (ap is_ok h)))
authenticate-inr (inr p) u h = (p, (refl, h))

-- What is in a result, or a default.
abbrev value_or {ℓ} : {A : Type ℓ} → A → Result A → A
value_or d (ok a) = a
value_or d (err e) = d

pub user_of-exp :
    (exp user_id : Option ℕ) (email : Option String) (jti : Option ℕ) (u : AuthenticatedUser)
    → after_validation (user_of exp user_id email jti) ≡ ok u
    → exp ≡ u.exp
user_of-exp exp none email jti u h = absurd (true≢false (sym (ap is_ok h)))
user_of-exp exp (some user_id) none jti u h = absurd (true≢false (sym (ap is_ok h)))
user_of-exp exp (some user_id) (some email) none u h = absurd (true≢false (sym (ap is_ok h)))
user_of-exp exp (some user_id) (some email) (some jti) u h = ap (λ r. (value_or u r).exp) h

admitted :
    (b : Bool) (v u : AuthenticatedUser)
    → some_result (if b then err (unauthorized "Authentication token has been revoked") else ok v)
      ≡ ok (some u)
    → v ≡ u
admitted true v u h = absurd (true≢false (sym (ap is_ok h)))
admitted false v u h = ap (λ r. get_or (value_or none r) u) h

pub given-some : (o : Option ℕ) (exp : ℕ) → given o ≡ some exp → o ≡ some exp
given-some none exp h = h
given-some (some e) exp h = grind arith

pub some_result-ok :
    (R : Redis) (t : ℕ) (s : R.State) (r : Result AuthenticatedUser) (u : AuthenticatedUser)
    → some_result (admit R t s r) ≡ ok (some u)
    → r ≡ ok u
some_result-ok R t s (err e) u h = absurd (true≢false (sym (ap is_ok h)))
some_result-ok R t s (ok v) u h = ap ok (admitted (is_token_blacklisted R t v.jti s) v u h)

-- The state that a revocation at `now` leaves.
abbrev pub Listed : (R : Redis) → ℕ → AuthenticatedUser → R.State → R.State → Type 0
Listed R now u s s' =
    (exp : ℕ) × ((u.exp ≡ some exp) × (s' ≡ blacklist_token R now u.jti (exp - now / 1000) s))

pub logout-Listed :
    (R : Redis) (now : ℕ) (u : AuthenticatedUser) (s : R.State)
    → OnSuccess (Listed R now u s) (logout R now u s)
unfolding logout
logout-Listed R now u s =
    Checks_cases s (λ exp. given u.exp ≡ some exp) (OnSuccess (Listed R now u s))
      (or_throw (given u.exp) (unauthorized "Invalid authentication token"))
      (λ exp. modify (blacklist_token R now u.jti (exp - now / 1000)))
      (or_throw-Checks (given u.exp) _ s) (λ exp h. (exp, (given-some u.exp exp h, refl))) (λ e. tt)

replace_jwt-Listed :
    (R : Redis) (sign : JwtClaims → Option String) (now new_jti exp : ℕ) (u : AuthenticatedUser)
    (user : SafeUser) (s : R.State)
    → u.exp ≡ some exp
    → OnSuccess (Listed R now u s) (replace_jwt R sign now new_jti u.jti exp user s)
replace_jwt-Listed R sign now new_jti exp u user s e =
    Checks_cases s (λ _. Unit) (OnSuccess (Listed R now u s))
      (or_throw (sign _) (internal_error "Token refresh failed"))
      (λ token. modify (blacklist_token R now u.jti (exp - now / 1000)) >> pure token)
      (Checks-imp s _ _ (λ a h. tt) _ (or_throw-Checks (sign _) _ s)) (λ token h. (exp, (e, refl)))
      (λ e. tt)

module _ (R : Redis) (sign : JwtClaims → Option String) (now new_jti : ℕ) (u : AuthenticatedUser)
    (s : R.State) where
  replace_unrevoked-Listed :
      (exp : ℕ) (user : SafeUser)
      → u.exp ≡ some exp
      → OnSuccess (Listed R now u s) (replace_unrevoked R sign now new_jti u.jti exp user s)
  replace_unrevoked-Listed exp user e =
      Checks_cases s (λ _. Unit) (OnSuccess (Listed R now u s))
        (throw_if (is_token_blacklisted R now u.jti s) (unauthorized "Token has been revoked"))
        (λ _. replace_jwt R sign now new_jti u.jti exp user)
        (Checks-imp s _ _ (λ a h. tt) _ (throw_if-Checks _ _ s))
        (λ _ h. replace_jwt-Listed R sign now new_jti exp u user s e) (λ e. tt)

  replace_unexpired-Listed :
      (found : Option SafeUser) (exp : ℕ)
      → u.exp ≡ some exp
      → OnSuccess (Listed R now u s) (replace_unexpired R sign now new_jti u.jti found exp s)
  replace_unexpired-Listed found exp e =
      Checks_cases s (λ _. Unit) (OnSuccess (Listed R now u s))
        (throw_if (leb exp (now / 1000)) (unauthorized "Authentication token has expired"))
        (λ _.
          or_throw found (unauthorized "User not found")
          >>= replace_unrevoked R sign now new_jti u.jti exp)
        (Checks-imp s _ _ (λ a h. tt) _ (throw_if-Checks _ _ s))
        (λ _ h.
          Checks_cases s (λ _. Unit) (OnSuccess (Listed R now u s))
            (or_throw found (unauthorized "User not found"))
            (replace_unrevoked R sign now new_jti u.jti exp)
            (Checks-imp s _ _ (λ a h. tt) _ (or_throw-Checks found _ s))
            (λ user h. replace_unrevoked-Listed exp user e) (λ e. tt))
        (λ e. tt)

  pub issue_new_jwt-Listed :
      (db : Database) → OnSuccess (Listed R now u s) (issue_new_jwt R sign now new_jti u db s)
  unfolding issue_new_jwt
  issue_new_jwt-Listed db =
      Checks_cases s (λ exp. given u.exp ≡ some exp) (OnSuccess (Listed R now u s))
        (or_throw (given u.exp) (unauthorized "Invalid authentication token"))
        (replace_unexpired R sign now new_jti u.jti (user_by_id u.user_id db))
        (or_throw-Checks (given u.exp) _ s)
        (λ exp h. replace_unexpired-Listed _ exp (given-some u.exp exp h)) (λ e. tt)
