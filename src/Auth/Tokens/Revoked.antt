-- ===== src/Auth/Tokens/Revoked.antt =====
-- Tokens that were revoked: what the guard and issueNewJwt do with them afterwards.
use meridian_backend.Prelude.{
  ℕ, ◌-◌, ◌/◌, ◌≤◌, ◌<◌, String, false, Option, none, some, ◌⊎◌, inl, inr, ◌≡◌, ◌∙◌, ap, sym, refl,
  ok, err, arith, Bool-cases, leb, if◌then◌else◌, ◌>>◌, ◌>>=◌, or_throw, throw_if, is_ok,
  OnSuccess-ok, leb, unauthorized, get_or,
}
use meridian_backend.Schema.{Database}
use meridian_backend.Users.{SafeUser}
use meridian_backend.Auth.{JwtClaims}
use meridian_backend.Redis.{Redis, IsLawful, blacklist_token}
use meridian_backend.Redis.Methods.{is_token_blacklisted-blacklist_token}
use meridian_backend.Auth.Tokens.{
  JwtPayload, AuthenticatedUser, given, Verifier, IsVerifier, authenticate, admit, some_result,
  can_activate, logout, replace_jwt, replace_unrevoked, replace_unexpired, user_by_id,
  issue_new_jwt,
}
use meridian_backend.Auth.Tokens.Listed.{
  authenticate-inr, user_of-exp, some_result-ok, given-some, logout-Listed, issue_new_jwt-Listed,
}

module _ {R : Redis} where
  -- A token that is on the list for the seconds that are left to it is refused from then on.
  refused_while_listed :
      (laws : IsLawful R) {verifier : Verifier} (sound : IsVerifier verifier) (now t exp : ℕ)
      (header : Option String) (u : AuthenticatedUser) (s s' : R.State)
      → can_activate R verifier false now header s ≡ ok (some u)
      → u.exp ≡ some exp
      → now ≤ t
      → is_ok (
          can_activate R verifier false t header
            (blacklist_token R now u.jti (exp - now / 1000) s'))
        ≡ false
  unfolding can_activate
  refused_while_listed laws {verifier} sound now t exp header u s s' h e le =
      let (p, (found, valid)) =
        authenticate-inr (verifier now header) u (some_result-ok R now s _ u h) in
      go p found valid (verifier t header) refl
    where
      listed : R.State
      listed = blacklist_token R now u.jti (exp - now / 1000) s'

      refuse : t / 1000 < exp → is_ok (some_result (admit R t listed (ok u))) ≡ false
      refuse before =
          ap
            (λ b. is_ok (
              some_result
                (if b then err (unauthorized "Authentication token has been revoked") else ok u)))
            (is_token_blacklisted-blacklist_token laws now t u.jti (exp - now / 1000) s' le
              (omega arith))

      go :
          (p : JwtPayload)
          → verifier now header ≡ inr p
          → authenticate (inr p) ≡ ok u
          → (a : String ⊎ JwtPayload) → verifier t header ≡ a
          → is_ok (some_result (admit R t listed (authenticate a))) ≡ false
      go p found valid (inl m) eq = refl
      go p found valid (inr q) eq =
          let same = sound.same_payload now t header p q found eq in
          ap (λ p'. is_ok (some_result (admit R t listed (authenticate (inr p'))))) (sym same)
          ∙ ap (λ r. is_ok (some_result (admit R t listed r))) valid
          ∙ refuse (
              sound.refused_from_exp t header q exp eq (
                user_of-exp q.exp q.user_id q.email q.jti u
                  (ap (λ p'. authenticate (inr p')) (sym same) ∙ valid)
                ∙ e))

  not_replaced :
      (laws : IsLawful R) (sign : JwtClaims → Option String) (now t exp newer_jti : ℕ)
      (u : AuthenticatedUser) (db : Database) (s : R.State)
      → u.exp ≡ some exp
      → now ≤ t
      → is_ok
          (issue_new_jwt R sign t newer_jti u db
            (blacklist_token R now u.jti (exp - now / 1000) s)).0
        ≡ false
  unfolding issue_new_jwt
  not_replaced laws sign now t exp newer_jti u db s e le = given_cases (given u.exp) (λ exp' h.
      unexpired (user_by_id u.user_id db) exp'
        (ap (λ o. get_or o 0) (sym (given-some u.exp exp' h) ∙ e)))
    where
      listed : R.State
      listed = blacklist_token R now u.jti (exp - now / 1000) s

      revoked :
          (user : SafeUser) (exp' : ℕ)
          → t / 1000 < exp
          → is_ok (replace_unrevoked R sign t newer_jti u.jti exp' user listed).0 ≡ false
      revoked user exp' before =
          ap
            (λ b.
              is_ok
                ((throw_if b (unauthorized "Token has been revoked")
                    >> replace_jwt R sign t newer_jti u.jti exp' user)
                  listed).0)
            (is_token_blacklisted-blacklist_token laws now t u.jti (exp - now / 1000) s le
              (omega arith))

      found_cases :
          (found : Option SafeUser) (exp' : ℕ)
          → t / 1000 < exp
          → is_ok
              ((or_throw found (unauthorized "User not found")
                  >>= replace_unrevoked R sign t newer_jti u.jti exp')
                listed).0
            ≡ false
      found_cases none exp' before = refl
      found_cases (some user) exp' before = revoked user exp' before

      unexpired :
          (found : Option SafeUser) (exp' : ℕ)
          → exp' ≡ exp
          → is_ok (replace_unexpired R sign t newer_jti u.jti found exp' listed).0 ≡ false
      unexpired found exp' same = elim (Bool-cases (leb exp' (t / 1000))) [
        | inl past ↦ simp (past) refl
        | inr later ↦ simp (later) (found_cases found exp' (ground (arith, same, later)))
      ]

      given_cases :
          (o : Option ℕ)
          → ((exp' : ℕ)
              → o ≡ some exp'
              → is_ok
                  (replace_unexpired R sign t newer_jti u.jti
                    (user_by_id u.user_id db)
                    exp'
                    listed).0
                ≡ false)
          → is_ok
              ((or_throw o (unauthorized "Invalid authentication token")
                  >>= replace_unexpired R sign t newer_jti u.jti (user_by_id u.user_id db))
                listed).0
            ≡ false
      given_cases none h = refl
      given_cases (some exp') h = h exp' refl

  -- Once a user has logged out, the guard refuses every later request with the token that it let
  -- through before.
  pub logout-can_activate :
      (laws : IsLawful R) {verifier : Verifier} (sound : IsVerifier verifier) (now t : ℕ)
      (header : Option String) (u : AuthenticatedUser) (s : R.State)
      → can_activate R verifier false now header s ≡ ok (some u)
      → (logout R now u s).0 ≡ ok tt
      → now ≤ t
      → is_ok (can_activate R verifier false t header (logout R now u s).1) ≡ false
  logout-can_activate laws {verifier} sound now t header u s h out le =
      let (exp, (e, listed)) = OnSuccess-ok _ (logout R now u s) tt (logout-Listed R now u s) out in
      ap (λ s'. is_ok (can_activate R verifier false t header s')) listed
      ∙ refused_while_listed laws sound now t exp header u s s h e le

  -- Once a token has been replaced, the guard refuses every later request with it, and it is not
  -- replaced again.
  pub issue_new_jwt-once :
      (laws : IsLawful R) {verifier : Verifier} (sound : IsVerifier verifier)
      (sign : JwtClaims → Option String) (now t new_jti newer_jti : ℕ) (header : Option String)
      (u : AuthenticatedUser) (db db' : Database) (s : R.State) (token : String)
      → can_activate R verifier false now header s ≡ ok (some u)
      → (issue_new_jwt R sign now new_jti u db s).0 ≡ ok token
      → now ≤ t
      → (is_ok (can_activate R verifier false t header (issue_new_jwt R sign now new_jti u db s).1)
          ≡ false)
        × (is_ok
              (issue_new_jwt R sign t newer_jti u db' (issue_new_jwt R sign now new_jti u db s).1).0
            ≡ false)
  issue_new_jwt-once laws {verifier} sound sign now t new_jti newer_jti header u db db' s token h
        done le =
      let (exp, (e, listed)) =
        OnSuccess-ok _ (issue_new_jwt R sign now new_jti u db s) token
          (issue_new_jwt-Listed R sign now new_jti u s db) done in
      (
        ap (λ s'. is_ok (can_activate R verifier false t header s')) listed
            ∙ refused_while_listed laws sound now t exp header u s s h e le,
        ap (λ s'. is_ok (issue_new_jwt R sign t newer_jti u db' s').0) listed
            ∙ not_replaced laws sign now t exp newer_jti u db' s e le,
      )
