-- ===== src/Auth/Resets.antt =====
-- Password resets: `forgotPassword`, `resetPassword` and `login` of src/auth/auth.service.ts.
use meridian_backend.Prelude.{
  ℕ, ◌≤◌, ◌<◌, String, Bool, true, false, not, some, List, [], ◌∷◌, ◌++◌, Result, ok, err,
  bad_request, ◌≡◌, refl, sym, ap, subst, ◌∙◌, arith, Option-cases, Bool-cases, inl, inr,
  find_where, find_where-update_where, update_where, select_where, select_where-append, is_some,
  ==_refl, if◌then◌else◌, ◌&&◌,
}
use meridian_backend.Schema.{User, ResetToken, Database}
use meridian_backend.Users.{has_id, has_email}
use meridian_backend.Auth.{
  AuthConfig, expires_after, Secret, set_password, matching_token, apply_reset, forgot_password,
  reset_password, login,
}
use meridian_backend.ResetTokens.{
  is_active, set_revoked, set_consumed, has_token_id, get_active_tokens_by_user_id, new_reset_token,
}

-- What `resetPassword` does to one token.
abbrev after_reset : ℕ → ℕ → ℕ → ResetToken → ResetToken
after_reset now user_id token_id t =
    let consumed = if has_token_id token_id t then set_consumed now t else t in
    if not (has_token_id token_id consumed) && is_active now user_id consumed
    then set_revoked now consumed
    else consumed

-- The token used is consumed; another that was active is revoked; one that was not stays inactive.
after_reset-inactive :
    (now later user_id token_id : ℕ) (t : ResetToken)
    → now ≤ later
    → is_active later user_id (after_reset now user_id token_id t) ≡ false
after_reset-inactive now later user_id token_id t le = ground arith

no_active_left :
    (now later user_id token_id : ℕ) (ts : List ResetToken)
    → now ≤ later
    → select_where (is_active later user_id) (
        update_where
          (λ t. not (has_token_id token_id t) && is_active now user_id t)
          (set_revoked now)
          (update_where (has_token_id token_id) (set_consumed now) ts))
      ≡ []
no_active_left now later user_id token_id [] le = refl
no_active_left now later user_id token_id (t ∷ ts) le =
    rw (after_reset-inactive now later user_id token_id t le)
      (no_active_left now later user_id token_id ts le)

revoked-inactive :
    (now user_id : ℕ) (ts : List ResetToken)
    → select_where
        (is_active now user_id)
        (update_where (is_active now user_id) (set_revoked now) ts)
      ≡ []
revoked-inactive now user_id [] = refl
revoked-inactive now user_id (t ∷ ts) = elim (Bool-cases (is_active now user_id t)) [
  | inl active ↦ ground (arith, revoked-inactive now user_id ts)
  | inr idle ↦ ground (arith, revoked-inactive now user_id ts)
]

some-injective : {A : Type 0} {a b : A} → some a ≡ some b → a ≡ b
some-injective h = cc h

module _ (verify : String → String → Bool) (hash : Secret → String) (config : AuthConfig) where
  abbrev reset : ℕ → String → String → Secret → Database → Result (Unit {0}) × Database
  reset now email token new_password =
      reset_password verify hash config now email token new_password

  -- A reset that succeeds has found an account and one of its active tokens.
  reset-cases {ℓ} :
      (P : Result (Unit {0}) × Database → Type ℓ) (now : ℕ) (email token : String) (pw : Secret)
      (db : Database)
      → P (err (bad_request "Password reset token is invalid or expired"), db)
      → ((u : User) (m : ResetToken)
          → find_where (has_email email) db.users ≡ some u
          → P (ok tt, apply_reset verify hash config now u.id m.id (hash pw) db))
      → P (reset now email token pw db)
  unfolding reset_password
  reset-cases P now email token pw db refused done =
      elim (Option-cases (find_where (has_email email) db.users)) [
        | inl nobody ↦ rw nobody refused
        | inr (u, found) ↦
            elim (Option-cases
              (matching_token verify token (get_active_tokens_by_user_id now u.id db))) [
                | inl wrong ↦ rw (found, wrong) refused
                | inr (m, matches) ↦ rw (found, matches) (done u m found)
              ]
      ]

  user_after :
      (now : ℕ) (email password_hash : String) (u : User) (users : List User)
      → find_where (has_email email) users ≡ some u
      → find_where
          (has_email email)
          (update_where (has_id u.id) (set_password now password_hash) users)
        ≡ some (set_password now password_hash u)
  user_after now email password_hash u users found =
      find_where-update_where (has_email email) (has_id u.id) (set_password now password_hash)
        (λ a. refl) users u found
      ∙ rw (==_refl u.id) refl

  module _ (now later : ℕ) (email : String) (pw : Secret) (db : Database) (u : User)
      (found : find_where (has_email email) db.users ≡ some u) where
    reset-refused :
        (token' : String) (pw' : Secret) (m : ResetToken)
        → now ≤ later
        → (reset later email token' pw'
            (apply_reset verify hash config now u.id m.id (hash pw) db)).0
          ≡ err (bad_request "Password reset token is invalid or expired")
    unfolding reset_password
    reset-refused token' pw' m le =
        rw
          (
            user_after now email (hash pw) u db.users found,
            no_active_left now later u.id m.id db.reset_tokens le,
          )
          refl

    login-accepted :
        (jti : ℕ) (fresh : Secret) (m : ResetToken)
        → verify pw.value (hash pw) ≡ true
        → is_some u.verified_at ≡ true
        → (login verify hash config later jti fresh email pw.value
            (apply_reset verify hash config now u.id m.id (hash pw) db)).0
          ≡ ok (record { user_id = u.id; email = u.email; jti = jti })
    unfolding login
    login-accepted jti fresh m law verified =
        rw (user_after now email (hash pw) u db.users found, law, verified) refl

  -- After a reset of a password has succeeded, every later reset for the same address is refused,
  -- with the same token or another one, until a new token is created.
  pub reset_password-once :
      (now later : ℕ) (email token token' : String) (pw pw' : Secret) (db : Database)
      → now ≤ later
      → (reset_password verify hash config now email token pw db).0 ≡ ok tt
      → (reset_password verify hash config later email token' pw'
          (reset_password verify hash config now email token pw db).1).0
        ≡ err (bad_request "Password reset token is invalid or expired")
  reset_password-once now later email token token' pw pw' db le =
      reset-cases
        (λ r.
          r.0 ≡ ok tt
          → (reset later email token' pw' r.1).0
            ≡ err (bad_request "Password reset token is invalid or expired"))
        now email token pw db (λ h. cc h)
        (λ u m found h. reset-refused now later email pw db u found token' pw' m le)

  -- After a reset of a password has succeeded for a verified account, the new password opens it, if
  -- a value verifies against its own hash.
  pub reset_password-login :
      (law : (s : Secret) → verify s.value (hash s) ≡ true) (now later jti : ℕ)
      (email token : String) (pw fresh : Secret) (db : Database) (u : User)
      → find_where (has_email email) db.users ≡ some u
      → is_some u.verified_at ≡ true
      → (reset_password verify hash config now email token pw db).0 ≡ ok tt
      → (login verify hash config later jti fresh email pw.value
          (reset_password verify hash config now email token pw db).1).0
        ≡ ok (record { user_id = u.id; email = u.email; jti = jti })
  reset_password-login law now later jti email token pw fresh db u found verified =
      reset-cases
        (λ r.
          r.0 ≡ ok tt
          → (login verify hash config later jti fresh email pw.value r.1).0
            ≡ ok (record { user_id = u.id; email = u.email; jti = jti }))
        now email token pw db (λ h. cc h)
        (λ u' m found' h.
          subst
            (λ (x : User).
              (login verify hash config later jti fresh email pw.value
                (apply_reset verify hash config now x.id m.id (hash pw) db)).0
              ≡ ok (record { user_id = u.id; email = u.email; jti = jti }))
            (some-injective (sym found ∙ found'))
            (login-accepted now later email pw db u found jti fresh m (law pw) verified))

  -- A request for a reset leaves a verified account with exactly one active token, the new one, if
  -- tokens live for at least an hour.
  pub forgot_password-single :
      (id now : ℕ) (token : Secret) (email : String) (db : Database) (u : User)
      → 0 < config.password_reset_token_expiry_hours
      → find_where (has_email email) db.users ≡ some u
      → is_some u.verified_at ≡ true
      → get_active_tokens_by_user_id now u.id
          (forgot_password verify hash config id now token email db).1
        ≡ new_reset_token id now u.id
            (hash token)
            (expires_after now config.password_reset_token_expiry_hours)
          ∷ []
  unfolding forgot_password
  forgot_password-single id now token email db u lives found verified =
      rw (found, verified)
        (select_where-append (is_active now u.id)
            (update_where (is_active now u.id) (set_revoked now) db.reset_tokens) (made ∷ [])
          ∙ ap (λ ts. ts ++ select_where (is_active now u.id) (made ∷ []))
              (revoked-inactive now u.id db.reset_tokens)
          ∙ ground arith)
    where
      made : ResetToken
      made =
          new_reset_token id now u.id (hash token)
            (expires_after now config.password_reset_token_expiry_hours)
