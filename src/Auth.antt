-- ===== src/Auth.antt =====
-- src/auth/auth.service.ts: accounts and passwords. Hashing (bcrypt)
-- and signing (JWT) are parameters; mail is sent outside the request.
pub mod Resets
pub mod Accounts
pub mod Tokens
mod Tests
use meridian_backend.Prelude.{
  ℕ, ◌+◌, ◌*◌, String, Bool, true, false, not, Option, none, some, List, [], ◌∷◌, ◌++◌, Action,
  Result, ok, err, Exception, pure, gets, modify, or_throw, throw, throw_if, transaction, ◌>>=◌,
  ◌>>◌, bad_request, unauthorized, forbidden, not_found, conflict, internal_error, pg_error,
  find_where, update_where, select_where, is_some, ltb, if◌then◌else◌, ◌==◌, ◌&&◌, ◌||◌, str_eq,
}
use meridian_backend.Schema.{User, ResetToken, Database}
use meridian_backend.ResetTokens.{
  is_active, set_revoked, set_consumed, has_token_id, get_active_tokens_by_user_id,
  revoke_active_tokens_for_user, mark_token_as_consumed, revoke_other_active_tokens_for_user,
  new_reset_token, create_token,
}
use meridian_backend.Users.{
  SafeUser, safe_user_columns, has_id, has_email, get_user_by_email, get_user_credentials_by_email,
}

pub record AuthConfig : Type 0 where
  pub email_verification_token_expiry_hours : ℕ
  pub password_reset_token_expiry_hours : ℕ

abbrev pub expires_after : ℕ → ℕ → ℕ
expires_after now hours = now + hours * 60 * 60 * 1000

-- What a token of a session says.
pub record JwtClaims : Type 0 where
  pub user_id : ℕ
  pub email : String
  pub jti : ℕ

-- A password or a token, and the salt with which bcrypt hashes it.
pub record Secret : Type 0 where
  pub value : String
  pub salt : ℕ

abbrev pub set_password : ℕ → String → User → User
set_password now password_hash u = record u { password_hash = password_hash; updated_at = now }

abbrev pub set_verified : ℕ → User → User
set_verified now u = record u {
  verified_at = some now;
  verification_token_hash = none;
  verification_token_expires_at = none;
  updated_at = now;
}

abbrev pub set_verification : ℕ → String → ℕ → User → User
set_verification now token_hash expires_at u = record u {
  updated_at = now;
  verification_token_hash = some token_hash;
  verification_token_expires_at = some expires_at;
}

abbrev pub update_users : (User → Bool) → (User → User) → Database → Database
update_users p f db = record db { users = update_where p f db.users }

module _ (verify : String → String → Bool) where
  -- The loop over the active tokens.
  abbrev pub matching_token : String → List ResetToken → Option ResetToken
  matching_token token tokens = find_where (λ t. verify token t.token_hash) tokens

  module _ (hash : Secret → String) (config : AuthConfig) where
    -- `forgotPassword`, for an account that is there and verified.
    abbrev pub renew_reset_token : ℕ → ℕ → Secret → ℕ → Database → Database
    renew_reset_token id now token user_id db =
        create_token
          (new_reset_token id now user_id (hash token)
            (expires_after now config.password_reset_token_expiry_hours))
          (revoke_active_tokens_for_user now user_id db)

    abbrev pub forgot_for : ℕ → ℕ → Secret → Option SafeUser → Action Database (Unit {0})
    forgot_for id now token none = pure tt
    forgot_for id now token (some user) =
        if is_some user.verified_at
        then modify (renew_reset_token id now token user.id)
        else pure tt

    unfoldable pub forgot_password : ℕ → ℕ → Secret → String → Action Database (Unit {0})
    forgot_password id now token email = do
      user ← get_user_by_email email
      forgot_for id now token user

    -- The transaction of `resetPassword`.
    abbrev pub apply_reset : ℕ → ℕ → ℕ → String → Database → Database
    apply_reset now user_id token_id password_hash db =
        revoke_other_active_tokens_for_user now user_id token_id (
          mark_token_as_consumed now token_id
            (update_users (has_id user_id) (set_password now password_hash) db))

    unfoldable pub reset_password : ℕ → String → String → Secret → Action Database (Unit {0})
    reset_password now email token new_password = do
      found ← get_user_by_email email
      user ← or_throw found (bad_request "Password reset token is invalid or expired")
      active_tokens ← gets (get_active_tokens_by_user_id now user.id)
      matching ←
          or_throw (matching_token token active_tokens)
            (bad_request "Password reset token is invalid or expired")
      modify (apply_reset now user.id matching.id (hash new_password))

    -- `resendVerificationEmail`, for the account that was found.
    abbrev pub resend_to : ℕ → Secret → String → Option SafeUser → Action Database (Unit {0})
    resend_to now token email none = pure tt
    resend_to now token email (some user) =
        if is_some user.verified_at
        then pure tt
        else modify (
            update_users (has_email email) (
              set_verification now (hash token)
                (expires_after now config.email_verification_token_expiry_hours)))

    unfoldable pub resend_verification_email : ℕ → Secret → String → Action Database (Unit {0})
    resend_verification_email now token email = do
      user ← get_user_by_email email
      resend_to now token email user

    -- `verificationTokenExpiresAt` is there and later than now.
    abbrev pub is_still_valid : ℕ → Option ℕ → Bool
    is_still_valid now none = false
    is_still_valid now (some expires_at) = ltb now expires_at

    -- The branch of `login` for an account that is not verified.
    abbrev pub refuse_unverified : ℕ → Secret → String → User → Action Database JwtClaims
    refuse_unverified now token email u =
        if is_still_valid now u.verification_token_expires_at
        then throw (forbidden "Account not verified. Check your inbox.")
        else do
          resend_verification_email now token email
          throw (forbidden "Account not verified. A new verification link has been sent.")

    -- `login` up to the signing of the claims.
    unfoldable pub login : ℕ → ℕ → Secret → String → String → Action Database JwtClaims
    login now jti token email password = do
      found ← get_user_credentials_by_email email
      u ← or_throw found (unauthorized "Invalid email or password")
      throw_if (not (verify password u.password_hash)) (unauthorized "Invalid email or password")
      (if is_some u.verified_at
          then pure (record { user_id = u.id; email = u.email; jti = jti })
          else refuse_unverified now token email u)

    -- `!expiresAt || expiresAt < now`
    abbrev pub is_past : ℕ → Option ℕ → Bool
    is_past now none = true
    is_past now (some expires_at) = ltb expires_at now

    -- The hash of a token that a request may answer.
    abbrev pub open_token : ℕ → User → Option String
    open_token now u =
        if is_past now u.verification_token_expires_at then none else u.verification_token_hash

    -- `verifyEmail`: the account, and whether it was verified before.
    abbrev pub verify_user : ℕ → String → User → Action Database (SafeUser × Bool)
    verify_user now token u = do
      token_hash ←
          or_throw (open_token now u) (bad_request "Verification token is invalid or expired")
      throw_if (not (verify token token_hash))
          (bad_request "Verification token is invalid or expired")
      modify (update_users (has_id u.id) (set_verified now))
      pure (safe_user_columns (set_verified now u), false)

    unfoldable pub verify_email : ℕ → String → String → Action Database (SafeUser × Bool)
    verify_email now email token = do
      found ← get_user_credentials_by_email email
      u ← or_throw found (not_found "Account not found")
      (if is_some u.verified_at then pure (safe_user_columns u, true) else verify_user now token u)

    -- The row that `signup` inserts.
    abbrev pub new_user : ℕ → ℕ → Secret → String → String → String → Secret → User
    new_user id now token email first_name last_name password = record {
      id = id;
      email = email;
      first_name = first_name;
      last_name = last_name;
      password_hash = hash password;
      verified_at = none;
      verification_token_hash = some (hash token);
      verification_token_expires_at =
          some (expires_after now config.email_verification_token_expiry_hours);
      created_at = now;
      updated_at = now;
    }

    -- The insertion; the unique constraint on the address is error 23505, which `signup` reports as
    -- the conflict that it has checked for before.
    abbrev pub insert_user : User → Action Database SafeUser
    insert_user u db =
        if is_some (find_where (has_email u.email) db.users)
        then (err (conflict "Account already exists, please login"), db)
        else (ok (safe_user_columns u), record db { users = db.users ++ u ∷ [] })

    unfoldable pub signup :
        ℕ → ℕ → Secret → String → String → String → Secret → Action Database SafeUser
    signup id now token email first_name last_name password = do
      existing_user ← get_user_by_email email
      throw_if (is_some existing_user) (conflict "Account already exists, please login")
      insert_user (new_user id now token email first_name last_name password)
