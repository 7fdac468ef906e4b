-- ===== src/Auth/Accounts.antt =====
-- The way of a new account through `signup`, `verifyEmail` and `login` of src/auth/auth.service.ts.
use meridian_backend.Prelude.{
  ℕ, ◌≤◌, String, Bool, true, false, none, some, [], ◌∷◌, ◌++◌, ok, ◌≡◌, refl, ◌∙◌, arith,
  find_where, find_where-append, find_where-update_where, update_where, ==_refl, str_eq_iff, ltb,
}
use meridian_backend.Schema.{User, Database}
use meridian_backend.Users.{has_id, has_email, safe_user_columns}
use meridian_backend.Auth.{
  AuthConfig, Secret, expires_after, new_user, set_verified, update_users, signup, verify_email,
  login,
}

module _ (verify : String → String → Bool) (hash : Secret → String) (config : AuthConfig)
    (id now : ℕ) (token : Secret) (email first_name last_name : String) (password : Secret)
    (db : Database) (unknown : find_where (has_email email) db.users ≡ none) where
  abbrev created : User
  created = new_user verify hash config id now token email first_name last_name password

  abbrev signed_up : Database
  signed_up = record db { users = db.users ++ created ∷ [] }

  signup-creates :
      signup verify hash config id now token email first_name last_name password db
      ≡ (ok (safe_user_columns created), signed_up)
  unfolding signup
  signup-creates = rw unknown (rw unknown refl)

  found_created : find_where (has_email email) signed_up.users ≡ some created
  found_created =
      find_where-append (has_email email) db.users (created ∷ []) unknown
      ∙ rw ((str_eq_iff email email).1 refl) refl

  found_verified :
      (later : ℕ)
      → find_where (has_email email) (update_where (has_id id) (set_verified later) signed_up.users)
        ≡ some (set_verified later created)
  found_verified later =
      find_where-update_where (has_email email) (has_id id) (set_verified later) (λ a. refl)
        signed_up.users created found_created
      ∙ rw (==_refl id) refl

  verify_email-verifies :
      (later : ℕ)
      → later ≤ expires_after now config.email_verification_token_expiry_hours
      → verify token.value (hash token) ≡ true
      → verify_email verify hash config later email token.value signed_up ≡ (
        ok (safe_user_columns (set_verified later created), false),
        update_users (has_id id) (set_verified later) signed_up,
      )
  unfolding verify_email
  verify_email-verifies later in_time law = rw (found_created, past, law) refl
    where
      past : ltb (expires_after now config.email_verification_token_expiry_hours) later ≡ false
      past = ground (arith, in_time)

  -- An account whose address is new and that is signed up can log in with its password once its
  -- token, used before it expires, has verified the address; if a value verifies against its own
  -- hash.
  pub signup-login :
      (law : (s : Secret) → verify s.value (hash s) ≡ true) (later last jti : ℕ) (fresh : Secret)
      → later ≤ expires_after now config.email_verification_token_expiry_hours
      → (login verify hash config last jti fresh email password.value
          (verify_email verify hash config later email token.value
            (signup verify hash config id now token email first_name last_name password db).1).1).0
        ≡ ok (record { user_id = id; email = email; jti = jti })
  unfolding login
  signup-login law later last jti fresh in_time =
      rw
        (
          signup-creates,
          verify_email-verifies later in_time (law token),
          found_verified later,
          law password,
        )
        refl
