-- ===== src/Auth/Tests.antt =====
-- Tests of src/auth, and its theorems at concrete inputs. The hash used here is the value itself.
use meridian_backend.Prelude.{
  String, Bool, true, ok, err, bad_request, ◌≡◌, refl, arith, str_eq, str_eq_iff,
}
use meridian_backend.Schema.{Database}
use meridian_backend.Samples.{shared, user_one}
use meridian_backend.Auth.{
  AuthConfig, Secret, forgot_password, reset_password, login, signup, verify_email,
}
use meridian_backend.Auth.Accounts.{signup-login}
use meridian_backend.Auth.Resets.{reset_password-once, reset_password-login}

abbrev hash : Secret → String
hash s = s.value

abbrev verify : String → String → Bool
verify value value_hash = str_eq value value_hash

abbrev config : AuthConfig
config = record {
  email_verification_token_expiry_hours = 24;
  password_reset_token_expiry_hours = 1;
}

abbrev secret : String → Secret
secret value = record { value = value; salt = 0 }

-- The first user has asked for a reset.
abbrev asked : Database
asked = (forgot_password verify hash config 80 100 (secret "t") "ada@example.com" shared).1

law : (s : Secret) → verify s.value (hash s) ≡ true
law s = (str_eq_iff s.value s.value).1 refl

succeeds :
    (reset_password verify hash config 200 "ada@example.com" "t" (secret "new") asked).0 ≡ ok tt
unfolding forgot_password reset_password
succeeds = refl

reset_password-once_example :
    (reset_password verify hash config 300 "ada@example.com" "t"
      (secret "other")
      (reset_password verify hash config 200 "ada@example.com" "t" (secret "new") asked).1).0
    ≡ err (bad_request "Password reset token is invalid or expired")
reset_password-once_example =
    reset_password-once verify hash config 200 300 "ada@example.com" "t" "t" (secret "new")
      (secret "other") asked (omega arith) succeeds

reset_password-login_example :
    (login verify hash config 300 9
      (secret "v")
      "ada@example.com"
      "new"
      (reset_password verify hash config 200 "ada@example.com" "t" (secret "new") asked).1).0
    ≡ ok (record { user_id = 1; email = "ada@example.com"; jti = 9 })
unfolding forgot_password
reset_password-login_example =
    reset_password-login verify hash config law 200 300 9 "ada@example.com" "t" (secret "new")
      (secret "v") asked user_one refl refl succeeds

signup-login_example :
    (login verify hash config 300 9
      (secret "v")
      "eve@example.com"
      "pass"
      (verify_email verify hash config 200 "eve@example.com" "t"
        (signup verify hash config 5 100
          (secret "t")
          "eve@example.com"
          "Eve"
          "N"
          (secret "pass")
          shared).1).1).0
    ≡ ok (record { user_id = 5; email = "eve@example.com"; jti = 9 })
signup-login_example =
    signup-login verify hash config 5 100 (secret "t") "eve@example.com" "Eve" "N" (secret "pass")
      shared refl law 200 300 9 (secret "v") (omega arith)
