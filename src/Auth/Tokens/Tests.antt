-- ===== src/Auth/Tokens/Tests.antt =====
-- Tests of the sessions of src/auth, and their theorems at concrete inputs, on the Redis of
-- Redis/Memory.antt and with a verifier that knows one token.
use mathlib.Core.Bool.{true≢false}
use meridian_backend.Prelude.{
  ℕ, ◌/◌, ◌<◌, String, Bool, true, false, Option, none, some, ◌⊎◌, inl, inr, ◌≡◌, ◌∙◌, ap, sym,
  refl, subst, get_or, is_ok, ltb, if◌then◌else◌, arith, Bool-cases,
}
use meridian_backend.Samples.{shared}
use meridian_backend.Auth.{JwtClaims}
use meridian_backend.Redis.{is_token_blacklisted}
use meridian_backend.Redis.Memory.{memory, memory-IsLawful, no_keys}
use meridian_backend.Auth.Tokens.{
  JwtPayload, AuthenticatedUser, Verifier, IsVerifier, can_activate, logout, issue_new_jwt,
}
use meridian_backend.Auth.Tokens.Revoked.{logout-can_activate, issue_new_jwt-once}

abbrev payload : JwtPayload
payload = record { user_id = some 1; email = some "ada@example.com"; jti = some 40; exp = some 100 }

abbrev ada : AuthenticatedUser
ada = record { user_id = 1; email = "ada@example.com"; jti = 40; exp = some 100 }

-- Any header carries the token of this payload.
abbrev verifier : Verifier
verifier t none = inl "No auth token"
verifier t (some header) = if ltb (t / 1000) 100 then inr payload else inl "jwt expired"

abbrev or_payload : String ⊎ JwtPayload → JwtPayload
or_payload (inl m) = payload
or_payload (inr p) = p

abbrev is_inr : String ⊎ JwtPayload → Bool
is_inr (inl m) = false
is_inr (inr p) = true

verified :
    (t : ℕ) (header : Option String) (p : JwtPayload)
    → verifier t header ≡ inr p
    → (t / 1000 < 100) × (payload ≡ p)
verified t none p h = absurd (true≢false (sym (ap is_inr h)))
verified t (some header) p h = elim (Bool-cases (ltb (t / 1000) 100)) [
  | inl early ↦ (
    ground (arith, early),
    ap or_payload (sym (ap (λ b. if b then inr payload else inl "jwt expired") early) ∙ h),
  )
  | inr late ↦
      absurd (
        true≢false
          (ap is_inr (sym h ∙ ap (λ b. if b then inr payload else inl "jwt expired") late)))
]

verifier-IsVerifier : IsVerifier verifier
verifier-IsVerifier = record {
  same_payload = λ t u header p q h k. sym (verified t header p h).1 ∙ (verified u header q k).1;
  refused_from_exp = λ t header p exp h e.
      subst (λ o. t / 1000 < get_or o 0) (ap (λ p'. p'.exp) (verified t header p h).1 ∙ e)
        (verified t header p h).0;
}

logout-can_activate_example :
    is_ok
      (can_activate memory verifier false 9000 (some "token") (logout memory 5000 ada no_keys).1)
    ≡ false
unfolding can_activate logout is_token_blacklisted
logout-can_activate_example =
    logout-can_activate memory-IsLawful verifier-IsVerifier 5000 9000 (some "token") ada no_keys
      refl refl (omega arith)

abbrev sign : JwtClaims → Option String
sign claims = some claims.email

issue_new_jwt-once_example :
    (is_ok (
        can_activate memory verifier false 9000
          (some "token")
          (issue_new_jwt memory sign 5000 41 ada shared no_keys).1)
      ≡ false)
    × (is_ok
          (issue_new_jwt memory sign 9000 42 ada shared
            (issue_new_jwt memory sign 5000 41 ada shared no_keys).1).0
        ≡ false)
unfolding can_activate issue_new_jwt is_token_blacklisted
issue_new_jwt-once_example =
    issue_new_jwt-once memory-IsLawful verifier-IsVerifier sign 5000 9000 41 42 (some "token") ada
      shared shared no_keys "ada@example.com" refl refl (omega arith)
