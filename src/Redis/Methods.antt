-- ===== src/Redis/Methods.antt =====
-- The revocation list and the locks of src/redis/redis.service.ts.
pub mod Proposals
use mathlib.Core.Bool.{true≢false}
use meridian_backend.Prelude.{
  ℕ, ◌+◌, ◌*◌, ◌≤◌, ◌<◌, Bool, true, false, Option, none, some, ◌≡◌, ◌∙◌, ap, sym, refl, ltb, leb,
  if◌then◌else◌, ◌==◌, ◌||◌, arith, is_some, ==_refl, String, Bool-cases, Option-cases, not, inl,
  inr,
}
use meridian_backend.Redis.{
  Key, lock, proposal, blacklist, Redis, IsLawful, same_key, until, blacklist_token,
  is_token_blacklisted, try_acquire_lock,
}

pub same_key_refl : (k : Key) → same_key k k ≡ true
same_key_refl (lock a) = ==_refl a
same_key_refl (proposal a) = ==_refl a
same_key_refl (blacklist a) = ==_refl a

module _ {R : Redis} (laws : IsLawful R) where
  -- What GET finds under the key that was just set.
  pub get-set_ex_self :
      (now t : ℕ) (k : Key) (v : String) (seconds : ℕ) (s : R.State)
      → now ≤ t
      → R.get t k (R.set_ex now k v seconds s) ≡ until now seconds t (some v)
  get-set_ex_self now t k v seconds s le =
      laws.get-set_ex now t k k v seconds s le ∙ rw same_key_refl refl

  exists-until :
      (b : Bool) (v : String) → ((if is_some (if b then some v else none) then 1 else 0) == 1) ≡ b
  exists-until true v = refl
  exists-until false v = refl

  -- A token that is put on the revocation list is on it for the given number of seconds.
  pub is_token_blacklisted-blacklist_token :
      (now t jti ttl_seconds : ℕ) (s : R.State)
      → now ≤ t
      → t < now + ttl_seconds * 1000
      → is_token_blacklisted R t jti (blacklist_token R now jti ttl_seconds s) ≡ true
  unfolding is_token_blacklisted blacklist_token
  is_token_blacklisted-blacklist_token now t jti ttl_seconds s le before =
      elim (Bool-cases (ttl_seconds == 0)) [
        | inl zero ↦ ground arith
        | inr e ↦ rw e (
            ap (λ n. n == 1)
              (laws.exists-get t (blacklist jti) _
                ∙ ap (λ o. if is_some o then 1 else 0)
                    (get-set_ex_self now t (blacklist jti) "1" ttl_seconds s le))
            ∙ exists-until _ _
            ∙ ground arith)
      ]

  -- An attempt succeeds where the key is not set.
  set_nx_ex-get :
      (now : ℕ) (k : Key) (v : String) (seconds : ℕ) (s : R.State)
      → (R.set_nx_ex now k v seconds s).0 ≡ not (is_some (R.get now k s))
  set_nx_ex-get now k v seconds s = elim (Option-cases (R.get now k s)) [
    | inl e ↦
        ap (λ p. p.0) (laws.set_nx_ex-free now k v seconds s e) ∙ sym (ap (λ o. not (is_some o)) e)
    | inr (w, e) ↦
        ap (λ p. p.0) (laws.set_nx_ex-taken now k v w seconds s e)
        ∙ sym (ap (λ o. not (is_some o)) e)
  ]

  free :
      (now : ℕ) (k : Key) (v : String) (seconds : ℕ) (s : R.State)
      → (R.set_nx_ex now k v seconds s).0 ≡ true
      → R.get now k s ≡ none
  free now k v seconds s acquired = elim (Option-cases (R.get now k s)) [
    | inl e ↦ e
    | inr (w, e) ↦
        absurd (
          true≢false (sym acquired ∙ set_nx_ex-get now k v seconds s ∙ ap (λ o. not (is_some o)) e))
  ]

  not-is_some-until :
      (t at_ : ℕ) (v : String) → not (is_some (if ltb t at_ then some v else none)) ≡ leb at_ t
  not-is_some-until t at_ v = ground arith

  -- A lock is held by one caller until it expires: once it is acquired, a later attempt gets it from
  -- the time of its expiry on and not before.
  pub try_acquire_lock-try_acquire_lock :
      (now t : ℕ) (k : Key) (ttl ttl' : ℕ) (s : R.State)
      → (try_acquire_lock R now k ttl s).0 ≡ true
      → now ≤ t
      → (try_acquire_lock R t k ttl' (try_acquire_lock R now k ttl s).1).0
        ≡ leb (now + ttl * 1000) t
  unfolding try_acquire_lock
  try_acquire_lock-try_acquire_lock now t k ttl ttl' s acquired le =
      set_nx_ex-get t k "1" ttl' _
      ∙ ap (λ s'. not (is_some (R.get t k s')))
          (ap (λ p. p.1) (laws.set_nx_ex-free now k "1" ttl s (free now k "1" ttl s acquired)))
      ∙ ap (λ o. not (is_some o)) (get-set_ex_self now t k "1" ttl s le)
      ∙ not-is_some-until t _ _
