-- ===== src/Redis.antt =====
-- src/redis/redis.service.ts: the commands that it sends to Redis on keys that hold text, and the
-- methods over them. Times are milliseconds, the expiry of a key is given in seconds.
pub mod Memory
pub mod Methods
pub mod Presence
pub mod Throttle
mod Tests
use meridian_backend.Prelude.{
  ℕ, ◌+◌, ◌*◌, ◌≤◌, String, Bool, true, false, Option, none, some, ◌≡◌, is_some, ltb, if◌then◌else◌,
  ◌==◌, ◌&&◌,
}

-- A key: the prefix of its family, and the id behind it.
pub data Key : Type 0 where
  lock proposal blacklist : ℕ → Key

abbrev pub same_key : Key → Key → Bool
same_key (lock a) (lock b) = a == b
same_key (proposal a) (proposal b) = a == b
same_key (blacklist a) (blacklist b) = a == b
same_key _ _ = false

-- What is left at time `t` of a value with an expiry of `seconds` from `now`.
abbrev pub until : ℕ → ℕ → ℕ → Option String → Option String
until now seconds t value = if ltb t (now + seconds * 1000) then value else none

-- Redis: GET, SET with EX, SET with NX and EX, EXISTS, EXPIRE, GETDEL and DEL, each at a time.
pub record Redis : Type 1 where
  pub State : Type 0
  pub get : ℕ → Key → State → Option String
  pub set_ex : ℕ → Key → String → ℕ → State → State
  pub set_nx_ex : ℕ → Key → String → ℕ → State → Bool × State
  pub exists : ℕ → Key → State → ℕ
  pub expire : ℕ → Key → ℕ → State → State
  pub get_del : ℕ → Key → State → Option String × State
  pub del : ℕ → Key → State → State

-- What the commands are documented to do, as what GET finds at a time `t` from then on.
pub record IsLawful (R : Redis) : Type 0 where
  pub get_mono : (t u : ℕ) (k : Key) (s : R.State) → t ≤ u → R.get t k s ≡ none → R.get u k s ≡ none
  pub get-set_ex :
      (now t : ℕ) (k j : Key) (v : String) (seconds : ℕ) (s : R.State)
      → now ≤ t
      → R.get t j (R.set_ex now k v seconds s)
        ≡ (if same_key j k then until now seconds t (some v) else R.get t j s)
  pub set_nx_ex-free :
      (now : ℕ) (k : Key) (v : String) (seconds : ℕ) (s : R.State)
      → R.get now k s ≡ none
      → R.set_nx_ex now k v seconds s ≡ (true, R.set_ex now k v seconds s)
  pub set_nx_ex-taken :
      (now : ℕ) (k : Key) (v w : String) (seconds : ℕ) (s : R.State)
      → R.get now k s ≡ some w
      → R.set_nx_ex now k v seconds s ≡ (false, s)
  pub exists-get :
      (now : ℕ) (k : Key) (s : R.State)
      → R.exists now k s ≡ (if is_some (R.get now k s) then 1 else 0)
  pub get-expire :
      (now t : ℕ) (k j : Key) (seconds : ℕ) (s : R.State)
      → now ≤ t
      → R.get t j (R.expire now k seconds s)
        ≡ (if same_key j k then until now seconds t (R.get now k s) else R.get t j s)
  pub get_del-get : (now : ℕ) (k : Key) (s : R.State) → (R.get_del now k s).0 ≡ R.get now k s
  pub get_del-del : (now : ℕ) (k : Key) (s : R.State) → (R.get_del now k s).1 ≡ R.del now k s
  pub get-del :
      (now t : ℕ) (k j : Key) (s : R.State)
      → now ≤ t
      → R.get t j (R.del now k s) ≡ (if same_key j k then none else R.get t j s)

module _ (R : Redis) where
  -- A value that is not positive is an expiry in the past: `exp - now` stops at 0 here.
  unfoldable pub blacklist_token : ℕ → ℕ → ℕ → R.State → R.State
  blacklist_token now jti ttl_seconds s =
      if ttl_seconds == 0 then s else R.set_ex now (blacklist jti) "1" ttl_seconds s

  unfoldable pub is_token_blacklisted : ℕ → ℕ → R.State → Bool
  is_token_blacklisted now jti s = R.exists now (blacklist jti) s == 1

  unfoldable pub try_acquire_lock : ℕ → Key → ℕ → R.State → Bool × R.State
  try_acquire_lock now key ttl_seconds s = R.set_nx_ex now key "1" ttl_seconds s

  unfoldable pub stage_proposal : ℕ → ℕ → String → ℕ → R.State → R.State
  stage_proposal now proposal_id value ttl_seconds s =
      R.set_ex now (proposal proposal_id) value ttl_seconds s

  -- `peekProposal` once it has read the value.
  abbrev pub refresh : ℕ → ℕ → ℕ → Option String → R.State → R.State
  refresh now proposal_id ttl_seconds none s = s
  refresh now proposal_id ttl_seconds (some value) s =
      R.expire now (proposal proposal_id) ttl_seconds s

  unfoldable pub peek_proposal : ℕ → ℕ → ℕ → R.State → Option String × R.State
  peek_proposal now proposal_id ttl_seconds s =
      let value = R.get now (proposal proposal_id) s in
      (value, refresh now proposal_id ttl_seconds value s)

  unfoldable pub consume_proposal : ℕ → ℕ → R.State → Option String × R.State
  consume_proposal now proposal_id s = R.get_del now (proposal proposal_id) s

  unfoldable pub delete_proposal : ℕ → ℕ → R.State → R.State
  delete_proposal now proposal_id s = R.del now (proposal proposal_id) s
