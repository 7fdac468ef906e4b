-- ===== src/Redis/Throttle.antt =====
-- The throttle of src/redis: throttleIncrement of redis.service.ts and the storage of
-- redis-throttler.storage.ts. Times are milliseconds.
pub mod Memory
pub mod Windows
mod Tests
use meridian_backend.Prelude.{
  ℕ, ◌+◌, ◌≤◌, ◌<◌, String, Bool, Option, ◌≡◌, get_or, ltb, if◌then◌else◌, ◌==◌,
}

-- Redis: INCR, PEXPIRE and PTTL on a counter. `hits` is what GET finds at a time, 0 for no key;
-- `pttl` is none for the negative replies.
pub record Counters : Type 1 where
  pub State : Type 0
  pub hits : ℕ → String → State → ℕ
  pub incr : ℕ → String → State → ℕ × State
  pub pexpire : ℕ → String → (ttl : ℕ) → State → State
  pub pttl : ℕ → String → State → Option ℕ

-- What the commands are documented to do, as what is found at a time `t` from then on.
pub record IsLawful (C : Counters) : Type 0 where
  pub incr-hits : (now : ℕ) (k : String) (s : C.State) → (C.incr now k s).0 ≡ C.hits now k s + 1
  pub hits-incr_new :
      (now t : ℕ) (k : String) (s : C.State)
      → now ≤ t
      → C.hits now k s ≡ 0
      → C.hits t k (C.incr now k s).1 ≡ 1
  pub hits-incr_old :
      (now t : ℕ) (k : String) (s : C.State)
      → now ≤ t
      → 0 < C.hits now k s
      → C.hits t k (C.incr now k s).1 ≡ (if C.hits t k s == 0 then 0 else C.hits t k s + 1)
  pub hits-pexpire :
      (now t : ℕ) (k : String) (ttl : ℕ) (s : C.State)
      → now ≤ t
      → C.hits t k (C.pexpire now k ttl s) ≡ (if ltb t (now + ttl) then C.hits now k s else 0)

-- `ThrottlerStorageRecord`
pub record ThrottlerRecord : Type 0 where
  pub total_hits : ℕ
  pub time_to_expire : ℕ
  pub is_blocked : Bool
  pub time_to_block_expire : ℕ

module _ (C : Counters) where
  -- The script: the counter expires a while after its first hit.
  abbrev pub expire_first : ℕ → String → ℕ → ℕ × C.State → ℕ × C.State
  expire_first now key ttl_ms (c, s) = (c, if c == 1 then C.pexpire now key ttl_ms s else s)

  unfoldable pub throttle_increment : ℕ → String → ℕ → C.State → (ℕ × Option ℕ) × C.State
  throttle_increment now key ttl_ms s =
      let (c, s') = expire_first now key ttl_ms (C.incr now key s) in ((c, C.pttl now key s'), s')

  -- `increment`; `Math.max(0, remainingTtlMs)` is 0 for the negative replies of PTTL.
  abbrev pub throttler_record : ℕ → ℕ × Option ℕ → ThrottlerRecord
  throttler_record limit (total_hits, remaining) = record {
    total_hits = total_hits;
    time_to_expire = get_or remaining 0;
    is_blocked = ltb limit total_hits;
    time_to_block_expire = if ltb limit total_hits then get_or remaining 0 else 0;
  }

  unfoldable pub increment : ℕ → String → ℕ → ℕ → C.State → ThrottlerRecord × C.State
  increment now key ttl limit s =
      let r = throttle_increment now key ttl s in (throttler_record limit r.0, r.1)
