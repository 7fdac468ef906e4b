-- ===== src/Redis/Throttle/Memory.antt =====
-- Counters kept with the time when they expire, none for a counter that does not.
use meridian_backend.Prelude.{
  ℕ, ◌+◌, ◌-◌, ◌≤◌, ◌<◌, String, Bool, true, Option, none, some, ◌≡◌, ◌∙◌, ap, refl, ltb,
  if◌then◌else◌, ◌==◌, arith, str_eq, str_eq_iff,
}
use meridian_backend.Redis.Throttle.{Counters, IsLawful}

-- A number of hits, and the expiry.
abbrev pub Table : Type 0
Table = String → ℕ × Option ℕ

abbrev is_live : ℕ → Option ℕ → Bool
is_live t none = true
is_live t (some expires_at) = ltb t expires_at

abbrev live : ℕ → ℕ × Option ℕ → ℕ
live t (n, expiry) = if is_live t expiry then n else 0

abbrev store : String → ℕ × Option ℕ → Table → Table
store k entry s j = if str_eq j k then entry else s j

-- INCR keeps the expiry of a counter that is there.
abbrev increased : ℕ → ℕ × Option ℕ → ℕ × Option ℕ
increased now (n, expiry) =
    if live now (n, expiry) == 0 then (1, none) else (live now (n, expiry) + 1, expiry)

abbrev left : ℕ → Option ℕ → Option ℕ
left now none = none
left now (some expires_at) = if ltb now expires_at then some (expires_at - now) else none

abbrev pub memory : Counters
memory = record {
  State = Table;
  hits = λ now k s. live now (s k);
  incr = λ now k s. (live now (s k) + 1, store k (increased now (s k)) s);
  pexpire = λ now k ttl s. store k (live now (s k), some (now + ttl)) s;
  pttl = λ now k s. left now (s k).1;
}

abbrev pub no_counters : Table
no_counters k = (0, none)

store_self : (k : String) (entry : ℕ × Option ℕ) (s : Table) → store k entry s k ≡ entry
store_self k entry s = rw ((str_eq_iff k k).1 refl) refl

live-increased_new : (now t : ℕ) (e : ℕ × Option ℕ) → live now e ≡ 0 → live t (increased now e) ≡ 1
live-increased_new now t (n, expiry) h = rw h refl

live-increased_old :
    (now t : ℕ) (e : ℕ × Option ℕ)
    → now ≤ t
    → 0 < live now e
    → live t (increased now e) ≡ (if live t e == 0 then 0 else live t e + 1)
live-increased_old now t (n, none) le h = ground arith
live-increased_old now t (n, some expires_at) le h = ground arith

pub memory-IsLawful : IsLawful memory
memory-IsLawful = record {
  incr-hits = λ now k s. refl;
  hits-incr_new = λ now t k s le h.
      ap (live t) (store_self k (increased now (s k)) s) ∙ live-increased_new now t (s k) h;
  hits-incr_old = λ now t k s le h.
      ap (live t) (store_self k (increased now (s k)) s) ∙ live-increased_old now t (s k) le h;
  hits-pexpire =
      λ now t k ttl s le. ap (live t) (store_self k (live now (s k), some (now + ttl)) s);
}
