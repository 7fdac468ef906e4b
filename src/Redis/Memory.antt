-- ===== src/Redis/Memory.antt =====
-- A Redis that keeps, for every key, a value and the time when it expires.
use meridian_backend.Prelude.{
  ℕ, ◌+◌, ◌*◌, ◌≤◌, String, Bool, true, false, Option, none, some, ◌≡◌, refl, is_some, ltb,
  if◌then◌else◌, arith, ap, ◌∙◌,
}
use meridian_backend.Redis.{Key, Redis, IsLawful, same_key, until}

abbrev Table : Type 0
Table = Key → Option (String × ℕ)

abbrev live : ℕ → Option (String × ℕ) → Option String
live t none = none
live t (some (value, expires_at)) = if ltb t expires_at then some value else none

abbrev store : Key → Option (String × ℕ) → Table → Table
store k entry s j = if same_key j k then entry else s j

abbrev with_expiry : ℕ → Option String → Option (String × ℕ)
with_expiry expires_at none = none
with_expiry expires_at (some value) = some (value, expires_at)

abbrev set_free : Option String → ℕ → Key → String → ℕ → Table → Bool × Table
set_free none now k v seconds s = (true, store k (some (v, now + seconds * 1000)) s)
set_free (some _) now k v seconds s = (false, s)

abbrev pub memory : Redis
memory = record {
  State = Table;
  get = λ now k s. live now (s k);
  set_ex = λ now k v seconds s. store k (some (v, now + seconds * 1000)) s;
  set_nx_ex = λ now k v seconds s. set_free (live now (s k)) now k v seconds s;
  exists = λ now k s. if is_some (live now (s k)) then 1 else 0;
  expire = λ now k seconds s. store k (with_expiry (now + seconds * 1000) (live now (s k))) s;
  get_del = λ now k s. (live now (s k), store k none s);
  del = λ now k s. store k none s;
}

-- The table in which no key is set.
abbrev pub no_keys : Table
no_keys k = none

live-store :
    (t : ℕ) (k j : Key) (entry : Option (String × ℕ)) (s : Table)
    → live t (store k entry s j) ≡ (if same_key j k then live t entry else live t (s j))
live-store t k j entry s = choice (same_key j k)
  where
    choice :
        (b : Bool) → live t (if b then entry else s j) ≡ (if b then live t entry else live t (s j))
    choice true = refl
    choice false = refl

live_mono :
    (t u : ℕ) (entry : Option (String × ℕ)) → t ≤ u → live t entry ≡ none → live u entry ≡ none
live_mono t u none le h = refl
live_mono t u (some (value, expires_at)) le h = ground arith

live-with_expiry :
    (t now seconds : ℕ) (o : Option String)
    → live t (with_expiry (now + seconds * 1000) o) ≡ until now seconds t o
live-with_expiry t now seconds none = ground arith
live-with_expiry t now seconds (some value) = refl

pub memory-IsLawful : IsLawful memory
memory-IsLawful = record {
  get_mono = λ t u k s. live_mono t u (s k);
  get-set_ex = λ now t k j v seconds s le. live-store t k j (some (v, now + seconds * 1000)) s;
  set_nx_ex-free = λ now k v seconds s h. ap (λ o. set_free o now k v seconds s) h;
  set_nx_ex-taken = λ now k v w seconds s h. ap (λ o. set_free o now k v seconds s) h;
  exists-get = λ now k s. refl;
  get-expire = λ now t k j seconds s le. live-store t k j _ s ∙ rw live-with_expiry refl;
  get_del-get = λ now k s. refl;
  get_del-del = λ now k s. refl;
  get-del = λ now t k j s le. live-store t k j none s;
}
