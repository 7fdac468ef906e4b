-- ===== src/Redis/Presence.antt =====
-- The presence of users in src/redis/redis.service.ts: per document a hash with the number of live
-- connections of each user, and a hash with their names. Each expires twelve hours after the last
-- join of its document, or after the last name that is set.
pub mod Memory
use meridian_backend.Prelude.{
  ℕ, ◌-◌, ◌*◌, ◌≤◌, ◌<◌, String, Bool, Option, none, some, ◌≡◌, get_or, ltb, if◌then◌else◌, ◌==◌,
  ◌&&◌, ℤ, pos, negsuc, ◌+ℤ◌, is_at_most_zero,
}

pub data HashKey : Type 0 where
  count_key identity_key : (document_id : ℕ) → HashKey

-- Redis: HGET of a count, HGET of a name, HINCRBY, HSET, HDEL, EXPIRE and HGETALL.
pub record Hashes : Type 1 where
  pub State : Type 0
  pub count : (document_id user_id : ℕ) → State → Option ℤ
  pub name : (document_id user_id : ℕ) → State → Option String
  pub hincr_by : (document_id user_id : ℕ) → ℤ → State → ℤ × State
  pub hset : (document_id user_id : ℕ) → String → State → State
  pub hdel : HashKey → (user_id : ℕ) → State → State
  pub expire : HashKey → (seconds : ℕ) → State → State
  pub hget_all : (document_id : ℕ) → State → ℕ → Option String
  -- Time goes by, and hashes expire.
  pub pass : (seconds : ℕ) → State → State
  -- A hash does not expire within so many seconds: its time to live is as long, it has none, or it
  -- is not there.
  pub IsKept : HashKey → (left : ℕ) → State → Type 0

abbrev pub is_field : (d u document_id user_id : ℕ) → Bool
is_field d u document_id user_id = d == document_id && u == user_id

-- What the commands are documented to do to the fields of the two hashes.
pub record IsLawful (H : Hashes) : Type 0 where
  pub hincr_by-count :
      (d u : ℕ) (n : ℤ) (s : H.State) → (H.hincr_by d u n s).0 ≡ get_or (H.count d u s) (pos 0) +ℤ n
  pub count-hincr_by :
      (d u document_id user_id : ℕ) (n : ℤ) (s : H.State)
      → H.count d u (H.hincr_by document_id user_id n s).1 ≡ (
          if is_field d u document_id user_id
          then some (get_or (H.count document_id user_id s) (pos 0) +ℤ n)
          else H.count d u s)
  pub name-hincr_by :
      (d u document_id user_id : ℕ) (n : ℤ) (s : H.State)
      → H.name d u (H.hincr_by document_id user_id n s).1 ≡ H.name d u s
  pub count-hset :
      (d u document_id user_id : ℕ) (value : String) (s : H.State)
      → H.count d u (H.hset document_id user_id value s) ≡ H.count d u s
  pub name-hset :
      (d u document_id user_id : ℕ) (value : String) (s : H.State)
      → H.name d u (H.hset document_id user_id value s)
        ≡ (if is_field d u document_id user_id then some value else H.name d u s)
  pub count-hdel_count :
      (d u document_id user_id : ℕ) (s : H.State)
      → H.count d u (H.hdel (count_key document_id) user_id s)
        ≡ (if is_field d u document_id user_id then none else H.count d u s)
  pub name-hdel_count :
      (d u document_id user_id : ℕ) (s : H.State)
      → H.name d u (H.hdel (count_key document_id) user_id s) ≡ H.name d u s
  pub count-hdel_identity :
      (d u document_id user_id : ℕ) (s : H.State)
      → H.count d u (H.hdel (identity_key document_id) user_id s) ≡ H.count d u s
  pub name-hdel_identity :
      (d u document_id user_id : ℕ) (s : H.State)
      → H.name d u (H.hdel (identity_key document_id) user_id s)
        ≡ (if is_field d u document_id user_id then none else H.name d u s)
  pub count-expire :
      (d u : ℕ) (key : HashKey) (seconds : ℕ) (s : H.State)
      → H.count d u (H.expire key seconds s) ≡ H.count d u s
  pub name-expire :
      (d u : ℕ) (key : HashKey) (seconds : ℕ) (s : H.State)
      → H.name d u (H.expire key seconds s) ≡ H.name d u s
  pub expire-IsKept :
      (key : HashKey) (seconds : ℕ) (s : H.State) → H.IsKept key seconds (H.expire key seconds s)
  pub IsKept-expire :
      (key other : HashKey) (left seconds : ℕ) (s : H.State)
      → left ≤ seconds
      → H.IsKept key left s
      → H.IsKept key left (H.expire other seconds s)
  pub IsKept-hincr_by :
      (key : HashKey) (left document_id user_id : ℕ) (n : ℤ) (s : H.State)
      → H.IsKept key left s
      → H.IsKept key left (H.hincr_by document_id user_id n s).1
  pub IsKept-hset :
      (key : HashKey) (left document_id user_id : ℕ) (value : String) (s : H.State)
      → H.IsKept key left s
      → H.IsKept key left (H.hset document_id user_id value s)
  pub IsKept-hdel :
      (key other : HashKey) (left user_id : ℕ) (s : H.State)
      → H.IsKept key left s
      → H.IsKept key left (H.hdel other user_id s)
  pub IsKept-pass :
      (key : HashKey) (left seconds : ℕ) (s : H.State)
      → H.IsKept key left s
      → H.IsKept key (left - seconds) (H.pass seconds s)
  pub count-pass :
      (d u left seconds : ℕ) (s : H.State)
      → H.IsKept (count_key d) left s
      → seconds < left
      → H.count d u (H.pass seconds s) ≡ H.count d u s
  pub name-pass :
      (d u left seconds : ℕ) (s : H.State)
      → H.IsKept (identity_key d) left s
      → seconds < left
      → H.name d u (H.pass seconds s) ≡ H.name d u s
  pub count-pass_none :
      (d u seconds : ℕ) (s : H.State) → H.count d u s ≡ none → H.count d u (H.pass seconds s) ≡ none
  pub name-pass_none :
      (d u seconds : ℕ) (s : H.State) → H.name d u s ≡ none → H.name d u (H.pass seconds s) ≡ none
  pub hget_all-name : (d u : ℕ) (s : H.State) → H.hget_all d s u ≡ H.name d u s

abbrev pub presence_ttl : ℕ
presence_ttl = 12 * 60 * 60

module _ (H : Hashes) where
  unfoldable pub presence_join : ℕ → ℕ → H.State → ℤ × H.State
  presence_join document_id user_id s =
      let r = H.hincr_by document_id user_id (pos 1) s in
      (
        r.0,
        H.expire (identity_key document_id) presence_ttl
            (H.expire (count_key document_id) presence_ttl r.1),
      )

  unfoldable pub set_presence_identity : ℕ → ℕ → String → H.State → H.State
  set_presence_identity document_id user_id name s =
      H.expire (identity_key document_id) presence_ttl (H.hset document_id user_id name s)

  -- The script of `presenceLeave` behind the decrement.
  abbrev pub after_decrement : ℕ → ℕ → ℤ × H.State → (ℤ × Option String) × H.State
  after_decrement document_id user_id (n, s) =
      if is_at_most_zero n
      then (
        (pos 0, H.name document_id user_id s),
        H.hdel (identity_key document_id) user_id (H.hdel (count_key document_id) user_id s),
      )
      else ((n, none), s)

  unfoldable pub presence_leave : ℕ → ℕ → H.State → (ℤ × Option String) × H.State
  presence_leave document_id user_id s =
      after_decrement document_id user_id (H.hincr_by document_id user_id (negsuc 0) s)

  unfoldable pub presence_roster : ℕ → H.State → ℕ → Option String
  presence_roster document_id s = H.hget_all document_id s
