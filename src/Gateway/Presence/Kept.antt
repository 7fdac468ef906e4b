-- ===== src/Gateway/Presence/Kept.antt =====
-- How long the hashes of a document are kept, through one connection or some time.
use meridian_backend.Prelude.{
  ℕ, ◌≤◌, String, subst, sym, if◌then◌else◌, ◌==◌, ==_iff, ℤ, negsuc, pos, is_at_most_zero,
  Bool-cases, inl, inr, arith,
}
use meridian_backend.Redis.Presence.{
  count_key, identity_key, Hashes, IsLawful, presence_ttl, presence_join, set_presence_identity,
  presence_leave, after_decrement,
}
use meridian_backend.Gateway.Presence.{
  is_one, Connection, joined, closed, elapsed, enter, connect, left_after,
}
use meridian_backend.Gateway.Presence.Effects.{state-leave}

module _ {H : Hashes} (laws : IsLawful H) where
  -- Both hashes of a document are kept for so many seconds, at most for the time to live.
  abbrev pub AreKept : ℕ → ℕ → H.State → Type 0
  AreKept d left s =
      (left ≤ presence_ttl) × H.IsKept (count_key d) left s × H.IsKept (identity_key d) left s

  AreKept-presence_join :
      (d document_id user_id left : ℕ) (s : H.State)
      → AreKept d left s
      → AreKept d
          (if document_id == d then presence_ttl else left)
          (presence_join H document_id user_id s).1
  unfolding presence_join
  AreKept-presence_join d document_id user_id left s (le, count, name) =
      elim (Bool-cases (document_id == d)) [
        | inl own ↦ rw own (
            subst
              (λ i. AreKept i presence_ttl (
                H.expire (identity_key document_id) presence_ttl (
                  H.expire (count_key document_id) presence_ttl
                    (H.hincr_by document_id user_id (pos 1) s).1)))
              ((==_iff document_id d).0 own)
              (
                omega arith,
                laws.IsKept-expire _ _ presence_ttl presence_ttl _ (omega arith)
                    (laws.expire-IsKept _ presence_ttl _),
                laws.expire-IsKept _ presence_ttl _,
              ))
        | inr other ↦ rw other (
          le,
          laws.IsKept-expire _ _ left _ _ le (
              laws.IsKept-expire _ _ left _ _ le
                (laws.IsKept-hincr_by _ left document_id user_id (pos 1) s count)),
          laws.IsKept-expire _ _ left _ _ le (
              laws.IsKept-expire _ _ left _ _ le
                (laws.IsKept-hincr_by _ left document_id user_id (pos 1) s name)),
        )
      ]

  AreKept-enter :
      (d document_id user_id left : ℕ) (name : String) (n : ℤ) (s : H.State)
      → AreKept d left s
      → AreKept d left (enter H document_id user_id name (n, s)).1
  unfolding set_presence_identity
  AreKept-enter d document_id user_id left name n s (le, count, named) =
      elim (Bool-cases (is_one n)) [
        | inl first ↦ rw first (
          le,
          laws.IsKept-expire _ _ left _ _ le (laws.IsKept-hset _ left _ _ _ s count),
          laws.IsKept-expire _ _ left _ _ le (laws.IsKept-hset _ left _ _ _ s named),
        )
        | inr more ↦ rw more (le, count, named)
      ]

  AreKept-after_decrement :
      (d document_id user_id left : ℕ) (n : ℤ) (s : H.State)
      → AreKept d left s
      → AreKept d left (after_decrement H document_id user_id (n, s)).1
  AreKept-after_decrement d document_id user_id left n s (le, count, name) =
      elim (Bool-cases (is_at_most_zero n)) [
        | inl last ↦ rw last (
          le,
          laws.IsKept-hdel _ _ left user_id _ (laws.IsKept-hdel _ _ left user_id s count),
          laws.IsKept-hdel _ _ left user_id _ (laws.IsKept-hdel _ _ left user_id s name),
        )
        | inr more ↦ rw more (le, count, name)
      ]

  pub AreKept-connect :
      (d left : ℕ) (c : Connection) (s : H.State)
      → AreKept d left s
      → AreKept d (left_after d c left) (connect H c s).1
  unfolding presence_leave
  AreKept-connect d left (joined document_id user_id name) s h =
      let r = presence_join H document_id user_id s in
      AreKept-enter d document_id user_id (if document_id == d then presence_ttl else left) name r.0
        r.1 (AreKept-presence_join d document_id user_id left s h)
  AreKept-connect d left (closed document_id user_id email) s (le, count, name) =
      let r = H.hincr_by document_id user_id (negsuc 0) s in
      subst (AreKept d left)
        (sym (
          state-leave laws 0 0 document_id user_id email (after_decrement H document_id user_id r)))
        (AreKept-after_decrement d document_id user_id left r.0 r.1 (
          le,
          laws.IsKept-hincr_by _ left document_id user_id (negsuc 0) s count,
          laws.IsKept-hincr_by _ left document_id user_id (negsuc 0) s name,
        ))
  AreKept-connect d left (elapsed seconds) s (le, count, name) = (
    omega (arith, le),
    laws.IsKept-pass _ left seconds s count,
    laws.IsKept-pass _ left seconds s name,
  )
