-- ===== src/Gateway/Presence/Effects.antt =====
-- What one connection, counted or closed, does to the fields of a user and to its announcements.
use meridian_backend.Prelude.{
  ℕ, zero, suc, String, Bool, true, false, Option, none, some, ◌≡◌, ◌∙◌, ap, refl, get_or,
  if◌then◌else◌, ◌&&◌, ℤ, pos, negsuc, ◌+ℤ◌, is_at_most_zero, Bool-cases, inl, inr,
}
use meridian_backend.Redis.Presence.{
  Hashes, IsLawful, is_field, presence_join, set_presence_identity, after_decrement,
}
use meridian_backend.Gateway.Presence.{is_one, is_zero, enter, leave, announced}
use meridian_backend.Gateway.Presence.Counts.{suc_nonzero}

module _ {H : Hashes} (laws : IsLawful H) (d u : ℕ) where
  pub count-presence_join :
      (document_id user_id : ℕ) (s : H.State)
      → H.count d u (presence_join H document_id user_id s).1 ≡ (
          if is_field d u document_id user_id
          then some (get_or (H.count document_id user_id s) (pos 0) +ℤ pos 1)
          else H.count d u s)
  unfolding presence_join
  count-presence_join document_id user_id s =
      laws.count-expire d u _ _ _
      ∙ laws.count-expire d u _ _ _
      ∙ laws.count-hincr_by d u document_id user_id (pos 1) s

  pub name-presence_join :
      (document_id user_id : ℕ) (s : H.State)
      → H.name d u (presence_join H document_id user_id s).1 ≡ H.name d u s
  unfolding presence_join
  name-presence_join document_id user_id s =
      laws.name-expire d u _ _ _
      ∙ laws.name-expire d u _ _ _
      ∙ laws.name-hincr_by d u document_id user_id (pos 1) s

  pub count-enter :
      (document_id user_id : ℕ) (name : String) (n : ℤ) (s : H.State)
      → H.count d u (enter H document_id user_id name (n, s)).1 ≡ H.count d u s
  unfolding set_presence_identity
  count-enter document_id user_id name n s = elim (Bool-cases (is_one n)) [
    | inl first ↦ rw first (laws.count-expire d u _ _ _ ∙ laws.count-hset d u _ _ _ _)
    | inr more ↦ rw more refl
  ]

  pub name-enter :
      (document_id user_id : ℕ) (name : String) (n : ℤ) (s : H.State)
      → H.name d u (enter H document_id user_id name (n, s)).1
        ≡ (if is_one n && is_field d u document_id user_id then some name else H.name d u s)
  unfolding set_presence_identity
  name-enter document_id user_id name n s = elim (Bool-cases (is_one n)) [
    | inl first ↦ rw first (laws.name-expire d u _ _ _ ∙ laws.name-hset d u _ _ _ _)
    | inr more ↦ rw more refl
  ]

  pub announced-enter :
      (document_id user_id : ℕ) (name : String) (n : ℤ) (s : H.State) (before : Bool)
      → announced d u (enter H document_id user_id name (n, s)).0 before
        ≡ (if is_one n && is_field d u document_id user_id then true else before)
  announced-enter document_id user_id name n s before = elim (Bool-cases (is_one n)) [
    | inl first ↦ rw first refl
    | inr more ↦ rw more refl
  ]

  pub presence_join-count :
      (document_id user_id : ℕ) (s : H.State)
      → (presence_join H document_id user_id s).0
        ≡ get_or (H.count document_id user_id s) (pos 0) +ℤ pos 1
  unfolding presence_join
  presence_join-count document_id user_id s = laws.hincr_by-count document_id user_id (pos 1) s

  pub count-after_decrement :
      (document_id user_id : ℕ) (n : ℤ) (s : H.State)
      → H.count d u (after_decrement H document_id user_id (n, s)).1
        ≡ (if is_at_most_zero n && is_field d u document_id user_id then none else H.count d u s)
  count-after_decrement document_id user_id n s = elim (Bool-cases (is_at_most_zero n)) [
    | inl last ↦ rw last (
        laws.count-hdel_identity d u document_id user_id _
        ∙ laws.count-hdel_count d u document_id user_id s)
    | inr more ↦ rw more refl
  ]

  pub name-after_decrement :
      (document_id user_id : ℕ) (n : ℤ) (s : H.State)
      → H.name d u (after_decrement H document_id user_id (n, s)).1
        ≡ (if is_at_most_zero n && is_field d u document_id user_id then none else H.name d u s)
  name-after_decrement document_id user_id n s = elim (Bool-cases (is_at_most_zero n)) [
    | inl last ↦ rw last (
        laws.name-hdel_identity d u document_id user_id _
        ∙ ap (λ o. if is_field d u document_id user_id then none else o)
            (laws.name-hdel_count d u document_id user_id s))
    | inr more ↦ rw more refl
  ]

  -- Closing announces where the count has gone.
  pub state-leave :
      (document_id user_id : ℕ) (email : String) (r : (ℤ × Option String) × H.State)
      → (leave H document_id user_id email r).1 ≡ r.1
  state-leave document_id user_id email ((n, name), s) = elim (Bool-cases (is_zero n)) [
    | inl last ↦ rw last refl
    | inr more ↦ rw more refl
  ]

  pub announced-leave :
      (document_id user_id : ℕ) (email : String) (n : ℤ) (s : H.State) (before : Bool)
      → announced d u
          (leave H document_id user_id email (after_decrement H document_id user_id (n, s))).0
          before
        ≡ (if is_at_most_zero n && is_field d u document_id user_id then false else before)
  announced-leave document_id user_id email (pos zero) s before = refl
  announced-leave document_id user_id email (pos (suc n)) s before = rw (suc_nonzero n) refl
  announced-leave document_id user_id email (negsuc n) s before = refl
