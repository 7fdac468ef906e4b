-- ===== src/ShareLinks/Validity.antt =====
-- When src/share_links/share_links.service.ts accepts a link, and what revoking does to it.
use mathlib.Core.Option
use meridian_backend.Prelude.{
  ◌&&◌, Checks, Bool-cases, if◌then◌else◌, ℕ, false, Option, none, some, ok, err, ◌<◌, ◌↔◌, ◌≡◌,
  refl, arith, ◌⊎◌, inl, inr, Option-cases, find_where, find_where-update_where,
  find_where-update_where-none, find_where_sound, forbidden, not_found, is_some,
}
use meridian_backend.Schema.{ShareLink, Database}
use meridian_backend.ShareLinks.{
  is_expired, is_link, is_unrevoked_link, set_revoked, set_revoked_at, revoke_share_link,
  find_and_validate_link,
}

-- The link of a document with this token, as a query finds it.
abbrev pub link_of : Database → ℕ → ℕ → Option ShareLink
link_of db document_id token = find_where (is_link document_id token) db.share_links

-- The time, if there is one, is still to come.
abbrev pub IsAhead : ℕ → Option ℕ → Type 0
IsAhead now none = Unit
IsAhead now (some t) = now < t

-- A link that may be claimed: not revoked, not past its expiry, and not a single-use link that
-- somebody has claimed.
pub record IsClaimable (now : ℕ) (l : ShareLink) : Type 0 where
  pub unrevoked : l.revoked_at ≡ none
  pub unexpired : IsAhead now l.expires_at
  pub unclaimed : (l.is_single_use ≡ false) ⊎ (l.claimed_at ≡ none)

module _ (now document_id token : ℕ) (db : Database) where
  -- Validation succeeds exactly for the link that the query finds and that may be claimed; it
  -- writes nothing.
  pub find_and_validate_link_iff :
      (l : ShareLink)
      → (find_and_validate_link now document_id token db ≡ (ok l, db))
        ↔ ((link_of db document_id token ≡ some l) × IsClaimable now l)
  unfolding find_and_validate_link
  find_and_validate_link_iff l = (sound, λ h. complete h.0 h.1)
    where
      sound :
          find_and_validate_link now document_id token db ≡ (ok l, db)
          → (link_of db document_id token ≡ some l) × IsClaimable now l
      sound e = ground arith

      complete :
          link_of db document_id token ≡ some l
          → IsClaimable now l
          → find_and_validate_link now document_id token db ≡ (ok l, db)
      complete e c = ground arith

  -- Validation never writes, and passes only such a link.
  pub find_and_validate_link-Checks :
      Checks db
        (λ l. (link_of db document_id token ≡ some l) × IsClaimable now l)
        (find_and_validate_link now document_id token db)
  unfolding find_and_validate_link
  find_and_validate_link-Checks = elim (Option-cases (link_of db document_id token)) [
    | inl missing ↦ rw missing refl
    | inr (l, found) ↦ elim (Bool-cases (is_some l.revoked_at)) [
      | inl revoked ↦ rw (found, revoked) refl
      | inr live ↦ elim (Bool-cases (is_expired now l)) [
        | inl past ↦ rw (found, live, past) refl
        | inr ahead ↦ elim (Bool-cases (l.is_single_use && is_some l.claimed_at)) [
          | inl taken ↦ rw (found, live, ahead, taken) refl
          | inr free ↦ rw (found, live, ahead, free) (refl, (refl, ground arith))
        ]
      ]
    ]
  ]

module _ (now later document_id token : ℕ) (db : Database) where
  link_of-set_revoked_at :
      link_of (set_revoked_at now document_id token db) document_id token
      ≡ Option.map
          (λ l. if is_some l.revoked_at then l else set_revoked now l)
          (link_of db document_id token)
  link_of-set_revoked_at = elim (Option-cases (link_of db document_id token)) [
    | inl missing ↦ rw missing (
        find_where-update_where-none (is_link document_id token)
          (is_unrevoked_link document_id token) (set_revoked now) (λ a. refl) db.share_links
          missing)
    | inr (l, found) ↦
        rw
          (
            found,
            find_where-update_where (is_link document_id token)
                (is_unrevoked_link document_id token) (set_revoked now) (λ a. refl) db.share_links l
                found,
          )
          (ground (arith, find_where_sound (is_link document_id token) db.share_links l found))
  ]

  -- However `revokeShareLink` ends, the link can no longer be claimed: validation finds no link or
  -- a revoked one.
  pub revoke_share_link-blocks :
      (find_and_validate_link later document_id token
        (revoke_share_link now document_id token db).1).0
      ≡ (if is_some (link_of db document_id token)
          then err (forbidden "Share link has been revoked")
          else err (not_found "Link not found"))
  unfolding revoke_share_link find_and_validate_link
  revoke_share_link-blocks = ground (arith, link_of-set_revoked_at)
