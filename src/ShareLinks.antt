-- ===== src/ShareLinks.antt =====
-- src/share_links/share_links.service.ts. The clock and the generated ids are arguments; the row
-- lock of `findAndValidateLink` makes claims of one link run one after the other, as the steps of
-- Documents.antt do.
pub mod Validity
pub mod Writes
mod Tests
use meridian_backend.Prelude.{
  ℕ, ◌+◌, ◌*◌, Bool, true, false, ◌&&◌, not, Option, none, some, List, [], ◌∷◌, ◌++◌, Action, pure,
  gets, throw, throw_if, or_throw, modify, ◌>>=◌, ◌>>◌, not_found, forbidden, bad_request,
  find_where, update_where, is_some, get_or, if◌then◌else◌, ◌==◌, leb,
}
use meridian_backend.Schema.{Bytes, Role, ShareLink, Database}

-- `configService.getOrThrow('APP_URL')` and `SHARE_LINK_EXPIRY_DAYS`.
pub record LinkConfig : Type 0 where
  pub app_url : Bytes
  pub share_link_expiry_days : ℕ

-- `CreateShareLinkDto`
pub record CreateShareLink : Type 0 where
  pub role : Role
  pub is_single_use : Option Bool

-- `${appUrl}/join/${documentId}?token=${token}`
pub record JoinUrl : Type 0 where
  pub app_url : Bytes
  pub document_id : ℕ
  pub token : ℕ

-- `.replace(/\/$/, '')`
abbrev pub strip_slash : Bytes → Bytes
strip_slash [] = []
strip_slash (c ∷ []) = if c == b'/' then [] else c ∷ []
strip_slash (c ∷ d ∷ cs) = c ∷ strip_slash (d ∷ cs)

-- The row that `insert(shareLinks).values(…)` makes.
abbrev pub new_share_link : LinkConfig → ℕ → ℕ → ℕ → ℕ → ℕ → CreateShareLink → ShareLink
new_share_link config id token now document_id created_by dto = record {
  id = id;
  document_id = document_id;
  created_by = created_by;
  role = dto.role;
  token = token;
  is_single_use = get_or dto.is_single_use false;
  claimed_by = none;
  claimed_at = none;
  expires_at = some (now + config.share_link_expiry_days * 86_400_000);
  revoked_at = none;
  created_at = now;
}

unfoldable pub create_share_link :
    LinkConfig → ℕ → ℕ → ℕ → ℕ → ℕ → CreateShareLink → Action Database (ShareLink × JoinUrl)
create_share_link config id token now document_id created_by dto = do
  let result = new_share_link config id token now document_id created_by dto
  modify (λ db. record db { share_links = db.share_links ++ result ∷ [] })
  pure (
    result,
    record { app_url = strip_slash config.app_url; document_id = document_id; token = token },
  )

-- `and(eq(token), eq(documentId))`
abbrev pub is_link : ℕ → ℕ → ShareLink → Bool
is_link document_id token l = l.token == token && l.document_id == document_id

abbrev pub is_unrevoked_link : ℕ → ℕ → ShareLink → Bool
is_unrevoked_link document_id token l = is_link document_id token l && not (is_some l.revoked_at)

abbrev pub set_revoked : ℕ → ShareLink → ShareLink
set_revoked now l = record l { revoked_at = some now }

abbrev pub set_revoked_at : ℕ → ℕ → ℕ → Database → Database
set_revoked_at now document_id token db = record db {
  share_links = update_where (is_unrevoked_link document_id token) (set_revoked now) db.share_links;
}

-- What `revokeShareLink` returns: the updated row, or one of two exceptions, by whether the link is
-- there at all.
abbrev pub revoke_reply : ℕ → Option ShareLink → Option ShareLink → Action Database ShareLink
revoke_reply now (some l) existing = pure (set_revoked now l)
revoke_reply now none none = throw (not_found "Link is not found")
revoke_reply now none (some l) = throw (bad_request "Link is already revoked.")

-- `update … returning` gives back the rows that were not revoked yet.
unfoldable pub revoke_share_link : ℕ → ℕ → ℕ → Action Database ShareLink
revoke_share_link now document_id token = do
  updated_link ← gets (λ db. find_where (is_unrevoked_link document_id token) db.share_links)
  modify (set_revoked_at now document_id token)
  existing ← gets (λ db. find_where (is_link document_id token) db.share_links)
  revoke_reply now updated_link existing

-- `link.expiresAt && link.expiresAt <= new Date()`
abbrev pub is_expired : ℕ → ShareLink → Bool
is_expired now l = elim l.expires_at [ none ↦ false | some t ↦ leb t now ]

unfoldable pub find_and_validate_link : ℕ → ℕ → ℕ → Action Database ShareLink
find_and_validate_link now document_id token = do
  found ← gets (λ db. find_where (is_link document_id token) db.share_links)
  link ← or_throw found (not_found "Link not found")
  throw_if (is_some link.revoked_at) (forbidden "Share link has been revoked")
  throw_if (is_expired now link) (forbidden "Link has expired")
  throw_if (link.is_single_use && is_some link.claimed_at)
      (forbidden "Link has already been claimed")
  pure link

abbrev pub has_link_id : ℕ → ShareLink → Bool
has_link_id id l = l.id == id

abbrev pub set_claimed : ℕ → ℕ → ShareLink → ShareLink
set_claimed user_id now l = record l { claimed_by = some user_id; claimed_at = some now }

unfoldable pub mark_link_as_claimed : ℕ → ℕ → ℕ → Action Database (Unit {0})
mark_link_as_claimed now link_id user_id = modify (λ db. record db {
  share_links = update_where (has_link_id link_id) (set_claimed user_id now) db.share_links;
})
