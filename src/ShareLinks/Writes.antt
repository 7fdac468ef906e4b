-- ===== src/ShareLinks/Writes.antt =====
-- What the operations of src/share_links/share_links.service.ts write, however they end.
use meridian_backend.Prelude.{ℕ, [], ◌∷◌, ◌++◌, ◌≡◌, refl, arith, update_where}
use meridian_backend.Schema.{Database}
use meridian_backend.ShareLinks.{
  LinkConfig, CreateShareLink, new_share_link, create_share_link, set_revoked_at, revoke_share_link,
  has_link_id, set_claimed, mark_link_as_claimed,
}

module _ (db : Database) where
  pub state-create_share_link :
      (config : LinkConfig) (id token now d u : ℕ) (dto : CreateShareLink)
      → (create_share_link config id token now d u dto db).1 ≡ record db {
        share_links = db.share_links ++ new_share_link config id token now d u dto ∷ [];
      }
  unfolding create_share_link
  state-create_share_link config id token now d u dto = refl

  pub state-revoke_share_link :
      (now d token : ℕ) → (revoke_share_link now d token db).1 ≡ set_revoked_at now d token db
  unfolding revoke_share_link
  state-revoke_share_link now d token = ground arith

  pub state-mark_link_as_claimed :
      (now link_id user_id : ℕ)
      → (mark_link_as_claimed now link_id user_id db).1 ≡ record db {
        share_links = update_where (has_link_id link_id) (set_claimed user_id now) db.share_links;
      }
  unfolding mark_link_as_claimed
  state-mark_link_as_claimed now link_id user_id = refl
