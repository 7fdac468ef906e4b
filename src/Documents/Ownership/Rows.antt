-- ===== src/Documents/Ownership/Rows.antt =====
-- The owners of documents under the operations on documents and links.
use meridian_backend.Prelude.{
  ℕ, String, none, some, List, [], ◌∷◌, ◌++◌, ◌≡◌, ◌≢◌, inl, inr, arith, All, All-append,
  All-update_where, All-find_where, if◌then◌else◌, ◌==◌, Bool-cases, transaction, transaction_cases,
  Checks_cases, state-bind_pure, subst, >>=_cases,
}
use meridian_backend.Schema.{author, Document, Membership, ShareLink, Database, invite}
use meridian_backend.Memberships.{Member, new_membership, add_member_via_link}
use meridian_backend.Memberships.Frames.{add_member_via_link-Frames}
use meridian_backend.Memberships.Roles.{
  role_of, with_role, add_member_via_link-Adds, role_of-append,
}
use meridian_backend.ShareLinks.{
  LinkConfig, CreateShareLink, create_share_link, revoke_share_link, find_and_validate_link,
  mark_link_as_claimed, is_link, is_unrevoked_link, set_revoked, has_link_id, set_claimed,
}
use meridian_backend.ShareLinks.Validity.{find_and_validate_link-Checks}
use meridian_backend.ShareLinks.Writes.{
  state-create_share_link, state-revoke_share_link, state-mark_link_as_claimed,
}
use meridian_backend.Documents.{
  new_document, create_document, update_document, mark_if_single, with_document, claim_validated,
  claim, claim_share_link,
}
use meridian_backend.Documents.Creators.{creator_of-append, creator_of-update_document}
use meridian_backend.Documents.Guards.{creator_of}
use meridian_backend.Documents.Ownership.{IsOwned, Adds-IsOwned}

-- The two rows of a new document make its creator its author.
pub create_document-IsOwned :
    (id membership_id now : ℕ) (title : String) (user : ℕ) (db : Database)
    → IsOwned db
    → creator_of db id ≡ none
    → IsOwned (create_document id membership_id now title user db).1
unfolding create_document
create_document-IsOwned id membership_id now title user db o fresh = record {
  author_creator = λ d u h. ground (arith, creators d, roles d u, o.author_creator d u);
  creator_author = λ d u h. ground (arith, creators d, roles d u, o.creator_author d u);
  member_document = λ d u h. ground (arith, creators d, roles d u, o.member_document d u);
  link_roles = o.link_roles;
}
  where
    m : Membership
    m = new_membership membership_id now id user author invite

    creators :
        (d : ℕ)
        → creator_of
            (record db { documents = db.documents ++ new_document id now title user ∷ [] })
            d
          ≡ (if id == d then some user else creator_of db d)
    creators d = creator_of-append d (new_document id now title user) db fresh

    roles :
        (d u : ℕ)
        → role_of (record db { memberships = db.memberships ++ m ∷ [] }) d u
          ≡ with_role (role_of db) id user (some author) d u
    roles d u = role_of-append m db d u (o.member_document id user fresh)

module _ (db : Database) (o : IsOwned db) where
  pub update_document-IsOwned :
      (f : Document → Document)
      → ((d : Document) → (f d).id ≡ d.id)
      → ((d : Document) → (f d).created_by ≡ d.created_by)
      → (id : ℕ) → IsOwned (update_document f id db)
  update_document-IsOwned f keep_id keep_creator id = record {
    author_creator = λ d u h. rw (same d) (o.author_creator d u h);
    creator_author = λ d u h. o.creator_author d u (rw (same d) at h);
    member_document = λ d u h. o.member_document d u (rw (same d) at h);
    link_roles = o.link_roles;
  }
    where
      same : (d : ℕ) → creator_of (update_document f id db) d ≡ creator_of db d
      same d = creator_of-update_document f keep_id keep_creator d id db

  -- The links change, and no role on them.
  links-IsOwned :
      (links : List ShareLink)
      → All (λ l. l.role ≢ author) links
      → IsOwned (record db { share_links = links })
  links-IsOwned links h = record {
    author_creator = o.author_creator;
    creator_author = o.creator_author;
    member_document = o.member_document;
    link_roles = h;
  }

  pub create_share_link-IsOwned :
      (config : LinkConfig) (id token now d u : ℕ) (dto : CreateShareLink)
      → dto.role ≢ author
      → IsOwned (create_share_link config id token now d u dto db).1
  create_share_link-IsOwned config id token now d u dto other =
      rw (state-create_share_link db config id token now d u dto)
        (links-IsOwned _ (All-append _ db.share_links _ o.link_roles (other, tt)))

  pub revoke_share_link-IsOwned : (now d token : ℕ) → IsOwned (revoke_share_link now d token db).1
  revoke_share_link-IsOwned now d token = rw (state-revoke_share_link db now d token) (
      links-IsOwned _ (
        All-update_where _ (is_unrevoked_link d token) (set_revoked now) (λ l h. h) db.share_links
          o.link_roles))

  mark_link_as_claimed-IsOwned :
      (now link_id user_id : ℕ) → IsOwned (mark_link_as_claimed now link_id user_id db).1
  mark_link_as_claimed-IsOwned now link_id user_id =
      rw (state-mark_link_as_claimed db now link_id user_id) (
        links-IsOwned _ (
          All-update_where _ (has_link_id link_id) (set_claimed user_id now) (λ l h. h)
            db.share_links o.link_roles))

  mark_if_single-IsOwned :
      (now user_id : ℕ) (l : ShareLink) (m : Member) → IsOwned (mark_if_single now user_id l m db).1
  mark_if_single-IsOwned now user_id l m = elim (Bool-cases l.is_single_use) [
    | inl single ↦
        rw (single, state-bind_pure (mark_link_as_claimed now l.id user_id) (λ _. m) db)
          (mark_link_as_claimed-IsOwned now l.id user_id)
    | inr many ↦ rw many o
  ]

claim_validated-IsOwned :
    (db : Database) (id now d user : ℕ) (l : ShareLink)
    → IsOwned db
    → creator_of db d ≢ none
    → l.role ≢ author
    → IsOwned (claim_validated id now d user l db).1
claim_validated-IsOwned db id now d user l o there other =
    >>=_cases (λ r. IsOwned r.1) (add_member_via_link id now d user l.role)
      (mark_if_single now user l) db
      (λ m db' e. mark_if_single-IsOwned db' (subst (λ r. IsOwned r.1) e added) now user l m)
      (λ x db' e. subst (λ r. IsOwned r.1) e added)
  where
    added : IsOwned (add_member_via_link id now d user l.role db).1
    added =
        Adds-IsOwned db d l.role (add_member_via_link id now d user l.role db) o other there
          (add_member_via_link-Frames db id now d user l.role)
          (add_member_via_link-Adds id now d user l.role db)

-- Claiming a link gives the role on it, which is not authorship.
pub claim_share_link-IsOwned :
    (db : Database) (id now d token user : ℕ)
    → IsOwned db
    → creator_of db d ≢ none
    → IsOwned (claim_share_link id now d token user db).1
unfolding claim_share_link
claim_share_link-IsOwned db id now d token user o there =
    >>=_cases (λ r. IsOwned r.1) (transaction (claim id now d token user)) (with_document d) db
      (λ m db' e. subst (λ r. IsOwned r.1) e claimed)
      (λ x db' e. subst (λ r. IsOwned r.1) e claimed)
  where
    body : IsOwned (claim id now d token user db).1
    body =
        Checks_cases db _ (λ r. IsOwned r.1) (find_and_validate_link now d token)
          (claim_validated id now d user) (find_and_validate_link-Checks now d token db)
          (λ l h.
            claim_validated-IsOwned db id now d user l o there
              (All-find_where _ (is_link d token) db.share_links l o.link_roles h.0))
          (λ e. o)

    claimed : IsOwned (transaction (claim id now d token user) db).1
    claimed =
        transaction_cases (λ r. IsOwned r.1) (claim id now d token user) db
          (λ m db' e. subst (λ r. IsOwned r.1) e body) (λ x db' e. o)
