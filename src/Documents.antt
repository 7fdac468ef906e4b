-- ===== src/Documents.antt =====
-- src/documents/documents.service.ts, and the handlers of documents.controller.ts behind their
-- guards (Documents/Guards.antt). Mail is sent outside the request and writes nothing, so the
-- invitation is left out.
pub mod Guards
pub mod Creators
pub mod Endpoints
pub mod Ownership
pub mod Claims
pub mod Pages
pub mod Members
mod Tests
use mathlib.Core.Option
use meridian_backend.Prelude.{
  ℕ, ◌+◌, ◌-◌, ◌*◌, ◌/◌, String, Bool, true, false, Option, none, some, List, [], ◌∷◌, ◌++◌, map,
  Action, Result, ok, err, pure, gets, or_throw, throw_if, modify, transaction, ◌>>=◌, ◌>>◌,
  bad_request, not_found, plain_error, find_where, update_where, select_where, length,
  if◌then◌else◌, ◌==◌,
}
use meridian_backend.Schema.{
  Role, author, Status, draft, deleted, invite, Document, Membership, ShareLink, Database,
}
use meridian_backend.Memberships.{
  Member, has_document_id, get_user_document_membership, new_membership, add_member,
  add_member_via_link, update_member_role, remove_member,
}
use meridian_backend.ShareLinks.{find_and_validate_link, mark_link_as_claimed}

abbrev pub get_document_by_id : ℕ → Action Database (Option Document)
get_document_by_id id = gets (λ db. find_where (has_document_id id) db.documents)

-- The row that `insert(documents).values({ title, createdBy })` makes.
abbrev pub new_document : ℕ → ℕ → String → ℕ → Document
new_document id now title user_id = record {
  id = id;
  title = title;
  status = draft;
  created_by = user_id;
  latest_snapshot_id = none;
  created_at = now;
  updated_at = now;
}

-- `createDocument`: `id` and `membership_id` are the generated ids.
unfoldable pub create_document : ℕ → ℕ → ℕ → String → ℕ → Action Database Document
create_document id membership_id now title user_id = transaction (do
  let document = new_document id now title user_id
  modify (λ db. record db { documents = db.documents ++ document ∷ [] })
  modify (λ db. record db {
    memberships = db.memberships ++ new_membership membership_id now id user_id author invite ∷ [];
  })
  pure document)

abbrev set_title : String → ℕ → Document → Document
set_title title now d = record d { title = title; updated_at = now }

abbrev set_status : Status → ℕ → Document → Document
set_status status now d = record d { status = status; updated_at = now }

-- `update(documents).set(…).where(eq(id))`
abbrev pub update_document : (Document → Document) → ℕ → Database → Database
update_document f id db = record db { documents = update_where (has_document_id id) f db.documents }

unfoldable pub update_document_title : ℕ → ℕ → String → Action Database (Option Document)
update_document_title now document_id title = do
  modify (update_document (set_title title now) document_id)
  get_document_by_id document_id

unfoldable pub update_document_status : ℕ → ℕ → Status → Action Database (Option Document)
update_document_status now document_id status = do
  modify (update_document (set_status status now) document_id)
  get_document_by_id document_id

unfoldable pub soft_delete_document : ℕ → ℕ → Action Database (Unit {0})
soft_delete_document now document_id = modify (update_document (set_status deleted now) document_id)

unfoldable pub add_document_member : ℕ → ℕ → ℕ → String → Role → Action Database Member
add_document_member id now document_id email role = add_member id now document_id email role

unfoldable pub update_document_member_role : ℕ → ℕ → ℕ → ℕ → Role → Action Database Member
update_document_member_role now document_id target_user_id caller_user_id role = do
  throw_if (target_user_id == caller_user_id) (bad_request "Cannot change your own role")
  target_membership ← get_user_document_membership document_id target_user_id
  or_throw target_membership (not_found "Member not found")
  update_member_role now document_id target_user_id role

unfoldable pub remove_document_member : ℕ → ℕ → ℕ → Action Database (Unit {0})
remove_document_member document_id target_user_id caller_user_id = do
  throw_if (target_user_id == caller_user_id) (bad_request "Author cannot remove themselves")
  target_membership ← get_user_document_membership document_id target_user_id
  or_throw target_membership (not_found "Member not found")
  remove_member document_id target_user_id

-- `if (link.isSingleUse) await markLinkAsClaimed(…)`, and the member that was added.
abbrev pub mark_if_single : ℕ → ℕ → ShareLink → Member → Action Database Member
mark_if_single now user_id link member = do
  (if link.is_single_use then mark_link_as_claimed now link.id user_id else pure tt)
  pure member

-- The body of the transaction of `claimShareLink`, once the link is validated.
abbrev pub claim_validated : ℕ → ℕ → ℕ → ℕ → ShareLink → Action Database Member
claim_validated id now document_id user_id link = do
  member ← add_member_via_link id now document_id user_id link.role
  mark_if_single now user_id link member

abbrev pub claim : ℕ → ℕ → ℕ → ℕ → ℕ → Action Database Member
claim id now document_id token user_id = do
  link ← find_and_validate_link now document_id token
  claim_validated id now document_id user_id link

abbrev pub with_document : ℕ → Member → Action Database (Member × Option Document)
with_document document_id membership = do
  document ← get_document_by_id document_id
  pure (membership, document)

unfoldable pub claim_share_link : ℕ → ℕ → ℕ → ℕ → ℕ → Action Database (Member × Option Document)
claim_share_link id now document_id token user_id = do
  membership ← transaction (claim id now document_id token user_id)
  with_document document_id membership
