-- ===== src/Documents/Ownership/Histories.antt =====
-- Every route of src/documents/documents.controller.ts, and so every history of requests, keeps the
-- owners of documents.
use meridian_backend.Prelude.{
  ℕ, String, none, some, List, [], ◌∷◌, Action, ◌≡◌, ◌≢◌, refl, pure, ◌>>=◌, ◌>>◌, Checks_cases,
  state-bind_pure,
}
use meridian_backend.Schema.{author, Status, deleted, Database}
use meridian_backend.Memberships.{add_member}
use meridian_backend.Memberships.Roles.{role_of, add_member-Adds}
use meridian_backend.Memberships.Frames.{add_member-Frames}
use meridian_backend.ShareLinks.{LinkConfig, CreateShareLink, create_share_link, revoke_share_link}
use meridian_backend.Documents.{
  update_document_title, update_document_status, soft_delete_document, set_title, set_status,
  add_document_member, update_document_member_role, remove_document_member, create_document,
  claim_share_link,
}
use meridian_backend.Documents.Guards.{
  creator_of, IsLive-creator_of, author_guards, writer_guards, document_exists_guard,
  author_guards-Checks, writer_guards-Checks, document_exists_guard-Checks,
}
use meridian_backend.Documents.Endpoints.{
  MemberRole, to_role, to_status, Request, Moment, create, change_title, change_status,
  delete_document, add, change_role, remove, create_link, revoke_link, claim_link, one_document,
  one_member, one_link, new_link, claimed, no_content, handle, serve,
}
use meridian_backend.Documents.Ownership.{
  IsOwned, Adds-IsOwned, to_role-ne-author, update_document_member_role-IsOwned,
  remove_document_member-IsOwned,
}
use meridian_backend.Documents.Ownership.Rows.{
  create_document-IsOwned, update_document-IsOwned, create_share_link-IsOwned,
  revoke_share_link-IsOwned, claim_share_link-IsOwned,
}

-- The id that a request may give to a new document is no document's yet.
abbrev pub IsFresh : Moment → Database → Type 0
IsFresh t db = creator_of db t.id ≡ none

module _ (db : Database) (o : IsOwned db) where
  -- A route of the author runs with the caller known to be the author.
  as_author :
      {B : Type 0} (d caller : ℕ) (k : Action Database B)
      → (creator_of db d ≢ none → role_of db d caller ≡ some author → IsOwned (k db).1)
      → IsOwned ((author_guards d caller >> k) db).1
  as_author d caller k h =
      Checks_cases db _ (λ r. IsOwned r.1) (author_guards d caller) (λ _. k)
        (author_guards-Checks d db caller) (λ _ p. h (IsLive-creator_of db d p.0) p.1) (λ e. o)

  replies :
      {A B : Type 0} (m : Action Database A) (f : A → B)
      → IsOwned (m db).1
      → IsOwned ((m >>= λ a. pure (f a)) db).1
  replies m f h = rw (state-bind_pure m f db) h

  title-IsOwned : (now d : ℕ) (title : String) → IsOwned (update_document_title now d title db).1
  unfolding update_document_title
  title-IsOwned now d title =
      update_document-IsOwned db o (set_title title now) (λ _. refl) (λ _. refl) d

  status-IsOwned : (now d : ℕ) (s : Status) → IsOwned (update_document_status now d s db).1
  unfolding update_document_status
  status-IsOwned now d s = update_document-IsOwned db o (set_status s now) (λ _. refl) (λ _. refl) d

  deleted-IsOwned : (now d : ℕ) → IsOwned (soft_delete_document now d db).1
  unfolding soft_delete_document
  deleted-IsOwned now d =
      update_document-IsOwned db o (set_status deleted now) (λ _. refl) (λ _. refl) d

  added-IsOwned :
      (id now d : ℕ) (email : String) (role : MemberRole)
      → creator_of db d ≢ none
      → IsOwned (add_document_member id now d email (to_role role) db).1
  unfolding add_document_member
  added-IsOwned id now d email role there =
      Adds-IsOwned db d (to_role role) (add_member id now d email (to_role role) db) o
        (to_role-ne-author role) there (add_member-Frames db id now d email (to_role role))
        (add_member-Adds id now d email (to_role role) db)

  -- One request keeps the owners, whoever makes it and however it ends.
  handle-IsOwned :
      (config : LinkConfig) (t : Moment) (caller : ℕ) (r : Request)
      → IsFresh t db
      → IsOwned (handle config t caller r db).1
  unfolding handle
  handle-IsOwned config t caller (create title) fresh =
      replies (create_document t.id t.other_id t.now title caller) (λ d. one_document (some d))
        (create_document-IsOwned t.id t.other_id t.now title caller db o fresh)
  handle-IsOwned config t caller (change_title d title) fresh =
      Checks_cases db _ (λ r. IsOwned r.1) (writer_guards d caller)
        (λ _. update_document_title t.now d title >>= λ x. pure (one_document x))
        (writer_guards-Checks d db caller)
        (λ _ _.
          replies (update_document_title t.now d title) one_document (title-IsOwned t.now d title))
        (λ e. o)
  handle-IsOwned config t caller (change_status d status) fresh =
      as_author d caller
        (update_document_status t.now d (to_status status) >>= λ x. pure (one_document x))
        λ there mine.
          replies (update_document_status t.now d (to_status status)) one_document
            (status-IsOwned t.now d (to_status status))
  handle-IsOwned config t caller (delete_document d) fresh =
      as_author d caller (soft_delete_document t.now d >> pure no_content) λ there mine.
        replies (soft_delete_document t.now d) (λ _. no_content) (deleted-IsOwned t.now d)
  handle-IsOwned config t caller (add d email role) fresh =
      as_author d caller
        (add_document_member t.id t.now d email (to_role role) >>= λ m. pure (one_member m))
        λ there mine.
          replies (add_document_member t.id t.now d email (to_role role)) one_member
            (added-IsOwned t.id t.now d email role there)
  handle-IsOwned config t caller (change_role d target role) fresh =
      as_author d caller
        (update_document_member_role t.now d target caller (to_role role) >>= λ m.
          pure (one_member m))
        λ there mine.
          replies (update_document_member_role t.now d target caller (to_role role)) one_member (
            update_document_member_role-IsOwned db d target o t.now caller (to_role role)
              (to_role-ne-author role) mine there)
  handle-IsOwned config t caller (remove d target) fresh =
      as_author d caller (remove_document_member d target caller >> pure no_content) λ there mine.
        replies (remove_document_member d target caller) (λ _. no_content)
          (remove_document_member-IsOwned db d target o caller mine there)
  handle-IsOwned config t caller (create_link d role single) fresh =
      let dto : CreateShareLink = record { role = to_role role; is_single_use = single } in
      as_author d caller
        (create_share_link config t.id t.other_id t.now d caller dto >>= λ p.
          pure (new_link p.0 p.1))
        λ there mine.
          replies (create_share_link config t.id t.other_id t.now d caller dto)
            (λ p. new_link p.0 p.1)
            (create_share_link-IsOwned db o config t.id t.other_id t.now d caller dto
              (to_role-ne-author role))
  handle-IsOwned config t caller (revoke_link d token) fresh =
      as_author d caller (revoke_share_link t.now d token >>= λ l. pure (one_link l)) λ there mine.
        replies (revoke_share_link t.now d token) one_link
          (revoke_share_link-IsOwned db o t.now d token)
  handle-IsOwned config t caller (claim_link d token) fresh =
      Checks_cases db _ (λ r. IsOwned r.1) (document_exists_guard d)
        (λ _. claim_share_link t.id t.now d token caller >>= λ p. pure (claimed p.0 p.1))
        (document_exists_guard-Checks d db)
        (λ _ there.
          replies (claim_share_link t.id t.now d token caller) (λ p. claimed p.0 p.1)
            (claim_share_link-IsOwned db t.id t.now d token caller o there))
        (λ e. o)

-- In a history each new document gets an id that is no document's at that moment.
abbrev pub AreFresh : LinkConfig → List (Moment × ℕ × Request) → Database → Type 0
AreFresh config [] db = Unit
AreFresh config ((t, caller, r) ∷ rs) db =
    IsFresh t db × AreFresh config rs (handle config t caller r db).1

-- Over any history of requests that begins with an owned database, whatever the callers and however
-- the requests end: a user is the author of a document exactly if that user created it, only
-- documents that are there have members, and no share link gives the author's role. The ids
-- generated for new documents are new.
pub serve-IsOwned :
    (config : LinkConfig) (rs : List (Moment × ℕ × Request)) (db : Database)
    → IsOwned db
    → AreFresh config rs db
    → IsOwned (serve config rs db)
unfolding serve
serve-IsOwned config [] db o fresh = o
serve-IsOwned config ((t, caller, r) ∷ rs) db o (new, fresh) =
    serve-IsOwned config rs (handle config t caller r db).1
      (handle-IsOwned db o config t caller r new) fresh
