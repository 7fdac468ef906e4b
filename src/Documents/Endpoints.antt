-- ===== src/Documents/Endpoints.antt =====
-- The routes of src/documents/documents.controller.ts that change the database (the chat routes are
-- those of the AI service): each runs its guards, then the service. `JwtAuthGuard` has passed and
-- given the caller.
use meridian_backend.Prelude.{
  ℕ, String, Bool, Option, some, Action, ◌>>=◌, ◌>>◌, pure, List, [], ◌∷◌,
}
use meridian_backend.Schema.{
  Role, editor, viewer, Status, active, inactive, Document, ShareLink, Database,
}
use meridian_backend.Memberships.{Member}
use meridian_backend.ShareLinks.{LinkConfig, JoinUrl, create_share_link, revoke_share_link}
use meridian_backend.Documents.{
  create_document, update_document_title, update_document_status, soft_delete_document,
  add_document_member, update_document_member_role, remove_document_member, claim_share_link,
}
use meridian_backend.Documents.Guards.{document_exists_guard, writer_guards, author_guards}

-- The roles that `@IsIn(['editor', 'viewer'])` lets through.
pub data MemberRole : Type 0 where
  as_editor as_viewer : MemberRole

abbrev pub to_role : MemberRole → Role
to_role as_editor = editor
to_role as_viewer = viewer

-- The states that `@IsIn(['active', 'inactive'])` lets through.
pub data NewStatus : Type 0 where
  to_active to_inactive : NewStatus

abbrev pub to_status : NewStatus → Status
to_status to_active = active
to_status to_inactive = inactive

-- A request's parameters and its validated body.
pub data Request : Type 0 where
  create : (title : String) → Request
  change_title : (document_id : ℕ) (title : String) → Request
  change_status : (document_id : ℕ) → NewStatus → Request
  delete_document : (document_id : ℕ) → Request
  add : (document_id : ℕ) (email : String) → MemberRole → Request
  change_role : (document_id user_id : ℕ) → MemberRole → Request
  remove : (document_id user_id : ℕ) → Request
  create_link : (document_id : ℕ) → MemberRole → Option Bool → Request
  revoke_link : (document_id token : ℕ) → Request
  claim_link : (document_id token : ℕ) → Request

pub data Response : Type 0 where
  one_document : Option Document → Response
  one_member : Member → Response
  one_link : ShareLink → Response
  new_link : ShareLink → JoinUrl → Response
  claimed : Member → Option Document → Response
  no_content : Response

-- What the environment gives to a request: its time and the ids that it generates.
pub record Moment : Type 0 where
  pub now : ℕ
  pub id : ℕ
  pub other_id : ℕ

module _ (config : LinkConfig) where
  unfoldable pub handle : Moment → ℕ → Request → Action Database Response
  handle t caller (create title) = do
    document ← create_document t.id t.other_id t.now title caller
    pure (one_document (some document))
  handle t caller (change_title d title) = do
    writer_guards d caller
    document ← update_document_title t.now d title
    pure (one_document document)
  handle t caller (change_status d status) = do
    author_guards d caller
    document ← update_document_status t.now d (to_status status)
    pure (one_document document)
  handle t caller (delete_document d) = do
    author_guards d caller
    soft_delete_document t.now d
    pure no_content
  handle t caller (add d email role) = do
    author_guards d caller
    member ← add_document_member t.id t.now d email (to_role role)
    pure (one_member member)
  handle t caller (change_role d target role) = do
    author_guards d caller
    member ← update_document_member_role t.now d target caller (to_role role)
    pure (one_member member)
  handle t caller (remove d target) = do
    author_guards d caller
    remove_document_member d target caller
    pure no_content
  handle t caller (create_link d role single) = do
    author_guards d caller
    (link, url) ←
        create_share_link config t.id t.other_id t.now d caller
          (record { role = to_role role; is_single_use = single })
    pure (new_link link url)
  handle t caller (revoke_link d token) = do
    author_guards d caller
    link ← revoke_share_link t.now d token
    pure (one_link link)
  handle t caller (claim_link d token) = do
    document_exists_guard d
    (member, document) ← claim_share_link t.id t.now d token caller
    pure (claimed member document)

  -- A history of requests, each served to its end.
  unfoldable pub serve : List (Moment × ℕ × Request) → Database → Database
  serve [] db = db
  serve ((t, caller, r) ∷ rs) db = serve rs (handle t caller r db).1
