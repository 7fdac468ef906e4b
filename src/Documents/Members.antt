-- ===== src/Documents/Members.antt =====
-- src/documents/documents.service.ts: getDocumentWithMemberCount and getDocumentMembers.
use meridian_backend.Prelude.{
  ℕ, String, Bool, Option, List, [], ◌++◌, map, length, Action, pure, gets, ◌>>=◌, select_where,
  ◌==◌, ◌∷◌,
}
use meridian_backend.Schema.{Role, Mode, User, Document, Membership, Database}
use meridian_backend.Documents.{get_document_by_id}

abbrev pub is_of : ℕ → Membership → Bool
is_of document_id m = m.document_id == document_id

unfoldable pub get_document_with_member_count : ℕ → Action Database (Option Document × ℕ)
get_document_with_member_count document_id = do
  document_row ← get_document_by_id document_id
  member_count ← gets (λ db. length (select_where (is_of document_id) db.memberships))
  pure (document_row, member_count)

pub record DocumentMember : Type 0 where
  pub id : ℕ
  pub first_name : String
  pub last_name : String
  pub role : Role
  pub membership_mode : Mode
  pub created_at : ℕ

-- The columns that the query selects.
abbrev pub document_member : Membership → User → DocumentMember
document_member m u = record {
  id = u.id;
  first_name = u.first_name;
  last_name = u.last_name;
  role = m.role;
  membership_mode = m.membership_mode;
  created_at = m.created_at;
}

-- `innerJoin` on `memberships.userId = users.id`
abbrev pub with_users : List Membership → List User → List DocumentMember
with_users [] users = []
with_users (m ∷ ms) users =
    map (document_member m) (select_where (λ u. m.user_id == u.id) users) ++ with_users ms users

unfoldable pub get_document_members : ℕ → Action Database (List DocumentMember)
get_document_members document_id =
    gets (λ db. with_users (select_where (is_of document_id) db.memberships) db.users)
