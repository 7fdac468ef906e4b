-- ===== src/Memberships.antt =====
-- src/memberships/memberships.service.ts, over the tables of Schema.antt.
pub mod Frames
pub mod Roles
mod Tests
use meridian_backend.Prelude.{
  ℕ, String, Bool, true, false, ◌&&◌, Option, none, some, List, [], ◌∷◌, ◌++◌, Action, Result, ok,
  err, pure, gets, or_throw, modify, ◌>>=◌, ◌>>◌, Exception, not_found, conflict, pg_error,
  plain_error, find_where, update_where, delete_where, any, is_some, if◌then◌else◌, ◌==◌,
}
use meridian_backend.Schema.{
  Role, Mode, invite, link, Membership, Document, User, Database, same_member,
}
use meridian_backend.Users.{SafeUser, has_id, get_user_by_email, get_user_by_id}

-- What the service returns of a member.
pub record Member : Type 0 where
  pub id : ℕ
  pub first_name : String
  pub last_name : String
  pub role : Role
  pub membership_mode : Mode
  pub created_at : ℕ

-- `and(eq(documentId), eq(userId))`
abbrev pub is_membership : ℕ → ℕ → Membership → Bool
is_membership document_id user_id m = m.document_id == document_id && m.user_id == user_id

abbrev pub has_document_id : ℕ → Document → Bool
has_document_id id d = d.id == id

abbrev pub get_user_document_membership : ℕ → ℕ → Action Database (Option Membership)
get_user_document_membership document_id user_id =
    gets (λ db. find_where (is_membership document_id user_id) db.memberships)

-- The foreign keys of a membership row.
abbrev pub has_references : Database → Membership → Bool
has_references db m =
    is_some (find_where (has_document_id m.document_id) db.documents)
    && is_some (find_where (has_id m.user_id) db.users)

-- `insert(memberships).values(row).onConflictDoNothing().returning()`: no row comes back where the
-- unique constraint on (documentId, userId) is hit.
abbrev pub insert_or_nothing : Membership → Action Database (Option Membership)
insert_or_nothing m db =
    if any (same_member m) db.memberships
    then (ok none, db)
    else if has_references db m
    then (ok (some m), record db { memberships = db.memberships ++ m ∷ [] })
    else (err (pg_error "23503"), db)

abbrev pub to_member : SafeUser → Membership → Member
to_member user m = record {
  id = user.id;
  first_name = user.first_name;
  last_name = user.last_name;
  role = m.role;
  membership_mode = m.membership_mode;
  created_at = m.created_at;
}

-- A new row, with the generated id and the time of its insertion.
abbrev pub new_membership : ℕ → ℕ → ℕ → ℕ → Role → Mode → Membership
new_membership id now document_id user_id role mode = record {
  id = id;
  document_id = document_id;
  user_id = user_id;
  role = role;
  membership_mode = mode;
  created_at = now;
  updated_at = now;
}

-- `addMember` after its insertion.
abbrev reply : SafeUser → Option Membership → Action Database Member
reply user inserted = do
  membership ← or_throw inserted (conflict "User is already a member of this document.")
  pure (to_member user membership)

-- `addMemberViaLink` after its insertion.
abbrev reply_via_link : ℕ → Option Membership → Action Database Member
reply_via_link user_id inserted = do
  member ← or_throw inserted (conflict "User is already a member of this document.")
  found ← get_user_by_id user_id
  user ← or_throw found (plain_error "Cannot read properties of undefined (reading 'id')")
  pure (to_member user member)

module _ (id now : ℕ) where
  unfoldable pub add_member : ℕ → String → Role → Action Database Member
  add_member document_id email role = do
    found ← get_user_by_email email
    user ← or_throw found (not_found "User not found.")
    inserted ← insert_or_nothing (new_membership id now document_id user.id role invite)
    reply user inserted

  unfoldable pub add_member_via_link : ℕ → ℕ → Role → Action Database Member
  add_member_via_link document_id user_id role = do
    inserted ← insert_or_nothing (new_membership id now document_id user_id role link)
    reply_via_link user_id inserted

abbrev set_role : Role → ℕ → Membership → Membership
set_role role now m = record m { role = role; updated_at = now }

unfoldable pub update_member_role : ℕ → ℕ → ℕ → Role → Action Database Member
update_member_role now document_id user_id role = do
  modify (λ db. record db {
    memberships =
        update_where (is_membership document_id user_id) (set_role role now) db.memberships;
  })
  updated ← get_user_document_membership document_id user_id
  membership ← or_throw updated (not_found "Member not found")
  found ← get_user_by_id user_id
  user ← or_throw found (plain_error "Cannot read properties of undefined (reading 'id')")
  pure (to_member user membership)

unfoldable pub remove_member : ℕ → ℕ → Action Database (Unit {0})
remove_member document_id user_id = modify (λ db. record db {
  memberships = delete_where (is_membership document_id user_id) db.memberships;
})
