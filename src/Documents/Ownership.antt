-- ===== src/Documents/Ownership.antt =====
-- Who owns a document: over every route of src/documents/documents.controller.ts its author is its
-- creator, and nobody else.
pub mod Rows
pub mod Histories
use mathlib.Core.Option
use meridian_backend.Prelude.{
  ℕ, String, Bool, true, false, Option, none, some, List, [], ◌∷◌, ◌++◌, Result, ok, err, Exception,
  Action, ◌≡◌, ◌≢◌, ◌⊎◌, inl, inr, refl, arith, All, All-append, find_where, update_where,
  if◌then◌else◌, ◌==◌, ◌&&◌, resume, pure, ◌>>=◌, ◌>>◌, Option-cases, Bool-cases, transaction_cases,
  >>=_cases,
}
use meridian_backend.Schema.{
  Role, author, editor, viewer, Document, Membership, ShareLink, Database,
}
use meridian_backend.Memberships.{
  Member, has_document_id, is_membership, add_member, add_member_via_link, update_member_role,
  remove_member,
}
use meridian_backend.Memberships.Roles.{
  role_of, with_role, Adds, add_member-Adds, add_member_via_link-Adds, role_of-update_member_role,
  role_of-remove_member,
}
use meridian_backend.Memberships.Frames.{
  Frames, add_member-Frames, add_member_via_link-Frames, update_member_role-Frames,
  remove_member-Frames,
}
use meridian_backend.Documents.{
  update_document, update_document_member_role, remove_document_member,
}
use meridian_backend.Documents.Guards.{creator_of, author_guards-Checks}
use meridian_backend.Documents.Endpoints.{
  MemberRole, as_editor, as_viewer, to_role, Request, handle,
}

-- The author of a document is its creator, always; only documents that are there have members; and
-- no link hands out authorship.
pub record IsOwned (db : Database) : Type 0 where
  pub author_creator : (d u : ℕ) → role_of db d u ≡ some author → creator_of db d ≡ some u
  pub creator_author : (d u : ℕ) → creator_of db d ≡ some u → role_of db d u ≡ some author
  pub member_document : (d u : ℕ) → creator_of db d ≡ none → role_of db d u ≡ none
  pub link_roles : All (λ l. l.role ≢ author) db.share_links

-- A change of one entry of the role map, which neither takes nor gives authorship.
with_role-IsOwned :
    (db db' : Database) (d u : ℕ) (r : Option Role)
    → IsOwned db
    → Frames db db'
    → ((d' u' : ℕ) → role_of db' d' u' ≡ with_role (role_of db) d u r d' u')
    → r ≢ some author
    → role_of db d u ≢ some author
    → creator_of db d ≢ none
    → IsOwned db'
with_role-IsOwned db db' d u r o f change other before there = record {
  author_creator =
      λ d' u' h. ground (arith, f.same_documents, change d' u', o.author_creator d' u');
  creator_author =
      λ d' u' h. ground (arith, f.same_documents, change d' u', o.creator_author d' u');
  member_document =
      λ d' u' h. ground (arith, f.same_documents, change d' u', o.member_document d' u');
  link_roles = rw f.same_links o.link_roles;
}

pub Adds-IsOwned :
    (db : Database) (d : ℕ) (role : Role) (p : Result Member × Database)
    → IsOwned db
    → role ≢ author
    → creator_of db d ≢ none
    → Frames db p.1
    → Adds db d role p
    → IsOwned p.1
Adds-IsOwned db d role (ok m, db') o other there f (fresh, _, written) =
    with_role-IsOwned db db' d m.id (some role) o f written (λ h. other (ground arith))
      (ground arith) there
Adds-IsOwned db d role (err e, db') o other there f same = rw same o

pub to_role-ne-author : (role : MemberRole) → to_role role ≢ author
to_role-ne-author as_editor h = cc
to_role-ne-author as_viewer h = cc

module _ (db : Database) (d u : ℕ) (o : IsOwned db) where
  -- A user other than the author is not the author.
  other-ne-author :
      (caller : ℕ) → role_of db d caller ≡ some author → u ≢ caller → role_of db d u ≢ some author
  other-ne-author caller h ne k =
      ne (ground (arith, o.author_creator d u k, o.author_creator d caller h))

  update_member_role-IsOwned :
      (now : ℕ) (role : Role)
      → role ≢ author
      → role_of db d u ≢ some author
      → creator_of db d ≢ none
      → IsOwned (update_member_role now d u role db).1
  update_member_role-IsOwned now role other before there =
      with_role-IsOwned db _ d u (Option.map (λ _. role) (role_of db d u)) o
        (update_member_role-Frames db now d u role)
        (λ d' u'. role_of-update_member_role now d u role d' u' db) (ground arith) before there

  remove_member-IsOwned :
      role_of db d u ≢ some author → creator_of db d ≢ none → IsOwned (remove_member d u db).1
  remove_member-IsOwned before there =
      with_role-IsOwned db _ d u none o (remove_member-Frames db d u)
        (λ d' u'. role_of-remove_member d u d' u' db) (λ h. cc h) before there

  pub update_document_member_role-IsOwned :
      (now caller : ℕ) (role : Role)
      → role ≢ author
      → role_of db d caller ≡ some author
      → creator_of db d ≢ none
      → IsOwned (update_document_member_role now d u caller role db).1
  unfolding update_document_member_role
  update_document_member_role-IsOwned now caller role other h there =
      elim (Bool-cases (u == caller)) [
        | inl self ↦ rw self o
        | inr differ ↦ elim (Option-cases (find_where (is_membership d u) db.memberships)) [
          | inl stranger ↦ rw (differ, stranger) o
          | inr (m, joined) ↦
              rw (differ, joined)
                (update_member_role-IsOwned now role other (other-ne-author caller h (ground arith))
                  there)
        ]
      ]

  pub remove_document_member-IsOwned :
      (caller : ℕ)
      → role_of db d caller ≡ some author
      → creator_of db d ≢ none
      → IsOwned (remove_document_member d u caller db).1
  unfolding remove_document_member
  remove_document_member-IsOwned caller h there = elim (Bool-cases (u == caller)) [
    | inl self ↦ rw self o
    | inr differ ↦ elim (Option-cases (find_where (is_membership d u) db.memberships)) [
      | inl stranger ↦ rw (differ, stranger) o
      | inr (m, joined) ↦
          rw (differ, joined)
            (remove_member-IsOwned (other-ne-author caller h (ground arith)) there)
    ]
  ]
