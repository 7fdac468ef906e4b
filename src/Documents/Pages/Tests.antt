-- ===== src/Documents/Pages/Tests.antt =====
-- Pages of the documents of a user at a concrete database.
use meridian_backend.Prelude.{
  ℕ, ◌+◌, ◌-◌, ◌≤◌, if◌then◌else◌, Bool, none, some, ok, List, [], ◌∷◌, length, select_where, map,
  ◌==◌, ◌≡◌, refl, arith,
}
use meridian_backend.Schema.{
  Status, active, deleted, Document, Membership, Database, editor, invite,
}
use meridian_backend.Samples.{shared, user_one, user_two}
use meridian_backend.Documents.Members.{
  document_member, get_document_members, get_document_with_member_count,
}
use meridian_backend.Documents.Pages.{
  DocumentWithRole, user_documents, list_user_documents_with_role,
}
use meridian_backend.Documents.Pages.Order.{AreDistinct, AreNewestFirst}
use meridian_backend.Documents.Pages.Cover.{pages, list_user_documents_with_role-pages}

abbrev document_at : ℕ → ℕ → Status → Document
document_at id updated_at status = record {
  id = id;
  title = "Notes";
  status = status;
  created_by = 1;
  latest_snapshot_id = none;
  created_at = 1;
  updated_at = updated_at;
}

abbrev editor_of : ℕ → ℕ → Membership
editor_of user_id document_id = record {
  id = document_id + 20;
  document_id = document_id;
  user_id = user_id;
  role = editor;
  membership_mode = invite;
  created_at = 6;
  updated_at = 6;
}

-- User 1 has four documents, one of them deleted, and user 2 has one of these.
abbrev library : Database
library = record shared {
  documents =
      document_at 10 6 active
      ∷ document_at 11 9 active
      ∷ document_at 12 8 deleted
      ∷ document_at 13 7 active
      ∷ [];
  memberships =
      editor_of 1 10 ∷ editor_of 1 11 ∷ editor_of 2 11 ∷ editor_of 1 12 ∷ editor_of 1 13 ∷ [];
}

abbrev ids : List DocumentWithRole → List ℕ
ids = map (λ row. row.document.id)

-- Choices of the database for equal instants, one of which changes from page to page.
abbrev by_id : DocumentWithRole → ℕ
by_id row = row.document.id

abbrev by_turns : ℕ → DocumentWithRole → ℕ
by_turns page row = if page == 1 then row.document.id else 100 - row.document.id

library-AreDistinct : AreDistinct (user_documents 1 library)
library-AreDistinct =
    ((λ h. ground arith, (λ h. ground arith, tt)), ((λ h. ground arith, tt), (tt, tt)))

first_page : ids (list_user_documents_with_role by_id 1 1 2 library).data_ ≡ 11 ∷ 13 ∷ []
unfolding list_user_documents_with_role
first_page = refl

second_page : ids (list_user_documents_with_role by_id 1 2 2 library).data_ ≡ 10 ∷ []
unfolding list_user_documents_with_role
second_page = refl

two_pages : (list_user_documents_with_role by_id 1 1 2 library).meta.total_pages ≡ 2
unfolding list_user_documents_with_role
two_pages = refl

abbrev is_ten : DocumentWithRole → Bool
is_ten row = row.document.id == 10

list_user_documents_with_role-pages_example :
    AreNewestFirst (
      pages by_turns 1 2 library
        (list_user_documents_with_role by_id 1 1 2 library).meta.total_pages
        1)
    × (length (
          select_where is_ten (
            pages by_turns 1 2 library
              (list_user_documents_with_role by_id 1 1 2 library).meta.total_pages
              1))
        ≡ length (select_where is_ten (user_documents 1 library)))
    × (length (list_user_documents_with_role by_id 1 1 2 library).data_ ≤ 2)
list_user_documents_with_role-pages_example =
    list_user_documents_with_role-pages by_turns by_id 1 2 library 1 is_ten library-AreDistinct
      (omega arith)

members_of_eleven : (get_document_members 11 library) ≡ (
  ok (document_member (editor_of 1 11) user_one ∷ document_member (editor_of 2 11) user_two ∷ []),
  library,
)
unfolding get_document_members
members_of_eleven = refl

count_of_eleven :
    (get_document_with_member_count 11 library) ≡ (ok (some (document_at 11 9 active), 2), library)
unfolding get_document_with_member_count
count_of_eleven = refl

-- Two documents of one instant: a change of the order between the queries shows one of them twice.
abbrev tied : Database
tied = record library { documents = document_at 10 6 active ∷ document_at 11 6 active ∷ [] }

shown_twice : ids (pages by_turns 1 1 tied 2 1) ≡ 10 ∷ 10 ∷ []
unfolding list_user_documents_with_role
shown_twice = refl
