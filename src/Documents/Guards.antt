-- ===== src/Documents/Guards.antt =====
-- src/documents/documents.guards.ts. What a guard leaves on the request for the next one, the role
-- of the member, is its result. `JwtAuthGuard`, which runs first, is in Auth/Tokens.antt.
use meridian_backend.Prelude.{
  ℕ, Bool, true, false, not, Option, none, some, ◌≡◌, inl, inr, ◌≢◌, refl, ap, arith, Option-cases,
  find_where, Bool-cases, Action, Checks, Checks_cases, Checks-imp, pure, throw_if, or_throw, ◌>>=◌,
  ◌>>◌, not_found, unauthorized, forbidden,
}
use meridian_backend.Schema.{Role, author, editor, viewer, Status, deleted, Document, Database}
use mathlib.Core.Option
use meridian_backend.Memberships.Roles.{role_of}
use meridian_backend.Memberships.{has_document_id, is_membership, get_user_document_membership}
use meridian_backend.Documents.{get_document_by_id}

abbrev pub is_deleted : Status → Bool
is_deleted deleted = true
is_deleted _ = false

-- `!document || document.status === 'deleted'`
abbrev pub is_gone : Option Document → Bool
is_gone none = true
is_gone (some d) = is_deleted d.status

unfoldable pub document_exists_guard : ℕ → Action Database (Unit {0})
document_exists_guard document_id = do
  document ← get_document_by_id document_id
  throw_if (is_gone document) (not_found "Document not found")

-- `request.user?.userId` is there if `JwtAuthGuard` ran before.
unfoldable pub document_membership_guard : ℕ → Option ℕ → Action Database Role
document_membership_guard document_id user = do
  user_id ← or_throw user (unauthorized "Authentication required")
  found ← get_user_document_membership document_id user_id
  membership ← or_throw found (forbidden "User is not a member of this document")
  pure membership.role

abbrev pub can_write : Option Role → Bool
can_write (some author) = true
can_write (some editor) = true
can_write _ = false

abbrev pub is_author : Option Role → Bool
is_author (some author) = true
is_author _ = false

-- `request.membershipRole` is absent where the membership guard did not run.
unfoldable pub document_write_access_guard : Option Role → Action Database (Unit {0})
document_write_access_guard role =
    throw_if (not (can_write role)) (forbidden "Insufficient permissions")

unfoldable pub document_author_guard : Option Role → Action Database (Unit {0})
document_author_guard role = throw_if (not (is_author role)) (forbidden "Insufficient permissions")

-- The guards of a route, in the order of `@UseGuards`.
unfoldable pub member_guards : ℕ → ℕ → Action Database Role
unfolding document_exists_guard document_membership_guard
member_guards document_id user_id = do
  document_exists_guard document_id
  document_membership_guard document_id (some user_id)

unfoldable pub writer_guards : ℕ → ℕ → Action Database (Unit {0})
unfolding member_guards document_write_access_guard
writer_guards document_id user_id = do
  role ← member_guards document_id user_id
  document_write_access_guard (some role)

unfoldable pub author_guards : ℕ → ℕ → Action Database (Unit {0})
unfolding member_guards document_author_guard
author_guards document_id user_id = do
  role ← member_guards document_id user_id
  document_author_guard (some role)

-- Who created a document that is there.
abbrev pub creator_of : Database → ℕ → Option ℕ
creator_of db d = Option.map (λ c. c.created_by) (find_where (has_document_id d) db.documents)

-- A document is there and it is not deleted.
abbrev pub IsLive : Database → ℕ → Type 0
IsLive db d =
    (document : Document) × ((find_where (has_document_id d) db.documents ≡ some document)
      × (document.status ≢ deleted))

pub IsLive-creator_of : (db : Database) (d : ℕ) → IsLive db d → creator_of db d ≢ none
IsLive-creator_of db d (document, (found, live)) = λ h. cc (found, h)

kept_status : (s : Status) → is_deleted s ≡ false → s ≢ deleted
kept_status s kept same = cc (kept, ap is_deleted same)

module _ (document_id : ℕ) (db : Database) where
  document_exists_guard-IsLive :
      Checks db (λ _. IsLive db document_id) (document_exists_guard document_id db)
  unfolding document_exists_guard
  document_exists_guard-IsLive =
      elim (Option-cases (find_where (has_document_id document_id) db.documents)) [
        | inl missing ↦ rw missing refl
        | inr (d, found) ↦ elim (Bool-cases (is_deleted d.status)) [
          | inl gone ↦ rw (found, gone) refl
          | inr there ↦ rw (found, there) (refl, (d, (refl, kept_status d.status there)))
        ]
      ]

  pub document_exists_guard-Checks :
      Checks db (λ _. creator_of db document_id ≢ none) (document_exists_guard document_id db)
  document_exists_guard-Checks =
      Checks-imp db _ _ (λ _ live. IsLive-creator_of db document_id live)
        (document_exists_guard document_id db) document_exists_guard-IsLive

  document_membership_guard-Checks :
      (user_id : ℕ)
      → Checks db
          (λ role. role_of db document_id user_id ≡ some role)
          (document_membership_guard document_id (some user_id) db)
  unfolding document_membership_guard
  document_membership_guard-Checks user_id =
      elim (Option-cases (find_where (is_membership document_id user_id) db.memberships)) [
        | inl stranger ↦ rw stranger refl
        | inr (m, joined) ↦ rw joined (refl, ground arith)
      ]

  author_guard-Checks :
      (role : Role) → Checks db (λ _. role ≡ author) (document_author_guard (some role) db)
  unfolding document_author_guard
  author_guard-Checks author = (refl, refl)
  author_guard-Checks editor = refl
  author_guard-Checks viewer = refl

  write_access_guard-Checks :
      (role : Role) → Checks db (λ _. role ≢ viewer) (document_write_access_guard (some role) db)
  unfolding document_write_access_guard
  write_access_guard-Checks author = (refl, λ h. cc h)
  write_access_guard-Checks editor = (refl, λ h. cc h)
  write_access_guard-Checks viewer = refl

  member_guards-Checks :
      (user_id : ℕ)
      → Checks db
          (λ role. IsLive db document_id × (role_of db document_id user_id ≡ some role))
          (member_guards document_id user_id db)
  unfolding member_guards
  member_guards-Checks user_id =
      Checks_cases db _ (Checks db _) (document_exists_guard document_id)
        (λ _. document_membership_guard document_id (some user_id)) document_exists_guard-IsLive
        (λ _ there.
          Checks-imp db _ _ (λ role joined. (there, joined))
            (document_membership_guard document_id (some user_id) db)
            (document_membership_guard-Checks user_id))
        (λ e. refl)

  -- The guards of the author's routes let through only the author of a document that is
  -- there and not deleted.
  pub author_guards-Checks :
      (user_id : ℕ)
      → Checks db
          (λ _. IsLive db document_id × (role_of db document_id user_id ≡ some author))
          (author_guards document_id user_id db)
  unfolding author_guards
  author_guards-Checks user_id =
      Checks_cases db _ (Checks db _) (member_guards document_id user_id)
        (λ role. document_author_guard (some role)) (member_guards-Checks user_id)
        (λ role member.
          Checks-imp db _ _ (λ _ same. (member.0, rw (← same) member.1))
            (document_author_guard (some role) db) (author_guard-Checks role))
        (λ e. refl)

  -- The guards of the title's route let through only a member who is no viewer.
  pub writer_guards-Checks :
      (user_id : ℕ)
      → Checks db
          (λ _. (role : Role) × (role_of db document_id user_id ≡ some role) × (role ≢ viewer))
          (writer_guards document_id user_id db)
  unfolding writer_guards
  writer_guards-Checks user_id =
      Checks_cases db _ (Checks db _) (member_guards document_id user_id)
        (λ role. document_write_access_guard (some role)) (member_guards-Checks user_id)
        (λ role member.
          Checks-imp db _ _ (λ _ writes. (role, member.1, writes))
            (document_write_access_guard (some role) db) (write_access_guard-Checks role))
        (λ e. refl)
