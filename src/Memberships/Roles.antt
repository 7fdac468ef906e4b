-- ===== src/Memberships/Roles.antt =====
-- The abstract view of src/memberships/memberships.service.ts: who has which role on which document.
-- Each operation is a change of that map, and keeps the unique constraint.
use mathlib.Core.Option
use meridian_backend.Prelude.{
  ℕ, String, true, false, ◌&&◌, Option, none, some, List, [], ◌∷◌, ◌++◌, Result, ok, err, not_found,
  find_where, update_where, delete_where, any, if◌then◌else◌, ◌==◌, ◌≡◌, refl, arith, inl, inr,
  Bool-cases, Option-cases, ap, is_some, resume, find_where_sound, find_where-some, ==_iff,
}
use meridian_backend.Schema.{Role, Membership, Database, same_member, invite, link}
use meridian_backend.Users.{SafeUser, has_id, has_email, safe_user_columns}
use meridian_backend.Memberships.{
  Member, is_membership, insert_or_nothing, new_membership, add_member, add_member_via_link,
  update_member_role, remove_member, set_role, reply, reply_via_link, has_references,
}

abbrev role_in : ℕ → ℕ → List Membership → Option Role
role_in d u ms = Option.map (λ m. m.role) (find_where (is_membership d u) ms)

-- The role of a user on a document, if the user is a member of it.
abbrev pub role_of : Database → ℕ → ℕ → Option Role
role_of db d u = role_in d u db.memberships

-- The map with one entry written.
abbrev pub with_role : (ℕ → ℕ → Option Role) → ℕ → ℕ → Option Role → ℕ → ℕ → Option Role
with_role f d u r d' u' = if d == d' && u == u' then r else f d' u'

-- What a call that adds a member has done: it was no member before and has the role now, and
-- every other entry is as before; or the call threw and changed nothing.
abbrev pub Adds : Database → ℕ → Role → Result Member × Database → Type 0
Adds db d role (ok m, db') =
    (role_of db d m.id ≡ none)
    × (m.role ≡ role)
    × ((d' u' : ℕ) → role_of db' d' u' ≡ with_role (role_of db) d m.id (some role) d' u')
Adds db d role (err e, db') = db' ≡ db

module _ (m : Membership) where
  find_where-any-same_member :
      (xs : List Membership)
      → any (same_member m) xs ≡ false
      → find_where (is_membership m.document_id m.user_id) xs ≡ none
  find_where-any-same_member [] h = refl
  find_where-any-same_member (x ∷ xs) h = ground (arith, find_where-any-same_member xs)

  -- The entries after a row is added to a table that holds none of its key.
  role_in-append :
      (d u : ℕ) (xs : List Membership)
      → any (same_member m) xs ≡ false
      → role_in d u (xs ++ m ∷ [])
        ≡ (if m.document_id == d && m.user_id == u then some m.role else role_in d u xs)
  role_in-append d u [] h = ground arith
  role_in-append d u (x ∷ xs) h = ground (arith, role_in-append d u xs)

any-same_member-find_where :
    (m : Membership) (xs : List Membership)
    → role_in m.document_id m.user_id xs ≡ none
    → any (same_member m) xs ≡ false
any-same_member-find_where m [] h = refl
any-same_member-find_where m (x ∷ xs) h = ground (arith, any-same_member-find_where m xs)

-- A row of a new key, added to the table, adds its entry to the map.
pub role_of-append :
    (m : Membership) (db : Database) (d u : ℕ)
    → role_of db m.document_id m.user_id ≡ none
    → role_of (record db { memberships = db.memberships ++ m ∷ [] }) d u
      ≡ with_role (role_of db) m.document_id m.user_id (some m.role) d u
role_of-append m db d u h =
    role_in-append m d u db.memberships (any-same_member-find_where m db.memberships h)

-- What an insertion under the unique constraint has done.
abbrev Inserts : Membership → Database → Result (Option Membership) × Database → Type 0
Inserts m db (ok none, db') = db' ≡ db
Inserts m db (ok (some n), db') =
    (n ≡ m)
    × (role_of db m.document_id m.user_id ≡ none)
    × ((d' u' : ℕ)
        → role_of db' d' u' ≡ with_role (role_of db) m.document_id m.user_id (some m.role) d' u')
    × (is_some (find_where (has_id m.user_id) db'.users) ≡ true)
Inserts m db (err e, db') = db' ≡ db

insert_or_nothing-Inserts : (m : Membership) (db : Database) → Inserts m db (insert_or_nothing m db)
insert_or_nothing-Inserts m db = elim (Bool-cases (any (same_member m) db.memberships)) [
  | inl old ↦ rw old refl
  | inr new ↦ elim (Bool-cases (has_references db m)) [
    | inl there ↦
        rw (new, there)
          (
            refl,
            rw (find_where-any-same_member m db.memberships new) refl,
            λ d' u'. role_in-append m d' u' db.memberships new,
            ground arith,
          )
    | inr dangling ↦ rw (new, dangling) refl
  ]
]

-- An insertion that is followed by a reply about the same user.
reply-Adds :
    (m : Membership) (user : SafeUser) (db : Database) (p : Result (Option Membership) × Database)
    → user.id ≡ m.user_id
    → Inserts m db p
    → Adds db m.document_id m.role (resume p (reply user))
reply-Adds m user db (ok none, db') same h = h
reply-Adds m user db (ok (some n), db') same (e, fresh, written, there) =
    rw same (fresh, ap (λ (k : Membership). k.role) e, written)
reply-Adds m user db (err e, db') same h = h

module _ (id now : ℕ) (document_id : ℕ) where
  -- Adding a member either throws and changes nothing, or finds no role for the pair of document and
  -- user, and writes exactly that entry of the map of roles.
  pub add_member-Adds :
      (email : String) (role : Role) (db : Database)
      → Adds db document_id role (add_member id now document_id email role db)
  unfolding add_member
  add_member-Adds email role db = elim (Option-cases (find_where (has_email email) db.users)) [
    | inl missing ↦ rw missing refl
    | inr (user, found) ↦
        let m = new_membership id now document_id user.id role invite in
        rw found (
          reply-Adds m (safe_user_columns user) db (insert_or_nothing m db) refl
            (insert_or_nothing-Inserts m db))
  ]

module _ (id now : ℕ) (document_id user_id : ℕ) where
  -- Joining by a link either throws and changes nothing, or finds no role for the pair of document
  -- and user, and writes exactly that entry of the map of roles.
  pub add_member_via_link-Adds :
      (role : Role) (db : Database)
      → Adds db document_id role (add_member_via_link id now document_id user_id role db)
  unfolding add_member_via_link
  add_member_via_link-Adds role db = go (insert_or_nothing m db) (insert_or_nothing-Inserts m db)
    where
      m : Membership
      m = new_membership id now document_id user_id role link

      go :
          (p : Result (Option Membership) × Database)
          → Inserts m db p
          → Adds db document_id role (resume p (reply_via_link user_id))
      go (ok none, db') h = h
      go (ok (some n), db') (e, fresh, written, there) =
          let (user, found) = find_where-some (has_id user_id) db'.users there in
          let same : user.id ≡ user_id =
            (==_iff user.id user_id).0 (find_where_sound (has_id user_id) db'.users user found) in
          rw (found, same) (fresh, ap (λ (k : Membership). k.role) e, written)
      go (err e, db') h = h

module _ (now document_id user_id : ℕ) (role : Role) where
  abbrev updated : List Membership → List Membership
  updated = update_where (is_membership document_id user_id) (set_role role now)

  role_in-update_where :
      (d u : ℕ) (xs : List Membership)
      → role_in d u (updated xs) ≡ (
          if document_id == d && user_id == u
          then Option.map (λ _. role) (role_in document_id user_id xs)
          else role_in d u xs)
  role_in-update_where d u [] = ground arith
  role_in-update_where d u (x ∷ xs) = ground (arith, role_in-update_where d u xs)

  -- After a role is changed, the map of roles has the new role at that document and user if there
  -- was one, and is the same everywhere else.
  pub role_of-update_member_role :
      (d u : ℕ) (db : Database)
      → role_of (update_member_role now document_id user_id role db).1 d u
        ≡ with_role
            (role_of db)
            document_id
            user_id
            (Option.map (λ _. role) (role_of db document_id user_id))
            d
            u
  unfolding update_member_role
  role_of-update_member_role d u db = ground (arith, role_in-update_where d u db.memberships)

  -- It throws `NotFoundException` for a user who is no member.
  pub update_member_role-not_found :
      (db : Database)
      → role_of db document_id user_id ≡ none
      → (update_member_role now document_id user_id role db).0 ≡ err (not_found "Member not found")
  unfolding update_member_role
  update_member_role-not_found db h =
      ground (arith, role_in-update_where document_id user_id db.memberships)

module _ (document_id user_id : ℕ) where
  role_in-delete_where :
      (d u : ℕ) (xs : List Membership)
      → role_in d u (delete_where (is_membership document_id user_id) xs)
        ≡ (if document_id == d && user_id == u then none else role_in d u xs)
  role_in-delete_where d u [] = ground arith
  role_in-delete_where d u (x ∷ xs) = ground (arith, role_in-delete_where d u xs)

  -- After a member is removed, the map of roles has no entry at that document and user, and is the
  -- same everywhere else.
  pub role_of-remove_member :
      (d u : ℕ) (db : Database)
      → role_of (remove_member document_id user_id db).1 d u
        ≡ with_role (role_of db) document_id user_id none d u
  unfolding remove_member
  role_of-remove_member d u db = role_in-delete_where d u db.memberships
