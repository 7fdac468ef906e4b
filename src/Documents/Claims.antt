-- ===== src/Documents/Claims.antt =====
-- `claimShareLink` of src/documents/documents.service.ts: how a single-use link is spent.
pub mod Once
pub mod Success
use mathlib.Core.Option
use meridian_backend.Prelude.{
  ℕ, String, Bool, true, false, Option, none, some, List, [], ◌∷◌, ◌++◌, Result, ok, err, Exception,
  Action, ◌≡◌, ◌≢◌, refl, pure, ◌>>=◌, ◌>>◌, inl, inr, Option-cases, Bool-cases, is_some,
  find_where, update_where, find_where-append-some, find_where-update_where, Checks_cases,
  state-bind_pure, subst, arith, ap, transaction, transaction_cases, >>=_cases, if◌then◌else◌,
  ==_refl,
}
use meridian_backend.Schema.{Role, ShareLink, Database}
use meridian_backend.Memberships.{Member, add_member_via_link}
use meridian_backend.Memberships.Frames.{
  Frames, add_member-Frames, add_member_via_link-Frames, update_member_role-Frames,
  remove_member-Frames,
}
use meridian_backend.ShareLinks.{
  LinkConfig, CreateShareLink, new_share_link, is_link, is_unrevoked_link, has_link_id, set_revoked,
  set_claimed, find_and_validate_link, mark_link_as_claimed, create_share_link, revoke_share_link,
}
use meridian_backend.ShareLinks.Validity.{link_of, IsClaimable, find_and_validate_link-Checks}
use meridian_backend.ShareLinks.Writes.{
  state-create_share_link, state-revoke_share_link, state-mark_link_as_claimed,
}
use meridian_backend.Documents.{
  claim, claim_validated, mark_if_single, with_document, claim_share_link,
}

-- The link is a single-use link that somebody has claimed.
pub record IsSpent (d token : ℕ) (db : Database) : Type 0 where
  pub row : ShareLink
  pub found : link_of db d token ≡ some row
  pub single : row.is_single_use ≡ true
  pub taken : is_some row.claimed_at ≡ true

module _ (d token : ℕ) where
  same_links-IsSpent :
      (db db' : Database)
      → db'.share_links ≡ db.share_links
      → IsSpent d token db
      → IsSpent d token db'
  same_links-IsSpent db db' same s = record {
    row = s.row;
    found = rw same s.found;
    single = s.single;
    taken = s.taken;
  }

  -- An update of links that keeps their keys and their use, and takes no claim back.
  update-IsSpent :
      (db : Database) (q : ShareLink → Bool) (f : ShareLink → ShareLink)
      → ((l : ShareLink) → is_link d token (f l) ≡ is_link d token l)
      → ((l : ShareLink) → (f l).is_single_use ≡ l.is_single_use)
      → ((l : ShareLink) → is_some l.claimed_at ≡ true → is_some (f l).claimed_at ≡ true)
      → IsSpent d token db
      → IsSpent d token (record db { share_links = update_where q f db.share_links })
  update-IsSpent db q f keys uses claims s = record {
    row = if q s.row then f s.row else s.row;
    found = find_where-update_where (is_link d token) q f keys db.share_links s.row s.found;
    single = ground (arith, uses s.row, s.single);
    taken = ground (arith, claims s.row, s.taken);
  }

  create_share_link-IsSpent :
      (db : Database) (config : LinkConfig) (id t now doc u : ℕ) (dto : CreateShareLink)
      → IsSpent d token db
      → IsSpent d token (create_share_link config id t now doc u dto db).1
  create_share_link-IsSpent db config id t now doc u dto s =
      rw (state-create_share_link db config id t now doc u dto) (record {
        row = s.row;
        found = find_where-append-some (is_link d token) db.share_links _ s.row s.found;
        single = s.single;
        taken = s.taken;
      })

  revoke_share_link-IsSpent :
      (db : Database) (now doc t : ℕ)
      → IsSpent d token db
      → IsSpent d token (revoke_share_link now doc t db).1
  revoke_share_link-IsSpent db now doc t s = rw (state-revoke_share_link db now doc t) (
      update-IsSpent db (is_unrevoked_link doc t) (set_revoked now) (λ l. refl) (λ l. refl)
        (λ l h. h) s)

  mark_link_as_claimed-IsSpent :
      (db : Database) (now id u : ℕ)
      → IsSpent d token db
      → IsSpent d token (mark_link_as_claimed now id u db).1
  mark_link_as_claimed-IsSpent db now id u s = rw (state-mark_link_as_claimed db now id u) (
      update-IsSpent db (has_link_id id) (set_claimed u now) (λ l. refl) (λ l. refl) (λ l h. refl)
        s)

  -- A spent link is never validated.
  pub spent-validate :
      (db : Database) (now : ℕ)
      → IsSpent d token db
      → (l : ShareLink) → (find_and_validate_link now d token db).0 ≢ ok l
  unfolding find_and_validate_link
  spent-validate db now s l h = ground (arith, s.found, s.single, s.taken)

  -- The row that a single-use claim has marked is spent.
  pub marked-IsSpent :
      (db : Database) (now u : ℕ) (l : ShareLink)
      → link_of db d token ≡ some l
      → l.is_single_use ≡ true
      → IsSpent d token (mark_link_as_claimed now l.id u db).1
  marked-IsSpent db now u l found single = rw (state-mark_link_as_claimed db now l.id u) (record {
    row = set_claimed u now l;
    found =
        subst
          (λ b.
            find_where (is_link d token)
              (update_where (has_link_id l.id) (set_claimed u now) db.share_links)
            ≡ some (if b then set_claimed u now l else l))
          (==_refl l.id)
          (find_where-update_where (is_link d token) (has_link_id l.id) (set_claimed u now)
            (λ k. refl) db.share_links l found);
    single = single;
    taken = refl;
  })

  mark_if_single-IsSpent :
      (db : Database) (now u : ℕ) (l : ShareLink) (m : Member)
      → IsSpent d token db
      → IsSpent d token (mark_if_single now u l m db).1
  mark_if_single-IsSpent db now u l m s = elim (Bool-cases l.is_single_use) [
    | inl single ↦
        rw (single, state-bind_pure (mark_link_as_claimed now l.id u) (λ _. m) db)
          (mark_link_as_claimed-IsSpent db now l.id u s)
    | inr many ↦ rw many s
  ]

  claim_validated-IsSpent :
      (db : Database) (id now doc u : ℕ) (l : ShareLink)
      → IsSpent d token db
      → IsSpent d token (claim_validated id now doc u l db).1
  claim_validated-IsSpent db id now doc u l s =
      >>=_cases (λ r. IsSpent d token r.1) (add_member_via_link id now doc u l.role)
        (mark_if_single now u l) db
        (λ m db' e. mark_if_single-IsSpent db' now u l m (subst (λ r. IsSpent d token r.1) e added))
        (λ x db' e. subst (λ r. IsSpent d token r.1) e added)
    where
      added : IsSpent d token (add_member_via_link id now doc u l.role db).1
      added =
          same_links-IsSpent db _ (add_member_via_link-Frames db id now doc u l.role).same_links s

  -- A spent link stays spent, whichever link is claimed.
  pub claim_share_link-IsSpent :
      (db : Database) (id now doc t u : ℕ)
      → IsSpent d token db
      → IsSpent d token (claim_share_link id now doc t u db).1
  unfolding claim_share_link
  claim_share_link-IsSpent db id now doc t u s =
      >>=_cases (λ r. IsSpent d token r.1) (transaction (claim id now doc t u)) (with_document doc)
        db (λ m db' e. subst (λ r. IsSpent d token r.1) e claimed)
        (λ x db' e. subst (λ r. IsSpent d token r.1) e claimed)
    where
      body : IsSpent d token (claim id now doc t u db).1
      body =
          Checks_cases db _ (λ r. IsSpent d token r.1) (find_and_validate_link now doc t)
            (claim_validated id now doc u) (find_and_validate_link-Checks now doc t db)
            (λ l h. claim_validated-IsSpent db id now doc u l s) (λ e. s)

      claimed : IsSpent d token (transaction (claim id now doc t u) db).1
      claimed =
          transaction_cases (λ r. IsSpent d token r.1) (claim id now doc t u) db
            (λ m db' e. subst (λ r. IsSpent d token r.1) e body) (λ x db' e. s)
