-- ===== src/Documents/Claims/Success.antt =====
-- What a claim of a share link that succeeds has done: `claimShareLink` of
-- src/documents/documents.service.ts.
use meridian_backend.Prelude.{
  ℕ, true, some, Result, ok, err, ◌≡◌, Checks_cases, state-bind_pure, subst, arith, ap, transaction,
  transaction_cases, >>=_cases,
}
use meridian_backend.Schema.{ShareLink, Database}
use meridian_backend.Memberships.{Member, add_member_via_link}
use meridian_backend.Memberships.Frames.{add_member_via_link-Frames}
use meridian_backend.ShareLinks.{find_and_validate_link, mark_link_as_claimed}
use meridian_backend.ShareLinks.Validity.{link_of, find_and_validate_link-Checks}
use meridian_backend.Documents.{
  claim, claim_validated, mark_if_single, with_document, claim_share_link,
}
use meridian_backend.Documents.Claims.{IsSpent, marked-IsSpent, spent-validate}

-- What holds after a call that succeeds.
abbrev pub IfOk : {A : Type 0} → (Database → Type 0) → Result A × Database → Type 0
IfOk P (ok a, db) = P db
IfOk P (err e, db) = Unit

module _ (d token : ℕ) (db : Database) (l : ShareLink) (found : link_of db d token ≡ some l)
    (single : l.is_single_use ≡ true) where
  mark_if_single-spends : (now u : ℕ) (m : Member) → IsSpent d token (mark_if_single now u l m db).1
  mark_if_single-spends now u m =
      rw (single, state-bind_pure (mark_link_as_claimed now l.id u) (λ _. m) db)
        (marked-IsSpent d token db now u l found single)

IfOk-of_state : {A : Type 0} (P : Database → Type 0) (r : Result A × Database) → P r.1 → IfOk P r
IfOk-of_state P (ok a, db) h = h
IfOk-of_state P (err e, db) h = tt

claim_validated-spends :
    (d token : ℕ) (db : Database) (l : ShareLink)
    → link_of db d token ≡ some l
    → l.is_single_use ≡ true
    → (id now u : ℕ) → IfOk (IsSpent d token) (claim_validated id now d u l db)
claim_validated-spends d token db l found single id now u =
    >>=_cases (IfOk (IsSpent d token)) (add_member_via_link id now d u l.role)
      (mark_if_single now u l) db
      (λ m db' e. IfOk-of_state (IsSpent d token) (mark_if_single now u l m db') (
        mark_if_single-spends d token db' l (kept db' (ap (λ r. r.1.share_links) e)) single now u
          m))
      (λ x db' e. tt)
  where
    kept :
        (db' : Database)
        → (add_member_via_link id now d u l.role db).1.share_links ≡ db'.share_links
        → link_of db' d token ≡ some l
    kept db' e = cc (found, e, (add_member_via_link-Frames db id now d u l.role).same_links)

-- A claim that succeeds on a single-use link spends it.
pub claim_share_link-spends :
    (d token : ℕ) (db : Database) (l : ShareLink)
    → link_of db d token ≡ some l
    → l.is_single_use ≡ true
    → (id now u : ℕ) → IfOk (IsSpent d token) (claim_share_link id now d token u db)
unfolding claim_share_link
claim_share_link-spends d token db l found single id now u =
    >>=_cases (IfOk (IsSpent d token)) (transaction (claim id now d token u)) (with_document d) db
      (λ m db' e. subst (IfOk (IsSpent d token)) e claimed) (λ x db' e. tt)
  where
    body : IfOk (IsSpent d token) (claim id now d token u db)
    body =
        Checks_cases db _ (IfOk (IsSpent d token)) (find_and_validate_link now d token)
          (claim_validated id now d u) (find_and_validate_link-Checks now d token db)
          (λ k h.
            claim_validated-spends d token db k h.0 (ground (arith, found, h.0, single)) id now u)
          (λ e. tt)

    claimed : IfOk (IsSpent d token) (transaction (claim id now d token u) db)
    claimed =
        transaction_cases (IfOk (IsSpent d token)) (claim id now d token u) db
          (λ m db' e. subst (IfOk (IsSpent d token)) e body) (λ x db' e. tt)

-- No claim of a spent link succeeds.
pub claim_share_link_spent :
    (d token : ℕ) (db : Database)
    → IsSpent d token db
    → (id now u : ℕ) → IfOk (λ _. ⊥) (claim_share_link id now d token u db)
unfolding claim_share_link
claim_share_link_spent d token db s id now u =
    >>=_cases (IfOk (λ _. ⊥)) (transaction (claim id now d token u)) (with_document d) db
      (λ m db' e. subst (IfOk (λ _. ⊥)) e claimed) (λ x db' e. tt)
  where
    body : IfOk (λ _. ⊥) (claim id now d token u db)
    body =
        >>=_cases (IfOk (λ _. ⊥)) (find_and_validate_link now d token) (claim_validated id now d u)
          db (λ l db' e. absurd (spent-validate d token db now s l (ap (λ r. r.0) e)))
          (λ x db' e. tt)

    claimed : IfOk (λ _. ⊥) (transaction (claim id now d token u) db)
    claimed =
        transaction_cases (IfOk (λ _. ⊥)) (claim id now d token u) db
          (λ m db' e. subst (IfOk (λ _. ⊥)) e body) (λ x db' e. tt)
