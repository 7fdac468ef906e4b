-- ===== src/Documents/Claims/Once.antt =====
-- A single-use link is claimed once, whatever requests follow.
use meridian_backend.Prelude.{
  ℕ, true, some, List, [], ◌∷◌, Result, ok, err, Action, ◌≡◌, ◌≢◌, refl, pure, ◌>>=◌, ◌>>◌,
  Checks_cases, state-bind_pure, subst, >>=_cases, arith,
}
use meridian_backend.Schema.{ShareLink, Database}
use meridian_backend.Memberships.Frames.{
  add_member-Frames, update_member_role-Frames, remove_member-Frames,
}
use meridian_backend.ShareLinks.{LinkConfig, CreateShareLink, create_share_link, revoke_share_link}
use meridian_backend.ShareLinks.Validity.{link_of}
use meridian_backend.Documents.{
  update_document_title, update_document_status, soft_delete_document, add_document_member,
  update_document_member_role, remove_document_member, create_document, claim_share_link,
}
use meridian_backend.Documents.Guards.{
  author_guards, writer_guards, document_exists_guard, author_guards-Checks, writer_guards-Checks,
  document_exists_guard-Checks,
}
use meridian_backend.Documents.Endpoints.{
  MemberRole, to_role, to_status, Request, Response, Moment, create, change_title, change_status,
  delete_document, add, change_role, remove, create_link, revoke_link, claim_link, one_document,
  one_member, one_link, new_link, claimed, no_content, handle, serve,
}
use meridian_backend.Documents.Claims.{
  IsSpent, same_links-IsSpent, create_share_link-IsSpent, revoke_share_link-IsSpent,
  claim_share_link-IsSpent,
}
use meridian_backend.Documents.Claims.Success.{
  IfOk, claim_share_link-spends, claim_share_link_spent,
}

module _ (db : Database) (now d u : ℕ) where
  same_links-update_document_member_role :
      (c : ℕ) (r : MemberRole)
      → (update_document_member_role now d u c (to_role r) db).1.share_links ≡ db.share_links
  unfolding update_document_member_role
  same_links-update_document_member_role c r =
      ground (arith, (update_member_role-Frames db now d u (to_role r)).same_links)

  same_links-remove_document_member :
      (c : ℕ) → (remove_document_member d u c db).1.share_links ≡ db.share_links
  unfolding remove_document_member
  same_links-remove_document_member c = ground (arith, (remove_member-Frames db d u).same_links)

module _ (d token : ℕ) (db : Database) (s : IsSpent d token db) where
  abbrev KeepsSpent : {B : Type 0} → Action Database B → Type 0
  KeepsSpent m = IsSpent d token (m db).1

  by_author :
      {B : Type 0} (doc u : ℕ) (k : Action Database B)
      → KeepsSpent k
      → KeepsSpent (author_guards doc u >> k)
  by_author doc u k h =
      Checks_cases db _ (λ r. IsSpent d token r.1) (author_guards doc u) (λ _. k)
        (author_guards-Checks doc db u) (λ _ _. h) (λ e. s)

  replies :
      {A B : Type 0} (m : Action Database A) (f : A → B)
      → KeepsSpent m
      → KeepsSpent (m >>= λ a. pure (f a))
  replies m f h = rw (state-bind_pure m f db) h

  untouched : (db' : Database) → db'.share_links ≡ db.share_links → IsSpent d token db'
  untouched db' e = same_links-IsSpent d token db db' e s

  -- No request makes a spent link claimable again.
  handle-IsSpent :
      (config : LinkConfig) (t : Moment) (caller : ℕ) (r : Request)
      → IsSpent d token (handle config t caller r db).1
  unfolding handle create_document update_document_title update_document_status soft_delete_document
      add_document_member
  handle-IsSpent config t caller (create title) = untouched _ refl
  handle-IsSpent config t caller (change_title doc title) =
      Checks_cases db _ (λ r. IsSpent d token r.1) (writer_guards doc caller)
        (λ _. update_document_title t.now doc title >>= λ x. pure (one_document x))
        (writer_guards-Checks doc db caller) (λ _ _. untouched _ refl) (λ e. s)
  handle-IsSpent config t caller (change_status doc status) =
      by_author doc caller
        (update_document_status t.now doc (to_status status) >>= λ x. pure (one_document x))
        (untouched _ refl)
  handle-IsSpent config t caller (delete_document doc) =
      by_author doc caller (soft_delete_document t.now doc >> pure no_content) (untouched _ refl)
  handle-IsSpent config t caller (add doc email role) =
      let m = add_document_member t.id t.now doc email (to_role role) in
      by_author doc caller (m >>= λ x. pure (one_member x)) (
        replies m one_member
          (untouched _ (add_member-Frames db t.id t.now doc email (to_role role)).same_links))
  handle-IsSpent config t caller (change_role doc target role) =
      let m = update_document_member_role t.now doc target caller (to_role role) in
      by_author doc caller (m >>= λ x. pure (one_member x)) (
        replies m one_member
          (untouched _ (same_links-update_document_member_role db t.now doc target caller role)))
  handle-IsSpent config t caller (remove doc target) =
      let m = remove_document_member doc target caller in
      by_author doc caller (m >> pure no_content) (
        replies m (λ _. no_content)
          (untouched _ (same_links-remove_document_member db t.now doc target caller)))
  handle-IsSpent config t caller (create_link doc role single) =
      let dto : CreateShareLink = record { role = to_role role; is_single_use = single } in
      let m = create_share_link config t.id t.other_id t.now doc caller dto in
      by_author doc caller (m >>= λ p. pure (new_link p.0 p.1)) (
        replies m (λ p. new_link p.0 p.1)
          (create_share_link-IsSpent d token db config t.id t.other_id t.now doc caller dto s))
  handle-IsSpent config t caller (revoke_link doc tok) =
      let m = revoke_share_link t.now doc tok in
      by_author doc caller (m >>= λ l. pure (one_link l))
        (replies m one_link (revoke_share_link-IsSpent d token db t.now doc tok s))
  handle-IsSpent config t caller (claim_link doc tok) =
      Checks_cases db _ (λ r. IsSpent d token r.1) (document_exists_guard doc)
        (λ _. claim_share_link t.id t.now doc tok caller >>= λ p. pure (claimed p.0 p.1))
        (document_exists_guard-Checks doc db)
        (λ _ _.
          replies (claim_share_link t.id t.now doc tok caller) (λ p. claimed p.0 p.1)
            (claim_share_link-IsSpent d token db t.id t.now doc tok caller s))
        (λ e. s)

serve-IsSpent :
    (d token : ℕ) (config : LinkConfig) (rs : List (Moment × ℕ × Request)) (db : Database)
    → IsSpent d token db
    → IsSpent d token (serve config rs db)
unfolding serve
serve-IsSpent d token config [] db s = s
serve-IsSpent d token config ((t, caller, r) ∷ rs) db s =
    serve-IsSpent d token config rs (handle config t caller r db).1
      (handle-IsSpent d token db s config t caller r)

IfOk-reply :
    {A B : Type 0} (P : Database → Type 0) (m : Action Database A) (f : A → B) (db : Database)
    → IfOk P (m db)
    → IfOk P ((m >>= λ a. pure (f a)) db)
IfOk-reply P m f db h =
    >>=_cases (IfOk P) m (λ a. pure (f a)) db (λ a db' e. subst (IfOk P) e h) (λ x db' e. tt)

module _ (config : LinkConfig) (d token : ℕ) where
  claim_link-spends :
      (db : Database) (l : ShareLink)
      → link_of db d token ≡ some l
      → l.is_single_use ≡ true
      → (t : Moment) (caller : ℕ)
      → IfOk (IsSpent d token) (handle config t caller (claim_link d token) db)
  unfolding handle
  claim_link-spends db l found single t caller =
      Checks_cases db _ (IfOk (IsSpent d token)) (document_exists_guard d)
        (λ _. claim_share_link t.id t.now d token caller >>= λ p. pure (claimed p.0 p.1))
        (document_exists_guard-Checks d db)
        (λ _ _.
          IfOk-reply (IsSpent d token) (claim_share_link t.id t.now d token caller)
            (λ p. claimed p.0 p.1) db
            (claim_share_link-spends d token db l found single t.id t.now caller))
        (λ e. tt)

  claim_link_spent :
      (db : Database)
      → IsSpent d token db
      → (t : Moment) (caller : ℕ) → IfOk (λ _. ⊥) (handle config t caller (claim_link d token) db)
  unfolding handle
  claim_link_spent db s t caller =
      Checks_cases db _ (IfOk (λ _. ⊥)) (document_exists_guard d)
        (λ _. claim_share_link t.id t.now d token caller >>= λ p. pure (claimed p.0 p.1))
        (document_exists_guard-Checks d db)
        (λ _ _.
          IfOk-reply (λ _. ⊥) (claim_share_link t.id t.now d token caller) (λ p. claimed p.0 p.1) db
            (claim_share_link_spent d token db s t.id t.now caller))
        (λ e. tt)

  -- Once a request has claimed a single-use link, no later request claims it, whoever makes it, at
  -- whatever time, and whatever requests were served between the two.
  pub claim_link_once :
      (db : Database) (l : ShareLink) (t t' : Moment) (caller caller' : ℕ)
      (between : List (Moment × ℕ × Request)) (r r' : Response)
      → link_of db d token ≡ some l
      → l.is_single_use ≡ true
      → (handle config t caller (claim_link d token) db).0 ≡ ok r
      → (handle config t' caller'
          (claim_link d token)
          (serve config between (handle config t caller (claim_link d token) db).1)).0
        ≢ ok r'
  claim_link_once db l t t' caller caller' between r r' found single first second =
      of_ok (λ _. ⊥) _ second (claim_link_spent later spent t' caller')
    where
      of_ok :
          (P : Database → Type 0) (p : Result Response × Database) {x : Response}
          → p.0 ≡ ok x
          → IfOk P p
          → P p.1
      of_ok P (ok a, s) e h = h
      of_ok P (err x, s) e h = cc

      later : Database
      later = serve config between (handle config t caller (claim_link d token) db).1

      spent : IsSpent d token later
      spent =
          serve-IsSpent d token config between _
            (of_ok (IsSpent d token) _ first (claim_link-spends db l found single t caller))
