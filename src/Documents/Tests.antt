-- ===== src/Documents/Tests.antt =====
-- Tests of src/documents, and its theorems at concrete inputs.
use meridian_backend.Prelude.{ℕ, ◌+◌, none, some, ◌≡◌, ◌≢◌, refl, ok, List, [], ◌∷◌, Checks}
use meridian_backend.Schema.{author, editor, link}
use meridian_backend.Samples.{shared, users_only, single_link, document_ten}
use meridian_backend.Memberships.Roles.{role_of}
use meridian_backend.ShareLinks.{LinkConfig}
use meridian_backend.Documents.Guards.{
  IsLive, author_guards, author_guards-Checks, document_exists_guard,
}
use meridian_backend.Memberships.{add_member, add_member_via_link}
use meridian_backend.ShareLinks.{create_share_link, find_and_validate_link, mark_link_as_claimed}
use meridian_backend.Documents.{
  create_document, add_document_member, claim_share_link, remove_document_member,
  update_document_member_role,
}
use meridian_backend.Documents.Endpoints.{
  Request, Response, Moment, as_editor, as_viewer, create, add, change_role, remove, claim_link,
  create_link, claimed, handle, serve,
}
use meridian_backend.Documents.Ownership.{IsOwned}
use meridian_backend.Documents.Ownership.Histories.{serve-IsOwned, AreFresh}
use meridian_backend.Documents.Claims.Once.{claim_link_once}

abbrev config : LinkConfig
config = record { app_url = b'h' ∷ b'/' ∷ []; share_link_expiry_days = 7 }

abbrev at : ℕ → ℕ → Moment
at now id = record { now = now; id = id; other_id = id + 1 }

-- User 1 creates document 10, invites user 2, makes a link; user 2 tries to remove user 1.
abbrev history : List (Moment × ℕ × Request)
history =
    (at 50 10, 1, create "Plan")
    ∷ (at 51 40, 1, add 10 "bob@example.com" as_editor)
    ∷ (at 52 50, 1, create_link 10 as_viewer none)
    ∷ (at 53 60, 2, remove 10 1)
    ∷ (at 54 70, 1, change_role 10 2 as_viewer)
    ∷ []

users_only-IsOwned : IsOwned users_only
users_only-IsOwned = record {
  author_creator = λ d u h. cc h;
  creator_author = λ d u h. cc h;
  member_document = λ d u h. refl;
  link_roles = tt;
}

history-AreFresh : AreFresh config history users_only
unfolding handle create_document author_guards add_document_member add_member create_share_link
    remove_document_member update_document_member_role
history-AreFresh = (refl, (refl, (refl, (refl, (refl, tt)))))

serve-IsOwned_example : IsOwned (serve config history users_only)
serve-IsOwned_example = serve-IsOwned config history users_only users_only-IsOwned history-AreFresh

author_guards-Checks_example :
    Checks shared
      (λ _. IsLive shared 10 × (role_of shared 10 1 ≡ some author))
      (author_guards 10 1 shared)
author_guards-Checks_example = author_guards-Checks 10 shared 1

abbrev joined : Response
joined =
    claimed
      (record {
        id = 2;
        first_name = "Bob";
        last_name = "M";
        role = editor;
        membership_mode = link;
        created_at = 60;
      })
      (some document_ten)

first_claim : (handle config (at 60 80) 2 (claim_link 10 77) shared).0 ≡ ok joined
unfolding handle document_exists_guard claim_share_link find_and_validate_link add_member_via_link
    mark_link_as_claimed
first_claim = refl

claim_link_once_example :
    (handle config (at 90 95) 1 (claim_link 10 77) (
      serve config
        ((at 70 91, 1, remove 10 2) ∷ [])
        (handle config (at 60 80) 2 (claim_link 10 77) shared).1)).0
    ≢ ok joined
claim_link_once_example =
    claim_link_once config 10 77 shared single_link (at 60 80) (at 90 95) 2 1
      ((at 70 91, 1, remove 10 2) ∷ []) joined joined refl refl first_claim
