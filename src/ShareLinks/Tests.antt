-- ===== src/ShareLinks/Tests.antt =====
-- Tests of src/share_links/share_links.service.ts, and its theorems at concrete inputs.
use meridian_backend.Prelude.{
  some, ◌≡◌, refl, ◌↔◌, forbidden, ok, err, if◌then◌else◌, is_some, not_found, [], ◌∷◌,
}
use meridian_backend.Samples.{shared, single_link}
use meridian_backend.ShareLinks.{strip_slash, find_and_validate_link, revoke_share_link}
use meridian_backend.ShareLinks.Validity.{
  link_of, IsClaimable, find_and_validate_link_iff, revoke_share_link-blocks,
}

strip_slash_test : strip_slash (b'a' ∷ b'/' ∷ b'/' ∷ []) ≡ b'a' ∷ b'/' ∷ []
strip_slash_test = refl

expired_link : (find_and_validate_link 1000 10 77 shared).0 ≡ err (forbidden "Link has expired")
unfolding find_and_validate_link
expired_link = refl

find_and_validate_link_iff_example :
    (find_and_validate_link 900 10 77 shared ≡ (ok single_link, shared))
    ↔ ((link_of shared 10 77 ≡ some single_link) × IsClaimable 900 single_link)
find_and_validate_link_iff_example = find_and_validate_link_iff 900 10 77 shared single_link

revoke_share_link-blocks_example :
    (find_and_validate_link 900 10 77 (revoke_share_link 800 10 77 shared).1).0 ≡ (
      if is_some (link_of shared 10 77)
      then err (forbidden "Share link has been revoked")
      else err (not_found "Link not found"))
revoke_share_link-blocks_example = revoke_share_link-blocks 800 900 10 77 shared
