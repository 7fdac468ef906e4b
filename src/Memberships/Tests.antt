-- ===== src/Memberships/Tests.antt =====
-- Tests of src/memberships/memberships.service.ts, and its theorems at concrete inputs.
use meridian_backend.Prelude.{none, some, ◌≡◌, refl, conflict, not_found, err}
use meridian_backend.Schema.{editor, viewer}
use meridian_backend.Samples.{shared}
use meridian_backend.Memberships.{add_member, update_member_role, remove_member}
use meridian_backend.Memberships.Roles.{
  Adds, role_of, with_role, add_member-Adds, role_of-update_member_role, role_of-remove_member,
  update_member_role-not_found,
}

add_twice :
    (add_member 21 9 10 "bob@example.com" viewer
      (add_member 20 8 10 "bob@example.com" editor shared).1).0
    ≡ err (conflict "User is already a member of this document.")
unfolding add_member
add_twice = refl

add_member-Adds_example : Adds shared 10 editor (add_member 21 8 10 "bob@example.com" editor shared)
add_member-Adds_example = add_member-Adds 21 8 10 "bob@example.com" editor shared

role_of-update_member_role_example :
    role_of (update_member_role 9 10 1 viewer shared).1 10 1
    ≡ with_role (role_of shared) 10 1 (some viewer) 10 1
role_of-update_member_role_example = role_of-update_member_role 9 10 1 viewer 10 1 shared

update_member_role-not_found_example :
    (update_member_role 9 10 2 viewer shared).0 ≡ err (not_found "Member not found")
update_member_role-not_found_example = update_member_role-not_found 9 10 2 viewer shared refl

role_of-remove_member_example :
    role_of (remove_member 10 1 shared).1 10 1 ≡ with_role (role_of shared) 10 1 none 10 1
role_of-remove_member_example = role_of-remove_member 10 1 10 1 shared
