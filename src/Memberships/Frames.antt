-- ===== src/Memberships/Frames.antt =====
-- What src/memberships/memberships.service.ts leaves alone: every table but that of the memberships.
use meridian_backend.Prelude.{ℕ, String, ◌≡◌, arith}
use meridian_backend.Schema.{Role, Database}
use meridian_backend.Memberships.{
  add_member, add_member_via_link, update_member_role, remove_member,
}

pub record Frames (db db' : Database) : Type 0 where
  pub same_documents : db'.documents ≡ db.documents
  pub same_users : db'.users ≡ db.users
  pub same_links : db'.share_links ≡ db.share_links

module _ (db : Database) where
  pub add_member-Frames :
      (id now d : ℕ) (email : String) (role : Role)
      → Frames db (add_member id now d email role db).1
  unfolding add_member
  add_member-Frames id now d email role = ground arith

  pub add_member_via_link-Frames :
      (id now d u : ℕ) (role : Role) → Frames db (add_member_via_link id now d u role db).1
  unfolding add_member_via_link
  add_member_via_link-Frames id now d u role = ground arith

  pub update_member_role-Frames :
      (now d u : ℕ) (role : Role) → Frames db (update_member_role now d u role db).1
  unfolding update_member_role
  update_member_role-Frames now d u role = ground arith

  pub remove_member-Frames : (d u : ℕ) → Frames db (remove_member d u db).1
  unfolding remove_member
  remove_member-Frames d u = ground arith
