-- ===== src/Samples.antt =====
-- A small database for the tests: two users, one document of the first, and one single-use link.
use meridian_backend.Prelude.{true, none, some, [], ◌∷◌}
use meridian_backend.Schema.{
  User, Document, Membership, ShareLink, Database, author, editor, active, invite,
}

abbrev pub user_one : User
user_one = record {
  id = 1;
  email = "ada@example.com";
  first_name = "Ada";
  last_name = "L";
  password_hash = "h1";
  verified_at = some 5;
  verification_token_hash = none;
  verification_token_expires_at = none;
  created_at = 1;
  updated_at = 5;
}

abbrev pub user_two : User
user_two = record {
  id = 2;
  email = "bob@example.com";
  first_name = "Bob";
  last_name = "M";
  password_hash = "h2";
  verified_at = none;
  verification_token_hash = some "v2";
  verification_token_expires_at = some 100;
  created_at = 2;
  updated_at = 2;
}

abbrev pub document_ten : Document
document_ten = record {
  id = 10;
  title = "Plan";
  status = active;
  created_by = 1;
  latest_snapshot_id = none;
  created_at = 6;
  updated_at = 6;
}

abbrev pub membership_of_one : Membership
membership_of_one = record {
  id = 20;
  document_id = 10;
  user_id = 1;
  role = author;
  membership_mode = invite;
  created_at = 6;
  updated_at = 6;
}

abbrev pub single_link : ShareLink
single_link = record {
  id = 30;
  document_id = 10;
  created_by = 1;
  role = editor;
  token = 77;
  is_single_use = true;
  claimed_by = none;
  claimed_at = none;
  expires_at = some 1000;
  revoked_at = none;
  created_at = 7;
}

abbrev pub empty_database : Database
empty_database = record {
  users = [];
  documents = [];
  memberships = [];
  share_links = [];
  operations = [];
  outbox = [];
  snapshots = [];
  reset_tokens = [];
}

abbrev pub users_only : Database
users_only = record empty_database { users = user_one ∷ user_two ∷ [] }

abbrev pub shared : Database
shared = record users_only {
  documents = document_ten ∷ [];
  memberships = membership_of_one ∷ [];
  share_links = single_link ∷ [];
}
