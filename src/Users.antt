-- ===== src/Users.antt =====
-- src/users/users.service.ts: the reads that the other services share.
use mathlib.Core.Option
use meridian_backend.Prelude.{
  ℕ, String, Bool, Option, List, map, Action, gets, find_where, ◌==◌, str_eq,
}
use meridian_backend.Schema.{User, Database}

-- The columns of `safeUserColumns`.
pub record SafeUser : Type 0 where
  pub id : ℕ
  pub email : String
  pub first_name : String
  pub last_name : String
  pub verified_at : Option ℕ
  pub created_at : ℕ
  pub updated_at : ℕ

abbrev pub safe_user_columns : User → SafeUser
safe_user_columns u = record {
  id = u.id;
  email = u.email;
  first_name = u.first_name;
  last_name = u.last_name;
  verified_at = u.verified_at;
  created_at = u.created_at;
  updated_at = u.updated_at;
}

abbrev pub has_id : ℕ → User → Bool
has_id id u = u.id == id

abbrev pub has_email : String → User → Bool
has_email email u = str_eq u.email email

abbrev pub get_users : Action Database (List SafeUser)
get_users = gets (λ db. map safe_user_columns db.users)

abbrev pub get_user_by_email : String → Action Database (Option SafeUser)
get_user_by_email email =
    gets (λ db. Option.map safe_user_columns (find_where (has_email email) db.users))

abbrev pub get_user_by_id : ℕ → Action Database (Option SafeUser)
get_user_by_id id = gets (λ db. Option.map safe_user_columns (find_where (has_id id) db.users))

abbrev pub get_user_credentials_by_email : String → Action Database (Option User)
get_user_credentials_by_email email = gets (λ db. find_where (has_email email) db.users)
