-- ===== src/ResetTokens.antt =====
-- src/password_reset_tokens/password_reset_tokens.service.ts, on the table of its schema.ts.
use meridian_backend.Prelude.{
  ℕ, String, Bool, not, none, some, List, [], ◌∷◌, ◌++◌, update_where, select_where, is_some, ltb,
  ◌==◌, ◌&&◌,
}
use meridian_backend.Schema.{ResetToken, Database}

abbrev pub is_active : ℕ → ℕ → ResetToken → Bool
is_active now user_id t =
    t.user_id == user_id
    && not (is_some t.consumed_at)
    && not (is_some t.revoked_at)
    && ltb now t.expires_at

abbrev pub set_revoked : ℕ → ResetToken → ResetToken
set_revoked now t = record t { revoked_at = some now }

abbrev pub set_consumed : ℕ → ResetToken → ResetToken
set_consumed now t = record t { consumed_at = some now }

abbrev pub has_token_id : ℕ → ResetToken → Bool
has_token_id id t = t.id == id

abbrev pub get_active_tokens_by_user_id : ℕ → ℕ → Database → List ResetToken
get_active_tokens_by_user_id now user_id db = select_where (is_active now user_id) db.reset_tokens

abbrev pub revoke_active_tokens_for_user : ℕ → ℕ → Database → Database
revoke_active_tokens_for_user now user_id db = record db {
  reset_tokens = update_where (is_active now user_id) (set_revoked now) db.reset_tokens;
}

abbrev pub mark_token_as_consumed : ℕ → ℕ → Database → Database
mark_token_as_consumed now token_id db = record db {
  reset_tokens = update_where (has_token_id token_id) (set_consumed now) db.reset_tokens;
}

abbrev pub revoke_other_active_tokens_for_user : ℕ → ℕ → ℕ → Database → Database
revoke_other_active_tokens_for_user now user_id token_id db = record db {
  reset_tokens =
      update_where (λ t. not (has_token_id token_id t) && is_active now user_id t) (set_revoked now)
        db.reset_tokens;
}

abbrev pub new_reset_token : ℕ → ℕ → ℕ → String → ℕ → ResetToken
new_reset_token id now user_id token_hash expires_at = record {
  id = id;
  user_id = user_id;
  token_hash = token_hash;
  expires_at = expires_at;
  consumed_at = none;
  revoked_at = none;
  created_at = now;
}

abbrev pub create_token : ResetToken → Database → Database
create_token t db = record db { reset_tokens = db.reset_tokens ++ t ∷ [] }
