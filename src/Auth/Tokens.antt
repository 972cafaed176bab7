-- ===== src/Auth/Tokens.antt =====
-- `SqlAlchemyAuthTokenRepository`
-- (src/ssas/auth/infrastructure/persistence/repositories/auth_token_repository.py). The methods of
-- the three kinds of token differ in the table only.
use backend_ssas_rrhh.Base.{
  ℕ, Bool, not, ◌&&◌, Option, none, some, ltb, ◌==◌, find_first, update_where, add_row, same_key,
  is_some,
}
use backend_ssas_rrhh.Auth.Store.{StoredToken, Db}

-- `revoked_at IS NULL AND expires_at > now`
abbrev pub is_live : ℕ → StoredToken → Bool
is_live now t = not (is_some t.revoked_at) && ltb now t.expires_at

abbrev pub of_user : ℕ → Option ℕ → StoredToken → Bool
of_user user_id empresa_id t = t.user_id == user_id && same_key t.empresa_id empresa_id

abbrev pub revoked : ℕ → StoredToken → StoredToken
revoked now t = record t { revoked_at = some now }

-- The live tokens of a user.
abbrev pub live_of_user : ℕ → Option ℕ → StoredToken → Bool
live_of_user user_id empresa_id t = of_user user_id empresa_id t && not (is_some t.revoked_at)

abbrev pub new_token : ℕ → Option ℕ → ℕ → ℕ → ℕ → StoredToken
new_token user_id empresa_id token_id token_hash expires_at = record {
  id = token_id;
  user_id = user_id;
  empresa_id = empresa_id;
  token_hash = token_hash;
  expires_at = expires_at;
  revoked_at = none;
}

unfoldable pub save_refresh_token : ℕ → Option ℕ → ℕ → ℕ → ℕ → Db → Db
save_refresh_token user_id empresa_id token_id token_hash expires_at db = record db {
  refresh_tokens =
      add_row (new_token user_id empresa_id token_id token_hash expires_at) db.refresh_tokens;
}

unfoldable pub get_active_refresh_token : ℕ → ℕ → Db → Option StoredToken
get_active_refresh_token now token_id db =
    find_first (λ t. t.id == token_id && is_live now t) db.refresh_tokens

unfoldable pub revoke_refresh_token : ℕ → ℕ → Db → Db
revoke_refresh_token now token_id db = record db {
  refresh_tokens =
      update_where (λ t. t.id == token_id && not (is_some t.revoked_at)) (revoked now)
        db.refresh_tokens;
}

unfoldable pub revoke_all_refresh_tokens : ℕ → ℕ → Option ℕ → Db → Db
revoke_all_refresh_tokens now user_id empresa_id db = record db {
  refresh_tokens = update_where (live_of_user user_id empresa_id) (revoked now) db.refresh_tokens;
}

unfoldable pub save_password_reset_token : ℕ → Option ℕ → ℕ → ℕ → ℕ → Db → Db
save_password_reset_token user_id empresa_id token_id token_hash expires_at db = record db {
  reset_tokens =
      add_row (new_token user_id empresa_id token_id token_hash expires_at) db.reset_tokens;
}

unfoldable pub get_active_password_reset_token : ℕ → ℕ → Db → Option StoredToken
get_active_password_reset_token now token_hash db =
    find_first (λ t. t.token_hash == token_hash && is_live now t) db.reset_tokens

unfoldable pub consume_password_reset_token : ℕ → ℕ → Db → Db
consume_password_reset_token now token_id db = record db {
  reset_tokens = update_where (λ t. t.id == token_id) (revoked now) db.reset_tokens;
}

unfoldable pub revoke_password_reset_tokens : ℕ → ℕ → Option ℕ → Db → Db
revoke_password_reset_tokens now user_id empresa_id db = record db {
  reset_tokens = update_where (live_of_user user_id empresa_id) (revoked now) db.reset_tokens;
}

unfoldable pub save_email_verification_token : ℕ → Option ℕ → ℕ → ℕ → ℕ → Db → Db
save_email_verification_token user_id empresa_id token_id token_hash expires_at db = record db {
  email_tokens =
      add_row (new_token user_id empresa_id token_id token_hash expires_at) db.email_tokens;
}

unfoldable pub get_active_email_verification_token : ℕ → ℕ → Db → Option StoredToken
get_active_email_verification_token now token_hash db =
    find_first (λ t. t.token_hash == token_hash && is_live now t) db.email_tokens

unfoldable pub consume_email_verification_token : ℕ → ℕ → Db → Db
consume_email_verification_token now token_id db = record db {
  email_tokens = update_where (λ t. t.id == token_id) (revoked now) db.email_tokens;
}

unfoldable pub revoke_email_verification_tokens : ℕ → ℕ → Option ℕ → Db → Db
revoke_email_verification_tokens now user_id empresa_id db = record db {
  email_tokens = update_where (live_of_user user_id empresa_id) (revoked now) db.email_tokens;
}
