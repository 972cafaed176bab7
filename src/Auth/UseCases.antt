-- ===== src/Auth/UseCases.antt =====
-- The use cases of src/ssas/auth/application/use_cases. A call takes the instant at which it runs and
-- the identifiers that it draws at random, and returns its value with the new database. The request
-- discards the database when an exception is raised (Session).
use backend_ssas_rrhh.Base.{
  ℕ, ◌+◌, ◌*◌, Bool, true, false, not, ◌||◌, ◌&&◌, Option, none, some, List, [], ◌∷◌, ltb, ◌==◌,
  is_some, same_key, Outcome, ok, ◌>>=◌, ◌>>◌, raise_if, or_raise, if◌then◌else◌,
}
use backend_ssas_rrhh.Session.{Handler}
use backend_ssas_rrhh.Auth.Text.{Text, strip}
use backend_ssas_rrhh.Auth.Errors.{Requirement, AuthError, invalid_password}
use backend_ssas_rrhh.Auth.Policy.{validate_password}
use backend_ssas_rrhh.Auth.Store.{
  User, Db, get_by_login, get_by_id, update_password, record_successful_login, mark_email_verified,
}
use backend_ssas_rrhh.Auth.Tokens.{
  save_refresh_token, get_active_refresh_token, revoke_refresh_token, revoke_all_refresh_tokens,
  save_password_reset_token, get_active_password_reset_token, consume_password_reset_token,
  revoke_password_reset_tokens, save_email_verification_token, get_active_email_verification_token,
  consume_email_verification_token, revoke_email_verification_tokens,
}
use backend_ssas_rrhh.Auth.Jwt.{
  Claim, null, word, other, TokenType, Crypto, Settings, create_access_token, create_refresh_token,
  decode_token,
}

pub record Credentials : Type 0 where
  pub password : Text
  pub empresa_slug : Option Text
  pub email : Option Text
  pub username : Option Text

-- The pair of tokens that `login` and `refresh` return; only `login` says whether the password is
-- to be changed.
pub record TokenPair : Type 0 where
  pub access_token : ℕ
  pub refresh_token : ℕ
  pub expires_in : ℕ
  pub must_change_password : Option Bool

-- `user.locked_until and user.locked_until > now`
abbrev pub is_locked : ℕ → Option ℕ → Bool
is_locked now none = false
is_locked now (some t) = ltb now t

abbrev pub is_empty : List Text → Bool
is_empty [] = true
is_empty (_ ∷ _) = false

-- `a or b or ""`
abbrev pub first_text : Option Text → Option Text → Text
first_text (some (c ∷ s)) b = c ∷ s
first_text _ (some t) = t
first_text _ none = []

abbrev pub no_text : Text → Bool
no_text [] = true
no_text (_ ∷ _) = false

-- The two identifiers that a pair of tokens draws.
pub record Fresh : Type 0 where
  pub access_id : ℕ
  pub refresh_id : ℕ

-- `isinstance(x, str)`, with the text.
abbrev pub as_text : Claim → Option ℕ
as_text null = none
as_text (word k) = some k
as_text (other _) = none

-- `None` or a text, with the key that it is.
abbrev pub as_tenant : Claim → Option (Option ℕ)
as_tenant null = some none
as_tenant (word k) = some (some k)
as_tenant (other _) = none

module _ (c : Crypto) (s : Settings) where
  -- The tests of a login, in order, up to the first write.
  unfoldable pub authenticate : ℕ → Credentials → Db → Outcome AuthError User
  authenticate now q db = do
    let login = strip (first_text q.email q.username)
    raise_if (no_text login) AuthError.invalid_credentials
    user ← or_raise (get_by_login c.letters db login q.empresa_slug) AuthError.invalid_credentials
    raise_if (is_locked now user.locked_until) AuthError.account_locked
    raise_if (not (c.verify q.password user.hashed_password)) AuthError.invalid_credentials
    raise_if (not user.is_active || is_empty user.roles) AuthError.invalid_credentials
    raise_if (is_some user.empresa_id && not user.empresa_is_active) AuthError.invalid_credentials
    raise_if (not user.email_verified) AuthError.email_not_verified
    ok user

  -- `LoginUser.execute`
  unfoldable pub login_user : ℕ → Fresh → Credentials → Handler Db AuthError TokenPair
  login_user now fresh q db = do
    user ← authenticate now q db
    let db' = record_successful_login now user.id user.empresa_id db
    let refresh = create_refresh_token c s now fresh.refresh_id user.id user.empresa_id
    ok (
      record {
        access_token =
            create_access_token c s now fresh.access_id user.id user.empresa_id user.roles
              user.must_change_password;
        refresh_token = refresh;
        expires_in = s.access_minutes * 60;
        must_change_password = some user.must_change_password;
      },
      save_refresh_token user.id user.empresa_id fresh.refresh_id (c.fingerprint refresh)
          (now + s.refresh_days * 86400) db',
    )

  -- The user of a refresh token may go on.
  unfoldable pub is_available : ℕ → Option ℕ → User → Bool
  is_available now empresa_id u = not (
      not u.is_active
      || (is_some empresa_id && not u.empresa_is_active)
      || not (same_key u.empresa_id empresa_id)
      || is_empty u.roles
      || not u.email_verified
      || is_locked now u.locked_until)

  -- The tests of `RefreshToken.execute`, up to the first write: the user and the token's identifier.
  unfoldable pub check_refresh : ℕ → ℕ → Db → Outcome AuthError (User × ℕ × ℕ × Option ℕ)
  check_refresh now raw db = do
    payload ← decode_token c now raw TokenType.refresh
    user_id ← or_raise (as_text payload.sub) AuthError.invalid_token
    empresa_id ← or_raise (as_tenant payload.tid) AuthError.invalid_token
    token_id ← or_raise (as_text payload.jti) AuthError.invalid_token
    stored ← or_raise (get_active_refresh_token now token_id db) AuthError.invalid_token
    raise_if
        (not (same_key stored.empresa_id empresa_id)
          || not (stored.token_hash == c.fingerprint raw))
        AuthError.invalid_token
    user ← or_raise (get_by_id db user_id empresa_id) AuthError.invalid_token
    raise_if (not (is_available now empresa_id user)) AuthError.invalid_token
    ok (user, user_id, token_id, empresa_id)

  -- `RefreshToken.execute`
  unfoldable pub refresh_token : ℕ → Fresh → ℕ → Handler Db AuthError TokenPair
  refresh_token now fresh raw db = do
    (user, user_id, token_id, empresa_id) ← check_refresh now raw db
    let db' = revoke_refresh_token now token_id db
    let refresh = create_refresh_token c s now fresh.refresh_id user_id empresa_id
    ok (
      record {
        access_token =
            create_access_token c s now fresh.access_id user_id empresa_id user.roles
              user.must_change_password;
        refresh_token = refresh;
        expires_in = s.access_minutes * 60;
        must_change_password = none;
      },
      save_refresh_token user_id empresa_id fresh.refresh_id (c.fingerprint refresh)
          (now + s.refresh_days * 86400) db',
    )

  -- `LogoutUser.execute`
  unfoldable pub logout_user : ℕ → ℕ → ℕ → Option ℕ → Handler Db AuthError (Unit {0})
  logout_user now raw user_id empresa_id db = do
    payload ← decode_token c now raw TokenType.refresh
    token_id ← or_raise (as_text payload.jti) AuthError.invalid_token
    sub ← or_raise (as_text payload.sub) AuthError.invalid_token
    tid ← or_raise (as_tenant payload.tid) AuthError.invalid_token
    raise_if (not (sub == user_id) || not (same_key tid empresa_id)) AuthError.invalid_token
    ok (tt, revoke_refresh_token now token_id db)

  -- `ChangePassword.execute`
  unfoldable pub change_password : ℕ → ℕ → Option ℕ → Text → Text → Handler Db AuthError (Unit {0})
  change_password now user_id empresa_id current_password new_password db = do
    user ← or_raise (get_by_id db user_id empresa_id) AuthError.user_not_found
    raise_if (not (c.verify current_password user.hashed_password))
        (invalid_password (Requirement.actual_incorrecta ∷ []))
    raise_if (c.verify new_password user.hashed_password)
        (invalid_password (Requirement.diferente_a_la_actual ∷ []))
    validate_password c.letters new_password (some user.username ∷ some user.email ∷ [])
    ok (
      tt,
      revoke_all_refresh_tokens now user_id empresa_id
          (update_password user_id empresa_id (c.hash new_password) false db),
    )

  -- `RequestPasswordReset.execute`; `raw` is the text drawn by `secrets.token_urlsafe`.
  unfoldable pub request_password_reset : ℕ → ℕ → ℕ → Text → Option Text → Db → Option ℕ × Db
  request_password_reset now token_id raw email empresa_slug db =
      elim (get_by_login c.letters db (c.letters.lower (strip email)) empresa_slug) [
        | none ↦ (none, db)
        | some user ↦ if not user.is_active then (none, db) else (
          some raw,
          save_password_reset_token user.id user.empresa_id token_id (c.fingerprint raw)
              (now + s.reset_minutes * 60)
              (revoke_password_reset_tokens now user.id user.empresa_id db),
        )
      ]

  -- `ResetPassword.execute`
  unfoldable pub reset_password : ℕ → ℕ → Text → Handler Db AuthError (Unit {0})
  reset_password now raw new_password db = do
    stored ←
        or_raise (get_active_password_reset_token now (c.fingerprint raw) db)
          AuthError.invalid_token
    user ← or_raise (get_by_id db stored.user_id stored.empresa_id) AuthError.invalid_token
    validate_password c.letters new_password (some user.username ∷ some user.email ∷ [])
    ok (
      tt,
      revoke_all_refresh_tokens now stored.user_id stored.empresa_id (
          consume_password_reset_token now stored.id
            (update_password stored.user_id stored.empresa_id (c.hash new_password) false db)),
    )

  -- `RequestEmailVerification.execute`
  unfoldable pub request_email_verification :
      ℕ → ℕ → ℕ → Text → Option Text → Db → Option (Text × ℕ) × Db
  request_email_verification now token_id raw email empresa_slug db =
      elim (get_by_login c.letters db (c.letters.lower (strip email)) empresa_slug) [
        | none ↦ (none, db)
        | some user ↦ if not user.is_active || user.email_verified then (none, db) else (
          some (user.email, raw),
          save_email_verification_token user.id user.empresa_id token_id (c.fingerprint raw)
              (now + s.verification_minutes * 60)
              (revoke_email_verification_tokens now user.id user.empresa_id db),
        )
      ]

  -- `VerifyEmail.execute`
  unfoldable pub verify_email : ℕ → ℕ → Handler Db AuthError (Unit {0})
  verify_email now raw db = do
    token ←
        or_raise (get_active_email_verification_token now (c.fingerprint raw) db)
          AuthError.invalid_token
    ok (
      tt,
      consume_email_verification_token now token.id
          (mark_email_verified token.user_id token.empresa_id db),
    )

-- `GetCurrentUser.execute`
unfoldable pub get_current_user : ℕ → Option ℕ → Db → Outcome AuthError User
get_current_user user_id empresa_id db = do
  user ← or_raise (get_by_id db user_id empresa_id) AuthError.user_not_found
  raise_if (not user.is_active) AuthError.inactive_user
  ok user
