-- ===== src/Auth/Login.antt =====
-- The login endpoint (`login_user` and `_record_failed_login` of
-- src/ssas/auth/infrastructure/http/router.py). A failed attempt is written in a session of its own,
-- which is committed although the request's transaction is rolled back.
use backend_ssas_rrhh.Base.{
  ℕ, Bool, true, false, Option, none, some, [], Outcome, ok, err, if◌then◌else◌,
}
use backend_ssas_rrhh.Auth.Text.{Text}
use backend_ssas_rrhh.Auth.Errors.{AuthError}
use backend_ssas_rrhh.Auth.Store.{User, Db, get_by_login, record_failed_login}
use backend_ssas_rrhh.Auth.Jwt.{Crypto, Settings}
use backend_ssas_rrhh.Auth.UseCases.{Credentials, TokenPair, Fresh, login_user}

-- `isinstance(exc, InvalidCredentialsError)`
abbrev pub is_invalid_credentials : AuthError → Bool
is_invalid_credentials AuthError.invalid_credentials = true
is_invalid_credentials _ = false

-- `str(request.email) if request.email is not None else (request.username or "")`
abbrev pub login_text : Option Text → Option Text → Text
login_text (some email) username = email
login_text none (some username) = username
login_text none none = []

-- `_record_failed_login`
unfoldable pub record_failure : Settings → ℕ → Option User → Db → Db
record_failure s now none db = db
record_failure s now (some u) db =
    record_failed_login now u.id u.empresa_id s.max_login_attempts s.login_lock_minutes db

-- The `except AuthError` of the endpoint, and its end without one.
unfoldable pub after_login :
    Crypto
    → Settings
    → ℕ
    → Credentials
    → Db
    → Outcome AuthError (TokenPair × Db)
    → Outcome AuthError TokenPair × Db
after_login c s now q db (ok (pair, db')) = (ok pair, db')
after_login c s now q db (err e) = (
  err e,
  if is_invalid_credentials e
      then record_failure s now
          (get_by_login c.letters db (login_text q.email q.username) q.empresa_slug) db
      else db,
)

-- What the client gets, and what the database holds afterwards.
unfoldable pub handle_login :
    Crypto → Settings → ℕ → Fresh → Credentials → Db → Outcome AuthError TokenPair × Db
handle_login c s now fresh q db = after_login c s now q db (login_user c s now fresh q db)
