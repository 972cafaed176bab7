-- ===== src/Auth/Errors.antt =====
-- src/ssas/auth/domain/exceptions.py, and the status codes of `_raise_http_auth_error` in
-- src/ssas/auth/infrastructure/http/router.py.
use backend_ssas_rrhh.Base.{ℕ, List}

-- What a password lacks, in the order of src/ssas/auth/domain/password_policy.py.
pub data Requirement : Type 0 where
  al_menos_12 maximo_72 minuscula mayuscula numero especial ningun_espacio no_comun : Requirement
  no_personal : Requirement
  -- the two refusals of `ChangePassword`
  actual_incorrecta diferente_a_la_actual : Requirement

pub data AuthError : Type 0 where
  user_already_exists invalid_credentials token_expired invalid_token inactive_user : AuthError
  user_not_found account_locked email_not_verified email_delivery : AuthError
  invalid_password : List Requirement → AuthError

unfoldable pub http_status : AuthError → ℕ
http_status AuthError.user_not_found = 404
http_status (AuthError.invalid_password _) = 422
http_status AuthError.account_locked = 423
http_status AuthError.email_not_verified = 403
http_status AuthError.email_delivery = 503
http_status AuthError.invalid_credentials = 401
http_status AuthError.invalid_token = 401
http_status AuthError.token_expired = 401
http_status AuthError.inactive_user = 401
http_status AuthError.user_already_exists = 400
