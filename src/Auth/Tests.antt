-- ===== src/Auth/Tests.antt =====
-- Instances of the theorems on accounts and tokens, with a toy cryptography: a token is its identifier,
-- a hash is the length of the password.
use backend_ssas_rrhh.Base.{
  ℕ, ◌≡◌, ◌≢◌, ◌↔◌, refl, true, false, Option, none, some, [], ◌∷◌, ◌==◌, ◌+◌, ◌||◌, if◌then◌else◌,
  map, length, All, ok, err, where_rows, arith,
}
use backend_ssas_rrhh.Auth.Text.{
  Text, Letters, text, is_upper, is_ascii_digit, strip, lstrip, before_at, is_infix,
}
use backend_ssas_rrhh.Auth.Errors.{AuthError, Requirement, invalid_password}
use backend_ssas_rrhh.Auth.Policy.{
  validate_password, validate_password_iff, IsStrong, policy_errors, is_personal,
}
use backend_ssas_rrhh.Auth.Store.{
  UserRow, StoredToken, Db, User, get_by_login, get_by_id, to_entity, active_roles, empresa_active,
  login_scope, identifies, update_password,
}
use backend_ssas_rrhh.Auth.Tokens.{
  live_of_user, new_token, save_refresh_token, get_active_refresh_token, revoke_refresh_token,
  revoke_all_refresh_tokens, get_active_password_reset_token, consume_password_reset_token,
  save_password_reset_token, revoke_password_reset_tokens,
}
use backend_ssas_rrhh.Auth.Jwt.{
  Claim, null, word, other, payload, Crypto, Settings, TokenType, decode_token, create_access_token,
  create_refresh_token,
}
use backend_ssas_rrhh.Auth.UseCases.{
  Credentials, Fresh, TokenPair, authenticate, check_refresh, is_available, refresh_token,
  logout_user, change_password, request_password_reset, reset_password,
}
use backend_ssas_rrhh.Auth.Login.{handle_login}
use backend_ssas_rrhh.Auth.Lockout.{Names}
use backend_ssas_rrhh.Auth.Attempts.{
  Attempt, attempt, run_attempts, handle_login-locks_after_max, handle_login-never_locks_again,
}
use backend_ssas_rrhh.Auth.Admission.{login_of, authenticate_iff}
use backend_ssas_rrhh.Auth.Usable.{MayEnter}
use backend_ssas_rrhh.Auth.Quantifiers.{First}
use backend_ssas_rrhh.Auth.Account.{Answers}
use backend_ssas_rrhh.Auth.Rotation.{refresh_token-single_use}
use backend_ssas_rrhh.Auth.Reset.{
  Closed, reset_password-closes_sessions, reset_password-single_use,
  request_password_reset-one_link,
}

abbrev key_of : Claim → ℕ
key_of null = 0
key_of (word k) = k
key_of (other b) = 0

-- The letters of Spanish: those of ASCII, and `Ñ`.
abbrev lowered : ℕ → ℕ
lowered c = if is_upper c || c == 209 then c + 32 else c

abbrev spanish : Letters
spanish = record {
  lower = map lowered;
  casefold = map lowered;
  is_decimal = is_ascii_digit;
  sql_lower = map lowered;
}

abbrev toy : Crypto
toy = record {
  verify = λ password hashed. length password == hashed;
  hash = λ password. length password;
  fingerprint = λ raw. raw;
  encode = λ p. key_of p.jti;
  decode = λ now raw. payload (record {
    sub = word 1;
    tid = null;
    token_type = TokenType.refresh;
    jti = word raw;
    exp = 0;
    roles = none;
    must_change_password = false;
  });
  letters = spanish;
}

abbrev settings : Settings
settings = record {
  access_minutes = 15;
  refresh_days = 7;
  reset_minutes = 30;
  verification_minutes = 60;
  max_login_attempts = 3;
  login_lock_minutes = 15;
}

abbrev root_user : Option ℕ → UserRow
root_user lock = record {
  id = 1;
  empresa_id = none;
  email = text "a@b";
  username = text "root";
  hashed_password = 3;
  roles = record { nombre = text "admin"; is_active = true } ∷ [];
  is_active = true;
  email_verified = true;
  debe_cambiar_password = false;
  intentos_fallidos = 0;
  bloqueado_hasta = lock;
  ultimo_intento_fallido = none;
  ultimo_acceso = none;
  eliminado_at = none;
}

abbrev token : ℕ → StoredToken
token k = record {
  id = k;
  user_id = 1;
  empresa_id = none;
  token_hash = k;
  expires_at = 9000;
  revoked_at = none;
}

abbrev tables : Option ℕ → Db
tables lock = record {
  empresas = [];
  users = root_user lock ∷ [];
  refresh_tokens = token 5 ∷ token 6 ∷ [];
  reset_tokens = token 8 ∷ [];
  email_tokens = [];
}

abbrev login_with : Text → Credentials
login_with password = record {
  password = password;
  empresa_slug = none;
  email = none;
  username = some (text " Root ");
}

abbrev wrong_at : ℕ → Attempt
wrong_at now = record {
  now = now;
  fresh = record { access_id = 70; refresh_id = 71 };
  credentials = login_with (text "no");
}

login_with-Names :
    (password : Text) (lock : Option ℕ)
    → Names spanish (login_with password) (tables lock) (root_user lock)
unfolding strip lstrip login_scope identifies
login_with-Names password lock = record { some_text = refl; filled_email = λ e. cc; found = refl }

handle_login-locks_after_max_example :
    handle_login toy settings 950
      (record { access_id = 72; refresh_id = 73 })
      (login_with (text "yes"))
      (attempt toy settings
        (wrong_at 102)
        (run_attempts toy settings (wrong_at 100 ∷ wrong_at 101 ∷ []) (tables none)))
    ≡ (
      err AuthError.account_locked,
      attempt toy settings
          (wrong_at 102)
          (run_attempts toy settings (wrong_at 100 ∷ wrong_at 101 ∷ []) (tables none)),
    )
handle_login-locks_after_max_example =
    handle_login-locks_after_max toy settings (tables none) (root_user none)
      (wrong_at 100 ∷ wrong_at 101 ∷ []) (wrong_at 102)
      ((login_with-Names _ none, refl), ((login_with-Names _ none, refl), tt))
      (login_with-Names _ none, refl) refl refl (record { access_id = 72; refresh_id = 73 })
      (login_with (text "yes")) 950 (login_with-Names _ none) (omega arith)

handle_login-never_locks_again_example :
    (handle_login toy settings 63
      (record { access_id = 70; refresh_id = 71 })
      (login_with (text "no"))
      (run_attempts toy settings
        (wrong_at 60 ∷ wrong_at 61 ∷ wrong_at 62 ∷ [])
        (tables (some 50)))).0
    ≡ err AuthError.invalid_credentials
handle_login-never_locks_again_example =
    handle_login-never_locks_again toy settings 50 (tables (some 50)) (root_user (some 50))
      (wrong_at 60 ∷ wrong_at 61 ∷ wrong_at 62 ∷ []) (wrong_at 63)
      (
        (login_with-Names _ (some 50), refl),
        ((login_with-Names _ (some 50), refl), ((login_with-Names _ (some 50), refl), tt)),
      )
      (login_with-Names _ (some 50), refl) refl (omega arith, (omega arith, (omega arith, tt)))
      (omega arith) (omega arith)

abbrev root_entity : User
root_entity = to_entity [] (root_user none)

authenticate_iff_example :
    (authenticate toy settings 10 (login_with (text "yes")) (tables none) ≡ ok root_entity) ↔ (
      (login_of (login_with (text "yes")) ≢ [])
      × First
          (Answers spanish [] none (login_of (login_with (text "yes"))))
          (λ row. MayEnter toy 10 (text "yes") [] row × (to_entity [] row ≡ root_entity))
          (tables none).users)
authenticate_iff_example =
    authenticate_iff toy settings 10 (login_with (text "yes")) (tables none) root_entity

root_enters : authenticate toy settings 10 (login_with (text "yes")) (tables none) ≡ ok root_entity
unfolding authenticate get_by_login to_entity active_roles empresa_active strip lstrip login_scope
    identifies
root_enters = refl

check_refresh_example : check_refresh toy settings 10 5 (tables none) ≡ ok (root_entity, 1, 5, none)
unfolding check_refresh decode_token get_active_refresh_token get_by_id is_available to_entity
    active_roles empresa_active
check_refresh_example = refl

abbrev fresh_ids : Fresh
fresh_ids = record { access_id = 80; refresh_id = 81 }

abbrev new_pair : TokenPair
new_pair = record {
  access_token = 80;
  refresh_token = 81;
  expires_in = 900;
  must_change_password = none;
}

abbrev refreshed : Db
refreshed = save_refresh_token 1 none 81 81 604810 (revoke_refresh_token 10 5 (tables none))

refresh_token_run :
    refresh_token toy settings 10 fresh_ids 5 (tables none) ≡ ok (new_pair, refreshed)
unfolding refresh_token create_access_token create_refresh_token to_entity
refresh_token_run = rw check_refresh_example refl

refresh_token-single_use_example :
    (e : AuthError) × (refresh_token toy settings 20 fresh_ids 5 refreshed ≡ err e)
refresh_token-single_use_example =
    refresh_token-single_use toy settings (λ t t' raw p p' e e'. ground arith) 10 20 5 fresh_ids
      fresh_ids (tables none) refreshed new_pair (omega arith, (omega arith, tt)) refresh_token_run

abbrev logged_out : Db
logged_out = revoke_refresh_token 10 5 (tables none)

logout_user_run : logout_user toy settings 10 5 1 none (tables none) ≡ ok (tt, logged_out)
unfolding logout_user decode_token
logout_user_run = refl

abbrev strong : Text
strong = text "Segura_2024_Xy"

validate_password_iff_example :
    (validate_password spanish strong (some (text "root") ∷ []) ≡ ok strong)
    ↔ IsStrong spanish strong (some (text "root") ∷ [])
validate_password_iff_example = validate_password_iff spanish strong (some (text "root") ∷ [])

-- A common password in capitals is refused, also with the `Ñ`.
common_refused :
    validate_password spanish (text "ContraseÑa123") []
    ≡ err (invalid_password (Requirement.no_comun ∷ []))
unfolding validate_password policy_errors
common_refused = refl

abbrev reset_to : Db
reset_to =
    revoke_all_refresh_tokens 10 1 none
      (consume_password_reset_token 10 8 (update_password 1 none 14 false (tables none)))

reset_link : get_active_password_reset_token 10 8 (tables none) ≡ some (token 8)
unfolding get_active_password_reset_token
reset_link = refl

reset_password_run : reset_password toy settings 10 8 strong (tables none) ≡ ok (tt, reset_to)
unfolding reset_password get_active_password_reset_token get_by_id to_entity validate_password
    policy_errors is_personal strip lstrip before_at is_infix
reset_password_run = refl

reset_password-closes_sessions_example : All (Closed 1 none) reset_to.refresh_tokens
reset_password-closes_sessions_example =
    reset_password-closes_sessions toy settings 10 (tables none) reset_to 8 strong (token 8)
      reset_link reset_password_run

reset_password-single_use_example :
    reset_password toy settings 20 8 (text "Otra_Clave_2025") reset_to ≡ err AuthError.invalid_token
reset_password-single_use_example =
    reset_password-single_use toy settings 10 (tables none) reset_to 8 20 strong
      (text "Otra_Clave_2025") (token 8) reset_link ((λ e. refl), tt) reset_password_run

abbrev changed_to : Db
changed_to = revoke_all_refresh_tokens 10 1 none (update_password 1 none 14 false (tables none))

change_password_run :
    change_password toy settings 10 1 none (text "yes") strong (tables none) ≡ ok (tt, changed_to)
unfolding change_password get_by_id to_entity validate_password policy_errors is_personal strip
    lstrip before_at is_infix
change_password_run = refl

abbrev asked_for : Db
asked_for =
    save_password_reset_token 1 none 90 91 1810
      (revoke_password_reset_tokens 10 1 none (tables none))

root_by_email :
    get_by_login spanish (tables none) (spanish.lower (strip (text " A@b"))) none ≡ some root_entity
unfolding get_by_login to_entity strip lstrip login_scope identifies
root_by_email = refl

request_password_reset_run :
    request_password_reset toy settings 10 90 91 (text " A@b") none (tables none)
    ≡ (some 91, asked_for)
unfolding request_password_reset get_by_login to_entity strip lstrip login_scope identifies
request_password_reset_run = refl

request_password_reset-one_link_example :
    where_rows (live_of_user 1 none) asked_for.reset_tokens ≡ new_token 1 none 90 91 1810 ∷ []
unfolding to_entity
request_password_reset-one_link_example =
    request_password_reset-one_link toy settings 10 (tables none) asked_for 90 91 91 (text " A@b")
      none root_entity root_by_email request_password_reset_run
