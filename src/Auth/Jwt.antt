-- ===== src/Auth/Jwt.antt =====
-- `JWTService` (src/ssas/core/security/jwt.py). The signing library, the password hash and SHA-256
-- are parameters; a token is a number that stands for its text.
use backend_ssas_rrhh.Base.{
  ℕ, ◌+◌, ◌*◌, Bool, true, false, not, ◌||◌, Option, none, some, List, ◌==◌, Outcome, ok, err,
  if◌then◌else◌,
}
use backend_ssas_rrhh.Auth.Text.{Text, Letters}
use backend_ssas_rrhh.Auth.Errors.{AuthError}

-- A claim of a payload: `None`, a text (0 is the empty text), or another value with its truth.
pub data Claim : Type 0 where
  null : Claim
  word : ℕ → Claim
  other : Bool → Claim

pub data TokenType : Type 0 where
  access refresh another : TokenType

pub record Payload : Type 0 where
  pub sub : Claim
  pub tid : Claim
  pub token_type : TokenType
  pub jti : Claim
  pub exp : ℕ
  pub roles : Option (List Text)
  pub must_change_password : Bool

-- What the decoder of the library says of a token.
pub data Decoded : Type 0 where
  expired invalid : Decoded
  payload : Payload → Decoded

-- The cryptography that the program calls, and the letters.
pub record Crypto : Type 0 where
  pub verify : Text → ℕ → Bool
  pub hash : Text → ℕ
  pub fingerprint : ℕ → ℕ
  pub encode : Payload → ℕ
  pub decode : ℕ → ℕ → Decoded
  pub letters : Letters

-- The settings that the use cases read.
pub record Settings : Type 0 where
  pub access_minutes : ℕ
  pub refresh_days : ℕ
  pub reset_minutes : ℕ
  pub verification_minutes : ℕ
  pub max_login_attempts : ℕ
  pub login_lock_minutes : ℕ

abbrev pub tenant_claim : Option ℕ → Claim
tenant_claim none = null
tenant_claim (some k) = word k

-- `not payload.get("sub")` is the negation.
abbrev pub is_truthy : Claim → Bool
is_truthy null = false
is_truthy (word k) = not (k == 0)
is_truthy (other b) = b

abbrev pub same_type : TokenType → TokenType → Bool
same_type TokenType.access TokenType.access = true
same_type TokenType.refresh TokenType.refresh = true
same_type TokenType.another TokenType.another = true
same_type _ _ = false

module _ (c : Crypto) where
  unfoldable pub create_access_token : Settings → ℕ → ℕ → ℕ → Option ℕ → List Text → Bool → ℕ
  create_access_token s now token_id subject empresa_id roles must_change = c.encode (record {
    sub = word subject;
    tid = tenant_claim empresa_id;
    token_type = TokenType.access;
    jti = word token_id;
    exp = now + s.access_minutes * 60;
    roles = some roles;
    must_change_password = must_change;
  })

  -- The payload of a refresh token.
  abbrev pub refresh_payload : Settings → ℕ → ℕ → ℕ → Option ℕ → Payload
  refresh_payload s now token_id subject empresa_id = record {
    sub = word subject;
    tid = tenant_claim empresa_id;
    token_type = TokenType.refresh;
    jti = word token_id;
    exp = now + s.refresh_days * 86400;
    roles = none;
    must_change_password = false;
  }

  unfoldable pub create_refresh_token : Settings → ℕ → ℕ → ℕ → Option ℕ → ℕ
  create_refresh_token s now token_id subject empresa_id =
      c.encode (refresh_payload s now token_id subject empresa_id)

  abbrev checked_payload : TokenType → Decoded → Outcome AuthError Payload
  checked_payload expected expired = err AuthError.token_expired
  checked_payload expected invalid = err AuthError.invalid_token
  checked_payload expected (payload p) =
      if not (same_type p.token_type expected) || not (is_truthy p.sub)
      then err AuthError.invalid_token
      else ok p

  unfoldable pub decode_token : ℕ → ℕ → TokenType → Outcome AuthError Payload
  decode_token now token expected = checked_payload expected (c.decode now token)
