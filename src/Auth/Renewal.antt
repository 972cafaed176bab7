-- ===== src/Auth/Renewal.antt =====
-- Who gets in by a refresh token (`RefreshToken`).
use backend_ssas_rrhh.Base.{
  ℕ, ◌≡◌, inl, inr, true, Option, some, ◌==◌, same_key, Outcome-cases, Option-cases, ok, arith,
}
use backend_ssas_rrhh.Auth.Store.{User, StoredToken, Db, get_by_id}
use backend_ssas_rrhh.Auth.Tokens.{get_active_refresh_token}
use backend_ssas_rrhh.Auth.Jwt.{Crypto, Settings, TokenType, Payload, decode_token}
use backend_ssas_rrhh.Auth.UseCases.{check_refresh, as_text, as_tenant, is_available}
use backend_ssas_rrhh.Auth.Usable.{Usable}

-- What the tests of a refresh have found.
pub record Refreshes (c : Crypto) (now raw : ℕ) (db : Db) (user : User) (user_id token_id : ℕ)
    (empresa_id : Option ℕ) : Type 0 where
  pub claims : Payload
  pub decoded : decode_token c now raw TokenType.refresh ≡ ok claims
  pub sub : as_text claims.sub ≡ some user_id
  pub tid : as_tenant claims.tid ≡ some empresa_id
  pub jti : as_text claims.jti ≡ some token_id
  pub stored : StoredToken
  pub live : get_active_refresh_token now token_id db ≡ some stored
  pub same_tenant : same_key stored.empresa_id empresa_id ≡ true
  pub same_hash : stored.token_hash == c.fingerprint raw ≡ true
  pub known : get_by_id db user_id empresa_id ≡ some user
  pub usable : Usable now user
  pub of_tenant : same_key user.empresa_id empresa_id ≡ true

module _ (c : Crypto) (s : Settings) (now raw : ℕ) (db : Db) (user : User) (user_id token_id : ℕ)
    (empresa_id : Option ℕ) where
  pub check_refresh-Refreshes :
      check_refresh c s now raw db ≡ ok (user, user_id, token_id, empresa_id)
      → Refreshes c now raw db user user_id token_id empresa_id
  unfolding check_refresh is_available
  check_refresh-Refreshes passed = elim (Outcome-cases (decode_token c now raw TokenType.refresh)) [
    | inr (e, refused) ↦ ground arith
    | inl (p, decoded) ↦ elim (Option-cases (get_active_refresh_token now token_id db)) [
      | inl absent ↦ ground arith
      | inr (t, live) ↦ record {
        claims = p;
        decoded = decoded;
        sub = ground arith;
        tid = ground arith;
        jti = ground arith;
        stored = t;
        live = live;
        same_tenant = ground arith;
        same_hash = ground arith;
        known = ground arith;
        usable = ground arith;
        of_tenant = ground arith;
      }
    ]
  ]
