-- ===== src/Auth/Rotation.antt =====
-- A refresh token works once.
use backend_ssas_rrhh.Base.{
  ℕ, ◌+◌, ◌*◌, ◌≡◌, ◌≢◌, refl, sym, inl, inr, not, ◌&&◌, Option, none, some, List, [], ◌∷◌, ◌==◌,
  is_some, All, find_first, update_where, add_row, Outcome-cases, ok, err, arith,
}
use backend_ssas_rrhh.Auth.Errors.{AuthError}
use backend_ssas_rrhh.Auth.Store.{User, StoredToken, Db}
use backend_ssas_rrhh.Auth.Tokens.{
  is_live, revoked, get_active_refresh_token, revoke_refresh_token, save_refresh_token,
}
use backend_ssas_rrhh.Auth.Jwt.{
  Crypto, Settings, Payload, payload, TokenType, decode_token, create_refresh_token,
}
use backend_ssas_rrhh.Auth.UseCases.{Fresh, TokenPair, as_text, check_refresh, refresh_token}
use backend_ssas_rrhh.Auth.Renewal.{Refreshes, check_refresh-Refreshes}

-- No stored token has the identifier.
abbrev pub Unused : ℕ → List StoredToken → Type 0
Unused k = All (λ (t : StoredToken). t.id ≢ k)

-- The token with the identifier is not active.
abbrev pub Inactive : ℕ → ℕ → List StoredToken → Type 0
Inactive k later ts = find_first (λ t. t.id == k && is_live later t) ts ≡ none

revoked-Inactive :
    (k now later : ℕ) (ts : List StoredToken)
    → Inactive k later
        (update_where (λ t. t.id == k && not (is_some t.revoked_at)) (revoked now) ts)
revoked-Inactive k now later [] = refl
revoked-Inactive k now later (t ∷ ts) = ground (arith, revoked-Inactive k now later ts)

add_row-Inactive :
    (k later : ℕ) (r : StoredToken) (ts : List StoredToken)
    → r.id ≢ k
    → Inactive k later ts
    → Inactive k later (add_row r ts)
add_row-Inactive k later r [] other inactive = ground arith
add_row-Inactive k later r (t ∷ ts) other inactive = ground (arith, add_row-Inactive k later r ts)

-- The identifier of an active token is in use.
Unused-other :
    (k k' now : ℕ) (ts : List StoredToken) (t : StoredToken)
    → Unused k ts
    → find_first (λ x. x.id == k' && is_live now x) ts ≡ some t
    → k ≢ k'
Unused-other k k' now [] t unused found = cc
Unused-other k k' now (x ∷ ts) t (other, unused) found =
    ground (arith, other, Unused-other k k' now ts t unused)

-- The library reads the same claims from a token at every instant at which it accepts it.
abbrev pub SameClaims : Crypto → Type 0
SameClaims c =
    (t t' raw : ℕ) (p p' : Payload)
    → c.decode t raw ≡ payload p
    → c.decode t' raw ≡ payload p'
    → p ≡ p'

decode_token-payload :
    (c : Crypto) (now raw : ℕ) (type : TokenType) (p : Payload)
    → decode_token c now raw type ≡ ok p
    → c.decode now raw ≡ payload p
unfolding decode_token
decode_token-payload c now raw type p = ground arith

module _ (c : Crypto) (s : Settings) where
  -- A token whose identifier is not active is refused.
  Inactive-refused :
      (now raw k : ℕ) (fresh : Fresh) (db : Db) (p : Payload)
      → decode_token c now raw TokenType.refresh ≡ ok p
      → as_text p.jti ≡ some k
      → Inactive k now db.refresh_tokens
      → (e : AuthError) × (refresh_token c s now fresh raw db ≡ err e)
  unfolding refresh_token get_active_refresh_token
  Inactive-refused now raw k fresh db p decoded jti inactive =
      elim (Outcome-cases (check_refresh c s now raw db)) [
        | inr (e, refused) ↦ (e, rw refused refl)
        | inl ((user, user_id, token_id, empresa_id), passed) ↦
            let r =
              check_refresh-Refreshes c s now raw db user user_id token_id empresa_id passed in
            (
              AuthError.invalid_token,
              grind (arith, r.decoded, r.jti, r.live, decoded, jti, inactive),
            )
      ]

  -- A refresh that has been granted: its token, and the tables that it leaves.
  record Granted (now raw : ℕ) (fresh : Fresh) (db db' : Db) : Type 0 where
    user : User
    user_id : ℕ
    token_id : ℕ
    empresa_id : Option ℕ
    checks : Refreshes c now raw db user user_id token_id empresa_id
    tables :
        db'
        ≡ save_refresh_token user_id empresa_id fresh.refresh_id
            (c.fingerprint (create_refresh_token c s now fresh.refresh_id user_id empresa_id))
            (now + s.refresh_days * 86400)
            (revoke_refresh_token now token_id db)

  refresh_token-Granted :
      (now raw : ℕ) (fresh : Fresh) (db db' : Db) (pair : TokenPair)
      → refresh_token c s now fresh raw db ≡ ok (pair, db')
      → Granted now raw fresh db db'
  unfolding refresh_token
  refresh_token-Granted now raw fresh db db' pair granted =
      elim (Outcome-cases (check_refresh c s now raw db)) [
        | inr (e, refused) ↦ cc
        | inl ((user, user_id, token_id, empresa_id), passed) ↦ record {
          user = user;
          user_id = user_id;
          token_id = token_id;
          empresa_id = empresa_id;
          checks = check_refresh-Refreshes c s now raw db user user_id token_id empresa_id passed;
          tables = ground arith;
        }
      ]

  undecoded-refused :
      (now raw : ℕ) (fresh : Fresh) (db : Db) (e : AuthError)
      → decode_token c now raw TokenType.refresh ≡ err e
      → refresh_token c s now fresh raw db ≡ err e
  unfolding refresh_token check_refresh
  undecoded-refused now raw fresh db e refused = rw refused refl

  -- A token that has been read once as `p`, and whose identifier is not active now, is refused now.
  spent-refused :
      SameClaims c
      → (now later raw k : ℕ) (fresh : Fresh) (db : Db) (p : Payload)
      → decode_token c now raw TokenType.refresh ≡ ok p
      → as_text p.jti ≡ some k
      → Inactive k later db.refresh_tokens
      → (e : AuthError) × (refresh_token c s later fresh raw db ≡ err e)
  spent-refused same now later raw k fresh db p decoded jti inactive =
      elim (Outcome-cases (decode_token c later raw TokenType.refresh)) [
        | inr (e, refused) ↦ (e, undecoded-refused later raw fresh db e refused)
        | inl (p', again) ↦
            let agree =
              same now later raw p p' (decode_token-payload c now raw TokenType.refresh p decoded)
                (decode_token-payload c later raw TokenType.refresh p' again) in
            Inactive-refused later raw k fresh db p' again (rw (sym agree) jti) inactive
      ]

  module _ (same : SameClaims c) (now later raw : ℕ) (fresh fresh' : Fresh) (db db' : Db) where
    Granted-Inactive :
        (g : Granted now raw fresh db db')
        → Unused fresh.refresh_id db.refresh_tokens
        → Inactive g.token_id later db'.refresh_tokens
    unfolding save_refresh_token revoke_refresh_token get_active_refresh_token
    Granted-Inactive g unused = rw g.tables (
        add_row-Inactive g.token_id later _ (revoke_refresh_token now g.token_id db).refresh_tokens
          (Unused-other fresh.refresh_id g.token_id now db.refresh_tokens g.checks.stored unused
            g.checks.live)
          (revoked-Inactive g.token_id now later db.refresh_tokens))

    -- The token that a granted refresh consumed is refused from then on, whatever the time, if the new
    -- token has an identifier that no stored token had.
    pub refresh_token-single_use :
        (pair : TokenPair)
        → Unused fresh.refresh_id db.refresh_tokens
        → refresh_token c s now fresh raw db ≡ ok (pair, db')
        → (e : AuthError) × (refresh_token c s later fresh' raw db' ≡ err e)
    refresh_token-single_use pair unused granted =
        let g = refresh_token-Granted now raw fresh db db' pair granted in
        spent-refused same now later raw g.token_id fresh' db' g.checks.claims g.checks.decoded
          g.checks.jti (Granted-Inactive g unused)
