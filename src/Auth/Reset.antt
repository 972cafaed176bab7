-- ===== src/Auth/Reset.antt =====
-- A password reset: the sessions that it closes, and the links that it uses up.
use backend_ssas_rrhh.Base.{
  ℕ, ◌+◌, ◌*◌, ◌≡◌, refl, true, false, not, ◌&&◌, Option, none, some, List, [], ◌∷◌, ◌==◌, is_some,
  same_key_iff, All, find_first, where_rows, update_where, add_row, ok, err, arith,
}
use backend_ssas_rrhh.Auth.Text.{Text, strip}
use backend_ssas_rrhh.Auth.Errors.{AuthError}
use backend_ssas_rrhh.Auth.Store.{User, StoredToken, Db, get_by_login, update_password}
use backend_ssas_rrhh.Auth.Tokens.{
  is_live, revoked, of_user, live_of_user, new_token, get_active_password_reset_token,
  consume_password_reset_token, save_password_reset_token, revoke_password_reset_tokens,
  revoke_all_refresh_tokens,
}
use backend_ssas_rrhh.Auth.Jwt.{Crypto, Settings}
use backend_ssas_rrhh.Auth.UseCases.{reset_password, request_password_reset}

-- The token, if it is the user's, is revoked.
abbrev pub Closed : ℕ → Option ℕ → StoredToken → Type 0
Closed user_id empresa_id t = of_user user_id empresa_id t && not (is_some t.revoked_at) ≡ false

revoked-Closed :
    (now user_id : ℕ) (empresa_id : Option ℕ) (ts : List StoredToken)
    → All
        (Closed user_id empresa_id)
        (update_where (live_of_user user_id empresa_id) (revoked now) ts)
revoked-Closed now user_id empresa_id [] = tt
revoked-Closed now user_id empresa_id (t ∷ ts) =
    (ground arith, revoked-Closed now user_id empresa_id ts)

revoked-none_live :
    (now user_id : ℕ) (empresa_id : Option ℕ) (r : StoredToken) (ts : List StoredToken)
    → live_of_user user_id empresa_id r ≡ true
    → where_rows
        (live_of_user user_id empresa_id)
        (add_row r (update_where (live_of_user user_id empresa_id) (revoked now) ts))
      ≡ r ∷ []
revoked-none_live now user_id empresa_id r [] live = rw live refl
revoked-none_live now user_id empresa_id r (t ∷ ts) live =
    ground (arith, revoked-none_live now user_id empresa_id r ts live)

-- The rows with the fingerprint have one identifier.
abbrev pub OneRow : ℕ → ℕ → List StoredToken → Type 0
OneRow h k = All (λ (t : StoredToken). t.token_hash ≡ h → t.id ≡ k)

consumed-inactive :
    (h k now later : ℕ) (ts : List StoredToken)
    → OneRow h k ts
    → find_first
        (λ t. t.token_hash == h && is_live later t)
        (update_where (λ (t : StoredToken). t.id == k) (revoked now) ts)
      ≡ none
consumed-inactive h k now later [] one = refl
consumed-inactive h k now later (t ∷ ts) (one, more) =
    ground (arith, one, consumed-inactive h k now later ts more)

module _ (c : Crypto) (s : Settings) (now : ℕ) (db db' : Db) where
  -- What `ResetPassword` writes for a link.
  pub reset_password-tables :
      (raw : ℕ) (new_password : Text) (stored : StoredToken)
      → get_active_password_reset_token now (c.fingerprint raw) db ≡ some stored
      → reset_password c s now raw new_password db ≡ ok (tt, db')
      → db'
        ≡ revoke_all_refresh_tokens now stored.user_id stored.empresa_id (
            consume_password_reset_token now stored.id
              (update_password stored.user_id stored.empresa_id (c.hash new_password) false db))
  unfolding reset_password
  reset_password-tables raw new_password stored link done = ground arith

  -- After a reset the user has no open session.
  pub reset_password-closes_sessions :
      (raw : ℕ) (new_password : Text) (stored : StoredToken)
      → get_active_password_reset_token now (c.fingerprint raw) db ≡ some stored
      → reset_password c s now raw new_password db ≡ ok (tt, db')
      → All (Closed stored.user_id stored.empresa_id) db'.refresh_tokens
  unfolding revoke_all_refresh_tokens consume_password_reset_token update_password
  reset_password-closes_sessions raw new_password stored link done =
      rw (reset_password-tables raw new_password stored link done)
        (revoked-Closed now stored.user_id stored.empresa_id db.refresh_tokens)

  -- A link resets one password once.
  pub reset_password-single_use :
      (raw later : ℕ) (new_password other_password : Text) (stored : StoredToken)
      → get_active_password_reset_token now (c.fingerprint raw) db ≡ some stored
      → OneRow (c.fingerprint raw) stored.id db.reset_tokens
      → reset_password c s now raw new_password db ≡ ok (tt, db')
      → reset_password c s later raw other_password db' ≡ err AuthError.invalid_token
  unfolding reset_password get_active_password_reset_token revoke_all_refresh_tokens
      consume_password_reset_token update_password
  reset_password-single_use raw later new_password other_password stored link one done =
      rw
        (
          reset_password-tables raw new_password stored link done,
          consumed-inactive (c.fingerprint raw) stored.id now later db.reset_tokens one,
        )
        refl

  request_password_reset-tables :
      (token_id raw sent : ℕ) (email : Text) (empresa_slug : Option Text) (user : User)
      → get_by_login c.letters db (c.letters.lower (strip email)) empresa_slug ≡ some user
      → request_password_reset c s now token_id raw email empresa_slug db ≡ (some sent, db')
      → (sent ≡ raw)
        × (db'
            ≡ save_password_reset_token user.id user.empresa_id token_id
                (c.fingerprint raw)
                (now + s.reset_minutes * 60)
                (revoke_password_reset_tokens now user.id user.empresa_id db))
  unfolding request_password_reset
  request_password_reset-tables token_id raw sent email empresa_slug user named asked = ground arith

  -- Of the links of a user only the last one requested is open.
  pub request_password_reset-one_link :
      (token_id raw sent : ℕ) (email : Text) (empresa_slug : Option Text) (user : User)
      → get_by_login c.letters db (c.letters.lower (strip email)) empresa_slug ≡ some user
      → request_password_reset c s now token_id raw email empresa_slug db ≡ (some sent, db')
      → where_rows (live_of_user user.id user.empresa_id) db'.reset_tokens
        ≡ new_token user.id user.empresa_id token_id
            (c.fingerprint sent)
            (now + s.reset_minutes * 60)
          ∷ []
  unfolding save_password_reset_token revoke_password_reset_tokens
  request_password_reset-one_link token_id raw sent email empresa_slug user named asked =
      let r = request_password_reset-tables token_id raw sent email empresa_slug user named asked in
      rw (r.0, r.1)
        (revoked-none_live now user.id user.empresa_id _ db.reset_tokens
          (rw ((same_key_iff user.empresa_id user.empresa_id).1 refl) (ground arith)))
