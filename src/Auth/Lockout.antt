-- ===== src/Auth/Lockout.antt =====
-- The lock of an account after failed logins.
use backend_ssas_rrhh.Base.{
  ℕ, ◌≡◌, ◌≢◌, refl, true, false, not, ◌&&◌, is_some, Option, none, some, List, [], ◌∷◌,
  same_key_iff, err, arith, find_first, updated?, find_first-update_where, ap, ◌∙◌,
}
use backend_ssas_rrhh.Auth.Text.{Text, Letters, strip}
use backend_ssas_rrhh.Auth.Trim.{strip-strip}
use backend_ssas_rrhh.Auth.Errors.{AuthError}
use backend_ssas_rrhh.Auth.Store.{
  UserRow, EmpresaRow, Db, login_row, login_scope, identifies, get_by_login, to_entity, entity_of,
  failed_row, record_failed_login, is_user,
}
use backend_ssas_rrhh.Auth.Jwt.{Crypto, Settings}
use backend_ssas_rrhh.Auth.UseCases.{
  Credentials, Fresh, authenticate, login_user, first_text, no_text, is_locked,
}
use backend_ssas_rrhh.Auth.Login.{handle_login, after_login, record_failure, login_text}

-- The login of `q` names the row `u`: a text that is not only white space, which may stand around it,
-- and not of an empty e-mail, which the request's schema refuses.
pub record Names (l : Letters) (q : Credentials) (db : Db) (u : UserRow) : Type 0 where
  pub some_text : no_text (strip (first_text q.email q.username)) ≡ false
  pub filled_email : q.email ≢ some []
  pub found :
      find_first (login_row l db.empresas q.empresa_slug (first_text q.email q.username)) db.users
      ≡ some u

login_text-first_text :
    (email username : Option Text)
    → email ≢ some []
    → login_text email username ≡ first_text email username
login_text-first_text none none filled = refl
login_text-first_text none (some t) filled = refl
login_text-first_text (some []) username filled = absurd (filled refl)
login_text-first_text (some (c ∷ t)) username filled = refl

pub get_by_login-Names :
    (l : Letters) (q : Credentials) (db : Db) (u : UserRow)
    → Names l q db u
    → get_by_login l db (first_text q.email q.username) q.empresa_slug
      ≡ some (to_entity db.empresas u)
unfolding get_by_login
get_by_login-Names l q db u n = ap (entity_of db.empresas) n.found

-- White space around a login does not matter.
pub get_by_login-strip :
    (l : Letters) (db : Db) (login : Text) (slug : Option Text)
    → get_by_login l db (strip login) slug ≡ get_by_login l db login slug
unfolding get_by_login
get_by_login-strip l db login slug =
    ap
      (λ plain. entity_of db.empresas (
        find_first
          (λ u.
            login_scope l db.empresas slug u
            && not (is_some u.eliminado_at)
            && identifies l (l.lower plain) u)
          db.users))
      (strip-strip login)

pub login_row-failed_row :
    (l : Letters) (es : List EmpresaRow) (slug : Option Text) (t : Text) (now m k : ℕ) (x : UserRow)
    → login_row l es slug t (failed_row now m k x) ≡ login_row l es slug t x
unfolding failed_row login_scope identifies
login_row-failed_row l es none t now m k x = refl
login_row-failed_row l es (some s) t now m k x = refl

pub is_user_self : (u : UserRow) → is_user u.id u.empresa_id u ≡ true
is_user_self u = ground (arith, (same_key_iff u.empresa_id u.empresa_id).1 refl)

-- A recorded failure leaves the account, with the failure written in its row.
pub Names-failed :
    (l : Letters) (q : Credentials) (db : Db) (u : UserRow) (now m k : ℕ)
    → Names l q db u
    → Names l q (record_failed_login now u.id u.empresa_id m k db) (failed_row now m k u)
unfolding record_failed_login
Names-failed l q db u now m k n = record {
  some_text = n.some_text;
  filled_email = n.filled_email;
  found =
      find_first-update_where _ (is_user u.id u.empresa_id) (failed_row now m k) db.users
        (login_row-failed_row l db.empresas q.empresa_slug _ now m k)
      ∙ ap (updated? (is_user u.id u.empresa_id) (failed_row now m k)) n.found
      ∙ ap some (rw (is_user_self u) refl);
}

-- One login with a wrong password for an account that is not locked: refused, and written down.
pub handle_login_wrong :
    (c : Crypto) (s : Settings) (now : ℕ) (fresh : Fresh) (q : Credentials) (db : Db) (u : UserRow)
    → Names c.letters q db u
    → is_locked now u.bloqueado_hasta ≡ false
    → c.verify q.password u.hashed_password ≡ false
    → handle_login c s now fresh q db ≡ (
      err AuthError.invalid_credentials,
      record_failed_login now u.id u.empresa_id s.max_login_attempts s.login_lock_minutes db,
    )
unfolding handle_login after_login login_user authenticate record_failure to_entity
handle_login_wrong c s now fresh q db u n unlocked wrong =
    rw
      (
        n.some_text,
        get_by_login-strip c.letters db (first_text q.email q.username) q.empresa_slug,
        get_by_login-Names c.letters q db u n,
        unlocked,
        wrong,
        login_text-first_text q.email q.username n.filled_email,
        get_by_login-Names c.letters q db u n,
      )
      refl

-- While the lock runs every login is refused, also with the right password, and nothing is written.
pub handle_login_locked :
    (c : Crypto) (s : Settings) (now : ℕ) (fresh : Fresh) (q : Credentials) (db : Db) (u : UserRow)
    → Names c.letters q db u
    → is_locked now u.bloqueado_hasta ≡ true
    → handle_login c s now fresh q db ≡ (err AuthError.account_locked, db)
unfolding handle_login after_login login_user authenticate to_entity
handle_login_locked c s now fresh q db u n locked =
    rw
      (
        n.some_text,
        get_by_login-strip c.letters db (first_text q.email q.username) q.empresa_slug,
        get_by_login-Names c.letters q db u n,
        locked,
      )
      refl
