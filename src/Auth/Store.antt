-- ===== src/Auth/Store.antt =====
-- The tables of the authentication and the two repositories over them
-- (src/ssas/auth/infrastructure/persistence). Keys, hashes and token fingerprints are only compared,
-- so they are numbers; instants are seconds. Unique indexes leave at most one row for each lookup.
use backend_ssas_rrhh.Base.{
  ℕ, ◌+◌, ◌*◌, Bool, true, false, not, ◌&&◌, Option, none, some, List, [], ◌∷◌, leb, ◌==◌, any,
  find_first, update_where, same_key, is_some, if◌then◌else◌,
}
use backend_ssas_rrhh.Auth.Text.{Text, Letters, text_eq, strip}

-- `rol`: its name, and whether it is active.
pub record RoleRow : Type 0 where
  pub nombre : Text
  pub is_active : Bool

-- `empresa`
pub record EmpresaRow : Type 0 where
  pub id : ℕ
  pub slug : Text
  pub activo : Bool
  pub eliminado_at : Option ℕ

-- `usuario`, with the roles that are assigned to it.
pub record UserRow : Type 0 where
  pub id : ℕ
  pub empresa_id : Option ℕ
  pub email : Text
  pub username : Text
  pub hashed_password : ℕ
  pub roles : List RoleRow
  pub is_active : Bool
  pub email_verified : Bool
  pub debe_cambiar_password : Bool
  pub intentos_fallidos : ℕ
  pub bloqueado_hasta : Option ℕ
  pub ultimo_intento_fallido : Option ℕ
  pub ultimo_acceso : Option ℕ
  pub eliminado_at : Option ℕ

-- `refresh_token`, `password_reset_token` and `email_verification_token`; the last two call the
-- column `revoked_at` `used_at`, as `StoredToken` does not.
pub record StoredToken : Type 0 where
  pub id : ℕ
  pub user_id : ℕ
  pub empresa_id : Option ℕ
  pub token_hash : ℕ
  pub expires_at : ℕ
  pub revoked_at : Option ℕ

pub record Db : Type 0 where
  pub empresas : List EmpresaRow
  pub users : List UserRow
  pub refresh_tokens : List StoredToken
  pub reset_tokens : List StoredToken
  pub email_tokens : List StoredToken

-- The entity `User`.
pub record User : Type 0 where
  pub id : ℕ
  pub empresa_id : Option ℕ
  pub email : Text
  pub username : Text
  pub hashed_password : ℕ
  pub roles : List Text
  pub empresa_is_active : Bool
  pub is_active : Bool
  pub email_verified : Bool
  pub must_change_password : Bool
  pub failed_login_attempts : ℕ
  pub locked_until : Option ℕ

-- `[role.name for role in model.roles if role.is_active]`
unfoldable pub active_roles : List RoleRow → List Text
active_roles [] = []
active_roles (r ∷ rest) =
    let others = active_roles rest in if r.is_active then r.nombre ∷ others else others

-- `bool(model.empresa and model.empresa.activo)`
unfoldable pub empresa_active : List EmpresaRow → Option ℕ → Bool
empresa_active es none = false
empresa_active es (some k) = elim (find_first (λ (e : EmpresaRow). e.id == k) es) [
  | none ↦ false
  | some e ↦ e.activo
]

unfoldable pub to_entity : List EmpresaRow → UserRow → User
to_entity es u = record {
  id = u.id;
  empresa_id = u.empresa_id;
  email = u.email;
  username = u.username;
  hashed_password = u.hashed_password;
  roles = active_roles u.roles;
  empresa_is_active = empresa_active es u.empresa_id;
  is_active = u.is_active;
  email_verified = u.email_verified;
  must_change_password = u.debe_cambiar_password;
  failed_login_attempts = u.intentos_fallidos;
  locked_until = u.bloqueado_hasta;
}

abbrev pub entity_of : List EmpresaRow → Option UserRow → Option User
entity_of es none = none
entity_of es (some u) = some (to_entity es u)

-- The user's company is alive and has the slug.
unfoldable pub in_empresa : Letters → List EmpresaRow → Text → Option ℕ → Bool
in_empresa l es slug none = false
in_empresa l es slug (some k) =
    any
      (λ (e : EmpresaRow).
        e.id == k
        && text_eq (l.sql_lower e.slug) (l.lower (strip slug))
        && e.activo
        && not (is_some e.eliminado_at))
      es

-- By e-mail if the login has an `@`, by user name otherwise.
unfoldable pub identifies : Letters → Text → UserRow → Bool
identifies l login u =
    if any (λ c. c == 64) login
    then text_eq (l.sql_lower u.email) login
    else text_eq (l.sql_lower u.username) login

unfoldable pub login_scope : Letters → List EmpresaRow → Option Text → UserRow → Bool
login_scope l es none u = not (is_some u.empresa_id)
login_scope l es (some slug) u = in_empresa l es slug u.empresa_id

-- The account that a login names; deleted accounts have none.
abbrev pub login_row : Letters → List EmpresaRow → Option Text → Text → UserRow → Bool
login_row l es slug login u =
    login_scope l es slug u
    && not (is_some u.eliminado_at)
    && identifies l (l.lower (strip login)) u

unfoldable pub get_by_login : Letters → Db → Text → Option Text → Option User
get_by_login l db login slug =
    entity_of db.empresas (find_first (login_row l db.empresas slug login) db.users)

-- The row of a user of a company, deleted or not.
abbrev pub is_user : ℕ → Option ℕ → UserRow → Bool
is_user user_id empresa_id u = u.id == user_id && same_key u.empresa_id empresa_id

unfoldable pub get_by_id : Db → ℕ → Option ℕ → Option User
get_by_id db user_id empresa_id =
    entity_of db.empresas
      (find_first (λ u. is_user user_id empresa_id u && not (is_some u.eliminado_at)) db.users)

abbrev pub update_user : ℕ → Option ℕ → (UserRow → UserRow) → Db → Db
update_user user_id empresa_id f db = record db {
  users = update_where (is_user user_id empresa_id) f db.users;
}

unfoldable pub update_password : ℕ → Option ℕ → ℕ → Bool → Db → Db
update_password user_id empresa_id hashed must_change =
    update_user user_id empresa_id
      (λ u. record u { hashed_password = hashed; debe_cambiar_password = must_change })

-- The lock of the account has run out, and is still in the row.
abbrev pub lock_over : ℕ → Option ℕ → Bool
lock_over now none = false
lock_over now (some t) = leb t now

-- `next_attempts`
unfoldable pub next_attempts : ℕ → UserRow → ℕ
next_attempts now u = if lock_over now u.bloqueado_hasta then 1 else u.intentos_fallidos + 1

unfoldable pub failed_row : ℕ → ℕ → ℕ → UserRow → UserRow
failed_row now max_attempts lock_minutes u = record u {
  intentos_fallidos = next_attempts now u;
  ultimo_intento_fallido = some now;
  bloqueado_hasta =
      if leb max_attempts (next_attempts now u)
      then some (now + lock_minutes * 60)
      else u.bloqueado_hasta;
}

unfoldable pub record_failed_login : ℕ → ℕ → Option ℕ → ℕ → ℕ → Db → Db
record_failed_login now user_id empresa_id max_attempts lock_minutes =
    update_user user_id empresa_id (failed_row now max_attempts lock_minutes)

unfoldable pub record_successful_login : ℕ → ℕ → Option ℕ → Db → Db
record_successful_login now user_id empresa_id = update_user user_id empresa_id (λ u. record u {
  intentos_fallidos = 0;
  bloqueado_hasta = none;
  ultimo_intento_fallido = none;
  ultimo_acceso = some now;
})

unfoldable pub mark_email_verified : ℕ → Option ℕ → Db → Db
mark_email_verified user_id empresa_id =
    update_user user_id empresa_id (λ u. record u { email_verified = true })
